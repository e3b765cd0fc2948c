-- ===== src/Coalescer/Laws.antt =====
-- What token-coalescer.ts keeps: the batches have distinct keys, and a frame is asked for whenever
-- some batch waits.
use musaed.Base.{ℕ, String, Text, Option, none, some, [], ◌≡◌, refl, arith}
use musaed.Base.{◌⊎◌, inl, inr}
use musaed.Base.Dict.{get, IsDict, set-IsDict}
use musaed.Coalescer.{
  Coalescer, add_to_batch, buffer_token, flush_pending_batches, drain_pending_token_batch,
  schedule_flush,
}

module _ {S : Type 0} where
  -- A batch that waits has a frame to come: none is forgotten.
  pub record IsScheduled (k : Coalescer S) : Type 0 where
    pub keyed : IsDict k.pending_batches
    pub awaited : (k.pending_batches ≡ []) ⊎ ((handle : ℕ) × (k.raf_id ≡ some handle))

  pub buffer_token-IsScheduled :
      (frame : Option ℕ) (c request : String) (token : Text) (k : Coalescer S) (s : S)
      → IsScheduled k
      → IsScheduled (buffer_token frame c token request k s).0
  unfolding buffer_token schedule_flush flush_pending_batches
  buffer_token-IsScheduled frame c request token k s h = record {
    keyed = ground (
      arith,
      h.keyed,
      set-IsDict c (add_to_batch token request (get c k.pending_batches)) k.pending_batches h.keyed,
    );
    awaited = go frame k.raf_id refl;
  }
    where
      go :
          (f r : Option ℕ)
          → k.raf_id ≡ r
          → ((buffer_token f c token request k s).0.pending_batches ≡ [])
            ⊎ ((handle : ℕ) × ((buffer_token f c token request k s).0.raf_id ≡ some handle))
      go f (some handle) e = inr (handle, ground arith)
      go none none e = inl (ground arith)
      go (some handle) none e = inr (handle, ground arith)

  pub drain-IsScheduled : (k : Coalescer S) (s : S) → IsScheduled (drain_pending_token_batch k s).0
  unfolding drain_pending_token_batch
  drain-IsScheduled k s = record { keyed = tt; awaited = inl refl }
