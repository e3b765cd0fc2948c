-- ===== src/Coordination/Buffering.antt =====
-- A token between the event of the backend and the next frame: token-coalescer.ts with the streaming
-- store.
use musaed.Base.{ℕ, String, Text, true, Option, none, some, [], ◌++◌, ite}
use musaed.Base.{◌≡◌, refl, sym, ap, subst, ◌∙◌, ◌≢◌, arith, text_discrete}
use musaed.Base.{append-nil, append_assoc}
use musaed.Base.Dict.{get, set, IsDict, set-IsDict, get-set_self, get-set_ne}
use musaed.Store.Streaming.{StreamingState, owns}
use musaed.Store.Streaming.Laws.{buffered}
use musaed.Coalescer.{
  PendingBatch, add_to_batch, buffer_token, schedule_flush, flush_pending_batches,
}
use musaed.Coordination.{App, buffer, frame_tick}
use musaed.Coordination.Drain.{gated, buffered-flush_each, active-flush_each}
use musaed.Coordination.Streams.{IsRegistered}
use musaed.Coordination.Delivery.{unseen}

-- A batch that waits for the conversation, if any, is of the request.
abbrev IsOf : String → Option PendingBatch → Type 0
IsOf r none = Unit
IsOf r (some b) = b.request_id ≡ r

-- The request owns the conversation's stream, and no batch of an older request waits for it.
pub record IsReady (c r : String) (a : App) : Type 0 where
  pub registered : IsRegistered a
  pub keyed : IsDict a.coalescer.pending_batches
  pub owned : owns c r a.streaming ≡ true
  pub mine : IsOf r (get c a.coalescer.pending_batches)

pub owns_congr :
    (c r : String) (s t : StreamingState)
    → s.active_streams ≡ t.active_streams
    → owns c r s ≡ owns c r t
unfolding owns
owns_congr c r s t e = rw e

pub unseen-frame_tick :
    (c r : String) (a : App) → IsReady c r a → unseen c (frame_tick a) ≡ unseen c a
unfolding frame_tick flush_pending_batches get
unseen-frame_tick c r a h =
    append-nil _
    ∙ rw h.registered (buffered-flush_each c a.coalescer.pending_batches a.streaming h.keyed)

pub frame_tick-IsReady : (c r : String) (a : App) → IsReady c r a → IsReady c r (frame_tick a)
unfolding frame_tick flush_pending_batches get
frame_tick-IsReady c r a h = record {
  registered = h.registered;
  keyed = tt;
  owned = rw h.registered (
      owns_congr c r _ a.streaming (active-flush_each a.coalescer.pending_batches a.streaming)
      ∙ h.owned);
  mine = tt;
}

-- The state with the token in its batch, before a frame is asked for.
abbrev with_batch : String → Text → String → App → App
with_batch d text q a = record a {
  coalescer = record a.coalescer {
    pending_batches =
        set d (add_to_batch text q (get d a.coalescer.pending_batches)) a.coalescer.pending_batches;
  };
}

-- The text that a token adds to a conversation.
abbrev pub part_for : String → String → Text → Text
part_for c d text = ite (text_discrete c d) text []

gated-add_to_batch :
    (c r : String) (text : Text) (o : Option PendingBatch) (s : StreamingState)
    → owns c r s ≡ true
    → IsOf r o
    → gated c (some (add_to_batch text r o)) s ≡ gated c o s ++ text
gated-add_to_batch c r text none s h m = ground arith
gated-add_to_batch c r text (some b) s h m = ground arith

add_to_batch-IsOf :
    (r : String) (text : Text) (o : Option PendingBatch)
    → IsOf r o
    → IsOf r (some (add_to_batch text r o))
add_to_batch-IsOf r text none m = refl
add_to_batch-IsOf r text (some b) m = m

-- A token of the request goes into the conversation's own batch.
own_batch :
    (c r : String) (text : Text) (a : App)
    → IsReady c r a
    → IsReady c r (with_batch c text r a) × (unseen c (with_batch c text r a) ≡ unseen c a ++ text)
own_batch c r text a h =
    let o = get c a.coalescer.pending_batches in
    let at = get-set_self c (add_to_batch text r o) a.coalescer.pending_batches in
    (
      record {
        registered = h.registered;
        keyed = set-IsDict c (add_to_batch text r o) a.coalescer.pending_batches h.keyed;
        owned = h.owned;
        mine = rw at (add_to_batch-IsOf r text o h.mine);
      },
      rw at (
          ap (◌++◌ (buffered c a.streaming))
            (gated-add_to_batch c r text o a.streaming h.owned h.mine)
          ∙ sym (append_assoc (buffered c a.streaming) (gated c o a.streaming) text)),
    )

-- A token of another conversation leaves it alone.
other_batch :
    (c r d q : String) (text : Text) (a : App)
    → IsReady c r a
    → c ≢ d
    → IsReady c r (with_batch d text q a) × (unseen c (with_batch d text q a) ≡ unseen c a)
other_batch c r d q text a h ne =
    let b = add_to_batch text q (get d a.coalescer.pending_batches) in
    let at = get-set_ne d c b a.coalescer.pending_batches ne in
    (
      record {
        registered = h.registered;
        keyed = set-IsDict d b a.coalescer.pending_batches h.keyed;
        owned = h.owned;
        mine = rw at h.mine;
      },
      rw at refl,
    )

-- Asking for a frame changes nothing that the stream has received.
abbrev asked : Option ℕ → App → App
asked f a = record a {
  coalescer = (schedule_flush f a.coalescer a.streaming).0;
  streaming = (schedule_flush f a.coalescer a.streaming).1;
}

asked-lem :
    (c r : String) (f : Option ℕ) (a : App)
    → IsReady c r a
    → IsReady c r (asked f a) × (unseen c (asked f a) ≡ unseen c a)
unfolding schedule_flush flush_pending_batches
asked-lem c r f a h = go a.coalescer.raf_id f refl
  where
    go :
        (o g : Option ℕ)
        → a.coalescer.raf_id ≡ o
        → IsReady c r (asked g a) × (unseen c (asked g a) ≡ unseen c a)
    go (some id) g e = rw e (
      record { registered = h.registered; keyed = h.keyed; owned = h.owned; mine = h.mine },
      refl,
    )
    go none (some id) e = rw e (
      record { registered = h.registered; keyed = h.keyed; owned = h.owned; mine = h.mine },
      refl,
    )
    go none none e =
        rw e (unfold frame_tick in (frame_tick-IsReady c r a h, unseen-frame_tick c r a h))

-- A token is received once, by its conversation alone, whether it waits for a frame or not.
pub buffer-IsReady :
    (c r d q : String) (f : Option ℕ) (text : Text) (a : App)
    → IsReady c r a
    → (c ≡ d → q ≡ r)
    → IsReady c r (buffer f d text q a)
      × (unseen c (buffer f d text q a) ≡ unseen c a ++ part_for c d text)
unfolding buffer buffer_token
buffer-IsReady c r d q f text a h same =
    elim (text_discrete c d)
      as (λ x.
        IsReady c r (asked f (with_batch d text q a))
        × (unseen c (asked f (with_batch d text q a)) ≡ unseen c a ++ ite x text [])) [
          | yes p ↦
              let (ready, more) =
                subst
                  (λ e.
                    IsReady c r (with_batch e text q a)
                    × (unseen c (with_batch e text q a) ≡ unseen c a ++ text))
                  p (rw (same p) (own_batch c r text a h)) in
              let (done, kept) = asked-lem c r f (with_batch d text q a) ready in
              (done, kept ∙ more)
          | no n ↦
              let (ready, more) = other_batch c r d q text a h n in
              let (done, kept) = asked-lem c r f (with_batch d text q a) ready in
              (done, kept ∙ more ∙ sym (append-nil (unseen c a)))
        ]
