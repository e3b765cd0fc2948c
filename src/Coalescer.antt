-- ===== src/Coalescer.antt =====
-- apps/web/src/lib/token-coalescer.ts: tokens that wait for the next animation frame, by
-- conversation. `S` is the state that the registered callback writes to. A handle of
-- `requestAnimationFrame` is a number; `none` stands for a runtime without that function.
pub mod Laws
use musaed.Base.{ℕ, String, Text, Option, none, some, [], ◌∷◌, ◌++◌}
use musaed.Base.Dict.{Dict, get, set}

pub record PendingBatch : Type 0 where
  pub text : Text
  pub request_id : String

-- The callback: conversation, text and request.
abbrev pub BulkFlush : Type 0 → Type 0
BulkFlush S = String → Text → String → S → S

pub record Coalescer (S : Type 0) : Type 0 where
  pub pending_batches : Dict PendingBatch
  pub raf_id : Option ℕ
  pub bulk_flush_fn : Option (BulkFlush S)

-- A batch that waits keeps the request of its first token.
abbrev pub add_to_batch : Text → String → Option PendingBatch → PendingBatch
add_to_batch token request none = record { text = token; request_id = request }
add_to_batch token request (some batch) = record batch { text = batch.text ++ token }

module _ {S : Type 0} where
  -- The loop over the batches, in the order of their first token.
  unfoldable pub flush_each : BulkFlush S → Dict PendingBatch → S → S
  flush_each f [] s = s
  flush_each f ((c, batch) ∷ rest) s = flush_each f rest (f c batch.text batch.request_id s)

  -- `flushPendingBatches`: with no callback the batches are thrown away.
  unfoldable pub flush_pending_batches : Coalescer S → S → Coalescer S × S
  flush_pending_batches k s = (
    record k { pending_batches = []; raf_id = none },
    elim k.bulk_flush_fn [ none ↦ s | some f ↦ flush_each f k.pending_batches s ],
  )

  -- `scheduleFlush`, with the handle that the browser would give.
  unfoldable pub schedule_flush : Option ℕ → Coalescer S → S → Coalescer S × S
  schedule_flush frame k s = elim k.raf_id [
    | some _ ↦ (k, s)
    | none ↦ elim frame [
      | none ↦ flush_pending_batches k s
      | some handle ↦ (record k { raf_id = some handle }, s)
    ]
  ]

  abbrev pub set_bulk_flush : BulkFlush S → Coalescer S → Coalescer S
  set_bulk_flush f k = record k { bulk_flush_fn = some f }

  unfoldable pub buffer_token :
      Option ℕ → String → Text → String → Coalescer S → S → Coalescer S × S
  buffer_token frame c token request k s =
      let batch = add_to_batch token request (get c k.pending_batches) in
      schedule_flush frame (record k { pending_batches = set c batch k.pending_batches }) s

  -- `drainPendingTokenBatch`; the frame that was asked for is cancelled.
  unfoldable pub drain_pending_token_batch : Coalescer S → S → Coalescer S × S
  unfolding flush_pending_batches
  drain_pending_token_batch k s = flush_pending_batches (record k { raf_id = none }) s
