-- ===== src/Coordination/Drain.antt =====
-- Draining the coalescer into the streaming store (token-coalescer.ts and streaming-store.ts, as
-- coordination.ts joins them).
use musaed.Base.{String, Text, true, false, Option, none, some, [], ◌∷◌, ◌++◌}
use musaed.Base.{◌≡◌, refl, sym, ◌∙◌, arith, append-nil}
use musaed.Base.Dict.{Dict, get, IsDict}
use musaed.Store.Streaming.{StreamingState, owns, append_token}
use musaed.Store.Streaming.Laws.{buffered, buffered-append_token, active-append_token}
use musaed.Coalescer.{PendingBatch, flush_each, drain_pending_token_batch}
use musaed.Coordination.{App, drain}

-- The part of a conversation's batch that the streaming store will take.
abbrev pub gated : String → Option PendingBatch → StreamingState → Text
gated c none s = []
gated c (some b) s = elim (owns c b.request_id s) [ true ↦ b.text | false ↦ [] ]

-- The text that waits for the next frame and belongs to the running stream.
abbrev pub waiting : String → App → Text
waiting c a = gated c (get c a.coalescer.pending_batches) a.streaming

owns_congr :
    (c r : String) (s t : StreamingState)
    → s.active_streams ≡ t.active_streams
    → owns c r s ≡ owns c r t
unfolding owns
owns_congr c r s t e = rw e

pub owns-append_token :
    (c d r q : String) (token : Text) (s : StreamingState)
    → owns c r (append_token d token q s) ≡ owns c r s
owns-append_token c d r q token s =
    owns_congr c r (append_token d token q s) s (active-append_token d q token s)

gated-append_token :
    (c d q : String) (o : Option PendingBatch) (token : Text) (s : StreamingState)
    → gated c o (append_token d token q s) ≡ gated c o s
gated-append_token c d q none token s = refl
gated-append_token c d q (some b) token s =
    ground (arith, owns-append_token c d b.request_id q token s)

pub active-flush_each :
    (d : Dict PendingBatch) (s : StreamingState)
    → (flush_each append_token d s).active_streams ≡ s.active_streams
unfolding flush_each
active-flush_each [] s = refl
active-flush_each ((c, b) ∷ d) s =
    active-flush_each d (append_token c b.text b.request_id s)
    ∙ active-append_token c b.request_id b.text s

-- Writing the batches out appends to a conversation its own batch, if its request owns the stream.
pub buffered-flush_each :
    (c : String) (d : Dict PendingBatch) (s : StreamingState)
    → IsDict d
    → buffered c (flush_each append_token d s) ≡ buffered c s ++ gated c (get c d) s
unfolding flush_each get
buffered-flush_each c [] s h = sym (append-nil (buffered c s))
buffered-flush_each c ((j, b) ∷ d) s h = ground (
  arith,
  buffered-flush_each c d (append_token j b.text b.request_id s) h.1,
  buffered-append_token j c b.request_id b.text s,
  gated-append_token c j b.request_id (get c d) b.text s,
  append-nil (buffered c s),
  append-nil (buffered c s ++ b.text),
)

module _ (a : App) (registered : a.coalescer.bulk_flush_fn ≡ some append_token) where
  pub active-drain : (drain a).streaming.active_streams ≡ a.streaming.active_streams
  unfolding drain drain_pending_token_batch
  active-drain = rw registered (active-flush_each a.coalescer.pending_batches a.streaming)

  pub buffered-drain :
      (c : String)
      → IsDict a.coalescer.pending_batches
      → buffered c (drain a).streaming ≡ buffered c a.streaming ++ waiting c a
  unfolding drain drain_pending_token_batch
  buffered-drain c h =
      rw registered (buffered-flush_each c a.coalescer.pending_batches a.streaming h)
