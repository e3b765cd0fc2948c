-- ===== src/Coordination/Tokens.antt =====
-- The way of a token from the backend's event to the message: token-coalescer.ts, the streaming
-- store and coordination.ts together.
use musaed.Base.{ℕ, String, Text, true, false, some, List, [], ◌∷◌, ◌++◌}
use musaed.Base.{◌≡◌, sym, ap, ◌∙◌, ◌≢◌, arith}
use musaed.Base.{append-nil, append_assoc, All}
use musaed.Base.Dict.{get, get-set_self}
use musaed.Message.{Metrics}
use musaed.Store.Streaming.{StreamingState, owns, set_pending_metrics}
use musaed.Coalescer.{PendingBatch, add_to_batch, buffer_token, schedule_flush}
use musaed.Coordination.{App, buffer}
use musaed.Coordination.Delivery.{unseen}
use musaed.Coordination.Events.{Event, token, frame, counts, handle, run}
use musaed.Coordination.Buffering.{
  IsReady, part_for, buffer-IsReady, frame_tick-IsReady, unseen-frame_tick,
}

-- Events of a stream that runs undisturbed: tokens, of this conversation only those of the request;
-- animation frames; and counts.
abbrev pub IsQuiet : String → String → Event → Type 0
IsQuiet c r (token f d text q) = c ≡ d → q ≡ r
IsQuiet c r frame = Unit
IsQuiet c r (counts d q metrics) = Unit
IsQuiet c r _ = ⊥

-- The text that an event brings to a conversation.
abbrev text_of : String → Event → Text
text_of c (token f d text q) = part_for c d text
text_of c _ = []

-- The tokens of the conversation, joined in the order of their events.
abbrev pub tokens_of : String → List (ℕ × Event) → Text
tokens_of c [] = []
tokens_of c ((now, e) ∷ es) = text_of c e ++ tokens_of c es

counts-IsReady :
    (c r d q : String) (metrics : Metrics) (now : ℕ) (a : App)
    → IsReady c r a
    → IsReady c r (handle now (counts d q metrics) a)
      × (unseen c (handle now (counts d q metrics) a) ≡ unseen c a)
unfolding handle set_pending_metrics owns
counts-IsReady c r d q metrics now a h = ground arith

pub handle-IsReady :
    (c r : String) (now : ℕ) (e : Event) (a : App)
    → IsReady c r a
    → IsQuiet c r e
    → IsReady c r (handle now e a) × (unseen c (handle now e a) ≡ unseen c a ++ text_of c e)
unfolding handle
handle-IsReady c r now (token f d text q) a h same = buffer-IsReady c r d q f text a h same
handle-IsReady c r now frame a h _ =
    (frame_tick-IsReady c r a h, unseen-frame_tick c r a h ∙ sym (append-nil (unseen c a)))
handle-IsReady c r now (counts d q metrics) a h _ =
    let (ready, kept) = counts-IsReady c r d q metrics now a h in
    (ready, kept ∙ sym (append-nil (unseen c a)))
handle-IsReady c r now _ a h q = absurd q

-- Over such events the stream receives its tokens in their order, none twice and none lost.
pub run-unseen :
    (c r : String) (es : List (ℕ × Event)) (a : App)
    → IsReady c r a
    → All (λ e. IsQuiet c r e.1) es
    → IsReady c r (run es a) × (unseen c (run es a) ≡ unseen c a ++ tokens_of c es)
unfolding run
run-unseen c r [] a h q = (h, sym (append-nil (unseen c a)))
run-unseen c r ((now, e) ∷ es) a h (q, qs) =
    let (ready, more) = handle-IsReady c r now e a h q in
    let (done, all) = run-unseen c r es (handle now e a) ready qs in
    (
      done,
      all
          ∙ ap (λ t. t ++ tokens_of c es) more
          ∙ append_assoc (unseen c a) (text_of c e) (tokens_of c es),
    )

owns_other : (c r q : String) (s : StreamingState) → owns c r s ≡ true → q ≢ r → owns c q s ≡ false
unfolding owns
owns_other c r q s h ne = ground arith

-- The other side: while a batch of an older request waits for the conversation, a token of the
-- request that owns the stream joins that batch, and the stream never receives it.
pub buffer_lost :
    (c r : String) (id : ℕ) (text : Text) (a : App) (b : PendingBatch)
    → get c a.coalescer.pending_batches ≡ some b
    → b.request_id ≢ r
    → owns c r a.streaming ≡ true
    → unseen c (buffer (some id) c text r a) ≡ unseen c a
unfolding buffer buffer_token schedule_flush
buffer_lost c r id text a b e ne own = ground (
  arith,
  owns_other c r b.request_id a.streaming own ne,
  get-set_self c (add_to_batch text r (get c a.coalescer.pending_batches))
      a.coalescer.pending_batches,
)
