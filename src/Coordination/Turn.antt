-- ===== src/Coordination/Turn.antt =====
-- A whole turn: a stream starts, its tokens arrive, and one call stops it (coordination.ts with
-- token-coalescer.ts, streaming-store.ts and message-store.ts).
use musaed.Base.{ℕ, String, true, Option, none, some, List, [], ◌∷◌, ◌++◌}
use musaed.Base.{◌≡◌, refl, ap, ◌∙◌, arith, append-nil, All}
use musaed.Base.Dict.{get, IsDict, get-set_self}
use musaed.Message.{Message, first_given}
use musaed.Store.Streaming
use musaed.Store.Streaming.{StreamingState, owns, set_pending_metrics}
use musaed.Store.Streaming.Laws.{buffered}
use musaed.Coordination.{
  App, StopReason, stop_transitions, stop_stream, coordinate_start_stream, buffer, frame_tick,
  is_stale,
}
use musaed.Coordination.Streams.{running, IsRegistered}
use musaed.Coordination.Stop.{resolves}
use musaed.Coordination.Delivery.{unseen, shown, Extends, stop_stream-Extends}
use musaed.Coordination.Events.{Event, token, frame, counts, handle, run}
use musaed.Coordination.Buffering.{IsReady}
use musaed.Coordination.Tokens.{IsQuiet, tokens_of, run-unseen}

-- The request that a call expects, if it expects one.
abbrev pub Expects : String → Option String → Type 0
Expects r none = Unit
Expects r (some q) = q ≡ r

resolves_of_owns :
    (c r : String) (expected : Option String) (a : App)
    → owns c r a.streaming ≡ true
    → Expects r expected
    → resolves c expected a ≡ true
unfolding owns is_stale
resolves_of_owns c r none a h e = ground arith
resolves_of_owns c r (some q) a h e = ground arith

shown-handle :
    (c r : String) (now : ℕ) (e : Event) (a : App)
    → IsQuiet c r e
    → shown c (handle now e a) ≡ shown c a
unfolding handle buffer frame_tick
shown-handle c r now (token f d text q) a _ = refl
shown-handle c r now frame a _ = refl
shown-handle c r now (counts d q metrics) a _ = refl
shown-handle c r now _ a q = absurd q

shown-run :
    (c r : String) (es : List (ℕ × Event)) (a : App)
    → All (λ e. IsQuiet c r e.1) es
    → shown c (run es a) ≡ shown c a
unfolding run
shown-run c r [] a q = refl
shown-run c r ((now, e) ∷ es) a (q, qs) =
    shown-run c r es (handle now e a) qs ∙ shown-handle c r now e a q

start-IsReady :
    (c r : String) (a : App)
    → IsRegistered a
    → IsDict a.coalescer.pending_batches
    → get c a.coalescer.pending_batches ≡ none
    → IsReady c r (coordinate_start_stream c r a)
      × (unseen c (coordinate_start_stream c r a) ≡ buffered c a.streaming)
unfolding coordinate_start_stream Streaming.start_stream owns
start-IsReady c r a reg d e = (
  record {
    registered = reg;
    keyed = d;
    owned = ground (arith, get-set_self c r (running a));
    mine = rw e tt;
  },
  rw e (append-nil (buffered c a.streaming)),
)

-- A whole turn. A stream starts with no batch waiting for its conversation; tokens, frames and
-- counts arrive, those of the conversation all for this request; then one call with a reason that
-- flushes stops the stream. The last message, and no other, gains what the store still held for the
-- conversation and then every token in order, whether the runtime had delivered a frame for it or
-- not, and carries the marker of the reason.
pub turn-Extends :
    (c r : String) (es : List (ℕ × Event)) (now : ℕ) (reason : StopReason)
    (expected : Option String) (a : App) (ms : List Message) (m : Message)
    → IsRegistered a
    → IsDict a.coalescer.pending_batches
    → get c a.coalescer.pending_batches ≡ none
    → All (λ e. IsQuiet c r e.1) es
    → Expects r expected
    → (stop_transitions reason).flush ≡ true
    → shown c a ≡ ms ++ m ∷ []
    → Extends ms m
        (buffered c a.streaming ++ tokens_of c es)
        (first_given (stop_transitions reason).stopped_marker m.stopped)
        (shown c (stop_stream now c reason expected (run es (coordinate_start_stream c r a))))
turn-Extends c r es now reason expected a ms m reg d e quiet exp flushes sh =
    let b = coordinate_start_stream c r a in
    let (ready, first) = start-IsReady c r a reg d e in
    let (done, all) = run-unseen c r es b ready quiet in
    let start_shown : shown c b ≡ ms ++ m ∷ [] = unfold coordinate_start_stream in sh in
    rw (← (all ∙ ap (λ t. t ++ tokens_of c es) first)) (
      stop_stream-Extends now c reason expected (run es b) ms m done.registered done.keyed
        (resolves_of_owns c r expected (run es b) done.owned exp) flushes
        (shown-run c r es b quiet ∙ start_shown))
