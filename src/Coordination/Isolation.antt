-- ===== src/Coordination/Isolation.antt =====
-- What `stopStream` of coordination.ts leaves alone: the messages of the other conversations.
use musaed.Base.{ℕ, String, Bool, false, Option, none, some}
use musaed.Base.{◌≡◌, refl, ◌∙◌, ◌≢◌, arith, Bool-cases, inl, inr}
use musaed.Message.{no_patch}
use musaed.Store.Messages.Laws.{update_ne}
use musaed.Store.Streaming.{Flushed}
use musaed.Coordination.{
  App, Transition, StopReason, stop_transitions, drain, take_flushed, write_flushed, final_patch,
  flush_and_stop, tear_down, clear_stream_action, mark_stopped, settle, resolve_stream, stop_stream,
  is_stale, update_last_message_action,
}
use musaed.Coordination.Delivery.{shown}

shown-write_flushed_ne :
    (now : ℕ) (c d : String) (o : Option Flushed) (a : App)
    → d ≢ c
    → shown d (write_flushed now c o a) ≡ shown d a
unfolding write_flushed update_last_message_action
shown-write_flushed_ne now c d none a ne = refl
shown-write_flushed_ne now c d (some f) a ne = update_ne c d (final_patch f) false a.messages ne

shown-mark_stopped_ne :
    (now : ℕ) (c d : String) (o : Option Bool) (a : App)
    → d ≢ c
    → shown d (mark_stopped now c o a) ≡ shown d a
unfolding update_last_message_action
shown-mark_stopped_ne now c d none a ne = refl
shown-mark_stopped_ne now c d (some b) a ne =
    update_ne c d (record no_patch { stopped = some b }) false a.messages ne

shown-flush_and_stop_ne :
    (now : ℕ) (c d : String) (expected : Option String) (a : App)
    → d ≢ c
    → shown d (flush_and_stop now c expected a) ≡ shown d a
unfolding flush_and_stop take_flushed drain
shown-flush_and_stop_ne now c d expected a ne =
    elim (Bool-cases (is_stale c expected a.streaming)) [
      | inl e ↦ rw e
      | inr e ↦ rw e (
          shown-write_flushed_ne now c d (take_flushed now c (drain a)).1
            (take_flushed now c (drain a)).0 ne)
    ]

shown-resolve_stream_ne :
    (now : ℕ) (c d : String) (t : Transition) (expected : Option String) (a : App)
    → d ≢ c
    → shown d (resolve_stream now c t expected a) ≡ shown d a
unfolding resolve_stream settle tear_down clear_stream_action
shown-resolve_stream_ne now c d t expected a ne = elim (Bool-cases t.flush) [
  | inl e ↦ rw e (
      shown-mark_stopped_ne now c d t.stopped_marker (tear_down c (flush_and_stop now c expected a))
        ne
      ∙ shown-flush_and_stop_ne now c d expected a ne)
  | inr e ↦ rw e (shown-mark_stopped_ne now c d t.stopped_marker (tear_down c a) ne)
]

-- Stopping the stream of one conversation changes no message of another, whatever the reason.
pub shown-stop_stream_ne :
    (now : ℕ) (c d : String) (reason : StopReason) (expected : Option String) (a : App)
    → d ≢ c
    → shown d (stop_stream now c reason expected a) ≡ shown d a
unfolding stop_stream
shown-stop_stream_ne now c d reason expected a ne =
    ground (arith, shown-resolve_stream_ne now c d (stop_transitions reason) expected a ne)
