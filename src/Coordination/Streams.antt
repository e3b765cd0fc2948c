-- ===== src/Coordination/Streams.antt =====
-- Which streams run after each operation of coordination.ts.
use musaed.Base.{ℕ, String, Bool, Option, none, some}
use musaed.Base.{◌≡◌, refl, ap, ◌∙◌, arith, Bool-cases, inl, inr}
use musaed.Base.Dict.{Dict, delete, delete_absent, get-delete_self}
use musaed.Store.Streaming
use musaed.Store.Streaming.{StreamingState, Flushed, append_token, flush_to_conversation}
use musaed.Coordination.{
  App, Transition, drain, take_flushed, write_flushed, flush_and_stop, tear_down,
  clear_stream_action, mark_stopped, settle, resolve_stream, update_last_message_action,
}
use musaed.Coordination.Drain.{active-drain}

-- The streams that run, with the request that owns each.
abbrev pub running : App → Dict String
running a = a.streaming.active_streams

-- The callback of the coalescer, once the event listeners are set up.
abbrev pub IsRegistered : App → Type 0
IsRegistered a = a.coalescer.bulk_flush_fn ≡ some append_token

running-take_flushed :
    (now : ℕ) (c : String) (a : App) → running (take_flushed now c a).0 ≡ running a
unfolding take_flushed flush_to_conversation
running-take_flushed now c a = ground arith

running-write_flushed :
    (now : ℕ) (c : String) (o : Option Flushed) (a : App)
    → running (write_flushed now c o a) ≡ running a
unfolding write_flushed update_last_message_action Streaming.mark_flushed
running-write_flushed now c none a = refl
running-write_flushed now c (some f) a = ground arith

-- Flushing stops nothing by itself.
pub running-flush_and_stop :
    (now : ℕ) (c : String) (expected : Option String) (a : App)
    → IsRegistered a
    → running (flush_and_stop now c expected a) ≡ running a
unfolding flush_and_stop
running-flush_and_stop now c expected a r = ground (
  arith,
  active-drain a r,
  running-take_flushed now c (drain a),
  running-write_flushed now c (take_flushed now c (drain a)).1 (take_flushed now c (drain a)).0,
)

delete-delete : (c : String) (d : Dict String) → delete c (delete c d) ≡ delete c d
delete-delete c d = delete_absent c (delete c d) (get-delete_self c d)

running-tear_down : (c : String) (a : App) → running (tear_down c a) ≡ delete c (running a)
unfolding tear_down clear_stream_action Streaming.stop_stream Streaming.clear_stream
running-tear_down c a = delete-delete c (running a)

running-mark_stopped :
    (now : ℕ) (c : String) (o : Option Bool) (a : App)
    → running (mark_stopped now c o a) ≡ running a
unfolding update_last_message_action
running-mark_stopped now c none a = refl
running-mark_stopped now c (some b) a = refl

running-settle : (now : ℕ) (a : App) → running (settle now a) ≡ running a
unfolding settle
running-settle now a = refl

-- Past its guards `stopStream` removes the one stream, for every reason.
pub running-resolve_stream :
    (now : ℕ) (c : String) (t : Transition) (expected : Option String) (a : App)
    → IsRegistered a
    → running (resolve_stream now c t expected a) ≡ delete c (running a)
unfolding resolve_stream
running-resolve_stream now c t expected a r = elim (Bool-cases t.flush) [
  | inl e ↦ rw e (
      running-settle now _
      ∙ running-mark_stopped now c t.stopped_marker _
      ∙ running-tear_down c _
      ∙ ap (delete c) (running-flush_and_stop now c expected a r))
  | inr e ↦
      rw e (
        running-settle now _
        ∙ running-mark_stopped now c t.stopped_marker _
        ∙ running-tear_down c a)
]
