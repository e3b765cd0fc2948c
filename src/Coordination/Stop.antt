-- ===== src/Coordination/Stop.antt =====
-- The guards of `stopStream` in coordination.ts.
use musaed.Base.{ℕ, String, Bool, false, Option, none, some, ite, not, ◌&&◌}
use musaed.Base.{◌≡◌, arith, text_discrete, if◌then◌else◌}
use musaed.Base.Dict.{get, has, get-delete}
use musaed.Coordination.{App, StopReason, stop_transitions, stop_stream, is_stale}
use musaed.Coordination.Streams.{running, IsRegistered, running-resolve_stream}

-- A call that passes both guards: the stream runs, and under the expected request if one is given.
abbrev pub resolves : String → Option String → App → Bool
resolves c expected a = not (is_stale c expected a.streaming) && has c (running a)

-- `stopStream` removes the stream of its conversation when the guards pass. It never touches the
-- stream of another conversation, and a call that a guard turns away leaves every stream.
pub get-running-stop_stream :
    (now : ℕ) (c d : String) (reason : StopReason) (expected : Option String) (a : App)
    → IsRegistered a
    → get d (running (stop_stream now c reason expected a)) ≡ (
        if resolves c expected a
        then ite (text_discrete d c) none (get d (running a))
        else get d (running a))
unfolding stop_stream
get-running-stop_stream now c d reason expected a r = ground (
  arith,
  running-resolve_stream now c (stop_transitions reason) expected a r,
  get-delete c d (running a),
)

-- A conversation whose stream is gone is left alone by every later call.
stop_stream_absent :
    (now : ℕ) (c : String) (reason : StopReason) (expected : Option String) (a : App)
    → get c (running a) ≡ none
    → stop_stream now c reason expected a ≡ a
unfolding stop_stream is_stale
stop_stream_absent now c reason none a h = ground arith
stop_stream_absent now c reason (some r) a h = ground arith

absent_after :
    (now : ℕ) (c : String) (reason : StopReason) (expected : Option String) (a : App)
    → IsRegistered a
    → is_stale c expected a.streaming ≡ false
    → get c (running (stop_stream now c reason expected a)) ≡ none
absent_after now c reason expected a r fresh =
    ground (arith, get-running-stop_stream now c c reason expected a r)

-- First writer wins: once a call has resolved the stream, a later call for the same conversation
-- changes nothing in any store, whatever its reason, its time and the request it expects.
pub stop_stream_once :
    (now later : ℕ) (c : String) (first second : StopReason) (expected other : Option String)
    (a : App)
    → IsRegistered a
    → is_stale c expected a.streaming ≡ false
    → stop_stream later c second other (stop_stream now c first expected a)
      ≡ stop_stream now c first expected a
stop_stream_once now later c first second expected other a r fresh =
    stop_stream_absent later c second other (stop_stream now c first expected a)
      (absent_after now c first expected a r fresh)
