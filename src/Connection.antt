-- ===== src/Connection.antt =====
-- apps/web/src/lib/connection-manager.ts: the health checks of the Ollama server. What the probe, the
-- fetch and the browser's timers answer is explicit; a check reports in one step.
pub mod Laws
mod Tests
use musaed.Base.{
  ℕ, String, Text, Bool, true, false, Option, none, some, List, [], ◌∷◌, ◌++◌, if◌then◌else◌, not,
  ◌&&◌, text_discrete, ite, select, ◌==◌,
}
use mathlib.Core.List.{map}

pub data ConnectionState : Type 0 where
  disconnected connecting connected failed : ConnectionState

pub record OllamaHealth : Type 0 where
  pub is_running : Bool
  pub version : Option Text
  pub response_time_ms : ℕ

-- What a listener is told.
pub record Notice : Type 0 where
  pub listener : String
  pub state : ConnectionState
  pub health : Option OllamaHealth

-- The manager, with the notices that its listeners got and the intervals that the runtime runs.
pub record Manager : Type 0 where
  pub state : ConnectionState
  pub interval_id : Option ℕ
  pub listeners : List String
  pub notices : List Notice
  pub timers : List ℕ

-- What a check depends on: the policy for the URL, the runtime, and whether a probe was configured.
pub record Setting : Type 0 where
  pub is_valid_url : Bool
  pub is_tauri : Bool
  pub has_probe : Bool

-- The result of the configured probe: it throws, or returns a health or `null`.
pub data Probed : Type 0 where
  threw : Probed
  probed : Option OllamaHealth → Probed

-- The result of `fetch`: it throws, or there is a response, after some time.
pub data Fetched : Type 0 where
  unreachable : Fetched
  responded : Bool → ℕ → Fetched

unfoldable pub set_state : ConnectionState → Option OllamaHealth → Manager → Manager
set_state s h m = record m {
  state = s;
  notices = m.notices ++ map (λ l. record { listener = l; state = s; health = h }) m.listeners;
}

unfoldable pub subscribe : String → Manager → Manager
subscribe l m = record m { listeners = m.listeners ++ l ∷ [] }

-- What `subscribe` returns.
unfoldable pub unsubscribe : String → Manager → Manager
unsubscribe l m = record m {
  listeners = select (λ k. ite (text_discrete k l) false true) m.listeners;
}

-- `checkHealth` with a probe.
unfoldable pub after_probe : Probed → Manager → Manager × Option OllamaHealth
after_probe threw m = (set_state disconnected none m, none)
after_probe (probed none) m = (set_state disconnected none m, none)
after_probe (probed (some h)) m =
    if h.is_running
    then (set_state connected (some h) m, some h)
    else (set_state disconnected (some h) m, some h)

abbrev pub healthy : ℕ → OllamaHealth
healthy time = record { is_running = true; version = none; response_time_ms = time }

-- `checkHealth` with `fetch`.
unfoldable pub after_fetch : Fetched → Manager → Manager × Option OllamaHealth
after_fetch unreachable m = (set_state disconnected none m, none)
after_fetch (responded ok time) m =
    if ok
    then (set_state connected (some (healthy time)) m, some (healthy time))
    else (set_state failed none m, none)

-- `checkHealth`
unfoldable pub check_health : Setting → Probed → Fetched → Manager → Manager × Option OllamaHealth
check_health w p f m =
    if not w.is_valid_url
    then (set_state failed none m, none)
    else if w.is_tauri && not w.has_probe
    then (set_state failed none m, none)
    else if w.has_probe
    then after_probe p m
    else after_fetch f m

-- `startHealthChecks`, with the id that the runtime gives to the interval. The check that it begins
-- with is a call of its own (`reports`).
unfoldable pub start_health_checks : ℕ → Manager → Manager
start_health_checks id m = elim m.interval_id [
  | some _ ↦ m
  | none ↦ record m { interval_id = some id; timers = m.timers ++ id ∷ [] }
]

unfoldable pub stop_health_checks : Manager → Manager
stop_health_checks m = elim m.interval_id [
  | none ↦ m
  | some id ↦ record m { interval_id = none; timers = select (λ t. not (t == id)) m.timers }
]

-- The calls of one session.
pub data Call : Type 0 where
  subscribes : String → Call
  unsubscribes : String → Call
  reports : Setting → Probed → Fetched → Call
  starts : ℕ → Call
  stops : Call

unfoldable pub handle : Call → Manager → Manager
handle (subscribes l) m = subscribe l m
handle (unsubscribes l) m = unsubscribe l m
handle (reports w p f) m = (check_health w p f m).0
handle (starts id) m = start_health_checks id m
handle stops m = stop_health_checks m

unfoldable pub run : List Call → Manager → Manager
run [] m = m
run (c ∷ cs) m = run cs (handle c m)
