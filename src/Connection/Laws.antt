-- ===== src/Connection/Laws.antt =====
-- What a health check of connection-manager.ts reports, and the intervals over every session.
use musaed.Base.{
  ℕ, Bool, true, false, Option, none, some, List, [], ◌∷◌, ◌++◌, ◌≡◌, refl, arith, not, if_split,
  sym, ◌&&◌,
}
use mathlib.Core.List.{map}
use musaed.Connection.{
  ConnectionState, connected, disconnected, failed, OllamaHealth, Manager, Setting, Probed, threw,
  probed, Fetched, unreachable, responded, set_state, subscribe, unsubscribe, after_probe,
  after_fetch, check_health, start_health_checks, stop_health_checks, Call, subscribes,
  unsubscribes, reports, starts, stops, handle, run,
}

-- The server is up, as far as a result tells.
abbrev pub is_up : Option OllamaHealth → Bool
is_up none = false
is_up (some h) = h.is_running

abbrev pub is_connected : ConnectionState → Bool
is_connected connected = true
is_connected _ = false

-- What a check with this result leaves: the state agrees with the result, every listener got one
-- notice, which names the new state, and the interval is as it was.
pub record Reported (m : Manager) (out : Manager × Option OllamaHealth) : Type 0 where
  pub agrees : is_connected out.0.state ≡ is_up out.1
  pub tells :
      (h : Option OllamaHealth) × (out.0.notices
        ≡ m.notices
          ++ map (λ l. record { listener = l; state = out.0.state; health = h }) m.listeners)
  pub same_listeners : out.0.listeners ≡ m.listeners
  pub same_interval : (out.0.interval_id ≡ m.interval_id) × (out.0.timers ≡ m.timers)

set_state-Reported :
    (s : ConnectionState) (h r : Option OllamaHealth) (m : Manager)
    → is_connected s ≡ is_up r
    → Reported m (set_state s h m, r)
unfolding set_state
set_state-Reported s h r m e = record {
  agrees = e;
  tells = (h, refl);
  same_listeners = refl;
  same_interval = (refl, refl);
}

after_probe-Reported : (p : Probed) (m : Manager) → Reported m (after_probe p m)
unfolding after_probe
after_probe-Reported threw m = set_state-Reported disconnected none none m refl
after_probe-Reported (probed none) m = set_state-Reported disconnected none none m refl
after_probe-Reported (probed (some h)) m =
    if_split (Reported m) h.is_running _ _
      (λ e. set_state-Reported connected (some h) (some h) m (sym e))
      (λ e. set_state-Reported disconnected (some h) (some h) m (sym e))

after_fetch-Reported : (f : Fetched) (m : Manager) → Reported m (after_fetch f m)
unfolding after_fetch
after_fetch-Reported unreachable m = set_state-Reported disconnected none none m refl
after_fetch-Reported (responded true time) m = set_state-Reported connected _ _ m refl
after_fetch-Reported (responded false time) m = set_state-Reported failed none none m refl

-- A check, whatever it meets, sets the state to connected exactly when it returns a health that
-- says the server runs, and tells every listener the new state once.
pub check_health-Reported :
    (w : Setting) (p : Probed) (f : Fetched) (m : Manager) → Reported m (check_health w p f m)
unfolding check_health
check_health-Reported w p f m =
    if_split (Reported m) (not w.is_valid_url) _ _ (λ _. set_state-Reported failed none none m refl)
      (λ _.
        if_split (Reported m) (w.is_tauri && not w.has_probe) _ _
          (λ _. set_state-Reported failed none none m refl)
          (λ _.
            if_split (Reported m) w.has_probe _ _ (λ _. after_probe-Reported p m)
              (λ _. after_fetch-Reported f m)))

abbrev timers_of : Option ℕ → List ℕ
timers_of none = []
timers_of (some id) = id ∷ []

-- The runtime runs the interval that the manager knows, and no other.
abbrev pub IsTimed : Manager → Type 0
IsTimed m = m.timers ≡ timers_of m.interval_id

start-IsTimed : (id : ℕ) (m : Manager) → IsTimed m → IsTimed (start_health_checks id m)
unfolding start_health_checks
start-IsTimed id m h = ground arith

stop-IsTimed : (m : Manager) → IsTimed m → IsTimed (stop_health_checks m)
unfolding stop_health_checks
stop-IsTimed m h = ground arith

handle-IsTimed : (c : Call) (m : Manager) → IsTimed m → IsTimed (handle c m)
unfolding handle subscribe unsubscribe
handle-IsTimed (subscribes l) m h = h
handle-IsTimed (unsubscribes l) m h = h
handle-IsTimed (reports w p f) m h =
    let (same, timers) = (check_health-Reported w p f m).same_interval in rw (same, timers) h
handle-IsTimed (starts id) m h = start-IsTimed id m h
handle-IsTimed stops m h = stop-IsTimed m h

-- However often checks are started and stopped, the runtime runs one interval while the manager
-- knows one, that one, and none otherwise: no interval is started twice or left behind.
run-IsTimed : (cs : List Call) (m : Manager) → IsTimed m → IsTimed (run cs m)
unfolding run
run-IsTimed [] m h = h
run-IsTimed (c ∷ cs) m h = run-IsTimed cs (handle c m) (handle-IsTimed c m h)
