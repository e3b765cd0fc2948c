-- ===== src/Connection/Tests.antt =====
-- The laws of connection-manager.ts on a manager with two listeners.
use musaed.Base.{true, none, some, [], ◌∷◌}
use musaed.Connection.{Manager, disconnected, Setting, probed, unreachable, healthy, check_health}
use musaed.Connection.Laws.{Reported, check_health-Reported}

abbrev fresh : Manager
fresh = record {
  state = disconnected;
  interval_id = none;
  listeners = "a" ∷ "b" ∷ [];
  notices = [];
  timers = [];
}

abbrev desktop : Setting
desktop = record { is_valid_url = true; is_tauri = true; has_probe = true }

check_health-Reported_example :
    Reported fresh (check_health desktop (probed (some (healthy 12))) unreachable fresh)
check_health-Reported_example =
    check_health-Reported desktop (probed (some (healthy 12))) unreachable fresh
