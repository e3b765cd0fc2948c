-- ===== src/Migration/Settings/Wrapped.antt =====
-- The settings of a store that `persist` of zustand has written, as it writes them:
-- `{ state: …, version: n }`, which tauri-storage.ts hands to the migrations as they are.
use musaed.Base.{text_discrete, ℕ, zero, suc, Option, none, some, ◌≡◌, refl, ◌<◌, ◌≤◌, arith}
use musaed.Migration.Value.{Value, num, obj, Fields, end, field, get_field, set_field, spread}
use musaed.Migration.Orchestrator.{
  MigrationResult, migrated, run_migrations, version_of, data_of, validated, apply_migrations,
}
use musaed.Migration.Settings.{
  settings_config, settings_migrations, settings_to_1, settings_to_2, settings_to_3, settings_to_4,
  settings_to_5, copy_field, copy_fields, ensure_bool, ensure_num,
}

abbrev pub wrapped : Value → ℕ → Value
wrapped state n = obj (field "state" state (field "version" (num n) end))

-- The `state` of the value that a migration returns.
abbrev pub state_of : MigrationResult → Option Value
state_of (migrated (obj o) _ _) = get_field "state" o
state_of _ = none

-- From version 0 or 1, the migrations succeed, and the state that `persist` wrote, whatever it is, is
-- not in the value that they return for version 5.
pub settings_lost :
    (state : Value) (n : ℕ)
    → n < 2
    → (r : Fields) × (run_migrations (wrapped state n) settings_config ≡ migrated (obj r) n 5)
      × (get_field "state" r ≡ none)
unfolding run_migrations version_of data_of validated apply_migrations settings_migrations
    settings_to_1 settings_to_2 settings_to_3 settings_to_4 settings_to_5 copy_field copy_fields
    ensure_bool ensure_num text_discrete get_field set_field spread
settings_lost state zero lt = (_, refl, refl)
settings_lost state (suc zero) lt = (_, refl, refl)
settings_lost state (suc (suc n)) lt = absurd (omega arith)

-- From version 2, 3 or 4, the state that `persist` wrote comes back as it was: none of its settings
-- is migrated.
pub settings_not_migrated :
    (state : Value) (n : ℕ)
    → 2 ≤ n
    → n < 5
    → state_of (run_migrations (wrapped state n) settings_config) ≡ some state
unfolding run_migrations version_of data_of validated apply_migrations settings_migrations
    settings_to_3 settings_to_4 settings_to_5 ensure_bool ensure_num text_discrete get_field
    set_field spread
settings_not_migrated state zero ge lt = absurd (omega arith)
settings_not_migrated state (suc zero) ge lt = absurd (omega arith)
settings_not_migrated state (suc (suc zero)) ge lt = refl
settings_not_migrated state (suc (suc (suc zero))) ge lt = refl
settings_not_migrated state (suc (suc (suc (suc zero)))) ge lt = refl
settings_not_migrated state (suc (suc (suc (suc (suc n))))) ge lt = absurd (omega arith)
