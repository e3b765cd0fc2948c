-- ===== src/Migration/Tests.antt =====
-- The laws of the migrations on small states.
use musaed.Base.{◌∷◌, [], texts_apart}
use musaed.Base.Dict.{get}
use musaed.Migration.Storage.{
  takes, rejects, Answers, File, Setup, migrate_file, get_item, set_item,
}
use musaed.Migration.Storage.Endings.{Settled, all_taken}
use musaed.Migration.Storage.Once.{migrate_file_once, get_item-set_item}
use musaed.Base.{ℕ, zero, suc, true, Option, none, some, ◌≡◌, refl, arith, inl, text_discrete}
use musaed.Migration.Value.{num, str, obj, Fields, end, field, get_field}
use musaed.Migration.Orchestrator.{Bidirectional, migrated, run_migrations, rollback_migrations}
use musaed.Migration.Forward.{Ran, run_migrations-Ran}
use musaed.Migration.Rollback.{RolledBack, rollback_migrations-RolledBack}
use musaed.Migration.Settings.{settings_config}
use musaed.Migration.Settings.Kept.{settings_kept}
use musaed.Migration.Settings.Wrapped.{wrapped, settings_lost}

abbrev dark : Fields
dark = field "theme" (str "dark") end

run_migrations-Ran_example :
    Ran (obj dark) settings_config (run_migrations (obj dark) settings_config)
run_migrations-Ran_example = run_migrations-Ran (obj dark) settings_config

abbrev undoable : ℕ → Option Bidirectional
undoable (suc zero) =
    some (record { migrate = λ v. some v; rollback = none; is_rollbackable = true })
undoable _ =
    some (record { migrate = λ v. some v; rollback = some (λ v. some v); is_rollbackable = true })

rollback_migrations-RolledBack_example :
    RolledBack (num 5) 3 0 undoable (rollback_migrations (num 5) 3 0 undoable)
rollback_migrations-RolledBack_example = rollback_migrations-RolledBack (num 5) 3 0 undoable

settings_kept_example :
    (r : Fields) × (run_migrations (obj dark) settings_config ≡ migrated (obj r) 0 5)
    × (get_field "theme" r ≡ some (str "dark"))
unfolding get_field text_discrete
settings_kept_example = settings_kept "theme" (str "dark") dark (refl, tt) refl refl (inl refl) refl

settings_lost_example :
    (r : Fields) × (run_migrations (wrapped (obj dark) 1) settings_config ≡ migrated (obj r) 1 5)
    × (get_field "state" r ≡ none)
settings_lost_example = settings_lost (obj dark) 1 (omega arith)

-- A file whose settings are at version 4.
abbrev old_file : File
old_file = ("version", num 4) ∷ ("settings", obj dark) ∷ []

abbrev setup : Setup
setup = record {
  version_key = "version";
  version = 5;
  migrations = settings_config.migrations;
  parse_json = λ s. none;
  print_json = λ v. "printed";
}

-- A backend that rejects the write of the data.
abbrev rejecting : Answers
rejecting = record {
  load = takes;
  get_version = takes;
  get_data = takes;
  set_data = rejects;
  set_version = takes;
  save = takes;
  read = takes;
}

migrate_file_once_example :
    Settled setup "settings" old_file 4 (migrate_file setup all_taken "settings" old_file)
    × ((migrate_file setup rejecting "settings"
          (migrate_file setup all_taken "settings" old_file).1).1
        ≡ (migrate_file setup all_taken "settings" old_file).1)
unfolding get text_discrete
migrate_file_once_example = migrate_file_once setup rejecting "settings" old_file refl refl

abbrev new_file : File
new_file = ("version", num 5) ∷ []

get_item-set_item_example :
    get_item setup all_taken "settings" (set_item takes "settings" "text" new_file)
    ≡ (some "text", set_item takes "settings" "text" new_file)
unfolding get text_discrete
get_item-set_item_example =
    get_item-set_item setup "settings" "text" new_file (omega arith)
      (texts_apart "version" "settings" refl)
