-- ===== src/Migration/Storage.antt =====
-- apps/web/src/lib/tauri-storage.ts: the storage of the persisted stores, one file of the backend for
-- each, as a table. `parse_json` and `print_json` are those of the platform. The backend
-- takes a call; or it rejects it, which throws and is caught; or it refuses it, and the transport
-- returns null. The fallback of a browser without the desktop runtime, `localStorage`, is left out, as are the log entries.
pub mod Endings
pub mod Once
use musaed.Base.{
  ℕ, String, Bool, true, false, Option, none, some, List, [], ◌∷◌, leb, ◌==◌, not, if◌then◌else◌,
  ite, text_discrete,
}
use musaed.Base.Dict.{Dict, get, set, delete}
use musaed.Migration.Value.{Value, null, bool, num, str, arr, obj}
use musaed.Migration.Orchestrator.{
  MigrationFn, MigrationResult, migrated, failed, Config, run_migrations, number_or_zero,
}

abbrev pub File : Type 0
File = Dict Value

-- `z.number().catch(0).parse(rawVersion)`
abbrev pub stored_version : String → File → ℕ
stored_version version_key f = number_or_zero (get version_key f)

abbrev pub is_truthy : Value → Bool
is_truthy null = false
is_truthy (bool b) = b
is_truthy (num n) = not (n == 0)
is_truthy (str s) = ite (text_discrete s "") false true
is_truthy (arr x) = true
is_truthy (obj x) = true

-- How the migration of a file ends, and the file after it.
pub data Ended : Type 0 where
  succeeded : ℕ → ℕ → Ended
  failed_at : ℕ → ℕ → Ended

pub data Backend : Type 0 where
  takes rejects refuses : Backend

-- What the backend does with each call of a run, and with the read after it.
pub record Answers : Type 0 where
  pub load : Backend
  pub get_version : Backend
  pub get_data : Backend
  pub set_data : Backend
  pub set_version : Backend
  pub save : Backend
  pub read : Backend

-- What a storage is made for: the keys and the registry, and the functions of the platform.
pub record Setup : Type 0 where
  pub version_key : String
  pub version : ℕ
  pub migrations : ℕ → Option MigrationFn
  pub parse_json : String → Option Value
  pub print_json : Value → String

abbrev pub config_of : Setup → Config
config_of u = record {
  current_version = u.version;
  migrations = u.migrations;
  validate = λ v. some v;
}

-- `storeApi.get` and `storeApi.set`, where they do not throw.
abbrev pub got : Backend → Option Value → Option Value
got takes o = o
got _ o = some null

abbrev pub written : Backend → String → Value → File → File
written takes key v f = set key v f
written _ key v f = f

-- A call that throws ends the run, with the file as it was before the call.
abbrev pub unless_thrown : Setup → Backend → File → Ended × File → Ended × File
unless_thrown u rejects f next = (failed_at 0 u.version, f)
unless_thrown u _ f next = next

-- The write of the version, and the save.
abbrev pub write_version : Setup → Answers → ℕ → Ended → File → Ended × File
write_version u b n ended f =
    let g = written b.set_version u.version_key (num n) f in
    unless_thrown u b.set_version f (unless_thrown u b.save g (ended, g))

-- The writes after a migration that succeeded.
abbrev pub write_migrated : Setup → Answers → String → MigrationResult → File → Ended × File
write_migrated u b name (failed e from to) f = (failed_at from to, f)
write_migrated u b name (migrated v from to) f =
    if is_truthy v
    then unless_thrown u b.set_data f (
        write_version u b to (succeeded from to) (written b.set_data name (str (u.print_json v)) f))
    else (succeeded from to, f)

abbrev pub parsed : Setup → Value → Option Value
parsed u (str s) = u.parse_json s
parsed u v = some v

-- A text that does not parse throws, which is caught.
abbrev pub migrate_parsed : Setup → Answers → String → Option Value → File → Ended × File
migrate_parsed u b name none f = (failed_at 0 u.version, f)
migrate_parsed u b name (some v) f = write_migrated u b name (run_migrations v (config_of u)) f

abbrev pub migrate_stored : Setup → Answers → String → Option Value → File → Ended × File
migrate_stored u b name none f = write_version u b u.version (succeeded 0 u.version) f
migrate_stored u b name (some raw) f =
    if is_truthy raw
    then migrate_parsed u b name (parsed u raw) f
    else write_version u b u.version (succeeded 0 u.version) f

-- `runMigrations` of tauri-storage.ts past the read of the version
abbrev pub migrate_from : Setup → Answers → String → ℕ → File → Ended × File
migrate_from u b name stored f =
    if leb u.version stored
    then (succeeded stored u.version, f)
    else unless_thrown u b.get_data f (migrate_stored u b name (got b.get_data (get name f)) f)

-- `runMigrations` of tauri-storage.ts
unfoldable pub migrate_file : Setup → Answers → String → File → Ended × File
migrate_file u b name f = unless_thrown u b.load f (
    unless_thrown u b.get_version f
      (migrate_from u b name (number_or_zero (got b.get_version (get u.version_key f))) f))

abbrev pub read_text : Setup → Option Value → Option String
read_text u none = none
read_text u (some null) = none
read_text u (some (str s)) = some s
read_text u (some v) = some (u.print_json v)

abbrev pub read_item : Setup → Backend → Option Value → Option String
read_item u takes o = read_text u o
read_item u _ o = none

-- `getItem`, `setItem` and `removeItem`. Of the calls of the last two only one changes the file, and
-- the backend is what becomes of it; it is rejected also where the load before it is.
unfoldable pub get_item : Setup → Answers → String → File → Option String × File
unfolding migrate_file
get_item u b name f =
    let (ended, g) = migrate_file u b name f in (read_item u b.read (get name g), g)

unfoldable pub set_item : Backend → String → String → File → File
set_item b name value f = written b name (str value) f

unfoldable pub remove_item : Backend → String → File → File
remove_item takes name f = delete name f
remove_item b name f = f
