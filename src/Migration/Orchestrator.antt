-- ===== src/Migration/Orchestrator.antt =====
-- apps/web/src/lib/migrations/orchestrator.ts. A migration, a rollback or a validation that throws
-- gives `none`; what it throws is only kept as a cause for the log, and left out.
use musaed.Base.{ℕ, zero, suc, Bool, true, false, Option, none, some}
use musaed.Base.{◌+◌, ◌-◌, leb, if◌then◌else◌, ◌&&◌}
use musaed.Migration.Value.{Value, null, num, obj, Fields, get_field}

pub data ErrorCode : Type 0 where
  validation_error migration_failed invalid_version_sequence missing_migration rollback_failed :
      ErrorCode

-- `MigrationError`: its code, and the versions that it names.
pub record MigrationError : Type 0 where
  pub code : ErrorCode
  pub from_version : ℕ
  pub to_version : ℕ

-- `MigrationResult`, with its versions.
pub data MigrationResult : Type 0 where
  migrated : Value → ℕ → ℕ → MigrationResult
  failed : MigrationError → ℕ → ℕ → MigrationResult

abbrev pub MigrationFn : Type 0
MigrationFn = Value → Option Value

-- `StoreMigrationConfig`, with the parts that a run reads.
pub record Config : Type 0 where
  pub current_version : ℕ
  pub migrations : ℕ → Option MigrationFn
  pub validate : MigrationFn

abbrev pub number_or_zero : Option Value → ℕ
number_or_zero (some (num n)) = n
number_or_zero _ = 0

-- The version of a persisted state: that of its metadata, if it has any.
unfoldable pub version_of : Value → ℕ
version_of (obj o) = number_or_zero (get_field "version" o)
version_of _ = 0

abbrev unwrap : Fields → Option Value → Option Value → Value
unwrap o none d = obj o
unwrap o (some v) none = obj o
unwrap o (some v) (some d) = d

-- The data of a persisted state: wrapped with a version it is the `data` field, if there is one.
unfoldable pub data_of : Value → Value
data_of (obj o) = unwrap o (get_field "version" o) (get_field "data" o)
data_of v = v

-- `validateMigrationResult`, and the result that its callers make of it.
unfoldable pub validated : MigrationFn → Value → ℕ → ℕ → MigrationResult
validated validate v from version = elim (validate v) [
  | some d ↦ migrated d from version
  | none ↦
      failed (record { code = validation_error; from_version = version; to_version = version })
        version version
]

-- How the loop over the versions ends.
pub data Outcome : Type 0 where
  reached : Value → Outcome
  stopped : ErrorCode → ℕ → Outcome

-- The loop of `runMigrations`: `left` versions from `target` on.
unfoldable pub apply_migrations : (ℕ → Option MigrationFn) → ℕ → ℕ → Value → Outcome
apply_migrations migrations zero target v = reached v
apply_migrations migrations (suc left) target v = elim (migrations target) [
  | none ↦ stopped missing_migration target
  | some migration ↦ elim (migration v) [
    | none ↦ stopped migration_failed target
    | some w ↦ apply_migrations migrations left (target + 1) w
  ]
]

abbrev pub finish : Config → ℕ → Outcome → MigrationResult
finish config from (reached v) = validated config.validate v from config.current_version
finish config from (stopped code target) =
    failed (record { code = code; from_version = target - 1; to_version = target }) from target

-- `runMigrations`
unfoldable pub run_migrations : Value → Config → MigrationResult
unfolding version_of data_of validated apply_migrations
run_migrations persisted config =
    let from = version_of persisted in
    let v = data_of persisted in
    if leb config.current_version from
    then validated config.validate v from from
    else finish config from
        (apply_migrations config.migrations (config.current_version - from) (from + 1) v)

-- `BidirectionalMigration`
pub record Bidirectional : Type 0 where
  pub migrate : MigrationFn
  pub rollback : Option MigrationFn
  pub is_rollbackable : Bool

abbrev pub can_roll_back : Option Bidirectional → Bool
can_roll_back none = false
can_roll_back (some m) = m.is_rollbackable && (elim m.rollback [ none ↦ false | some f ↦ true ])

-- The first loop of `rollbackMigrations`: the first version, from the top, that cannot be undone.
unfoldable pub first_fixed : (ℕ → Option Bidirectional) → ℕ → ℕ → Option ℕ
first_fixed migrations zero v = none
first_fixed migrations (suc left) v =
    let rest = first_fixed migrations left (v - 1) in
    if can_roll_back (migrations v) then rest else some v

abbrev pub rollback_of : Option Bidirectional → Option MigrationFn
rollback_of none = none
rollback_of (some m) = m.rollback

-- The second loop.
unfoldable pub apply_rollbacks : (ℕ → Option Bidirectional) → ℕ → ℕ → Value → Outcome
apply_rollbacks migrations zero v d = reached d
apply_rollbacks migrations (suc left) v d = elim (rollback_of (migrations v)) [
  | none ↦ stopped rollback_failed v
  | some rollback ↦ elim (rollback d) [
    | none ↦ stopped rollback_failed v
    | some e ↦ apply_rollbacks migrations left (v - 1) e
  ]
]

abbrev pub rolled_back : ℕ → ℕ → Outcome → MigrationResult
rolled_back from to (reached d) = migrated d from to
rolled_back from to (stopped code v) =
    failed (record { code = code; from_version = v; to_version = v - 1 }) from to

-- `rollbackMigrations`
unfoldable pub rollback_migrations : Value → ℕ → ℕ → (ℕ → Option Bidirectional) → MigrationResult
unfolding first_fixed apply_rollbacks
rollback_migrations d from to migrations =
    if leb from to
    then failed (record { code = invalid_version_sequence; from_version = from; to_version = to })
        from to
    else elim (first_fixed migrations (from - to) from) [
      | some v ↦ rolled_back from to (stopped rollback_failed v)
      | none ↦ rolled_back from to (apply_rollbacks migrations (from - to) from d)
    ]

abbrev metadata_version : Option Value → Option ℕ
metadata_version (some (obj m)) = elim (get_field "version" m) [ some (num n) ↦ some n | _ ↦ none ]
metadata_version _ = none

abbrev or_null : Option Value → Value
or_null none = null
or_null (some v) = v

-- `createIdempotentMigration`; a `data` that is absent comes back as `undefined`, here `null`.
unfoldable pub create_idempotent_migration : MigrationFn → ℕ → MigrationFn
create_idempotent_migration migration target (obj o) =
    elim (metadata_version (get_field "metadata" o)) [
      | none ↦ migration (obj o)
      | some n ↦ if leb target n then some (or_null (get_field "data" o)) else migration (obj o)
    ]
create_idempotent_migration migration target v = migration v
