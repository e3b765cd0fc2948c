-- ===== src/Migration/Forward.antt =====
-- What `runMigrations` of orchestrator.ts returns, against a chain of migrations as a relation.
use musaed.Base.{ℕ, zero, suc, Option, none, some}
use musaed.Base.{◌+◌, ◌-◌, ◌≤◌, ◌<◌, ◌≡◌, refl, ◌⊎◌, inl, inr, arith, leb}
use musaed.Base.{Option-cases, Bool-cases}
use musaed.Migration.Value.{Value}
use musaed.Migration.Orchestrator.{
  ErrorCode, validation_error, missing_migration, migration_failed, MigrationResult, migrated,
  failed, MigrationFn, Config, version_of, data_of, validated, Outcome, reached, stopped,
  apply_migrations, finish, run_migrations,
}

-- `count` migrations, the first of them to version `v`, take one value to another.
pub data Chain (migrations : ℕ → Option MigrationFn) : ℕ → ℕ → Value → Value → Type 0 where
  done : {v : ℕ} {x : Value} → Chain migrations 0 v x x
  next :
      {count v : ℕ} {x y z : Value} (m : MigrationFn)
      → migrations v ≡ some m
      → m x ≡ some y
      → Chain migrations count (v + 1) y z
      → Chain migrations (suc count) v x z

-- Why no migration leads to version `v`.
pub data Blocked (migrations : ℕ → Option MigrationFn) (v : ℕ) (x : Value)
    : ErrorCode → Type 0 where
  missing : migrations v ≡ none → Blocked migrations v x missing_migration
  throws :
      (m : MigrationFn)
      → migrations v ≡ some m
      → m x ≡ none
      → Blocked migrations v x migration_failed

-- The loop against the relation.
pub data Applied (migrations : ℕ → Option MigrationFn) (left v : ℕ) (x : Value)
    : Outcome → Type 0 where
  whole : {z : Value} → Chain migrations left v x z → Applied migrations left v x (reached z)
  partial :
      {code : ErrorCode} {t : ℕ} {y : Value} (count : ℕ)
      → count < left
      → v + count ≡ t
      → Chain migrations count v x y
      → Blocked migrations t y code
      → Applied migrations left v x (stopped code t)

one_more :
    {migrations : ℕ → Option MigrationFn} {left v : ℕ} {x y : Value} {o : Outcome} (m : MigrationFn)
    → migrations v ≡ some m
    → m x ≡ some y
    → Applied migrations left (v + 1) y o
    → Applied migrations (suc left) v x o
one_more m e f (whole c) = whole (next m e f c)
one_more m e f (partial count lt at c b) =
    partial (suc count) (omega arith) (omega arith) (next m e f c) b

apply_migrations-Applied :
    (migrations : ℕ → Option MigrationFn) (left v : ℕ) (x : Value)
    → Applied migrations left v x (apply_migrations migrations left v x)
unfolding apply_migrations
apply_migrations-Applied migrations zero v x = whole done
apply_migrations-Applied migrations (suc left) v x = elim (Option-cases (migrations v)) [
  | inl e ↦ rw (e, apply_migrations) (partial 0 (omega arith) (omega arith) done (missing e))
  | inr (m, e) ↦ elim (Option-cases (m x)) [
    | inl f ↦
        rw (e, f, apply_migrations) (partial 0 (omega arith) (omega arith) done (throws m e f))
    | inr (y, f) ↦
        rw (e, f, apply_migrations)
          (one_more m e f (apply_migrations-Applied migrations left (v + 1) y))
  ]
]

Chain-unique :
    {migrations : ℕ → Option MigrationFn} {left v : ℕ} {x z : Value}
    → Chain migrations left v x z
    → apply_migrations migrations left v x ≡ reached z
unfolding apply_migrations
Chain-unique done = refl
Chain-unique (next m e f c) = rw (e, f, apply_migrations) (Chain-unique c)

-- What a run may return.
pub data Ran (persisted : Value) (config : Config) : MigrationResult → Type 0 where
  -- at the version or above: only validated, and never taken down
  current :
      {d : Value}
      → config.current_version ≤ version_of persisted
      → config.validate (data_of persisted) ≡ some d
      → Ran persisted config (migrated d (version_of persisted) (version_of persisted))
  -- every migration in turn, then validated
  upgraded :
      {y d : Value} (count : ℕ)
      → version_of persisted + suc count ≡ config.current_version
      → Chain config.migrations (suc count) (version_of persisted + 1) (data_of persisted) y
      → config.validate y ≡ some d
      → Ran persisted config (migrated d (version_of persisted) config.current_version)
  -- the first version that cannot be reached is named
  blocked :
      {code : ErrorCode} {t : ℕ} {y : Value} (count : ℕ)
      → t ≤ config.current_version
      → version_of persisted + 1 + count ≡ t
      → Chain config.migrations count (version_of persisted + 1) (data_of persisted) y
      → Blocked config.migrations t y code
      → Ran persisted config (
          failed
            (record { code = code; from_version = t - 1; to_version = t })
            (version_of persisted)
            t)
  -- the outcome of the chain is not valid
  invalid :
      {y : Value} (version : ℕ)
      → config.validate y ≡ none
      → ((version ≡ version_of persisted)
          × (y ≡ data_of persisted)
          × (config.current_version ≤ version))
        ⊎ ((count : ℕ) × (version ≡ config.current_version)
            × (version_of persisted + suc count ≡ version)
            × Chain config.migrations (suc count) (version_of persisted + 1) (data_of persisted) y)
      → Ran persisted config (
          failed
            (record { code = validation_error; from_version = version; to_version = version })
            version
            version)

finish-Ran :
    (persisted : Value) (config : Config) (left : ℕ) (o : Outcome)
    → version_of persisted + suc left ≡ config.current_version
    → Applied config.migrations (suc left) (version_of persisted + 1) (data_of persisted) o
    → Ran persisted config (finish config (version_of persisted) o)
unfolding validated
finish-Ran persisted config left (reached y) at (whole c) =
    elim (Option-cases (config.validate y)) [
      | inl bad ↦ rw (bad, validated) (invalid config.current_version bad (inr (left, refl, at, c)))
      | inr (d, good) ↦ rw (good, validated) (upgraded left at c good)
    ]
finish-Ran persisted config left (stopped code t) at (partial count lt here c b) =
    blocked count (omega arith) here c b

-- Every run returns what one of these four cases says, whatever the state, the registry and the
-- validation: migrations are applied one after the other, without a gap and from the next version
-- on; a result is always a validated value; a failure names the first version that has no migration
-- or whose migration throws; and a state that is already at the version, or above it, is not
-- migrated.
pub run_migrations-Ran :
    (persisted : Value) (config : Config) → Ran persisted config (run_migrations persisted config)
unfolding run_migrations validated
run_migrations-Ran persisted config =
    elim (Bool-cases (leb config.current_version (version_of persisted))) [
      | inl e ↦ elim (Option-cases (config.validate (data_of persisted))) [
        | inl bad ↦
            rw (e, bad, validated)
              (invalid (version_of persisted) bad (inl (refl, refl, ground arith)))
        | inr (d, good) ↦ rw (e, good, validated) (current (ground arith) good)
      ]
      | inr e ↦ rw e (after (config.current_version - version_of persisted) refl (ground arith))
    ]
  where
    after :
        (left : ℕ)
        → config.current_version - version_of persisted ≡ left
        → ¬ (left ≡ 0)
        → Ran persisted config (
            finish config (version_of persisted) (
              apply_migrations config.migrations left
                (version_of persisted + 1)
                (data_of persisted)))
    after zero at some_left = absurd (some_left refl)
    after (suc left) at some_left = finish-Ran persisted config left _ (omega arith) (
        apply_migrations-Applied config.migrations (suc left) (version_of persisted + 1)
          (data_of persisted))
