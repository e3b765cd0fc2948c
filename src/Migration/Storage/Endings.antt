-- ===== src/Migration/Storage/Endings.antt =====
-- How a run of `runMigrations` of tauri-storage.ts ends where the backend takes each call.
use musaed.Base.{
  ℕ, String, true, false, Option, none, some, leb, ◌≤◌, ◌<◌, ◌≡◌, refl, ◌⊎◌, inl, inr, arith,
  if_split,
}
use musaed.Base.Dict.{get, set}
use musaed.Migration.Value.{Value, num, str}
use musaed.Migration.Orchestrator.{MigrationError, MigrationResult, migrated, failed}
use musaed.Migration.Forward.{Ran, run_migrations-Ran}
use musaed.Migration.Storage.{
  takes, Answers, File, Setup, Ended, succeeded, failed_at, stored_version, is_truthy, config_of,
  write_migrated, parsed, migrate_parsed, migrate_stored, migrate_file,
}

-- Every call is taken.
abbrev pub all_taken : Answers
all_taken = record {
  load = takes;
  get_version = takes;
  get_data = takes;
  set_data = takes;
  set_version = takes;
  save = takes;
  read = takes;
}

-- How a run whose calls are all taken ends, and the file after it. `n` is the version in the file.
pub data Settled (u : Setup) (name : String) (f : File) (n : ℕ) : Ended × File → Type 0 where
  kept : u.version ≤ n → Settled u name f n (succeeded n u.version, f)
  started :
      n < u.version
      → (get name f ≡ none) ⊎ ((raw : Value) × (get name f ≡ some raw) × (is_truthy raw ≡ false))
      → Settled u name f n (succeeded 0 u.version, set u.version_key (num u.version) f)
  unparsed :
      n < u.version
      → (raw : Value) → get name f ≡ some raw
      → parsed u raw ≡ none
      → Settled u name f n (failed_at 0 u.version, f)
  -- the migrations of what was stored
  stopped :
      n < u.version
      → (raw v : Value) (e : MigrationError) (from to : ℕ) → get name f ≡ some raw
      → parsed u raw ≡ some v
      → Ran v (config_of u) (failed e from to)
      → Settled u name f n (failed_at from to, f)
  emptied :
      n < u.version
      → (raw v w : Value) (from to : ℕ) → get name f ≡ some raw
      → parsed u raw ≡ some v
      → Ran v (config_of u) (migrated w from to)
      → is_truthy w ≡ false
      → Settled u name f n (succeeded from to, f)
  moved :
      n < u.version
      → (raw v w : Value) (from to : ℕ) → get name f ≡ some raw
      → parsed u raw ≡ some v
      → Ran v (config_of u) (migrated w from to)
      → is_truthy w ≡ true
      → Settled u name f n
          (succeeded from to, set u.version_key (num to) (set name (str (u.print_json w)) f))

module _ (u : Setup) (name : String) (f : File) (n : ℕ) (old : n < u.version) where
  write_migrated-Settled :
      (raw v : Value) (r : MigrationResult)
      → get name f ≡ some raw
      → parsed u raw ≡ some v
      → Ran v (config_of u) r
      → Settled u name f n (write_migrated u all_taken name r f)
  write_migrated-Settled raw v (failed e from to) at p ran = stopped old raw v e from to at p ran
  write_migrated-Settled raw v (migrated w from to) at p ran =
      if_split (Settled u name f n) (is_truthy w) _ _
        (λ full. moved old raw v w from to at p ran full)
        (λ empty. emptied old raw v w from to at p ran empty)

  migrate_parsed-Settled :
      (raw : Value) (o : Option Value)
      → get name f ≡ some raw
      → parsed u raw ≡ o
      → Settled u name f n (migrate_parsed u all_taken name o f)
  migrate_parsed-Settled raw none at p = unparsed old raw at p
  migrate_parsed-Settled raw (some v) at p =
      write_migrated-Settled raw v _ at p (run_migrations-Ran v (config_of u))

  migrate_stored-Settled :
      (o : Option Value) → get name f ≡ o → Settled u name f n (migrate_stored u all_taken name o f)
  migrate_stored-Settled none at = started old (inl at)
  migrate_stored-Settled (some raw) at =
      if_split (Settled u name f n) (is_truthy raw) _ _
        (λ _. migrate_parsed-Settled raw (parsed u raw) at refl)
        (λ empty. started old (inr (raw, at, empty)))

pub migrate_file-Settled :
    (u : Setup) (name : String) (f : File)
    → Settled u name f (stored_version u.version_key f) (migrate_file u all_taken name f)
unfolding migrate_file
migrate_file-Settled u name f =
    let n = stored_version u.version_key f in
    if_split (Settled u name f n) (leb u.version n) _ _ (λ e. kept (ground (arith, e)))
      (λ e. migrate_stored-Settled u name f n (ground (arith, e)) (get name f) refl)
