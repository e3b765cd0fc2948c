-- ===== src/Migration/Storage/Once.antt =====
-- What tauri-storage.ts keeps: a file is migrated once, and what is written is read back.
use musaed.Base.{
  ℕ, String, Bool, true, false, Bool-cases, ◌∙◌, if◌then◌else◌, Option, none, some, leb, ◌≤◌, ◌≡◌,
  ◌≢◌, refl, sym, ap, subst, ◌⊎◌, inl, inr, arith,
}
use musaed.Base.Dict.{get, set, get-set_self, get-set_ne}
use musaed.Migration.Value.{Value, num, str}
use musaed.Migration.Orchestrator.{MigrationResult, migrated, failed, number_or_zero}
use musaed.Migration.Forward.{Ran, current, upgraded, blocked, invalid, run_migrations-Ran}
use musaed.Migration.Storage.Endings.{all_taken, Settled, migrate_file-Settled}
use musaed.Migration.Storage.{
  Backend, takes, rejects, refuses, Answers, File, Setup, Ended, stored_version, is_truthy,
  config_of, got, unless_thrown, write_version, succeeded, migrate_from, write_migrated, parsed,
  migrate_parsed, migrate_stored, migrate_file, get_item, set_item,
}

-- The backend takes a call or rejects it.
abbrev pub is_answered : Backend → Bool
is_answered takes = true
is_answered rejects = true
is_answered refuses = false

stored_version-set :
    (u : Setup) (n : ℕ) (f : File) → stored_version u.version_key (set u.version_key (num n) f) ≡ n
stored_version-set u n f = ap number_or_zero (get-set_self u.version_key (num n) f)

-- A result of the framework reaches at least the version that it was run for.
abbrev Reaches : ℕ → MigrationResult → Type 0
Reaches n (migrated v from to) = n ≤ to
Reaches n (failed e from to) = Unit

Ran-Reaches :
    (v : Value) (u : Setup) (r : MigrationResult) → Ran v (config_of u) r → Reaches u.version r
Ran-Reaches v u _ (current ge valid) = ge
Ran-Reaches v u _ (upgraded count at chain valid) = omega arith
Ran-Reaches v u _ (blocked count le at chain b) = tt
Ran-Reaches v u _ (invalid version bad how) = tt

thrown_or_on :
    (u : Setup) (b : Backend) (f : File) (next : Ended × File)
    → ((unless_thrown u b f next).1 ≡ f) ⊎ (unless_thrown u b f next ≡ next)
thrown_or_on u takes f next = inr refl
thrown_or_on u refuses f next = inr refl
thrown_or_on u rejects f next = inl refl

-- A read that is answered throws, or gives what is stored.
thrown_or_read :
    (u : Setup) (b : Backend) (f : File) (o : Option Value) (k : Option Value → Ended × File)
    → is_answered b ≡ true
    → ((unless_thrown u b f (k (got b o))).1 ≡ f) ⊎ (unless_thrown u b f (k (got b o)) ≡ k o)
thrown_or_read u takes f o k h = inr refl
thrown_or_read u rejects f o k h = inl refl
thrown_or_read u refuses f o k h = cc

abbrev file_of : Ended × File → File
file_of r = r.1

-- A run whose reads are answered stops before the data, or goes on with what is stored.
migrate_from_reads :
    (u : Setup) (b : Answers) (name : String) (n : ℕ) (f : File)
    → is_answered b.get_data ≡ true
    → ((migrate_from u b name n f).1 ≡ f)
      ⊎ ((leb u.version n ≡ false)
          × ((migrate_from u b name n f).1 ≡ (migrate_stored u b name (get name f) f).1))
migrate_from_reads u b name n f d = elim (Bool-cases (leb u.version n)) [
  | inl e ↦ rw e (inl refl)
  | inr e ↦ elim (thrown_or_read u b.get_data f (get name f) (λ o. migrate_stored u b name o f) d) [
    | inl g ↦ inl (rw e g)
    | inr g ↦ inr (e, rw e (ap file_of g))
  ]
]

reads :
    (u : Setup) (b : Answers) (name : String) (f : File)
    → is_answered b.get_version ≡ true
    → is_answered b.get_data ≡ true
    → ((migrate_file u b name f).1 ≡ f)
      ⊎ ((leb u.version (stored_version u.version_key f) ≡ false)
          × ((migrate_file u b name f).1 ≡ (migrate_stored u b name (get name f) f).1))
unfolding migrate_file
reads u b name f v d =
    let k : Option Value → Ended × File = λ o. migrate_from u b name (number_or_zero o) f in
    elim (thrown_or_on u b.load f
      (unless_thrown u b.get_version f (k (got b.get_version (get u.version_key f))))) [
        | inl e ↦ inl e
        | inr e ↦ elim (thrown_or_read u b.get_version f (get u.version_key f) k v) [
          | inl g ↦ inl (ap file_of e ∙ g)
          | inr g ↦ elim (migrate_from_reads u b name (stored_version u.version_key f) f d) [
            | inl same ↦ inl (ap file_of e ∙ ap file_of g ∙ same)
            | inr (old, on) ↦ inr (old, ap file_of e ∙ ap file_of g ∙ on)
          ]
        ]
      ]

-- What the run does with the data: nothing, whatever the backend does, or it reaches the version.
abbrev Ends : Setup → File → (Answers → Ended × File) → Type 0
Ends u f run =
    ((b : Answers) → (run b).1 ≡ f) ⊎ (u.version ≤ stored_version u.version_key (run all_taken).1)

if-Ends :
    (u : Setup) (f : File) (test : Bool) (p q : Answers → Ended × File)
    → Ends u f p
    → Ends u f q
    → Ends u f (λ b. if test then p b else q b)
if-Ends u f true p q x y = x
if-Ends u f false p q x y = y

write_version-Ends :
    (u : Setup) (ended : Ended) (f : File) → Ends u f (λ b. write_version u b u.version ended f)
write_version-Ends u ended f = inr (omega (arith, stored_version-set u u.version f))

write_migrated-Ends :
    (u : Setup) (name : String) (r : MigrationResult) (f : File)
    → Reaches u.version r
    → Ends u f (λ b. write_migrated u b name r f)
write_migrated-Ends u name (failed e from to) f h = inl (λ b. refl)
write_migrated-Ends u name (migrated v from to) f h =
    if-Ends u f (is_truthy v) _ (λ b. (succeeded from to, f))
      (inr (omega (arith, stored_version-set u to (set name (str (u.print_json v)) f), h)))
      (inl (λ b. refl))

migrate_parsed-Ends :
    (u : Setup) (name : String) (o : Option Value) (f : File)
    → Ends u f (λ b. migrate_parsed u b name o f)
migrate_parsed-Ends u name none f = inl (λ b. refl)
migrate_parsed-Ends u name (some v) f =
    write_migrated-Ends u name _ f (Ran-Reaches v u _ (run_migrations-Ran v (config_of u)))

migrate_stored-Ends :
    (u : Setup) (name : String) (o : Option Value) (f : File)
    → Ends u f (λ b. migrate_stored u b name o f)
migrate_stored-Ends u name none f = write_version-Ends u (succeeded 0 u.version) f
migrate_stored-Ends u name (some raw) f =
    if-Ends u f (is_truthy raw) (λ b. migrate_parsed u b name (parsed u raw) f)
      (λ b. write_version u b u.version (succeeded 0 u.version) f)
      (migrate_parsed-Ends u name (parsed u raw) f) (write_version-Ends u (succeeded 0 u.version) f)

-- A file at the version or above is left as it is.
current_file :
    (u : Setup) (b : Answers) (name : String) (f : File)
    → is_answered b.get_version ≡ true
    → is_answered b.get_data ≡ true
    → u.version ≤ stored_version u.version_key f
    → (migrate_file u b name f).1 ≡ f
current_file u b name f v d h = elim (reads u b name f v d) [
  | inl same ↦ same
  | inr (old, on) ↦ absurd (ground (arith, old, h))
]

-- A run whose calls are all taken, on a file below the version.
taken_run :
    (u : Setup) (name : String) (f : File)
    → leb u.version (stored_version u.version_key f) ≡ false
    → (migrate_file u all_taken name f).1 ≡ (migrate_stored u all_taken name (get name f) f).1
unfolding migrate_file
taken_run u name f e = rw e refl

quiet_run :
    (u : Setup) (b : Answers) (name : String) (f : File)
    → is_answered b.get_version ≡ true
    → is_answered b.get_data ≡ true
    → ((c : Answers) → (migrate_stored u c name (get name f) f).1 ≡ f)
    → (migrate_file u b name f).1 ≡ f
quiet_run u b name f v d quiet = elim (reads u b name f v d) [
  | inl same ↦ same
  | inr (old, on) ↦ on ∙ quiet b
]

again :
    (u : Setup) (b : Answers) (name : String) (f : File)
    → is_answered b.get_version ≡ true
    → is_answered b.get_data ≡ true
    → (migrate_file u b name (migrate_file u all_taken name f).1).1
      ≡ (migrate_file u all_taken name f).1
again u b name f v d = elim (Bool-cases (leb u.version (stored_version u.version_key f))) [
  | inl e ↦
      subst (λ g. (migrate_file u b name g).1 ≡ g)
        (sym (current_file u all_taken name f refl refl (ground (arith, e))))
        (current_file u b name f v d (ground (arith, e)))
  | inr e ↦
      subst (λ g. (migrate_file u b name g).1 ≡ g) (sym (taken_run u name f e))
        (elim (migrate_stored-Ends u name (get name f) f) [
          | inl quiet ↦
              subst (λ g. (migrate_file u b name g).1 ≡ g) (sym (quiet all_taken))
                (quiet_run u b name f v d quiet)
          | inr done ↦ current_file u b name _ v d done
        ])
]

-- A run whose calls are all taken leaves a file that is at the version or above as it is. To an older
-- file it writes the version alone where nothing is stored, or an empty value; it writes what the
-- migrations return, with the version that they reached; and it leaves the file as it is where the
-- text does not parse, the migrations fail, or what they return counts as empty. In all of these cases
-- a further run then leaves the file as it is. In the further run the backend may take, reject or
-- refuse any call, but does not refuse the reads of the version and of the data.
pub migrate_file_once :
    (u : Setup) (b : Answers) (name : String) (f : File)
    → is_answered b.get_version ≡ true
    → is_answered b.get_data ≡ true
    → Settled u name f (stored_version u.version_key f) (migrate_file u all_taken name f)
      × ((migrate_file u b name (migrate_file u all_taken name f).1).1
          ≡ (migrate_file u all_taken name f).1)
migrate_file_once u b name f v d = (migrate_file-Settled u name f, again u b name f v d)

-- In a file that is at its version, a text that was set is read back, and reading leaves the file as
-- it is.
pub get_item-set_item :
    (u : Setup) (name value : String) (f : File)
    → u.version ≤ stored_version u.version_key f
    → u.version_key ≢ name
    → get_item u all_taken name (set_item takes name value f)
      ≡ (some value, set_item takes name value f)
unfolding get_item set_item
get_item-set_item u name value f h ne =
    let g = set name (str value) f in
    let kept : u.version ≤ stored_version u.version_key g =
      subst (λ o. u.version ≤ number_or_zero o)
        (sym (get-set_ne name u.version_key (str value) f ne)) h in
    rw (current_file u all_taken name g refl refl kept, get-set_self name (str value) f) refl
