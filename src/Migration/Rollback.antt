-- ===== src/Migration/Rollback.antt =====
-- What `rollbackMigrations` of orchestrator.ts returns, against a chain of rollbacks as a relation.
use musaed.Base.{ℕ, zero, suc, true, false, Option, none, some}
use musaed.Base.{◌+◌, ◌-◌, ◌≤◌, ◌<◌, ◌≡◌, sym, subst, inl, inr, arith, leb}
use musaed.Base.{ℕ_discrete, Option-cases, Bool-cases}
use musaed.Migration.Value.{Value}
use musaed.Migration.Orchestrator.{
  rollback_failed, invalid_version_sequence, MigrationResult, migrated, failed, MigrationFn,
  Outcome, reached, stopped, Bidirectional, can_roll_back, first_fixed, rollback_of,
  apply_rollbacks, rolled_back, rollback_migrations,
}

-- `count` rollbacks, the first of them from version `v`, take one value to another.
pub data Undone (migrations : ℕ → Option Bidirectional) : ℕ → ℕ → Value → Value → Type 0 where
  done : {v : ℕ} {x : Value} → Undone migrations 0 v x x
  next :
      {count v : ℕ} {x y z : Value} (f : MigrationFn)
      → rollback_of (migrations v) ≡ some f
      → f x ≡ some y
      → Undone migrations count (v - 1) y z
      → Undone migrations (suc count) v x z

-- The versions above `to` and up to `from` that can be undone.
abbrev pub AllUndoable : (ℕ → Option Bidirectional) → ℕ → ℕ → Type 0
AllUndoable migrations to from = (v : ℕ) → to < v → v ≤ from → can_roll_back (migrations v) ≡ true

-- What the search for a version that cannot be undone tells.
abbrev Found : (ℕ → Option Bidirectional) → ℕ → ℕ → Option ℕ → Type 0
Found migrations to from none = AllUndoable migrations to from
Found migrations to from (some v) =
    (to < v) × (v ≤ from) × (can_roll_back (migrations v) ≡ false) × AllUndoable migrations v from

Found-below :
    (migrations : ℕ → Option Bidirectional) (to v : ℕ) (o : Option ℕ)
    → can_roll_back (migrations v) ≡ true
    → to < v
    → Found migrations to (v - 1) o
    → Found migrations to v o
Found-below migrations to v none e lt all = λ u below above. elim (ℕ_discrete u v) [
  | yes at ↦ subst (λ w. can_roll_back (migrations w) ≡ true) (sym at) e
  | no ne ↦ all u below (omega arith)
]
Found-below migrations to v (some w) e lt (above, below, fixed, all) = (
  above,
  omega arith,
  fixed,
  λ u over under. elim (ℕ_discrete u v) [
    | yes at ↦ subst (λ w. can_roll_back (migrations w) ≡ true) (sym at) e
    | no ne ↦ all u over (omega arith)
  ],
)

first_fixed-Found :
    (migrations : ℕ → Option Bidirectional) (left to v : ℕ)
    → to + left ≡ v
    → Found migrations to v (first_fixed migrations left v)
unfolding first_fixed
first_fixed-Found migrations zero to v at = λ u below above. absurd (omega arith)
first_fixed-Found migrations (suc left) to v at = elim (Bool-cases (can_roll_back (migrations v))) [
  | inl e ↦
      rw (e, first_fixed)
        (Found-below migrations to v _ e (omega arith)
          (first_fixed-Found migrations left to (v - 1) (omega arith)))
  | inr e ↦ rw (e, first_fixed) (omega arith, omega arith, e, λ u over under. absurd (omega arith))
]

-- The second loop against the relation: the rollback that fails is one that throws.
data Unwound (migrations : ℕ → Option Bidirectional) (left v : ℕ) (x : Value)
    : Outcome → Type 0 where
  whole : {z : Value} → Undone migrations left v x z → Unwound migrations left v x (reached z)
  partial :
      {t : ℕ} {y : Value} (count : ℕ) (f : MigrationFn)
      → count < left
      → t + count ≡ v
      → Undone migrations count v x y
      → rollback_of (migrations t) ≡ some f
      → f y ≡ none
      → Unwound migrations left v x (stopped rollback_failed t)

one_more :
    {migrations : ℕ → Option Bidirectional} {left v : ℕ} {x y : Value} {o : Outcome}
    (f : MigrationFn)
    → rollback_of (migrations v) ≡ some f
    → f x ≡ some y
    → 0 < v
    → Unwound migrations left (v - 1) y o
    → Unwound migrations (suc left) v x o
one_more f e g pos (whole c) = whole (next f e g c)
one_more f e g pos (partial count h lt at c b t) =
    partial (suc count) h (omega arith) (omega arith) (next f e g c) b t

has_rollback :
    (m : Option Bidirectional)
    → can_roll_back m ≡ true
    → (f : MigrationFn) × (rollback_of m ≡ some f)
has_rollback none e = ground arith
has_rollback (some m) e = elim (Option-cases m.rollback) [
  | inl no_one ↦ absurd (ground arith)
  | inr found ↦ found
]

undone_step :
    {migrations : ℕ → Option Bidirectional} {left v : ℕ} {x : Value}
    → (f : MigrationFn) × (rollback_of (migrations v) ≡ some f)
    → ((y : Value) → Unwound migrations left (v - 1) y (apply_rollbacks migrations left (v - 1) y))
    → 0 < v
    → Unwound migrations (suc left) v x (apply_rollbacks migrations (suc left) v x)
unfolding apply_rollbacks
undone_step {x = x} (f, e) rest pos = elim (Option-cases (f x)) [
  | inl g ↦ rw (e, g, apply_rollbacks) (partial 0 f (omega arith) (omega arith) done e g)
  | inr (y, g) ↦ rw (e, g, apply_rollbacks) (one_more f e g pos (rest y))
]

apply_rollbacks-Unwound :
    (migrations : ℕ → Option Bidirectional) (left to v : ℕ) (x : Value)
    → to + left ≡ v
    → AllUndoable migrations to v
    → Unwound migrations left v x (apply_rollbacks migrations left v x)
unfolding apply_rollbacks
apply_rollbacks-Unwound migrations zero to v x at all = whole done
apply_rollbacks-Unwound migrations (suc left) to v x at all =
    undone_step (has_rollback (migrations v) (all v (omega arith) (omega arith)))
      (λ y.
        apply_rollbacks-Unwound migrations left to (v - 1) y (omega arith)
          (λ u over under. all u over (omega arith)))
      (omega arith)

-- What a rollback may return.
pub data RolledBack (d : Value) (from to : ℕ) (migrations : ℕ → Option Bidirectional)
    : MigrationResult → Type 0 where
  refused :
      from ≤ to
      → RolledBack d from to migrations (
          failed
            (record { code = invalid_version_sequence; from_version = from; to_version = to })
            from
            to)
  fixed :
      (v : ℕ)
      → to < v
      → v ≤ from
      → can_roll_back (migrations v) ≡ false
      → AllUndoable migrations v from
      → RolledBack d from to migrations
          (failed (record { code = rollback_failed; from_version = v; to_version = v - 1 }) from to)
  undone :
      {e : Value}
      → to < from
      → AllUndoable migrations to from
      → Undone migrations (from - to) from d e
      → RolledBack d from to migrations (migrated e from to)
  throws :
      {t : ℕ} {y : Value} (count : ℕ) (f : MigrationFn)
      → count < from - to
      → t + count ≡ from
      → AllUndoable migrations to from
      → Undone migrations count from d y
      → rollback_of (migrations t) ≡ some f
      → f y ≡ none
      → RolledBack d from to migrations
          (failed (record { code = rollback_failed; from_version = t; to_version = t - 1 }) from to)

Unwound-RolledBack :
    (d : Value) (from to : ℕ) (migrations : ℕ → Option Bidirectional) (o : Outcome)
    → to < from
    → AllUndoable migrations to from
    → Unwound migrations (from - to) from d o
    → RolledBack d from to migrations (rolled_back from to o)
Unwound-RolledBack d from to migrations _ lt all (whole c) = undone lt all c
Unwound-RolledBack d from to migrations _ lt all (partial count f less at c e g) =
    throws count f less at all c e g

searched :
    (d : Value) (from to : ℕ) (migrations : ℕ → Option Bidirectional) (o : Option ℕ)
    → to < from
    → Found migrations to from o
    → RolledBack d from to migrations (elim o [
      | some v ↦ rolled_back from to (stopped rollback_failed v)
      | none ↦ rolled_back from to (apply_rollbacks migrations (from - to) from d)
    ])
searched d from to migrations none lt all =
    Unwound-RolledBack d from to migrations _ lt all
      (apply_rollbacks-Unwound migrations (from - to) to from d (omega arith) all)
searched d from to migrations (some v) lt (above, below, stuck, all) = fixed v above below stuck all

-- Every rollback returns what one of these four cases says, whatever the value, the versions and
-- the registry: it is refused unless the target is lower; when a version on the way cannot be
-- undone, the highest such version is named, and no rollback runs; otherwise the rollbacks are
-- applied one after the other from the top, and the only failure left is a rollback that throws,
-- whose version is named.
pub rollback_migrations-RolledBack :
    (d : Value) (from to : ℕ) (migrations : ℕ → Option Bidirectional)
    → RolledBack d from to migrations (rollback_migrations d from to migrations)
unfolding rollback_migrations
rollback_migrations-RolledBack d from to migrations = elim (Bool-cases (leb from to)) [
  | inl e ↦ rw e (refused (ground arith))
  | inr e ↦ rw e (
      searched d from to migrations _ (ground arith)
        (first_fixed-Found migrations (from - to) to from (ground arith)))
]
