-- ===== src/Persistence/Laws.antt =====
-- What message-persistence.ts promises of its retries.
use musaed.Base.{
  ℕ, zero, suc, true, false, ◌+◌, ◌*◌, ◌≤◌, ◌<◌, length, ◌≡◌, refl, arith, ◌⊎◌, inl, inr, if_split,
  Bool-cases, not, ℕ_discrete, subst, sym,
}
use musaed.Persistence.{
  Attempt, taken, refused, thrown, throws, max_retries, calculate_backoff, doubled,
  PersistenceResult, after_wait, persist_with_retry, persist_message,
}

-- An attempt that returns: the message was taken, or refused.
abbrev pub Returned : Attempt → Type 0
Returned a = (a ≡ taken) ⊎ (a ≡ refused)

thrown_of : (a : Attempt) → throws a ≡ true → a ≡ thrown
thrown_of taken e = cc
thrown_of refused e = cc
thrown_of thrown e = refl

no_throw : (a : Attempt) → throws a ≡ false → Returned a
no_throw taken e = inl refl
no_throw refused e = inr refl
no_throw thrown e = cc

-- The attempts from `first` to before `last` all threw.
abbrev pub AllFail : (ℕ → Attempt) → ℕ → ℕ → Type 0
AllFail answer first last = (k : ℕ) → first ≤ k → k < last → answer k ≡ thrown

-- What a run of attempts from `first` to `last` ends with.
pub record Persisted (answer : ℕ → Attempt) (first last : ℕ) (r : PersistenceResult) : Type 0 where
  pub first_bound : first ≤ r.retries
  pub last_bound : r.retries ≤ last
  pub failures : AllFail answer first r.retries
  pub outcome :
      ((r.success ≡ true) × Returned (answer r.retries))
      ⊎ ((r.success ≡ false) × (r.retries ≡ last) × (answer last ≡ thrown))
  pub waits_lem : length r.waits + first ≡ r.retries

last_try :
    (answer : ℕ → Attempt) (n : ℕ)
    → ((not (throws (answer n)) ≡ true) × Returned (answer n))
      ⊎ ((not (throws (answer n)) ≡ false) × (n ≡ n + 0) × (answer (n + 0) ≡ thrown))
last_try answer n = elim (Bool-cases (throws (answer n))) [
  | inl e ↦ inr (
    ground (arith, e),
    omega arith,
    subst (λ k. answer k ≡ thrown) (the_same n) (thrown_of (answer n) e),
  )
  | inr e ↦ inl (ground (arith, e), no_throw (answer n) e)
]
  where
    the_same : (m : ℕ) → m ≡ m + 0
    the_same m = omega arith

one_later :
    (answer : ℕ → Attempt) (left first wait : ℕ) (r : PersistenceResult)
    → throws (answer first) ≡ true
    → Persisted answer (first + 1) (first + 1 + left) r
    → Persisted answer first (first + suc left) (after_wait wait r)
one_later answer left first wait r e p = record {
  first_bound = omega (arith, p.first_bound);
  last_bound = omega (arith, p.last_bound);
  failures = λ k lo hi. elim (ℕ_discrete k first) [
    | yes at ↦ subst (λ i. answer i ≡ thrown) (sym at) (thrown_of (answer first) e)
    | no ne ↦ p.failures k (omega arith) hi
  ];
  outcome =
      subst
        (λ n.
          ((r.success ≡ true) × Returned (answer r.retries))
          ⊎ ((r.success ≡ false) × (r.retries ≡ n) × (answer n ≡ thrown)))
        (later_last first left) p.outcome;
  waits_lem = omega (arith, p.waits_lem);
}
  where
    later_last : (m n : ℕ) → m + 1 + n ≡ m + suc n
    later_last m n = omega arith

persist_with_retry-Persisted :
    (answer : ℕ → Attempt) (jitter : ℕ → ℕ) (left first : ℕ)
    → Persisted answer first (first + left) (persist_with_retry answer jitter left first)
unfolding persist_with_retry
persist_with_retry-Persisted answer jitter zero first = record {
  first_bound = omega arith;
  last_bound = omega arith;
  failures = λ k lo hi. absurd (omega arith);
  outcome = last_try answer first;
  waits_lem = omega arith;
}
persist_with_retry-Persisted answer jitter (suc left) first =
    if_split (Persisted answer first (first + suc left)) (throws (answer first)) _ _
      (λ e.
        one_later answer left first (calculate_backoff (jitter first) first) _ e
          (persist_with_retry-Persisted answer jitter left (first + 1)))
      (λ e. record {
        first_bound = omega arith;
        last_bound = omega arith;
        failures = λ k lo hi. absurd (omega arith);
        outcome = inl (refl, no_throw (answer first) e);
        waits_lem = omega arith;
      })

-- A message is tried at most four times, and is reported as persisted exactly when one of the attempts
-- did not throw, also where the backend refused it: the retries that are reported are the number of
-- the first such attempt, or three when all threw; and there was one wait before each retry.
pub persist_message-Persisted :
    (answer : ℕ → Attempt) (jitter : ℕ → ℕ) → Persisted answer 0 3 (persist_message answer jitter)
unfolding persist_message
persist_message-Persisted answer jitter = persist_with_retry-Persisted answer jitter 3 0

-- With a jitter of at most a fifth, the wait before each retry is between half a second and five
-- seconds, and at least twice as long as the least wait before.
pub calculate_backoff_bounds :
    (jitter retry : ℕ)
    → retry < max_retries
    → 5 * jitter ≤ doubled retry 500
    → (doubled retry 500 ≤ calculate_backoff jitter retry)
      × (5 * calculate_backoff jitter retry ≤ 6 * doubled retry 500)
      × (calculate_backoff jitter retry ≤ 2400)
unfolding calculate_backoff
calculate_backoff_bounds jitter zero lt small = (omega arith, omega arith, omega arith)
calculate_backoff_bounds jitter (suc zero) lt small = (omega arith, omega arith, omega arith)
calculate_backoff_bounds jitter (suc (suc zero)) lt small = (omega arith, omega arith, omega arith)
calculate_backoff_bounds jitter (suc (suc (suc n))) lt small = absurd (omega arith)
