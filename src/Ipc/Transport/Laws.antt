-- ===== src/Ipc/Transport/Laws.antt =====
-- What one call of apps/web/src/lib/ipc/transport.ts returns, shows and records.
use musaed.Base.{ℕ, String, Bool, true, false, Option, none, some, List, if◌then◌else◌}
use musaed.Base.{
  ◌+◌, ◌≡◌, refl, arith, Bool-cases, Option-cases, if_either, if_split, ◌⊎◌, inl, inr,
}
use musaed.Ipc.Latency.{
  Latency, Violation, Reading, record_latency, dispatch_violation_trace, is_over, is_throttled,
}
use musaed.Base.Dict.{get}
use musaed.Ipc.Transport.{
  not_an_object, no_payload, succeeded, refused, Invoked, import_failed, rejected, timed_out,
  answered, Called, returned, returned_true, returned_null, thrown, Toast, Options, Bridge,
  await_response, checked, read_response, and_then, caught, is_url_blocked, is_input_valid,
  call_internal,
}

-- Whether a call reaches the backend.
abbrev pub is_sent : {A D : Type 0} → Bridge A D → String → A → Bool
is_sent b command args =
    if is_url_blocked b args
    then false
    else if is_input_valid b command args
    then b.is_tauri
    else false

-- How often an answer to a command is recorded.
abbrev pub recordings : {A D E : Type 0} → Bridge A D → Options → String → Invoked D E → ℕ
recordings b o command (import_failed e) = 1
recordings b o command (rejected e) = 2
recordings b o command timed_out = 1
recordings b o command (answered not_an_object) = 2
recordings b o command (answered no_payload) = 1
recordings b o command (answered (succeeded d)) = 1
recordings b o command (answered (refused e)) = if o.throw_on_error then 2 else 1

record_latency-call_count :
    (command : String) (budget : ℕ) (r : Reading) (s : Latency)
    → (record_latency command budget r s).call_count ≡ s.call_count + 1
unfolding record_latency dispatch_violation_trace
record_latency-call_count command budget r s =
    if_either (λ (t : Latency). t.call_count ≡ s.call_count + 1) (is_over budget r.elapsed) _ _
      (if_either (λ (t : Latency × Option Violation). t.0.call_count ≡ s.call_count + 1)
        (is_throttled (get command s.last_trace_at) r.now) _ _ refl refl)
      refl

checked-call_count :
    {D : Type 0} (E : Type 0) (command : String) (budget : ℕ)
    (schema : Option (Option D → Option (Option D))) (d : Option D) (first second : Reading)
    (s : Latency)
    → (caught {E = E} command budget second (checked schema d command budget first s)).2.call_count
      ≡ s.call_count + 1
checked-call_count E command budget none none first second s =
    record_latency-call_count command budget first s
checked-call_count E command budget none (some d) first second s =
    record_latency-call_count command budget first s
checked-call_count E command budget (some f) d first second s = elim (Option-cases (f d)) [
  | inl e ↦ rw e (record_latency-call_count command budget second s)
  | inr (x, e) ↦ rw e (record_latency-call_count command budget first s)
]

sent-call_count :
    {A D E : Type 0} (b : Bridge A D) (o : Options) (command : String) (invoked : Invoked D E)
    (first second : Reading) (s : Latency)
    → (caught command (b.budget command) second (
        and_then b o command first
          (await_response command (b.budget command) first invoked s))).2.call_count
      ≡ s.call_count + recordings b o command invoked
unfolding await_response read_response
sent-call_count b o command (import_failed e) first second s =
    record_latency-call_count command (b.budget command) second s
sent-call_count b o command (rejected e) first second s = omega (
  arith,
  record_latency-call_count command (b.budget command) first s,
  record_latency-call_count command (b.budget command) second
      (record_latency command (b.budget command) first s),
)
sent-call_count b o command timed_out first second s =
    record_latency-call_count command (b.budget command) second s
sent-call_count b o command (answered not_an_object) first second s = omega (
  arith,
  record_latency-call_count command (b.budget command) first s,
  record_latency-call_count command (b.budget command) second
      (record_latency command (b.budget command) first s),
)
sent-call_count b o command (answered no_payload) first second s =
    record_latency-call_count command (b.budget command) second s
sent-call_count b o command (answered (succeeded d)) first second s =
    checked-call_count _ command (b.budget command) (b.return_schema command) d first second s
sent-call_count b o command (answered (refused e)) first second s =
    elim (Bool-cases o.throw_on_error) [
      | inl t ↦ rw t (
          omega (
            arith,
            record_latency-call_count command (b.budget command) first s,
            record_latency-call_count command (b.budget command) second
                (record_latency command (b.budget command) first s),
          ))
      | inr t ↦ rw t (record_latency-call_count command (b.budget command) first s)
    ]

-- A call that is not sent, as its address is not allowed, its arguments are not valid or there is no
-- backend, counts for nothing. One that is sent is counted once, but twice when the invocation is
-- rejected, when the answer is not an object, and when an error of the backend is to be thrown.
call_internal-call_count :
    {A D E : Type 0} (b : Bridge A D) (o : Options) (command : String) (args : A)
    (invoked : Invoked D E) (first second : Reading) (s : Latency)
    → (call_internal b o command args invoked first second s).2.call_count
      ≡ s.call_count + (if is_sent b command args then recordings b o command invoked else 0)
unfolding call_internal
call_internal-call_count b o command args invoked first second s =
    elim (Bool-cases (is_url_blocked b args)) [
      | inl e ↦ rw e (omega arith)
      | inr e ↦ elim (Bool-cases (is_input_valid b command args)) [
        | inr f ↦ rw (e, f) (omega arith)
        | inl f ↦ elim (Bool-cases b.is_tauri) [
          | inr g ↦ rw (e, f, g) (omega arith)
          | inl g ↦ rw (e, f, g) (sent-call_count b o command invoked first second s)
        ]
      ]
    ]

-- What a result tells of the call that gave it.
abbrev pub Told : {A D E : Type 0} → Bridge A D → String → A → Invoked D E → Called D E → Type 0
Told {D = D} b command args invoked (returned d) =
    (is_sent b command args ≡ true)
    × (x : Option D) × (invoked ≡ answered (succeeded x))
    × (((b.return_schema command ≡ none) × (x ≡ d))
        ⊎ ((schema : Option D → Option (Option D)) × (b.return_schema command ≡ some schema)
            × (schema x ≡ some d)))
Told b command args invoked returned_true =
    (is_sent b command args ≡ true)
    × (invoked ≡ answered (succeeded none))
    × (b.return_schema command ≡ none)
Told {E = E} b command args invoked returned_null =
    (is_sent b command args ≡ false) ⊎ ((e : E) × (invoked ≡ answered (refused e)))
Told b command args invoked (thrown e) = is_sent b command args ≡ true

checked-Told :
    {A D : Type 0} (E : Type 0) (b : Bridge A D) (command : String) (args : A) (d : Option D)
    (first second : Reading) (s : Latency)
    → is_sent b command args ≡ true
    → (schema : Option (Option D → Option (Option D))) → b.return_schema command ≡ schema
    → Told {E = E} b command args
        (answered (succeeded d))
        (caught command
          (b.budget command)
          second
          (checked schema d command (b.budget command) first s)).0
checked-Told E b command args none first second s sent none at = (sent, refl, at)
checked-Told E b command args (some d) first second s sent none at =
    (sent, some d, refl, inl (at, refl))
checked-Told E b command args d first second s sent (some f) at = elim (Option-cases (f d)) [
  | inl e ↦ rw e sent
  | inr (x, e) ↦ rw e (sent, d, refl, inr (f, at, e))
]

sent-Told :
    {A D E : Type 0} (b : Bridge A D) (o : Options) (command : String) (args : A)
    (invoked : Invoked D E) (first second : Reading) (s : Latency)
    → is_sent b command args ≡ true
    → Told b command args invoked
        (caught command (b.budget command) second (
          and_then b o command first (await_response command (b.budget command) first invoked s))).0
unfolding await_response read_response
sent-Told b o command args (import_failed e) first second s sent = sent
sent-Told b o command args (rejected e) first second s sent = sent
sent-Told b o command args timed_out first second s sent = sent
sent-Told b o command args (answered not_an_object) first second s sent = sent
sent-Told b o command args (answered no_payload) first second s sent = sent
sent-Told b o command args (answered (succeeded d)) first second s sent =
    checked-Told _ b command args d first second s sent (b.return_schema command) refl
sent-Told b o command args (answered (refused e)) first second s sent =
    elim (Bool-cases o.throw_on_error) [ inl t ↦ rw t sent | inr t ↦ rw t (inr (e, refl)) ]

-- Data is only returned when the call was sent, the backend reported success, and the data that came
-- with it was parsed by the schema of the command, if the command has one; `true` stands for data
-- that is missing where there is no schema; null means that the call was not sent or that the
-- backend refused it; and only a call that was sent throws.
pub call_internal-Told :
    {A D E : Type 0} (b : Bridge A D) (o : Options) (command : String) (args : A)
    (invoked : Invoked D E) (first second : Reading) (s : Latency)
    → Told b command args invoked (call_internal b o command args invoked first second s).0
unfolding call_internal
call_internal-Told {A = A} {D = D} {E = E} b o command args invoked first second s =
    if_split TellsOf (is_url_blocked b args) _ _ (λ e. inl (ground (arith, e)))
      (λ e.
        if_split TellsOf (is_input_valid b command args) _ _
          (λ f.
            if_split TellsOf b.is_tauri _ _
              (λ g. sent-Told b o command args invoked first second s (ground (arith, e, f)))
              (λ g. inl (ground (arith, e, f))))
          (λ f. inl (ground (arith, e, f))))
  where
    TellsOf : Called D E × List (Toast E) × Latency → Type 0
    TellsOf t = Told b command args invoked t.0
