-- ===== src/Ipc/Latency/Spacing.antt =====
-- The throttle on the violations of apps/web/src/lib/ipc-latency.ts.
use musaed.Base.{inl, inr, ℕ, String, false, some, List, [], ◌∷◌, ◌++◌}
use musaed.Base.{
  ◌+◌, ◌-◌, ◌≤◌, ltb, All, length, ◌≡◌, sym, subst, arith, Bool-cases, if_either, text_discrete,
}
use musaed.Base.Dict.{Dict, get, set, get-set_self, get-set_ne}
use musaed.Ipc.Latency.{
  Violation, Latency, push_bounded, Reading, is_throttled, dispatch_violation_trace, record_latency,
  reset_stats, reset_violations, trace_throttle, violation_history_max, violation_of, count_call,
  count_violation, call_of, is_over,
}
use musaed.Ipc.Latency.Bounds.{Event, recorded, stats_reset, violations_reset, page_hidden, run}

-- A later violation of the same command is at least a throttle window away.
abbrev pub IsApart : Violation → Violation → Type 0
IsApart v w = v.command ≡ w.command → v.timestamp + trace_throttle ≤ w.timestamp

abbrev pub IsSpaced : List Violation → Type 0
IsSpaced [] = Unit
IsSpaced (v ∷ vs) = All (IsApart v) vs × IsSpaced vs

-- Every violation that is kept is at or before the last dispatch of its command.
abbrev IsKnown : Dict ℕ → Violation → Type 0
IsKnown last v = (t : ℕ) × (get v.command last ≡ some t) × (v.timestamp ≤ t)

abbrev pub IsThrottled : Latency → Type 0
IsThrottled s = IsSpaced s.history × All (IsKnown s.last_trace_at) s.history

All-concat :
    {A : Type 0} (P : A → Type 0) (xs : List A) (x : A) → All P xs → P x → All P (xs ++ x ∷ [])
All-concat P [] x h p = (p, _)
All-concat P (y ∷ xs) x (q, h) p = (q, All-concat P xs x h p)

All-map :
    {A : Type 0} {P Q : A → Type 0} (xs : List A) → ((x : A) → P x → Q x) → All P xs → All Q xs
All-map [] f h = _
All-map (x ∷ xs) f (p, h) = (f x p, All-map xs f h)

concat-IsSpaced :
    (vs : List Violation) (w : Violation)
    → IsSpaced vs
    → All (λ v. IsApart v w) vs
    → IsSpaced (vs ++ w ∷ [])
concat-IsSpaced [] w h a = (_, _)
concat-IsSpaced (v ∷ vs) w (p, h) (q, a) =
    (All-concat (IsApart v) vs w p q, concat-IsSpaced vs w h a)

push_bounded-All :
    (P : Violation → Type 0) (bound : ℕ) (vs : List Violation) (w : Violation)
    → All P (vs ++ w ∷ [])
    → All P (push_bounded bound vs w)
push_bounded-All P bound [] w h = if_either (All P) (ltb bound 1) _ _ _ h
push_bounded-All P bound (v ∷ vs) w (p, h) =
    elim (Bool-cases (ltb bound (length (v ∷ vs ++ w ∷ [])))) [
      | inl e ↦ rw e h
      | inr e ↦ rw e (p, h)
    ]

push_bounded-IsSpaced :
    (bound : ℕ) (vs : List Violation) (w : Violation)
    → IsSpaced (vs ++ w ∷ [])
    → IsSpaced (push_bounded bound vs w)
push_bounded-IsSpaced bound [] w h = if_either IsSpaced (ltb bound 1) _ _ _ h
push_bounded-IsSpaced bound (v ∷ vs) w (p, h) =
    elim (Bool-cases (ltb bound (length (v ∷ vs ++ w ∷ [])))) [
      | inl e ↦ rw e h
      | inr e ↦ rw e (p, h)
    ]

-- A dispatch that the window lets through is apart from every violation that is known.
known-IsApart :
    (last : Dict ℕ) (w : Violation)
    → is_throttled (get w.command last) w.timestamp ≡ false
    → (v : Violation) → IsKnown last v
    → IsApart v w
known-IsApart last w free v (t, at, le) same = late t le (
    subst (λ o. is_throttled o w.timestamp ≡ false) (subst (λ c. get c last ≡ some t) same at) free)
  where
    late :
        (t : ℕ)
        → v.timestamp ≤ t
        → ltb (w.timestamp - t) trace_throttle ≡ false
        → v.timestamp + trace_throttle ≤ w.timestamp
    late t le e = ground arith

-- Known violations stay known when the window lets a dispatch through.
still-IsKnown :
    (last : Dict ℕ) (w : Violation)
    → is_throttled (get w.command last) w.timestamp ≡ false
    → (v : Violation) → IsKnown last v
    → IsKnown (set w.command w.timestamp last) v
still-IsKnown last w free v k = elim (text_discrete v.command w.command) [
  | yes same ↦ (
    w.timestamp,
    subst (λ c. get c (set w.command w.timestamp last) ≡ some w.timestamp) (sym same)
        (get-set_self w.command w.timestamp last),
    omega (arith, known-IsApart last w free v k same),
  )
  | no ne ↦ (k.0, cc (get-set_ne w.command v.command w.timestamp last ne, k.1), k.2)
]

dispatch-IsThrottled :
    (command : String) (budget : ℕ) (r : Reading) (s : Latency)
    → IsThrottled s
    → IsThrottled (dispatch_violation_trace command budget r s).0
unfolding dispatch_violation_trace
dispatch-IsThrottled command budget r s (spaced, known) =
    elim (Bool-cases (is_throttled (get command s.last_trace_at) r.now)) [
      | inl e ↦ rw e (spaced, known)
      | inr e ↦
          let w : Violation = violation_of command budget r in
          rw e (
            push_bounded-IsSpaced violation_history_max s.history w (
                concat-IsSpaced s.history w spaced
                  (All-map s.history (λ v. known-IsApart s.last_trace_at w e v) known)),
            push_bounded-All (IsKnown (set command r.now s.last_trace_at)) violation_history_max
                s.history w
                (All-concat (IsKnown (set command r.now s.last_trace_at)) s.history w
                  (All-map s.history (λ v. still-IsKnown s.last_trace_at w e v) known)
                  (r.now, get-set_self command r.now s.last_trace_at, ground arith)),
          )
    ]

record_latency-IsThrottled :
    (command : String) (budget : ℕ) (r : Reading) (s : Latency)
    → IsThrottled s
    → IsThrottled (record_latency command budget r s)
unfolding record_latency
record_latency-IsThrottled command budget r s h =
    if_either IsThrottled (is_over budget r.elapsed) _ _
      (dispatch-IsThrottled command budget r
        (count_violation (count_call (call_of command budget r.elapsed) s)) h)
      h

-- The events of a page that stays shown.
abbrev pub IsShown : Event → Type 0
IsShown page_hidden = ⊥
IsShown _ = Unit

-- After any calls and resets, while the page is not hidden and when this holds at first, two violations
-- of one command in the history are at least 30 seconds apart, the later one last, whatever the clock
-- did: also when it was set back.
pub run-IsThrottled :
    (es : List Event) (s : Latency) → All IsShown es → IsThrottled s → IsThrottled (run es s)
unfolding reset_stats reset_violations
run-IsThrottled [] s w h = h
run-IsThrottled (recorded command budget r ∷ es) s (_, w) h =
    run-IsThrottled es _ w (record_latency-IsThrottled command budget r s h)
run-IsThrottled (stats_reset ∷ es) s (_, w) h = run-IsThrottled es _ w h
run-IsThrottled (violations_reset ∷ es) s (_, w) h = run-IsThrottled es _ w (_, _)
run-IsThrottled (page_hidden ∷ es) s (hidden, w) h = absurd hidden
