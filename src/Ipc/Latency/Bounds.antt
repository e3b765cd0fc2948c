-- ===== src/Ipc/Latency/Bounds.antt =====
-- The bounds on the state of apps/web/src/lib/ipc-latency.ts.
use musaed.Base.{inl, inr, ℕ, String, List, [], ◌∷◌, ◌++◌}
use musaed.Base.{
  ◌+◌, ◌≤◌, ◌<◌, min, length, length-append, length-drop, ◌≡◌, refl, arith, Bool-cases, if_either,
}
use musaed.Base.Dict.{get}
use musaed.Ipc.Latency.{
  Call, Latency, push_bounded, Reading, is_throttled, dispatch_violation_trace, record_latency,
  violation_of, call_of, count_call, count_violation, is_over, reset_stats, reset_violations,
  hide_page, violation_history_max, calls_history_max,
}

-- What happens to the counters.
pub data Event : Type 0 where
  recorded : String → ℕ → Reading → Event
  stats_reset violations_reset page_hidden : Event

abbrev pub handle : Event → Latency → Latency
handle (recorded command budget r) s = record_latency command budget r s
handle stats_reset s = reset_stats s
handle violations_reset s = reset_violations s
handle page_hidden s = hide_page s

abbrev pub run : List Event → Latency → Latency
run [] s = s
run (e ∷ es) s = run es (handle e s)

-- As many calls are kept as are counted, up to 500, and the violations that are
-- kept are at most 200.
abbrev pub IsBounded : Latency → Type 0
IsBounded s =
    (length s.calls ≡ min s.call_count calls_history_max)
    × (length s.history ≤ violation_history_max)
    × (s.violation_count ≤ s.call_count)

length-push_bounded :
    {A : Type 0} (bound : ℕ) (xs : List A) (x : A)
    → length xs ≤ bound
    → length (push_bounded bound xs x) ≡ min (length xs + 1) bound
length-push_bounded bound xs x h =
    ground (arith, length-append xs (x ∷ []), length-drop 1 (xs ++ x ∷ []))

dispatch-IsBounded :
    (command : String) (budget : ℕ) (r : Reading) (s : Latency)
    → IsBounded s
    → IsBounded (dispatch_violation_trace command budget r s).0
unfolding dispatch_violation_trace
dispatch-IsBounded command budget r s (calls, history, count) =
    elim (Bool-cases (is_throttled (get command s.last_trace_at) r.now)) [
      | inl e ↦ rw e (calls, history, count)
      | inr e ↦ rw e (
        calls,
        omega (
          arith,
          length-push_bounded violation_history_max s.history (violation_of command budget r)
              history,
        ),
        count,
      )
    ]

count_call-IsBounded :
    (call : Call) (s : Latency)
    → IsBounded s
    → IsBounded (count_call call s)
      × ((count_call call s).violation_count ≡ s.violation_count)
      × (s.violation_count < (count_call call s).call_count)
count_call-IsBounded call s (calls, history, count) = (
  (
    omega (arith, length-push_bounded calls_history_max s.calls call (omega arith)),
    history,
    omega arith,
  ),
  refl,
  omega arith,
)

count_violation-IsBounded :
    (n : ℕ) (t : Latency)
    → IsBounded t × (t.violation_count ≡ n) × (n < t.call_count)
    → IsBounded (count_violation t)
count_violation-IsBounded n t ((calls, history, count), at, lt) = (calls, history, omega arith)

record_latency-IsBounded :
    (command : String) (budget : ℕ) (r : Reading) (s : Latency)
    → IsBounded s
    → IsBounded (record_latency command budget r s)
unfolding record_latency
record_latency-IsBounded command budget r s h =
    if_either IsBounded (is_over budget r.elapsed) _ _
      (dispatch-IsBounded command budget r _ (
        count_violation-IsBounded s.violation_count
          (count_call (call_of command budget r.elapsed) s)
          (count_call-IsBounded (call_of command budget r.elapsed) s h)))
      (count_call-IsBounded (call_of command budget r.elapsed) s h).0

-- After any calls and resets from the start, the list of calls is as long as their count, up to 500,
-- the history holds at most 200 violations, and no more violations than calls are counted.
run-IsBounded : (es : List Event) (s : Latency) → IsBounded s → IsBounded (run es s)
unfolding reset_stats reset_violations hide_page
run-IsBounded [] s h = h
run-IsBounded (recorded command budget r ∷ es) s h =
    run-IsBounded es _ (record_latency-IsBounded command budget r s h)
run-IsBounded (stats_reset ∷ es) s h = run-IsBounded es _ (refl, h.1, omega arith)
run-IsBounded (violations_reset ∷ es) s h = run-IsBounded es _ (refl, omega arith, omega arith)
run-IsBounded (page_hidden ∷ es) s h = run-IsBounded es _ h
