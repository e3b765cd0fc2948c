-- ===== src/Ipc/Latency.antt =====
-- apps/web/src/lib/ipc-latency.ts, and the two functions and the listener of
-- apps/web/src/lib/ipc/transport.ts that change its state. Latencies and clock readings are whole milliseconds, as the code rounds them.
-- Console output and the trace that goes to the backend leave no mark on this state; the
-- subscribers are told, and cannot fail it.
pub mod Bounds
pub mod Spacing
use musaed.Base.{ℕ, zero, suc, String, Bool, true, false, Option, none, some, List, [], ◌∷◌, ◌++◌}
use musaed.Base.{◌+◌, ◌-◌, ◌*◌, ◌/◌, ltb, if◌then◌else◌, ◌&&◌, length, drop, text_discrete, ite}
use musaed.Base.Dict.{Dict, get, set}

-- `IpcCallStat`
pub record Call : Type 0 where
  pub command : String
  pub latency : ℕ
  pub budget : ℕ
  pub is_violation : Bool

-- `IpcViolationRecord`
pub record Violation : Type 0 where
  pub trace_id : String
  pub timestamp : ℕ
  pub command : String
  pub latency : ℕ
  pub budget : ℕ
  pub overage : ℕ

-- The module's state: `ipcStats`, `ipcViolationHistory` and `lastViolationTraceAt`; `notified`
-- counts the calls of `notifyIpcViolationSubscribers`.
pub record Latency : Type 0 where
  pub call_count : ℕ
  pub violation_count : ℕ
  pub calls : List Call
  pub history : List Violation
  pub last_trace_at : Dict ℕ
  pub notified : ℕ

abbrev pub no_calls : Latency
no_calls = record {
  call_count = 0;
  violation_count = 0;
  calls = [];
  history = [];
  last_trace_at = [];
  notified = 0;
}

abbrev pub violation_history_max : ℕ
violation_history_max = 200

abbrev pub calls_history_max : ℕ
calls_history_max = 500

abbrev pub trace_throttle : ℕ
trace_throttle = 30000

-- `xs.push(x)`, and a `shift()` when the list has grown over its bound.
abbrev pub push_bounded {ℓ} : {A : Type ℓ} → ℕ → List A → A → List A
push_bounded bound xs x =
    if ltb bound (length (xs ++ x ∷ [])) then drop 1 (xs ++ x ∷ []) else xs ++ x ∷ []

-- `Math.round((over / budget) * 100)`
abbrev pub percent : ℕ → ℕ → ℕ
percent over budget = (200 * over + budget) / (2 * budget)

-- What one call brings with it: the clock and the identifier that `generateTraceId` returns.
pub record Reading : Type 0 where
  pub elapsed : ℕ
  pub now : ℕ
  pub fresh_id : String

abbrev pub is_throttled : Option ℕ → ℕ → Bool
is_throttled none now = false
is_throttled (some last) now = ltb (now - last) trace_throttle

abbrev pub violation_of : String → ℕ → Reading → Violation
violation_of command budget r = record {
  trace_id = r.fresh_id;
  timestamp = r.now;
  command = command;
  latency = r.elapsed;
  budget = budget;
  overage = percent (r.elapsed - budget) budget;
}

-- `dispatchIpcViolationTrace`, with the record that it returns.
unfoldable pub dispatch_violation_trace :
    String → ℕ → Reading → Latency → Latency × Option Violation
dispatch_violation_trace command budget r s =
    if is_throttled (get command s.last_trace_at) r.now then (s, none) else (
      record s {
        last_trace_at = set command r.now s.last_trace_at;
        history = push_bounded violation_history_max s.history (violation_of command budget r);
        notified = s.notified + 1;
      },
      some (violation_of command budget r),
    )

-- `budgetMs > 0 && latencyMs > budgetMs`
abbrev pub is_over : ℕ → ℕ → Bool
is_over budget latency = ltb 0 budget && ltb budget latency

abbrev pub call_of : String → ℕ → ℕ → Call
call_of command budget latency = record {
  command = command;
  latency = latency;
  budget = budget;
  is_violation = is_over budget latency;
}

abbrev pub count_call : Call → Latency → Latency
count_call call s = record s {
  call_count = s.call_count + 1;
  calls = push_bounded calls_history_max s.calls call;
}

abbrev pub count_violation : Latency → Latency
count_violation s = record s { violation_count = s.violation_count + 1 }

-- `recordIpcLatency`
unfoldable pub record_latency : String → ℕ → Reading → Latency → Latency
unfolding dispatch_violation_trace
record_latency command budget r s =
    if is_over budget r.elapsed
    then (dispatch_violation_trace command budget r
        (count_violation (count_call (call_of command budget r.elapsed) s))).0
    else count_call (call_of command budget r.elapsed) s

-- `resetIpcStats`
unfoldable pub reset_stats : Latency → Latency
reset_stats s = record s { call_count = 0; violation_count = 0; calls = [] }

-- `resetIpcViolations`
unfoldable pub reset_violations : Latency → Latency
reset_violations s = record no_calls { notified = s.notified + 1 }

-- The listener of `pagehide`
unfoldable pub hide_page : Latency → Latency
hide_page s = record s { last_trace_at = [] }

-- `findIndex` and `slice(idx + 1)`: what follows the record with the identifier.
unfoldable pub after_id : String → List Violation → Option (List Violation)
after_id id [] = none
after_id id (v ∷ vs) = ite (text_discrete v.trace_id id) (some vs) (after_id id vs)

-- `getIpcViolationsSince`
unfoldable pub violations_since : String → Latency → List Violation
unfolding after_id
violations_since id s = elim (after_id id s.history) [ none ↦ s.history | some vs ↦ vs ]
