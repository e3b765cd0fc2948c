-- ===== src/Tracing.antt =====
-- apps/web/src/lib/store-tracing.ts: the traces of store mutations, throttled by key. An entry is
-- kept with the fields that identify the mutation; its random id, its message and its context are
-- left out. Handing an entry to `traceApi.append` is writing it to `appended`, newest first.
pub mod Laws
use musaed.Base.{ℕ, String, Bool, true, false, Option, none, some, List, [], ◌∷◌}
use musaed.Base.{◌+◌, ◌%◌, ltb, ◌==◌, if◌then◌else◌}
use musaed.Base.Dict.{Dict, get, set, delete}
use musaed.Message.{given_or}
use Prim.Native.String
use text.Mathlib.Text.{◌==◌ as text_eq}

pub data Level : Type 0 where
  debug info warn error : Level

pub record Trace : Type 0 where
  pub feature : String
  pub action : String
  pub level : Level

pub record Tracing : Type 0 where
  -- `lastTraceAt`
  pub last_trace_at : Dict ℕ
  -- `tokenCounters`
  pub token_counters : Dict ℕ
  pub appended : List Trace

abbrev pub trace_throttle_ms_default : ℕ
trace_throttle_ms_default = 5000

abbrev pub token_trace_every_n : ℕ
token_trace_every_n = 16

-- The key of the throttle; an empty suffix counts as none.
unfoldable pub trace_key : String → String → String → String
trace_key feature action suffix =
    let key = String.◌++◌ feature (String.◌++◌ ":" action) in
    if text_eq suffix "" then key else String.◌++◌ key (String.◌++◌ ":" suffix)

-- `lastAt !== undefined && now - lastAt < throttleMs`. A clock that went back gives a negative
-- difference, which is below any window.
abbrev pub is_within : ℕ → ℕ → Option ℕ → Bool
is_within now throttle none = false
is_within now throttle (some last) = ltb now (last + throttle)

abbrev pub append_trace : Trace → Tracing → Tracing
append_trace e t = record t { appended = e ∷ t.appended }

-- `traceStoreMutation` with its throttle window; 0 emits always and leaves the window's start.
unfoldable pub trace_store_mutation : ℕ → Trace → ℕ → String → Tracing → Tracing
unfolding trace_key
trace_store_mutation now e throttle suffix t =
    let key = trace_key e.feature e.action suffix in
    if throttle == 0
    then append_trace e t
    else if is_within now throttle (get key t.last_trace_at)
    then t
    else append_trace e (record t { last_trace_at = set key now t.last_trace_at })

abbrev pub token_trace : Trace
token_trace = record { feature = "streaming"; action = "appendToken"; level = debug }

-- `traceAppendToken`: every 16th token of a conversation is traced.
unfoldable pub trace_append_token : ℕ → String → Tracing → Tracing × Bool
unfolding trace_store_mutation
trace_append_token now c t =
    let count = given_or (get c t.token_counters) 0 + 1 in
    let counted = record t { token_counters = set c count t.token_counters } in
    if count % token_trace_every_n == 0
    then (trace_store_mutation now token_trace 0 "" counted, true)
    else (counted, false)

unfoldable pub reset_token_counter : String → Tracing → Tracing
reset_token_counter c t = record t { token_counters = delete c t.token_counters }

abbrev pub reset_store_tracing : Tracing → Tracing
reset_store_tracing t = record t { last_trace_at = []; token_counters = [] }
