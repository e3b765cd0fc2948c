-- ===== src/Tracing/Laws.antt =====
-- How many tokens of apps/web/src/lib/store-tracing.ts are traced.
use musaed.Base.{ℕ, String, List, [], ◌∷◌, length}
use musaed.Base.{◌+◌, ◌/◌, ◌≡◌, arith}
use musaed.Base.Dict.{get, get-set_self}
use musaed.Message.{given_or}
use musaed.Tracing.{Tracing, trace_store_mutation, trace_append_token}

-- The counter of a conversation.
abbrev pub counted : String → Tracing → ℕ
counted c t = given_or (get c t.token_counters) 0

-- Tokens of one conversation, at these times.
abbrev pub append_tokens : List ℕ → String → Tracing → Tracing
append_tokens [] c t = t
append_tokens (now ∷ times) c t = append_tokens times c (trace_append_token now c t).0

counted-trace_append_token :
    (now : ℕ) (c : String) (t : Tracing)
    → counted c (trace_append_token now c t).0 ≡ counted c t + 1
unfolding trace_append_token trace_store_mutation
counted-trace_append_token now c t =
    ground (arith, get-set_self c (counted c t + 1) t.token_counters)

length-trace_append_token :
    (now : ℕ) (c : String) (t : Tracing)
    → length (trace_append_token now c t).0.appended + counted c t / 16
      ≡ length t.appended + (counted c t + 1) / 16
unfolding trace_append_token trace_store_mutation
length-trace_append_token now c t = ground arith

-- Exactly every 16th token of a conversation is traced: from a counter at any value on, the traces
-- that a run of its tokens adds are the multiples of 16 that the counter passes.
traces_every_16th :
    (times : List ℕ) (c : String) (t : Tracing)
    → length (append_tokens times c t).appended + counted c t / 16
      ≡ length t.appended + (counted c t + length times) / 16
traces_every_16th [] c t = ground arith
traces_every_16th (now ∷ times) c t = omega (
  arith,
  traces_every_16th times c (trace_append_token now c t).0,
  length-trace_append_token now c t,
  counted-trace_append_token now c t,
)
