-- ===== src/Budget/History/Whole.antt =====
-- The estimate of a whole history, and when the whole history is sent.
use musaed.Base.{ℕ, String, List, [], ◌∷◌, ◌++◌}
use musaed.Base.{◌+◌, ◌≤◌, ◌≡◌, refl, sym, ap, ◌∙◌, arith}
use musaed.Message.{Message}
use musaed.Budget.Estimate.{estimate_text_tokens}
use musaed.Budget.History.{ChatMessage, history_loop, estimate_history_tokens, build_history_slice}
use mathlib.Core.List.{reverse, reverse-cons}
use musaed.Budget.History.Laws.{
  total_tokens, eligible, Stops, total_tokens-append, build_history_slice-IsSlice, eligible-reverse,
}

history_loop-lem :
    (request : String) (total : ℕ) (older : List Message)
    → history_loop request total older ≡ total + total_tokens (eligible request older)
unfolding history_loop
history_loop-lem request total [] = omega arith
history_loop-lem request total (m ∷ older) = ground (
  arith,
  history_loop-lem request total older,
  history_loop-lem request (total + estimate_text_tokens m.content) older,
)

total_tokens-reverse : (xs : List ChatMessage) → total_tokens (reverse xs) ≡ total_tokens xs
total_tokens-reverse [] = refl
total_tokens-reverse (x ∷ xs) =
    rw (reverse-cons x xs)
      (omega (arith, total_tokens-append (reverse xs) (x ∷ []), total_tokens-reverse xs))

-- `estimateHistoryTokens` is the estimate of all messages that may be sent.
estimate_history_tokens_lem :
    (messages : List Message) (request : String)
    → estimate_history_tokens messages request ≡ total_tokens (eligible request messages)
unfolding estimate_history_tokens
estimate_history_tokens_lem messages request =
    history_loop-lem request 0 (reverse messages)
    ∙ ap (◌+◌ 0) (
        ap total_tokens (eligible-reverse request messages)
        ∙ total_tokens-reverse (eligible request messages))
    ∙ omega arith

whole_slice :
    {budget : ℕ} {all slice : List ChatMessage} (dropped : List ChatMessage)
    → all ≡ reverse dropped ++ slice
    → total_tokens all ≤ budget
    → Stops budget (total_tokens slice) dropped
    → slice ≡ all
whole_slice [] split h stops = sym split
whole_slice {slice} (d ∷ ds) split h stops = absurd (
    omega (
      arith,
      ap total_tokens split,
      total_tokens-append (reverse (d ∷ ds)) slice,
      total_tokens-reverse (d ∷ ds),
    ))

-- Where the estimate of the whole history is within the budget, the whole history is sent.
build_history_slice_all :
    (messages : List Message) (request : String) (budget : ℕ)
    → estimate_history_tokens messages request ≤ budget
    → build_history_slice messages request budget ≡ eligible request messages
build_history_slice_all messages request budget h =
    let s = build_history_slice-IsSlice messages request budget in
    whole_slice s.dropped s.split (rw (estimate_history_tokens_lem messages request) at h) s.stops
