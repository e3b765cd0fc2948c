-- ===== src/Budget/Output.antt =====
-- apps/web/src/lib/token-budget.ts: the room for the answer. The window and the estimate are whole
-- numbers, as the callers pass them, so `Math.floor` and the guard against NaN change nothing.
use musaed.Base.{ℕ, String, Bool, true, false, Option, none, some, List, []}
use musaed.Base.{◌+◌, ◌-◌, ◌≤◌, min, ltb, ◌≡◌, arith, ◌⊎◌, ◌<◌}
use musaed.Base.Int.{ℤ, pos, negsuc}
use musaed.Message.{Message}
use musaed.Budget.History.{build_history_slice}
use musaed.Budget.History.Laws.{total_tokens, build_history_slice-IsSlice}

pub record TokenBudget : Type 0 where
  pub context_window : ℕ
  pub estimated_prompt_tokens : ℕ
  pub requested_output_tokens : Option ℕ
  pub effective_output_tokens : ℕ
  pub input_budget_tokens : ℕ
  pub is_input_over_limit : Bool

-- `requestedOutputTokens`: absent or negative means unlimited.
abbrev pub requested_of : Option ℤ → Option ℕ
requested_of none = none
requested_of (some (pos n)) = some n
requested_of (some (negsuc n)) = none

abbrev pub effective_of : Option ℕ → ℕ → ℕ
effective_of none remaining = remaining
effective_of (some requested) remaining = min requested remaining

unfoldable pub calculate_token_budget : ℕ → ℕ → Option ℤ → TokenBudget
calculate_token_budget context_window estimated requested =
    let remaining = context_window - estimated in
    let effective = effective_of (requested_of requested) remaining in
    record {
      context_window = context_window;
      estimated_prompt_tokens = estimated;
      requested_output_tokens = requested_of requested;
      effective_output_tokens = effective;
      input_budget_tokens = remaining - effective;
      is_input_over_limit = ltb context_window estimated;
    }

-- The window is shared out without remainder: the prompt, the answer and the room for more input
-- fill it exactly, unless the prompt alone is too long, and then nothing is left for the others. The
-- answer never gets more than was asked for.
calculate_token_budget_lem :
    (window estimated : ℕ) (requested : Option ℤ)
    → let b = calculate_token_budget window estimated requested in
      ((b.is_input_over_limit ≡ false)
        × (estimated + b.effective_output_tokens + b.input_budget_tokens ≡ window))
      ⊎ ((b.is_input_over_limit ≡ true)
          × (window < estimated)
          × (b.effective_output_tokens ≡ 0)
          × (b.input_budget_tokens ≡ 0))
unfolding calculate_token_budget
calculate_token_budget_lem window estimated none = ground arith
calculate_token_budget_lem window estimated (some (pos n)) = ground arith
calculate_token_budget_lem window estimated (some (negsuc n)) = ground arith

effective-le : (requested : Option ℕ) (remaining : ℕ) → effective_of requested remaining ≤ remaining
effective-le none remaining = omega arith
effective-le (some n) remaining = omega arith

-- The whole request fits the window: with the history that is sent within the input budget, the
-- prompt's estimate, the history's and the answer's length add up to the window at most, unless the
-- prompt alone is too long.
pub history_fits_window :
    (messages : List Message) (request : String) (window estimated : ℕ) (requested : Option ℤ)
    → estimated ≤ window
    → let b = calculate_token_budget window estimated requested in
      estimated
        + total_tokens (build_history_slice messages request b.input_budget_tokens)
        + b.effective_output_tokens
      ≤ window
unfolding calculate_token_budget
history_fits_window messages request window estimated requested h =
    let left = window - estimated in
    let effective = effective_of (requested_of requested) left in
    omega (
      arith,
      (build_history_slice-IsSlice messages request (left - effective)).fits,
      effective-le (requested_of requested) left,
    )

-- A request for unlimited output claims all the room that is left, so no history is sent at all.
pub unlimited_history :
    (messages : List Message) (request : String) (window estimated : ℕ) (requested : Option ℤ)
    → requested_of requested ≡ none
    → build_history_slice messages request
        (calculate_token_budget window estimated requested).input_budget_tokens
      ≡ []
unfolding calculate_token_budget build_history_slice
unlimited_history messages request window estimated requested h = ground arith
