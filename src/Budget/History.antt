-- ===== src/Budget/History.antt =====
-- apps/web/src/lib/token-budget.ts: the part of the conversation that is sent along. Both loops walk
-- from the newest message back, so they run over the reversed list.
pub mod Laws
pub mod Whole
use musaed.Base.{ℕ, String, Text, Bool, true, false, Option, none, some, List, [], ◌∷◌}
use musaed.Base.{◌+◌, ltb, ◌==◌, if◌then◌else◌, ◌&&◌, not, is_empty, ite, text_discrete}
use musaed.Message.{Message, Role, user, assistant, system}
use musaed.Budget.Estimate.{estimate_text_tokens}
use mathlib.Core.List.{reverse}

-- A message of the chat request; `ChatMessage` without images.
pub record ChatMessage : Type 0 where
  pub role : Role
  pub content : Text

abbrev pub is_turn : Role → Bool
is_turn user = true
is_turn assistant = true
is_turn system = false

-- `message.requestId === currentRequestId`.
abbrev pub is_current : String → Option String → Bool
is_current request none = false
is_current request (some r) = ite (text_discrete r request) true false

abbrev pub is_absent {ℓ} : {A : Type ℓ} → Option A → Bool
is_absent none = true
is_absent (some a) = false

-- `!message.stopped`.
abbrev pub is_falsy : Option Bool → Bool
is_falsy (some true) = false
is_falsy _ = true

-- `isEligibleHistoryMessage`
unfoldable pub is_eligible : String → Message → Bool
is_eligible request m =
    not (is_current request m.request_id)
    && is_turn m.role
    && not (is_empty m.content)
    && is_absent m.error
    && is_falsy m.stopped

unfoldable pub history_loop : String → ℕ → List Message → ℕ
history_loop request total [] = total
history_loop request total (m ∷ older) =
    history_loop request
      (if is_eligible request m then total + estimate_text_tokens m.content else total) older

unfoldable pub estimate_history_tokens : List Message → String → ℕ
unfolding history_loop
estimate_history_tokens messages request = history_loop request 0 (reverse messages)

abbrev pub chat_of : Message → ChatMessage
chat_of m = record { role = m.role; content = m.content }

-- The loop of `buildHistorySlice`: it ends at the first message that would not fit.
unfoldable pub slice_loop : String → ℕ → ℕ → List ChatMessage → List Message → List ChatMessage
slice_loop request budget used history [] = history
slice_loop request budget used history (m ∷ older) =
    let tokens = estimate_text_tokens m.content in
    let skip = slice_loop request budget used history older in
    let keep = slice_loop request budget (used + tokens) (chat_of m ∷ history) older in
    if is_eligible request m then if ltb budget (used + tokens) then history else keep else skip

unfoldable pub build_history_slice : List Message → String → ℕ → List ChatMessage
unfolding slice_loop is_eligible
build_history_slice messages request budget =
    if budget == 0
    then []
    else if is_empty messages
    then []
    else slice_loop request budget 0 [] (reverse messages)
