-- ===== src/Budget/Estimate.antt =====
-- apps/web/src/lib/token-budget.ts: the estimate of a text's tokens, and the room for RAG context.
-- Lengths and counts are whole numbers. The share of Arabic characters is compared exactly: for a
-- text of less than 2^40 characters the quotient of two doubles is at least 0.3 just when ten times
-- the one is at least three times the other.
use musaed.Base.{ℕ, Text, Bool, Option, none, some, [], ◌∷◌}
use musaed.Base.{◌+◌, ◌-◌, ◌*◌, ◌/◌, ◌≤◌, ◌<◌, min, leb, if◌then◌else◌, ◌&&◌, ◌||◌, length, select}
use musaed.Base.{◌⊎◌, ◌≡◌, refl, arith, Bool-cases, inl, inr}

abbrev pub latin_chars_per_token : ℕ
latin_chars_per_token = 4

abbrev pub arabic_chars_per_token : ℕ
arabic_chars_per_token = 2

abbrev in_range : ℕ → ℕ → ℕ → Bool
in_range lo hi c = leb lo c && leb c hi

-- `ARABIC_CHAR_RE`, on one code unit.
unfoldable pub is_arabic : ℕ → Bool
is_arabic c =
    in_range 0x0600 0x06FF c
    || in_range 0x0750 0x077F c
    || in_range 0x08A0 0x08FF c
    || in_range 0xFB50 0xFDFF c
    || in_range 0xFE70 0xFEFF c

unfoldable pub chars_per_token : Text → ℕ
unfolding is_arabic
chars_per_token text =
    if leb (3 * length text) (10 * length (select is_arabic text))
    then arabic_chars_per_token
    else latin_chars_per_token

-- `Math.ceil(n / k)`.
abbrev pub ceil_div : ℕ → ℕ → ℕ
ceil_div n k = (n + k - 1) / k

unfoldable pub estimate_text_tokens : Text → ℕ
estimate_text_tokens [] = 0
estimate_text_tokens (c ∷ text) = ceil_div (length (c ∷ text)) (chars_per_token (c ∷ text))

-- `CHARS_PER_TOKEN`, `MIN_RAG_RESERVE_CHARS` and `RAG_MAX_CHARS`.
abbrev pub rag_chars_per_token : ℕ
rag_chars_per_token = 3

abbrev pub min_rag_reserve_chars : ℕ
min_rag_reserve_chars = 200

abbrev pub rag_max_chars : ℕ
rag_max_chars = 20000

-- What the rest of the prompt takes from the window, in characters.
abbrev pub reserved_chars : ℕ → ℕ → ℕ → ℕ
reserved_chars system_prompt_chars history_tokens current_prompt_chars =
    system_prompt_chars
    + current_prompt_chars
    + history_tokens * rag_chars_per_token
    + min_rag_reserve_chars

-- `computeRagCharBudget`; nothing where the remaining room is zero or below.
unfoldable pub compute_rag_char_budget : ℕ → ℕ → ℕ → ℕ → Option ℕ
compute_rag_char_budget num_ctx system_prompt_chars history_tokens current_prompt_chars =
    let capacity = num_ctx * rag_chars_per_token in
    let reserved = reserved_chars system_prompt_chars history_tokens current_prompt_chars in
    if leb capacity reserved then none else some (min rag_max_chars (capacity - reserved))

chars_per_token_cases : (text : Text) → (2 ≤ chars_per_token text) × (chars_per_token text ≤ 4)
unfolding chars_per_token
chars_per_token_cases text = ground arith

-- The estimate lies between a quarter and a half of the text's length, rounded up; so it is
-- positive for every text but the empty one.
pub estimate_text_tokens_bounds :
    (text : Text)
    → (length text ≤ 4 * estimate_text_tokens text)
      × (2 * estimate_text_tokens text ≤ length text + 1)
unfolding estimate_text_tokens chars_per_token
estimate_text_tokens_bounds [] = omega arith
estimate_text_tokens_bounds (c ∷ text) = ground arith

-- The RAG context is granted what the window leaves, up to the maximum, exactly when something is
-- left: with it the prompt's characters and the reserve fill at most the window.
compute_rag_char_budget_lem :
    (num_ctx system history current : ℕ)
    → ((compute_rag_char_budget num_ctx system history current ≡ none)
        × (num_ctx * 3 ≤ reserved_chars system history current))
      ⊎ ((n : ℕ) × (compute_rag_char_budget num_ctx system history current ≡ some n)
          × (0 < n)
          × (n ≤ rag_max_chars)
          × (n + reserved_chars system history current ≤ num_ctx * 3))
unfolding compute_rag_char_budget
compute_rag_char_budget_lem num_ctx system history current =
    elim (Bool-cases (leb (num_ctx * 3) (reserved_chars system history current))) [
      | inl full ↦ inl (rw full refl, ground arith)
      | inr room ↦ inr (
        min rag_max_chars (num_ctx * 3 - reserved_chars system history current),
        rw room refl,
        ground arith,
        ground arith,
        ground arith,
      )
    ]
