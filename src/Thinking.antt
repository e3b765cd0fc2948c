-- ===== src/Thinking.antt =====
-- packages/contracts/src/redactedThinking.ts: the thinking blocks of an answer. The expressions are
-- matched as they are written there: an opening tag, the shortest text up to its closing tag; at one
-- place at most one of the alternatives can match, since no opening tag starts with another.
pub mod Tags
pub mod Stripped
mod Tests
use musaed.Base.{
  ℕ, zero, suc, Text, Bool, true, false, Option, none, some, List, [], ◌∷◌, ◌++◌, ◌+◌, ◌-◌, ◌||◌,
  if◌then◌else◌, length, drop,
}
use musaed.Base.Int.{ℤ, pos, negsuc}
use musaed.Base.Texts.{lower_case, starts_with, index_of, trim}
use mathlib.Core.Option

pub record Tag : Type 0 where
  pub start : Text
  pub end : Text

abbrev tag_of : Text → Tag
tag_of name = record { start = 60 ∷ name ++ 62 ∷ []; end = 60 ∷ 47 ∷ name ++ 62 ∷ [] }

-- `redacted-thinking`
abbrev pub redacted_thinking : Tag
redacted_thinking = tag_of (
    114 ∷ 101 ∷ 100 ∷ 97 ∷ 99 ∷ 116 ∷ 101 ∷ 100 ∷ 45 ∷ 116 ∷ 104 ∷ 105 ∷ 110 ∷ 107 ∷ 105 ∷ 110 ∷ 103
    ∷ [])

-- `think`
abbrev pub think : Tag
think = tag_of (116 ∷ 104 ∷ 105 ∷ 110 ∷ 107 ∷ [])

-- `thoughts`
abbrev pub thoughts : Tag
thoughts = tag_of (116 ∷ 104 ∷ 111 ∷ 117 ∷ 103 ∷ 104 ∷ 116 ∷ 115 ∷ [])

-- `reasoning`
abbrev pub reasoning : Tag
reasoning = tag_of (114 ∷ 101 ∷ 97 ∷ 115 ∷ 111 ∷ 110 ∷ 105 ∷ 110 ∷ 103 ∷ [])

-- `initial_thoughts`
abbrev pub initial_thoughts : Tag
initial_thoughts = tag_of (
    105 ∷ 110 ∷ 105 ∷ 116 ∷ 105 ∷ 97 ∷ 108 ∷ 95 ∷ 116 ∷ 104 ∷ 111 ∷ 117 ∷ 103 ∷ 104 ∷ 116 ∷ 115
    ∷ [])

-- The formats, the primary one first.
abbrev pub tags : List Tag
tags = redacted_thinking ∷ think ∷ thoughts ∷ reasoning ∷ initial_thoughts ∷ []

-- The length of the closed block that the text starts with.
unfoldable pub block_length : Tag → Text → Option ℕ
block_length t text =
    if starts_with t.start text
    then Option.map (λ i. length t.start + i + length t.end)
        (index_of t.end (drop (length t.start) text))
    else none

-- `THINKING_REGEX_SOURCE` at the start of a text.
unfoldable pub closed_length : List Tag → Text → Option ℕ
closed_length [] text = none
closed_length (t ∷ ts) text = elim (block_length t text) [
  | some n ↦ some n
  | none ↦ closed_length ts text
]

-- `THINKING_UNCLOSED_REGEX_SOURCE` at the start of a text.
unfoldable pub opens : List Tag → Text → Bool
opens [] text = false
opens (t ∷ ts) text = starts_with t.start text || opens ts text

-- The first pass; the number counts the characters of a block that are still to be dropped.
unfoldable pub remove_closed : ℕ → Text → Text
remove_closed zero [] = []
remove_closed (suc k) [] = []
remove_closed (suc k) (c ∷ text) = remove_closed k text
remove_closed zero (c ∷ text) = elim (closed_length tags (lower_case (c ∷ text))) [
  | none ↦ c ∷ remove_closed 0 text
  | some n ↦ remove_closed (n - 1) text
]

-- The second pass.
unfoldable pub remove_open : Text → Text
remove_open [] = []
remove_open (c ∷ text) =
    let rest = remove_open text in if opens tags (lower_case (c ∷ text)) then [] else c ∷ rest

-- `stripThinkingBlocks`
unfoldable pub strip_thinking_blocks : Text → Text
strip_thinking_blocks content = trim (remove_open (remove_closed 0 content))

pub record ThinkingTagMatch : Type 0 where
  pub content_start : ℕ
  pub content_end : ℕ
  pub tag_start : ℕ
  pub close_tag_length : ℤ
  pub open_tag_length : ℕ

abbrev pub match_of : Text → Tag → ℕ → Option ℕ → ThinkingTagMatch
match_of content t tag_start (some close) = record {
  content_start = tag_start + length t.start;
  content_end = tag_start + length t.start + close;
  tag_start = tag_start;
  close_tag_length = pos (length t.end);
  open_tag_length = length t.start;
}
match_of content t tag_start none = record {
  content_start = tag_start + length t.start;
  content_end = length content;
  tag_start = tag_start;
  close_tag_length = negsuc 0;
  open_tag_length = length t.start;
}

-- The loop over the formats. `indexOf` from a position is that in what follows it.
unfoldable pub find_tag : List Tag → Text → Option ThinkingTagMatch
find_tag [] content = none
find_tag (t ∷ ts) content = elim (index_of t.start content) [
  | none ↦ find_tag ts content
  | some i ↦ some (match_of content t i (index_of t.end (drop (i + length t.start) content)))
]

-- `findThinkingTags`
unfoldable pub find_thinking_tags : Text → Option ThinkingTagMatch
find_thinking_tags content = find_tag tags content
