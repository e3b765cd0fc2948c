-- ===== src/Thinking/Tests.antt =====
-- The laws of redactedThinking.ts on a block that the removal of another glues together.
use musaed.Base.{Text, [], ◌∷◌, ◌≡◌, refl, All}
use musaed.Base.Texts.{starts_with, index_of, trim, trim_start, is_space}
use musaed.Thinking.{
  tags, block_length, closed_length, opens, remove_closed, remove_open, strip_thinking_blocks,
  find_thinking_tags,
}
use musaed.Thinking.Tags.{Finds, find_thinking_tags-Finds}
use musaed.Thinking.Stripped.{IsFree, strip_thinking_blocks-IsFree}

-- `a <Th<think>x</think>ink>y`
abbrev glued : Text
glued =
    97 ∷ 32 ∷ 60 ∷ 84 ∷ 104 ∷ 60 ∷ 116 ∷ 104 ∷ 105 ∷ 110 ∷ 107 ∷ 62 ∷ 120 ∷ 60 ∷ 47 ∷ 116 ∷ 104
    ∷ 105 ∷ 110 ∷ 107 ∷ 62 ∷ 105 ∷ 110 ∷ 107 ∷ 62 ∷ 121 ∷ []

glued_stripped : strip_thinking_blocks glued ≡ 97 ∷ []
unfolding strip_thinking_blocks remove_closed closed_length block_length index_of starts_with
    remove_open opens trim trim_start is_space
glued_stripped = refl

strip_thinking_blocks-IsFree_example : All (IsFree (strip_thinking_blocks glued)) tags
strip_thinking_blocks-IsFree_example = strip_thinking_blocks-IsFree glued

find_thinking_tags-Finds_example : Finds glued tags (find_thinking_tags glued)
find_thinking_tags-Finds_example = find_thinking_tags-Finds glued
