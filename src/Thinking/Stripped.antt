-- ===== src/Thinking/Stripped.antt =====
-- What `stripThinkingBlocks` of redactedThinking.ts leaves.
use musaed.Base.{
  ℕ, Text, false, none, List, [], ◌∷◌, ◌++◌, ◌≡◌, refl, ap, arith, is_empty, All, Bool-cases, inl,
  inr,
}
use mathlib.Core.List.{map-append}
use musaed.Base.Texts.{lower_case, contains, starts_with, trim}
use musaed.Base.Texts.Laws.{trim_rest, not_before, free_inside}
use musaed.Thinking.{
  Tag, tags, redacted_thinking, think, thoughts, reasoning, initial_thoughts, block_length,
  closed_length, opens, remove_closed, remove_open, strip_thinking_blocks,
}

-- The opening tag of the format stands nowhere in the text, in upper or lower case.
abbrev pub IsFree : Text → Tag → Type 0
IsFree text t = contains t.start (lower_case text) ≡ false

-- The second pass keeps a first part of the text.
remove_open_rest : (text : Text) → (cut : Text) × (text ≡ remove_open text ++ cut)
unfolding remove_open
remove_open_rest [] = ([], refl)
remove_open_rest (c ∷ text) = elim (Bool-cases (opens tags (lower_case (c ∷ text)))) [
  | inl e ↦ (c ∷ text, rw e refl)
  | inr e ↦ let (cut, at) = remove_open_rest text in (cut, rw e (ap (◌∷◌ c) at))
]

-- No opening tag starts where none of a list does.
abbrev Bars : Tag → Type 0
Bars t = (text : Text) → opens tags text ≡ false → starts_with t.start text ≡ false

lower_case-append : (a b : Text) → lower_case (a ++ b) ≡ lower_case a ++ lower_case b
lower_case-append a b = map-append _ a b

not_at_head :
    (t : Tag) (c : ℕ) (text rest cut : Text)
    → text ≡ rest ++ cut
    → starts_with t.start (lower_case (c ∷ text)) ≡ false
    → starts_with t.start (lower_case (c ∷ rest)) ≡ false
not_at_head t c text rest cut at h =
    not_before t.start (lower_case (c ∷ rest)) (lower_case cut)
      (rw (at, lower_case-append rest cut) at h)

remove_open-IsFree :
    (t : Tag) → is_empty t.start ≡ false → Bars t → (text : Text) → IsFree (remove_open text) t
unfolding remove_open contains
remove_open-IsFree t ne bars [] = ne
remove_open-IsFree t ne bars (c ∷ text) = elim (Bool-cases (opens tags (lower_case (c ∷ text)))) [
  | inl e ↦ rw e ne
  | inr e ↦
      let (cut, at) = remove_open_rest text in
      rw (e, not_at_head t c text (remove_open text) cut at (bars (lower_case (c ∷ text)) e))
        (remove_open-IsFree t ne bars text)
]

-- What is free of a tag stays so when both ends are cut off.
pub IsFree-part : (a b c text : Text) (t : Tag) → text ≡ a ++ (b ++ c) → IsFree text t → IsFree b t
IsFree-part a b c text t at h =
    free_inside t.start (lower_case a) (lower_case b) (lower_case c)
      (rw (at, lower_case-append a (b ++ c), lower_case-append b c) at h)

trim-IsFree : (t : Tag) (text : Text) → IsFree text t → IsFree (trim text) t
trim-IsFree t text h =
    let (left, right, at) = trim_rest text in IsFree-part left (trim text) right text t at h

remove_open-trim-IsFree :
    (t : Tag)
    → is_empty t.start ≡ false
    → Bars t
    → (text : Text) → IsFree (trim (remove_open text)) t
remove_open-trim-IsFree t ne bars text =
    trim-IsFree t (remove_open text) (remove_open-IsFree t ne bars text)

redacted_thinking-Bars : Bars redacted_thinking
unfolding opens
redacted_thinking-Bars text h = ground arith

think-Bars : Bars think
unfolding opens
think-Bars text h = ground arith

thoughts-Bars : Bars thoughts
unfolding opens
thoughts-Bars text h = ground arith

reasoning-Bars : Bars reasoning
unfolding opens
reasoning-Bars text h = ground arith

initial_thoughts-Bars : Bars initial_thoughts
unfolding opens
initial_thoughts-Bars text h = ground arith

-- No opening tag of any format is left, in upper or lower case, however the blocks of the content
-- are nested, cut off or glued together by the removal of others.
pub strip_thinking_blocks-IsFree :
    (content : Text) → All (IsFree (strip_thinking_blocks content)) tags
unfolding strip_thinking_blocks
strip_thinking_blocks-IsFree content =
    let text = remove_closed 0 content in
    (
      remove_open-trim-IsFree redacted_thinking refl redacted_thinking-Bars text,
      (
        remove_open-trim-IsFree think refl think-Bars text,
        (
          remove_open-trim-IsFree thoughts refl thoughts-Bars text,
          (
            remove_open-trim-IsFree reasoning refl reasoning-Bars text,
            (remove_open-trim-IsFree initial_thoughts refl initial_thoughts-Bars text, tt),
          ),
        ),
      ),
    )

IsFree-tail :
    (c : ℕ) (text : Text) (ts : List Tag) → All (IsFree (c ∷ text)) ts → All (IsFree text) ts
unfolding contains
IsFree-tail c text [] h = tt
IsFree-tail c text (t ∷ ts) (h, hs) = (ground arith, IsFree-tail c text ts hs)

IsFree-head :
    (c : ℕ) (text : Text) (ts : List Tag)
    → All (IsFree (c ∷ text)) ts
    → opens ts (lower_case (c ∷ text)) ≡ false
unfolding contains opens
IsFree-head c text [] h = refl
IsFree-head c text (t ∷ ts) (h, hs) = ground (arith, IsFree-head c text ts hs)

closed_length-none :
    (ts : List Tag) (text : Text) → opens ts text ≡ false → closed_length ts text ≡ none
unfolding opens closed_length block_length
closed_length-none [] text h = refl
closed_length-none (t ∷ ts) text h = ground (arith, closed_length-none ts text)

remove_closed_free : (text : Text) → All (IsFree text) tags → remove_closed 0 text ≡ text
unfolding remove_closed
remove_closed_free [] h = refl
remove_closed_free (c ∷ text) h =
    rw (closed_length-none tags (lower_case (c ∷ text)) (IsFree-head c text tags h), remove_closed)
      (ap (◌∷◌ c) (remove_closed_free text (IsFree-tail c text tags h)))

remove_open_free : (text : Text) → All (IsFree text) tags → remove_open text ≡ text
unfolding remove_open
remove_open_free [] h = refl
remove_open_free (c ∷ text) h =
    rw (IsFree-head c text tags h) (ap (◌∷◌ c) (remove_open_free text (IsFree-tail c text tags h)))

-- A content without an opening tag is only trimmed.
pub strip_thinking_blocks_free :
    (content : Text) → All (IsFree content) tags → strip_thinking_blocks content ≡ trim content
unfolding strip_thinking_blocks
strip_thinking_blocks_free content h =
    rw (remove_closed_free content h) (ap trim (remove_open_free content h))
