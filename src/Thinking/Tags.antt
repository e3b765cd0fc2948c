-- ===== src/Thinking/Tags.antt =====
-- What `findThinkingTags` of redactedThinking.ts finds.
use musaed.Base.{
  ℕ, Text, false, Option, none, some, List, [], ◌∷◌, ◌++◌, ◌+◌, ◌≡◌, ◌⊎◌, inl, inr, refl, sym, ap,
  ◌∙◌, arith, length, length-append, drop, is_empty, All, append_assoc, append-nil,
}
use musaed.Base.Int.{ℤ, pos, negsuc}
use musaed.Base.Texts.{contains, index_of}
use musaed.Base.Texts.Laws.{First, index_of-First, index_of-none}
use musaed.Thinking.{Tag, tags, ThinkingTagMatch, match_of, find_tag, find_thinking_tags}

-- What follows the content of a block: its closing tag, or nothing while it is streamed.
abbrev pub Closes : Tag → Text → ℤ → Type 0
Closes t rest n =
    ((after : Text) × (rest ≡ t.end ++ after) × (n ≡ pos (length t.end)))
    ⊎ ((rest ≡ []) × (n ≡ negsuc 0))

-- The first opening tag of the format, and the shortest content up to a closing tag.
pub record IsBlock (content : Text) (t : Tag) (m : ThinkingTagMatch) : Type 0 where
  pub before : Text
  pub body : Text
  pub rest : Text
  pub at : content ≡ before ++ (t.start ++ (body ++ rest))
  pub starts : m.tag_start ≡ length before
  pub opening : m.open_tag_length ≡ length t.start
  pub begins : m.content_start ≡ length before + length t.start
  pub ends : m.content_end ≡ length before + length t.start + length body
  pub first : contains t.start before ≡ false
  pub shortest : contains t.end body ≡ false
  pub closing : Closes t rest m.close_tag_length

-- The answer for a list of formats: the block of the first one whose opening tag occurs, or nothing
-- when none does.
abbrev pub Finds : Text → List Tag → Option ThinkingTagMatch → Type 0
Finds content ts none = All (λ t. contains t.start content ≡ false) ts
Finds content ts (some m) =
    (absent : List Tag) × (t : Tag) × (later : List Tag) × (ts ≡ absent ++ t ∷ later)
    × All (λ s. contains s.start content ≡ false) absent
    × IsBlock content t m

drop-append : (a b : Text) → drop (length a) (a ++ b) ≡ b
drop-append [] b = refl
drop-append (x ∷ a) b = drop-append a b

-- The text that is searched for the closing tag.
after_start :
    (content before start after : Text)
    → content ≡ before ++ (start ++ after)
    → drop (length before + length start) content ≡ after
after_start content before start after at =
    rw (at, ← length-append before start, ← append_assoc before start after)
      (drop-append (before ++ start) after)

whole :
    (content before start after : Text)
    → content ≡ before ++ (start ++ after)
    → length content ≡ length before + length start + length after
whole content before start after at =
    omega (arith, ap length at, length-append before (start ++ after), length-append start after)

-- A tag whose texts are not empty.
abbrev pub IsTag : Tag → Type 0
IsTag t = (is_empty t.start ≡ false) × (is_empty t.end ≡ false)

match_of-IsBlock :
    (content : Text) (t : Tag) (i : ℕ) (o : Option ℕ)
    → IsTag t
    → First t.start content i
    → (after : Text) → drop (i + length t.start) content ≡ after
    → index_of t.end after ≡ o
    → IsBlock content t (match_of content t i o)
match_of-IsBlock content t i none (_, ends) f after at e =
    let same : after ≡ f.after =
      sym at ∙ rw (← f.size) (after_start content f.before t.start f.after f.at) in
    record {
      before = f.before;
      body = after;
      rest = [];
      at = rw (same, append-nil f.after) f.at;
      starts = sym f.size;
      opening = refl;
      begins = omega (arith, f.size);
      ends = whole content f.before t.start after (rw same f.at);
      first = f.nowhere_before;
      shortest = index_of-none t.end after e;
      closing = inr (refl, refl);
    }
match_of-IsBlock content t i (some j) (_, ends) f after at e =
    let same : after ≡ f.after =
      sym at ∙ rw (← f.size) (after_start content f.before t.start f.after f.at) in
    let g = index_of-First t.end after j ends e in
    record {
      before = f.before;
      body = g.before;
      rest = t.end ++ g.after;
      at = rw (← g.at, same) f.at;
      starts = sym f.size;
      opening = refl;
      begins = omega (arith, f.size);
      ends = omega (arith, f.size, g.size);
      first = f.nowhere_before;
      shortest = g.nowhere_before;
      closing = inl (g.after, refl, refl);
    }

later-Finds :
    (content : Text) (t : Tag) (ts : List Tag) (o : Option ThinkingTagMatch)
    → contains t.start content ≡ false
    → Finds content ts o
    → Finds content (t ∷ ts) o
later-Finds content t ts none e f = (e, f)
later-Finds content t ts (some m) e (absent, s, later, at, none_before, block) =
    (t ∷ absent, s, later, ap (◌∷◌ t) at, (e, none_before), block)

find_tag-Finds :
    (content : Text) (ts : List Tag) → All IsTag ts → Finds content ts (find_tag ts content)
unfolding find_tag
find_tag-Finds content [] ok = tt
find_tag-Finds content (t ∷ ts) (ok, oks) =
    go (index_of t.start content) refl (find_tag-Finds content ts oks)
  where
    go :
        (o : Option ℕ)
        → index_of t.start content ≡ o
        → Finds content ts (find_tag ts content)
        → Finds content (t ∷ ts) (elim o [
          | none ↦ find_tag ts content
          | some i ↦
              some (match_of content t i (index_of t.end (drop (i + length t.start) content)))
        ])
    go none e f = later-Finds content t ts (find_tag ts content) (index_of-none t.start content e) f
    go (some i) e f = (
      [],
      t,
      ts,
      refl,
      tt,
      match_of-IsBlock content t i _ ok (index_of-First t.start content i ok.0 e) _ refl refl,
    )

-- `findThinkingTags` takes the first format, in the order of the list and not in the order of the
-- text, whose opening tag occurs, and its first block: the indices are those of the first opening tag
-- and of the shortest content after it, up to the closing tag or, while that is missing, to the end
-- of the text. It returns nothing exactly when no opening tag occurs.
pub find_thinking_tags-Finds : (content : Text) → Finds content tags (find_thinking_tags content)
unfolding find_thinking_tags
find_thinking_tags-Finds content =
    find_tag-Finds content tags
      ((refl, refl), ((refl, refl), ((refl, refl), ((refl, refl), ((refl, refl), tt)))))
