-- ===== src/Budget/History/Laws.antt =====
-- The history slice is the longest recent part of the conversation that fits its budget.
use musaed.Base.{ℕ, String, Text, true, List, [], ◌∷◌, ◌++◌}
use musaed.Base.{
  ◌+◌, ◌≤◌, ◌<◌, ◌≡◌, refl, sym, ap, subst, ◌∙◌, arith, append_assoc, append-nil, Bool-cases, inl,
  inr, ltb, ◌==◌, if◌then◌else◌,
}
use musaed.Message.{Message}
use musaed.Budget.Estimate.{estimate_text_tokens, estimate_text_tokens_bounds}
use musaed.Budget.History.{ChatMessage, chat_of, is_eligible, slice_loop, build_history_slice}
use mathlib.Core.List.{reverse, reverse-append, reverse-reverse, reverse-cons}

-- The estimate of a chat message and of a list of them.
abbrev pub tokens_of : ChatMessage → ℕ
tokens_of m = estimate_text_tokens m.content

abbrev pub total_tokens : List ChatMessage → ℕ
total_tokens [] = 0
total_tokens (m ∷ ms) = tokens_of m + total_tokens ms

-- The messages that may be sent, in their order.
abbrev pub eligible : String → List Message → List ChatMessage
eligible request [] = []
eligible request (m ∷ ms) =
    if is_eligible request m then chat_of m ∷ eligible request ms else eligible request ms

-- Of a list, newest first, that was left out: its first message would not have fitted.
abbrev pub Stops : ℕ → ℕ → List ChatMessage → Type 0
Stops budget used [] = Unit
Stops budget used (m ∷ ms) = budget < used + tokens_of m

pub total_tokens-append :
    (xs ys : List ChatMessage) → total_tokens (xs ++ ys) ≡ total_tokens xs + total_tokens ys
total_tokens-append [] ys = omega arith
total_tokens-append (x ∷ xs) ys = omega (arith, total_tokens-append xs ys)

eligible-append :
    (request : String) (xs ys : List Message)
    → eligible request (xs ++ ys) ≡ eligible request xs ++ eligible request ys
eligible-append request [] ys = refl
eligible-append request (x ∷ xs) ys = ground (arith, eligible-append request xs ys)

pub eligible-reverse :
    (request : String) (xs : List Message)
    → eligible request (reverse xs) ≡ reverse (eligible request xs)
eligible-reverse request [] = refl
eligible-reverse request (x ∷ xs) =
    rw
      (
        reverse-cons x xs,
        eligible-append request (reverse xs) (x ∷ []),
        eligible-reverse request xs,
      )
      (ground (
        arith,
        reverse-cons (chat_of x) (eligible request xs),
        append-nil (reverse (eligible request xs)),
      ))

-- What a run of the loop returns: the newest messages that fit, before what it had.
record Sliced (budget : ℕ) (older history result : List ChatMessage) : Type 0 where
  pub kept : List ChatMessage
  pub dropped : List ChatMessage
  pub split : older ≡ kept ++ dropped
  pub result_lem : result ≡ reverse kept ++ history
  pub fits : total_tokens result ≤ budget
  pub stops : Stops budget (total_tokens result) dropped

slice_loop-Sliced :
    (request : String) (budget used : ℕ) (history : List ChatMessage) (older : List Message)
    → used ≡ total_tokens history
    → used ≤ budget
    → Sliced budget (eligible request older) history (slice_loop request budget used history older)
unfolding slice_loop
slice_loop-Sliced request budget used history [] e h = record {
  kept = [];
  dropped = [];
  split = refl;
  result_lem = refl;
  fits = ground arith;
  stops = tt;
}
slice_loop-Sliced request budget used history (m ∷ older) e h =
    elim (Bool-cases (is_eligible request m)) [
      | inr skip ↦ rw skip (slice_loop-Sliced request budget used history older e h)
      | inl good ↦ elim (Bool-cases (ltb budget (used + estimate_text_tokens m.content))) [
        | inl over ↦
            rw (good, over)
              (record {
                kept = [];
                dropped = chat_of m ∷ eligible request older;
                split = refl;
                result_lem = refl;
                fits = ground arith;
                stops = ground arith;
              })
        | inr under ↦
            let ih =
              slice_loop-Sliced request budget (used + estimate_text_tokens m.content)
                (chat_of m ∷ history) older (ground arith) (ground arith) in
            rw (good, under)
              (record {
                kept = chat_of m ∷ ih.kept;
                dropped = ih.dropped;
                split = ap (◌∷◌ (chat_of m)) ih.split;
                result_lem =
                    ih.result_lem
                    ∙ sym (
                        ap (λ l. l ++ history) (reverse-cons (chat_of m) ih.kept)
                        ∙ append_assoc (reverse ih.kept) (chat_of m ∷ []) history);
                fits = ih.fits;
                stops = ih.stops;
              })
      ]
    ]

tokens_pos :
    (request : String) (m : Message) → is_eligible request m ≡ true → 0 < tokens_of (chat_of m)
unfolding is_eligible
tokens_pos request m h = go m.content refl
  where
    go : (t : Text) → m.content ≡ t → 0 < tokens_of (chat_of m)
    go [] e = ground arith
    go (c ∷ t) e = ground (arith, estimate_text_tokens_bounds m.content)

none_fits : (request : String) (older : List Message) → Stops 0 0 (eligible request older)
none_fits request [] = tt
none_fits request (m ∷ older) = elim (Bool-cases (is_eligible request m)) [
  | inl good ↦ rw good (omega (arith, tokens_pos request m good))
  | inr skip ↦ rw skip (none_fits request older)
]

-- A recent part of a list of messages: it ends the list, fits the budget, and one message more
-- would not fit.
pub record IsSlice (budget : ℕ) (all slice : List ChatMessage) : Type 0 where
  -- what was left out, newest first
  pub dropped : List ChatMessage
  pub split : all ≡ reverse dropped ++ slice
  pub fits : total_tokens slice ≤ budget
  pub stops : Stops budget (total_tokens slice) dropped

eligible_back :
    (request : String) (messages : List Message) (back : List ChatMessage)
    → eligible request (reverse messages) ≡ back
    → eligible request messages ≡ reverse back
eligible_back request messages back e =
    sym (reverse-reverse (eligible request messages))
    ∙ ap reverse (sym (eligible-reverse request messages) ∙ e)

slice_loop-IsSlice :
    (request : String) (budget : ℕ) (messages : List Message)
    → IsSlice budget (eligible request messages) (slice_loop request budget 0 [] (reverse messages))
slice_loop-IsSlice request budget messages =
    let s = slice_loop-Sliced request budget 0 [] (reverse messages) refl (omega arith) in
    record {
      dropped = s.dropped;
      split =
          eligible_back request messages (s.kept ++ s.dropped) s.split
          ∙ reverse-append s.kept s.dropped
          ∙ ap (◌++◌ (reverse s.dropped)) (sym (s.result_lem ∙ append-nil (reverse s.kept)));
      fits = s.fits;
      stops = s.stops;
    }

-- `buildHistorySlice` sends, in chronological order, the longest recent part of the messages that
-- may be sent whose estimated tokens fit the budget: it fits, nothing in between is left out, and
-- the next older message would not fit. With no budget that is the empty part.
pub build_history_slice-IsSlice :
    (messages : List Message) (request : String) (budget : ℕ)
    → IsSlice budget (eligible request messages) (build_history_slice messages request budget)
unfolding build_history_slice
build_history_slice-IsSlice [] request budget = elim (Bool-cases (budget == 0)) [
  | inl e ↦ rw e none_of_none
  | inr e ↦ rw e none_of_none
]
  where
    none_of_none : IsSlice budget [] []
    none_of_none = record { dropped = []; split = refl; fits = omega arith; stops = tt }
build_history_slice-IsSlice (m ∷ ms) request budget = elim (Bool-cases (budget == 0)) [
  | inl e ↦
      let none_left : budget ≡ 0 = ground arith in
      rw e (record {
        dropped = eligible request (reverse (m ∷ ms));
        split = eligible_back request (m ∷ ms) _ refl ∙ sym (append-nil _);
        fits = omega arith;
        stops =
            subst (λ b. Stops b 0 (eligible request (reverse (m ∷ ms)))) (sym none_left)
              (none_fits request (reverse (m ∷ ms)));
      })
  | inr e ↦ rw e (slice_loop-IsSlice request budget (m ∷ ms))
]
