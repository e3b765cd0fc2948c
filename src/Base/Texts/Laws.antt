-- ===== src/Base/Texts/Laws.antt =====
-- Where a text is found in another, and what `trim` cuts off.
use Prim.Native.Nat.{ℕ}
use mathlib.Core.Path.{◌≡◌, refl, sym, ap, ◌∙◌}
use mathlib.Core.Bool.{true, false}
use mathlib.Core.List.{[], ◌∷◌, ◌++◌, reverse, reverse-append, reverse-reverse}
use mathlib.Core.Logic.{inl, inr}
use mathlib.Core.Option.{none, some}
use native.Mathlib.Omega.{arith}
use musaed.Base.Tests.{Bool-cases, Option-cases}
use musaed.Base.Lists.{Text, length, is_empty}
use musaed.Base.Texts.{starts_with, contains, index_of, trim_start, trim, is_space}

pub starts_with-append :
    (term a b : Text) → starts_with term a ≡ true → starts_with term (a ++ b) ≡ true
unfolding starts_with
starts_with-append [] a b h = refl
starts_with-append (c ∷ term) [] b h = ground arith
starts_with-append (c ∷ term) (d ∷ a) b h = ground (arith, starts_with-append term a b)

pub starts_with_self : (term b : Text) → starts_with term (term ++ b) ≡ true
unfolding starts_with
starts_with_self [] b = refl
starts_with_self (c ∷ term) b = ground (arith, starts_with_self term b)

-- What follows a text that another starts with.
pub starts_with_rest :
    (term text : Text) → starts_with term text ≡ true → (rest : Text) × (text ≡ term ++ rest)
unfolding starts_with
starts_with_rest [] text h = (text, refl)
starts_with_rest (c ∷ term) [] h = cc
starts_with_rest (c ∷ term) (d ∷ text) h =
    let (rest, e) = starts_with_rest term text (ground arith) in (rest, ground (arith, e))

pub contains-append : (term a b : Text) → contains term a ≡ true → contains term (a ++ b) ≡ true
unfolding contains
contains-append [] [] [] h = refl
contains-append [] [] (c ∷ b) h = refl
contains-append (x ∷ term) [] b h = cc
contains-append term (c ∷ a) b h =
    ground (arith, starts_with-append term (c ∷ a) b, contains-append term a b)

pub contains-append_right :
    (term a b : Text) → contains term b ≡ true → contains term (a ++ b) ≡ true
unfolding contains
contains-append_right term [] b h = h
contains-append_right term (c ∷ a) b h = ground (arith, contains-append_right term a b h)

-- A text holds what a part of it holds.
pub free_inside :
    (term a b c : Text) → contains term (a ++ (b ++ c)) ≡ false → contains term b ≡ false
free_inside term a b c h =
    ground (arith, contains-append_right term a (b ++ c), contains-append term b c)

-- The first place where a term that is not empty stands.
pub record First (term text : Text) (i : ℕ) : Type 0 where
  pub before : Text
  pub after : Text
  pub at : text ≡ before ++ (term ++ after)
  pub size : length before ≡ i
  pub nowhere_before : contains term before ≡ false

pub not_before : (term a b : Text) → starts_with term (a ++ b) ≡ false → starts_with term a ≡ false
not_before term a b h = ground (arith, starts_with-append term a b)

pub index_of-First :
    (term text : Text) (i : ℕ)
    → is_empty term ≡ false
    → index_of term text ≡ some i
    → First term text i
unfolding index_of contains
index_of-First term [] i ne h = ground arith
index_of-First term (c ∷ text) i ne h = elim (Bool-cases (starts_with term (c ∷ text))) [
  | inl e ↦
      let (rest, at) = starts_with_rest term (c ∷ text) e in
      record { before = []; after = rest; at = at; size = ground arith; nowhere_before = ne }
  | inr e ↦ elim (Option-cases (index_of term text)) [
    | inl none_there ↦ ground (arith, none_there)
    | inr (j, there) ↦
        let f = index_of-First term text j ne there in
        record {
          before = c ∷ f.before;
          after = f.after;
          at = ap (◌∷◌ c) f.at;
          size = ground (arith, there, f.size);
          nowhere_before =
              rw (not_before term (c ∷ f.before) (term ++ f.after) (rw f.at at e)) f.nowhere_before;
        }
  ]
]

pub index_of-none : (term text : Text) → (index_of term text ≡ none) → contains term text ≡ false
unfolding index_of contains
index_of-none term [] h = ground arith
index_of-none term (c ∷ text) h = ground (arith, index_of-none term text)

trim_start_rest : (text : Text) → (cut : Text) × (text ≡ cut ++ trim_start text)
unfolding trim_start
trim_start_rest [] = ([], refl)
trim_start_rest (c ∷ text) = elim (Bool-cases (is_space c)) [
  | inl e ↦ let (cut, at) = trim_start_rest text in (c ∷ cut, rw e (ap (◌∷◌ c) at))
  | inr e ↦ ([], rw e refl)
]

ends : (rest cut text : Text) → reverse text ≡ cut ++ rest → text ≡ reverse rest ++ reverse cut
ends rest cut text e = sym (reverse-reverse text) ∙ ap reverse e ∙ reverse-append cut rest

-- `trim` cuts both ends off.
pub trim_rest :
    (text : Text) → (left : Text) × (right : Text) × (text ≡ left ++ (trim text ++ right))
unfolding trim
trim_rest text =
    let (left, at) = trim_start_rest text in
    let (cut, back) = trim_start_rest (reverse (trim_start text)) in
    (left, reverse cut, at ∙ ap (λ x. left ++ x) (ends _ cut (trim_start text) back))
