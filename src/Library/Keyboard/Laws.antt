-- ===== src/Library/Keyboard/Laws.antt =====
-- The active index of useModelSelectorKeyboard.ts over every sequence of keys.
use musaed.Base.{
  ℕ, zero, suc, Text, false, Option, none, some, List, [], ◌∷◌, ◌++◌, ◌+◌, ◌-◌, ◌%◌, ◌≤◌, ◌<◌, ◌≡◌,
  arith, if◌then◌else◌, length, length-drop, is_empty, if_split, ltb, ◌==◌, dec_lt, ap,
}
use musaed.Base.Texts.{lower_case, is_space}
use musaed.Library.Keyboard.{
  type_ahead_reset_ms, Direction, down, up, next_active_index, find_name, last_four,
  advance_type_ahead, Combobox, Key, arrow_down, arrow_up, home, end, enter, escape, tab, char,
  other, open_list, move_active, jump_active, name_at, index_or_first, select_name, select_active,
  go_to, handle_type_ahead, dispatch_combobox_key, press_all,
}

abbrev pub IsIndex : ℕ → Option ℕ → Type 0
IsIndex n none = Unit
IsIndex n (some i) = i < n

-- The active index is one of the list, and few keys are kept.
pub record IsSteady (names : List Text) (s : Combobox) : Type 0 where
  pub in_list : IsIndex (length names) s.active_index
  pub bounded : length s.type_ahead.keys ≤ 4

next_active_index-IsIndex :
    (o : Option ℕ) (d : Direction) (n : ℕ) → IsIndex n (next_active_index o d n)
unfolding next_active_index
next_active_index-IsIndex o d zero = tt
next_active_index-IsIndex none down (suc n) = omega arith
next_active_index-IsIndex none up (suc n) = grind arith
next_active_index-IsIndex (some p) down (suc n) = grind arith
next_active_index-IsIndex (some p) up (suc n) = grind arith

wrap : (k n : ℕ) → k < n → (k + n) % n ≡ k
wrap k n h = grind arith

below : (k n : ℕ) → k < n → k % n ≡ k
below k n h = grind arith

wrap_twice : (n : ℕ) → (suc n + suc n) % suc n ≡ 0
wrap_twice n = grind arith

step_down : (p n : ℕ) → p < suc n → (p + 1 + suc n) % suc n ≡ (if p == n then 0 else p + 1)
step_down p n h = elim (dec_lt p n) [
  | yes l ↦ ground (arith, wrap (p + 1) (suc n))
  | no l ↦ let e : p ≡ n = omega arith in rw e (ground (arith, wrap_twice n))
]

step_up : (p n : ℕ) → p < suc n → (p + suc n - 1) % suc n ≡ (if p == 0 then n else p - 1)
step_up zero n h = ground (arith, below n (suc n))
step_up (suc p) n h = ground (arith, wrap p (suc n))

-- Moving down and then up, or up and then down, comes back to where it was.
next_active_index_inverse :
    (p n : ℕ)
    → p < n
    → (next_active_index (next_active_index (some p) down n) up n ≡ some p)
      × (next_active_index (next_active_index (some p) up n) down n ≡ some p)
unfolding next_active_index
next_active_index_inverse p zero h = elim h [ ]
next_active_index_inverse p (suc n) h = (
  ap some (rw (step_down p n h) (ground (arith, step_up 0 n, step_up (p + 1) n))),
  ap some (rw (step_up p n h) (ground (arith, step_down n n, step_down (p - 1) n))),
)

find_name-IsIndex :
    (term : Text) (names : List Text) → IsIndex (length names) (find_name term names)
unfolding find_name
find_name-IsIndex term [] = tt
find_name-IsIndex term (n ∷ names) = ground (arith, find_name-IsIndex term names)

last_four_short : (keys : Text) → length (last_four keys) ≤ 4
last_four_short keys = omega (arith, length-drop (length keys - 4) keys)

move-IsSteady :
    (d : Direction) (names : List Text) (s : Combobox)
    → IsSteady names s
    → IsSteady names (move_active d names s)
unfolding move_active
move-IsSteady d [] s h = h
move-IsSteady d (n ∷ names) s h = record {
  in_list = next_active_index-IsIndex s.active_index d (length (n ∷ names));
  bounded = h.bounded;
}

jump-IsSteady :
    (i : ℕ) (names : List Text) (s : Combobox)
    → IsSteady names s
    → IsSteady names (jump_active i names s)
unfolding jump_active
jump-IsSteady i [] s h = h
jump-IsSteady i (n ∷ names) s h = record { in_list = omega arith; bounded = h.bounded }

select-IsSteady :
    (names : List Text) (o : Option Text) (s : Combobox)
    → IsSteady names s
    → IsSteady names (select_name o s)
select-IsSteady names none s h = h
select-IsSteady names (some n) s h =
    if_split (IsSteady names) (is_empty n) _ _ (λ _. h)
      (λ _. record { in_list = h.in_list; bounded = h.bounded })

go_to-IsSteady :
    (names : List Text) (o : Option ℕ) (s : Combobox)
    → IsIndex (length names) o
    → IsSteady names s
    → IsSteady names (go_to o s)
go_to-IsSteady names none s i h = h
go_to-IsSteady names (some j) s i h = record { in_list = i; bounded = h.bounded }

type_ahead-IsSteady :
    (now : ℕ) (key : Text) (names : List Text) (s : Combobox)
    → IsSteady names s
    → IsSteady names (handle_type_ahead now key names s)
unfolding handle_type_ahead advance_type_ahead
type_ahead-IsSteady now key [] s h = record { in_list = h.in_list; bounded = h.bounded }
type_ahead-IsSteady now key (n ∷ names) s h =
    let t = (advance_type_ahead now key (n ∷ names) s.type_ahead).0 in
    let kept = if ltb (s.type_ahead.at + type_ahead_reset_ms) now then [] else s.type_ahead.keys in
    go_to-IsSteady (n ∷ names) (find_name (lower_case t.keys) (n ∷ names))
      (record s { type_ahead = t }) (find_name-IsIndex (lower_case t.keys) (n ∷ names))
      (record { in_list = h.in_list; bounded = last_four_short (kept ++ key) })

opened : (names : List Text) (s : Combobox) → IsSteady names s → IsSteady names (open_list s)
opened names s h = record { in_list = h.in_list; bounded = h.bounded }

closed :
    (names : List Text) (s : Combobox)
    → IsSteady names s
    → IsSteady names (record s { is_open = false })
closed names s h = record { in_list = h.in_list; bounded = h.bounded }

dispatch-IsSteady :
    (now : ℕ) (k : Key) (names : List Text) (s : Combobox)
    → IsSteady names s
    → IsSteady names (dispatch_combobox_key now k names s)
unfolding dispatch_combobox_key select_active
dispatch-IsSteady now arrow_down names s h =
    if_split (IsSteady names) s.is_open _ _ (λ _. move-IsSteady down names s h)
      (λ _. opened names s h)
dispatch-IsSteady now arrow_up names s h =
    if_split (IsSteady names) s.is_open _ _ (λ _. move-IsSteady up names s h)
      (λ _. opened names s h)
dispatch-IsSteady now home names s h =
    if_split (IsSteady names) s.is_open _ _ (λ _. jump-IsSteady 0 names s h) (λ _. opened names s h)
dispatch-IsSteady now end names s h =
    if_split (IsSteady names) s.is_open _ _ (λ _. jump-IsSteady (length names - 1) names s h)
      (λ _. opened names s h)
dispatch-IsSteady now enter names s h =
    if_split (IsSteady names) s.is_open _ _
      (λ _. select-IsSteady names (name_at (index_or_first s.active_index) names) s h) (λ _. h)
dispatch-IsSteady now escape names s h =
    if_split (IsSteady names) s.is_open _ _ (λ _. closed names s h) (λ _. h)
dispatch-IsSteady now tab names s h =
    if_split (IsSteady names) s.is_open _ _ (λ _. closed names s h) (λ _. h)
dispatch-IsSteady now (char c) names s h =
    if_split (IsSteady names) (is_space c) _ _ (λ _. h)
      (λ _. type_ahead-IsSteady now (c ∷ []) names (open_list s) (opened names s h))
dispatch-IsSteady now other names s h = h

-- Whatever keys are pressed, and whatever the clock reads, the active index stays one of the list or
-- none, and at most four characters are kept for the search by typing, when this holds at first.
press_all-IsSteady :
    (ks : List (ℕ × Key)) (names : List Text) (s : Combobox)
    → IsSteady names s
    → IsSteady names (press_all ks names s)
unfolding press_all
press_all-IsSteady [] names s h = h
press_all-IsSteady ((now, k) ∷ ks) names s h =
    press_all-IsSteady ks names (dispatch_combobox_key now k names s)
      (dispatch-IsSteady now k names s h)
