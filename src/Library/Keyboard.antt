-- ===== src/Library/Keyboard.antt =====
-- apps/web/src/features/library/hooks/useModelSelectorKeyboard.ts: the keys of the list of models. An
-- active index of -1 is `none`. The focus and the default actions of the browser are left out. The
-- names are compared in the lower case of ASCII.
pub mod Laws
mod Tests
use musaed.Base.{
  ℕ, zero, suc, Text, Bool, true, false, Option, none, some, List, [], ◌∷◌, ◌++◌, ◌+◌, ◌-◌, ◌%◌,
  ltb, ◌==◌, if◌then◌else◌, length, drop, not, min, is_empty,
}
use musaed.Base.Texts.{lower_case, starts_with, is_space}
use mathlib.Core.Option

-- The two values of `delta`.
pub data Direction : Type 0 where
  down up : Direction

-- `nextActiveIndex`
unfoldable pub next_active_index : Option ℕ → Direction → ℕ → Option ℕ
next_active_index prev d zero = none
next_active_index none down (suc n) = some 0
next_active_index none up (suc n) = some ((suc n - 1 + suc n) % suc n)
next_active_index (some p) down (suc n) = some ((p + 1 + suc n) % suc n)
next_active_index (some p) up (suc n) = some ((p + suc n - 1) % suc n)

abbrev pub type_ahead_reset_ms : ℕ
type_ahead_reset_ms = 500

pub record TypeAhead : Type 0 where
  pub keys : Text
  pub at : ℕ

-- `names.findIndex((n) => n.toLowerCase().startsWith(term))`
unfoldable pub find_name : Text → List Text → Option ℕ
find_name term [] = none
find_name term (n ∷ names) =
    if starts_with term (lower_case n) then some 0 else Option.map suc (find_name term names)

-- `slice(-4)`
abbrev pub last_four : Text → Text
last_four keys = drop (length keys - 4) keys

-- `advanceTypeAhead`, with the clock's reading. The clock may have gone back.
unfoldable pub advance_type_ahead : ℕ → Text → List Text → TypeAhead → TypeAhead × Option ℕ
advance_type_ahead now key [] s = (s, none)
advance_type_ahead now key (n ∷ names) s =
    let kept = if ltb (s.at + type_ahead_reset_ms) now then [] else s.keys in
    let acc = last_four (kept ++ key) in
    (record { keys = acc; at = now }, find_name (lower_case acc) (n ∷ names))

-- The state of the host component that the keys change, and the model that is selected.
pub record Combobox : Type 0 where
  pub is_open : Bool
  pub active_index : Option ℕ
  pub selected_model : Text
  pub type_ahead : TypeAhead

pub data Key : Type 0 where
  arrow_down arrow_up home end enter escape tab : Key
  -- a key whose name is one code unit
  char : ℕ → Key
  other : Key

abbrev pub open_list : Combobox → Combobox
open_list s = record s { is_open = true }

abbrev pub close_list : Combobox → Combobox
close_list s = record s { is_open = false }

unfoldable pub move_active : Direction → List Text → Combobox → Combobox
move_active d [] s = s
move_active d (n ∷ names) s = record s {
  active_index = next_active_index s.active_index d (length (n ∷ names));
}

-- The index is not negative here, so only its upper bound is cut.
unfoldable pub jump_active : ℕ → List Text → Combobox → Combobox
jump_active i [] s = s
jump_active i (n ∷ names) s = record s { active_index = some (min i (length names)) }

abbrev pub name_at : ℕ → List Text → Option Text
name_at i [] = none
name_at zero (n ∷ names) = some n
name_at (suc i) (n ∷ names) = name_at i names

abbrev pub index_or_first : Option ℕ → ℕ
index_or_first none = 0
index_or_first (some i) = i

-- An empty name selects nothing.
abbrev pub select_name : Option Text → Combobox → Combobox
select_name none s = s
select_name (some n) s = if is_empty n then s else close_list (record s { selected_model = n })

unfoldable pub select_active : List Text → Combobox → Combobox
select_active names s = select_name (name_at (index_or_first s.active_index) names) s

abbrev pub go_to : Option ℕ → Combobox → Combobox
go_to none s = s
go_to (some i) s = record s { active_index = some i }

unfoldable pub handle_type_ahead : ℕ → Text → List Text → Combobox → Combobox
handle_type_ahead now key names s =
    let (t, matched) = advance_type_ahead now key names s.type_ahead in
    go_to matched (record s { type_ahead = t })

-- `dispatchComboboxKey`
unfoldable pub dispatch_combobox_key : ℕ → Key → List Text → Combobox → Combobox
dispatch_combobox_key now arrow_down names s =
    if s.is_open then move_active down names s else open_list s
dispatch_combobox_key now arrow_up names s =
    if s.is_open then move_active up names s else open_list s
dispatch_combobox_key now home names s = if s.is_open then jump_active 0 names s else open_list s
dispatch_combobox_key now end names s =
    if s.is_open then jump_active (length names - 1) names s else open_list s
dispatch_combobox_key now enter names s = if s.is_open then select_active names s else s
dispatch_combobox_key now escape names s = if s.is_open then close_list s else s
dispatch_combobox_key now tab names s = if s.is_open then close_list s else s
dispatch_combobox_key now (char c) names s =
    if is_space c then s else handle_type_ahead now (c ∷ []) names (open_list s)
dispatch_combobox_key now other names s = s

-- Keys with their times, while the list of names stays.
unfoldable pub press_all : List (ℕ × Key) → List Text → Combobox → Combobox
press_all [] names s = s
press_all ((now, k) ∷ ks) names s = press_all ks names (dispatch_combobox_key now k names s)
