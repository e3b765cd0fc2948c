-- ===== src/Library/Keyboard/Tests.antt =====
-- The laws of useModelSelectorKeyboard.ts on two models.
use musaed.Base.{ℕ, Text, false, none, List, [], ◌∷◌, ◌≡◌, refl}
use musaed.Library.Keyboard.{
  Combobox, Key, arrow_down, arrow_up, char, end, enter, press_all, dispatch_combobox_key,
  move_active, jump_active, select_active, handle_type_ahead, advance_type_ahead, find_name,
  next_active_index,
}
use musaed.Base.Texts.{starts_with, is_space}

abbrev names : List Text
names = (97 ∷ []) ∷ (98 ∷ []) ∷ []

abbrev shut : Combobox
shut = record {
  is_open = false;
  active_index = none;
  selected_model = [];
  type_ahead = record { keys = []; at = 0 };
}

abbrev keys : List (ℕ × Key)
keys = (1, arrow_down) ∷ (2, arrow_up) ∷ (3, arrow_down) ∷ (4, char 98) ∷ (5, end) ∷ (6, enter) ∷ []

keys_select_last : (press_all keys names shut).selected_model ≡ 98 ∷ []
unfolding press_all dispatch_combobox_key move_active jump_active select_active handle_type_ahead
    advance_type_ahead find_name next_active_index starts_with is_space
keys_select_last = refl
