-- ===== src/Base/Texts.antt =====
-- `toLowerCase` of JavaScript on the letters of ASCII, `includes`, `indexOf` and `trim`, on code units.
pub mod Laws
use Prim.Native.Nat.{ℕ, suc, ◌+◌}
use mathlib.Core.Bool.{Bool, true, false, ◌&&◌, ◌||◌}
use mathlib.Core.List.{[], ◌∷◌, map, reverse}
use mathlib.Core.Option
use mathlib.Core.Option.{Option, none, some}
use musaed.Base.Tests.{leb, ◌==◌, if◌then◌else◌}
use musaed.Base.Lists.{Text, is_empty}

-- `===` on texts.
abbrev pub same_text : Text → Text → Bool
same_text [] [] = true
same_text [] (d ∷ ds) = false
same_text (c ∷ cs) [] = false
same_text (c ∷ cs) (d ∷ ds) = c == d && same_text cs ds

abbrev pub lower_case : Text → Text
lower_case = map (λ c. if leb 65 c && leb c 90 then c + 32 else c)

unfoldable pub starts_with : Text → Text → Bool
starts_with [] text = true
starts_with (c ∷ term) [] = false
starts_with (c ∷ term) (d ∷ text) = c == d && starts_with term text

-- `text.includes(term)`
unfoldable pub contains : Text → Text → Bool
unfolding starts_with
contains term [] = is_empty term
contains term (c ∷ text) = starts_with term (c ∷ text) || contains term text

-- `text.indexOf(term)`; `none` stands for -1.
unfoldable pub index_of : Text → Text → Option ℕ
unfolding starts_with
index_of term [] = if is_empty term then some 0 else none
index_of term (c ∷ text) =
    if starts_with term (c ∷ text) then some 0 else Option.map suc (index_of term text)

-- White space and line terminators.
unfoldable pub is_space : ℕ → Bool
is_space c =
    (leb 9 c && leb c 13)
    || c == 32
    || c == 0xA0
    || c == 0x1680
    || (leb 0x2000 c && leb c 0x200A)
    || c == 0x2028
    || c == 0x2029
    || c == 0x202F
    || c == 0x205F
    || c == 0x3000
    || c == 0xFEFF

unfoldable pub trim_start : Text → Text
trim_start [] = []
trim_start (c ∷ text) = let rest = trim_start text in if is_space c then rest else c ∷ text

unfoldable pub trim : Text → Text
unfolding trim_start
trim text = reverse (trim_start (reverse (trim_start text)))
