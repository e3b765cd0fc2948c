-- ===== src/Base/Dict.antt =====
-- A JavaScript object or `Map` that is used as a table: its entries in insertion order. A write to
-- a key that is there keeps its place; a new key goes to the end.
use Prim.Native.String.{String}
use mathlib.Core.Path.{◌≡◌, refl}
use mathlib.Core.Logic.{◌≢◌, ite}
use mathlib.Core.Bool.{Bool, true, false}
use mathlib.Core.List.{List, [], ◌∷◌, map}
use mathlib.Core.Option.{Option, none, some}
use native.Mathlib.Omega.{arith}
use musaed.Base.Tests.{text_discrete}
use musaed.Base.Lists.{is_empty}

abbrev pub Dict : Type 0 → Type 0
Dict V = List (String × V)

module _ {V : Type 0} where
  -- `d[k]`
  unfoldable pub get : String → Dict V → Option V
  get k [] = none
  get k ((j, v) ∷ d) = ite (text_discrete k j) (some v) (get k d)

  -- `{ ...d, [k]: v }`
  unfoldable pub set : String → V → Dict V → Dict V
  set k v [] = (k, v) ∷ []
  set k v ((j, w) ∷ d) = ite (text_discrete k j) ((k, v) ∷ d) ((j, w) ∷ set k v d)

  -- `const { [k]: _, ...rest } = d`
  unfoldable pub delete : String → Dict V → Dict V
  delete k [] = []
  delete k ((j, w) ∷ d) = ite (text_discrete k j) (delete k d) ((j, w) ∷ delete k d)

  -- `k in d`
  abbrev pub has : String → Dict V → Bool
  has k d = elim (get k d) [ none ↦ false | some _ ↦ true ]

  -- `Object.keys(d)`
  abbrev pub keys : Dict V → List String
  keys = map (λ e. e.0)

  pub get-set :
      (k j : String) (v : V) (d : Dict V)
      → get j (set k v d) ≡ ite (text_discrete j k) (some v) (get j d)
  unfolding get set
  get-set k j v [] = refl
  get-set k j v ((i, w) ∷ d) = ground (arith, get-set k j v d)

  pub get-set_self : (k : String) (v : V) (d : Dict V) → get k (set k v d) ≡ some v
  get-set_self k v d = ground (arith, get-set k k v d)

  pub get-set_ne : (k j : String) (v : V) (d : Dict V) → j ≢ k → get j (set k v d) ≡ get j d
  get-set_ne k j v d h = ground (arith, get-set k j v d)

  pub get-delete :
      (k j : String) (d : Dict V) → get j (delete k d) ≡ ite (text_discrete j k) none (get j d)
  unfolding get delete
  get-delete k j [] = ground arith
  get-delete k j ((i, w) ∷ d) = ground (arith, get-delete k j d)

  pub get-delete_self : (k : String) (d : Dict V) → get k (delete k d) ≡ none
  get-delete_self k d = ground (arith, get-delete k k d)

  pub get-delete_ne : (k j : String) (d : Dict V) → j ≢ k → get j (delete k d) ≡ get j d
  get-delete_ne k j d h = ground (arith, get-delete k j d)

  pub is_empty-set : (k : String) (v : V) (d : Dict V) → is_empty (set k v d) ≡ false
  unfolding set
  is_empty-set k v [] = refl
  is_empty-set k v ((j, w) ∷ d) = ground arith

  pub is_empty_of_get : (k : String) (v : V) (d : Dict V) → get k d ≡ some v → is_empty d ≡ false
  unfolding get
  is_empty_of_get k v [] h = cc
  is_empty_of_get k v (e ∷ d) h = refl

  pub delete_absent : (k : String) (d : Dict V) → get k d ≡ none → delete k d ≡ d
  unfolding get delete
  delete_absent k [] h = refl
  delete_absent k ((j, w) ∷ d) h = ground (arith, delete_absent k d)

  -- No key twice.
  abbrev pub IsDict : Dict V → Type 0
  IsDict [] = Unit
  IsDict ((k, v) ∷ d) = (get k d ≡ none) × IsDict d

  pub set-IsDict : (k : String) (v : V) (d : Dict V) → IsDict d → IsDict (set k v d)
  unfolding get set
  set-IsDict k v [] h = (refl, tt)
  set-IsDict k v ((j, w) ∷ d) h = ground (arith, set-IsDict k v d h.1, get-set k j v d)
