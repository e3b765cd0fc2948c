-- ===== src/Migration/Value.antt =====
-- The values that persisted states consist of: what `JSON.parse` gives. Of a number the framework
-- asks whether it is one, and reads the versions, which are natural numbers by
-- `MigrationMetadataSchema` (packages/contracts/src/migrations.ts); any other number is a code for
-- itself.
use musaed.Base.{ℕ, String, Bool, Option, none, some, ite, text_discrete}
use musaed.Base.{◌≡◌, refl, arith}

mutual
  pub data Value : Type 0 where
    null : Value
    bool : Bool → Value
    num : ℕ → Value
    str : String → Value
    arr : Items → Value
    obj : Fields → Value

  pub data Items : Type 0 where
    no_items : Items
    item : Value → Items → Items

  pub data Fields : Type 0 where
    end : Fields
    field : String → Value → Fields → Fields

-- `o[k]`, and `k in o`: an object has the keys that it was given.
unfoldable pub get_field : String → Fields → Option Value
get_field k end = none
get_field k (field j v o) = ite (text_discrete k j) (some v) (get_field k o)

-- `{ ...o, [k]: v }`
unfoldable pub set_field : String → Value → Fields → Fields
set_field k v end = field k v end
set_field k v (field j w o) = ite (text_discrete k j) (field k v o) (field j w (set_field k v o))

-- `const { [k]: _, ...rest } = o`
unfoldable pub remove_field : String → Fields → Fields
remove_field k end = end
remove_field k (field j w o) =
    ite (text_discrete k j) (remove_field k o) (field j w (remove_field k o))

-- `{ ...o, ...p }`: the fields of `p` are written one after the other.
unfoldable pub spread : Fields → Fields → Fields
spread o end = o
spread o (field k v p) = spread (set_field k v o) p

-- The fields of a value that is spread; only an object has any that matter here.
abbrev pub fields_of : Value → Fields
fields_of (obj o) = o
fields_of _ = end

-- No key twice, as in every JavaScript object.
abbrev pub IsObject : Fields → Type 0
IsObject end = Unit
IsObject (field k v o) = (get_field k o ≡ none) × IsObject o

pub get_field-set_field :
    (k j : String) (v : Value) (o : Fields)
    → get_field j (set_field k v o) ≡ ite (text_discrete j k) (some v) (get_field j o)
unfolding get_field set_field
get_field-set_field k j v end = refl
get_field-set_field k j v (field i w o) = ground (arith, get_field-set_field k j v o)

pub get_field-remove_field :
    (k j : String) (o : Fields)
    → get_field j (remove_field k o) ≡ ite (text_discrete j k) none (get_field j o)
unfolding get_field remove_field
get_field-remove_field k j end = ground arith
get_field-remove_field k j (field i w o) = ground (arith, get_field-remove_field k j o)

abbrev pub or_else : Option Value → Option Value → Option Value
or_else none o = o
or_else (some v) o = some v

-- A spread reads the right object first.
pub get_field-spread :
    (k : String) (o p : Fields)
    → IsObject p
    → get_field k (spread o p) ≡ or_else (get_field k p) (get_field k o)
unfolding get_field spread
get_field-spread k o end h = refl
get_field-spread k o (field j v p) (new, h) =
    ground (arith, get_field-spread k (set_field j v o) p h, get_field-set_field j k v o)
