-- ===== src/Migration/Settings/Steps.antt =====
-- What the small steps of the migrations of store/settings-store.ts do to a field, and that they
-- keep objects.
use musaed.Base.{
  text_discrete, ℕ, String, Bool, true, false, Option, none, some, List, [], ◌∷◌, ite,
}
use musaed.Base.{◌≡◌, ◌≢◌, refl, sym, ap, subst, ◌⊎◌, inl, inr, arith, ite_split}
use musaed.Migration.Value.{
  Value, null, bool, num, str, arr, obj, Fields, end, field, get_field, set_field, spread, IsObject,
  get_field-set_field, get_field-spread, or_else,
}
use musaed.Migration.Settings.{
  default_settings, write_found, if_bool, if_num, copy_field, copy_fields, ensure_bool, ensure_num,
}

-- `keys.includes(k)`
abbrev pub among : String → List String → Bool
among k [] = false
among k (j ∷ ks) = ite (text_discrete k j) true (among k ks)

pub set_field-IsObject :
    (k : String) (v : Value) (o : Fields) → IsObject o → IsObject (set_field k v o)
unfolding get_field set_field
set_field-IsObject k v end h = (refl, _)
set_field-IsObject k v (field j w o) (new, h) =
    ite_split IsObject (text_discrete k j) _ _
      (λ e. (subst (λ i. get_field i o ≡ none) (sym e) new, h))
      (λ ne. (ground (arith, get_field-set_field k j v o), set_field-IsObject k v o h))

pub spread-IsObject : (o p : Fields) → IsObject o → IsObject (spread o p)
unfolding spread
spread-IsObject o end h = h
spread-IsObject o (field k v p) h = spread-IsObject (set_field k v o) p (set_field-IsObject k v o h)

pub default-IsObject : IsObject default_settings
unfolding get_field text_discrete
default-IsObject = (
  refl,
  (
    refl,
    (
      refl,
      (
        refl,
        (
          refl,
          (
            refl,
            (
              refl,
              (
                refl,
                (
                  refl,
                  (
                    refl,
                    (
                      refl,
                      (refl, (refl, (refl, (refl, (refl, (refl, (refl, (refl, (refl, _))))))))),
                    ),
                  ),
                ),
              ),
            ),
          ),
        ),
      ),
    ),
  ),
)

pub write_found-IsObject :
    (k : String) (v : Option Value) (o : Fields) → IsObject o → IsObject (write_found k v o)
write_found-IsObject k none o h = h
write_found-IsObject k (some v) o h = set_field-IsObject k v o h

pub copy_fields-IsObject :
    (ks : List String) (o m : Fields) → IsObject m → IsObject (copy_fields ks o m)
unfolding copy_field copy_fields
copy_fields-IsObject [] o m h = h
copy_fields-IsObject (k ∷ ks) o m h =
    copy_fields-IsObject ks o _ (write_found-IsObject k (get_field k o) m h)

pub if_bool_either :
    (P : Fields → Type 0) (v : Option Value) (o p : Fields)
    → P o
    → (((b : Bool) → ¬ (v ≡ some (bool b))) → P p)
    → P (if_bool v o p)
if_bool_either P none o p f g = g (λ b e. absurd (ground (arith, e)))
if_bool_either P (some null) o p f g = g (λ b e. absurd (ground (arith, e)))
if_bool_either P (some (bool b)) o p f g = f
if_bool_either P (some (num n)) o p f g = g (λ b e. absurd (ground (arith, e)))
if_bool_either P (some (str s)) o p f g = g (λ b e. absurd (ground (arith, e)))
if_bool_either P (some (arr x)) o p f g = g (λ b e. absurd (ground (arith, e)))
if_bool_either P (some (obj x)) o p f g = g (λ b e. absurd (ground (arith, e)))

pub if_num_either :
    (P : Fields → Type 0) (v : Option Value) (o p : Fields) → P o → P p → P (if_num v o p)
if_num_either P none o p f g = g
if_num_either P (some null) o p f g = g
if_num_either P (some (bool b)) o p f g = g
if_num_either P (some (num n)) o p f g = f
if_num_either P (some (str s)) o p f g = g
if_num_either P (some (arr x)) o p f g = g
if_num_either P (some (obj x)) o p f g = g

pub ensure_bool-IsObject :
    (k : String) (b : Bool) (o : Fields) → IsObject o → IsObject (ensure_bool k b o)
unfolding ensure_bool
ensure_bool-IsObject k b o h =
    if_bool_either IsObject (get_field k o) _ _ h (λ _. set_field-IsObject k (bool b) o h)

pub ensure_num-IsObject :
    (k : String) (n : ℕ) (o : Fields) → IsObject o → IsObject (ensure_num k n o)
unfolding ensure_num
ensure_num-IsObject k n o h =
    if_num_either IsObject (get_field k o) _ _ h (set_field-IsObject k (num n) o h)

-- A field that is written first and only.
pub spread_kept :
    (k : String) (v : Value) (o p : Fields)
    → IsObject p
    → get_field k p ≡ some v
    → get_field k (spread o p) ≡ some v
spread_kept k v o p h e = cc (get_field-spread k o p h, ap (λ r. or_else r (get_field k o)) e)

pub set_field_kept :
    (k j : String) (w : Value) (o : Fields) → k ≢ j → get_field k (set_field j w o) ≡ get_field k o
set_field_kept k j w o ne = ground (arith, get_field-set_field j k w o)

pub write_found_kept :
    (k j : String) (v : Value) (w : Option Value) (o : Fields)
    → (k ≢ j) ⊎ (w ≡ some v)
    → get_field k o ≡ some v
    → get_field k (write_found j w o) ≡ some v
write_found_kept k j v none o same e = e
write_found_kept k j v (some w) o same e = ground (arith, get_field-set_field j k w o, same, e)

pub written_self :
    (k j : String) (v : Value) (o m : Fields)
    → get_field k o ≡ some v
    → k ≡ j
    → get_field k (write_found j (get_field j o) m) ≡ some v
written_self k j v o m e same =
    subst (λ i. get_field k (write_found i (get_field i o) m) ≡ some v) same
      (rw e (ground (arith, get_field-set_field k k v m)))

pub written :
    (k j : String) (v : Value) (o m : Fields)
    → get_field k o ≡ some v
    → (k ≡ j) ⊎ (get_field k m ≡ some v)
    → get_field k (write_found j (get_field j o) m) ≡ some v
written k j v o m e (inl same) = written_self k j v o m e same
written k j v o m e (inr there) = elim (text_discrete k j) [
  | yes same ↦ written_self k j v o m e same
  | no ne ↦ write_found_kept k j v (get_field j o) m (inl ne) there
]

pub copy_fields_kept :
    (ks : List String) (k : String) (v : Value) (o m : Fields)
    → get_field k o ≡ some v
    → (among k ks ≡ true) ⊎ (get_field k m ≡ some v)
    → get_field k (copy_fields ks o m) ≡ some v
unfolding copy_fields copy_field
copy_fields_kept [] k v o m e (inl found) = absurd (ground (arith, found))
copy_fields_kept [] k v o m e (inr there) = there
copy_fields_kept (j ∷ ks) k v o m e (inr there) =
    copy_fields_kept ks k v o _ e (inr (written k j v o m e (inr there)))
copy_fields_kept (j ∷ ks) k v o m e (inl found) = elim (text_discrete k j) [
  | yes same ↦ copy_fields_kept ks k v o _ e (inr (written k j v o m e (inl same)))
  | no ne ↦ copy_fields_kept ks k v o _ e (inl (ground (arith, found, ne)))
]

pub typed_apart :
    (j : String) (b : Bool) (k : String) (v : Value) (o : Fields)
    → get_field k o ≡ some v
    → ((c : Bool) → ¬ (get_field j o ≡ some (bool c)))
    → (k ≢ j) ⊎ ((c : Bool) × (v ≡ bool c))
    → get_field k (set_field j (bool b) o) ≡ some v
typed_apart j b k v o e other (inl ne) = cc (set_field_kept k j (bool b) o ne, e)
typed_apart j b k v o e other (inr (c, at)) = elim (text_discrete k j) [
  | no ne ↦ cc (set_field_kept k j (bool b) o ne, e)
  | yes same ↦ absurd (other c (cc (e, at, same)))
]

pub ensure_bool_kept :
    (j : String) (b : Bool) (k : String) (v : Value) (o : Fields)
    → (k ≢ j) ⊎ ((c : Bool) × (v ≡ bool c))
    → get_field k o ≡ some v
    → get_field k (ensure_bool j b o) ≡ some v
unfolding ensure_bool
ensure_bool_kept j b k v o typed e =
    if_bool_either (λ p. get_field k p ≡ some v) (get_field j o) _ _ e
      (λ other. typed_apart j b k v o e other typed)

pub ensure_num_kept :
    (j : String) (n : ℕ) (k : String) (v : Value) (o : Fields)
    → k ≢ j
    → get_field k o ≡ some v
    → get_field k (ensure_num j n o) ≡ some v
unfolding ensure_num
ensure_num_kept j n k v o ne e =
    if_num_either (λ p. get_field k p ≡ some v) (get_field j o) _ _ e
      (cc (set_field_kept k j (num n) o ne, e))
