-- ===== src/Migration/Settings/Kept.antt =====
-- The settings that a migration of store/settings-store.ts from the first version to the last keeps.
use musaed.Base.{All, text_discrete, String, Bool, true, false, none, some, List, [], ◌∷◌}
use musaed.Base.{◌≡◌, ◌≢◌, refl, sym, subst, ◌⊎◌, inl, inr, arith}
use musaed.Migration.Value.{Value, bool, obj, Fields, end, get_field, set_field, IsObject}
use musaed.Migration.Orchestrator.{
  run_migrations, migrated, version_of, data_of, validated, apply_migrations,
}
use musaed.Migration.Settings.{
  settings_config, settings_migrations, default_settings, copy_field, other_keys, settings_to_1,
  settings_to_2, settings_to_3, settings_to_4, settings_to_5,
}
use musaed.Migration.Settings.Steps.{
  spread-IsObject, default-IsObject, write_found-IsObject, copy_fields-IsObject,
  ensure_bool-IsObject, ensure_num-IsObject, spread_kept, set_field_kept, copy_fields_kept,
  ensure_bool_kept, ensure_num_kept, among,
}

-- From the first version to the last.
abbrev pub migrate_settings : Fields → Fields
migrate_settings o = settings_to_5 (settings_to_4 (settings_to_3 (settings_to_2 (settings_to_1 o))))

abbrev pub flag_keys : List String
flag_keys = "showTokenIndicator" ∷ "closeToTray" ∷ []

abbrev pub reset_keys : List String
reset_keys =
    "temperature" ∷ "topK" ∷ "topP" ∷ "numPredict" ∷ "numCtx" ∷ "sidebarWidth" ∷ "sidebarCollapsed"
    ∷ []

-- The settings of the user that survive, the flags of the tray and of the tokens as Booleans.
abbrev pub kept_keys : List String
kept_keys =
    "systemPrompt" ∷ "stop" ∷ "ollamaUrl" ∷ "language" ∷ "theme" ∷ "density" ∷ "enterToSend"
    ∷ "hasDetectedLanguage" ∷ "chatRetentionDays" ∷ "enableLatex" ∷ "enableMermaid" ∷ "closeToTray"
    ∷ "showTokenIndicator" ∷ []

kept_carried : (k : String) → among k kept_keys ≡ true → among k other_keys ≡ true
kept_carried k h = ground (arith, h)

-- What holds of all keys of a list holds of one among them.
among-All :
    (P : String → Type 0) (k : String) (ks : List String) → All P ks → among k ks ≡ true → P k
among-All P k [] h e = cc
among-All P k (j ∷ ks) (h, hs) e = elim (text_discrete k j) [
  | yes same ↦ subst P (sym same) h
  | no ne ↦ among-All P k ks hs (ground (arith, e, ne))
]

kept_fixed : (k : String) → among k kept_keys ≡ true → among k reset_keys ≡ false
unfolding text_discrete
kept_fixed k h =
    among-All (λ j. among j reset_keys ≡ false) k kept_keys
      (
        refl,
        (
          refl,
          (
            refl,
            (refl, (refl, (refl, (refl, (refl, (refl, (refl, (refl, (refl, (refl, tt)))))))))),
          ),
        ),
      )
      h

not_among : (k j : String) (ks : List String) → among k ks ≡ false → among j ks ≡ true → k ≢ j
not_among k j ks out there same =
    ground (arith, out, subst (λ i. among i ks ≡ true) (sym same) there)

settings_to_1_kept :
    (k : String) (v : Value) (o : Fields)
    → IsObject o
    → get_field k o ≡ some v
    → get_field k (settings_to_1 o) ≡ some v
unfolding settings_to_1
settings_to_1_kept k v o h e = spread_kept k v default_settings o h e

settings_to_1-IsObject : (o : Fields) → IsObject (settings_to_1 o)
unfolding settings_to_1
settings_to_1-IsObject o = spread-IsObject default_settings o default-IsObject

settings_to_2_kept :
    (k : String) (v : Value) (o : Fields)
    → among k other_keys ≡ true
    → get_field k o ≡ some v
    → get_field k (settings_to_2 o) ≡ some v
unfolding settings_to_2 copy_field
settings_to_2_kept k v o carried e =
    spread_kept k v default_settings _
      (copy_fields-IsObject other_keys o _ (
        write_found-IsObject "numCtx" (get_field "num_ctx" o) _ (
          write_found-IsObject "numPredict" (get_field "num_predict" o) _ (
            write_found-IsObject "topP" (get_field "top_p" o) _
              (write_found-IsObject "topK" (get_field "top_k" o) end _)))))
      (copy_fields_kept other_keys k v o _ e (inl carried))

settings_to_2-IsObject : (o : Fields) → IsObject (settings_to_2 o)
unfolding settings_to_2
settings_to_2-IsObject o = spread-IsObject default_settings _ default-IsObject

apart_or_flag :
    (k j : String) (v : Value)
    → (among k flag_keys ≡ false) ⊎ ((c : Bool) × (v ≡ bool c))
    → among j flag_keys ≡ true
    → (k ≢ j) ⊎ ((c : Bool) × (v ≡ bool c))
apart_or_flag k j v (inl out) there = inl (not_among k j flag_keys out there)
apart_or_flag k j v (inr flag) there = inr flag

settings_to_3_kept :
    (k : String) (v : Value) (o : Fields)
    → IsObject o
    → among k reset_keys ≡ false
    → (among k flag_keys ≡ false) ⊎ ((c : Bool) × (v ≡ bool c))
    → get_field k o ≡ some v
    → get_field k (settings_to_3 o) ≡ some v
unfolding settings_to_3 text_discrete
settings_to_3_kept k v o h fixed typed e =
    ensure_num_kept "sidebarWidth" 260 k v _ (not_among k "sidebarWidth" reset_keys fixed refl) (
      ensure_bool_kept "closeToTray" true k v _ (apart_or_flag k "closeToTray" v typed refl) (
        ensure_bool_kept "showTokenIndicator" true k v _
          (apart_or_flag k "showTokenIndicator" v typed refl)
          (spread_kept k v default_settings o h e)))

settings_to_3-IsObject : (o : Fields) → IsObject (settings_to_3 o)
unfolding settings_to_3
settings_to_3-IsObject o = ensure_num-IsObject "sidebarWidth" 260 _ (
    ensure_bool-IsObject "closeToTray" true _ (
      ensure_bool-IsObject "showTokenIndicator" true _
        (spread-IsObject default_settings o default-IsObject)))

settings_to_4_kept :
    (k : String) (v : Value) (o : Fields)
    → IsObject o
    → among k reset_keys ≡ false
    → get_field k o ≡ some v
    → get_field k (settings_to_4 o) ≡ some v
unfolding settings_to_4 text_discrete
settings_to_4_kept k v o h fixed e =
    ensure_bool_kept "sidebarCollapsed" false k v _
      (inl (not_among k "sidebarCollapsed" reset_keys fixed refl))
      (spread_kept k v default_settings o h e)

settings_to_4-IsObject : (o : Fields) → IsObject (settings_to_4 o)
unfolding settings_to_4
settings_to_4-IsObject o =
    ensure_bool-IsObject "sidebarCollapsed" false _
      (spread-IsObject default_settings o default-IsObject)

-- A field that is set after the others.
set_apart :
    (k j : String) (v w : Value) (o : Fields)
    → among k reset_keys ≡ false
    → among j reset_keys ≡ true
    → get_field k o ≡ some v
    → get_field k (set_field j w o) ≡ some v
set_apart k j v w o fixed there e =
    cc (set_field_kept k j w o (not_among k j reset_keys fixed there), e)

settings_to_5_kept :
    (k : String) (v : Value) (o : Fields)
    → IsObject o
    → among k reset_keys ≡ false
    → get_field k o ≡ some v
    → get_field k (settings_to_5 o) ≡ some v
unfolding settings_to_5 text_discrete
settings_to_5_kept k v o h fixed e = set_apart k "numCtx" v _ _ fixed refl (
    set_apart k "numPredict" v _ _ fixed refl (
      set_apart k "topP" v _ _ fixed refl (
        set_apart k "topK" v _ _ fixed refl
          (set_apart k "temperature" v _ _ fixed refl (spread_kept k v default_settings o h e)))))

from_the_start :
    (o : Fields)
    → get_field "version" o ≡ none
    → run_migrations (obj o) settings_config ≡ migrated (obj (migrate_settings o)) 0 5
unfolding run_migrations version_of data_of validated apply_migrations settings_migrations
from_the_start o e = rw e refl

-- The prompt, the stop words, the address, the language and whether it was detected, the theme, the
-- density, what Enter does, the retention, and the flags of LaTeX, Mermaid, the tray and the tokens
-- survive the migration of unversioned settings to version 5, the last two when they are Booleans.
pub settings_kept :
    (k : String) (v : Value) (o : Fields)
    → IsObject o
    → get_field "version" o ≡ none
    → among k kept_keys ≡ true
    → (among k flag_keys ≡ false) ⊎ ((c : Bool) × (v ≡ bool c))
    → get_field k o ≡ some v
    → (r : Fields) × (run_migrations (obj o) settings_config ≡ migrated (obj r) 0 5)
      × (get_field k r ≡ some v)
settings_kept k v o h unversioned kept typed e = (
  migrate_settings o,
  from_the_start o unversioned,
  settings_to_5_kept k v _ (settings_to_4-IsObject _) (kept_fixed k kept) (
      settings_to_4_kept k v _ (settings_to_3-IsObject _) (kept_fixed k kept) (
        settings_to_3_kept k v _ (settings_to_2-IsObject _) (kept_fixed k kept) typed
          (settings_to_2_kept k v _ (kept_carried k kept) (settings_to_1_kept k v o h e)))),
)
