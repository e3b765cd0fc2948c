-- ===== src/Migration/Settings.antt =====
-- `SETTINGS_MIGRATIONS` of apps/web/src/store/settings-store.ts, and `DEFAULT_SETTINGS` of
-- packages/contracts/src/constants.ts. The fractions 0.7, 0.9 and 1.0 are told apart by codes.
pub mod Steps
pub mod Kept
pub mod Wrapped
use musaed.Base.{ℕ, zero, suc, String, Bool, true, false, Option, none, some, List, [], ◌∷◌}
use musaed.Migration.Value.{
  Value, null, bool, num, str, arr, obj, Items, no_items, item, Fields, end, field, get_field,
  set_field, spread, fields_of,
}
use musaed.Migration.Orchestrator.{MigrationFn, Config}

abbrev pub default_settings : Fields
default_settings = field "temperature" (num 70) (
    field "topK" (num 40) (
      field "topP" (num 90) (
        field "numPredict" (num 2048) (
          field "numCtx" (num 4096) (
            field "stop" (arr no_items) (
              field "systemPrompt" (str "") (
                field "ollamaUrl" (str "http://localhost:11434") (
                  field "language" (str "en") (
                    field "theme" (str "system") (
                      field "hasDetectedLanguage" (bool false) (
                        field "enterToSend" (bool true) (
                          field "chatRetentionDays" (num 0) (
                            field "enableLatex" (bool false) (
                              field "enableMermaid" (bool true) (
                                field "density" (num 100) (
                                  field "sidebarWidth" (num 260) (
                                    field "sidebarCollapsed" (bool false) (
                                      field "closeToTray" (bool true) (
                                        field "showTokenIndicator" (bool true)
                                          end)))))))))))))))))))

-- `if (from in persisted) migrated[to] = persisted[from]`
abbrev pub write_found : String → Option Value → Fields → Fields
write_found k none o = o
write_found k (some v) o = set_field k v o

unfoldable pub copy_field : String → String → Fields → Fields → Fields
copy_field from to persisted migrated = write_found to (get_field from persisted) migrated

-- The loop over `otherKeys`.
unfoldable pub copy_fields : List String → Fields → Fields → Fields
unfolding copy_field
copy_fields [] persisted migrated = migrated
copy_fields (k ∷ ks) persisted migrated =
    copy_fields ks persisted (copy_field k k persisted migrated)

abbrev pub other_keys : List String
other_keys =
    "temperature" ∷ "stop" ∷ "systemPrompt" ∷ "ollamaUrl" ∷ "language" ∷ "theme"
    ∷ "hasDetectedLanguage" ∷ "enterToSend" ∷ "chatRetentionDays" ∷ "enableLatex" ∷ "enableMermaid"
    ∷ "density" ∷ "closeToTray" ∷ "showTokenIndicator" ∷ []

-- `if (typeof o[k] !== 'boolean') o[k] = b`, and the same for numbers.
abbrev pub if_bool : Option Value → Fields → Fields → Fields
if_bool (some (bool b)) o p = o
if_bool _ o p = p

abbrev pub if_num : Option Value → Fields → Fields → Fields
if_num (some (num n)) o p = o
if_num _ o p = p

unfoldable pub ensure_bool : String → Bool → Fields → Fields
ensure_bool k b o = if_bool (get_field k o) o (set_field k (bool b) o)

unfoldable pub ensure_num : String → ℕ → Fields → Fields
ensure_num k n o = if_num (get_field k o) o (set_field k (num n) o)

-- The five migrations, on the fields of the data.
unfoldable pub settings_to_1 : Fields → Fields
settings_to_1 persisted = spread default_settings persisted

unfoldable pub settings_to_2 : Fields → Fields
unfolding copy_field copy_fields
settings_to_2 persisted = spread default_settings (
    copy_fields other_keys persisted (
      copy_field "num_ctx" "numCtx" persisted (
        copy_field "num_predict" "numPredict" persisted
          (copy_field "top_p" "topP" persisted (copy_field "top_k" "topK" persisted end)))))

unfoldable pub settings_to_3 : Fields → Fields
unfolding ensure_bool ensure_num
settings_to_3 persisted = ensure_num "sidebarWidth" 260 (
    ensure_bool "closeToTray" true
      (ensure_bool "showTokenIndicator" true (spread default_settings persisted)))

unfoldable pub settings_to_4 : Fields → Fields
unfolding ensure_bool
settings_to_4 persisted = ensure_bool "sidebarCollapsed" false (spread default_settings persisted)

unfoldable pub settings_to_5 : Fields → Fields
settings_to_5 persisted = set_field "numCtx" (num 4096) (
    set_field "numPredict" (num 2048) (
      set_field "topP" (num 90) (
        set_field "topK" (num 40)
          (set_field "temperature" (num 70) (spread default_settings persisted)))))

abbrev on_fields : (Fields → Fields) → MigrationFn
on_fields f v = some (obj (f (fields_of v)))

-- The registry, and the run of it: `validate` of tauri-storage.ts passes everything.
unfoldable pub settings_migrations : ℕ → Option MigrationFn
unfolding settings_to_1 settings_to_2 settings_to_3 settings_to_4 settings_to_5
settings_migrations (suc zero) = some (on_fields settings_to_1)
settings_migrations (suc (suc zero)) = some (on_fields settings_to_2)
settings_migrations (suc (suc (suc zero))) = some (on_fields settings_to_3)
settings_migrations (suc (suc (suc (suc zero)))) = some (on_fields settings_to_4)
settings_migrations (suc (suc (suc (suc (suc zero))))) = some (on_fields settings_to_5)
settings_migrations _ = none

abbrev pub settings_config : Config
unfolding settings_migrations
settings_config = record {
  current_version = 5;
  migrations = settings_migrations;
  validate = λ v. some v;
}
