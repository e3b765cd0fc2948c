-- ===== src/Store/ModelParams.antt =====
-- apps/web/src/store/model-params-store.ts: the sampling parameters that the user has set, by model.
-- What the actions trace is left out: it is a diagnostic that the result does not depend on.
pub mod Laws
use musaed.Base.{ℕ, String, Bool, true, false, Option, none, some, List, [], ◌∷◌, ◌++◌}
use musaed.Base.{if◌then◌else◌, ◌==◌, ◌||◌, not, select, length, ite, text_discrete}
use musaed.Base.Dict.{Dict, get, set}
use musaed.Base.Int.{ℤ}
use musaed.Budget.Params
use musaed.Budget.Params.{
  ModelParamKey, ModelParams, ModelParamProfile, Decimal, default_model_params, includes, key_code,
  ModelCapabilities, resolve_model_params, ModelDefaultParams,
}

abbrev pub ModelParamsState : Type 0
ModelParamsState = Dict ModelParamProfile

-- A key with its value: the arguments `key` and `value` of `setParam`.
pub data Setting : Type 0 where
  temperature : Decimal → Setting
  top_k : ℕ → Setting
  top_p : Decimal → Setting
  num_ctx : ℕ → Setting
  num_predict : ℤ → Setting

abbrev pub key_of : Setting → ModelParamKey
key_of (temperature v) = ModelParamKey.temperature
key_of (top_k v) = ModelParamKey.top_k
key_of (top_p v) = ModelParamKey.top_p
key_of (num_ctx v) = ModelParamKey.num_ctx
key_of (num_predict v) = ModelParamKey.num_predict

-- `{ ...params, [key]: value }`
abbrev pub put : Setting → ModelParams → ModelParams
put (temperature v) p = record p { temperature = v }
put (top_k v) p = record p { top_k = v }
put (top_p v) p = record p { top_p = v }
put (num_ctx v) p = record p { num_ctx = v }
put (num_predict v) p = record p { num_predict = v }

-- `{ [key]: DEFAULT_MODEL_PARAMS[key] }`
abbrev pub default_setting : ModelParamKey → Setting
default_setting ModelParamKey.temperature = temperature default_model_params.temperature
default_setting ModelParamKey.top_k = top_k default_model_params.top_k
default_setting ModelParamKey.top_p = top_p default_model_params.top_p
default_setting ModelParamKey.num_ctx = num_ctx default_model_params.num_ctx
default_setting ModelParamKey.num_predict = num_predict default_model_params.num_predict

abbrev pub with_key : ModelParamKey → List ModelParamKey → List ModelParamKey
with_key key overrides = if includes key overrides then overrides else overrides ++ key ∷ []

-- The profile that `setParam` writes.
abbrev pub changed : String → Setting → Option ModelParamProfile → ModelParamProfile
changed model setting none = record {
  model_name = model;
  params = put setting default_model_params;
  overrides = key_of setting ∷ [];
}
changed model setting (some p) = record {
  model_name = model;
  params = put setting p.params;
  overrides = with_key (key_of setting) p.overrides;
}

unfoldable pub set_param : String → Setting → ModelParamsState → ModelParamsState
set_param model setting s = set model (changed model setting (get model s)) s

-- `overrides.filter((k) => k !== key)`
abbrev pub without_key : ModelParamKey → List ModelParamKey → List ModelParamKey
without_key key = select (λ k. not (key_code key == key_code k))

abbrev pub reset_profile : ModelParamKey → ModelParamProfile → ModelParamProfile
reset_profile key p = record p {
  params = put (default_setting key) p.params;
  overrides = without_key key p.overrides;
}

unfoldable pub reset_param : String → ModelParamKey → ModelParamsState → ModelParamsState
reset_param model key s = elim (get model s) [
  | none ↦ s
  | some p ↦ if includes key p.overrides then set model (reset_profile key p) s else s
]

unfoldable pub reset_all : String → ModelParamsState → ModelParamsState
reset_all model s = elim (get model s) [
  | none ↦ s
  | some p ↦ set model (record p { params = default_model_params; overrides = [] }) s
]

-- `keep.has(name)`
unfoldable pub listed : String → List String → Bool
listed name [] = false
listed name (m ∷ ms) = ite (text_discrete name m) true (listed name ms)

unfoldable pub kept : List String → ModelParamsState → ModelParamsState
unfolding listed
kept names [] = []
kept names ((name, p) ∷ s) = if listed name names then (name, p) ∷ kept names s else kept names s

-- The state is kept as it is where every profile is.
unfoldable pub prune : List String → ModelParamsState → ModelParamsState
unfolding kept
prune names s = if length (kept names s) == length s then s else kept names s

-- `selectResolvedParams`
unfoldable pub select_resolved_params :
    String → Option ℕ → Option ModelDefaultParams → ModelParamsState → ModelParams
select_resolved_params model context_length defaults s =
    (resolve_model_params (get model s)
      (some (record { context_window = context_length; modelfile_defaults = defaults }))).params
