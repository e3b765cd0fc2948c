-- ===== src/Budget/Params.antt =====
-- apps/web/src/lib/token-budget.ts: `resolveModelParams`. The temperature and topP are only handed
-- on, so a decimal is its digits and the number of decimal places.
pub mod Laws
use musaed.Base.{ℕ, String, Bool, true, false, Option, none, some, List, [], ◌∷◌}
use musaed.Base.{◌≤◌, ◌<◌, min, ◌==◌, if◌then◌else◌, ◌&&◌, not, is_empty, ◌≡◌, refl, arith, ◌↔◌}
use musaed.Base.{◌≢◌, ◌||◌}
use musaed.Base.Int.{ℤ, pos}
use musaed.Message.{given_or}

pub data ModelParamKey : Type 0 where
  temperature top_k top_p num_ctx num_predict : ModelParamKey

pub record Decimal : Type 0 where
  pub digits : ℕ
  pub places : ℕ

pub record ModelParams : Type 0 where
  pub temperature : Decimal
  pub top_k : ℕ
  pub top_p : Decimal
  pub num_ctx : ℕ
  pub num_predict : ℤ

pub record ModelParamProfile : Type 0 where
  pub model_name : String
  pub params : ModelParams
  pub overrides : List ModelParamKey

-- The directives of the Modelfile, each present or not.
pub record ModelDefaultParams : Type 0 where
  pub temperature : Option Decimal
  pub top_k : Option ℕ
  pub top_p : Option Decimal
  pub num_ctx : Option ℕ
  pub num_predict : Option ℤ

pub record ModelCapabilities : Type 0 where
  pub context_window : Option ℕ
  pub modelfile_defaults : Option ModelDefaultParams

pub record ResolvedModelParams : Type 0 where
  pub params : ModelParams
  pub raw_num_ctx_override : Option ℕ
  pub num_ctx_clamped : Bool

abbrev pub default_model_params : ModelParams
default_model_params = record {
  temperature = record { digits = 7; places = 1 };
  top_k = 40;
  top_p = record { digits = 9; places = 1 };
  num_ctx = 4096;
  num_predict = pos 2048;
}

-- `NUM_CTX_RANGE[1]`
abbrev pub num_ctx_ceiling : ℕ
num_ctx_ceiling = 2_097_152

abbrev pub key_code : ModelParamKey → ℕ
key_code temperature = 0
key_code top_k = 1
key_code top_p = 2
key_code num_ctx = 3
key_code num_predict = 4

-- `overrides.includes(key)`
unfoldable pub includes : ModelParamKey → List ModelParamKey → Bool
includes key [] = false
includes key (k ∷ ks) = key_code key == key_code k || includes key ks

abbrev pub no_defaults : ModelDefaultParams
no_defaults = record {
  temperature = none;
  top_k = none;
  top_p = none;
  num_ctx = none;
  num_predict = none;
}

-- `caps?.modelfileDefaults ?? null` and `caps?.contextWindow ?? null`
abbrev pub defaults_of : Option ModelCapabilities → ModelDefaultParams
defaults_of none = no_defaults
defaults_of (some caps) = given_or caps.modelfile_defaults no_defaults

abbrev pub window_of : Option ModelCapabilities → Option ℕ
window_of none = none
window_of (some caps) = caps.context_window

-- `fitNumCtx`
abbrev pub fit_num_ctx : Option ℕ → ℕ → ℕ
fit_num_ctx none candidate = min candidate num_ctx_ceiling
fit_num_ctx (some window) candidate = min (min candidate window) num_ctx_ceiling

-- What holds with no override: the Modelfile's directive, or else the default.
unfoldable pub fallback_params : ModelDefaultParams → Option ℕ → ModelParams
fallback_params d window = record {
  temperature = given_or d.temperature default_model_params.temperature;
  top_k = given_or d.top_k default_model_params.top_k;
  top_p = given_or d.top_p default_model_params.top_p;
  num_ctx = fit_num_ctx window (given_or d.num_ctx default_model_params.num_ctx);
  num_predict = given_or d.num_predict default_model_params.num_predict;
}

-- `raw !== null && params.numCtx !== raw`
abbrev pub is_clamped : Option ℕ → ℕ → Bool
is_clamped none fitted = false
is_clamped (some raw) fitted = not (fitted == raw)

-- The overridden branch of `resolveModelParams`.
unfoldable pub overridden_params :
    List ModelParamKey → ModelParams → ModelDefaultParams → Option ℕ → ResolvedModelParams
unfolding fallback_params
overridden_params overrides stored d window =
    let base = fallback_params d window in
    let raw = if includes num_ctx overrides then some stored.num_ctx else none in
    let fitted =
      fit_num_ctx window (given_or raw (given_or d.num_ctx default_model_params.num_ctx)) in
    record {
      params = record {
        temperature =
            if includes temperature overrides then stored.temperature else base.temperature;
        top_k = if includes top_k overrides then stored.top_k else base.top_k;
        top_p = if includes top_p overrides then stored.top_p else base.top_p;
        num_ctx = fitted;
        num_predict =
            if includes num_predict overrides then stored.num_predict else base.num_predict;
      };
      raw_num_ctx_override = raw;
      num_ctx_clamped = is_clamped raw fitted;
    }

abbrev pub plain : ModelDefaultParams → Option ℕ → ResolvedModelParams
plain d window = record {
  params = fallback_params d window;
  raw_num_ctx_override = none;
  num_ctx_clamped = false;
}

unfoldable pub resolve_model_params :
    Option ModelParamProfile → Option ModelCapabilities → ResolvedModelParams
unfolding fallback_params overridden_params
resolve_model_params none caps = plain (defaults_of caps) (window_of caps)
resolve_model_params (some profile) caps =
    if is_empty profile.overrides
    then plain (defaults_of caps) (window_of caps)
    else overridden_params profile.overrides profile.params (defaults_of caps) (window_of caps)
