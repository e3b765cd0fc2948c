-- ===== src/Store/ModelParams/Laws.antt =====
-- What the actions of model-params-store.ts mean for the parameters that a model is run with.
use musaed.Base.{ℕ, String, true, false, Option, none, some, List, [], ◌∷◌, ◌++◌}
use musaed.Base.{if◌then◌else◌, ◌==◌, ◌||◌, length, ◌≡◌, refl, arith, sym, ap, subst, ◌∙◌, ◌≤◌}
use musaed.Base.Dict.{get, set, get-set_self}
use musaed.Budget.Params
use musaed.Budget.Params.{
  ModelParamKey, ModelParams, ModelParamProfile, Decimal, default_model_params, includes, key_code,
  ModelCapabilities, resolve_model_params, overridden_params, fallback_params, defaults_of,
  window_of, plain,
}
use musaed.Budget.Params.Laws.{resolve_model_params-overridden, overrides_of, stored_of}
use musaed.Store.ModelParams.{
  ModelParamsState, Setting, temperature, top_k, top_p, num_ctx, num_predict, key_of, put,
  default_setting, with_key, changed, set_param, without_key, reset_profile, reset_param, listed,
  kept, prune,
}

-- The resolution for a model of the store.
abbrev pub resolved : String → Option ModelCapabilities → ModelParamsState → ModelParams
resolved model caps s = (resolve_model_params (get model s) caps).params

-- A parameter of the resolution is the value of a setting; the context length is its value, fitted.
abbrev pub Carries : Setting → Option ℕ → ModelParams → Type 0
Carries (temperature v) w p = p.temperature ≡ v
Carries (top_k v) w p = p.top_k ≡ v
Carries (top_p v) w p = p.top_p ≡ v
Carries (num_ctx v) w p = p.num_ctx ≡ Params.fit_num_ctx w v
Carries (num_predict v) w p = p.num_predict ≡ v

includes-append :
    (key k : ModelParamKey) (ks : List ModelParamKey)
    → includes key (ks ++ k ∷ []) ≡ (includes key ks || key_code key == key_code k)
unfolding includes
includes-append key k [] = ground arith
includes-append key k (j ∷ ks) = ground (arith, includes-append key k ks)

includes-with_key :
    (key : ModelParamKey) (ks : List ModelParamKey) → includes key (with_key key ks) ≡ true
includes-with_key key ks = ground (arith, includes-append key key ks)

overridden-Carries :
    (s : Setting) (ks : List ModelParamKey) (p : ModelParams) (d : Params.ModelDefaultParams)
    (w : Option ℕ)
    → includes (key_of s) ks ≡ true
    → Carries s w (overridden_params ks (put s p) d w).params
unfolding overridden_params
overridden-Carries (temperature v) ks p d w h = rw h
overridden-Carries (top_k v) ks p d w h = rw h
overridden-Carries (top_p v) ks p d w h = rw h
overridden-Carries (num_ctx v) ks p d w h = rw h
overridden-Carries (num_predict v) ks p d w h = rw h

changed-Carries :
    (model : String) (s : Setting) (old : Option ModelParamProfile)
    (caps : Option ModelCapabilities)
    → Carries s (window_of caps) (resolve_model_params (some (changed model s old)) caps).params
changed-Carries model s none caps =
    rw (resolve_model_params-overridden (some (changed model s none)) caps) (
      overridden-Carries s (key_of s ∷ []) default_model_params (defaults_of caps) (window_of caps)
        (unfold includes in (ground arith)))
changed-Carries model s (some p) caps =
    rw (resolve_model_params-overridden (some (changed model s (some p))) caps) (
      overridden-Carries s (with_key (key_of s) p.overrides) p.params (defaults_of caps)
        (window_of caps) (includes-with_key (key_of s) p.overrides))

-- What the user sets is what the model is run with, whatever was stored before and whatever the
-- Modelfile says; only the context length is fitted to the window.
set_param-Carries :
    (model : String) (s : Setting) (caps : Option ModelCapabilities) (state : ModelParamsState)
    → Carries s (window_of caps) (resolved model caps (set_param model s state))
unfolding set_param
set_param-Carries model s caps state =
    subst (λ o. Carries s (window_of caps) (resolve_model_params o caps).params)
      (sym (get-set_self model (changed model s (get model state)) state))
      (changed-Carries model s (get model state) caps)

without_key-append :
    (key : ModelParamKey) (ks : List ModelParamKey)
    → includes key ks ≡ false
    → without_key key (ks ++ key ∷ []) ≡ ks
unfolding includes
without_key-append key [] h = ground arith
without_key-append key (k ∷ ks) h = ground (arith, without_key-append key ks)

-- A stored value that is no override is not read.
put_unread :
    (s t : Setting) (ks : List ModelParamKey) (p : ModelParams) (d : Params.ModelDefaultParams)
    (w : Option ℕ)
    → key_of t ≡ key_of s
    → includes (key_of s) ks ≡ false
    → overridden_params ks (put t (put s p)) d w ≡ overridden_params ks p d w
unfolding overridden_params
put_unread (temperature v) (temperature u) ks p d w e h = ground arith
put_unread (top_k v) (top_k u) ks p d w e h = ground arith
put_unread (top_p v) (top_p u) ks p d w e h = ground arith
put_unread (num_ctx v) (num_ctx u) ks p d w e h = ground arith
put_unread (num_predict v) (num_predict u) ks p d w e h = ground arith
put_unread _ _ ks p d w e h = cc

key_of-default_setting : (key : ModelParamKey) → key_of (default_setting key) ≡ key
key_of-default_setting ModelParamKey.temperature = refl
key_of-default_setting ModelParamKey.top_k = refl
key_of-default_setting ModelParamKey.top_p = refl
key_of-default_setting ModelParamKey.num_ctx = refl
key_of-default_setting ModelParamKey.num_predict = refl

-- The profile after a setting and its reset resolves as the one before.
reset-changed :
    (model : String) (s : Setting) (old : Option ModelParamProfile)
    (caps : Option ModelCapabilities)
    → includes (key_of s) (overrides_of old) ≡ false
    → resolve_model_params (some (reset_profile (key_of s) (changed model s old))) caps
      ≡ resolve_model_params old caps
reset-changed model s old caps h =
    resolve_model_params-overridden (some (reset_profile (key_of s) (changed model s old))) caps
    ∙ go old h
    ∙ sym (resolve_model_params-overridden old caps)
  where
    d : Params.ModelDefaultParams
    d = defaults_of caps

    go :
        (o : Option ModelParamProfile)
        → includes (key_of s) (overrides_of o) ≡ false
        → overridden_params
            (without_key (key_of s) (changed model s o).overrides)
            (put (default_setting (key_of s)) (changed model s o).params)
            d
            (window_of caps)
          ≡ overridden_params (overrides_of o) (stored_of o) d (window_of caps)
    go none h = rw (without_key-append (key_of s) [] h) (
        put_unread s (default_setting (key_of s)) [] default_model_params d (window_of caps)
          (key_of-default_setting (key_of s)) h)
    go (some p) h =
        rw (h, without_key-append (key_of s) p.overrides h)
          (put_unread s (default_setting (key_of s)) p.overrides p.params d (window_of caps)
            (key_of-default_setting (key_of s)) h)

get-reset_param :
    (model : String) (key : ModelParamKey) (s : ModelParamsState) (p : ModelParamProfile)
    → get model s ≡ some p
    → includes key p.overrides ≡ true
    → get model (reset_param model key s) ≡ some (reset_profile key p)
unfolding reset_param
get-reset_param model key s p e h = ground (arith, get-set_self model (reset_profile key p) s)

changed-includes :
    (model : String) (s : Setting) (old : Option ModelParamProfile)
    → includes (key_of s) (changed model s old).overrides ≡ true
unfolding includes
changed-includes model s none = ground arith
changed-includes model s (some p) = includes-with_key (key_of s) p.overrides

-- Resetting a parameter that was just set for the first time undoes the setting: the model is run
-- with the parameters that it had before, whatever its capabilities.
reset_param-set_param :
    (model : String) (s : Setting) (caps : Option ModelCapabilities) (state : ModelParamsState)
    → includes (key_of s) (overrides_of (get model state)) ≡ false
    → resolved model caps (reset_param model (key_of s) (set_param model s state))
      ≡ resolved model caps state
unfolding set_param
reset_param-set_param model s caps state h =
    let new = changed model s (get model state) in
    ap (λ o. (resolve_model_params o caps).params)
      (get-reset_param model (key_of s) (set model new state) new (get-set_self model new state)
        (changed-includes model s (get model state)))
    ∙ ap (λ r. r.params) (reset-changed model s (get model state) caps h)

length-kept : (names : List String) (s : ModelParamsState) → length (kept names s) ≤ length s
unfolding kept
length-kept names [] = omega arith
length-kept names ((name, p) ∷ s) = ground (arith, length-kept names s)

kept_all :
    (names : List String) (s : ModelParamsState)
    → length (kept names s) ≡ length s
    → kept names s ≡ s
unfolding kept
kept_all names [] h = refl
kept_all names ((name, p) ∷ s) h = ground (arith, length-kept names s, kept_all names s)

prune_kept : (names : List String) (s : ModelParamsState) → prune names s ≡ kept names s
unfolding prune
prune_kept names s = ground (arith, kept_all names s)

get-kept :
    (names : List String) (model : String) (s : ModelParamsState)
    → get model (kept names s) ≡ (if listed model names then get model s else none)
unfolding kept get
get-kept names model [] = ground arith
get-kept names model ((name, p) ∷ s) = ground (arith, get-kept names model s)

-- Pruning keeps exactly the profiles of the listed models, whichever way it returns.
pub get-prune :
    (names : List String) (model : String) (s : ModelParamsState)
    → get model (prune names s) ≡ (if listed model names then get model s else none)
get-prune names model s = ap (get model) (prune_kept names s) ∙ get-kept names model s
