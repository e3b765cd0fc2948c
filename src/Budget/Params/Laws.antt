-- ===== src/Budget/Params/Laws.antt =====
-- What `resolveModelParams` of token-budget.ts promises.
use musaed.Base.{ℕ, Bool, true, false, Option, none, some, List, [], ◌∷◌}
use musaed.Base.{
  Bool-cases, inl, inr, ap, sym, ◌≤◌, ◌<◌, ◌≡◌, refl, arith, ◌↔◌, if◌then◌else◌, is_empty,
}
use musaed.Message.{given_or}
use musaed.Budget.Params.{
  ModelParamKey, num_ctx, ModelParams, ModelParamProfile, ModelDefaultParams, ModelCapabilities,
  ResolvedModelParams, default_model_params, num_ctx_ceiling, includes, defaults_of, window_of,
  fit_num_ctx, fallback_params, overridden_params, resolve_model_params, plain,
}

-- Below the ceiling, and below the window where that is known.
abbrev pub Fits : Option ℕ → ℕ → Type 0
Fits none n = n ≤ num_ctx_ceiling
Fits (some window) n = (n ≤ num_ctx_ceiling) × (n ≤ window)

fit_num_ctx-Fits : (window : Option ℕ) (n : ℕ) → Fits window (fit_num_ctx window n)
fit_num_ctx-Fits none n = omega arith
fit_num_ctx-Fits (some w) n = omega arith

fit_num_ctx-le : (window : Option ℕ) (n : ℕ) → fit_num_ctx window n ≤ n
fit_num_ctx-le none n = omega arith
fit_num_ctx-le (some w) n = omega arith

-- The context length sent to Ollama never exceeds the ceiling of the contract, nor the model's real
-- window where that is known, whatever is stored and whatever the Modelfile says.
pub resolve_model_params-Fits :
    (profile : Option ModelParamProfile) (caps : Option ModelCapabilities)
    → Fits (window_of caps) (resolve_model_params profile caps).params.num_ctx
unfolding resolve_model_params
resolve_model_params-Fits none caps =
    fit_num_ctx-Fits (window_of caps)
      (given_or (defaults_of caps).num_ctx default_model_params.num_ctx)
resolve_model_params-Fits (some p) caps = go (is_empty p.overrides) refl
  where
    base : ℕ
    base = given_or (defaults_of caps).num_ctx default_model_params.num_ctx

    raw : Option ℕ
    raw = if includes num_ctx p.overrides then some p.params.num_ctx else none

    go :
        (b : Bool)
        → is_empty p.overrides ≡ b
        → Fits (window_of caps) (resolve_model_params (some p) caps).params.num_ctx
    go true e = rw e (fit_num_ctx-Fits (window_of caps) base)
    go false e = rw e (fit_num_ctx-Fits (window_of caps) (given_or raw base))

-- The overrides and the stored values of a profile; a model without one has none.
abbrev pub overrides_of : Option ModelParamProfile → List ModelParamKey
overrides_of none = []
overrides_of (some p) = p.overrides

abbrev pub stored_of : Option ModelParamProfile → ModelParams
stored_of none = default_model_params
stored_of (some p) = p.params

no_overrides :
    (stored : ModelParams) (d : ModelDefaultParams) (window : Option ℕ)
    → overridden_params [] stored d window ≡ plain d window
unfolding overridden_params includes fallback_params
no_overrides stored d window = refl

-- The early return is no special case: for every model each parameter is its override if there is
-- one, or else the Modelfile's directive, or else the default, with the context length fitted.
pub resolve_model_params-overridden :
    (profile : Option ModelParamProfile) (caps : Option ModelCapabilities)
    → resolve_model_params profile caps
      ≡ overridden_params
          (overrides_of profile)
          (stored_of profile)
          (defaults_of caps)
          (window_of caps)
unfolding resolve_model_params overridden_params includes fallback_params
resolve_model_params-overridden none caps = refl
resolve_model_params-overridden (some p) caps = go p.overrides refl
  where
    go :
        (ks : List ModelParamKey)
        → p.overrides ≡ ks
        → resolve_model_params (some p) caps
          ≡ overridden_params p.overrides p.params (defaults_of caps) (window_of caps)
    go [] e = ground arith
    go (k ∷ ks) e = ground arith

-- What the diagnostics of a resolution say of a raw override.
abbrev pub Reports : ResolvedModelParams → Option ℕ → ℕ → Type 0
Reports r window raw =
    ((r.num_ctx_clamped ≡ true) ↔ (r.params.num_ctx < raw))
    × (r.params.num_ctx ≡ fit_num_ctx window raw)

overridden_params-Reports :
    (ks : List ModelParamKey) (stored : ModelParams) (d : ModelDefaultParams) (window : Option ℕ)
    (raw : ℕ)
    → (overridden_params ks stored d window).raw_num_ctx_override ≡ some raw
    → Reports (overridden_params ks stored d window) window raw × (raw ≡ stored.num_ctx)
unfolding overridden_params
overridden_params-Reports ks stored d window raw h = elim (Bool-cases (includes num_ctx ks)) [
  | inr none_stored ↦ absurd (ground arith)
  | inl stored_one ↦
      let same : raw ≡ stored.num_ctx = ground arith in
      rw stored_one (
        (
          (
            λ e. ground (arith, fit_num_ctx-le window stored.num_ctx),
            λ lt. ground (arith, fit_num_ctx-le window stored.num_ctx),
          ),
          ap (fit_num_ctx window) (sym same),
        ),
        same,
      )
]

-- The raw override is reported as stored; the length sent is that value, fitted, and the flag tells
-- exactly when the fitting reduced it.
resolve_model_params-Reports :
    (profile : Option ModelParamProfile) (caps : Option ModelCapabilities) (raw : ℕ)
    → (resolve_model_params profile caps).raw_num_ctx_override ≡ some raw
    → Reports (resolve_model_params profile caps) (window_of caps) raw
      × (raw ≡ (stored_of profile).num_ctx)
resolve_model_params-Reports profile caps raw = rw (resolve_model_params-overridden profile caps) (
    overridden_params-Reports (overrides_of profile) (stored_of profile) (defaults_of caps)
      (window_of caps) raw)
