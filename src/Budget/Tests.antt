-- ===== src/Budget/Tests.antt =====
-- The laws of token-budget.ts on a short conversation and on a model with a small window.
use musaed.Base.{String, Text, none, some, List, [], ◌∷◌}
use musaed.Message.{Message, Role, user, assistant, no_metrics}
use musaed.Budget.History.{build_history_slice}
use musaed.Budget.History.Laws.{IsSlice, build_history_slice-IsSlice, eligible}
use musaed.Budget.Params.{
  ModelParamKey, ModelParamProfile, ModelCapabilities, default_model_params, resolve_model_params,
}
use musaed.Budget.Params.Laws.{Fits, resolve_model_params-Fits}

abbrev said : Role → String → Text → Message
said role request content = record {
  id = request;
  role = role;
  content = content;
  images = none;
  timestamp = 0;
  model = none;
  done = none;
  request_id = some request;
  metrics = no_metrics;
  rag_sources = none;
  error = none;
  stopped = none;
}

abbrev talk : List Message
talk =
    said user "r1" (72 ∷ 105 ∷ [])
    ∷ said assistant "r1" (72 ∷ 101 ∷ 108 ∷ 108 ∷ 111 ∷ [])
    ∷ said user "r2" (63 ∷ [])
    ∷ []

-- A model of 2048 tokens, for which the user has asked for 8192.
abbrev wide : ModelParamProfile
wide = record {
  model_name = "small";
  params = record default_model_params { num_ctx = 8192 };
  overrides = ModelParamKey.num_ctx ∷ [];
}

abbrev small : ModelCapabilities
small = record { context_window = some 2048; modelfile_defaults = none }

build_history_slice-IsSlice_example :
    IsSlice 2 (eligible "r2" talk) (build_history_slice talk "r2" 2)
build_history_slice-IsSlice_example = build_history_slice-IsSlice talk "r2" 2

resolve_model_params-Fits_example :
    Fits (some 2048) (resolve_model_params (some wide) (some small)).params.num_ctx
resolve_model_params-Fits_example = resolve_model_params-Fits (some wide) (some small)
