-- ===== src/Library/Capabilities/Tests.antt =====
-- The laws of model-capabilities-cache.ts on one model.
use musaed.Base.{true, none, some, List, [], ◌∷◌, ◌≡◌, refl, text_discrete, texts_apart, String}
use musaed.Base.Dict.{get}
use musaed.Library.Capabilities.{
  empty, ModelValidation, resolved, rejected, caps_of, Event, fetch, answer, clear, handle, run,
  settle, get_cached_model_capabilities,
}
use musaed.Library.Capabilities.Memo.{IsMemo, entry, replay, run_refines, fetch_answered}

abbrev valid : ModelValidation
valid = record { is_valid = true; context_length = some 4096; default_params = none }

-- A failure, a second try, and a question that is open while the list of the models is refreshed.
abbrev session : List Event
session =
    fetch "m"
    ∷ fetch "m"
    ∷ answer "m" rejected
    ∷ fetch "m"
    ∷ clear
    ∷ answer "m" (resolved (some valid))
    ∷ []

run_refines_example :
    IsMemo (run session empty)
    × ((k : String) → entry k (run session empty) ≡ replay k session (entry k empty))
unfolding get text_discrete
run_refines_example = run_refines session empty (λ k _. refl)

fetch_answered_example :
    get_cached_model_capabilities "m" (
      settle "m"
        (resolved (some valid))
        (run (clear ∷ answer "n" rejected ∷ []) (handle (fetch "m") empty)))
    ≡ some (caps_of (some valid))
unfolding get text_discrete
fetch_answered_example =
    fetch_answered "m" (clear ∷ answer "n" rejected ∷ []) (some valid) empty (λ k _. refl) refl
      (tt, (texts_apart "n" "m" refl, tt))
