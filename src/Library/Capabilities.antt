-- ===== src/Library/Capabilities.antt =====
-- apps/web/src/features/library/hooks/model-capabilities-cache.ts: what is known of a model, asked once.
-- A key is the text that `keyOf` makes of a server and a model. A request is answered by an event of
-- its own; the handlers of one promise run with no other event between them.
pub mod Memo
mod Tests
use musaed.Base.{
  ℕ, String, Bool, true, false, Option, none, some, List, [], ◌∷◌, ◌+◌, ◌++◌, if◌then◌else◌,
}
use musaed.Base.Dict.{Dict, get, set, delete, has}
use musaed.Budget.Params.{ModelCapabilities, ModelDefaultParams}

pub record Cache : Type 0 where
  pub cache : Dict ModelCapabilities
  -- the request that is under way, by its number
  pub inflight : Dict ℕ
  -- the keys of the calls that reached the backend, the latest first
  pub calls : List String
  -- how often the listeners were told
  pub emitted : ℕ

-- The answer of `cmd_ollama_validate_model`.
pub record ModelValidation : Type 0 where
  pub is_valid : Bool
  pub context_length : Option ℕ
  pub default_params : Option ModelDefaultParams

pub data Fetched : Type 0 where
  -- a promise that is settled already
  cached : ModelCapabilities → Fetched
  -- the promise of a request, which may have been started by another caller
  pending : ℕ → Fetched

pub data Outcome : Type 0 where
  resolved : Option ModelValidation → Outcome
  rejected : Outcome

abbrev pub empty : Cache
empty = record { cache = []; inflight = []; calls = []; emitted = 0 }

unfoldable pub emit : Cache → Cache
emit s = record s { emitted = s.emitted + 1 }

unfoldable pub get_cached_model_capabilities : String → Cache → Option ModelCapabilities
get_cached_model_capabilities key s = get key s.cache

abbrev pub unknown : ModelCapabilities
unknown = record { context_window = none; modelfile_defaults = none }

abbrev pub caps_of : Option ModelValidation → ModelCapabilities
caps_of none = unknown
caps_of (some v) =
    if v.is_valid
    then record { context_window = v.context_length; modelfile_defaults = v.default_params }
    else unknown

abbrev pub calls_made : List String → ℕ
calls_made [] = 0
calls_made (k ∷ ks) = calls_made ks + 1

-- `fetchModelCapabilities`
unfoldable pub fetch_model_capabilities : String → Cache → Cache × Fetched
fetch_model_capabilities key s = elim (get key s.cache) [
  | some caps ↦ (s, cached caps)
  | none ↦ elim (get key s.inflight) [
    | some request ↦ (s, pending request)
    | none ↦
        let request = calls_made s.calls in
        (record s { inflight = set key request s.inflight; calls = key ∷ s.calls }, pending request)
  ]
]

-- The handler that follows a rejection.
unfoldable pub drop_rejected : String → Cache → Cache
unfolding emit
drop_rejected key s = elim (get key s.cache) [
  | none ↦ s
  | some _ ↦ emit (record s { cache = delete key s.cache })
]

-- The `finally` handler.
unfoldable pub finish : String → Cache → Cache
finish key s = emit (record s { inflight = delete key s.inflight })

-- The answer to the request of a key; there is none without a request.
unfoldable pub settle : String → Outcome → Cache → Cache
settle key o s = elim (get key s.inflight) [
  | none ↦ s
  | some _ ↦ elim o [
    | resolved result ↦ finish key (record s { cache = set key (caps_of result) s.cache })
    | rejected ↦ drop_rejected key (finish key s)
  ]
]

unfoldable pub clear_model_capabilities_cache : Cache → Cache
clear_model_capabilities_cache s = emit (record s { cache = [] })

pub data Event : Type 0 where
  fetch : String → Event
  answer : String → Outcome → Event
  clear : Event

unfoldable pub handle : Event → Cache → Cache
handle (fetch key) s = (fetch_model_capabilities key s).0
handle (answer key o) s = settle key o s
handle clear s = clear_model_capabilities_cache s

unfoldable pub run : List Event → Cache → Cache
run [] s = s
run (e ∷ es) s = run es (handle e s)
