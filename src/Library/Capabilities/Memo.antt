-- ===== src/Library/Capabilities/Memo.antt =====
-- The cache of model-capabilities-cache.ts is a memo: for each key it is a small state machine.
use musaed.Base.{
  ℕ, String, Option, none, some, List, [], ◌∷◌, ◌+◌, ◌≡◌, ◌≢◌, refl, ite, ap, ◌∙◌, arith,
  text_discrete, All,
}
use musaed.Base.Dict.{get, get-set, get-delete}
use musaed.Budget.Params.{ModelCapabilities}
use musaed.Library.Capabilities.{
  Cache, ModelValidation, Outcome, resolved, rejected, caps_of, calls_made, emit,
  fetch_model_capabilities, drop_rejected, finish, settle, get_cached_model_capabilities,
  clear_model_capabilities_cache, Event, fetch, answer, clear, handle, run,
}

-- What is known of a key.
pub data Status : Type 0 where
  idle asked : Status
  known : ModelCapabilities → Status

-- A key by itself: its status, and how often the backend was asked about it.
pub record Entry : Type 0 where
  pub status : Status
  pub asked_times : ℕ

-- One event, as one key sees it: an idle key is asked about by a fetch, once; an answer makes it
-- known, or idle again when it was a failure; clearing forgets what is known, and does not touch a
-- question that is open.
abbrev pub fetched : Status → Entry → Entry
fetched idle e = record { status = asked; asked_times = e.asked_times + 1 }
fetched asked e = e
fetched (known c) e = e

abbrev pub answered : Outcome → Status → Entry → Entry
answered o idle e = e
answered (resolved r) asked e = record e { status = known (caps_of r) }
answered rejected asked e = record e { status = idle }
answered o (known c) e = e

abbrev pub cleared : Status → Status
cleared idle = idle
cleared asked = asked
cleared (known c) = idle

unfoldable pub step : String → Event → Entry → Entry
step k (fetch key) e = ite (text_discrete k key) (fetched e.status e) e
step k (answer key o) e = ite (text_discrete k key) (answered o e.status e) e
step k clear e = record e { status = cleared e.status }

unfoldable pub replay : String → List Event → Entry → Entry
replay k [] e = e
replay k (x ∷ xs) e = replay k xs (step k x e)

abbrev pub status_of : Option ModelCapabilities → Option ℕ → Status
status_of (some c) o = known c
status_of none (some r) = asked
status_of none none = idle

abbrev pub times : String → List String → ℕ
times k [] = 0
times k (j ∷ js) = ite (text_discrete k j) (times k js + 1) (times k js)

-- The entry of a key in the cache.
abbrev pub entry : String → Cache → Entry
entry k s = record {
  status = status_of (get k s.cache) (get k s.inflight);
  asked_times = times k s.calls;
}

-- No key is known and asked about at once.
abbrev pub IsMemo : Cache → Type 0
IsMemo s = (k : String) → get k s.inflight ≢ none → get k s.cache ≡ none

abbrev Steps : String → Event → Cache → Type 0
Steps k x s = entry k (handle x s) ≡ step k x (entry k s)

fetch-step : (k key : String) (s : Cache) → Steps k (fetch key) s
unfolding handle fetch_model_capabilities step
fetch-step k key s = ground (arith, get-set key k (calls_made s.calls) s.inflight)

answer-step : (k key : String) (o : Outcome) (s : Cache) → IsMemo s → Steps k (answer key o) s
unfolding handle settle drop_rejected finish emit step
answer-step k key (resolved r) s h =
    ground (arith, h key, h k, get-set key k (caps_of r) s.cache, get-delete key k s.inflight)
answer-step k key rejected s h =
    ground (arith, h key, h k, get-delete key k s.cache, get-delete key k s.inflight)

clear-step : (k : String) (s : Cache) → IsMemo s → Steps k clear s
unfolding handle clear_model_capabilities_cache emit step get
clear-step k s h = ground (arith, h k)

handle-IsMemo : (x : Event) (s : Cache) → IsMemo s → IsMemo (handle x s)
unfolding handle fetch_model_capabilities settle drop_rejected finish emit
    clear_model_capabilities_cache get
handle-IsMemo (fetch key) s h k =
    ground (arith, h key, h k, get-set key k (calls_made s.calls) s.inflight)
handle-IsMemo (answer key (resolved r)) s h k =
    ground (arith, h key, h k, get-set key k (caps_of r) s.cache, get-delete key k s.inflight)
handle-IsMemo (answer key rejected) s h k =
    ground (arith, h key, h k, get-delete key k s.cache, get-delete key k s.inflight)
handle-IsMemo clear s h k = λ _. refl

handle-step : (k : String) (x : Event) (s : Cache) → IsMemo s → Steps k x s
handle-step k (fetch key) s h = fetch-step k key s
handle-step k (answer key o) s h = answer-step k key o s h
handle-step k clear s h = clear-step k s h

-- Over every sequence of fetches, answers and clearings, from a state in which no key is known and
-- asked about at once, each key goes its own way: a fetch asks about it exactly when it is idle, so
-- never while a request for it is open or its answer is kept; a failure makes it idle again; and no
-- key is ever known and asked about at once.
pub run_refines :
    (es : List Event) (s : Cache)
    → IsMemo s
    → IsMemo (run es s) × ((k : String) → entry k (run es s) ≡ replay k es (entry k s))
unfolding run replay
run_refines [] s h = (h, λ k. refl)
run_refines (x ∷ xs) s h =
    let (memo, same) = run_refines xs (handle x s) (handle-IsMemo x s h) in
    (memo, λ k. same k ∙ ap (replay k xs) (handle-step k x s h))

-- The events that leave an open question of a key open.
abbrev pub Waits : String → Event → Type 0
Waits k (fetch key) = Unit
Waits k (answer key o) = key ≢ k
Waits k clear = Unit

replay-Waits :
    (k : String) (es : List Event) (e : Entry)
    → e.status ≡ asked
    → All (Waits k) es
    → (replay k es e).status ≡ asked
unfolding replay step
replay-Waits k [] e h w = h
replay-Waits k (fetch key ∷ es) e h (_, w) =
    replay-Waits k es (step k (fetch key) e) (ground arith) w
replay-Waits k (answer key o ∷ es) e h (ne, w) =
    replay-Waits k es (step k (answer key o) e) (ground arith) w
replay-Waits k (clear ∷ es) e h (_, w) = replay-Waits k es (step k clear e) (ground arith) w

answered_known :
    (k : String) (r : Option ModelValidation) (e : Entry)
    → e.status ≡ asked
    → (step k (answer k (resolved r)) e).status ≡ known (caps_of r)
unfolding step
answered_known k r e h = ground arith

status_known :
    (k : String) (s : Cache) (c : ModelCapabilities)
    → (entry k s).status ≡ known c
    → get_cached_model_capabilities k s ≡ some c
unfolding get_cached_model_capabilities
status_known k s c h = ground arith

fetched_waits :
    (k : String) (s : Cache) → get k s.cache ≡ none → (step k (fetch k) (entry k s)).status ≡ asked
unfolding step
fetched_waits k s h = ground arith

settle-step :
    (k : String) (r : Option ModelValidation) (s : Cache)
    → IsMemo s
    → entry k (settle k (resolved r) s) ≡ step k (answer k (resolved r)) (entry k s)
unfolding handle
settle-step k r s h = answer-step k k (resolved r) s h

-- A fetch of a key that is not known is answered, in a state in which no key is known and asked about
-- at once: whatever else happens before the key's answer arrives, also a clearing, the answer, if it
-- is no failure, is what a reader then finds.
pub fetch_answered :
    (k : String) (es : List Event) (r : Option ModelValidation) (s : Cache)
    → IsMemo s
    → get k s.cache ≡ none
    → All (Waits k) es
    → get_cached_model_capabilities k (settle k (resolved r) (run es (handle (fetch k) s)))
      ≡ some (caps_of r)
fetch_answered k es r s h new w =
    let a = handle (fetch k) s in
    let (memo, same) = run_refines es a (handle-IsMemo (fetch k) s h) in
    let waits : (entry k (run es a)).status ≡ asked =
      ap (λ e. e.status) (same k)
      ∙ replay-Waits k es (entry k a)
          (ap (λ e. e.status) (fetch-step k k s) ∙ fetched_waits k s new) w in
    status_known k (settle k (resolved r) (run es a)) (caps_of r) (
      ap (λ e. e.status) (settle-step k r (run es a) memo)
      ∙ answered_known k r (entry k (run es a)) waits)
