-- ===== src/Persistence.antt =====
-- apps/web/src/features/conversation/utils/message-persistence.ts: a message that is persisted with
-- retries. What the backend answers to each attempt is given, and so is the jitter of each
-- wait, a whole number of milliseconds. Log entries are left out.
mod Tests
pub mod Laws
use musaed.Base.{
  ℕ, zero, suc, Bool, true, false, List, [], ◌∷◌, ◌+◌, ◌*◌, ◌-◌, min, not, if◌then◌else◌,
}

abbrev pub max_retries : ℕ
max_retries = 3

abbrev pub initial_backoff : ℕ
initial_backoff = 500

abbrev pub max_backoff : ℕ
max_backoff = 5000

-- How `appendMessage` ends: it returns; or the backend refuses the message, and the transport returns
-- null without an error; or it throws.
pub data Attempt : Type 0 where
  taken refused thrown : Attempt

abbrev pub throws : Attempt → Bool
throws taken = false
throws refused = false
throws thrown = true

abbrev pub doubled : ℕ → ℕ → ℕ
doubled zero n = n
doubled (suc k) n = 2 * doubled k n

-- `calculateBackoff`
unfoldable pub calculate_backoff : ℕ → ℕ → ℕ
calculate_backoff jitter retry = min (doubled retry initial_backoff + jitter) max_backoff

-- `PersistenceResult`, with the waits that led to it.
pub record PersistenceResult : Type 0 where
  pub success : Bool
  pub retries : ℕ
  pub waits : List ℕ

abbrev pub after_wait : ℕ → PersistenceResult → PersistenceResult
after_wait wait r = record r { waits = wait ∷ r.waits }

-- `persistWithRetry`, where `left` retries are left: `retryCount` is `MAX_RETRIES - left`.
unfoldable pub persist_with_retry : (ℕ → Attempt) → (ℕ → ℕ) → ℕ → ℕ → PersistenceResult
unfolding calculate_backoff
persist_with_retry answer jitter zero retry = record {
  success = not (throws (answer retry));
  retries = retry;
  waits = [];
}
persist_with_retry answer jitter (suc left) retry =
    let rest = persist_with_retry answer jitter left (retry + 1) in
    if throws (answer retry)
    then after_wait (calculate_backoff (jitter retry) retry) rest
    else record { success = true; retries = retry; waits = [] }

-- `persistMessage`
unfoldable pub persist_message : (ℕ → Attempt) → (ℕ → ℕ) → PersistenceResult
unfolding persist_with_retry
persist_message answer jitter = persist_with_retry answer jitter max_retries 0
