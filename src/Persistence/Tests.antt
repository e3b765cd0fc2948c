-- ===== src/Persistence/Tests.antt =====
-- The retries of message-persistence.ts against a backend that throws twice and then refuses.
use musaed.Base.{ℕ, true, if◌then◌else◌, ltb, ◌≡◌, refl}
use musaed.Persistence.{
  Attempt, thrown, refused, calculate_backoff, persist_with_retry, persist_message,
}
use musaed.Persistence.Laws.{Persisted, persist_message-Persisted}

abbrev refuses_third : ℕ → Attempt
refuses_third k = if ltb k 2 then thrown else refused

abbrev no_jitter : ℕ → ℕ
no_jitter k = 0

refusal_reported : (persist_message refuses_third no_jitter).success ≡ true
unfolding persist_message persist_with_retry calculate_backoff
refusal_reported = refl

persist_message-Persisted_example :
    Persisted refuses_third 0 3 (persist_message refuses_third no_jitter)
persist_message-Persisted_example = persist_message-Persisted refuses_third no_jitter
