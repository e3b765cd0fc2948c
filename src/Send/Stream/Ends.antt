-- ===== src/Send/Stream/Ends.antt =====
-- The streams that run after useChatStream.ts has handled a failure or an abort.
use musaed.Base.{
  ℕ, String, Text, false, Option, none, some, ◌≡◌, ◌≢◌, refl, subst, sym, arith, Option-cases, inl,
  inr, text_discrete, ite, if_split,
}
use musaed.Base.Dict.{get, has}
use musaed.Message.{Patch}
use musaed.Coordination.{
  App, StopReason, error, abort, stop_stream, update_last_message_action, is_stale,
}
use musaed.Coordination.Streams.{running, IsRegistered}
use musaed.Coordination.Stop.{get-running-stop_stream}
use musaed.Coordination.Events.{flush, stop, handle}
use musaed.Coordination.Flag.{IsSound, handle-IsSound}
use musaed.Send.Texts.{Labels, is_cancellation}
use musaed.Send.Stream.{report_error, handle_stream_error, abort_message, display_text, error_patch}

-- The request that owns the conversation, or nothing: neither is stale.
abbrev IsCurrent : String → Option String → App → Type 0
IsCurrent c expected a = is_stale c expected a.streaming ≡ false

owner-IsCurrent :
    (c : String) (a : App) → get c (running a) ≢ none → IsCurrent c (get c (running a)) a
unfolding is_stale
owner-IsCurrent c a some_one = elim (Option-cases (get c (running a))) [
  | inl e ↦ absurd (some_one e)
  | inr (r, e) ↦ subst (λ o. IsCurrent c o a) (sym e) (ground (arith, e))
]

stop-ends :
    (now : ℕ) (c : String) (reason : StopReason) (expected : Option String) (a : App)
    → IsRegistered a
    → IsCurrent c expected a
    → get c (running (stop_stream now c reason expected a)) ≡ none
stop-ends now c reason expected a r fresh =
    ground (arith, get-running-stop_stream now c c reason expected a r)

-- Aborting a conversation leaves it without a stream, whatever request owned it, and leaves the
-- streams of the others as they were.
pub abort_message-ends :
    (now : ℕ) (c d : String) (a : App)
    → IsRegistered a
    → get d (running (abort_message now (some c) a))
      ≡ ite (text_discrete d c) none (get d (running a))
unfolding abort_message
abort_message-ends now c d a r = elim (Option-cases (get c (running a))) [
  | inl e ↦ ground (arith, get-running-stop_stream now c d abort (get c (running a)) a r, e)
  | inr (q, e) ↦ ground (
    arith,
    get-running-stop_stream now c d abort (get c (running a)) a r,
    owner-IsCurrent c a (ground (arith, e)),
  )
]

update-IsSound :
    (now : ℕ) (c : String) (u : Patch) (a : App)
    → IsSound a
    → IsSound (update_last_message_action now c u false a)
unfolding update_last_message_action
update-IsSound now c u a h = record {
  truthful = h.truthful;
  registered = h.registered;
  scheduled = h.scheduled;
}

report_error-IsSound :
    (now : ℕ) (t : Labels) (message : Text) (c : String) (a : App)
    → IsSound a
    → IsSound (report_error now t message c a)
unfolding report_error handle
report_error-IsSound now t message c a h =
    let stopped = handle-IsSound now (stop c error none) _ (
      update-IsSound now c (error_patch t (display_text t message)) _
        (handle-IsSound now (flush c none) a h)) in
    record {
      truthful = stopped.truthful;
      registered = stopped.registered;
      scheduled = stopped.scheduled;
    }

ends_reported :
    (now : ℕ) (t : Labels) (message : Text) (c : String) (a : App)
    → IsSound a
    → get c (running (report_error now t message c a)) ≡ none
unfolding report_error handle is_stale
ends_reported now t message c a h =
    let written =
      update-IsSound now c (error_patch t (display_text t message)) _
        (handle-IsSound now (flush c none) a h) in
    stop-ends now c error none _ written.registered refl

-- Handling the failure of a request keeps the stores sound.
pub handle_stream_error-IsSound :
    (now : ℕ) (t : Labels) (message : Text) (c request : String) (a : App)
    → IsSound a
    → IsSound (handle_stream_error now t message c request a)
unfolding handle_stream_error
handle_stream_error-IsSound now t message c request a h =
    if_split IsSound (is_cancellation message) _ _ (λ _. h)
      (λ _.
        if_split IsSound (has c (running a)) _ _ (λ _. report_error-IsSound now t message c a h)
          (λ _. h))

-- The failure of a request ends whatever stream its conversation has, also one that a newer request
-- owns: the request is not compared. Only a cancellation is passed over.
handle_stream_error-ends :
    (now : ℕ) (t : Labels) (message : Text) (c request : String) (a : App)
    → IsSound a
    → is_cancellation message ≡ false
    → get c (running (handle_stream_error now t message c request a)) ≡ none
unfolding handle_stream_error report_error handle
handle_stream_error-ends now t message c request a h reported = rw reported (
    if_split (λ (b : App). get c (running b) ≡ none) (has c (running a)) _ _
      (λ _. ends_reported now t message c a h) (λ e. ground (arith, e)))
