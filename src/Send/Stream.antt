-- ===== src/Send/Stream.antt =====
-- apps/web/src/features/conversation/hooks/useChatStream.ts: how a stream ends that fails or that the
-- user aborts.
pub mod Ends
use musaed.Base.{
  ℕ, String, Text, Bool, true, false, Option, none, some, [], ◌∷◌, ◌++◌, if◌then◌else◌, is_empty,
}
use musaed.Base.Dict.{get, has}
use musaed.Message.{Patch, no_patch, MessageError}
use musaed.Tracing.{Level, debug, warn, trace_store_mutation}
use musaed.Store.Ui.{set_error_message}
use musaed.Coordination.{
  App, error, abort, flush_and_stop, stop_stream, update_last_message_action, trace_of,
}
use musaed.Send.Texts.{Labels, is_cancellation, runner_terminated}
use musaed.Base.Texts.{contains}

-- The message that is shown: with a hint when the model crashed.
unfoldable pub display_text : Labels → Text → Text
display_text t message =
    if contains runner_terminated message then message ++ 46 ∷ 32 ∷ t.load_hint else message

abbrev pub error_patch : Labels → Text → Patch
error_patch t shown = record no_patch {
  content = some (10 ∷ 10 ∷ 91 ∷ t.error_prefix ++ 58 ∷ 32 ∷ shown ++ 93 ∷ []);
  done = some true;
  error = some (record { code = "STREAM_FAILED"; message = shown });
}

-- `useUIStore.getState().setErrorMessage`, with its trace.
abbrev pub set_error_action : ℕ → Text → App → App
set_error_action now message a = record a {
  ui = set_error_message (some message) a.ui;
  tracing =
      trace_store_mutation now
        (trace_of "ui" "setErrorMessage" (if is_empty message then debug else warn)) 0 "" a.tracing;
}

-- What `handleStreamError` does with an error that is reported. The request is only logged.
unfoldable pub report_error : ℕ → Labels → Text → String → App → App
unfolding display_text
report_error now t message c a =
    let flushed = flush_and_stop now c none a in
    let written =
      update_last_message_action now c (error_patch t (display_text t message)) false flushed in
    let stopped = stop_stream now c error none written in
    set_error_action now (display_text t message) stopped

-- `handleStreamError`
unfoldable pub handle_stream_error : ℕ → Labels → Text → String → String → App → App
unfolding is_cancellation report_error
handle_stream_error now t message c request a =
    let report = report_error now t message c a in
    if is_cancellation message then a else if has c a.streaming.active_streams then report else a

-- `abortMessage`, past the request to the backend.
unfoldable pub abort_message : ℕ → Option String → App → App
abort_message now none a = a
abort_message now (some c) a = stop_stream now c abort (get c a.streaming.active_streams) a
