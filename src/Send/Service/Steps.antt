-- ===== src/Send/Service/Steps.antt =====
-- apps/web/src/features/conversation/services/ChatSendService.ts. Both ways to send run up to an
-- `await`, and on after it, with other calls in between: so each part is a function of its own, and
-- what the first part read from the stores, `messageStore` and `settingsState`, is handed on as it
-- was then. What the backend and the RAG lookup answer is given, and so are the clock, the random
-- identifiers and the translated texts. Log entries, and writes to the backend that nothing waits for,
-- are left out.
use musaed.Base.{
  ℕ, String, Text, Bool, true, false, Option, none, some, List, [], ◌∷◌, ◌&&◌, if◌then◌else◌,
  length, ite, text_discrete, find,
}
use musaed.Message.{is_user, is_assistant, Message, no_patch}
use musaed.Store.Messages.{
  MessageState, messages_of, add_messages, add_message, update_message, remove_message,
}
use musaed.Store.ModelParams.{select_resolved_params}
use musaed.Budget.Estimate.{compute_rag_char_budget}
use musaed.Budget.History.{estimate_history_tokens}
use musaed.Coordination.{coordinate_start_stream, stop_stream, batch_end}
use musaed.Send.Stream.{handle_stream_error}
use musaed.Send.Service.Guards.{Deps, Prepared, Stores}
use musaed.Send.Service.Requests.{
  ChatPayload, Ids, Rag, assistant_message, attempt_payload, given_images, user_message,
}

-- Up to the `await`: the stream is started, and what the lookup may bring back is limited.
unfoldable pub send_begin : String → Prepared → Stores → Stores
send_begin request p s = record s { app = coordinate_start_stream p.conversation request s.app }

unfoldable pub rag_limit : Deps → String → Prepared → Stores → Option ℕ
rag_limit deps request p s =
    compute_rag_char_budget
      (select_resolved_params p.model deps.context_window deps.default_params s.profiles).num_ctx
      (length s.system_prompt)
      (estimate_history_tokens (messages_of p.conversation s.app.messages) request)
      (length p.prompt)

-- `sendMessage` after the lookup: `before` is what it read from the stores at its start.
unfoldable pub send_continue :
    Deps → String → Prepared → List String → Ids → Rag → Stores → Stores → Stores × ChatPayload
unfolding attempt_payload
send_continue deps request p images ids rag before s = (
  record s {
    app = record s.app {
      messages =
          add_messages p.conversation
            (user_message p images request ids ∷ assistant_message p request ids rag ∷ [])
            s.app.messages;
    };
  },
  attempt_payload deps before.app.messages before.system_prompt request p rag s.profiles,
)

-- The `catch` of both: the lookup failed.
unfoldable pub send_failed : ℕ → String → Prepared → Stores → Stores
send_failed now request p s = record s {
  app = stop_stream now p.conversation batch_end (some request) s.app;
}

-- How `chatApi.chat` ends.
pub data ChatOutcome : Type 0 where
  accepted blocked : ChatOutcome
  rejected : Text → ChatOutcome

abbrev pub is_request : String → Option String → Bool
is_request request none = false
is_request request (some r) = ite (text_discrete r request) true false

abbrev pub is_answer : String → Message → Bool
is_answer request m = is_assistant m.role && is_request request m.request_id

abbrev pub with_error : ℕ → Deps → Text → String → Prepared → Stores → Stores
with_error now deps message request p s = record s {
  app = handle_stream_error now deps.labels message p.conversation request s.app;
}

-- `executeChatSendAttempt` after the call, with the message that it persists.
unfoldable pub send_finish :
    ℕ → Deps → String → Prepared → Stores → ChatOutcome → Stores → Stores × Option Message
send_finish now deps request p before accepted s =
    (s, find (is_answer request) (messages_of p.conversation before.app.messages))
send_finish now deps request p before blocked s =
    (with_error now deps deps.labels.generic_error request p s, none)
send_finish now deps request p before (rejected message) s =
    (with_error now deps message request p s, none)

abbrev pub has_id : String → Message → Bool
has_id id m = ite (text_discrete m.id id) true false

-- `msgs.slice(editedIdx + 1).find((m) => m.role === 'assistant')`
unfoldable pub answer_after : String → List Message → Option Message
answer_after id [] = none
answer_after id (m ∷ ms) =
    let rest = answer_after id ms in
    if has_id id m then find (λ n. is_assistant n.role) ms else rest

abbrev pub without_answer : String → Option Message → MessageState → MessageState
without_answer c none s = s
without_answer c (some m) s = remove_message c m.id s

-- The message of the first part of `editAndResend` that may be edited.
unfoldable pub edited_message : String → Prepared → Stores → Option Message
edited_message id p before =
    elim (find (has_id id) (messages_of p.conversation before.app.messages)) [
      | none ↦ none
      | some m ↦ if is_user m.role then some m else none
    ]

-- `editAndResend` after the lookup; without a message to edit it returns.
unfoldable pub edit_continue :
    Deps
    → String
    → String
    → Prepared
    → List String
    → Ids
    → Rag
    → Stores
    → Stores
    → Stores × Option ChatPayload
unfolding attempt_payload answer_after edited_message
edit_continue deps id request p images ids rag before s = elim (edited_message id p before) [
  | none ↦ (s, none)
  | some m ↦
      let c = p.conversation in
      let patched =
        update_message c id
          (record no_patch { content = some p.trimmed; images = some (given_images images) })
          s.app.messages in
      let removed =
        without_answer c (answer_after id (messages_of c before.app.messages)) patched in
      (
        record s {
          app = record s.app {
            messages = add_message c (assistant_message p request ids rag) removed;
          };
        },
        some (
            attempt_payload deps before.app.messages before.system_prompt request p rag s.profiles),
      )
]
