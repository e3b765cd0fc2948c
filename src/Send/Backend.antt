-- ===== src/Send/Backend.antt =====
-- apps/web/src/features/conversation/hooks/useTauriEvents.ts: the events of the backend. The time,
-- the handle of the next frame, and what leaves the stores are explicit.
pub mod Ends
pub mod Answer
mod Tests
use musaed.Base.{
  ℕ, String, Text, Bool, true, false, Option, none, some, List, [], ◌∷◌, ◌++◌, ◌+◌, ite, is_empty,
  if◌then◌else◌, text_discrete, last?, not, ◌&&◌,
}
use musaed.Base.Dict.{Dict, keys}
use musaed.Message.{Message, Role, user, assistant, system, Metrics, first_given, given_or}
use musaed.Store.Messages.{messages_of}
use musaed.Store.Streaming.{set_pending_metrics}
use musaed.Coordination.{App, complete, error, buffer, stop_stream}
use musaed.Coordination.Streams.{running}

-- The fields of an `OllamaToken` that the handler reads.
pub record OllamaToken : Type 0 where
  pub content : Option Text
  pub done : Bool
  pub request_id : Option String
  pub total_duration : Option ℕ
  pub prompt_eval_count : Option ℕ
  pub eval_count : Option ℕ
  pub eval_duration : Option ℕ
  pub completion_tokens : Option ℕ
  pub prompt_tokens : Option ℕ
  pub total_tokens : Option ℕ

-- The fields of a sanitized `BackendError` that the handler reads.
pub record BackendError : Type 0 where
  pub message : Text
  pub request_id : Option String

-- What a handler asks of the rest of the program.
pub data Effect : Type 0 where
  persist_answer : String → Message → Effect
  auto_title : String → Effect
  error_toast : Text → Effect

-- An id that is neither absent nor the empty text.
abbrev given_text : Option String → Option String
given_text none = none
given_text (some s) = ite (text_discrete s "") none (some s)

-- The first conversation that streams under the request.
unfoldable pub stream_of : String → Dict String → Option String
stream_of request [] = none
stream_of request ((c, r) ∷ d) = ite (text_discrete r request) (some c) (stream_of request d)

-- The conversation and the request that an event is for.
unfoldable pub addressee : Option String → Dict String → Option (String × String)
addressee o d = elim (given_text o) [
  | none ↦ none
  | some request ↦ elim (given_text (stream_of request d)) [
    | none ↦ none
    | some c ↦ some (c, request)
  ]
]

abbrev sum_given : Option ℕ → Option ℕ → Option ℕ
sum_given (some m) (some n) = some (m + n)
sum_given _ _ = none

-- The counts under the names of Ollama and under the semantic names.
abbrev pub counts_of : OllamaToken → Metrics
counts_of t =
    let prompt = first_given t.prompt_tokens t.prompt_eval_count in
    let completion = first_given t.completion_tokens t.eval_count in
    record {
      eval_count = t.eval_count;
      prompt_eval_count = t.prompt_eval_count;
      completion_tokens = completion;
      prompt_tokens = prompt;
      total_tokens = first_given t.total_tokens (sum_given prompt completion);
      eval_duration = t.eval_duration;
      total_duration = t.total_duration;
    }

abbrev pub is_absent : Option ℕ → Bool
is_absent none = true
is_absent (some n) = false

-- `Object.keys(metrics).length > 0`
abbrev pub has_counts : Metrics → Bool
has_counts m = not (
    is_absent m.eval_count
    && is_absent m.prompt_eval_count
    && is_absent m.completion_tokens
    && is_absent m.prompt_tokens
    && is_absent m.total_tokens
    && is_absent m.eval_duration
    && is_absent m.total_duration)

abbrev pub set_counts : String → String → Metrics → App → App
set_counts c request m a =
    if has_counts m then record a { streaming = set_pending_metrics c request m a.streaming } else a

-- The last message is saved when it is an answer.
abbrev pub save_answer : String → Option Message → List Effect
save_answer c none = []
save_answer c (some m) = elim m.role [
  | user ↦ []
  | assistant ↦ persist_answer c m ∷ []
  | system ↦ []
]

-- What follows a finished answer, from the messages of its conversation.
abbrev pub after_answer : String → List Message → List Effect
after_answer c messages =
    save_answer c (last? messages) ++ (if is_empty messages then [] else auto_title c ∷ [])

-- The token on its way to the next frame, and its counts.
unfoldable pub take_token : Option ℕ → OllamaToken → String → String → App → App
take_token frame t c request a =
    set_counts c request (counts_of t) (buffer frame c (given_or t.content []) request a)

unfoldable pub finish_answer : ℕ → String → App → App × List Effect
finish_answer now c a =
    let b = stop_stream now c complete none a in (b, after_answer c (messages_of c b.messages))

-- `handleToken` past the search for the stream.
unfoldable pub receive :
    ℕ → Option ℕ → OllamaToken → Option (String × String) → App → App × List Effect
receive now frame t none a = (a, [])
receive now frame t (some (c, request)) a =
    let b = take_token frame t c request a in
    let finished = finish_answer now c b in if t.done then finished else (b, [])

-- `handleToken`
unfoldable pub handle_token : ℕ → Option ℕ → OllamaToken → App → App × List Effect
handle_token now frame t a = receive now frame t (addressee t.request_id (running a)) a

-- The loop over the streams that ran at the start.
unfoldable pub stop_all : ℕ → List String → App → App
stop_all now [] a = a
stop_all now (c ∷ cs) a = stop_all now cs (stop_stream now c error none a)

-- `handleError` past the search for the stream: one stream ends, or all.
unfoldable pub stop_failed : ℕ → Option (String × String) → App → App
stop_failed now none a = stop_all now (keys (running a)) a
stop_failed now (some (c, request)) a = stop_stream now c error (some request) a

-- `handleError`, past the sanitizing and the log.
unfoldable pub handle_error : ℕ → BackendError → App → App × List Effect
handle_error now e a =
    (stop_failed now (addressee e.request_id (running a)) a, error_toast e.message ∷ [])
