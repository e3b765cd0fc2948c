-- ===== src/Send/Service/Requests.antt =====
-- The messages and the payload that ChatSendService.ts makes.
use musaed.Base.{
  ℕ, String, Text, Option, none, some, List, [], ◌∷◌, ◌++◌, ◌+◌, if◌then◌else◌, is_empty,
}
use musaed.Message.{Message, user, assistant, system, RagSource, no_metrics, given_or}
use musaed.Store.Messages.{MessageState, messages_of}
use musaed.Store.ModelParams.{ModelParamsState, select_resolved_params}
use musaed.Budget.Params.{ModelParams}
use musaed.Budget.Estimate.{estimate_text_tokens}
use musaed.Budget.History.{ChatMessage, build_history_slice}
use musaed.Budget.Output.{TokenBudget, calculate_token_budget}
use musaed.Send.Service.Guards.{Deps, Prepared}

-- What `assembleChatRag` returns.
pub record Rag : Type 0 where
  pub sources : Option (List RagSource)
  pub context : Option Text
  pub token_count : Option ℕ

pub record Ids : Type 0 where
  pub user_id : String
  pub assistant_id : String
  pub timestamp : ℕ

abbrev pub given_images : List String → Option (List String)
given_images images = if is_empty images then none else some images

abbrev pub user_message : Prepared → List String → String → Ids → Message
user_message p images request ids = record {
  id = ids.user_id;
  role = user;
  content = p.trimmed;
  images = given_images images;
  timestamp = ids.timestamp;
  model = none;
  done = none;
  request_id = some request;
  metrics = no_metrics;
  rag_sources = none;
  error = none;
  stopped = none;
}

abbrev pub assistant_message : Prepared → String → Ids → Rag → Message
assistant_message p request ids rag = record {
  id = ids.assistant_id;
  role = assistant;
  content = [];
  images = none;
  timestamp = ids.timestamp;
  model = some p.model;
  done = none;
  request_id = some request;
  metrics = no_metrics;
  rag_sources = rag.sources;
  error = none;
  stopped = none;
}

-- The payload of `chatApi.chat`, with its messages and its parameters.
pub record ChatPayload : Type 0 where
  pub model : String
  pub request_id : String
  pub messages : List ChatMessage
  pub params : ModelParams

abbrev pub no_text : Option Text → Text
no_text o = given_or o []

-- `ragTokenCount ?? (assembledContext ? estimateTextTokens(assembledContext) : 0)`
abbrev pub rag_tokens : Rag → ℕ
rag_tokens rag = given_or rag.token_count (estimate_text_tokens (no_text rag.context))

abbrev pub system_if : Text → List ChatMessage
system_if [] = []
system_if (c ∷ text) = record { role = system; content = c ∷ text } ∷ []

-- The order of the messages of a request.
abbrev pub assemble : Text → List ChatMessage → Rag → Text → List ChatMessage
assemble system_prompt history rag prompt =
    system_if system_prompt
    ++ history
    ++ system_if (no_text rag.context)
    ++ record { role = user; content = prompt } ∷ []

abbrev pub prompt_tokens : Text → Rag → Text → ℕ
prompt_tokens system_prompt rag prompt =
    estimate_text_tokens system_prompt + rag_tokens rag + estimate_text_tokens prompt

-- The budget and the payload of `executeChatSendAttempt`.
unfoldable pub attempt_budget : Text → Rag → Text → ModelParams → TokenBudget
attempt_budget system_prompt rag prompt params =
    calculate_token_budget params.num_ctx (prompt_tokens system_prompt rag prompt)
      (some params.num_predict)

unfoldable pub attempt_payload :
    Deps → MessageState → Text → String → Prepared → Rag → ModelParamsState → ChatPayload
unfolding attempt_budget
attempt_payload deps messages system_prompt request p rag profiles =
    let params = select_resolved_params p.model deps.context_window deps.default_params profiles in
    let history =
      build_history_slice (messages_of p.conversation messages) request
        (attempt_budget system_prompt rag p.prompt params).input_budget_tokens in
    record {
      model = p.model;
      request_id = request;
      messages = assemble system_prompt history rag p.prompt;
      params = params;
    }
