-- ===== src/Message.antt =====
-- packages/contracts/src/schemas/conversation.ts: a chat message and a partial update of one.
-- Ids, model names and roles are texts that the program only compares; a content is its code
-- units. A field that may be `null` or absent is an `Option`.
use musaed.Base.{ℕ, String, Text, Bool, true, false, Option, none, some, List}

pub data Role : Type 0 where
  user assistant system : Role

abbrev pub is_user : Role → Bool
is_user user = true
is_user _ = false

abbrev pub is_assistant : Role → Bool
is_assistant assistant = true
is_assistant _ = false

pub record RagSource : Type 0 where
  pub file_path : String
  pub start_line : ℕ
  pub end_line : ℕ
  pub language : Option String

pub record MessageError : Type 0 where
  pub code : String
  pub message : Text

-- The counts that Ollama reports, each present or not.
pub record Metrics : Type 0 where
  pub eval_count : Option ℕ
  pub prompt_eval_count : Option ℕ
  pub completion_tokens : Option ℕ
  pub prompt_tokens : Option ℕ
  pub total_tokens : Option ℕ
  pub eval_duration : Option ℕ
  pub total_duration : Option ℕ

pub record Message : Type 0 where
  pub id : String
  pub role : Role
  pub content : Text
  pub images : Option (List String)
  pub timestamp : ℕ
  pub model : Option String
  pub done : Option Bool
  pub request_id : Option String
  pub metrics : Metrics
  pub rag_sources : Option (List RagSource)
  pub error : Option MessageError
  pub stopped : Option Bool

-- `Partial<Message>`, with the fields that the program updates: `none` is a key that is absent. The
-- images may be given as `undefined`.
pub record Patch : Type 0 where
  pub content : Option Text
  pub images : Option (Option (List String))
  pub done : Option Bool
  pub metrics : Metrics
  pub error : Option MessageError
  pub stopped : Option Bool

abbrev pub no_metrics : Metrics
no_metrics = record {
  eval_count = none;
  prompt_eval_count = none;
  completion_tokens = none;
  prompt_tokens = none;
  total_tokens = none;
  eval_duration = none;
  total_duration = none;
}

abbrev pub no_patch : Patch
no_patch = record {
  content = none;
  images = none;
  done = none;
  metrics = no_metrics;
  error = none;
  stopped = none;
}

-- A key that the right side of a spread gives, or else the left side's.
abbrev pub given_or {ℓ} : {A : Type ℓ} → Option A → A → A
given_or none a = a
given_or (some b) a = b

abbrev pub is_given {ℓ} : {A : Type ℓ} → Option A → Bool
is_given none = false
is_given (some a) = true

abbrev pub first_given {ℓ} : {A : Type ℓ} → Option A → Option A → Option A
first_given none o = o
first_given (some a) o = some a

-- `{ ...old, ...update }` on the counts.
abbrev pub merge_metrics : Metrics → Metrics → Metrics
merge_metrics old update = record {
  eval_count = first_given update.eval_count old.eval_count;
  prompt_eval_count = first_given update.prompt_eval_count old.prompt_eval_count;
  completion_tokens = first_given update.completion_tokens old.completion_tokens;
  prompt_tokens = first_given update.prompt_tokens old.prompt_tokens;
  total_tokens = first_given update.total_tokens old.total_tokens;
  eval_duration = first_given update.eval_duration old.eval_duration;
  total_duration = first_given update.total_duration old.total_duration;
}

-- `{ ...message, ...update }`.
abbrev pub merge_message : Message → Patch → Message
merge_message m update = record m {
  content = given_or update.content m.content;
  images = given_or update.images m.images;
  done = first_given update.done m.done;
  metrics = merge_metrics m.metrics update.metrics;
  error = first_given update.error m.error;
  stopped = first_given update.stopped m.stopped;
}
