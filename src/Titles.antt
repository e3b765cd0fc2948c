-- ===== src/Titles.antt =====
-- apps/web/src/features/conversation/utils/title-generator.ts and hooks/useAutoTitle.ts: a title that
-- the model makes for a conversation. `runAutoGenerate` is cut at its awaits, between which any other
-- call may change the stores. The address of the server and the language are only handed on, and left
-- out; `S` stands for the settings of a conversation.
pub mod Requests
pub mod Runs
pub mod Kept
mod Tests
use musaed.Base.{
  ℕ, zero, suc, String, Text, Bool, true, false, Option, none, some, List, [], ◌∷◌, ◌+◌, ◌==◌, leb,
  ◌&&◌, ◌||◌, not, ite, text_discrete, if◌then◌else◌, length, take, find, is_empty,
}
use musaed.Base.Dict.{Dict, get}
use musaed.Base.Texts.{same_text}
use musaed.Message.{is_given, Message, is_user, is_assistant}
use musaed.Store.Conversations.{Metadata, Updates, Conversations, update_conversation}
use musaed.Store.Conversations.Listed.{Call, handle_call}
use musaed.Thinking.{strip_thinking_blocks}

abbrev pub max_message_length : ℕ
max_message_length = 500

-- `New Chat`, and the same in Arabic.
abbrev default_titles : List Text
default_titles =
    (78 ∷ 101 ∷ 119 ∷ 32 ∷ 67 ∷ 104 ∷ 97 ∷ 116 ∷ [])
    ∷ (1605 ∷ 1581 ∷ 1575 ∷ 1583 ∷ 1579 ∷ 1577 ∷ 32 ∷ 1580 ∷ 1583 ∷ 1610 ∷ 1583 ∷ 1577 ∷ [])
    ∷ []

abbrev is_one_of : List Text → Text → Bool
is_one_of [] title = false
is_one_of (t ∷ ts) title = same_text t title || is_one_of ts title

unfoldable pub is_default_title : Text → Bool
is_default_title title = is_one_of default_titles title

unfoldable pub truncate : Text → ℕ → Text
truncate text n = if leb (length text) n then text else take n text

-- What the backend is asked.
pub record TitleRequest : Type 0 where
  pub model : String
  pub user_message : Text
  pub assistant_message : Text

abbrev pub request_of : String → Text → Text → TitleRequest
request_of model question answer = record {
  model = model;
  user_message = truncate question max_message_length;
  assistant_message = truncate (strip_thinking_blocks answer) max_message_length;
}

-- `generateConversationTitle` up to the call; without a request the title is `null`.
unfoldable pub title_request : String → List Message → Option TitleRequest
title_request model messages = elim (find (λ m. is_user m.role) messages) [
  | none ↦ none
  | some u ↦ elim (find (λ m. is_assistant m.role) messages) [
    | none ↦ none
    | some a ↦
        if is_empty u.content || is_empty a.content
        then none
        else some (request_of model u.content a.content)
  ]
]

-- `generateConversationTitle` after the call: a failure and an empty title are `null`.
abbrev pub title_of : Option TitleRequest → Option Text → Option Text
title_of none answer = none
title_of (some r) none = none
title_of (some r) (some title) = if is_empty title then none else some title

abbrev pub max_retry_attempts : ℕ
max_retry_attempts = 5

-- `dedupKey`; the creation is the part after the last colon, so the two parts determine the text.
pub record TitleKey : Type 0 where
  pub id : String
  pub created_at : ℕ

unfoldable pub same_key : TitleKey → TitleKey → Bool
same_key a b = ite (text_discrete a.id b.id) (a.created_at == b.created_at) false

-- A key of `pendingAutoTitles`, with what the call that added it waits for.
pub record Pending : Type 0 where
  pub key : TitleKey
  pub request : Option TitleRequest

unfoldable pub find_pending : TitleKey → List Pending → Option Pending
find_pending k [] = none
find_pending k (p ∷ ps) = if same_key k p.key then some p else find_pending k ps

unfoldable pub without_pending : TitleKey → List Pending → List Pending
without_pending k [] = []
without_pending k (p ∷ ps) =
    let rest = without_pending k ps in if same_key k p.key then rest else p ∷ rest

pub record Titles (S : Type 0) : Type 0 where
  pub pending : List Pending
  pub conversations : Conversations S

-- The parts of the calls of `runAutoGenerate`, and the calls of the conversation store.
pub data Event (S : Type 0) : Type 0 where
  begins : String → (ℕ → Dict (Metadata S)) → List Message → Event S
  answers : ℕ → TitleKey → Option Text → Event S
  changes : Call S → Event S

module _ {S : Type 0} where
  -- The loop of `lookupConversation`, with the table that each attempt finds.
  unfoldable pub look_up : ℕ → ℕ → String → (ℕ → Dict (Metadata S)) → Option (Metadata S)
  look_up zero attempt id table = none
  look_up (suc left) attempt id table = elim (get id (table attempt)) [
    | some c ↦ some c
    | none ↦ look_up left (attempt + 1) id table
  ]

  abbrev pub title_key : String → Metadata S → TitleKey
  title_key id c = record { id = id; created_at = c.created_at }

  -- The guards of `runAutoGenerate`.
  abbrev pub may_begin : TitleKey → Metadata S → List Message → List Pending → Bool
  may_begin k c messages pending =
      is_default_title c.title
      && not (is_given (find_pending k pending))
      && is_given (find (λ m. is_user m.role) messages)
      && is_given (find (λ m. is_assistant m.role) messages)

  -- `runAutoGenerate` from the lookup to the request.
  unfoldable pub begin_title : String → Option (Metadata S) → List Message → Titles S → Titles S
  begin_title id none messages s = s
  begin_title id (some c) messages s =
      let k = title_key id c in
      let p : Pending = record { key = k; request = title_request c.model messages } in
      if may_begin k c messages s.pending then record s { pending = p ∷ s.pending } else s

  -- The second look at the conversation, and the write.
  unfoldable pub apply_title : ℕ → TitleKey → Option Text → Conversations S → Conversations S
  apply_title now k none cs = cs
  apply_title now k (some title) cs = elim (get k.id cs.conversations) [
    | none ↦ cs
    | some current ↦
        if current.created_at == k.created_at && is_default_title current.title
        then update_conversation now k.id
            (record { title = some title; model = none; settings = none }) cs
        else cs
  ]

  -- `runAutoGenerate` after the answer; a failure is `none`.
  unfoldable pub finish_title : ℕ → TitleKey → Option Text → Titles S → Titles S
  finish_title now k answer s = elim (find_pending k s.pending) [
    | none ↦ s
    | some p ↦ record {
      pending = without_pending k s.pending;
      conversations = apply_title now k (title_of p.request answer) s.conversations;
    }
  ]

  unfoldable pub handle_title : Event S → Titles S → Titles S
  handle_title (begins id table messages) s =
      begin_title id (look_up max_retry_attempts 0 id table) messages s
  handle_title (answers now k answer) s = finish_title now k answer s
  handle_title (changes call) s = record s { conversations = handle_call call s.conversations }

  unfoldable pub run_titles : List (Event S) → Titles S → Titles S
  run_titles [] s = s
  run_titles (e ∷ es) s = run_titles es (handle_title e s)
