-- ===== src/Actions.antt =====
-- apps/web/src/features/conversation/hooks/useConversationActions.ts: what the user does to whole
-- conversations, across the stores. `S` stands for the settings that a conversation is made with.
-- Calls of the backend are left out but for the identifier that it answers a creation with, and the
-- requests that are aborted.
pub mod Laws
mod Tests
use musaed.Base.{
  ℕ, String, Text, Bool, true, false, Option, none, some, List, [], ◌∷◌, ite, text_discrete,
}
use musaed.Base.Dict.{Dict, get, delete}
use musaed.Message.{given_or}
use musaed.Store.Messages.{clear_messages}
use musaed.Store.Conversations.{
  Metadata, Updates, Conversations, update_conversation, remove_conversation,
}
use musaed.Coordination.{App, abort, stop_stream}

pub record Session (S : Type 0) : Type 0 where
  pub app : App
  pub conversations : Conversations S

-- `{ [id]: conversation, ...rest }`: the key comes first, and a conversation that has it already stays.
unfoldable pub put_first : {V : Type 0} → String → V → Dict V → Dict V
put_first id v d = elim (get id d) [ some old ↦ (id, old) ∷ delete id d | none ↦ (id, v) ∷ d ]

-- `if (requestId) chatApi.abort(requestId)`
unfoldable pub aborted : Option String → Option String
aborted none = none
aborted (some request) = ite (text_discrete request "") none (some request)

unfoldable pub abort_all : ℕ → Dict String → App → App
abort_all now [] a = a
abort_all now ((c, request) ∷ streams) a =
    abort_all now streams (stop_stream now c abort (some request) a)

module _ {S : Type 0} where
  abbrev pub new_conversation : String → Text → String → S → ℕ → Metadata S
  new_conversation id title model settings now = record {
    id = id;
    title = title;
    model = model;
    settings = settings;
    created_at = now;
    updated_at = now;
  }

  -- `createConversation`, after the backend has answered with an identifier or with `null`.
  unfoldable pub create_conversation : Metadata S → Option String → Session S → Session S
  create_conversation c created s =
      let id = given_or created c.id in
      record s {
        conversations = record s.conversations {
          conversations = put_first id c s.conversations.conversations;
          conversation_ids = id ∷ s.conversations.conversation_ids;
          current_conversation_id = some id;
        };
      }

  -- `deleteConversation`, with the request that is aborted.
  unfoldable pub delete_conversation : ℕ → String → Session S → Session S × Option String
  delete_conversation now id s =
      let request = get id s.app.streaming.active_streams in
      let stopped = stop_stream now id abort request s.app in
      (
        record {
          app = record stopped { messages = clear_messages id stopped.messages };
          conversations = remove_conversation id s.conversations;
        },
        aborted request,
      )

  unfoldable pub update_conversation_title : ℕ → String → Text → Session S → Session S
  update_conversation_title now id title s = record s {
    conversations =
        update_conversation now id (record { title = some title; model = none; settings = none })
          s.conversations;
  }

  unfoldable pub clear_all_conversations : ℕ → Session S → Session S
  clear_all_conversations now s =
      let stopped = abort_all now s.app.streaming.active_streams s.app in
      record {
        app = record stopped { messages = [] };
        conversations = record s.conversations {
          conversations = [];
          conversation_ids = [];
          current_conversation_id = none;
        };
      }
