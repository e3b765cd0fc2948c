-- ===== src/Store/Conversations.antt =====
-- apps/web/src/store/conversation-store.ts: the metadata of the conversations, and their order in the
-- sidebar. What the actions trace is left out: it is a diagnostic that the result does not depend on.
pub mod Listed
use musaed.Base.{
  ℕ, String, Text, Bool, true, false, Option, none, some, List, [], ◌∷◌, ite, text_discrete,
  if◌then◌else◌, is_empty, map, select,
}
use musaed.Base.Dict.{Dict, get, set, delete}
use musaed.Message.{given_or}
use musaed.Base.Texts.{lower_case, contains}

-- `ConversationMetadata`; the settings are only handed on, and `S` stands for them.
pub record Metadata (S : Type 0) : Type 0 where
  pub id : String
  pub title : Text
  pub model : String
  pub settings : S
  pub created_at : ℕ
  pub updated_at : ℕ

-- `Partial<ConversationMetadata>`, with the fields that may change.
pub record Updates (S : Type 0) : Type 0 where
  pub title : Option Text
  pub model : Option String
  pub settings : Option S

pub record Conversations (S : Type 0) : Type 0 where
  pub conversations : Dict (Metadata S)
  pub conversation_ids : List String
  pub current_conversation_id : Option String
  pub search_query : Text

-- `ids.filter((cid) => cid !== id)`
unfoldable pub without_id : String → List String → List String
without_id id [] = []
without_id id (j ∷ js) = ite (text_discrete j id) (without_id id js) (j ∷ without_id id js)

abbrev pub current_without : String → Option String → Option String
current_without id none = none
current_without id (some c) = ite (text_discrete c id) none (some c)

module _ {S : Type 0} where
  -- `Object.fromEntries(convs.map((c) => [c.id, c]))`
  unfoldable pub set_all : List (Metadata S) → Dict (Metadata S) → Dict (Metadata S)
  set_all [] d = d
  set_all (c ∷ cs) d = set_all cs (set c.id c d)

  abbrev pub ids_of : List (Metadata S) → List String
  ids_of = map (λ c. c.id)

  unfoldable pub set_conversations : List (Metadata S) → Conversations S → Conversations S
  unfolding set_all
  set_conversations cs s = record s { conversations = set_all cs []; conversation_ids = ids_of cs }

  abbrev pub set_current_conversation_id : Option String → Conversations S → Conversations S
  set_current_conversation_id id s = record s { current_conversation_id = id }

  abbrev pub set_search_query : Text → Conversations S → Conversations S
  set_search_query query s = record s { search_query = query }

  unfoldable pub add_conversation : Metadata S → Conversations S → Conversations S
  add_conversation c s = record s {
    conversations = set c.id c s.conversations;
    conversation_ids = c.id ∷ s.conversation_ids;
  }

  abbrev pub updated : ℕ → Updates S → Metadata S → Metadata S
  updated now u c = record c {
    title = given_or u.title c.title;
    model = given_or u.model c.model;
    settings = given_or u.settings c.settings;
    updated_at = now;
  }

  unfoldable pub update_conversation : ℕ → String → Updates S → Conversations S → Conversations S
  update_conversation now id u s = elim (get id s.conversations) [
    | none ↦ s
    | some c ↦ record s { conversations = set id (updated now u c) s.conversations }
  ]

  unfoldable pub remove_conversation : String → Conversations S → Conversations S
  unfolding without_id
  remove_conversation id s = record s {
    conversations = delete id s.conversations;
    conversation_ids = without_id id s.conversation_ids;
    current_conversation_id = current_without id s.current_conversation_id;
  }

  -- `conversationIds.map((id) => conversations[id]).filter(Boolean)`
  unfoldable pub listed_conversations : List String → Dict (Metadata S) → List (Metadata S)
  listed_conversations [] d = []
  listed_conversations (id ∷ ids) d = elim (get id d) [
    | none ↦ listed_conversations ids d
    | some c ↦ c ∷ listed_conversations ids d
  ]

  -- `selectFilteredConversations`; the letters of ASCII are compared in lower case.
  unfoldable pub select_filtered_conversations : Conversations S → List (Metadata S)
  unfolding listed_conversations
  select_filtered_conversations s =
      let all = listed_conversations s.conversation_ids s.conversations in
      if is_empty s.search_query
      then all
      else select (λ c. contains (lower_case s.search_query) (lower_case c.title)) all
