-- ===== src/Store/Messages.antt =====
-- apps/web/src/store/message-store.ts: the cache of messages, by conversation.
pub mod Laws
use musaed.Base.{String, Bool, Option, none, some, List, [], ◌∷◌, ◌++◌}
use musaed.Base.{ite, text_discrete, if◌then◌else◌, is_empty}
use musaed.Base.Dict.{Dict, get, set, delete}
use musaed.Message.{Message, Patch, merge_message, given_or}

-- `messages: Record<string, Message[]>`.
abbrev pub MessageState : Type 0
MessageState = Dict (List Message)

-- `state.messages[conversationId] ?? []`, also the selector `selectMessages`.
abbrev pub messages_of : String → MessageState → List Message
messages_of c s = given_or (get c s) []

unfoldable pub set_messages : String → List Message → MessageState → MessageState
set_messages c messages s = set c messages s

unfoldable pub add_messages : String → List Message → MessageState → MessageState
add_messages c messages s = set c (messages_of c s ++ messages) s

unfoldable pub add_message : String → Message → MessageState → MessageState
add_message c message s = set c (messages_of c s ++ message ∷ []) s

-- The new content of the last message: replaced, or extended by the update's.
abbrev pub next_content : Bool → Message → Patch → Message
next_content replace m update = record (merge_message m update) {
  content =
      if replace
      then given_or update.content m.content
      else m.content ++ given_or update.content [];
}

-- The copy of the list with its last element written anew.
unfoldable pub write_last : Bool → Patch → List Message → List Message
write_last replace update [] = []
write_last replace update (m ∷ []) = next_content replace m update ∷ []
write_last replace update (m ∷ n ∷ ms) = m ∷ write_last replace update (n ∷ ms)

-- A conversation that is unknown or has no message is left alone.
unfoldable pub update_last_message : String → Patch → Bool → MessageState → MessageState
update_last_message c update replace s = elim (get c s) [
  | none ↦ s
  | some ms ↦ if is_empty ms then s else set c (write_last replace update ms) s
]

-- The patch on the first message with the id; `none` where no message has it.
unfoldable pub patch_first : String → Patch → List Message → Option (List Message)
patch_first id patch [] = none
patch_first id patch (m ∷ ms) =
    ite (text_discrete m.id id) (some (merge_message m patch ∷ ms))
      (elim (patch_first id patch ms) [ none ↦ none | some rest ↦ some (m ∷ rest) ])

unfoldable pub update_message : String → String → Patch → MessageState → MessageState
unfolding patch_first
update_message c id patch s = elim (get c s) [
  | none ↦ s
  | some ms ↦ elim (patch_first id patch ms) [ none ↦ s | some new ↦ set c new s ]
]

-- `msgs.filter((m) => m.id !== messageId)`.
unfoldable pub without : String → List Message → List Message
without id [] = []
without id (m ∷ ms) = ite (text_discrete m.id id) (without id ms) (m ∷ without id ms)

unfoldable pub remove_message : String → String → MessageState → MessageState
unfolding without
remove_message c id s = elim (get c s) [ none ↦ s | some ms ↦ set c (without id ms) s ]

unfoldable pub clear_messages : String → MessageState → MessageState
clear_messages c s = delete c s

abbrev pub clear_all_messages : MessageState → MessageState
clear_all_messages s = []
