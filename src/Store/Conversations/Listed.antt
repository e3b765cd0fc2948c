-- ===== src/Store/Conversations/Listed.antt =====
-- The list of conversations in the sidebar against their table, in conversation-store.ts.
use musaed.Base.{
  ℕ, suc, String, Text, false, Option, none, some, List, [], ◌∷◌, ◌≤◌, leb, ◌||◌, ◌≡◌, refl, arith,
  ite, text_discrete, if◌then◌else◌,
}
use musaed.Base.Dict.{Dict, get, set, has, get-set, get-delete}
use musaed.Store.Conversations.{
  Metadata, Updates, Conversations, set_all, ids_of, set_conversations, set_current_conversation_id,
  set_search_query, add_conversation, updated, update_conversation, without_id, remove_conversation,
}

-- How often an identifier is listed.
abbrev pub occurrences : String → List String → ℕ
occurrences id [] = 0
occurrences id (j ∷ js) = ite (text_discrete id j) (suc (occurrences id js)) (occurrences id js)

pub occurrences-without_id :
    (id j : String) (js : List String)
    → occurrences j (without_id id js) ≡ ite (text_discrete j id) 0 (occurrences j js)
unfolding without_id
occurrences-without_id id j [] = ground arith
occurrences-without_id id j (i ∷ js) = ground (arith, occurrences-without_id id j js)

module _ {S : Type 0} where
  -- Every conversation of the table is listed once, and nothing else is listed.
  abbrev pub IsListed : Conversations S → Type 0
  IsListed s =
      (id : String) → occurrences id s.conversation_ids ≡ (if has id s.conversations then 1 else 0)

  has-set_all :
      (id : String) (cs : List (Metadata S)) (d : Dict (Metadata S))
      → has id (set_all cs d) ≡ (has id d || leb 1 (occurrences id (ids_of cs)))
  unfolding set_all
  has-set_all id [] d = ground arith
  has-set_all id (c ∷ cs) d = ground (arith, has-set_all id cs (set c.id c d), get-set c.id id c d)

  set_conversations-IsListed :
      (cs : List (Metadata S)) (s : Conversations S)
      → ((id : String) → occurrences id (ids_of cs) ≤ 1)
      → IsListed (set_conversations cs s)
  unfolding set_conversations get
  set_conversations-IsListed cs s distinct = λ id. ground (arith, has-set_all id cs [], distinct id)

  add_conversation-IsListed :
      (c : Metadata S) (s : Conversations S)
      → has c.id s.conversations ≡ false
      → IsListed s
      → IsListed (add_conversation c s)
  unfolding add_conversation
  add_conversation-IsListed c s new h =
      λ id. ground (arith, h id, get-set c.id id c s.conversations, new)

  update_conversation-IsListed :
      (now : ℕ) (id : String) (u : Updates S) (s : Conversations S)
      → IsListed s
      → IsListed (update_conversation now id u s)
  unfolding update_conversation
  update_conversation-IsListed now id u s h = λ j. go j (get id s.conversations) refl
    where
      go :
          (j : String) (o : Option (Metadata S))
          → get id s.conversations ≡ o
          → occurrences j (update_conversation now id u s).conversation_ids
            ≡ (if has j (update_conversation now id u s).conversations then 1 else 0)
      go j none e = ground (arith, h j, e)
      go j (some c) e = ground (arith, h j, e, get-set id j (updated now u c) s.conversations)

  remove_conversation-IsListed :
      (id : String) (s : Conversations S) → IsListed s → IsListed (remove_conversation id s)
  unfolding remove_conversation
  remove_conversation-IsListed id s h = λ j.
      ground (
        arith,
        h j,
        occurrences-without_id id j s.conversation_ids,
        get-delete id j s.conversations,
      )

-- The calls of the store.
pub data Call (S : Type 0) : Type 0 where
  set_conversations_call : List (Metadata S) → Call S
  select_call : Option String → Call S
  search_call : Text → Call S
  add_call : Metadata S → Call S
  update_call : ℕ → String → Updates S → Call S
  remove_call : String → Call S

-- What a call must keep to: identifiers that differ, and a new one for a new conversation.
abbrev pub IsAllowed : {S : Type 0} → Call S → Conversations S → Type 0
IsAllowed (set_conversations_call cs) s = (id : String) → occurrences id (ids_of cs) ≤ 1
IsAllowed (add_call c) s = has c.id s.conversations ≡ false
IsAllowed _ s = Unit

abbrev pub handle_call : {S : Type 0} → Call S → Conversations S → Conversations S
handle_call (set_conversations_call cs) s = set_conversations cs s
handle_call (select_call id) s = set_current_conversation_id id s
handle_call (search_call query) s = set_search_query query s
handle_call (add_call c) s = add_conversation c s
handle_call (update_call now id u) s = update_conversation now id u s
handle_call (remove_call id) s = remove_conversation id s

-- Every call that replaces the list by conversations with different identifiers, adds one with a new
-- identifier, or selects, searches, updates or removes, keeps the list and the table together: each
-- conversation is listed exactly once, and no identifier without a conversation is listed.
pub handle_call-IsListed :
    {S : Type 0} (call : Call S) (s : Conversations S)
    → IsAllowed call s
    → IsListed s
    → IsListed (handle_call call s)
handle_call-IsListed (set_conversations_call cs) s ok h = set_conversations-IsListed cs s ok
handle_call-IsListed (select_call id) s ok h = h
handle_call-IsListed (search_call query) s ok h = h
handle_call-IsListed (add_call c) s ok h = add_conversation-IsListed c s ok h
handle_call-IsListed (update_call now id u) s ok h = update_conversation-IsListed now id u s h
handle_call-IsListed (remove_call id) s ok h = remove_conversation-IsListed id s h
