-- ===== src/Titles/Kept.antt =====
-- What the user has named keeps its name, in useAutoTitle.ts.
use musaed.Base.{
  ℕ, String, Text, false, Option, none, some, List, [], ◌∷◌, ◌≡◌, ◌≢◌, inl, inr, refl, ◌∙◌, arith,
  text_discrete, All,
}
use musaed.Base.Dict.{get, get-set, get-delete}
use musaed.Message.{Message}
use musaed.Store.Conversations.{
  Metadata, Updates, Conversations, updated, add_conversation, update_conversation,
  remove_conversation,
}
use musaed.Store.Conversations.Listed.{
  set_conversations_call, select_call, search_call, add_call, update_call, remove_call,
}
use musaed.Titles.{
  is_default_title, TitleKey, Titles, begin_title, finish_title, look_up, max_retry_attempts, Event,
  begins, answers, changes, handle_title, run_titles,
}
use musaed.Titles.Runs.{Retitled, finish_title-Retitled}

module _ {S : Type 0} where
  begin_title-conversations :
      (id : String) (found : Option (Metadata S)) (messages : List Message) (s : Titles S)
      → (begin_title id found messages s).conversations ≡ s.conversations
  unfolding begin_title
  begin_title-conversations id none messages s = refl
  begin_title-conversations id (some c) messages s = ground arith

  -- The events that are not calls of the store on the conversation or on all of them.
  abbrev pub Leaves : String → Event S → Type 0
  Leaves d (changes (set_conversations_call cs)) = ⊥
  Leaves d (changes (add_call c)) = d ≢ c.id
  Leaves d (changes (update_call now id u)) = d ≢ id
  Leaves d (changes (remove_call id)) = d ≢ id
  Leaves d _ = Unit

  update_conversation-get_ne :
      (now : ℕ) (id d : String) (u : Updates S) (cs : Conversations S)
      → d ≢ id
      → get d (update_conversation now id u cs).conversations ≡ get d cs.conversations
  unfolding update_conversation
  update_conversation-get_ne now id d u cs ne = go (get id cs.conversations) refl
    where
      go :
          (o : Option (Metadata S))
          → get id cs.conversations ≡ o
          → get d (update_conversation now id u cs).conversations ≡ get d cs.conversations
      go none e = ground (arith, e)
      go (some c) e = ground (arith, e, get-set id d (updated now u c) cs.conversations)

  kept_by_title :
      (now : ℕ) (k : TitleKey) (answer : Option Text) (d : String) (c : Metadata S)
      (before after : Conversations S)
      → get d before.conversations ≡ some c
      → is_default_title c.title ≡ false
      → Retitled now k answer before after
      → get d after.conversations ≡ some c
  kept_by_title now k answer d c before after h custom r = elim (text_discrete d k.id) [
    | yes e ↦ absurd (ground (arith, r.was, r.untouched, h, custom, e))
    | no ne ↦ ground (arith, r.becomes d, h, ne)
  ]

  handle_title-Kept :
      (e : Event S) (s : Titles S) (d : String) (c : Metadata S)
      → get d s.conversations.conversations ≡ some c
      → is_default_title c.title ≡ false
      → Leaves d e
      → get d (handle_title e s).conversations.conversations ≡ some c
  unfolding handle_title add_conversation remove_conversation
  handle_title-Kept (begins id table messages) s d c h custom w =
      rw (begin_title-conversations id (look_up max_retry_attempts 0 id table) messages s) h
  handle_title-Kept (answers now k answer) s d c h custom w =
      elim (finish_title-Retitled now k answer s).1 [
        | inl same ↦ same d ∙ h
        | inr r ↦
            kept_by_title now k answer d c s.conversations
              (finish_title now k answer s).conversations h custom r
      ]
  handle_title-Kept (changes (set_conversations_call cs)) s d c h custom w = absurd w
  handle_title-Kept (changes (select_call id)) s d c h custom w = h
  handle_title-Kept (changes (search_call query)) s d c h custom w = h
  handle_title-Kept (changes (add_call a)) s d c h custom w =
      ground (arith, get-set a.id d a s.conversations.conversations, h, w)
  handle_title-Kept (changes (update_call now id u)) s d c h custom w =
      update_conversation-get_ne now id d u s.conversations w ∙ h
  handle_title-Kept (changes (remove_call id)) s d c h custom w =
      ground (arith, get-delete id d s.conversations.conversations, h, w)

  -- A title that is not one of the first titles is never overwritten by a title of the model, whatever
  -- requests are under way and whatever other conversations do: while no call of the store changes
  -- the conversation, it stays as it is.
  pub run_titles_keep :
      (es : List (Event S)) (s : Titles S) (d : String) (c : Metadata S)
      → get d s.conversations.conversations ≡ some c
      → is_default_title c.title ≡ false
      → All (Leaves d) es
      → get d (run_titles es s).conversations.conversations ≡ some c
  unfolding run_titles
  run_titles_keep [] s d c h custom w = h
  run_titles_keep (e ∷ es) s d c h custom (w, ws) =
      run_titles_keep es (handle_title e s) d c (handle_title-Kept e s d c h custom w) custom ws
