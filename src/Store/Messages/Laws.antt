-- ===== src/Store/Messages/Laws.antt =====
-- What the actions of message-store.ts do to each conversation.
use musaed.Base.{String, Bool, Option, none, some, List, [], ◌∷◌, ◌++◌}
use musaed.Base.{ite, text_discrete, length, ◌≡◌, refl, ap, ◌≢◌, arith}
use musaed.Base.{suc}
use musaed.Base.Dict.{get, get-set, get-delete}
use musaed.Message.{Message, Patch}
use musaed.Store.Messages.{
  MessageState, messages_of, add_messages, next_content, write_last, update_last_message,
  remove_message, without, clear_messages,
}

pub write_last-concat :
    (replace : Bool) (u : Patch) (ms : List Message) (m : Message)
    → write_last replace u (ms ++ m ∷ []) ≡ ms ++ next_content replace m u ∷ []
unfolding write_last
write_last-concat replace u [] m = refl
write_last-concat replace u (x ∷ []) m = refl
write_last-concat replace u (x ∷ y ∷ ms) m = ap (◌∷◌ x) (write_last-concat replace u (y ∷ ms) m)

pub length-write_last :
    (replace : Bool) (u : Patch) (ms : List Message) → length (write_last replace u ms) ≡ length ms
unfolding write_last
length-write_last replace u [] = refl
length-write_last replace u (x ∷ []) = refl
length-write_last replace u (x ∷ y ∷ ms) = ap suc (length-write_last replace u (y ∷ ms))

-- The update reaches the named conversation, and no other.
messages_of-update_last_message :
    (c d : String) (u : Patch) (replace : Bool) (s : MessageState)
    → messages_of d (update_last_message c u replace s)
      ≡ ite (text_discrete d c) (write_last replace u (messages_of c s)) (messages_of d s)
unfolding update_last_message write_last
messages_of-update_last_message c d u replace s = go (get c s) refl
  where
    go :
        (o : Option (List Message))
        → get c s ≡ o
        → messages_of d (update_last_message c u replace s)
          ≡ ite (text_discrete d c) (write_last replace u (messages_of c s)) (messages_of d s)
    go none e = ground arith
    go (some []) e = ground arith
    go (some (m ∷ ms)) e = ground (arith, get-set c d (write_last replace u (m ∷ ms)) s)

pub messages_of-add_messages :
    (c d : String) (new : List Message) (s : MessageState)
    → messages_of d (add_messages c new s)
      ≡ ite (text_discrete d c) (messages_of c s ++ new) (messages_of d s)
unfolding add_messages
messages_of-add_messages c d new s = ground (arith, get-set c d (messages_of c s ++ new) s)

pub messages_of-remove_message :
    (c d id : String) (s : MessageState)
    → messages_of d (remove_message c id s)
      ≡ ite (text_discrete d c) (without id (messages_of c s)) (messages_of d s)
unfolding remove_message
messages_of-remove_message c d id s = go (get c s) refl
  where
    go :
        (o : Option (List Message))
        → get c s ≡ o
        → messages_of d (remove_message c id s)
          ≡ ite (text_discrete d c) (without id (messages_of c s)) (messages_of d s)
    go none e = ground arith
    go (some ms) e = ground (arith, get-set c d (without id ms) s)

pub messages_of-clear_messages :
    (c d : String) (s : MessageState)
    → messages_of d (clear_messages c s) ≡ ite (text_discrete d c) [] (messages_of d s)
unfolding clear_messages
messages_of-clear_messages c d s = ground (arith, get-delete c d s)

pub update_self :
    (c : String) (u : Patch) (replace : Bool) (s : MessageState)
    → messages_of c (update_last_message c u replace s) ≡ write_last replace u (messages_of c s)
update_self c u replace s = ground (arith, messages_of-update_last_message c c u replace s)

pub update_ne :
    (c d : String) (u : Patch) (replace : Bool) (s : MessageState)
    → d ≢ c
    → messages_of d (update_last_message c u replace s) ≡ messages_of d s
update_ne c d u replace s ne = ground (arith, messages_of-update_last_message c d u replace s)
