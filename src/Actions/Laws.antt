-- ===== src/Actions/Laws.antt =====
-- What is left of a conversation that was deleted, and how one is created.
use musaed.Base.{
  ℕ, String, Bool, true, false, Option, none, some, [], ◌∷◌, ◌≡◌, refl, ◌∙◌, arith, ite,
  text_discrete, is_empty,
}
use musaed.Coordination.Remnants.{left, IsTied, stop_stream-IsTied}
use musaed.Coordination.Remnants.Others.{Untouched}
use musaed.Base.Dict.{Dict, get, has, IsDict}
use musaed.Message.{given_or}
use musaed.Store.Conversations.{Metadata, Conversations}
use musaed.Store.Conversations.Listed.{occurrences, IsListed}
use musaed.Coordination.{App, abort, stop_stream, is_stale}
use musaed.Coordination.Streams.{running}
use musaed.Coordination.Stop.{get-running-stop_stream}
use musaed.Coordination.Delivery.{shown}
use musaed.Coordination.Events.{stop, handle}
use musaed.Coordination.Flag.{IsSound, handle-IsSound}
use musaed.Actions.{Session, put_first, abort_all, create_conversation, clear_all_conversations}

-- Whether the conversation is the selected one.
abbrev pub selects : {S : Type 0} → String → Conversations S → Bool
selects d s = elim s.current_conversation_id [
  | none ↦ false
  | some c ↦ ite (text_discrete c d) true false
]

-- Nothing of the conversation is left in any store, and nothing of another has changed: its stream,
-- its messages, its metadata, its place and its selection are as they were, and so are the counts
-- and the mark of its stream and all that it has received and not shown.
pub record Deleted {S : Type 0} (id : String) (s t : Session S) : Type 0 where
  pub streams :
      (d : String) → get d (running t.app) ≡ ite (text_discrete d id) none (get d (running s.app))
  pub messages : (d : String) → shown d t.app ≡ ite (text_discrete d id) [] (shown d s.app)
  pub metadata :
      (d : String)
      → get d t.conversations.conversations
        ≡ ite (text_discrete d id) none (get d s.conversations.conversations)
  pub listing :
      (d : String)
      → occurrences d t.conversations.conversation_ids
        ≡ ite (text_discrete d id) 0 (occurrences d s.conversations.conversation_ids)
  pub selection :
      (d : String)
      → selects d t.conversations ≡ ite (text_discrete d id) false (selects d s.conversations)
  pub remnants : left id t.app.streaming ≡ false
  pub others : (d : String) → ite (text_discrete d id) Unit (Untouched d s.app t.app)

is_empty_of_gets : {V : Type 0} (t : Dict V) → ((d : String) → get d t ≡ none) → is_empty t ≡ true
unfolding get
is_empty_of_gets [] h = refl
is_empty_of_gets ((k, v) ∷ t) h = ground (arith, h k)

-- The streams that run are those of the list.
abbrev Covers : Dict String → App → Type 0
Covers ts a = (d : String) → get d (running a) ≡ get d ts

stop-IsSound :
    (now : ℕ) (c : String) (o : Option String) (a : App)
    → IsSound a
    → IsSound (stop_stream now c abort o a)
unfolding handle
stop-IsSound now c o a h = handle-IsSound now (stop c abort o) a h

stop-Covers :
    (now : ℕ) (c r : String) (ts : Dict String) (a : App)
    → IsSound a
    → IsDict ((c, r) ∷ ts)
    → Covers ((c, r) ∷ ts) a
    → Covers ts (stop_stream now c abort (some r) a)
unfolding get is_stale
stop-Covers now c r ts a h k covers d =
    ground (
      arith,
      get-running-stop_stream now c d abort (some r) a h.registered,
      covers c,
      covers d,
      k.0,
    )

abort_all-Covers :
    (now : ℕ) (ts : Dict String) (a : App)
    → IsSound a
    → IsTied a.streaming
    → IsDict ts
    → Covers ts a
    → IsSound (abort_all now ts a)
      × IsTied (abort_all now ts a).streaming
      × Covers [] (abort_all now ts a)
unfolding abort_all
abort_all-Covers now [] a h tied k covers = (h, tied, covers)
abort_all-Covers now ((c, r) ∷ ts) a h tied k covers =
    abort_all-Covers now ts (stop_stream now c abort (some r) a) (stop-IsSound now c (some r) a h)
      (stop_stream-IsTied now c abort (some r) a h.registered tied) k.1
      (stop-Covers now c r ts a h k covers)

left_idle :
    (d : String) (a : App)
    → IsTied a.streaming
    → get d (running a) ≡ none
    → left d a.streaming ≡ false
left_idle d a tied e = ground (arith, tied d, e)

module _ {S : Type 0} where
  -- No stream is left, no live content, counts or mark of one, no message and no conversation.
  pub record Cleared (t : Session S) : Type 0 where
    pub no_streams : (d : String) → get d (running t.app) ≡ none
    pub no_remnants : (d : String) → left d t.app.streaming ≡ false
    pub not_streaming : t.app.ui.is_streaming ≡ false
    pub no_messages : t.app.messages ≡ []
    pub no_conversations : t.conversations.conversations ≡ []
    pub no_list : t.conversations.conversation_ids ≡ []
    pub no_selection : t.conversations.current_conversation_id ≡ none

  -- With sound stores, in which no conversation has two streams and live content, counts and marks
  -- are those of conversations that stream, clearing ends the stream of every conversation, under the
  -- request that owns it. No store keeps anything of a conversation: no stream, live content, counts
  -- or mark, no message, no metadata, no place in the list and no selection.
  pub clear_all_conversations-Cleared :
      (now : ℕ) (s : Session S)
      → IsSound s.app
      → IsTied s.app.streaming
      → IsDict (running s.app)
      → Cleared (clear_all_conversations now s)
  unfolding clear_all_conversations get
  clear_all_conversations-Cleared now s h tied k =
      let (sound, kept, covers) = abort_all-Covers now (running s.app) s.app h tied k (λ d. refl) in
      record {
        no_streams = covers;
        no_remnants = λ d. left_idle d (abort_all now (running s.app) s.app) kept (covers d);
        not_streaming =
            sound.truthful
            ∙ rw (is_empty_of_gets (running (abort_all now (running s.app) s.app)) covers) refl;
        no_messages = refl;
        no_conversations = refl;
        no_list = refl;
        no_selection = refl;
      }

  -- Where each conversation is listed once and the identifier is new, a conversation is created under
  -- the identifier that the backend answers with, or its own when there is no answer: each conversation
  -- is again listed once, and the new one is selected. It is stored as the frontend made it, so its
  -- field `id` is the frontend's also where the backend has answered with another.
  pub create_conversation-IsListed :
      (c : Metadata S) (created : Option String) (s : Session S)
      → IsListed s.conversations
      → has (given_or created c.id) s.conversations.conversations ≡ false
      → IsListed (create_conversation c created s).conversations
        × ((create_conversation c created s).conversations.current_conversation_id
            ≡ some (given_or created c.id))
        × (get (given_or created c.id) (create_conversation c created s).conversations.conversations
            ≡ some c)
  unfolding create_conversation put_first get
  create_conversation-IsListed c created s h new =
      (λ j. ground (arith, h j, new), refl, ground (arith, new))
