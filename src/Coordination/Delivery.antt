-- ===== src/Coordination/Delivery.antt =====
-- What `flushAndStop` and `stopStream` of coordination.ts write to the messages.
use musaed.Base.{ℕ, String, Text, Bool, true, false, Option, none, some, List, [], ◌∷◌, ◌++◌}
use musaed.Base.{◌≡◌, refl, sym, ap, ◌∙◌, arith}
use musaed.Base.{append-nil}
use musaed.Base.Dict.{has, IsDict}
use musaed.Message.{Message, Patch, no_patch, first_given}
use musaed.Store.Messages.{messages_of, write_last, next_content}
use musaed.Store.Messages.Laws.{update_self, write_last-concat}
use musaed.Store.Streaming.{Flushed, flush_to_conversation}
use musaed.Store.Streaming.Laws.{buffered}
use musaed.Coordination.{
  App, Transition, StopReason, stop_transitions, drain, take_flushed, write_flushed, final_patch,
  flush_and_stop, tear_down, clear_stream_action, mark_stopped, settle, resolve_stream, stop_stream,
  is_stale, update_last_message_action,
}
use musaed.Coordination.Drain.{waiting, buffered-drain}
use musaed.Coordination.Streams.{running, IsRegistered}
use musaed.Coordination.Stop.{resolves}

-- The messages of a conversation, as the interface shows them.
abbrev pub shown : String → App → List Message
shown c a = messages_of c a.messages

abbrev content_of : Option Flushed → Text
content_of none = []
content_of (some f) = f.content

-- The last message `m` gained a text, and its `stopped` flag is as given.
pub record Gained (m : Message) (text : Text) (stopped : Option Bool) (m' : Message) : Type 0 where
  pub same_id : m'.id ≡ m.id
  pub same_role : m'.role ≡ m.role
  pub same_request : m'.request_id ≡ m.request_id
  pub content : m'.content ≡ m.content ++ text
  pub stopped_flag : m'.stopped ≡ stopped

-- All messages but the last are as before, and the last gained a text.
abbrev pub Extends : List Message → Message → Text → Option Bool → List Message → Type 0
Extends ms m text stopped new = (m' : Message) × (new ≡ ms ++ m' ∷ []) × Gained m text stopped m'

shown-update :
    (now : ℕ) (c : String) (u : Patch) (a : App) (ms : List Message) (m : Message)
    → shown c a ≡ ms ++ m ∷ []
    → shown c (update_last_message_action now c u false a) ≡ ms ++ next_content false m u ∷ []
unfolding update_last_message_action
shown-update now c u a ms m e =
    update_self c u false a.messages ∙ ap (write_last false u) e ∙ write_last-concat false u ms m

content_of-take_flushed :
    (now : ℕ) (c : String) (a : App) → content_of (take_flushed now c a).1 ≡ buffered c a.streaming
unfolding take_flushed flush_to_conversation
content_of-take_flushed now c a = ground arith

write_flushed-Extends :
    (now : ℕ) (c : String) (o : Option Flushed) (a : App) (ms : List Message) (m : Message)
    → shown c a ≡ ms ++ m ∷ []
    → Extends ms m (content_of o) m.stopped (shown c (write_flushed now c o a))
unfolding write_flushed
write_flushed-Extends now c none a ms m e = (
  m,
  e,
  record {
    same_id = refl;
    same_role = refl;
    same_request = refl;
    content = sym (append-nil m.content);
    stopped_flag = refl;
  },
)
write_flushed-Extends now c (some f) a ms m e = (
  next_content false m (final_patch f),
  shown-update now c (final_patch f) a ms m e,
  record {
    same_id = refl;
    same_role = refl;
    same_request = refl;
    content = refl;
    stopped_flag = refl;
  },
)

mark_stopped-Extends :
    (now : ℕ) (c : String) (o : Option Bool) (a : App) (ms : List Message) (m : Message)
    → shown c a ≡ ms ++ m ∷ []
    → Extends ms m [] (first_given o m.stopped) (shown c (mark_stopped now c o a))
mark_stopped-Extends now c none a ms m e = (
  m,
  e,
  record {
    same_id = refl;
    same_role = refl;
    same_request = refl;
    content = sym (append-nil m.content);
    stopped_flag = refl;
  },
)
mark_stopped-Extends now c (some b) a ms m e =
    let u = record no_patch { stopped = some b } in
    (
      next_content false m u,
      shown-update now c u a ms m e,
      record {
        same_id = refl;
        same_role = refl;
        same_request = refl;
        content = refl;
        stopped_flag = refl;
      },
    )

-- What a conversation has received and not yet shown: flushed into the store, or waiting.
abbrev pub unseen : String → App → Text
unseen c a = buffered c a.streaming ++ waiting c a

-- `flushAndStop` appends to the last message all that the stream has received: what the streaming
-- store holds, and what waits in the coalescer for the next frame. No other message changes.
flush_and_stop-Extends :
    (now : ℕ) (c : String) (expected : Option String) (a : App) (ms : List Message) (m : Message)
    → IsRegistered a
    → IsDict a.coalescer.pending_batches
    → is_stale c expected a.streaming ≡ false
    → shown c a ≡ ms ++ m ∷ []
    → Extends ms m (unseen c a) m.stopped (shown c (flush_and_stop now c expected a))
unfolding flush_and_stop take_flushed drain
flush_and_stop-Extends now c expected a ms m r d fresh e =
    let o = (take_flushed now c (drain a)).1 in
    let b = (take_flushed now c (drain a)).0 in
    let (m', at, g) = write_flushed-Extends now c o b ms m e in
    rw fresh (
      m',
      at,
      record {
        same_id = g.same_id;
        same_role = g.same_role;
        same_request = g.same_request;
        content =
            g.content
            ∙ ap (◌++◌ m.content)
                (content_of-take_flushed now c (drain a) ∙ buffered-drain a r c d);
        stopped_flag = g.stopped_flag;
      },
    )

resolve_stream-Extends :
    (now : ℕ) (c : String) (t : Transition) (expected : Option String) (a : App) (ms : List Message)
    (m : Message)
    → IsRegistered a
    → IsDict a.coalescer.pending_batches
    → is_stale c expected a.streaming ≡ false
    → t.flush ≡ true
    → shown c a ≡ ms ++ m ∷ []
    → Extends ms m
        (unseen c a)
        (first_given t.stopped_marker m.stopped)
        (shown c (resolve_stream now c t expected a))
unfolding resolve_stream settle tear_down clear_stream_action
resolve_stream-Extends now c t expected a ms m r d fresh flushes e =
    let (m', at', g') = flush_and_stop-Extends now c expected a ms m r d fresh e in
    let b = tear_down c (flush_and_stop now c expected a) in
    let (m2, at2, g2) = mark_stopped-Extends now c t.stopped_marker b ms m' at' in
    rw flushes (
      m2,
      at2,
      record {
        same_id = g2.same_id ∙ g'.same_id;
        same_role = g2.same_role ∙ g'.same_role;
        same_request = g2.same_request ∙ g'.same_request;
        content = g2.content ∙ append-nil m'.content ∙ g'.content;
        stopped_flag = g2.stopped_flag ∙ ap (first_given t.stopped_marker) g'.stopped_flag;
      },
    )

-- A stream that a call resolves with a flush (`complete`, `abort`, `error`) leaves nothing behind:
-- the last message of the conversation gains, in order, all that the stream has received, and
-- carries the marker of the reason, which is `false` for `complete` and `true` for `abort`, and is
-- what it was for `error`. All other messages of the conversation are as before.
pub stop_stream-Extends :
    (now : ℕ) (c : String) (reason : StopReason) (expected : Option String) (a : App)
    (ms : List Message) (m : Message)
    → IsRegistered a
    → IsDict a.coalescer.pending_batches
    → resolves c expected a ≡ true
    → (stop_transitions reason).flush ≡ true
    → shown c a ≡ ms ++ m ∷ []
    → Extends ms m
        (unseen c a)
        (first_given (stop_transitions reason).stopped_marker m.stopped)
        (shown c (stop_stream now c reason expected a))
unfolding stop_stream
stop_stream-Extends now c reason expected a ms m r d ok flushes e =
    let fresh : is_stale c expected a.streaming ≡ false = ground arith in
    let here : has c (running a) ≡ true = ground arith in
    rw (fresh, here)
      (resolve_stream-Extends now c (stop_transitions reason) expected a ms m r d fresh flushes e)
