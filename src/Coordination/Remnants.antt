-- ===== src/Coordination/Remnants.antt =====
-- What streaming-store.ts keeps of a conversation beside its stream, and that the calls of
-- coordination.ts leave none of it where no stream runs.
pub mod Others
pub mod Events
use musaed.Base.{
  ℕ, String, Text, Bool, true, false, Option, none, some, List, [], ◌∷◌, ◌++◌, Option-cases, not,
  ◌||◌, ◌&&◌, ite, text_discrete, ◌≡◌, ◌≢◌, ◌⊎◌, refl, sym, ◌∙◌, arith, subst, ap, Bool-cases, inl,
  inr, if◌then◌else◌, if_either,
}
use musaed.Base.Dict.{Dict, get, set, delete, has, get-set, get-set_self, get-delete, delete_absent}
use musaed.Message.{Metrics, no_metrics, given_or}
use musaed.Store.Streaming
use musaed.Store.Streaming.{
  StreamingState, Flushed, owns, append_token, set_pending_metrics, flush_to_conversation,
  mark_flushed,
}
use musaed.Coalescer.{PendingBatch, flush_each, drain_pending_token_batch}
use musaed.Coordination.{
  App, StopReason, Transition, drain, take_flushed, write_flushed, flush_and_stop, tear_down,
  clear_stream_action, mark_stopped, settle, is_stale, resolve_stream, stop_stream,
  stop_transitions, update_last_message_action,
}
use musaed.Coordination.Streams.{running, IsRegistered}

-- The store holds live content, counts or the mark of a flush of the conversation.
abbrev pub left : String → StreamingState → Bool
left d s = has d s.live_content || has d s.pending_metrics || has d s.flushed_streams

-- It holds them of conversations that stream, and of no other.
abbrev pub IsTied : StreamingState → Type 0
IsTied s = (d : String) → (left d s && not (has d s.active_streams)) ≡ false

pub append_token-IsTied :
    (c request : String) (token : Text) (s : StreamingState)
    → IsTied s
    → IsTied (append_token c token request s)
unfolding append_token owns
append_token-IsTied c request token s h d =
    ground (arith, get-set c d (given_or (get c s.live_content) [] ++ token) s.live_content, h d)

pub flush_each-IsTied :
    (t : Dict PendingBatch) (s : StreamingState) → IsTied s → IsTied (flush_each append_token t s)
unfolding flush_each
flush_each-IsTied [] s h = h
flush_each-IsTied ((c, b) ∷ t) s h =
    flush_each-IsTied t (append_token c b.text b.request_id s)
      (append_token-IsTied c b.request_id b.text s h)

drain-IsTied : (a : App) → IsRegistered a → IsTied a.streaming → IsTied (drain a).streaming
unfolding drain drain_pending_token_batch
drain-IsTied a r h = rw r (flush_each-IsTied a.coalescer.pending_batches a.streaming h)

-- A flush, and the mark that follows where something was handed out.
abbrev marked : String → StreamingState × Option Flushed → StreamingState
marked c (s, none) = s
marked c (s, some f) = mark_flushed c s

-- The store after a flush that handed something out.
abbrev taken : String → StreamingState → StreamingState
taken c s = record s {
  live_content = delete c s.live_content;
  pending_metrics = delete c s.pending_metrics;
  flushed_streams = set c tt s.flushed_streams;
}

mark_again :
    (c : String) (s : StreamingState) → has c s.flushed_streams ≡ true → mark_flushed c s ≡ s
unfolding mark_flushed
mark_again c s h = ground (arith, h)

-- A flush hands out nothing and changes nothing, or takes what is left.
flush_cases :
    (c : String) (s : StreamingState)
    → (flush_to_conversation c s ≡ (s, none))
      ⊎ ((left c s ≡ true) × (f : Flushed) × (flush_to_conversation c s ≡ (taken c s, some f)))
unfolding flush_to_conversation
flush_cases c s = go (get c s.live_content) (get c s.pending_metrics) refl refl
  where
    go :
        (o : Option Text) (m : Option Metrics)
        → get c s.live_content ≡ o
        → get c s.pending_metrics ≡ m
        → (flush_to_conversation c s ≡ (s, none))
          ⊎ ((left c s ≡ true) × (f : Flushed) × (flush_to_conversation c s ≡ (taken c s, some f)))
    go (some x) m e f = inr (
      rw (e, has) refl,
      record { content = x; metrics = given_or (get c s.pending_metrics) no_metrics },
      rw (e, flush_to_conversation) refl,
    )
    go none (some m) e f = inr (
      rw (e, f, has) refl,
      record { content = []; metrics = m },
      rw (e, f, delete_absent c s.live_content e, flush_to_conversation) refl,
    )
    go none none e f = inl (rw (e, f, flush_to_conversation) refl)

marked_cases :
    (c : String) (s : StreamingState)
    → (marked c (flush_to_conversation c s) ≡ s)
      ⊎ ((left c s ≡ true) × (marked c (flush_to_conversation c s) ≡ taken c s))
marked_cases c s = elim (flush_cases c s) [
  | inl e ↦ inl (ap (marked c) e)
  | inr (l, f, e) ↦ inr (
    l,
    ap (marked c) e ∙ mark_again c (taken c s) (rw (get-set_self c tt s.flushed_streams, has) refl),
  )
]

taken-IsTied : (c : String) (s : StreamingState) → left c s ≡ true → IsTied s → IsTied (taken c s)
taken-IsTied c s l h d = ground (
  arith,
  l,
  get-set c d tt s.flushed_streams,
  get-delete c d s.live_content,
  get-delete c d s.pending_metrics,
  h c,
  h d,
)

marked-IsTied :
    (c : String) (s : StreamingState) → IsTied s → IsTied (marked c (flush_to_conversation c s))
marked-IsTied c s h = elim (marked_cases c s) [
  | inl e ↦ subst IsTied (sym e) h
  | inr (l, e) ↦ subst IsTied (sym e) (taken-IsTied c s l h)
]

streaming-write_flushed :
    (now : ℕ) (c : String) (o : Option Flushed) (a : App)
    → (write_flushed now c o a).streaming ≡ marked c (a.streaming, o)
unfolding write_flushed update_last_message_action
streaming-write_flushed now c none a = refl
streaming-write_flushed now c (some f) a = refl

streaming-flush_and_stop :
    (now : ℕ) (c : String) (expected : Option String) (a : App)
    → is_stale c expected a.streaming ≡ false
    → (flush_and_stop now c expected a).streaming
      ≡ marked c (flush_to_conversation c (drain a).streaming)
unfolding flush_and_stop take_flushed
streaming-flush_and_stop now c expected a e = rw e (
    streaming-write_flushed now c (take_flushed now c (drain a)).1 (take_flushed now c (drain a)).0)

tear_down-IsTied : (c : String) (a : App) → IsTied a.streaming → IsTied (tear_down c a).streaming
unfolding tear_down clear_stream_action Streaming.stop_stream Streaming.clear_stream
tear_down-IsTied c a h d = ground (
  arith,
  get-delete c d a.streaming.live_content,
  get-delete c d a.streaming.pending_metrics,
  get-delete c d a.streaming.flushed_streams,
  get-delete c d a.streaming.active_streams,
  get-delete c d (Streaming.stop_stream c a.streaming).active_streams,
  h d,
)

streaming-mark_stopped :
    (now : ℕ) (c : String) (o : Option Bool) (a : App)
    → (mark_stopped now c o a).streaming ≡ a.streaming
unfolding update_last_message_action
streaming-mark_stopped now c none a = refl
streaming-mark_stopped now c (some b) a = refl

streaming-resolve_stream :
    (now : ℕ) (c : String) (t : Transition) (expected : Option String) (a : App)
    → (resolve_stream now c t expected a).streaming
      ≡ (tear_down c (if t.flush then flush_and_stop now c expected a else a)).streaming
unfolding resolve_stream settle
streaming-resolve_stream now c t expected a = streaming-mark_stopped now c t.stopped_marker _

pub flush_and_stop-IsTied :
    (now : ℕ) (c : String) (expected : Option String) (a : App)
    → IsRegistered a
    → IsTied a.streaming
    → IsTied (flush_and_stop now c expected a).streaming
unfolding flush_and_stop
flush_and_stop-IsTied now c expected a r h = elim (Bool-cases (is_stale c expected a.streaming)) [
  | inl e ↦ rw (e, flush_and_stop) h
  | inr e ↦
      subst IsTied (sym (streaming-flush_and_stop now c expected a e))
        (marked-IsTied c (drain a).streaming (drain-IsTied a r h))
]

resolve_stream-IsTied :
    (now : ℕ) (c : String) (t : Transition) (expected : Option String) (a : App)
    → IsRegistered a
    → IsTied a.streaming
    → IsTied (resolve_stream now c t expected a).streaming
resolve_stream-IsTied now c t expected a r h =
    let flushed = if t.flush then flush_and_stop now c expected a else a in
    subst IsTied (sym (streaming-resolve_stream now c t expected a)) (
      tear_down-IsTied c flushed (
        if_either (λ b. IsTied b.streaming) t.flush _ a (flush_and_stop-IsTied now c expected a r h)
          h))

-- `stopStream` leaves nothing of a conversation that does not stream.
pub stop_stream-IsTied :
    (now : ℕ) (c : String) (reason : StopReason) (expected : Option String) (a : App)
    → IsRegistered a
    → IsTied a.streaming
    → IsTied (stop_stream now c reason expected a).streaming
unfolding stop_stream
stop_stream-IsTied now c reason expected a r h =
    let resolved = resolve_stream now c (stop_transitions reason) expected a in
    if_either (λ b. IsTied b.streaming) (is_stale c expected a.streaming) a _ h
      (if_either (λ b. IsTied b.streaming) (has c (running a)) resolved a
        (resolve_stream-IsTied now c (stop_transitions reason) expected a r h) h)
