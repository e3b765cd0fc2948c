-- ===== src/Coordination/Remnants/Others.antt =====
-- What an aborted stream of coordination.ts leaves of the other conversations.
use musaed.Base.{
  ℕ, String, Text, false, Option, none, some, [], ◌∷◌, ◌≡◌, ◌≢◌, refl, sym, ◌∙◌, arith, subst, ap,
  inl, inr, append-nil, if_split, if_either, if◌then◌else◌,
}
use musaed.Base.Dict.{Dict, get, has, IsDict, get-set_ne, get-delete_ne, get-delete_self}
use musaed.Message.{given_or}
use musaed.Store.Streaming
use musaed.Store.Streaming.{StreamingState, Flushed, append_token, flush_to_conversation}
use musaed.Store.Streaming.Laws.{buffered}
use musaed.Coalescer.{PendingBatch, flush_each, drain_pending_token_batch}
use musaed.Coordination.{
  App, Transition, abort, drain, flush_and_stop, take_flushed, write_flushed, tear_down,
  clear_stream_action, settle, is_stale, resolve_stream, stop_stream, stop_transitions,
  update_last_message_action,
}
use musaed.Coordination.Drain.{buffered-drain}
use musaed.Coordination.Streams.{running, IsRegistered}
use musaed.Coordination.Delivery.{unseen}
use musaed.Coordination.Remnants.{
  IsTied, left, marked, marked_cases, streaming-flush_and_stop, streaming-resolve_stream,
}

-- What the store holds of a conversation beside its stream is the same in both.
abbrev Agree : String → StreamingState → StreamingState → Type 0
Agree d s t =
    (get d t.live_content ≡ get d s.live_content)
    × (get d t.pending_metrics ≡ get d s.pending_metrics)
    × (get d t.flushed_streams ≡ get d s.flushed_streams)

marked-Agree :
    (c d : String) (s : StreamingState) → d ≢ c → Agree d s (marked c (flush_to_conversation c s))
marked-Agree c d s ne = elim (marked_cases c s) [
  | inl e ↦ subst (Agree d s) (sym e) (refl, refl, refl)
  | inr (l, e) ↦ subst (Agree d s) (sym e) (
    get-delete_ne c d s.live_content ne,
    get-delete_ne c d s.pending_metrics ne,
    get-set_ne c d tt s.flushed_streams ne,
  )
]

tear_down-Agree : (c d : String) (a : App) → d ≢ c → Agree d a.streaming (tear_down c a).streaming
unfolding tear_down clear_stream_action Streaming.stop_stream Streaming.clear_stream
tear_down-Agree c d a ne = (
  get-delete_ne c d a.streaming.live_content ne,
  get-delete_ne c d a.streaming.pending_metrics ne,
  get-delete_ne c d a.streaming.flushed_streams ne,
)

-- A drain writes live content alone.
abbrev Counts : StreamingState → StreamingState → Type 0
Counts s t = (t.pending_metrics ≡ s.pending_metrics) × (t.flushed_streams ≡ s.flushed_streams)

append_token-Counts :
    (c request : String) (token : Text) (s : StreamingState)
    → Counts s (append_token c token request s)
unfolding append_token
append_token-Counts c request token s = (ground arith, ground arith)

flush_each-Counts :
    (t : Dict PendingBatch) (s : StreamingState) → Counts s (flush_each append_token t s)
unfolding flush_each
flush_each-Counts [] s = (refl, refl)
flush_each-Counts ((c, b) ∷ t) s =
    let (m, f) = append_token-Counts c b.request_id b.text s in
    let (n, g) = flush_each-Counts t (append_token c b.text b.request_id s) in (n ∙ m, g ∙ f)

drain-Counts : (a : App) → IsRegistered a → Counts a.streaming (drain a).streaming
unfolding drain drain_pending_token_batch
drain-Counts a r = rw r (flush_each-Counts a.coalescer.pending_batches a.streaming)

-- Counts and marks are as before, and so is what was received and not shown, in the store or waiting.
pub record Untouched (d : String) (a b : App) : Type 0 where
  pub counts : get d b.streaming.pending_metrics ≡ get d a.streaming.pending_metrics
  pub marks : get d b.streaming.flushed_streams ≡ get d a.streaming.flushed_streams
  pub received : unseen d b ≡ unseen d a

pending-write_flushed :
    (now : ℕ) (c : String) (o : Option Flushed) (a : App)
    → (write_flushed now c o a).coalescer ≡ a.coalescer
unfolding write_flushed update_last_message_action
pending-write_flushed now c none a = refl
pending-write_flushed now c (some f) a = refl

-- A flush drains the coalescer.
pending-flush_and_stop :
    (now : ℕ) (c : String) (expected : Option String) (a : App)
    → is_stale c expected a.streaming ≡ false
    → (flush_and_stop now c expected a).coalescer.pending_batches ≡ []
unfolding flush_and_stop take_flushed drain drain_pending_token_batch
pending-flush_and_stop now c expected a e =
    rw (e, flush_and_stop)
      (ap (λ k. k.pending_batches)
        (pending-write_flushed now c (take_flushed now c (drain a)).1
          (take_flushed now c (drain a)).0))

unseen_drained :
    (d : String) (b : App) → b.coalescer.pending_batches ≡ [] → unseen d b ≡ buffered d b.streaming
unfolding get
unseen_drained d b e = rw e (append-nil (buffered d b.streaming))

-- An abort past its guards: the batches are drained, and then one conversation is cleared.
resolve_stream-Untouched :
    (now : ℕ) (c d : String) (expected : Option String) (a : App)
    → IsRegistered a
    → IsDict a.coalescer.pending_batches
    → is_stale c expected a.streaming ≡ false
    → d ≢ c
    → Untouched d a (resolve_stream now c (stop_transitions abort) expected a)
unfolding resolve_stream settle tear_down clear_stream_action update_last_message_action
resolve_stream-Untouched now c d expected a r k e ne =
    let b = flush_and_stop now c expected a in
    let (live, counts, marks) = marked-Agree c d (drain a).streaming ne in
    let (live', counts', marks') = tear_down-Agree c d b ne in
    let (m, f) = drain-Counts a r in
    let flushed = streaming-flush_and_stop now c expected a e in
    record {
      counts = counts' ∙ ap (λ s. get d s.pending_metrics) flushed ∙ counts ∙ ap (get d) m;
      marks = marks' ∙ ap (λ s. get d s.flushed_streams) flushed ∙ marks ∙ ap (get d) f;
      received =
          unseen_drained d (resolve_stream now c (stop_transitions abort) expected a)
            (pending-flush_and_stop now c expected a e)
          ∙ ap (λ o. given_or o []) (live' ∙ ap (λ s. get d s.live_content) flushed ∙ live)
          ∙ buffered-drain a r d k;
    }

-- Aborting the stream of one conversation drops nothing of another.
pub stop_stream-Untouched :
    (now : ℕ) (c d : String) (expected : Option String) (a : App)
    → IsRegistered a
    → IsDict a.coalescer.pending_batches
    → d ≢ c
    → Untouched d a (stop_stream now c abort expected a)
unfolding stop_stream
stop_stream-Untouched now c d expected a r k ne =
    let same : Untouched d a a = record { counts = refl; marks = refl; received = refl } in
    let resolved = resolve_stream now c (stop_transitions abort) expected a in
    if_split (Untouched d a) (is_stale c expected a.streaming) a
      (if has c (running a) then resolved else a) (λ _. same)
      (λ e.
        if_either (Untouched d a) (has c (running a)) resolved a
          (resolve_stream-Untouched now c d expected a r k e ne) same)

tear_down-left : (c : String) (a : App) → left c (tear_down c a).streaming ≡ false
unfolding tear_down clear_stream_action Streaming.stop_stream Streaming.clear_stream
tear_down-left c a = ground (
  arith,
  get-delete_self c a.streaming.live_content,
  get-delete_self c a.streaming.pending_metrics,
  get-delete_self c a.streaming.flushed_streams,
)

resolve_stream-left :
    (now : ℕ) (c : String) (t : Transition) (expected : Option String) (a : App)
    → left c (resolve_stream now c t expected a).streaming ≡ false
resolve_stream-left now c t expected a =
    ap (left c) (streaming-resolve_stream now c t expected a)
    ∙ tear_down-left c (if t.flush then flush_and_stop now c expected a else a)

-- An abort of the stream that runs leaves nothing of its conversation, where none is left of those
-- that do not stream.
pub abort-left :
    (now : ℕ) (c : String) (a : App)
    → IsTied a.streaming
    → left c (stop_stream now c abort (get c (running a)) a).streaming ≡ false
unfolding stop_stream is_stale
abort-left now c a h = go (get c (running a)) refl
  where
    go :
        (o : Option String)
        → get c (running a) ≡ o
        → left c (stop_stream now c abort o a).streaming ≡ false
    go none e = ground (arith, e, h c)
    go (some r) e =
        let resolved = resolve_stream now c (stop_transitions abort) (some r) a in
        let gone : App → Type 0 = λ b. left c b.streaming ≡ false in
        if_split gone (is_stale c (some r) a.streaming) a
          (if has c (running a) then resolved else a) (λ stale. absurd (ground (arith, e, stale)))
          (λ _.
            if_split gone (has c (running a)) resolved a
              (λ _. resolve_stream-left now c (stop_transitions abort) (some r) a)
              (λ off. absurd (ground (arith, e, off))))
