-- ===== src/Coordination/Flag.antt =====
-- The global `isStreaming` flag of coordination.ts, over every sequence of calls.
use musaed.Base.{ℕ, String, Text, Bool, true, Option, none, some, List, [], ◌∷◌, not}
use musaed.Base.{◌≡◌, refl, ◌∙◌, arith, Bool-cases, inl, inr, is_empty}
use musaed.Base.Dict.{get, has, is_empty-set, is_empty_of_get}
use musaed.Store.Streaming
use musaed.Store.Streaming.{
  StreamingState, Flushed, append_token, flush_to_conversation, set_pending_metrics,
}
use musaed.Store.Streaming.Laws.{active-append_token}
use musaed.Coalescer.{
  Coalescer, flush_pending_batches, buffer_token, schedule_flush, drain_pending_token_batch,
}
use musaed.Coalescer.Laws.{IsScheduled, buffer_token-IsScheduled, drain-IsScheduled}
use musaed.Coordination.{
  App, Transition, StopReason, stop_transitions, drain, take_flushed, write_flushed, flush_and_stop,
  tear_down, clear_stream_action, mark_stopped, settle, resolve_stream, stop_stream, is_stale,
  update_last_message_action, buffer, frame_tick, append_token_action, coordinate_start_stream,
}
use musaed.Coordination.Drain.{active-drain, active-flush_each}
use musaed.Coordination.Streams.{running, IsRegistered, running-flush_and_stop}
use musaed.Coordination.Events.{
  Event, token, frame, direct, counts, start, flush, stop, add, remove, clear, handle, run,
}

-- The flag is set exactly while some stream runs; the coalescer writes to the streaming store, and
-- forgets no batch.
pub record IsSound (a : App) : Type 0 where
  pub truthful : a.ui.is_streaming ≡ not (is_empty (running a))
  pub registered : IsRegistered a
  pub scheduled : IsScheduled a.coalescer

-- An operation that leaves the flag and the streams, and steps the coalescer soundly.
abbrev Same : App → App → Type 0
Same a b = (b.ui ≡ a.ui) × (running b ≡ running a) × IsRegistered b × IsScheduled b.coalescer

keep : (a b : App) → IsSound a → Same a b → IsSound b
keep a b h (u, r, f, s) = record { truthful = rw (u, r) h.truthful; registered = f; scheduled = s }

drain-Same : (a : App) → IsSound a → Same a (drain a)
unfolding drain drain_pending_token_batch
drain-Same a h =
    (refl, active-drain a h.registered, h.registered, drain-IsScheduled a.coalescer a.streaming)

write_flushed-Same :
    (now : ℕ) (c : String) (o : Option Flushed) (a : App)
    → ((write_flushed now c o a).ui ≡ a.ui) × ((write_flushed now c o a).coalescer ≡ a.coalescer)
unfolding write_flushed update_last_message_action
write_flushed-Same now c none a = (refl, refl)
write_flushed-Same now c (some f) a = (refl, refl)

flush_and_stop-Same :
    (now : ℕ) (c : String) (expected : Option String) (a : App)
    → IsSound a
    → Same a (flush_and_stop now c expected a)
unfolding flush_and_stop take_flushed
flush_and_stop-Same now c expected a h = elim (Bool-cases (is_stale c expected a.streaming)) [
  | inl e ↦ rw e (refl, refl, h.registered, h.scheduled)
  | inr e ↦
      let b = (take_flushed now c (drain a)).0 in
      let o = (take_flushed now c (drain a)).1 in
      let (u, k) = write_flushed-Same now c o b in
      let (du, _, dr, ds) = drain-Same a h in
      rw e
        (u ∙ du, rw e at (running-flush_and_stop now c expected a h.registered), rw k dr, rw k ds)
]

-- The flag after the end of `stopStream`, where some stream ran before.
settle_truthful :
    (now : ℕ) (a : App)
    → a.ui.is_streaming ≡ true
    → (settle now a).ui.is_streaming ≡ not (is_empty (running a))
unfolding settle
settle_truthful now a h = ground arith

mark_stopped-Same :
    (now : ℕ) (c : String) (o : Option Bool) (a : App)
    → ((mark_stopped now c o (tear_down c a)).ui ≡ a.ui)
      × ((mark_stopped now c o (tear_down c a)).coalescer ≡ a.coalescer)
unfolding tear_down clear_stream_action update_last_message_action
mark_stopped-Same now c none a = (refl, refl)
mark_stopped-Same now c (some b) a = (refl, refl)

settle-IsSound :
    (now : ℕ) (a : App)
    → a.ui.is_streaming ≡ true
    → IsRegistered a
    → IsScheduled a.coalescer
    → IsSound (settle now a)
unfolding settle
settle-IsSound now a u r s = record {
  truthful = settle_truthful now a u;
  registered = r;
  scheduled = s;
}

flag_set : (c : String) (a : App) → has c (running a) ≡ true → IsSound a → a.ui.is_streaming ≡ true
flag_set c a here h = go (get c (running a)) refl
  where
    go : (o : Option String) → get c (running a) ≡ o → a.ui.is_streaming ≡ true
    go none e = ground arith
    go (some r) e = rw (h.truthful, is_empty_of_get c r (running a) e)

finish-IsSound :
    (now : ℕ) (c : String) (o : Option Bool) (a b : App)
    → a.ui.is_streaming ≡ true
    → Same a b
    → IsSound (settle now (mark_stopped now c o (tear_down c b)))
finish-IsSound now c o a b on (u, _, r, s) =
    let (mu, mk) = mark_stopped-Same now c o b in
    settle-IsSound now _ (rw (mu, u) on) (rw mk r) (rw mk s)

resolve_stream-IsSound :
    (now : ℕ) (c : String) (t : Transition) (expected : Option String) (a : App)
    → has c (running a) ≡ true
    → IsSound a
    → IsSound (resolve_stream now c t expected a)
unfolding resolve_stream
resolve_stream-IsSound now c t expected a here h = elim (Bool-cases t.flush) [
  | inl e ↦ rw e (
      finish-IsSound now c t.stopped_marker a _ (flag_set c a here h)
        (flush_and_stop-Same now c expected a h))
  | inr e ↦ rw e (
      finish-IsSound now c t.stopped_marker a a (flag_set c a here h)
        (refl, refl, h.registered, h.scheduled))
]

stop_stream-IsSound :
    (now : ℕ) (c : String) (reason : StopReason) (expected : Option String) (a : App)
    → IsSound a
    → IsSound (stop_stream now c reason expected a)
unfolding stop_stream
stop_stream-IsSound now c reason expected a h =
    elim (Bool-cases (is_stale c expected a.streaming)) [
      | inl e ↦ rw e h
      | inr e ↦ elim (Bool-cases (has c (running a))) [
        | inl here ↦
            rw (e, here) (resolve_stream-IsSound now c (stop_transitions reason) expected a here h)
        | inr gone ↦ rw (e, gone) h
      ]
    ]

schedule-Same :
    (f : Option ℕ) (k : Coalescer StreamingState) (s : StreamingState)
    → k.bulk_flush_fn ≡ some append_token
    → ((schedule_flush f k s).1.active_streams ≡ s.active_streams)
      × ((schedule_flush f k s).0.bulk_flush_fn ≡ some append_token)
unfolding schedule_flush flush_pending_batches
schedule-Same f k s r = ground (arith, active-flush_each k.pending_batches s)

buffer_token-Same :
    (f : Option ℕ) (c request : String) (text : Text) (a : App)
    → IsRegistered a
    → ((buffer_token f c text request a.coalescer a.streaming).1.active_streams ≡ running a)
      × ((buffer_token f c text request a.coalescer a.streaming).0.bulk_flush_fn
          ≡ some append_token)
unfolding buffer_token
buffer_token-Same f c request text a r = schedule-Same f _ a.streaming r

buffer-IsSound :
    (f : Option ℕ) (c request : String) (text : Text) (a : App)
    → IsSound a
    → IsSound (buffer f c text request a)
unfolding buffer
buffer-IsSound f c request text a h =
    let (same, still) = buffer_token-Same f c request text a h.registered in
    record {
      truthful = rw same h.truthful;
      registered = still;
      scheduled = buffer_token-IsScheduled f c request text a.coalescer a.streaming h.scheduled;
    }

frame_tick-IsSound : (a : App) → IsSound a → IsSound (frame_tick a)
unfolding frame_tick flush_pending_batches
frame_tick-IsSound a h = record {
  truthful =
      rw (h.registered, active-flush_each a.coalescer.pending_batches a.streaming) h.truthful;
  registered = h.registered;
  scheduled = record { keyed = tt; awaited = inl refl };
}

start-IsSound :
    (c request : String) (a : App) → IsSound a → IsSound (coordinate_start_stream c request a)
unfolding coordinate_start_stream Streaming.start_stream
start-IsSound c request a h = record {
  truthful = rw (is_empty-set c request (running a)) refl;
  registered = h.registered;
  scheduled = h.scheduled;
}

-- Each call keeps the store sound.
pub handle-IsSound : (now : ℕ) (e : Event) (a : App) → IsSound a → IsSound (handle now e a)
unfolding handle append_token_action set_pending_metrics
handle-IsSound now (token f c text request) a h = buffer-IsSound f c request text a h
handle-IsSound now frame a h = frame_tick-IsSound a h
handle-IsSound now (direct c text request) a h = record {
  truthful = rw (active-append_token c request text a.streaming) h.truthful;
  registered = h.registered;
  scheduled = h.scheduled;
}
handle-IsSound now (counts c request metrics) a h = record {
  truthful = ground arith;
  registered = h.registered;
  scheduled = h.scheduled;
}
handle-IsSound now (start c request) a h = start-IsSound c request a h
handle-IsSound now (flush c expected) a h = keep a _ h (flush_and_stop-Same now c expected a h)
handle-IsSound now (stop c reason expected) a h = stop_stream-IsSound now c reason expected a h
handle-IsSound now (add c messages) a h = keep a _ h (refl, refl, h.registered, h.scheduled)
handle-IsSound now (remove c id) a h = keep a _ h (refl, refl, h.registered, h.scheduled)
handle-IsSound now (clear c) a h = keep a _ h (refl, refl, h.registered, h.scheduled)

-- Whatever calls reach the stores, in whatever order and at whatever times, `isStreaming` is set
-- exactly while some conversation streams, the coalescer stays connected to the streaming store,
-- its batches have distinct keys, and a batch that waits has an animation frame to come.
pub run-IsSound : (es : List (ℕ × Event)) (a : App) → IsSound a → IsSound (run es a)
unfolding run
run-IsSound [] a h = h
run-IsSound ((now, e) ∷ es) a h = run-IsSound es (handle now e a) (handle-IsSound now e a h)
