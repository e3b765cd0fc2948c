-- ===== src/Coordination/Remnants/Events.antt =====
-- No call of coordination.ts leaves anything of a conversation that does not stream.
use musaed.Base.{ℕ, List, [], ◌∷◌, String, Option, none, some, ◌≡◌, refl, arith}
use musaed.Base.Dict.{get, get-set}
use musaed.Message.{Metrics, merge_metrics, no_metrics, given_or}
use musaed.Store.Streaming
use musaed.Store.Streaming.{StreamingState, append_token, owns, set_pending_metrics}
use musaed.Coalescer.{Coalescer, buffer_token, schedule_flush, flush_pending_batches}
use musaed.Coordination.{App, buffer, frame_tick, append_token_action, coordinate_start_stream}
use musaed.Coordination.Streams.{IsRegistered}
use musaed.Coordination.Flag.{IsSound, handle-IsSound}
use musaed.Coordination.Events.{
  Event, token, frame, direct, counts, start, flush, stop, add, remove, clear, handle, run,
}
use musaed.Coordination.Remnants.{
  IsTied, append_token-IsTied, flush_each-IsTied, flush_and_stop-IsTied, stop_stream-IsTied,
}

set_pending_metrics-IsTied :
    (c request : String) (metrics : Metrics) (s : StreamingState)
    → IsTied s
    → IsTied (set_pending_metrics c request metrics s)
unfolding set_pending_metrics owns
set_pending_metrics-IsTied c request metrics s h d = ground (
  arith,
  get-set c d (merge_metrics (given_or (get c s.pending_metrics) no_metrics) metrics)
      s.pending_metrics,
  h d,
)

start_stream-IsTied :
    (c request : String) (s : StreamingState)
    → IsTied s
    → IsTied (Streaming.start_stream c request s)
unfolding Streaming.start_stream
start_stream-IsTied c request s h d = ground (arith, get-set c d request s.active_streams, h d)

schedule_flush-IsTied :
    (f : Option ℕ) (k : Coalescer StreamingState) (s : StreamingState)
    → k.bulk_flush_fn ≡ some append_token
    → IsTied s
    → IsTied (schedule_flush f k s).1
unfolding schedule_flush flush_pending_batches
schedule_flush-IsTied f k s r h = go f k.raf_id refl
  where
    go : (f : Option ℕ) (o : Option ℕ) → k.raf_id ≡ o → IsTied (schedule_flush f k s).1
    go f (some n) e = rw (e, schedule_flush) h
    go (some n) none e = rw (e, schedule_flush) h
    go none none e = rw (e, r, schedule_flush) (flush_each-IsTied k.pending_batches s h)

-- Each call keeps the store tied to the streams that run.
handle-IsTied :
    (now : ℕ) (e : Event) (a : App)
    → IsRegistered a
    → IsTied a.streaming
    → IsTied (handle now e a).streaming
unfolding handle buffer buffer_token frame_tick flush_pending_batches append_token_action
    coordinate_start_stream
handle-IsTied now (token f c text request) a r h = schedule_flush-IsTied f _ a.streaming r h
handle-IsTied now frame a r h = rw r (flush_each-IsTied a.coalescer.pending_batches a.streaming h)
handle-IsTied now (direct c text request) a r h = append_token-IsTied c request text a.streaming h
handle-IsTied now (counts c request metrics) a r h =
    set_pending_metrics-IsTied c request metrics a.streaming h
handle-IsTied now (start c request) a r h = start_stream-IsTied c request a.streaming h
handle-IsTied now (flush c expected) a r h = flush_and_stop-IsTied now c expected a r h
handle-IsTied now (stop c reason expected) a r h = stop_stream-IsTied now c reason expected a r h
handle-IsTied now (add c messages) a r h = h
handle-IsTied now (remove c id) a r h = h
handle-IsTied now (clear c) a r h = h

-- Whatever calls reach the stores, live content, counts and marks are those of conversations that
-- stream.
pub run-IsTied :
    (es : List (ℕ × Event)) (a : App) → IsSound a → IsTied a.streaming → IsTied (run es a).streaming
unfolding run
run-IsTied [] a s h = h
run-IsTied ((now, e) ∷ es) a s h =
    run-IsTied es (handle now e a) (handle-IsSound now e a s) (handle-IsTied now e a s.registered h)
