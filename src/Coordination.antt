-- ===== src/Coordination.antt =====
-- apps/web/src/store/coordination.ts: the life of a stream, across the stores. One call runs to its
-- end with nothing in between, so the stores are one state, and `now` is the clock's reading.
pub mod Drain
pub mod Streams
pub mod Flag
pub mod Stop
pub mod Events
pub mod Delivery
pub mod Isolation
pub mod Buffering
pub mod Tokens
pub mod Turn
pub mod Remnants
pub mod Hydration
mod Tests
use musaed.Base.{ℕ, String, Text, Bool, true, false, Option, none, some, [], ◌∷◌, ite}
use musaed.Base.{text_discrete, is_empty, if◌then◌else◌}
use musaed.Base.Dict.{Dict, get, has, keys}
use musaed.Base.Int.{ℤ, pos}
use musaed.Message.{Message, Metrics, Patch, no_patch}
use musaed.Tracing.{
  Tracing, Trace, Level, debug, info, trace_store_mutation, trace_append_token, reset_token_counter,
  trace_throttle_ms_default,
}
use musaed.Store.Messages.{MessageState, messages_of, update_last_message}
use musaed.Store.Streaming
use musaed.Store.Streaming.{StreamingState, Flushed, append_token, flush_to_conversation}
use musaed.Store.Ui.{UiState, set_streaming, set_pending_rehydrations, on_store_rehydrated}
use musaed.Coalescer.{Coalescer, buffer_token, drain_pending_token_batch, flush_pending_batches}

pub record App : Type 0 where
  pub ui : UiState
  pub streaming : StreamingState
  pub messages : MessageState
  pub coalescer : Coalescer StreamingState
  pub tracing : Tracing

abbrev pub trace_of : String → String → Level → Trace
trace_of feature action level = record { feature = feature; action = action; level = level }

-- `useStreamingStore.getState().appendToken`: counted for the trace, whoever owns the stream.
unfoldable pub append_token_action : ℕ → String → Text → String → App → App
append_token_action now c token request a = record a {
  tracing = (trace_append_token now c a.tracing).0;
  streaming = append_token c token request a.streaming;
}

-- The tracing of `runFlushToConversation`: only where there was live content.
abbrev pub trace_flush : ℕ → String → StreamingState → Tracing → Tracing
trace_flush now c s t = elim (get c s.live_content) [
  | none ↦ t
  | some _ ↦
      trace_store_mutation now (trace_of "streaming" "flushToConversation" debug) 0 ""
        (reset_token_counter c t)
]

-- `clearStream`
unfoldable pub clear_stream_action : String → App → App
clear_stream_action c a = record a {
  tracing = reset_token_counter c a.tracing;
  streaming = Streaming.clear_stream c a.streaming;
}

abbrev pub is_done : Option Bool → Bool
is_done (some true) = true
is_done _ = false

-- The tracing of `updateLastMessage`: none where there is no message; a final update always.
abbrev pub trace_update : ℕ → String → Patch → MessageState → Tracing → Tracing
trace_update now c update s t =
    if is_empty (messages_of c s)
    then t
    else trace_store_mutation now (trace_of "message" "updateLastMessage" debug)
        (if is_done update.done then 0 else trace_throttle_ms_default) c t

-- `useMessageStore.getState().updateLastMessage`
unfoldable pub update_last_message_action : ℕ → String → Patch → Bool → App → App
update_last_message_action now c update replace a = record a {
  tracing = trace_update now c update a.messages a.tracing;
  messages = update_last_message c update replace a.messages;
}

-- `coordinateStartStream`
unfoldable pub coordinate_start_stream : String → String → App → App
coordinate_start_stream c request a = record a {
  ui = set_streaming true a.ui;
  streaming = Streaming.start_stream c request a.streaming;
}

-- The abort race guard: a request was expected, and another or none owns the stream.
unfoldable pub is_stale : String → Option String → StreamingState → Bool
is_stale c none s = false
is_stale c (some request) s = elim (get c s.active_streams) [
  | none ↦ true
  | some r ↦ ite (text_discrete r request) false true
]

-- `drainPendingTokenBatch` with the streaming store behind its callback.
unfoldable pub drain : App → App
drain a =
    let (k, s) = drain_pending_token_batch a.coalescer a.streaming in
    record a { coalescer = k; streaming = s }

abbrev pub final_patch : Flushed → Patch
final_patch f = record no_patch { content = some f.content; metrics = f.metrics; done = some true }

-- What `flushAndStop` does with what the streaming store hands out.
unfoldable pub write_flushed : ℕ → String → Option Flushed → App → App
write_flushed now c none a = a
write_flushed now c (some f) a =
    let b = update_last_message_action now c (final_patch f) false a in
    record b {
      streaming = Streaming.mark_flushed c b.streaming;
      tracing = trace_store_mutation now (trace_of "streaming" "flushAndStop" info) 0 "" b.tracing;
    }

-- The flush of the streaming store, with its tracing.
unfoldable pub take_flushed : ℕ → String → App → App × Option Flushed
take_flushed now c a =
    let (s, flushed) = flush_to_conversation c a.streaming in
    (record a { streaming = s; tracing = trace_flush now c a.streaming a.tracing }, flushed)

-- `flushAndStop`
unfoldable pub flush_and_stop : ℕ → String → Option String → App → App
flush_and_stop now c expected a =
    if is_stale c expected a.streaming
    then a
    else let (b, flushed) = take_flushed now c (drain a) in write_flushed now c flushed b

pub data StopReason : Type 0 where
  complete abort error batch_end : StopReason

pub record Transition : Type 0 where
  pub flush : Bool
  pub stopped_marker : Option Bool

-- `STOP_TRANSITIONS`
abbrev pub stop_transitions : StopReason → Transition
stop_transitions complete = record { flush = true; stopped_marker = some false }
stop_transitions abort = record { flush = true; stopped_marker = some true }
stop_transitions error = record { flush = true; stopped_marker = none }
stop_transitions batch_end = record { flush = false; stopped_marker = none }

abbrev pub mark_stopped : ℕ → String → Option Bool → App → App
mark_stopped now c none a = a
mark_stopped now c (some b) a =
    update_last_message_action now c (record no_patch { stopped = some b }) false a

-- The end of `stopStream`: the global flag, and the trace.
unfoldable pub settle : ℕ → App → App
settle now a = record a {
  ui = if is_empty a.streaming.active_streams then set_streaming false a.ui else a.ui;
  tracing = trace_store_mutation now (trace_of "streaming" "stopStream" info) 0 "" a.tracing;
}

-- The two removals of `stopStream`.
unfoldable pub tear_down : String → App → App
tear_down c a = clear_stream_action c (record a { streaming = Streaming.stop_stream c a.streaming })

-- `stopStream` past its guards.
unfoldable pub resolve_stream : ℕ → String → Transition → Option String → App → App
resolve_stream now c t expected a =
    let flushed = if t.flush then flush_and_stop now c expected a else a in
    settle now (mark_stopped now c t.stopped_marker (tear_down c flushed))

-- `stopStream`
unfoldable pub stop_stream : ℕ → String → StopReason → Option String → App → App
stop_stream now c reason expected a =
    if is_stale c expected a.streaming
    then a
    else if has c a.streaming.active_streams
    then resolve_stream now c (stop_transitions reason) expected a
    else a

-- A token of the backend on its way to the next frame.
unfoldable pub buffer : Option ℕ → String → Text → String → App → App
buffer frame c token request a =
    let (k, s) = buffer_token frame c token request a.coalescer a.streaming in
    record a { coalescer = k; streaming = s }

-- The animation frame: `flushPendingBatches`.
unfoldable pub frame_tick : App → App
frame_tick a =
    let (k, s) = flush_pending_batches a.coalescer a.streaming in
    record a { coalescer = k; streaming = s }

-- `STORES_TO_HYDRATE`
abbrev pub stores_to_hydrate : ℕ
stores_to_hydrate = 4

-- `registerHydrationCoordination`: the counter, before the stores are asked to load. Each store
-- answers by `onStoreRehydrated`.
unfoldable pub register_hydration : UiState → UiState
register_hydration u =
    if u.is_hydrated then u else set_pending_rehydrations (pos stores_to_hydrate) u
