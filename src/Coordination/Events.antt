-- ===== src/Coordination/Events.antt =====
-- The calls that reach the stores in one session, as a list of events with their times.
use musaed.Base.{ℕ, String, Text, Option, List, [], ◌∷◌}
use musaed.Message.{Message, Metrics}
use musaed.Store.Messages.{add_messages, remove_message, clear_messages}
use musaed.Store.Streaming.{set_pending_metrics}
use musaed.Coordination.{
  App, StopReason, append_token_action, coordinate_start_stream, flush_and_stop, stop_stream,
  buffer, frame_tick,
}

pub data Event : Type 0 where
  -- a token of the backend, with the handle of the frame that the browser would give
  token : Option ℕ → String → Text → String → Event
  -- the animation frame
  frame : Event
  -- a token that goes to the store directly
  direct : String → Text → String → Event
  -- the counts of a request
  counts : String → String → Metrics → Event
  start : String → String → Event
  flush : String → Option String → Event
  stop : String → StopReason → Option String → Event
  add : String → List Message → Event
  remove : String → String → Event
  clear : String → Event

unfoldable pub handle : ℕ → Event → App → App
handle now (token f c text request) a = buffer f c text request a
handle now frame a = frame_tick a
handle now (direct c text request) a = append_token_action now c text request a
handle now (counts c request metrics) a = record a {
  streaming = set_pending_metrics c request metrics a.streaming;
}
handle now (start c request) a = coordinate_start_stream c request a
handle now (flush c expected) a = flush_and_stop now c expected a
handle now (stop c reason expected) a = stop_stream now c reason expected a
handle now (add c messages) a = record a { messages = add_messages c messages a.messages }
handle now (remove c id) a = record a { messages = remove_message c id a.messages }
handle now (clear c) a = record a { messages = clear_messages c a.messages }

unfoldable pub run : List (ℕ × Event) → App → App
unfolding handle
run [] a = a
run ((now, e) ∷ es) a = run es (handle now e a)
