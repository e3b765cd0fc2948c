-- ===== src/Store/Streaming.antt =====
-- apps/web/src/store/streaming-store.ts: the streams that run, and what they have received. These
-- are the updates that the actions hand to `set`; `Coordination` joins them to the tracing calls.
pub mod Laws
use musaed.Base.{String, Text, Bool, true, false, Option, none, some, [], ◌++◌, ite}
use musaed.Base.{text_discrete}
use musaed.Base.Dict.{Dict, get, set, delete, has}
use musaed.Message.{Metrics, no_metrics, merge_metrics, given_or}

pub record StreamingState : Type 0 where
  -- `liveContent`: the text received and not yet flushed
  pub live_content : Dict Text
  pub pending_metrics : Dict Metrics
  -- `activeStreams`: the request that owns the conversation's stream
  pub active_streams : Dict String
  -- `flushedStreams`, a set
  pub flushed_streams : Dict Unit

abbrev pub no_streams : StreamingState
no_streams = record {
  live_content = [];
  pending_metrics = [];
  active_streams = [];
  flushed_streams = [];
}

-- `state.activeStreams[conversationId] === requestId`.
unfoldable pub owns : String → String → StreamingState → Bool
owns c request s = elim (get c s.active_streams) [
  | none ↦ false
  | some r ↦ ite (text_discrete r request) true false
]

-- `appendToken` and `appendTokenBulk` write the same: a text of a request that does not own the
-- stream is dropped.
unfoldable pub append_token : String → Text → String → StreamingState → StreamingState
append_token c token request s = elim (owns c request s) [
  | false ↦ s
  | true ↦ record s {
    live_content = set c (given_or (get c s.live_content) [] ++ token) s.live_content;
  }
]

unfoldable pub set_pending_metrics : String → String → Metrics → StreamingState → StreamingState
set_pending_metrics c request metrics s = elim (owns c request s) [
  | false ↦ s
  | true ↦ record s {
    pending_metrics =
        set c (merge_metrics (given_or (get c s.pending_metrics) no_metrics) metrics)
          s.pending_metrics;
  }
]

pub record Flushed : Type 0 where
  pub content : Text
  pub metrics : Metrics

abbrev mark : String → StreamingState → Dict Unit
mark c s = set c tt s.flushed_streams

-- Takes what the conversation has received out of the store; `none` where there is nothing.
unfoldable pub flush_to_conversation : String → StreamingState → StreamingState × Option Flushed
flush_to_conversation c s = elim (get c s.live_content) [
  | some content ↦ (
    record s {
      live_content = delete c s.live_content;
      pending_metrics = delete c s.pending_metrics;
      flushed_streams = mark c s;
    },
    some (record { content = content; metrics = given_or (get c s.pending_metrics) no_metrics }),
  )
  | none ↦ elim (get c s.pending_metrics) [
    | none ↦ (s, none)
    | some metrics ↦ (
      record s { pending_metrics = delete c s.pending_metrics; flushed_streams = mark c s },
      some (record { content = []; metrics = metrics }),
    )
  ]
]

unfoldable pub mark_flushed : String → StreamingState → StreamingState
mark_flushed c s = elim (has c s.flushed_streams) [
  | true ↦ s
  | false ↦ record s { flushed_streams = mark c s }
]

unfoldable pub start_stream : String → String → StreamingState → StreamingState
start_stream c request s = record s { active_streams = set c request s.active_streams }

unfoldable pub stop_stream : String → StreamingState → StreamingState
stop_stream c s = record s { active_streams = delete c s.active_streams }

unfoldable pub clear_stream : String → StreamingState → StreamingState
clear_stream c s = record {
  live_content = delete c s.live_content;
  pending_metrics = delete c s.pending_metrics;
  active_streams = delete c s.active_streams;
  flushed_streams = delete c s.flushed_streams;
}

abbrev pub clear_all : StreamingState → StreamingState
clear_all s = no_streams
