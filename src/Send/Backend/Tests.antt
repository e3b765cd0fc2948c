-- ===== src/Send/Backend/Tests.antt =====
-- The laws of useTauriEvents.ts on one conversation that streams.
use musaed.Base.{true, none, some, [], ◌∷◌, ◌++◌, ◌≡◌, refl, inr, text_discrete}
use musaed.Base.Dict.{get}
use musaed.Message.{Message, assistant, no_metrics}
use musaed.Store.Streaming.{no_streams, append_token, owns}
use musaed.Store.Ui.{initial_ui}
use musaed.Coordination.{App}
use musaed.Coordination.Streams.{running}
use musaed.Coordination.Delivery.{unseen}
use musaed.Coordination.Flag.{IsSound}
use musaed.Send.Backend.{
  OllamaToken, BackendError, stream_of, addressee, handle_token, handle_error,
}
use musaed.Send.Backend.Ends.{handle_error-ends}
use musaed.Send.Backend.Answer.{Answered, handle_token-Answered}

abbrev answer : Message
answer = record {
  id = "m2";
  role = assistant;
  content = [];
  images = none;
  timestamp = 0;
  model = none;
  done = none;
  request_id = some "r1";
  metrics = no_metrics;
  rag_sources = none;
  error = none;
  stopped = none;
}

-- The stream runs, one token is in the store and one waits for the next frame.
abbrev busy : App
busy = record {
  ui = record initial_ui { is_streaming = true };
  streaming = record no_streams {
    live_content = ("chat", 79 ∷ []) ∷ [];
    active_streams = ("chat", "r1") ∷ [];
  };
  messages = ("chat", answer ∷ []) ∷ [];
  coalescer = record {
    pending_batches = ("chat", record { text = 75 ∷ []; request_id = "r1" }) ∷ [];
    raf_id = some 7;
    bulk_flush_fn = some append_token;
  };
  tracing = record { last_trace_at = []; token_counters = []; appended = [] };
}

abbrev last_token : OllamaToken
last_token = record {
  content = some (33 ∷ []);
  done = true;
  request_id = some "r1";
  total_duration = none;
  prompt_eval_count = some 4;
  eval_count = some 3;
  eval_duration = none;
  completion_tokens = none;
  prompt_tokens = none;
  total_tokens = none;
}

-- The request that the error names is not the one that runs.
abbrev late_error : BackendError
late_error = record { message = 33 ∷ []; request_id = some "r0" }

handle_token-Answered_example :
    Answered "chat" [] answer (unseen "chat" busy ++ 33 ∷ []) (handle_token 5 none last_token busy)
unfolding get text_discrete owns addressee stream_of
handle_token-Answered_example =
    handle_token-Answered 5 none last_token "chat" "r1" busy [] answer
      (record { registered = refl; keyed = (refl, tt); owned = refl; mine = refl }) refl refl refl
      refl

handle_error-ends_example :
    IsSound (handle_error 5 late_error busy).0
    × (get "chat" (running (handle_error 5 late_error busy).0) ≡ none)
unfolding get text_discrete addressee stream_of
handle_error-ends_example =
    handle_error-ends 5 late_error "chat" busy
      (record {
        truthful = refl;
        registered = refl;
        scheduled = record { keyed = (refl, tt); awaited = inr (7, refl) };
      })
      (refl, tt)
