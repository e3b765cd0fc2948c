-- ===== src/Coordination/Tests.antt =====
-- The laws of coordination.ts on a small session: one conversation with a question and an answer
-- that is still empty.
use musaed.Base.{ℕ, String, Text, true, false, none, some, List, [], ◌∷◌, ◌++◌, ite}
use musaed.Base.{texts_apart, inl, ◌≡◌, refl, text_discrete, if◌then◌else◌}
use musaed.Base.Dict.{get}
use musaed.Message.{Message, Role, user, assistant, no_metrics, first_given}
use musaed.Store.Streaming.{no_streams, append_token, owns}
use musaed.Store.Streaming.Laws.{buffered}
use musaed.Store.Ui.{initial_ui}
use musaed.Coordination.{
  App, complete, abort, stop_stream, coordinate_start_stream, is_stale, buffer,
}
use musaed.Coordination.Streams.{running}
use musaed.Coordination.Stop.{resolves, get-running-stop_stream, stop_stream_once}
use musaed.Coordination.Delivery.{unseen, shown, Extends, stop_stream-Extends}
use musaed.Coordination.Events.{Event, token, frame, start, stop, run}
use musaed.Coordination.Flag.{IsSound, run-IsSound}
use musaed.Coordination.Buffering.{IsReady}
use musaed.Coordination.Tokens.{tokens_of, run-unseen, buffer_lost}
use musaed.Coordination.Turn.{turn-Extends}

abbrev blank : Role → String → Text → Message
blank role id content = record {
  id = id;
  role = role;
  content = content;
  images = none;
  timestamp = 0;
  model = none;
  done = none;
  request_id = some "r1";
  metrics = no_metrics;
  rag_sources = none;
  error = none;
  stopped = none;
}

abbrev question : Message
question = blank user "m1" (72 ∷ 105 ∷ [])

abbrev answer : Message
answer = blank assistant "m2" []

abbrev idle : App
idle = record {
  ui = initial_ui;
  streaming = no_streams;
  messages = ("chat", question ∷ answer ∷ []) ∷ [];
  coalescer = record { pending_batches = []; raf_id = none; bulk_flush_fn = some append_token };
  tracing = record { last_trace_at = []; token_counters = []; appended = [] };
}

-- The stream runs, one token is in the store and one waits for the next frame.
abbrev busy : App
busy = record idle {
  ui = record initial_ui { is_streaming = true };
  streaming = record no_streams {
    live_content = ("chat", 79 ∷ []) ∷ [];
    active_streams = ("chat", "r1") ∷ [];
  };
  coalescer = record {
    pending_batches = ("chat", record { text = 75 ∷ []; request_id = "r1" }) ∷ [];
    raf_id = some 7;
    bulk_flush_fn = some append_token;
  };
}

-- A batch of an older request waits, while the second request owns the stream.
abbrev late : App
late = record busy { streaming = record no_streams { active_streams = ("chat", "r2") ∷ [] } }

abbrev arrivals : List (ℕ × Event)
arrivals =
    (1, token (some 7) "chat" (79 ∷ []) "r1")
    ∷ (2, frame)
    ∷ (3, token (some 8) "other" (33 ∷ []) "r9")
    ∷ (4, token (some 8) "chat" (75 ∷ []) "r1")
    ∷ []

turn-Extends_example :
    Extends
      (question ∷ [])
      answer
      (buffered "chat" idle.streaming ++ tokens_of "chat" arrivals)
      (first_given (some true) none)
      (shown "chat" (
        stop_stream 9 "chat" abort
          (some "r1")
          (run arrivals (coordinate_start_stream "chat" "r1" idle))))
unfolding get text_discrete
turn-Extends_example =
    turn-Extends "chat" "r1" arrivals 9 abort (some "r1") idle (question ∷ []) answer refl tt refl
      (λ _. refl, (tt, (λ e. absurd (texts_apart "chat" "other" refl e), (λ _. refl, tt)))) refl
      refl refl

run-IsSound_example : IsSound (
    run
      ((1, start "chat" "r1")
        ∷ (2, token none "chat" (79 ∷ []) "r1")
        ∷ (3, stop "chat" complete none)
        ∷ [])
      idle)
unfolding get
run-IsSound_example =
    run-IsSound
      ((1, start "chat" "r1")
        ∷ (2, token none "chat" (79 ∷ []) "r1")
        ∷ (3, stop "chat" complete none)
        ∷ [])
      idle
      (record {
        truthful = refl;
        registered = refl;
        scheduled = record { keyed = tt; awaited = inl refl };
      })

get-running-stop_stream_example :
    get "chat" (running (stop_stream 5 "chat" complete (some "r2") busy)) ≡ (
      if resolves "chat" (some "r2") busy
      then ite (text_discrete "chat" "chat") none (get "chat" (running busy))
      else get "chat" (running busy))
get-running-stop_stream_example =
    get-running-stop_stream 5 "chat" "chat" complete (some "r2") busy refl

stop_stream-Extends_example :
    Extends
      (question ∷ [])
      answer
      (unseen "chat" busy)
      (first_given (some false) none)
      (shown "chat" (stop_stream 5 "chat" complete (some "r1") busy))
unfolding get text_discrete is_stale
stop_stream-Extends_example =
    stop_stream-Extends 5 "chat" complete (some "r1") busy (question ∷ []) answer refl (refl, tt)
      refl refl refl

stop_stream_once_example :
    stop_stream 6 "chat" complete (some "r1") (stop_stream 5 "chat" abort (some "r1") busy)
    ≡ stop_stream 5 "chat" abort (some "r1") busy
unfolding get text_discrete is_stale
stop_stream_once_example =
    stop_stream_once 5 6 "chat" abort complete (some "r1") (some "r1") busy refl refl

run-unseen_example :
    IsReady "chat" "r1" (run arrivals busy)
    × (unseen "chat" (run arrivals busy) ≡ unseen "chat" busy ++ tokens_of "chat" arrivals)
unfolding get text_discrete owns
run-unseen_example =
    run-unseen "chat" "r1" arrivals busy
      (record { registered = refl; keyed = (refl, tt); owned = refl; mine = refl })
      (λ _. refl, (tt, (λ e. absurd (texts_apart "chat" "other" refl e), (λ _. refl, tt))))

buffer_lost_example :
    unseen "chat" (buffer (some 8) "chat" (76 ∷ []) "r2" late) ≡ unseen "chat" late
unfolding get text_discrete owns
buffer_lost_example =
    buffer_lost "chat" "r2" 8 (76 ∷ []) late (record { text = 75 ∷ []; request_id = "r1" }) refl
      (texts_apart "r1" "r2" refl) refl
