-- ===== src/Actions/Tests.antt =====
-- The actions on a session with one conversation that streams.
use musaed.Base.{ℕ, List, true, none, some, [], ◌∷◌, ◌≡◌, refl, inl, arith}
use musaed.Base.Dict.{get}
use musaed.Store.Streaming.{no_streams, append_token}
use musaed.Store.Ui.{initial_ui}
use musaed.Store.Conversations.{Metadata}
use musaed.Store.Conversations.Listed.{IsListed}
use musaed.Coordination.{App}
use musaed.Coordination.Flag.{IsSound, run-IsSound}
use musaed.Coordination.Events.{Event, run}
use musaed.Coordination.Remnants.{IsTied}
use musaed.Coordination.Remnants.Events.{run-IsTied}
use musaed.Actions.{Session, new_conversation, create_conversation, clear_all_conversations}
use musaed.Actions.Laws.{Cleared, clear_all_conversations-Cleared, create_conversation-IsListed}

abbrev app : App
app = record {
  ui = record initial_ui { is_streaming = true };
  streaming = record no_streams {
    live_content = ("chat", 72 ∷ 105 ∷ []) ∷ [];
    active_streams = ("chat", "r1") ∷ [];
  };
  messages = ("chat", []) ∷ [];
  coalescer = record { pending_batches = []; raf_id = none; bulk_flush_fn = some append_token };
  tracing = record { last_trace_at = []; token_counters = []; appended = [] };
}

abbrev chat : Metadata ℕ
chat = new_conversation "chat" [] "small" 0 1

abbrev session : Session ℕ
session = record {
  app = app;
  conversations = record {
    conversations = ("chat", chat) ∷ [];
    conversation_ids = "chat" ∷ [];
    current_conversation_id = some "chat";
    search_query = [];
  };
}

abbrev blank : Session ℕ
blank = record session {
  conversations = record {
    conversations = [];
    conversation_ids = [];
    current_conversation_id = none;
    search_query = [];
  };
}

app-IsSound : IsSound app
app-IsSound = record {
  truthful = refl;
  registered = refl;
  scheduled = record { keyed = tt; awaited = inl refl };
}

app-IsTied : IsTied app.streaming
unfolding get
app-IsTied d = ground arith

-- No call has reached the stores.
abbrev fresh : App
fresh = record app { ui = initial_ui; streaming = no_streams; messages = [] }

-- Whatever calls reach the stores, they stay as the two laws ask.
run-Ready : (es : List (ℕ × Event)) → IsSound (run es fresh) × IsTied (run es fresh).streaming
unfolding get
run-Ready es =
    let sound : IsSound fresh = record {
      truthful = refl;
      registered = refl;
      scheduled = record { keyed = tt; awaited = inl refl };
    } in
    (run-IsSound es fresh sound, run-IsTied es fresh sound (λ d. refl))

clear_all_conversations-Cleared_example : Cleared (clear_all_conversations 5 session)
unfolding get
clear_all_conversations-Cleared_example =
    clear_all_conversations-Cleared 5 session app-IsSound app-IsTied (refl, tt)

create_conversation-IsListed_example :
    IsListed (create_conversation chat (some "other") blank).conversations
    × ((create_conversation chat (some "other") blank).conversations.current_conversation_id
        ≡ some "other")
    × (get "other" (create_conversation chat (some "other") blank).conversations.conversations
        ≡ some chat)
unfolding get
create_conversation-IsListed_example =
    create_conversation-IsListed chat (some "other") blank (λ _. refl) refl
