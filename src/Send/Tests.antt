-- ===== src/Send/Tests.antt =====
-- The laws of the send pipeline on one conversation with a short question.
use musaed.Base.{Text, true, none, some, [], ◌∷◌, refl, text_discrete}
use musaed.Store.Streaming.{no_streams, append_token}
use musaed.Store.Ui.{initial_ui}
use musaed.Send.Texts.{Labels, build_prompt}
use musaed.Base.Texts.{trim, trim_start, is_space}
use musaed.Send.Service.Guards.{Deps, Stores, Prepared, check_message, is_listed}
use musaed.Send.Service.Requests.{Rag, ChatPayload, attempt_payload}
use musaed.Send.Service.Sending.{IsSendable, check_message-IsSendable}

abbrev labels : Labels
labels = record {
  file_label = λ name. name;
  content_label = [];
  context_label = [];
  load_hint = [];
  error_prefix = 69 ∷ [];
  generic_error = 33 ∷ [];
}

abbrev deps : Deps
deps = record { labels = labels; context_window = none; default_params = none }

-- The conversation streams under a request.
abbrev stores : Stores
stores = record {
  app = record {
    ui = record initial_ui { is_streaming = true };
    streaming = record no_streams { active_streams = ("chat", "r2") ∷ [] };
    messages = ("chat", []) ∷ [];
    coalescer = record { pending_batches = []; raf_id = none; bulk_flush_fn = some append_token };
    tracing = record { last_trace_at = []; token_counters = []; appended = [] };
  };
  conversations = "chat" ∷ [];
  current = some "chat";
  selected_model = some "small";
  system_prompt = [];
  profiles = [];
}

abbrev hi : Text
hi = 72 ∷ 105 ∷ []

abbrev prepared : Prepared
prepared = record { conversation = "chat"; model = "small"; trimmed = hi; prompt = hi }

-- A context of three characters, reported with five tokens.
abbrev rag : Rag
rag = record { sources = none; context = some (97 ∷ 98 ∷ 99 ∷ []); token_count = some 5 }

abbrev sent : ChatPayload
sent = attempt_payload deps stores.app.messages [] "r3" prepared rag []

check_message-IsSendable_example : IsSendable labels hi [] [] stores prepared
unfolding check_message is_listed trim trim_start is_space build_prompt text_discrete
check_message-IsSendable_example = check_message-IsSendable labels hi [] [] stores prepared refl
