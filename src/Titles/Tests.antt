-- ===== src/Titles/Tests.antt =====
-- The laws of useAutoTitle.ts on one conversation with its first title.
use musaed.Base.{ℕ, String, Text, none, some, List, [], ◌∷◌, ◌≡◌, ◌⊎◌, refl, text_discrete}
use musaed.Base.Dict.{get, Dict}
use musaed.Message.{Message, user, assistant, no_metrics, Role}
use musaed.Store.Conversations.{Metadata}
use musaed.Titles.{
  Titles, TitleKey, find_pending, title_request, begins, answers, Event, finish_title, handle_title,
  run_titles, is_default_title,
}
use musaed.Titles.Requests.{AllClean, title_request-IsClean}
use musaed.Titles.Runs.{Retitled, finish_title-Retitled}
use musaed.Titles.Kept.{run_titles_keep}

abbrev said : Role → Text → Message
said role content = record {
  id = "m";
  role = role;
  content = content;
  images = none;
  timestamp = 0;
  model = none;
  done = none;
  request_id = none;
  metrics = no_metrics;
  rag_sources = none;
  error = none;
  stopped = none;
}

abbrev dialogue : List Message
dialogue = said user (104 ∷ 105 ∷ []) ∷ said assistant (121 ∷ 111 ∷ []) ∷ []

-- `New Chat`
abbrev chat : Metadata ℕ
chat = record {
  id = "chat";
  title = 78 ∷ 101 ∷ 119 ∷ 32 ∷ 67 ∷ 104 ∷ 97 ∷ 116 ∷ [];
  model = "small";
  settings = 0;
  created_at = 1;
  updated_at = 1;
}

abbrev named : Metadata ℕ
named = record chat { title = 77 ∷ [] }

abbrev table : Metadata ℕ → Dict (Metadata ℕ)
table c = ("chat", c) ∷ []

abbrev idle : Metadata ℕ → Titles ℕ
idle c = record {
  pending = [];
  conversations = record {
    conversations = table c;
    conversation_ids = "chat" ∷ [];
    current_conversation_id = none;
    search_query = [];
  };
}

abbrev key : TitleKey
key = record { id = "chat"; created_at = 1 }

abbrev start : Event ℕ
start = begins "chat" (λ _. table chat) dialogue

-- The answer of the model is `T`.
abbrev answer : Event ℕ
answer = answers 9 key (some (84 ∷ []))

title_request-IsClean_example : AllClean (title_request "small" dialogue)
title_request-IsClean_example = title_request-IsClean "small" dialogue

finish_title-Retitled_example :
    (find_pending key (finish_title 9 key (some (84 ∷ [])) (handle_title start (idle chat))).pending
      ≡ none)
    × (((d : String)
          → get d
              (finish_title 9 key
                (some (84 ∷ []))
                (handle_title start (idle chat))).conversations.conversations
            ≡ get d (handle_title start (idle chat)).conversations.conversations)
        ⊎ Retitled 9 key
            (some (84 ∷ []))
            (handle_title start (idle chat)).conversations
            (finish_title 9 key (some (84 ∷ [])) (handle_title start (idle chat))).conversations)
finish_title-Retitled_example =
    finish_title-Retitled 9 key (some (84 ∷ [])) (handle_title start (idle chat))

-- The user names the conversation while a request is under way.
run_titles_keep_example :
    get "chat" (run_titles (start ∷ answer ∷ []) (idle named)).conversations.conversations
    ≡ some named
unfolding get text_discrete is_default_title
run_titles_keep_example =
    run_titles_keep (start ∷ answer ∷ []) (idle named) "chat" named refl refl (tt, (tt, tt))
