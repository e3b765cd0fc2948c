-- ===== src/Store/Tests.antt =====
-- The laws of the stores on small states.
use musaed.Store.Conversations.{Metadata, Conversations}
use musaed.Store.Conversations.Listed.{IsListed, handle_call, add_call, handle_call-IsListed}
use musaed.Base.{ℕ, none, [], refl}
use musaed.Base.Dict.{get}

abbrev chat_one : Metadata ℕ
chat_one = record {
  id = "c1";
  title = [];
  model = "small";
  settings = 0;
  created_at = 1;
  updated_at = 1;
}

abbrev sidebar : Conversations ℕ
sidebar = record {
  conversations = [];
  conversation_ids = [];
  current_conversation_id = none;
  search_query = [];
}

handle_call-IsListed_example : IsListed (handle_call (add_call chat_one) sidebar)
unfolding get
handle_call-IsListed_example = handle_call-IsListed (add_call chat_one) sidebar refl (λ id. refl)
