-- ===== src/Sidebar/Grouping/Tests.antt =====
-- The items of the sidebar on two conversations.
use musaed.Base.{ℕ, String, List, [], ◌∷◌, ◌≡◌, refl}
use musaed.Store.Conversations.{Metadata}
use musaed.Sidebar.Grouping.{grouped_items, load_more}
use musaed.Sidebar.Grouping.Laws.{Shows, grouped_items-Shows}

abbrev chat : String → ℕ → Metadata ℕ
chat id time = record {
  id = id;
  title = [];
  model = "small";
  settings = 0;
  created_at = time;
  updated_at = time;
}

abbrev loaded : List (Metadata ℕ)
loaded = chat "new" 1000000009 ∷ chat "old" 7 ∷ []

-- One conversation is there and twenty more would be loaded: the count falls to one.
load_more_falls : load_more 20 1 50 ≡ 1
unfolding load_more
load_more_falls = refl

grouped_items-Shows_example : Shows 1000000000 [] loaded (grouped_items 1000000000 [] loaded)
grouped_items-Shows_example = grouped_items-Shows 1000000000 [] loaded
