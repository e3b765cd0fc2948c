-- ===== src/Sidebar/Grouping.antt =====
-- apps/web/src/features/sidebar/hooks/useSidebarGrouping.ts: the conversations under headers by age.
-- The start of the current day is an argument; `S` stands for the settings. Titles are compared in the
-- lower case of ASCII.
pub mod Laws
mod Tests
use musaed.Base.{
  ℕ, zero, suc, String, Text, Bool, true, false, Option, none, some, List, [], ◌∷◌, ◌++◌, ◌+◌, ◌-◌,
  ◌*◌, leb, map, min, select, is_empty, if◌then◌else◌, length, take,
}
use musaed.Base.Dict.{Dict}
use musaed.Base.Texts.{lower_case, contains}
use musaed.Store.Conversations.{Metadata, listed_conversations}

pub data TimeGroup : Type 0 where
  searched today yesterday last_week older : TimeGroup

pub data SidebarItem (S : Type 0) : Type 0 where
  header : TimeGroup → SidebarItem S
  conversation : Metadata S → SidebarItem S

abbrev pub day : ℕ
day = 86400000

-- The group of a conversation, from the time of its last change. A day that begins before the epoch
-- is earlier than every time.
unfoldable pub group_of : ℕ → ℕ → TimeGroup
group_of start updated =
    if leb start updated
    then today
    else if leb (start - day) updated
    then yesterday
    else if leb (start - day * 7) updated
    then last_week
    else older

pub record Groups (S : Type 0) : Type 0 where
  pub of_today : List (Metadata S)
  pub of_yesterday : List (Metadata S)
  pub of_last_week : List (Metadata S)
  pub of_older : List (Metadata S)

module _ {S : Type 0} where
  -- The conversations that match the search.
  unfoldable pub filtered : Dict (Metadata S) → List String → Text → List (Metadata S)
  filtered conversations ids query =
      select (λ c. contains (lower_case query) (lower_case c.title))
        (listed_conversations ids conversations)

  -- `acc[groupKey].push(conv)`
  abbrev pub push : TimeGroup → Metadata S → Groups S → Groups S
  push searched c g = g
  push today c g = record g { of_today = g.of_today ++ c ∷ [] }
  push yesterday c g = record g { of_yesterday = g.of_yesterday ++ c ∷ [] }
  push last_week c g = record g { of_last_week = g.of_last_week ++ c ∷ [] }
  push older c g = record g { of_older = g.of_older ++ c ∷ [] }

  unfoldable pub group_all : ℕ → List (Metadata S) → Groups S → Groups S
  group_all start [] g = g
  group_all start (c ∷ cs) g = group_all start cs (push (group_of start c.updated_at) c g)

  -- A header and its conversations, or nothing.
  abbrev pub section : TimeGroup → List (Metadata S) → List (SidebarItem S)
  section g [] = []
  section g (c ∷ cs) = header g ∷ map conversation (c ∷ cs)

  -- `groupedItems`
  unfoldable pub grouped_items : ℕ → Text → List (Metadata S) → List (SidebarItem S)
  grouped_items start query loaded =
      let g =
        group_all start loaded
          (record { of_today = []; of_yesterday = []; of_last_week = []; of_older = [] }) in
      if is_empty query
      then section today g.of_today
        ++ (section yesterday g.of_yesterday
            ++ (section last_week g.of_last_week ++ section older g.of_older))
      else header searched ∷ map conversation loaded

  -- The items, with the count of conversations that are loaded.
  unfoldable pub sidebar_items :
      ℕ → Dict (Metadata S) → List String → Text → ℕ → List (SidebarItem S)
  sidebar_items start conversations ids query loaded =
      grouped_items start query (take loaded (filtered conversations ids query))

-- `loadMore`, with the count that is added and the number of all conversations.
unfoldable pub load_more : ℕ → ℕ → ℕ → ℕ
load_more added all loaded = min (loaded + added) all
