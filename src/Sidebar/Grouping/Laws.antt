-- ===== src/Sidebar/Grouping/Laws.antt =====
-- What the sidebar shows, in useSidebarGrouping.ts.
use musaed.Base.{
  ℕ, suc, Text, Bool, true, false, List, [], ◌∷◌, ◌++◌, ◌+◌, ◌≡◌, leb, ltb, ◌-◌, ◌*◌, ◌&&◌, refl,
  subst, sym, ap, ◌∙◌, arith, map, select, is_empty, if◌then◌else◌, append_assoc, append-nil,
  String, ite, text_discrete,
}
use musaed.Store.Conversations.{Metadata}
use musaed.Sidebar.Grouping.{
  TimeGroup, searched, today, yesterday, last_week, older, SidebarItem, header, conversation, day,
  group_of, Groups, push, group_all, section, grouped_items,
}

-- The times of a group: those of the current day and later, of the day before, of the six days before
-- that, and all earlier ones.
unfoldable pub is_time_of : ℕ → TimeGroup → ℕ → Bool
is_time_of start searched t = false
is_time_of start today t = leb start t
is_time_of start yesterday t = leb (start - day) t && ltb t start
is_time_of start last_week t = leb (start - day * 7) t && ltb t (start - day)
is_time_of start older t = ltb t (start - day * 7)

-- `===` on groups.
abbrev same_group : TimeGroup → TimeGroup → Bool
same_group searched searched = true
same_group today today = true
same_group yesterday yesterday = true
same_group last_week last_week = true
same_group older older = true
same_group _ _ = false

-- A time is that of the group that it gets, and of no other.
is_time_of-group_of :
    (start t : ℕ) (g : TimeGroup) → is_time_of start g t ≡ same_group (group_of start t) g
unfolding group_of is_time_of
is_time_of-group_of start t searched = ground arith
is_time_of-group_of start t today = ground arith
is_time_of-group_of start t yesterday = ground arith
is_time_of-group_of start t last_week = ground arith
is_time_of-group_of start t older = ground arith

module _ {S : Type 0} where
  -- The conversations of a list whose time is that of a group, in their order.
  abbrev pub members : ℕ → TimeGroup → List (Metadata S) → List (Metadata S)
  members start g = select (λ c. is_time_of start g c.updated_at)

  -- What the loop has put into the four lists.
  abbrev Sorted : ℕ → List (Metadata S) → Groups S → Groups S → Type 0
  Sorted start cs g g' =
      (g'.of_today ≡ g.of_today ++ members start today cs)
      × (g'.of_yesterday ≡ g.of_yesterday ++ members start yesterday cs)
      × (g'.of_last_week ≡ g.of_last_week ++ members start last_week cs)
      × (g'.of_older ≡ g.of_older ++ members start older cs)

  group_all-Sorted :
      (start : ℕ) (cs : List (Metadata S)) (g : Groups S) → Sorted start cs g (group_all start cs g)
  unfolding group_all
  group_all-Sorted start [] g = (
    sym (append-nil g.of_today),
    sym (append-nil g.of_yesterday),
    sym (append-nil g.of_last_week),
    sym (append-nil g.of_older),
  )
  group_all-Sorted start (c ∷ cs) g =
      go (group_of start c.updated_at) refl
        (group_all-Sorted start cs (push (group_of start c.updated_at) c g))
    where
      at :
          (k : TimeGroup)
          → is_time_of start k c.updated_at ≡ same_group (group_of start c.updated_at) k
      at = is_time_of-group_of start c.updated_at

      go :
          (k : TimeGroup)
          → group_of start c.updated_at ≡ k
          → Sorted start cs (push k c g) (group_all start cs (push k c g))
          → Sorted start (c ∷ cs) g (group_all start cs (push k c g))
      go today e (t, y, w, o) =
          rw (at today, at yesterday, at last_week, at older, e)
            (t ∙ append_assoc g.of_today (c ∷ []) _, y, w, o)
      go yesterday e (t, y, w, o) =
          rw (at today, at yesterday, at last_week, at older, e)
            (t, y ∙ append_assoc g.of_yesterday (c ∷ []) _, w, o)
      go last_week e (t, y, w, o) =
          rw (at today, at yesterday, at last_week, at older, e)
            (t, y, w ∙ append_assoc g.of_last_week (c ∷ []) _, o)
      go older e (t, y, w, o) =
          rw (at today, at yesterday, at last_week, at older, e)
            (t, y, w, o ∙ append_assoc g.of_older (c ∷ []) _)
      go searched e h = rw (at today, at yesterday, at last_week, at older, e) h

  -- The conversations of the items, without the headers.
  abbrev pub shown : List (SidebarItem S) → List (Metadata S)
  shown [] = []
  shown (header g ∷ items) = shown items
  shown (conversation c ∷ items) = c ∷ shown items

  shown-append : (xs ys : List (SidebarItem S)) → shown (xs ++ ys) ≡ shown xs ++ shown ys
  shown-append [] ys = refl
  shown-append (header g ∷ xs) ys = shown-append xs ys
  shown-append (conversation c ∷ xs) ys = ap (◌∷◌ c) (shown-append xs ys)

  shown-map : (cs : List (Metadata S)) → shown (map conversation cs) ≡ cs
  shown-map [] = refl
  shown-map (c ∷ cs) = ap (◌∷◌ c) (shown-map cs)

  shown-section : (g : TimeGroup) (cs : List (Metadata S)) → shown (section g cs) ≡ cs
  shown-section g [] = refl
  shown-section g (c ∷ cs) = ap (◌∷◌ c) (shown-map cs)

  -- How often an identifier is among conversations.
  abbrev pub times : String → List (Metadata S) → ℕ
  times id [] = 0
  times id (c ∷ cs) = ite (text_discrete id c.id) (suc (times id cs)) (times id cs)

  times-append :
      (id : String) (xs ys : List (Metadata S)) → times id (xs ++ ys) ≡ times id xs + times id ys
  times-append id [] ys = omega arith
  times-append id (x ∷ xs) ys = ground (arith, times-append id xs ys)

  -- Each conversation belongs to one of the four groups.
  times-members :
      (id : String) (start : ℕ) (cs : List (Metadata S))
      → times id (members start today cs)
          + (times id (members start yesterday cs)
              + (times id (members start last_week cs) + times id (members start older cs)))
        ≡ times id cs
  unfolding is_time_of
  times-members id start [] = omega arith
  times-members id start (c ∷ cs) = ground (arith, times-members id start cs)

  -- Without a search the items are the four sections, the latest first; a section has its header and
  -- then its conversations in the order in which they were loaded, and is left out when it is empty.
  grouped_items_sections :
      (start : ℕ) (loaded : List (Metadata S))
      → grouped_items start [] loaded
        ≡ section today (members start today loaded)
          ++ (section yesterday (members start yesterday loaded)
              ++ (section last_week (members start last_week loaded)
                  ++ section older (members start older loaded)))
  unfolding grouped_items
  grouped_items_sections start loaded =
      let (t, y, w, o) =
        group_all-Sorted start loaded
          (record { of_today = []; of_yesterday = []; of_last_week = []; of_older = [] }) in
      rw (t, y, w, o) refl

  sections-times :
      (id : String) (a b c d : List (Metadata S))
      → times id (
          shown
            (section today a ++ (section yesterday b ++ (section last_week c ++ section older d))))
        ≡ times id a + (times id b + (times id c + times id d))
  sections-times id a b c d =
      rw
        (
          shown-append (section today a)
              (section yesterday b ++ (section last_week c ++ section older d)),
          shown-append (section yesterday b) (section last_week c ++ section older d),
          shown-append (section last_week c) (section older d),
          shown-section today a,
          shown-section yesterday b,
          shown-section last_week c,
          shown-section older d,
          times-append id a (b ++ (c ++ d)),
          times-append id b (c ++ d),
          times-append id c d,
        )
        refl

  -- The conversations of the items, each with the header that it stands under.
  abbrev pub under : TimeGroup → List (SidebarItem S) → List (TimeGroup × Metadata S)
  under g [] = []
  under g (header k ∷ items) = under k items
  under g (conversation c ∷ items) = (g, c) ∷ under g items

  -- The headers of the items.
  abbrev pub headers : List (SidebarItem S) → List TimeGroup
  headers [] = []
  headers (header g ∷ items) = g ∷ headers items
  headers (conversation c ∷ items) = headers items

  abbrev pub tagged : TimeGroup → List (Metadata S) → List (TimeGroup × Metadata S)
  tagged g [] = []
  tagged g (c ∷ cs) = (g, c) ∷ tagged g cs

  under-conversations :
      (g : TimeGroup) (cs : List (Metadata S)) (items : List (SidebarItem S))
      → under g (map conversation cs ++ items) ≡ tagged g cs ++ under g items
  under-conversations g [] items = refl
  under-conversations g (c ∷ cs) items = ap (◌∷◌ (g, c)) (under-conversations g cs items)

  headers-conversations :
      (cs : List (Metadata S)) (items : List (SidebarItem S))
      → headers (map conversation cs ++ items) ≡ headers items
  headers-conversations [] items = refl
  headers-conversations (c ∷ cs) items = headers-conversations cs items

  -- A list whose first conversation, if there is one, has a header: what stands before it is of no
  -- account.
  abbrev Opens : List (SidebarItem S) → Type 0
  Opens items = (g k : TimeGroup) → under g items ≡ under k items

  section-Opens :
      (g : TimeGroup) (cs : List (Metadata S)) (items : List (SidebarItem S))
      → Opens items
      → Opens (section g cs ++ items)
  section-Opens g [] items h k l = h k l
  section-Opens g (c ∷ cs) items h k l = refl

  under-section :
      (k g : TimeGroup) (cs : List (Metadata S)) (items : List (SidebarItem S))
      → Opens items
      → under k (section g cs ++ items) ≡ tagged g cs ++ under k items
  under-section k g [] items h = refl
  under-section k g (c ∷ cs) items h =
      ap (◌∷◌ (g, c)) (under-conversations g cs items ∙ ap (λ x. tagged g cs ++ x) (h g k))

  abbrev pub if_any : List (Metadata S) → TimeGroup → List TimeGroup
  if_any [] g = []
  if_any (c ∷ cs) g = g ∷ []

  headers-section :
      (g : TimeGroup) (cs : List (Metadata S)) (items : List (SidebarItem S))
      → headers (section g cs ++ items) ≡ if_any cs g ++ headers items
  headers-section g [] items = refl
  headers-section g (c ∷ cs) items = ap (◌∷◌ g) (headers-conversations cs items)

  module _ (a b c d : List (Metadata S)) where
    -- The four sections in their order.
    abbrev sections : List (SidebarItem S)
    sections = section today a ++ (section yesterday b ++ (section last_week c ++ section older d))

    older-Opens : Opens (section older d)
    older-Opens =
        subst Opens (append-nil (section older d)) (section-Opens older d [] (λ g k. refl))

    last_week-Opens : Opens (section last_week c ++ section older d)
    last_week-Opens = section-Opens last_week c (section older d) older-Opens

    under-older : (g : TimeGroup) → under g (section older d) ≡ tagged older d
    under-older g =
        ap (under g) (sym (append-nil (section older d)))
        ∙ under-section g older d [] (λ g k. refl)
        ∙ append-nil (tagged older d)

    under-sections :
        (g : TimeGroup)
        → under g sections
          ≡ tagged today a ++ (tagged yesterday b ++ (tagged last_week c ++ tagged older d))
    under-sections g =
        under-section g today a _ (section-Opens yesterday b _ last_week-Opens)
        ∙ ap (λ x. tagged today a ++ x)
            (under-section g yesterday b _ last_week-Opens
              ∙ ap (λ x. tagged yesterday b ++ x)
                  (under-section g last_week c _ older-Opens
                    ∙ ap (λ x. tagged last_week c ++ x) (under-older g)))

    headers-older : headers (section older d) ≡ if_any d older
    headers-older =
        ap headers (sym (append-nil (section older d)))
        ∙ headers-section older d []
        ∙ append-nil (if_any d older)

    headers-sections :
        headers sections
        ≡ if_any a today ++ (if_any b yesterday ++ (if_any c last_week ++ if_any d older))
    headers-sections =
        headers-section today a _
        ∙ ap (λ x. if_any a today ++ x)
            (headers-section yesterday b _
              ∙ ap (λ x. if_any b yesterday ++ x)
                  (headers-section last_week c _ ∙ ap (λ x. if_any c last_week ++ x) headers-older))

  -- What the items show.
  pub record Shows (start : ℕ) (query : Text) (loaded : List (Metadata S))
      (items : List (SidebarItem S)) : Type 0 where
    pub all : (id : String) → times id (shown items) ≡ times id loaded
    pub places :
        (g : TimeGroup)
        → under g items ≡ (
            if is_empty query
            then tagged today (members start today loaded)
              ++ (tagged yesterday (members start yesterday loaded)
                  ++ (tagged last_week (members start last_week loaded)
                      ++ tagged older (members start older loaded)))
            else tagged searched loaded)
    pub titles : headers items ≡ (
        if is_empty query
        then if_any (members start today loaded) today
          ++ (if_any (members start yesterday loaded) yesterday
              ++ (if_any (members start last_week loaded) last_week
                  ++ if_any (members start older loaded) older))
        else searched ∷ [])

  -- The items show every loaded conversation as often as it was loaded, and no other. Without a search
  -- the nearest header above a conversation is that of its time; the times follow each other, the
  -- latest first, and in each the conversations stand as they were loaded; and a time has one header
  -- when it has a conversation, and none otherwise. With a search all stand under one header, as they
  -- were loaded.
  pub grouped_items-Shows :
      (start : ℕ) (query : Text) (loaded : List (Metadata S))
      → Shows start query loaded (grouped_items start query loaded)
  unfolding grouped_items
  grouped_items-Shows start [] loaded =
      let a = members start today loaded in
      let b = members start yesterday loaded in
      let c = members start last_week loaded in
      let d = members start older loaded in
      subst (Shows start [] loaded) (sym (grouped_items_sections start loaded)) (record {
        all = λ id. sections-times id a b c d ∙ times-members id start loaded;
        places = under-sections a b c d;
        titles = headers-sections a b c d;
      })
  grouped_items-Shows start (q ∷ query) loaded = record {
    all = λ id. ap (times id) (shown-map loaded);
    places = λ g.
        ap (under searched) (sym (append-nil (map conversation loaded)))
        ∙ under-conversations searched loaded []
        ∙ append-nil (tagged searched loaded);
    titles =
        ap (◌∷◌ searched) (
          ap headers (sym (append-nil (map conversation loaded)))
          ∙ headers-conversations loaded []);
  }
