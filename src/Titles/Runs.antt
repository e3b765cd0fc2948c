-- ===== src/Titles/Runs.antt =====
-- The titles that useAutoTitle.ts writes, while other calls change the stores.
use musaed.Base.{
  ℕ, String, Text, true, false, Option, none, some, List, [], ◌∷◌, ◌≡◌, ◌⊎◌, inl, inr, refl, arith,
  ite, text_discrete, if_split, Bool-cases, Option-cases, ◌==◌, ◌&&◌, is_empty,
}
use musaed.Base.Dict.{get, get-set}
use musaed.Message.{Message}
use musaed.Store.Conversations.{Metadata, Conversations, updated, update_conversation}
use musaed.Titles.{
  may_begin, title_request, title_key, is_default_title, TitleRequest, title_of, TitleKey, same_key,
  Pending, find_pending, without_pending, Titles, begin_title, apply_title, finish_title, look_up,
  max_retry_attempts, Event, begins, answers, changes, handle_title, run_titles,
}

-- No key is pending twice.
abbrev pub IsSingle : List Pending → Type 0
IsSingle [] = Unit
IsSingle (p ∷ ps) = (find_pending p.key ps ≡ none) × IsSingle ps

without_pending_absent :
    (j k : TitleKey) (ps : List Pending)
    → find_pending j ps ≡ none
    → find_pending j (without_pending k ps) ≡ none
unfolding find_pending without_pending
without_pending_absent j k [] h = refl
without_pending_absent j k (p ∷ ps) h = ground (arith, without_pending_absent j k ps, h)

without_pending-IsSingle :
    (k : TitleKey) (ps : List Pending) → IsSingle ps → IsSingle (without_pending k ps)
unfolding without_pending
without_pending-IsSingle k [] h = tt
without_pending-IsSingle k (p ∷ ps) (new, h) =
    let rest = without_pending-IsSingle k ps h in
    if_split IsSingle (same_key k p.key) (without_pending k ps) (p ∷ without_pending k ps)
      (λ _. rest) (λ _. (without_pending_absent p.key k ps new, rest))

find_pending-without_pending :
    (k : TitleKey) (ps : List Pending) → find_pending k (without_pending k ps) ≡ none
unfolding find_pending without_pending
find_pending-without_pending k [] = refl
find_pending-without_pending k (p ∷ ps) = ground (arith, find_pending-without_pending k ps)

title_of-given :
    (o : Option TitleRequest) (answer : Option Text) (title : Text)
    → title_of o answer ≡ some title
    → (answer ≡ some title) × (is_empty title ≡ false)
title_of-given none answer title h = cc
title_of-given (some r) none title h = cc
title_of-given (some r) (some []) title h = cc
title_of-given (some r) (some (c ∷ cs)) title h = (h, go title h)
  where
    go : (t : Text) → some (c ∷ cs) ≡ some t → is_empty t ≡ false
    go [] e = cc
    go (x ∷ xs) e = refl

module _ {S : Type 0} where
  -- A title that was written into a conversation: the conversation is the one that was asked about,
  -- and had its first title still.
  pub record Retitled (now : ℕ) (k : TitleKey) (answer : Option Text)
      (before after : Conversations S) : Type 0 where
    pub old : Metadata S
    pub title : Text
    pub was : get k.id before.conversations ≡ some old
    pub untouched : is_default_title old.title ≡ true
    pub born : old.created_at ≡ k.created_at
    pub answered : answer ≡ some title
    pub given : is_empty title ≡ false
    pub becomes :
        (d : String)
        → get d after.conversations
          ≡ ite
              (text_discrete d k.id)
              (some (record old { title = title; updated_at = now }))
              (get d before.conversations)

  apply_title-Retitled :
      (now : ℕ) (k : TitleKey) (o : Option TitleRequest) (answer : Option Text)
      (cs : Conversations S)
      → ((d : String)
          → get d (apply_title now k (title_of o answer) cs).conversations ≡ get d cs.conversations)
        ⊎ Retitled now k answer cs (apply_title now k (title_of o answer) cs)
  unfolding apply_title update_conversation
  apply_title-Retitled now k o answer cs =
      go (title_of o answer) refl (get k.id cs.conversations) refl
    where
      go :
          (t : Option Text)
          → title_of o answer ≡ t
          → (c : Option (Metadata S)) → get k.id cs.conversations ≡ c
          → ((d : String) → get d (apply_title now k t cs).conversations ≡ get d cs.conversations)
            ⊎ Retitled now k answer cs (apply_title now k t cs)
      go none e c f = inl (λ d. refl)
      go (some title) e none f = inl (λ d. ground (arith, f))
      go (some title) e (some c) f =
          elim (Bool-cases (c.created_at == k.created_at && is_default_title c.title)) [
            | inl h ↦
                let (answered, given) = title_of-given o answer title e in
                inr (record {
                  old = c;
                  title = title;
                  was = f;
                  untouched = ground (arith, h);
                  born = ground (arith, h);
                  answered = answered;
                  given = given;
                  becomes = λ d. ground (
                    arith,
                    f,
                    h,
                    get-set k.id d
                        (updated now (record { title = some title; model = none; settings = none })
                          c)
                        cs.conversations,
                  );
                })
            | inr h ↦ inl (λ d. ground (arith, f, h))
          ]

  -- The answer to a request ends it, and changes the title of a conversation at most where the
  -- conversation is there, was created when the request says, and has its first title still; then it
  -- is a title that is not empty. No other conversation changes.
  pub finish_title-Retitled :
      (now : ℕ) (k : TitleKey) (answer : Option Text) (s : Titles S)
      → (find_pending k (finish_title now k answer s).pending ≡ none)
        × (((d : String)
              → get d (finish_title now k answer s).conversations.conversations
                ≡ get d s.conversations.conversations)
            ⊎ Retitled now k answer s.conversations (finish_title now k answer s).conversations)
  unfolding finish_title
  finish_title-Retitled now k answer s = elim (Option-cases (find_pending k s.pending)) [
    | inl e ↦ rw (finish_title, e) (e, inl (λ d. refl))
    | inr (p, e) ↦
        rw (finish_title, e)
          (
            find_pending-without_pending k s.pending,
            apply_title-Retitled now k p.request answer s.conversations,
          )
  ]

  finish_title-IsSingle :
      (now : ℕ) (k : TitleKey) (answer : Option Text) (s : Titles S)
      → IsSingle s.pending
      → IsSingle (finish_title now k answer s).pending
  unfolding finish_title
  finish_title-IsSingle now k answer s h = elim (Option-cases (find_pending k s.pending)) [
    | inl e ↦ rw (finish_title, e) h
    | inr (p, e) ↦ rw (finish_title, e) (without_pending-IsSingle k s.pending h)
  ]

  begin_title-IsSingle :
      (id : String) (found : Option (Metadata S)) (messages : List Message) (s : Titles S)
      → IsSingle s.pending
      → IsSingle (begin_title id found messages s).pending
  unfolding begin_title
  begin_title-IsSingle id none messages s h = h
  begin_title-IsSingle id (some c) messages s h =
      let k = title_key id c in
      if_split (λ t. IsSingle t.pending) (may_begin k c messages s.pending)
        (record s {
          pending = record { key = k; request = title_request c.model messages } ∷ s.pending;
        })
        s (λ may. (ground (arith, may, Option-cases (find_pending k s.pending)), h)) (λ _. h)

  handle_title-IsSingle :
      (e : Event S) (s : Titles S) → IsSingle s.pending → IsSingle (handle_title e s).pending
  unfolding handle_title
  handle_title-IsSingle (begins id table messages) s h =
      begin_title-IsSingle id (look_up max_retry_attempts 0 id table) messages s h
  handle_title-IsSingle (answers now k answer) s h = finish_title-IsSingle now k answer s h
  handle_title-IsSingle (changes call) s h = h

  -- Over every sequence of starts, answers and calls of the conversation store, at most one request
  -- waits for a title of a conversation, told apart by its identifier and its creation, when this
  -- holds at first.
  run_titles-IsSingle :
      (es : List (Event S)) (s : Titles S) → IsSingle s.pending → IsSingle (run_titles es s).pending
  unfolding run_titles
  run_titles-IsSingle [] s h = h
  run_titles-IsSingle (e ∷ es) s h =
      run_titles-IsSingle es (handle_title e s) (handle_title-IsSingle e s h)
