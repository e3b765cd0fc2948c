-- ===== src/Rag/Store/Errors.antt =====
-- The error that a project carries, over the calls of rag-store.ts.
use musaed.Base.{String, Bool, true, false, Option, none, some, ◌≡◌, ◌≢◌, refl, arith}
use musaed.Message.{is_given}
use musaed.Base.Dict.{get, get-set, get-delete}
use musaed.Rag.Project.{RagProject, IndexProgress, derive_project_status}
use musaed.Rag.Store.{
  RagState, Updates, updated, with_progress, add_project, remove_project, change_project,
  update_project, set_index_progress, Call, replace_all, add, remove, update, activate, progress,
  summarize, results, searching, search_fails, normalizes, resets, handle,
}
use musaed.Rag.Store.Laws.{normalize-projects}

abbrev pub has_error : Option RagProject → Bool
has_error none = false
has_error (some p) = is_given p.last_error

updated-error :
    (u : Updates) (p : RagProject)
    → is_given p.last_error ≡ true
    → is_given (updated u p).last_error ≡ true
unfolding updated
updated-error u p h = ground arith

with_progress-error :
    (o : Option IndexProgress) (p : RagProject)
    → is_given p.last_error ≡ true
    → is_given (with_progress o p).last_error ≡ true
unfolding with_progress derive_project_status
with_progress-error none p h = h
with_progress-error (some o) p h = ground arith

module _ {R Y : Type 0} where
  -- The project carries an error.
  abbrev pub carries_error : String → RagState R Y → Bool
  carries_error id s = has_error (get id s.projects)

  change_project-carries_error :
      (id j : String) (f : RagProject → RagProject) (s : RagState R Y)
      → ((p : RagProject) → is_given p.last_error ≡ true → is_given (f p).last_error ≡ true)
      → carries_error j s ≡ true
      → carries_error j (change_project id f s) ≡ true
  unfolding change_project
  change_project-carries_error id j f s keeps h = go (get id s.projects) refl
    where
      go :
          (o : Option RagProject)
          → get id s.projects ≡ o
          → carries_error j (change_project id f s) ≡ true
      go none e = ground (arith, e)
      go (some p) e = ground (arith, get-set id j (f p) s.projects, keeps p, e)

  -- The calls that do not put another project in the place of this one.
  abbrev pub Keeps : String → Call R Y → Type 0
  Keeps id (replace_all ps) = ⊥
  Keeps id (add p) = id ≢ p.id
  Keeps id (remove j) = id ≢ j
  Keeps id resets = ⊥
  Keeps id _ = Unit

  -- An error that a project carries is never cleared by a call that leaves the project in place: not
  -- by a later run of the indexing that succeeds, and not by an update that gives `null` for it.
  pub handle-carries_error :
      (id : String) (c : Call R Y) (s : RagState R Y)
      → Keeps id c
      → carries_error id s ≡ true
      → carries_error id (handle c s) ≡ true
  unfolding handle add_project remove_project update_project set_index_progress
  handle-carries_error id (add p) s ne h = ground (arith, get-set p.id id p s.projects)
  handle-carries_error id (remove j) s ne h = ground (arith, get-delete j id s.projects)
  handle-carries_error id (update j u) s _ h =
      change_project-carries_error j id (updated u) s (updated-error u) h
  handle-carries_error id (progress j o) s _ h =
      change_project-carries_error j id (with_progress o) s (with_progress-error o) h
  handle-carries_error id normalizes s _ h = rw (normalize-projects s) h
  handle-carries_error id (activate j) s _ h = h
  handle-carries_error id (summarize j y) s _ h = h
  handle-carries_error id (results rs) s _ h = h
  handle-carries_error id (searching b) s _ h = h
  handle-carries_error id (search_fails e) s _ h = h
  handle-carries_error id (replace_all ps) s k h = absurd k
  handle-carries_error id resets s k h = absurd k
