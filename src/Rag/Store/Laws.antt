-- ===== src/Rag/Store/Laws.antt =====
-- The list of projects against their table in rag-store.ts.
use musaed.Base.{
  String, false, Option, none, some, List, [], ◌∷◌, ◌++◌, ◌+◌, ◌≤◌, leb, ◌||◌, ◌≡◌, refl, arith,
  if◌then◌else◌, map, length, ap, ◌∙◌,
}
use musaed.Base.Dict.{Dict, get, set, has, get-set, get-delete}
use musaed.Store.Conversations.Listed.{occurrences, occurrences-without_id}
use musaed.Rag.Project.{RagProject}
use musaed.Rag.Store.{
  RagState, updated, with_progress, projects_of, valid_ids, set_projects, add_project,
  remove_project, change_project, update_project, set_index_progress, normalize, Call, replace_all,
  add, remove, update, activate, progress, summarize, results, searching, search_fails, normalizes,
  resets, handle,
}

pub occurrences-append :
    (id : String) (xs ys : List String)
    → occurrences id (xs ++ ys) ≡ occurrences id xs + occurrences id ys
occurrences-append id [] ys = omega arith
occurrences-append id (x ∷ xs) ys = ground (arith, occurrences-append id xs ys)

has-projects_of :
    (id : String) (ps : List RagProject) (d : Dict RagProject)
    → has id (projects_of ps d) ≡ (has id d || leb 1 (occurrences id (map (λ p. p.id) ps)))
unfolding projects_of
has-projects_of id [] d = ground arith
has-projects_of id (p ∷ ps) d =
    ground (arith, has-projects_of id ps (set p.id p d), get-set p.id id p d)

pub occurrences-valid_ids :
    {V : Type 0} (id : String) (d : Dict V) (ids : List String)
    → occurrences id (valid_ids d ids) ≡ (if has id d then occurrences id ids else 0)
unfolding valid_ids
occurrences-valid_ids id d [] = ground arith
occurrences-valid_ids id d (j ∷ ids) = ground (arith, occurrences-valid_ids id d ids)

length-valid_ids : (d : Dict RagProject) (ids : List String) → length (valid_ids d ids) ≤ length ids
unfolding valid_ids
length-valid_ids d [] = omega arith
length-valid_ids d (j ∷ ids) = ground (arith, length-valid_ids d ids)

-- A filter that keeps the length keeps the list.
valid_ids_same :
    (d : Dict RagProject) (ids : List String)
    → length (valid_ids d ids) ≡ length ids
    → valid_ids d ids ≡ ids
unfolding valid_ids
valid_ids_same d [] h = refl
valid_ids_same d (j ∷ ids) h = ground (arith, valid_ids_same d ids, length-valid_ids d ids)

module _ {R Y : Type 0} where
  normalize-ids :
      (s : RagState R Y) → (normalize s).project_ids ≡ valid_ids s.projects s.project_ids
  unfolding normalize
  normalize-ids s = ground (arith, valid_ids_same s.projects s.project_ids)

  pub normalize-projects : (s : RagState R Y) → (normalize s).projects ≡ s.projects
  unfolding normalize
  normalize-projects s = ground arith

  -- Every project of the table is listed once, and nothing else is listed.
  abbrev pub IsListed : RagState R Y → Type 0
  IsListed s = (id : String) → occurrences id s.project_ids ≡ (if has id s.projects then 1 else 0)

  -- `normalize` drops the identifiers without a project, and only these: what was listed of a project
  -- stays as often as it was, so a project that is not listed is not put back, and one that is listed
  -- twice is not listed once.
  normalize_lem :
      (s : RagState R Y) (id : String)
      → occurrences id (normalize s).project_ids
        ≡ (if has id s.projects then occurrences id s.project_ids else 0)
  normalize_lem s id =
      ap (occurrences id) (normalize-ids s) ∙ occurrences-valid_ids id s.projects s.project_ids

  change_project-ids :
      (id : String) (f : RagProject → RagProject) (s : RagState R Y)
      → (change_project id f s).project_ids ≡ s.project_ids
  unfolding change_project
  change_project-ids id f s = ground arith

  has-change_project :
      (id j : String) (f : RagProject → RagProject) (s : RagState R Y)
      → has j (change_project id f s).projects ≡ has j s.projects
  unfolding change_project
  has-change_project id j f s = go (get id s.projects) refl
    where
      go :
          (o : Option RagProject)
          → get id s.projects ≡ o
          → has j (change_project id f s).projects ≡ has j s.projects
      go none e = ground (arith, e)
      go (some p) e = ground (arith, get-set id j (f p) s.projects, e)

  change_project-IsListed :
      (id : String) (f : RagProject → RagProject) (s : RagState R Y)
      → IsListed s
      → IsListed (change_project id f s)
  change_project-IsListed id f s h j =
      rw (change_project-ids id f s, has-change_project id j f s) (h j)

  -- What a call must keep to: identifiers that differ, and a new one for a new project.
  abbrev pub IsAllowed : Call R Y → RagState R Y → Type 0
  IsAllowed (replace_all ps) s = (id : String) → occurrences id (map (λ p. p.id) ps) ≤ 1
  IsAllowed (add p) s = has p.id s.projects ≡ false
  IsAllowed _ s = Unit

  -- Each call keeps the list and the table together: each project is listed exactly once, and no
  -- identifier without a project is listed. A project that is added must be new, and the projects of
  -- `setProjects` must differ in their identifiers.
  pub handle-IsListed :
      (c : Call R Y) (s : RagState R Y) → IsAllowed c s → IsListed s → IsListed (handle c s)
  unfolding handle set_projects add_project remove_project update_project set_index_progress get
  handle-IsListed (replace_all ps) s ok h = λ id. ground (arith, has-projects_of id ps [], ok id)
  handle-IsListed (add p) s ok h = λ id. ground (
    arith,
    h id,
    get-set p.id id p s.projects,
    occurrences-append id s.project_ids (p.id ∷ []),
    ok,
  )
  handle-IsListed (remove id) s ok h = λ j.
      ground (arith, h j, occurrences-without_id id j s.project_ids, get-delete id j s.projects)
  handle-IsListed (update id u) s ok h = change_project-IsListed id (updated u) s h
  handle-IsListed (progress id p) s ok h = change_project-IsListed id (with_progress p) s h
  handle-IsListed normalizes s ok h =
      λ id. rw (normalize-projects s) (ground (arith, normalize_lem s id, h id))
  handle-IsListed (activate id) s ok h = h
  handle-IsListed (summarize id y) s ok h = h
  handle-IsListed (results rs) s ok h = h
  handle-IsListed (searching b) s ok h = h
  handle-IsListed (search_fails e) s ok h = h
  handle-IsListed resets s ok h = λ id. refl
