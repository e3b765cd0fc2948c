-- ===== src/Rag/Store.antt =====
-- apps/web/src/store/rag-store.ts: the projects, their order, and the search. `R` stands for the
-- results of a search and `Y` for the summary of an indexing run, which are only handed on. What the
-- actions trace is left out.
pub mod Laws
pub mod Errors
use musaed.Base.{
  ℕ, String, Text, Bool, true, false, Option, none, some, List, [], ◌∷◌, ◌++◌, ◌==◌, map, length,
  if◌then◌else◌, select, not,
}
use musaed.Base.Dict.{Dict, get, set, delete, has}
use musaed.Message.{first_given, given_or}
use musaed.Store.Conversations.{without_id, current_without}
use musaed.Rag.Project.{
  ProjectStatus, RagProject, IndexProgress, StatusPatch, derive_project_status,
}

-- `Partial<RagProject>`; a field that may be `null` is given when its value is.
pub record Updates : Type 0 where
  pub name : Option Text
  pub path : Option Text
  pub embedding_model : Option String
  pub ignore_patterns : Option (List Text)
  pub updated_at : Option String
  pub indexed_at : Option (Option String)
  pub file_count : Option ℕ
  pub chunk_count : Option ℕ
  pub total_bytes : Option ℕ
  pub status : Option ProjectStatus
  pub retry_attempts : Option ℕ
  pub last_error : Option (Option Text)

abbrev pub joined {ℓ} : {A : Type ℓ} → Option (Option A) → Option A
joined none = none
joined (some o) = o

-- `{ ...existing, ...updates }` with the two fields that are kept.
unfoldable pub updated : Updates → RagProject → RagProject
updated u p = record p {
  name = given_or u.name p.name;
  path = given_or u.path p.path;
  embedding_model = given_or u.embedding_model p.embedding_model;
  ignore_patterns = given_or u.ignore_patterns p.ignore_patterns;
  updated_at = given_or u.updated_at p.updated_at;
  indexed_at = given_or u.indexed_at p.indexed_at;
  file_count = given_or u.file_count p.file_count;
  chunk_count = given_or u.chunk_count p.chunk_count;
  total_bytes = given_or u.total_bytes p.total_bytes;
  status = given_or u.status p.status;
  retry_attempts = first_given u.retry_attempts p.retry_attempts;
  last_error = first_given (joined u.last_error) p.last_error;
}

unfoldable pub with_progress : Option IndexProgress → RagProject → RagProject
with_progress progress p =
    let patch = derive_project_status progress p in
    record p {
      status = patch.status;
      retry_attempts = some patch.retry_attempts;
      last_error = patch.last_error;
    }

pub record RagState (R Y : Type 0) : Type 0 where
  pub projects : Dict RagProject
  pub project_ids : List String
  pub active_project_id : Option String
  pub search_results : List R
  pub is_searching : Bool
  pub search_error : Option Text
  pub index_summaries : Dict Y

-- The loop of `setProjects`.
unfoldable pub projects_of : List RagProject → Dict RagProject → Dict RagProject
projects_of [] d = d
projects_of (p ∷ ps) d = projects_of ps (set p.id p d)

-- `state.projectIds.filter((id) => id in state.projects)`
unfoldable pub valid_ids : {V : Type 0} → Dict V → List String → List String
valid_ids d [] = []
valid_ids d (id ∷ ids) = if has id d then id ∷ valid_ids d ids else valid_ids d ids

module _ {R Y : Type 0} where
  abbrev pub initial_state : RagState R Y
  initial_state = record {
    projects = [];
    project_ids = [];
    active_project_id = none;
    search_results = [];
    is_searching = false;
    search_error = none;
    index_summaries = [];
  }

  unfoldable pub set_projects : List RagProject → RagState R Y → RagState R Y
  set_projects ps s = record s { projects = projects_of ps []; project_ids = map (λ p. p.id) ps }

  unfoldable pub add_project : RagProject → RagState R Y → RagState R Y
  add_project p s = record s {
    projects = set p.id p s.projects;
    project_ids = s.project_ids ++ p.id ∷ [];
  }

  unfoldable pub remove_project : String → RagState R Y → RagState R Y
  remove_project id s = record s {
    projects = delete id s.projects;
    project_ids = without_id id s.project_ids;
    active_project_id = current_without id s.active_project_id;
    index_summaries = delete id s.index_summaries;
  }

  -- A write to a project that is there; `set` is not called with anything new for another.
  unfoldable pub change_project : String → (RagProject → RagProject) → RagState R Y → RagState R Y
  change_project id f s = elim (get id s.projects) [
    | none ↦ s
    | some p ↦ record s { projects = set id (f p) s.projects }
  ]

  unfoldable pub update_project : String → Updates → RagState R Y → RagState R Y
  update_project id u s = change_project id (updated u) s

  unfoldable pub set_index_progress : String → Option IndexProgress → RagState R Y → RagState R Y
  set_index_progress id progress s = change_project id (with_progress progress) s

  abbrev pub set_index_summary : String → Y → RagState R Y → RagState R Y
  set_index_summary id y s = record s { index_summaries = set id y s.index_summaries }

  abbrev pub set_active_project_id : Option String → RagState R Y → RagState R Y
  set_active_project_id id s = record s { active_project_id = id }

  abbrev pub set_search_results : List R → RagState R Y → RagState R Y
  set_search_results rs s = record s { search_results = rs }

  abbrev pub set_is_searching : Bool → RagState R Y → RagState R Y
  set_is_searching b s = record s { is_searching = b }

  abbrev pub set_search_error : Option Text → RagState R Y → RagState R Y
  set_search_error e s = record s { search_error = e }

  unfoldable pub normalize : RagState R Y → RagState R Y
  normalize s =
      let ids = valid_ids s.projects s.project_ids in
      if length ids == length s.project_ids then s else record s { project_ids = ids }

-- The calls of the store; `reset` is `initial_state`.
pub data Call (R Y : Type 0) : Type 0 where
  replace_all : List RagProject → Call R Y
  add : RagProject → Call R Y
  remove : String → Call R Y
  update : String → Updates → Call R Y
  activate : Option String → Call R Y
  progress : String → Option IndexProgress → Call R Y
  summarize : String → Y → Call R Y
  results : List R → Call R Y
  searching : Bool → Call R Y
  search_fails : Option Text → Call R Y
  normalizes : Call R Y
  resets : Call R Y

unfoldable pub handle : {R Y : Type 0} → Call R Y → RagState R Y → RagState R Y
handle (replace_all ps) s = set_projects ps s
handle (add p) s = add_project p s
handle (remove id) s = remove_project id s
handle (update id u) s = update_project id u s
handle (activate id) s = set_active_project_id id s
handle (progress id p) s = set_index_progress id p s
handle (summarize id y) s = set_index_summary id y s
handle (results rs) s = set_search_results rs s
handle (searching b) s = set_is_searching b s
handle (search_fails e) s = set_search_error e s
handle normalizes s = normalize s
handle resets s = initial_state
