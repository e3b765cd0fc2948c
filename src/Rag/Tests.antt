-- ===== src/Rag/Tests.antt =====
-- The laws of the projects on a project whose indexing failed.
use musaed.Base.{true, none, some, [], ◌∷◌, ◌≡◌, refl, ℕ, text_discrete}
use musaed.Base.Dict.{get}
use musaed.Rag.Project.{RagProject, IndexProgress, failed, phase_completed}
use musaed.Rag.Store.{normalize, valid_ids, RagState, initial_state, progress, add, handle}
use musaed.Rag.Store.Laws.{IsListed, handle-IsListed}
use musaed.Rag.Store.Errors.{carries_error, handle-carries_error}
use musaed.Rag.Migrations.{
  ProjectData, RagData, migrate_rag_to_v2, migrate_rag_to_v3, rollback_rag_to_v2,
}
use musaed.Rag.Migrations.Laws.{Restored, migrate_rag_to_v3-rollback_rag_to_v2}

abbrev project : RagProject
project = record {
  id = "p1";
  name = [];
  path = [];
  embedding_model = "embed";
  ignore_patterns = [];
  created_at = "t0";
  updated_at = "t0";
  indexed_at = none;
  file_count = 0;
  chunk_count = 0;
  total_bytes = 0;
  status = failed;
  retry_attempts = some 3;
  last_error = some (33 ∷ []);
}

abbrev state : RagState ℕ ℕ
state = record initial_state { projects = ("p1", project) ∷ []; project_ids = "p1" ∷ [] }

-- An identifier is listed that has no project.
abbrev stray : RagState ℕ ℕ
stray = record state { project_ids = "p0" ∷ "p1" ∷ [] }

abbrev success : IndexProgress
success = record { phase = phase_completed; current = 1; total = 1; message = [] }

handle-IsListed_example : IsListed {R = ℕ} {Y = ℕ} (handle (add project) initial_state)
unfolding get
handle-IsListed_example = handle-IsListed (add project) initial_state refl (λ _. refl)

handle-carries_error_example :
    carries_error "p1" (handle (progress "p1" (some success)) state) ≡ true
unfolding get text_discrete
handle-carries_error_example =
    handle-carries_error "p1" (progress "p1" (some success)) state tt refl

abbrev persisted : ProjectData
persisted = record {
  id = "p1";
  name = [];
  path = [];
  embedding_model = "embed";
  ignore_patterns = [];
  created_at = none;
  updated_at = none;
  indexed_at = none;
  file_count = some 2;
  chunk_count = none;
  total_bytes = none;
  status = none;
  retry_attempts = some 2;
  last_error = none;
}

abbrev saved : RagData ℕ
saved = record {
  projects = ("p1", persisted) ∷ [];
  project_ids = [];
  active_project_id = none;
  search_results = none;
  is_searching = none;
}

migrate_rag_to_v3-rollback_rag_to_v2_example :
    Restored
      (migrate_rag_to_v2 "t1" saved)
      (migrate_rag_to_v3 "t2" (rollback_rag_to_v2 (migrate_rag_to_v2 "t1" saved)))
migrate_rag_to_v3-rollback_rag_to_v2_example = migrate_rag_to_v3-rollback_rag_to_v2 "t1" "t2" saved

stray_dropped : (normalize stray).project_ids ≡ "p1" ∷ []
unfolding normalize valid_ids get text_discrete
stray_dropped = refl
