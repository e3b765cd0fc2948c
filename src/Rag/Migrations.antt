-- ===== src/Rag/Migrations.antt =====
-- apps/web/src/lib/migrations/versions/rag.ts: the persisted projects, version by version. The schemas
-- are those of zod, which fails on other data; here a migration starts from what a schema has let
-- through. `R` stands for the results of a search.
pub mod Laws
use musaed.Base.{
  ℕ, String, Text, Bool, true, false, Option, none, some, List, [], ◌∷◌, ◌++◌, ◌||◌, not, ite,
  text_discrete, if◌then◌else◌,
}
use musaed.Base.Dict.{Dict, has, keys}
use musaed.Message.{is_given, given_or}
use musaed.Rag.Project.{ProjectStatus, idle}
use musaed.Rag.Store.{valid_ids}

-- A project as it may be persisted: the fields of the first version, and the later ones where they are
-- present. The last error may be absent, `null` or a text.
pub record ProjectData : Type 0 where
  pub id : String
  pub name : Text
  pub path : Text
  pub embedding_model : String
  pub ignore_patterns : List Text
  pub created_at : Option String
  pub updated_at : Option String
  pub indexed_at : Option String
  pub file_count : Option ℕ
  pub chunk_count : Option ℕ
  pub total_bytes : Option ℕ
  pub status : Option ProjectStatus
  pub retry_attempts : Option ℕ
  pub last_error : Option (Option Text)

pub record RagData (R : Type 0) : Type 0 where
  pub projects : Dict ProjectData
  pub project_ids : List String
  pub active_project_id : Option String
  pub search_results : Option (List R)
  pub is_searching : Option Bool

abbrev pub includes : String → List String → Bool
includes id [] = false
includes id (j ∷ js) = ite (text_discrete id j) true false || includes id js

-- The loop over the keys of `migrateRagToV1`.
unfoldable pub add_missing : List String → List String → List String
add_missing [] ids = ids
add_missing (k ∷ ks) ids = add_missing ks (if includes k ids then ids else ids ++ k ∷ [])

-- The fields of a project in `migrateRagToV2`, with the time of the migration.
unfoldable pub complete : String → ProjectData → ProjectData
complete now p = record p {
  created_at = some (given_or p.created_at now);
  updated_at = some (given_or p.updated_at now);
  file_count = some (given_or p.file_count 0);
  chunk_count = some (given_or p.chunk_count 0);
  total_bytes = some (given_or p.total_bytes 0);
  status = some (given_or p.status idle);
  retry_attempts = some (given_or p.retry_attempts 0);
  last_error = some (given_or p.last_error none);
}

-- A loop over `Object.entries` that writes each project under its key.
unfoldable pub each : (ProjectData → ProjectData) → Dict ProjectData → Dict ProjectData
each f [] = []
each f ((k, p) ∷ d) = (k, f p) ∷ each f d

abbrev pub without_retries : ProjectData → ProjectData
without_retries p = record p { retry_attempts = none; last_error = none }

abbrev pub reset_retries : ProjectData → ProjectData
reset_retries p = record p { retry_attempts = some 0; last_error = some none }

-- Whether the first project has one of the fields of version 3. An empty key counts as none.
abbrev pub has_retries : Dict ProjectData → Bool
has_retries [] = false
has_retries ((k, p) ∷ d) =
    ite (text_discrete k "") false (is_given p.retry_attempts || is_given p.last_error)

module _ {R : Type 0} where
  unfoldable pub migrate_rag_to_v1 : RagData R → RagData R
  migrate_rag_to_v1 d = record d {
    project_ids = add_missing (keys d.projects) (valid_ids d.projects d.project_ids);
    search_results = some (given_or d.search_results []);
    is_searching = some (given_or d.is_searching false);
  }

  unfoldable pub migrate_rag_to_v2 : String → RagData R → RagData R
  migrate_rag_to_v2 now d =
      let projects = each (complete now) d.projects in
      record d {
        projects = projects;
        project_ids = keys projects;
        search_results = some (given_or d.search_results []);
        is_searching = some (given_or d.is_searching false);
      }

  unfoldable pub migrate_rag_to_v3 : String → RagData R → RagData R
  migrate_rag_to_v3 now d =
      let v2 = migrate_rag_to_v2 now d in
      if has_retries d.projects then d else record v2 { projects = each reset_retries v2.projects }

  unfoldable pub rollback_rag_to_v2 : RagData R → RagData R
  rollback_rag_to_v2 d = record d { projects = each without_retries d.projects }
