-- ===== src/Rag/Project.antt =====
-- packages/contracts/src/schemas/rag.ts: a project and the progress of its indexing; and
-- apps/web/src/lib/rag-status.ts: what an event of the indexing makes of a project.
use musaed.Base.{
  ℕ, String, Text, Bool, true, false, Option, none, some, List, ◌&&◌, ltb, ◌==◌, if◌then◌else◌,
  is_empty,
}
use musaed.Message.{given_or}

pub data ProjectStatus : Type 0 where
  idle indexing ready failed : ProjectStatus

pub data IndexPhase : Type 0 where
  discovering_files diffing_files deleting_stale reading_files chunking_files : IndexPhase
  embedding_chunks storing_chunks phase_completed phase_failed : IndexPhase

-- A field that may be `null` or absent is an `Option`.
pub record RagProject : Type 0 where
  pub id : String
  pub name : Text
  pub path : Text
  pub embedding_model : String
  pub ignore_patterns : List Text
  pub created_at : String
  pub updated_at : String
  pub indexed_at : Option String
  pub file_count : ℕ
  pub chunk_count : ℕ
  pub total_bytes : ℕ
  pub status : ProjectStatus
  pub retry_attempts : Option ℕ
  pub last_error : Option Text

pub record IndexProgress : Type 0 where
  pub phase : IndexPhase
  pub current : ℕ
  pub total : ℕ
  pub message : Text

pub record StatusPatch : Type 0 where
  pub status : ProjectStatus
  pub retry_attempts : ℕ
  pub last_error : Option Text

abbrev pub is_discovery : IndexPhase → Bool
is_discovery discovering_files = true
is_discovery _ = false

abbrev pub is_failure : IndexPhase → Bool
is_failure phase_failed = true
is_failure _ = false

abbrev pub status_in : IndexPhase → ProjectStatus
status_in phase_completed = ready
status_in phase_failed = failed
status_in _ = indexing

-- `deriveProjectStatus`
unfoldable pub derive_project_status : Option IndexProgress → RagProject → StatusPatch
derive_project_status none existing = record {
  status = existing.status;
  retry_attempts = given_or existing.retry_attempts 0;
  last_error = existing.last_error;
}
derive_project_status (some p) existing = record {
  status = status_in p.phase;
  retry_attempts =
      if is_discovery p.phase && ltb 0 p.current && p.total == 3
      then p.current
      else if is_discovery p.phase
      then 0
      else given_or existing.retry_attempts 0;
  last_error =
      if is_failure p.phase
      then if is_empty p.message then existing.last_error else some p.message
      else existing.last_error;
}
