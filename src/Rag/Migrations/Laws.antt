-- ===== src/Rag/Migrations/Laws.antt =====
-- The projects and their list over the migrations of versions/rag.ts.
use musaed.Base.{
  String, true, false, none, some, List, [], ◌∷◌, ◌++◌, leb, ◌≡◌, ◌⊎◌, refl, ap, ◌∙◌, arith,
  if◌then◌else◌, inl, inr,
}
use mathlib.Core.Option
use musaed.Base.Dict.{Dict, get, has, keys}
use musaed.Store.Conversations.Listed.{occurrences}
use musaed.Rag.Store.{valid_ids}
use musaed.Rag.Store.Laws.{occurrences-append, occurrences-valid_ids}
use musaed.Rag.Migrations.{
  ProjectData, RagData, includes, add_missing, complete, each, without_retries, reset_retries,
  has_retries, migrate_rag_to_v1, migrate_rag_to_v2, migrate_rag_to_v3, rollback_rag_to_v2,
}

keys-each : (f : ProjectData → ProjectData) (d : Dict ProjectData) → keys (each f d) ≡ keys d
unfolding each
keys-each f [] = refl
keys-each f ((k, p) ∷ d) = ap (◌∷◌ k) (keys-each f d)

includes-occurrences :
    (id : String) (ids : List String) → includes id ids ≡ leb 1 (occurrences id ids)
includes-occurrences id [] = refl
includes-occurrences id (j ∷ js) = ground (arith, includes-occurrences id js)

occurrences-add_missing :
    (id : String) (ks ids : List String)
    → occurrences id (add_missing ks ids) ≡ (
        if leb 1 (occurrences id ids)
        then occurrences id ids
        else if leb 1 (occurrences id ks)
        then 1
        else 0)
unfolding add_missing
occurrences-add_missing id [] ids = ground arith
occurrences-add_missing id (k ∷ ks) ids = ground (
  arith,
  includes-occurrences k ids,
  occurrences-append id ids (k ∷ []),
  occurrences-add_missing id ks (if includes k ids then ids else ids ++ k ∷ []),
)

occurrences-keys : (id : String) (d : Dict ProjectData) → leb 1 (occurrences id (keys d)) ≡ has id d
unfolding get
occurrences-keys id [] = refl
occurrences-keys id ((k, p) ∷ d) = ground (arith, occurrences-keys id d)

has_retries-each :
    (now : String) (d : Dict ProjectData)
    → get "" d ≡ none
    → (has_retries (each (complete now) d) ≡ true) ⊎ (d ≡ [])
unfolding each complete get
has_retries-each now [] h = inr refl
has_retries-each now ((k, p) ∷ d) h = inl (ground arith)

has_retries-without : (d : Dict ProjectData) → has_retries (each without_retries d) ≡ false
unfolding each
has_retries-without [] = refl
has_retries-without ((k, p) ∷ d) = ground arith

-- Completing what was completed, and then rolled back and reset, only resets it.
reset_again :
    (now later : String) (d : Dict ProjectData)
    → each reset_retries (each (complete later) (each without_retries (each (complete now) d)))
      ≡ each reset_retries (each (complete now) d)
unfolding each complete
reset_again now later [] = refl
reset_again now later ((k, p) ∷ d) = rw (reset_again now later d) refl

keys_again :
    (now later : String) (d : Dict ProjectData)
    → keys (each (complete later) (each without_retries (each (complete now) d)))
      ≡ keys (each (complete now) d)
keys_again now later d =
    let ds = each (complete now) d in
    keys-each (complete later) (each without_retries ds) ∙ keys-each without_retries ds

get-each :
    (id : String) (f : ProjectData → ProjectData) (d : Dict ProjectData)
    → get id (each f d) ≡ Option.map f (get id d)
unfolding each get
get-each id f [] = refl
get-each id f ((k, p) ∷ d) = ground (arith, get-each id f d)

-- A project that was never retried and has no error, otherwise the same.
abbrev pub fresh : ProjectData → ProjectData
fresh p = record p { retry_attempts = some 0; last_error = some none }

module _ {R : Type 0} where
  -- The data are as they were, but for the retries and the last errors.
  pub record Restored (before after : RagData R) : Type 0 where
    pub projects : (id : String) → get id after.projects ≡ Option.map fresh (get id before.projects)
    pub order : keys after.projects ≡ keys before.projects
    pub listing : after.project_ids ≡ before.project_ids
    pub active : after.active_project_id ≡ before.active_project_id
    pub results : after.search_results ≡ before.search_results
    pub searching : after.is_searching ≡ before.is_searching

  -- After the first migration every project is listed, where it was listed as often as it was, and
  -- nothing else is.
  pub migrate_rag_to_v1-lists :
      (d : RagData R) (id : String)
      → occurrences id (migrate_rag_to_v1 d).project_ids ≡ (
          if has id d.projects
          then if leb 1 (occurrences id d.project_ids) then occurrences id d.project_ids else 1
          else 0)
  unfolding migrate_rag_to_v1
  migrate_rag_to_v1-lists d id = ground (
    arith,
    occurrences-add_missing id (keys d.projects) (valid_ids d.projects d.project_ids),
    occurrences-valid_ids id d.projects d.project_ids,
    occurrences-keys id d.projects,
  )

  -- What the second migration has completed, the third leaves as it is.
  pub migrate_rag_to_v3-migrate_rag_to_v2 :
      (now later : String) (d : RagData R)
      → get "" d.projects ≡ none
      → migrate_rag_to_v3 later (migrate_rag_to_v2 now d) ≡ migrate_rag_to_v2 now d
  unfolding migrate_rag_to_v3 migrate_rag_to_v2 complete each get
  migrate_rag_to_v3-migrate_rag_to_v2 now later d h = elim (has_retries-each now d.projects h) [
    | inl e ↦ rw e refl
    | inr e ↦ rw e refl
  ]

  -- Data of the second version that are rolled back from the third and migrated again have the same
  -- projects under the same keys in the same order, each with its retries at 0 and no last error and
  -- with every other field as it was; and the rest of the data is as it was.
  pub migrate_rag_to_v3-rollback_rag_to_v2 :
      (now later : String) (d : RagData R)
      → Restored
          (migrate_rag_to_v2 now d)
          (migrate_rag_to_v3 later (rollback_rag_to_v2 (migrate_rag_to_v2 now d)))
  unfolding migrate_rag_to_v3 migrate_rag_to_v2 rollback_rag_to_v2 complete
  migrate_rag_to_v3-rollback_rag_to_v2 now later d =
      rw (has_retries-without (each (complete now) d.projects)) (
        rw (reset_again now later d.projects, keys_again now later d.projects)
          (record {
            projects = λ id. get-each id reset_retries (each (complete now) d.projects);
            order = keys-each reset_retries (each (complete now) d.projects);
            listing = refl;
            active = refl;
            results = refl;
            searching = refl;
          }))
