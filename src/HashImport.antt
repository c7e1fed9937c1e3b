-- ===== src/HashImport.antt =====
-- The import of authoritative hashes in chunks, for real or as a dry run
-- (`_execute_hash_import_chunks` and `_build_hash_import_summary` of
-- src/nightfall_photo_ingress/hash_import.py).
pub mod Chunks
pub mod Caches
pub mod DryRun
pub mod Sound
use nightfall_photo_ingress.Base.{
  ℕ, zero, suc, ◌+◌, String, Bool, true, false, not, ◌&&◌, Option, none, some, List, [], ◌∷◌, ◌++◌,
  ◌==◌, eqb, length, if◌then◌else◌, contains, dedupe,
}
use nightfall_photo_ingress.Base.Exec.{Exec, import_chunk_size, pure, raise_if, gets, ◌>>=◌, ◌>>◌}
use nightfall_photo_ingress.Sql.{exists_where, select_where, count_where}
use nightfall_photo_ingress.Registry.Schema.{Db}
use nightfall_photo_ingress.Registry.HashCache.{
  HashImportChunkResult, import_key, chunks, bulk_insert_hash_import,
}
use nightfall_photo_ingress.World.{Os, World, on_db, utc_now}

-- The dataclass `HashImportDirectoryPlan`, without the directory.
pub data PlanSource : Type 0 where
  cache_v2 backfill_v1 recompute : PlanSource

pub record HashImportDirectoryPlan : Type 0 where
  pub source : PlanSource
  pub sha256_values : List String
  pub stale_or_invalid_cache_replaced : Bool

-- The dataclass `HashImportSummary`.
pub record HashImportSummary : Type 0 where
  pub directories_processed : ℕ
  pub recomputes_performed : ℕ
  pub valid_caches_consumed : ℕ
  pub stale_invalid_caches_replaced : ℕ
  pub total_imported : ℕ
  pub total_skipped : ℕ
  pub chunk_results : List HashImportChunkResult

-- The hashes of these that the cache has: one query for each 500 of the different ones. The result
-- is a set, so the order of the queries does not matter.
existing_in : List (List String) → Db → List String
existing_in [] db = []
existing_in (c ∷ cs) db =
    select_where (λ h. exists_where (import_key h) db.external_hash_cache) c ++ existing_in cs db

unfoldable pub fetch_existing_hash_import_hashes : List String → Db → List String
unfolding existing_in
fetch_existing_hash_import_hashes hashes db = existing_in (chunks 500 (dedupe hashes)) db

-- The inner loop of a dry run: the hashes seen, and the counts of new and of known ones.
unfoldable pub simulate_chunk : List String → List String → List String × ℕ × ℕ
simulate_chunk seen [] = (seen, 0, 0)
simulate_chunk seen (h ∷ hs) =
    let known = contains h seen in
    let (seen', imported, skipped) = simulate_chunk (if known then seen else h ∷ seen) hs in
    if known then (seen', imported, skipped + 1) else (seen', imported + 1, skipped)

unfoldable pub dry_chunks : List String → ℕ → List (List String) → List HashImportChunkResult
unfolding simulate_chunk
dry_chunks seen index [] = []
dry_chunks seen index (c ∷ cs) =
    let (seen', imported, skipped) = simulate_chunk seen c in
    record { chunk_index = index; imported = imported; skipped_existing = skipped }
    ∷ dry_chunks seen' (index + 1) cs

-- `bulk_insert_hash_import(…)[0]`, under the index of the chunk in the run
abbrev pub numbered : ℕ → List HashImportChunkResult → List HashImportChunkResult
numbered index [] = []
numbered index (r ∷ rs) = record r { chunk_index = index } ∷ []

unfoldable pub real_chunks : Os → ℕ → List (List String) → Exec World (List HashImportChunkResult)
real_chunks os index [] = pure []
real_chunks os index (c ∷ cs) = do
  now ← utc_now os
  result ← on_db (bulk_insert_hash_import c (length c) now)
  more ← real_chunks os (index + 1) cs
  pure (numbered index result ++ more)

unfoldable pub execute_hash_import_chunks :
    Os → List String → ℕ → Bool → Exec World (List HashImportChunkResult)
unfolding dry_chunks real_chunks
execute_hash_import_chunks os hashes size dry_run = do
  raise_if (eqb size 0) import_chunk_size
  if dry_run
      then gets
          (λ w. dry_chunks (fetch_existing_hash_import_hashes hashes w.db) 1 (chunks size hashes))
      else real_chunks os 1 (chunks size hashes)

abbrev is_cache_v2 : HashImportDirectoryPlan → Bool
is_cache_v2 p = elim p.source [ cache_v2 ↦ true | _ ↦ false ]

total_of : (HashImportChunkResult → ℕ) → List HashImportChunkResult → ℕ
total_of f [] = 0
total_of f (r ∷ rs) = f r + total_of f rs

unfoldable pub build_hash_import_summary :
    List HashImportDirectoryPlan → List HashImportChunkResult → HashImportSummary
unfolding total_of
build_hash_import_summary plans results = record {
  directories_processed = length plans;
  recomputes_performed = count_where (λ p. not (is_cache_v2 p)) plans;
  valid_caches_consumed = count_where is_cache_v2 plans;
  stale_invalid_caches_replaced = count_where (λ p. p.stale_or_invalid_cache_replaced) plans;
  total_imported = total_of (λ r. r.imported) results;
  total_skipped = total_of (λ r. r.skipped_existing) results;
  chunk_results = results;
}
