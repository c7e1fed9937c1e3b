-- ===== src/HashImport/DryRun.antt =====
-- A dry run of the hash import beside a real one
-- (`_execute_hash_import_chunks` of src/nightfall_photo_ingress/hash_import.py).
use nightfall_photo_ingress.Base.{
  ℕ, zero, suc, ◌+◌, ◌-◌, ◌≤◌, String, Bool, true, false, ◌&&◌, ◌||◌, ◌≡◌, refl, ◌∙◌, ap, sym, List,
  [], ◌∷◌, ◌++◌, ◌==◌, length, length-append, All, All-impl, arith, eq_iff, eq_refl, contains,
  dedupe, contains-dedupe, All-contains, inl, inr, Bool-cases, eqb,
}
use nightfall_photo_ingress.Base.Exec.{ok}
use nightfall_photo_ingress.Sql.{exists_where, select_where}
use nightfall_photo_ingress.Sql.Laws.{exists_where-append}
use nightfall_photo_ingress.Registry.Schema.{Db, HashCacheRow}
use nightfall_photo_ingress.Registry.Conn.{with_connect}
use nightfall_photo_ingress.Registry.HashCache.{
  HashImportChunkResult, import_key, import_row, insert_or_ignore, chunks, bulk_insert_hash_import,
  insert_chunks,
}
use nightfall_photo_ingress.World.{Os, World}
use nightfall_photo_ingress.HashImport.{
  simulate_chunk, dry_chunks, real_chunks, execute_hash_import_chunks,
  fetch_existing_hash_import_hashes, existing_in, total_of, HashImportDirectoryPlan,
  build_hash_import_summary,
}
use nightfall_photo_ingress.HashImport.Chunks.{
  flat, chunks-flat, IsFilled, chunks-IsFilled, chunks-whole,
}

-- The dry run takes `h` as known exactly if the cache has it.
abbrev Agrees : List String → List HashCacheRow → String → Type 0
Agrees seen rows h = contains h seen ≡ exists_where (import_key h) rows

exists_where-import_row :
    (now h x : String) (rows : List HashCacheRow)
    → exists_where (import_key x) (rows ++ import_row now h ∷ [])
      ≡ (exists_where (import_key x) rows || h == x)
unfolding exists_where
exists_where-import_row now h x rows =
    exists_where-append (import_key x) rows (import_row now h ∷ [])
    ∙ ground (arith, eq_refl "__hash_import__", eq_refl "sha256")

Agrees-add :
    (now h : String) (seen : List String) (rows : List HashCacheRow) (x : String)
    → Agrees seen rows x
    → Agrees (h ∷ seen) (rows ++ import_row now h ∷ []) x
unfolding contains
Agrees-add now h seen rows x e = rw (exists_where-import_row now h x rows) (ground arith)

simulate_chunk_lem :
    (now : String) (seen : List String) (rows : List HashCacheRow) (c more : List String)
    → All (Agrees seen rows) (c ++ more)
    → let (seen', imported, skipped) = simulate_chunk seen c in
      let (rows', n) = insert_or_ignore now c rows in
      (imported ≡ n) × (imported + skipped ≡ length c) × All (Agrees seen' rows') more
unfolding simulate_chunk insert_or_ignore
simulate_chunk_lem now seen rows [] more h = (refl, refl, h)
simulate_chunk_lem now seen rows (x ∷ xs) more h = elim (Bool-cases (contains x seen)) [
  | inl known ↦
      let (a, b, c) = simulate_chunk_lem now seen rows xs more h.1 in
      rw known (rw (sym h.0 ∙ known) (a, omega arith, c))
  | inr new ↦
      let (a, b, c) =
        simulate_chunk_lem now (x ∷ seen) (rows ++ import_row now x ∷ []) xs more
          (All-impl (Agrees seen rows) _ (Agrees-add now x seen rows) (xs ++ more) h.1) in
      rw new (rw (sym h.0 ∙ new) (ap (λ n. n + 1) a, omega arith, c))
]

-- One chunk of a real run is one transaction, and one report.
bulk_lem :
    (c : List String) (now : String) (db : Db)
    → IsFilled c
    → bulk_insert_hash_import c (length c) now db ≡ (
      ok (
          record {
            chunk_index = 1;
            imported = (insert_or_ignore now c db.external_hash_cache).1;
            skipped_existing = length c - (insert_or_ignore now c db.external_hash_cache).1;
          }
          ∷ []),
      record db { external_hash_cache = (insert_or_ignore now c db.external_hash_cache).0 },
    )
unfolding bulk_insert_hash_import insert_chunks
bulk_lem [] now db h = absurd (omega arith)
bulk_lem (x ∷ xs) now db h =
    let filled : eqb (length (x ∷ xs)) 0 ≡ false = ground arith in
    rw filled (ap (λ cs. with_connect (insert_chunks now 1 cs) db) (chunks-whole (x ∷ xs) h))

real_chunks_lem :
    (os : Os) (index : ℕ) (cs : List (List String)) (seen : List String) (w : World)
    → All IsFilled cs
    → All (Agrees seen w.db.external_hash_cache) (flat cs)
    → (real_chunks os index cs w).0 ≡ ok (dry_chunks seen index cs)
unfolding real_chunks dry_chunks
real_chunks_lem os index [] seen w f h = refl
real_chunks_lem os index (c ∷ cs) seen w f h =
    let now : String = os.clock w.reads in
    let (a, b, d) = simulate_chunk_lem now seen w.db.external_hash_cache c (flat cs) h in
    let w' : World = record w {
      reads = suc w.reads;
      db = record w.db {
        external_hash_cache = (insert_or_ignore now c w.db.external_hash_cache).0;
      };
    } in
    rw (bulk_lem c now w.db f.0)
      (ground (arith, a, b, real_chunks_lem os (index + 1) cs (simulate_chunk seen c).0 w' f.1 d))

contains-append :
    (h : String) (a b : List String) → contains h (a ++ b) ≡ (contains h a || contains h b)
unfolding contains
contains-append h [] b = refl
contains-append h (x ∷ a) b = ground (arith, contains-append h a b)

contains-select_where :
    (h : String) (p : String → Bool) (xs : List String)
    → contains h (select_where p xs) ≡ (contains h xs && p h)
unfolding contains select_where
contains-select_where h p [] = refl
contains-select_where h p (x ∷ xs) = elim (Bool-cases (x == h)) [
  | inl same ↦
      let e : x ≡ h = (eq_iff x h).0 same in
      rw e (ground (arith, contains-select_where h p xs, eq_refl h))
  | inr other ↦ ground (arith, contains-select_where h p xs)
]

contains-existing_in :
    (h : String) (cs : List (List String)) (db : Db)
    → contains h (existing_in cs db)
      ≡ (contains h (flat cs) && exists_where (import_key h) db.external_hash_cache)
unfolding contains existing_in
contains-existing_in h [] db = refl
contains-existing_in h (c ∷ cs) db =
    contains-append h (select_where (λ x. exists_where (import_key x) db.external_hash_cache) c)
      (existing_in cs db)
    ∙ ground (
      arith,
      contains-select_where h (λ x. exists_where (import_key x) db.external_hash_cache) c,
      contains-existing_in h cs db,
      contains-append h c (flat cs),
    )

fetch_existing-Agrees :
    (hashes : List String) (db : Db) (h : String)
    → contains h hashes ≡ true
    → Agrees (fetch_existing_hash_import_hashes hashes db) db.external_hash_cache h
unfolding fetch_existing_hash_import_hashes
fetch_existing-Agrees hashes db h member =
    contains-existing_in h (chunks 500 (dedupe hashes)) db
    ∙ rw (chunks-flat 500 (dedupe hashes) (omega arith))
        (rw (contains-dedupe h hashes) (rw member refl))

flat-Agrees :
    (hashes : List String) (size : ℕ) (db : Db)
    → 1 ≤ size
    → All
        (Agrees (fetch_existing_hash_import_hashes hashes db) db.external_hash_cache)
        (flat (chunks size hashes))
flat-Agrees hashes size db h =
    rw (chunks-flat size hashes h)
      (All-impl _ _ (fetch_existing-Agrees hashes db) hashes (All-contains hashes))

-- A dry run reports, chunk by chunk, exactly what a real run from the same world reports, and it
-- changes nothing: both raise for a chunk size of 0, and give the same numbers of hashes imported
-- and skipped for any other.
pub execute_hash_import_chunks-dry_run :
    (os : Os) (hashes : List String) (size : ℕ) (w : World)
    → ((execute_hash_import_chunks os hashes size true w).0
        ≡ (execute_hash_import_chunks os hashes size false w).0)
      × ((execute_hash_import_chunks os hashes size true w).1 ≡ w)
unfolding execute_hash_import_chunks
execute_hash_import_chunks-dry_run os hashes zero w = (refl, refl)
execute_hash_import_chunks-dry_run os hashes (suc k) w =
    let positive : eqb (suc k) 0 ≡ false = ground arith in
    rw positive (
      sym (
          real_chunks_lem os 1 (chunks (suc k) hashes)
            (fetch_existing_hash_import_hashes hashes w.db) w
            (chunks-IsFilled (suc k) hashes (omega arith))
            (flat-Agrees hashes (suc k) w.db (omega arith))),
      refl,
    )

simulate_chunk-length :
    (seen c : List String)
    → let (seen', imported, skipped) = simulate_chunk seen c in imported + skipped ≡ length c
unfolding simulate_chunk
simulate_chunk-length seen [] = refl
simulate_chunk-length seen (x ∷ xs) = elim (Bool-cases (contains x seen)) [
  | inl known ↦ rw known (omega (arith, simulate_chunk-length seen xs))
  | inr new ↦ rw new (omega (arith, simulate_chunk-length (x ∷ seen) xs))
]

dry_chunks-totals :
    (seen : List String) (index : ℕ) (cs : List (List String))
    → total_of (λ r. r.imported) (dry_chunks seen index cs)
        + total_of (λ r. r.skipped_existing) (dry_chunks seen index cs)
      ≡ length (flat cs)
unfolding dry_chunks total_of
dry_chunks-totals seen index [] = refl
dry_chunks-totals seen index (c ∷ cs) = omega (
  arith,
  simulate_chunk-length seen c,
  dry_chunks-totals (simulate_chunk seen c).0 (index + 1) cs,
  length-append c (flat cs),
)

dry_run-totals :
    (os : Os) (plans : List HashImportDirectoryPlan) (hashes : List String) (size : ℕ) (w : World)
    (rs : List HashImportChunkResult)
    → (execute_hash_import_chunks os hashes size true w).0 ≡ ok rs
    → let summary = build_hash_import_summary plans rs in
      summary.total_imported + summary.total_skipped ≡ length hashes
unfolding execute_hash_import_chunks build_hash_import_summary
dry_run-totals os plans hashes zero w rs returned = cc
dry_run-totals os plans hashes (suc k) w rs returned =
    let positive : eqb (suc k) 0 ≡ false = ground arith in
    let whole : flat (chunks (suc k) hashes) ≡ hashes = chunks-flat (suc k) hashes (omega arith) in
    let seen : List String = fetch_existing_hash_import_hashes hashes w.db in
    let same : rs ≡ dry_chunks seen 1 (chunks (suc k) hashes) = ground arith in
    rw same (dry_chunks-totals seen 1 (chunks (suc k) hashes) ∙ ap length whole)

-- What a run that returns reports adds up: each hash given is counted once, as imported or as
-- skipped, in a dry run and in a real one.
pub build_hash_import_summary-totals :
    (os : Os) (plans : List HashImportDirectoryPlan) (hashes : List String) (size : ℕ) (dry : Bool)
    (w : World) (rs : List HashImportChunkResult)
    → (execute_hash_import_chunks os hashes size dry w).0 ≡ ok rs
    → let summary = build_hash_import_summary plans rs in
      summary.total_imported + summary.total_skipped ≡ length hashes
build_hash_import_summary-totals os plans hashes size true w rs returned =
    dry_run-totals os plans hashes size w rs returned
build_hash_import_summary-totals os plans hashes size false w rs returned =
    dry_run-totals os plans hashes size w rs
      ((execute_hash_import_chunks-dry_run os hashes size w).0 ∙ returned)
