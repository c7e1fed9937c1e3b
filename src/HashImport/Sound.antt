-- ===== src/HashImport/Sound.antt =====
-- The invariant of the registry under the import of hashes
-- (src/nightfall_photo_ingress/hash_import.py and the hash cache of
-- src/nightfall_photo_ingress/domain/registry.py).
use nightfall_photo_ingress.Base.{ℕ, ◌+◌, String, Bool, List, [], ◌∷◌, ◌++◌, ◌-◌, length}
use nightfall_photo_ingress.Base.Exec.{pure}
use nightfall_photo_ingress.Base.Exec.Keeps.{Keeps, Keeps-bind, Keeps-then, Keeps-pure}
use nightfall_photo_ingress.Registry.Schema.{Db, HashCacheRow}
use nightfall_photo_ingress.Registry.WellFormed.{IsWellFormed}
use nightfall_photo_ingress.Registry.Transaction.{
  BothSound, Keeps-connect, conn_rules, Keeps-begin, Keeps-commit,
}
use nightfall_photo_ingress.Registry.Conn.{begin_immediate, commit, query, write}
use nightfall_photo_ingress.Registry.HashCache.{
  insert_or_ignore, insert_chunks, bulk_insert_hash_import,
}
use nightfall_photo_ingress.World.{Os, on_db, utc_now}
use nightfall_photo_ingress.World.Keeps.{IsSound, sound_rules}
use nightfall_photo_ingress.HashImport.{numbered, real_chunks, execute_hash_import_chunks}

cache-IsWellFormed :
    (db : Db) (rows : List HashCacheRow)
    → IsWellFormed db
    → IsWellFormed (record db { external_hash_cache = rows })
cache-IsWellFormed db rows h = record {
  unique = h.unique;
  statuses = h.statuses;
  origins = h.origins;
  acceptances = h.acceptances;
  photos = h.photos;
  videos = h.videos;
  pair_statuses = h.pair_statuses;
  audit_bound = h.audit_bound;
  audit_order = h.audit_order;
}

insert_chunks-BothSound :
    (now : String) (index : ℕ) (cs : List (List String))
    → Keeps BothSound (insert_chunks now index cs)
unfolding insert_chunks
insert_chunks-BothSound now index [] = search conn_rules
insert_chunks-BothSound now index (c ∷ cs) =
    let kept : Keeps BothSound (insert_chunks now (index + 1) cs) =
      insert_chunks-BothSound now (index + 1) cs in
    Keeps-then begin_immediate _ Keeps-begin (
      Keeps-bind (query (λ db. (insert_or_ignore now c db.external_hash_cache).1)) _
        (search conn_rules)
        (λ n.
          Keeps-then
            (write (λ db. record db {
              external_hash_cache = (insert_or_ignore now c db.external_hash_cache).0;
            }))
            _ (search (conn_rules, cache-IsWellFormed))
            (Keeps-then commit _ Keeps-commit (
              Keeps-bind _
                (λ more. pure (
                  record { chunk_index = index; imported = n; skipped_existing = length c - n }
                  ∷ more))
                kept (λ more. Keeps-pure _)))))

bulk_insert-IsWellFormed :
    (hashes : List String) (size : ℕ) (now : String) (db : Db)
    → IsWellFormed db
    → IsWellFormed (bulk_insert_hash_import hashes size now db).1
unfolding bulk_insert_hash_import
bulk_insert-IsWellFormed hashes size now =
    let kept : Keeps IsWellFormed (bulk_insert_hash_import hashes size now) =
      search (conn_rules, insert_chunks-BothSound, Keeps-connect) depth 12 in
    kept.at

real_chunks-IsSound :
    (os : Os) (index : ℕ) (cs : List (List String)) → Keeps IsSound (real_chunks os index cs)
unfolding real_chunks
real_chunks-IsSound os index [] = search sound_rules
real_chunks-IsSound os index (c ∷ cs) = Keeps-bind (utc_now os) _ (search sound_rules) (λ now.
    Keeps-bind (on_db (bulk_insert_hash_import c (length c) now)) _
      (search (sound_rules, bulk_insert-IsWellFormed))
      (λ result.
        Keeps-bind _ (λ more. pure (numbered index result ++ more))
          (real_chunks-IsSound os (index + 1) cs) (λ more. Keeps-pure _)))

pub execute_hash_import_chunks-IsSound :
    (os : Os) (hashes : List String) (size : ℕ) (dry : Bool)
    → Keeps IsSound (execute_hash_import_chunks os hashes size dry)
unfolding execute_hash_import_chunks
execute_hash_import_chunks-IsSound os hashes size dry =
    search (sound_rules, real_chunks-IsSound) depth 12
