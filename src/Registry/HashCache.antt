-- ===== src/Registry/HashCache.antt =====
-- The hash cache of `class Registry`: `upsert_external_hash_cache` and `bulk_insert_hash_import` of
-- src/nightfall_photo_ingress/domain/registry.py.
use nightfall_photo_ingress.Base.{
  ℕ, zero, suc, ◌+◌, ◌-◌, String, Bool, false, not, ◌&&◌, Option, none, some, List, [], ◌∷◌, ◌++◌,
  ◌==◌, eqb, length, if◌then◌else◌, is_some,
}
use nightfall_photo_ingress.Base.Exec.{Exec, chunk_size, pure, raise_if, ◌>>=◌, ◌>>◌}
use nightfall_photo_ingress.Sql.{exists_where, upsert}
use nightfall_photo_ingress.Registry.Schema.{Db, HashCacheRow}
use nightfall_photo_ingress.Registry.Conn.{
  Conn, with_connect, begin_immediate, commit, query, write, coalesce,
}

-- The dataclass `HashImportChunkResult`, without the duration.
pub record HashImportChunkResult : Type 0 where
  pub chunk_index : ℕ
  pub imported : ℕ
  pub skipped_existing : ℕ

-- Two optional paths are one key only if both are there and agree: NULLs differ.
abbrev same_relpath : Option String → Option String → Bool
same_relpath (some p) (some q) = p == q
same_relpath _ _ = false

-- The primary key, for a row with a path.
abbrev pub cache_key : String → Option String → String → String → HashCacheRow → Bool
cache_key account relpath algo value r =
    (r.account_name == account)
    && same_relpath r.source_relpath relpath
    && (r.hash_algo == algo)
    && (r.hash_value == value)

-- The unique index of the rows without a path.
abbrev pub no_path_key : String → String → String → HashCacheRow → Bool
no_path_key account algo value r =
    (r.account_name == account)
    && not (is_some r.source_relpath)
    && (r.hash_algo == algo)
    && (r.hash_value == value)

-- The conflict that an insertion is tested for, with a path and without one.
abbrev pub conflict_key : String → Option String → String → String → HashCacheRow → Bool
conflict_key account none algo value = no_path_key account algo value
conflict_key account (some p) algo value = cache_key account (some p) algo value

unfoldable pub upsert_external_hash_cache :
    String → Option String → String → String → Option String → String → Exec Db Unit
upsert_external_hash_cache account relpath algo value verified now = with_connect (do
  begin_immediate
  write (λ db. record db {
    external_hash_cache =
        upsert (conflict_key account relpath algo value)
          (record {
            account_name = account;
            source_relpath = relpath;
            hash_algo = algo;
            hash_value = value;
            verified_sha256 = verified;
            first_seen_at = now;
            updated_at = now;
          })
          (λ r. record r {
            verified_sha256 = coalesce verified r.verified_sha256;
            updated_at = now;
          })
          db.external_hash_cache;
  })
  commit)

-- HASH_IMPORT_ACCOUNT
abbrev pub hash_import_account : String
hash_import_account = "__hash_import__"

abbrev pub import_key : String → HashCacheRow → Bool
import_key hash = no_path_key hash_import_account "sha256" hash

abbrev pub import_row : String → String → HashCacheRow
import_row now hash = record {
  account_name = hash_import_account;
  source_relpath = none;
  hash_algo = "sha256";
  hash_value = hash;
  verified_sha256 = some hash;
  first_seen_at = now;
  updated_at = now;
}

-- executemany(INSERT OR IGNORE): the rows, and how many were inserted
unfoldable pub insert_or_ignore : String → List String → List HashCacheRow → List HashCacheRow × ℕ
insert_or_ignore now [] rows = (rows, 0)
insert_or_ignore now (h ∷ hs) rows =
    let known = exists_where (import_key h) rows in
    let (rows', n) =
      insert_or_ignore now hs (if known then rows else rows ++ import_row now h ∷ []) in
    (rows', if known then n else n + 1)

-- hashes[start : start + k] for start in range(0, len(hashes), k)
unfoldable pub take : {A : Type 0} → ℕ → List A → List A
take zero xs = []
take (suc n) [] = []
take (suc n) (x ∷ xs) = x ∷ take n xs

unfoldable pub drop : {A : Type 0} → ℕ → List A → List A
drop zero xs = xs
drop (suc n) [] = []
drop (suc n) (x ∷ xs) = drop n xs

unfoldable pub chunks_fuel : {A : Type 0} → ℕ → ℕ → List A → List (List A)
chunks_fuel zero k xs = []
chunks_fuel (suc f) k [] = []
chunks_fuel (suc f) k (x ∷ xs) = take k (x ∷ xs) ∷ chunks_fuel f k (drop k (x ∷ xs))

unfoldable pub chunks : {A : Type 0} → ℕ → List A → List (List A)
unfolding chunks_fuel
chunks k xs = chunks_fuel (length xs) k xs

-- One transaction for each chunk; `conn.total_changes` grows by the rows inserted.
unfoldable pub insert_chunks :
    String → ℕ → List (List String) → Exec Conn (List HashImportChunkResult)
insert_chunks now index [] = pure []
insert_chunks now index (chunk ∷ rest) = do
  begin_immediate
  imported ← query (λ db. (insert_or_ignore now chunk db.external_hash_cache).1)
  write (λ db. record db {
    external_hash_cache = (insert_or_ignore now chunk db.external_hash_cache).0;
  })
  commit
  more ← insert_chunks now (index + 1) rest
  pure (
      record {
        chunk_index = index;
        imported = imported;
        skipped_existing = length chunk - imported;
      }
      ∷ more)

unfoldable pub bulk_insert_hash_import :
    List String → ℕ → String → Exec Db (List HashImportChunkResult)
unfolding chunks insert_chunks
bulk_insert_hash_import hashes size now = do
  raise_if (eqb size 0) chunk_size
  if eqb (length hashes) 0 then pure [] else with_connect (insert_chunks now 1 (chunks size hashes))
