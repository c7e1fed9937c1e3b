-- ===== src/Storage/Commit.antt =====
-- The durable move of a file into a queue (`commit_staging_to_accepted` of
-- src/nightfall_photo_ingress/domain/storage.py).
use nightfall_photo_ingress.Base.{
  ℕ, String, Bool, true, false, not, Option, none, some, length, ◌==◌, eqb, if◌then◌else◌,
}
use nightfall_photo_ingress.Base.Exec.{
  Error, os_error, fsync_failed, staged_source_missing, copy_size_mismatch, copy_hash_mismatch,
  Exec, pure, raise, raise_if, lift, gets, ◌>>=◌, ◌>>◌,
}
use nightfall_photo_ingress.Text.{cat}
use nightfall_photo_ingress.World.{Os, World, exists, read_bytes, write_bytes, unlink, rename}
use nightfall_photo_ingress.Storage.Render.{ensure_within_root, parent_name}

-- The dataclass `CommitResult`; `method` is `CommitMethod.rename` for "rename" and `copy_verify` for
-- "copy_verify_unlink".
pub data CommitMethod : Type 0 where
  renamed copy_verify_unlink : CommitMethod

pub record CommitResult : Type 0 where
  pub destination_path : String
  pub bytes_written : ℕ
  pub method : CommitMethod

-- `sha256_file`: hashlib's digest of the chunks read is that of the whole content
unfoldable pub sha256_file : Os → String → Exec World String
sha256_file os path = do bytes ← read_bytes path; pure (os.hexdigest bytes)

-- path.stat().st_size
abbrev pub file_size : String → Exec World ℕ
file_size path = do bytes ← read_bytes path; pure (length bytes)

abbrev pub check_root : Os → String → Option String → Exec World Unit
check_root os path none = pure tt
check_root os path (some root) = lift (ensure_within_root os path root)

-- os.chmod, for a folder after its creation
abbrev pub chmod : Os → String → Exec World Unit
chmod os path = raise_if (os.chmod_fails path) os_error

-- `_fsync_path` and `_fsync_parent_dir`
abbrev pub fsync : Os → String → Exec World Unit
fsync os path = raise_if (os.fsync_fails path) (fsync_failed path)

-- path.parent
abbrev pub parent_of : String → String
parent_of path = (parent_name path).0

-- The move within one pool: an atomic rename.
unfoldable pub commit_rename : Os → String → String → Exec World CommitResult
unfolding parent_name
commit_rename os source destination = do
  rename source destination
  chmod os destination
  fsync os destination
  fsync os (parent_of destination)
  written ← file_size destination
  pure (record { destination_path = destination; bytes_written = written; method = renamed })

-- A check that fails removes the temporary copy before it raises.
abbrev pub discard_if : Bool → String → Error → Exec World Unit
discard_if true tmp e = unlink tmp >> raise e
discard_if false tmp e = pure tt

-- Once verified: rename the copy, unlink the source.
unfoldable pub place_copy : Os → String → String → String → ℕ → Exec World CommitResult
unfolding parent_name
place_copy os source tmp destination copied_size = do
  fsync os tmp
  rename tmp destination
  chmod os destination
  fsync os (parent_of destination)
  unlink source
  pure (record {
    destination_path = destination;
    bytes_written = copied_size;
    method = copy_verify_unlink;
  })

-- Once copied: verify size and hash, rename, unlink the source.
unfoldable pub install_copy : Os → String → String → String → Exec World CommitResult
unfolding sha256_file place_copy
install_copy os source tmp destination = do
  source_size ← file_size source
  copied_size ← file_size tmp
  discard_if (not (eqb source_size copied_size)) tmp (copy_size_mismatch source_size copied_size)
  source_hash ← sha256_file os source
  copied_hash ← sha256_file os tmp
  discard_if (not (source_hash == copied_hash)) tmp copy_hash_mismatch
  place_copy os source tmp destination copied_size

-- The move across pools: copy to a temporary name, then install the copy.
unfoldable pub commit_copy : Os → String → String → Exec World CommitResult
commit_copy os source destination = do
  let tmp = cat destination ".tmp"
  bytes ← read_bytes source
  write_bytes tmp (os.copied bytes)
  install_copy os source tmp destination

unfoldable pub commit_staging_to_accepted :
    Os → String → String → Bool → Option String → Exec World CommitResult
unfolding commit_rename commit_copy parent_name
commit_staging_to_accepted os source destination same_pool root = do
  there ← gets (λ w. exists source w.fs)
  raise_if (not there) (staged_source_missing source)
  check_root os destination root
  chmod os (parent_of destination)
  if same_pool then commit_rename os source destination else commit_copy os source destination

unfoldable pub commit_pending_to_accepted :
    Os → String → String → Bool → Option String → Exec World CommitResult
unfolding commit_staging_to_accepted
commit_pending_to_accepted = commit_staging_to_accepted
