-- ===== src/Registry/Lifecycle.antt =====
-- The methods of `class Registry` that move a file through its lifecycle, each in one transaction:
-- pending → accepted, rejected → purged, the ingest of unknown and known content, and the plain
-- status transition.
use nightfall_photo_ingress.Base.{ℕ, String, not, Option, none, some, ◌==◌, if◌then◌else◌, eqb}
use nightfall_photo_ingress.Base.Exec.{
  Error, accept_missing, accept_status, invalid_known_status, purge_missing, purge_status,
  transition_missing, injected, Exec, pure, raise, raise_if, ◌>>=◌, ◌>>◌,
}
use nightfall_photo_ingress.Sql.{find_first}
use nightfall_photo_ingress.Registry.Schema.{Db, FileRow, has_sha}
use nightfall_photo_ingress.Registry.Conn.{
  Conn, begin_immediate, commit, rollback, with_connect, query, write, write_reference, write_file,
  write_metadata, write_origin, write_acceptance, write_audit, update_file, is_allowed,
  validate_status, set_status, set_status_path,
}
use nightfall_photo_ingress.Text.{cat}

-- if fail_after_step == step: conn.rollback(); raise RegistryError(…)
abbrev fail_after : Option ℕ → ℕ → Exec Conn Unit
fail_after none step = pure tt
fail_after (some n) step = if eqb n step then (rollback >> raise (injected step)) else pure tt

unfoldable pub finalize_unknown_ingest :
    String
    → ℕ
    → String
    → String
    → String
    → String
    → String
    → String
    → String
    → Option ℕ
    → String
    → Exec Db Unit
finalize_unknown_ingest sha size filename path account id source_path modified_time actor fail now =
    with_connect (do
      begin_immediate
      write (write_file sha size "pending" (some filename) (some path) now)
      fail_after fail 1
      write (write_metadata account id size modified_time sha now)
      fail_after fail 2
      write_reference sha (write_origin account id sha (some source_path) now)
      fail_after fail 3
      write (write_audit (some sha) (some account) "pending" (some "unknown_hash") none actor now)
      fail_after fail 4
      commit)

-- The two guards that read the status: a missing row, then any status but the expected one.
abbrev require_status :
    (String → Error) → (String → Error) → String → String → Option FileRow → Exec Conn Unit
require_status missing wrong sha expected none = rollback >> raise (missing sha)
require_status missing wrong sha expected (some row) =
    if row.status == expected then pure tt else (rollback >> raise (wrong row.status))

unfoldable pub finalize_accept_from_pending :
    String → String → String → String → String → String → String → Exec Db Unit
finalize_accept_from_pending sha new_path account source_path actor reason now = with_connect (do
  begin_immediate
  row ← query (λ db. find_first (has_sha sha) db.files)
  require_status accept_missing accept_status sha "pending" row
  write (update_file sha (set_status_path "accepted" (some new_path) now))
  write_reference sha (write_acceptance sha account source_path now)
  write (write_audit (some sha) (some account) "accepted" (some reason) none actor now)
  commit)

unfoldable pub finalize_known_ingest :
    String → String → String → String → String → String → ℕ → String → String → Exec Db Unit
finalize_known_ingest sha known_status account id source_path modified_time size actor now = do
  raise_if (not (is_allowed known_status)) (invalid_known_status known_status)
  with_connect (do
    begin_immediate
    write (write_metadata account id size modified_time sha now)
    write_reference sha (write_origin account id sha (some source_path) now)
    write (
        write_audit (some sha) (some account) (cat "discard_" known_status) (some "known_hash") none
          actor now)
    commit)

unfoldable pub finalize_purge_from_rejected : String → String → String → String → Exec Db Unit
finalize_purge_from_rejected sha reason actor now = with_connect (do
  begin_immediate
  row ← query (λ db. find_first (has_sha sha) db.files)
  require_status purge_missing purge_status sha "rejected" row
  write (update_file sha (set_status_path "purged" none now))
  write (write_audit (some sha) none "purged" (some reason) none actor now)
  commit)

abbrev require_row : String → Option FileRow → Exec Conn Unit
require_row sha none = rollback >> raise (transition_missing sha)
require_row sha (some row) = pure tt

unfoldable pub transition_status : String → String → String → String → String → Exec Db Unit
transition_status sha new_status reason actor now = do
  validate_status new_status
  with_connect (do
    begin_immediate
    row ← query (λ db. find_first (has_sha sha) db.files)
    require_row sha row
    write (update_file sha (set_status new_status now))
    write (write_audit (some sha) none new_status (some reason) none actor now)
    commit)
