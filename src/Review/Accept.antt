-- ===== src/Review/Accept.antt =====
-- The acceptance of a pending file and the purge of a rejected one (`accept_sha256` and
-- `purge_sha256` of src/nightfall_photo_ingress/reject.py).
use nightfall_photo_ingress.Base.{String, not, Option, none, some, ◌==◌, if◌then◌else◌}
use nightfall_photo_ingress.Base.Exec.{
  no_origin_context, unknown_sha256, accept_flow_status, no_current_path, unsafe_accept_source,
  purge_flow_status, unsafe_purge_path, Exec, pure, raise_if, or_raise, lift, gets, wrap_flow,
  ◌>>=◌, ◌>>◌,
}
use nightfall_photo_ingress.Text.{text_or}
use nightfall_photo_ingress.Registry.Schema.{FileRow}
use nightfall_photo_ingress.Registry.Files.{AcceptContext, get_file, get_accept_context}
use nightfall_photo_ingress.Registry.Lifecycle.{
  finalize_accept_from_pending, finalize_purge_from_rejected,
}
use nightfall_photo_ingress.Registry.Migrations.{initialize}
use nightfall_photo_ingress.World.{Os, World, exists, on_db, utc_now, unlink}
use nightfall_photo_ingress.Storage.Render.{
  is_within, render_storage_relative_path, join, parent_name, choose_collision_safe_destination,
}
use nightfall_photo_ingress.Storage.Commit.{commit_pending_to_accepted}
use nightfall_photo_ingress.Review.Results.{Core, AcceptResult, PurgeResult, normalize_sha}

-- The guards of `accept_sha256`, in their order, and what they read: the origin's context, the row
-- and its current path. The clock is read once, for the time used where the registry has none.
unfoldable pub accept_checks :
    Os → Core → String → String → Exec World (AcceptContext × FileRow × String)
accept_checks os core sha normalized = do
  now ← utc_now os
  found ← gets (λ w. get_accept_context normalized now w.db)
  context ← or_raise found (no_origin_context sha)
  row_found ← gets (λ w. get_file normalized w.db)
  row ← or_raise row_found (unknown_sha256 sha)
  raise_if (not (row.status == "pending")) (accept_flow_status row.status)
  source ← or_raise row.current_path (no_current_path sha)
  raise_if (not (is_within os source core.pending_path)) (unsafe_accept_source source)
  pure (context, row, source)

-- The destination and the move.
unfoldable pub accept_move :
    Os → Core → String → AcceptContext → FileRow → String → Exec World String
accept_move os core normalized context row source = do
  parts ← lift (
      render_storage_relative_path os core.accepted_storage_template normalized
        (text_or row.original_filename normalized) context.modified_time)
  fs ← gets (λ w. w.fs)
  destination ← lift (choose_collision_safe_destination fs (join core.accepted_path parts))
  commit_pending_to_accepted os source destination
      (os.same_device source (parent_name destination).0) (some core.accepted_path)
  pure destination

unfoldable pub accept_sha256 : Os → Core → String → Option String → String → Exec World AcceptResult
unfolding accept_checks accept_move
accept_sha256 os core sha reason actor = do
  normalized ← lift (normalize_sha sha)
  on_db initialize
  checked ← accept_checks os core sha normalized
  destination ← accept_move os core normalized checked.0 checked.1 checked.2
  now ← utc_now os
  on_db (
      finalize_accept_from_pending normalized destination checked.0.account checked.0.source_path
        actor (text_or reason "operator_accept") now)
  pure (record { sha256 = normalized; destination_path = destination })

-- The deletion of the file of a rejected row, if it has a path: refused outside the rejected root.
unfoldable pub purge_path : Os → Core → Option String → Exec World (Option String)
purge_path os core none = pure none
purge_path os core (some current) = do
  raise_if (not (is_within os current core.rejected_path)) (unsafe_purge_path current)
  there ← gets (λ w. exists current w.fs)
  if there then (do unlink current; pure (some current)) else pure none

unfoldable pub purge_sha256 : Os → Core → String → Option String → String → Exec World PurgeResult
unfolding purge_path
purge_sha256 os core sha reason actor = do
  normalized ← lift (normalize_sha sha)
  on_db initialize
  found ← gets (λ w. get_file normalized w.db)
  row ← or_raise found (unknown_sha256 sha)
  raise_if (not (row.status == "rejected")) (purge_flow_status row.status)
  purged ← purge_path os core row.current_path
  now ← utc_now os
  wrap_flow (on_db (finalize_purge_from_rejected normalized (text_or reason "cli_purge") actor now))
  pure (record { sha256 = normalized; purged_path = purged })
