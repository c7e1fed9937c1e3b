-- ===== src/Review/Sound.antt =====
-- The invariant of the registry under the flows of src/nightfall_photo_ingress/reject.py.
use nightfall_photo_ingress.Base.{String, Option, none, some, List, [], ◌∷◌}
use nightfall_photo_ingress.Base.Exec.Keeps.{Keeps}
use nightfall_photo_ingress.Registry.Schema.{FileRow, PairRow}
use nightfall_photo_ingress.Registry.Migrations.{initialize-IsWellFormed}
use nightfall_photo_ingress.Registry.Preserve.{
  create_or_update_file-IsWellFormed, append_audit_event-IsWellFormed,
  clear_current_path-IsWellFormed, update_current_path-IsWellFormed,
  finalize_accept_from_pending-IsWellFormed, finalize_purge_from_rejected-IsWellFormed,
  transition_status-IsWellFormed, apply_live_photo_pair_status-IsWellFormed,
}
use nightfall_photo_ingress.Registry.Files.{AcceptContext}
use nightfall_photo_ingress.World.{Os}
use nightfall_photo_ingress.World.Keeps.{IsSound, sound_rules}
use nightfall_photo_ingress.Storage.Commit.{commit_pending_to_accepted}
use nightfall_photo_ingress.Storage.Sound.{commit-IsSound, sha256_file-IsSound, file_size-IsSound}
use nightfall_photo_ingress.Review.Results.{Core, TrashProcessResult}
use nightfall_photo_ingress.Review.Moves.{
  move_existing, move_physical_to_rejected, record_move, move_current, move_path, move_row,
  move_to_rejected_folder,
}
use nightfall_photo_ingress.Review.Reject.{
  RejectCall, reject_unknown, reject_pair, reject_noop, reject_existing, reject_single, reject_row,
  reject_found, apply_reject, reject_sha256,
}
use nightfall_photo_ingress.Review.Accept.{
  accept_checks, accept_move, accept_sha256, purge_path, purge_sha256,
}
use nightfall_photo_ingress.Review.Trash.{trash_one, trash_loop, process_trash}

module _ (os : Os) (core : Core) where
  move_existing-IsSound :
      (source sha : String) (filename : Option String) (time : String)
      → Keeps IsSound (move_existing os core source sha filename time)
  unfolding move_existing
  move_existing-IsSound source sha filename time = search sound_rules depth 12

  move_physical-IsSound :
      (source : Option String) (sha : String) (filename : Option String) (time : String)
      → Keeps IsSound (move_physical_to_rejected os core source sha filename time)
  unfolding move_physical_to_rejected
  move_physical-IsSound none sha filename time = search sound_rules
  move_physical-IsSound (some source) sha filename time =
      search (sound_rules, move_existing-IsSound) depth 12

  record_move-IsSound :
      (sha source : String) (moved : Option String)
      → Keeps IsSound (record_move os sha source moved)
  unfolding record_move
  record_move-IsSound sha source none = search sound_rules
  record_move-IsSound sha source (some destination) =
      search (sound_rules, update_current_path-IsWellFormed) depth 12

  move_current-IsSound :
      (sha : String) (row : FileRow) (source : String)
      → Keeps IsSound (move_current os core sha row source)
  unfolding move_current
  move_current-IsSound sha row source =
      search
        (sound_rules, clear_current_path-IsWellFormed, move_physical-IsSound, record_move-IsSound)
        depth 16

  path-IsSound :
      (sha : String) (row : FileRow) (path : Option String)
      → Keeps IsSound (move_path os core sha row path)
  unfolding move_path
  path-IsSound sha row none = search sound_rules
  path-IsSound sha row (some source) = move_current-IsSound sha row source

  move_row-IsSound :
      (sha : String) (found : Option FileRow) → Keeps IsSound (move_row os core sha found)
  unfolding move_row
  move_row-IsSound sha none = search sound_rules
  move_row-IsSound sha (some row) = path-IsSound sha row row.current_path

  move_to_rejected-IsSound : (sha : String) → Keeps IsSound (move_to_rejected_folder os core sha)
  unfolding move_to_rejected_folder
  move_to_rejected-IsSound sha = search (sound_rules, move_row-IsSound)

  reject_unknown-IsSound : (c : RejectCall) → Keeps IsSound (reject_unknown os core c)
  unfolding reject_unknown
  reject_unknown-IsSound c =
      search
        (
          sound_rules, move_physical-IsSound, create_or_update_file-IsWellFormed,
          append_audit_event-IsWellFormed,
        )
        depth 16

  reject_pair-IsSound :
      (c : RejectCall) (pair : PairRow) → Keeps IsSound (reject_pair os core c pair)
  unfolding reject_pair
  reject_pair-IsSound c pair =
      search (sound_rules, move_to_rejected-IsSound, apply_live_photo_pair_status-IsWellFormed)
        depth 16

  reject_noop-IsSound : (c : RejectCall) → Keeps IsSound (reject_noop os c)
  unfolding reject_noop
  reject_noop-IsSound c = search (sound_rules, append_audit_event-IsWellFormed) depth 12

  reject_existing-IsSound : (c : RejectCall) → Keeps IsSound (reject_existing os core c)
  unfolding reject_existing
  reject_existing-IsSound c =
      search (sound_rules, move_to_rejected-IsSound, transition_status-IsWellFormed) depth 16

  reject_single-IsSound :
      (c : RejectCall) (row : FileRow) → Keeps IsSound (reject_single os core c row)
  unfolding reject_single
  reject_single-IsSound c row = search (sound_rules, reject_noop-IsSound, reject_existing-IsSound)

  reject_row-IsSound :
      (c : RejectCall) (row : FileRow) (pair : Option PairRow)
      → Keeps IsSound (reject_row os core c row pair)
  unfolding reject_row
  reject_row-IsSound c row none = reject_single-IsSound c row
  reject_row-IsSound c row (some pair) =
      search (sound_rules, reject_single-IsSound, reject_pair-IsSound)

  reject_found-IsSound :
      (c : RejectCall) (found : Option FileRow) → Keeps IsSound (reject_found os core c found)
  unfolding reject_found
  reject_found-IsSound c none = reject_unknown-IsSound c
  reject_found-IsSound c (some row) = search (sound_rules, reject_row-IsSound)

  pub apply_reject-IsSound : (c : RejectCall) → Keeps IsSound (apply_reject os core c)
  unfolding apply_reject
  apply_reject-IsSound c = search (sound_rules, reject_found-IsSound)

  pub reject_sha256-IsSound :
      (sha : String) (reason : Option String) (actor : String)
      → Keeps IsSound (reject_sha256 os core sha reason actor)
  unfolding reject_sha256
  reject_sha256-IsSound sha reason actor =
      search (sound_rules, initialize-IsWellFormed, apply_reject-IsSound) depth 12

  accept_checks-IsSound :
      (sha normalized : String) → Keeps IsSound (accept_checks os core sha normalized)
  unfolding accept_checks
  accept_checks-IsSound sha normalized = search sound_rules depth 24

  accept_move-IsSound :
      (normalized : String) (context : AcceptContext) (row : FileRow) (source : String)
      → Keeps IsSound (accept_move os core normalized context row source)
  unfolding accept_move commit_pending_to_accepted
  accept_move-IsSound normalized context row source = search (sound_rules, commit-IsSound) depth 14

  pub accept_sha256-IsSound :
      (sha : String) (reason : Option String) (actor : String)
      → Keeps IsSound (accept_sha256 os core sha reason actor)
  unfolding accept_sha256
  accept_sha256-IsSound sha reason actor =
      search
        (
          sound_rules, initialize-IsWellFormed, accept_checks-IsSound, accept_move-IsSound,
          finalize_accept_from_pending-IsWellFormed,
        )
        depth 16

  purge_path-IsSound : (path : Option String) → Keeps IsSound (purge_path os core path)
  unfolding purge_path
  purge_path-IsSound none = search sound_rules
  purge_path-IsSound (some path) = search sound_rules depth 12

  pub purge_sha256-IsSound :
      (sha : String) (reason : Option String) (actor : String)
      → Keeps IsSound (purge_sha256 os core sha reason actor)
  unfolding purge_sha256
  purge_sha256-IsSound sha reason actor =
      search
        (
          sound_rules, initialize-IsWellFormed, purge_path-IsSound,
          finalize_purge_from_rejected-IsWellFormed,
        )
        depth 20

  trash_one-IsSound : (path : String) → Keeps IsSound (trash_one os core path)
  unfolding trash_one
  trash_one-IsSound path =
      search (sound_rules, sha256_file-IsSound, file_size-IsSound, apply_reject-IsSound) depth 12

  trash_loop-IsSound :
      (paths : List String) (t : TrashProcessResult) → Keeps IsSound (trash_loop os core paths t)
  unfolding trash_loop
  trash_loop-IsSound [] t = search sound_rules
  trash_loop-IsSound (path ∷ paths) t =
      search (sound_rules, trash_one-IsSound, trash_loop-IsSound paths)

  pub process_trash-IsSound : (paths : List String) → Keeps IsSound (process_trash os core paths)
  unfolding process_trash
  process_trash-IsSound paths =
      search (sound_rules, initialize-IsWellFormed, trash_loop-IsSound) depth 12
