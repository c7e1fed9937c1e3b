-- ===== src/Tests/Flows.antt =====
-- The theorems on whole flows at a concrete world.
use nightfall_photo_ingress.Registry.Pairs.{
  apply_live_photo_pair_status, get_live_photo_pair, get_live_photo_pair_for_member,
  set_pair_status,
}
use nightfall_photo_ingress.Review.Moves.{
  move_current, move_existing, move_path, move_physical_to_rejected, move_row,
  move_to_rejected_folder, record_move,
}
use nightfall_photo_ingress.Review.Reject.{
  apply_reject, reject_existing, reject_found, reject_noop, reject_pair, reject_row, reject_single,
  reject_unknown,
}
use nightfall_photo_ingress.Registry.Conn.{
  update_file, write_acceptance, write_audit, is_allowed, write_file,
}
use nightfall_photo_ingress.Registry.Files.{
  get_accept_context, get_file, latest_origin, append_audit_event, clear_current_path,
  create_or_update_file, update_current_path,
}
use nightfall_photo_ingress.Registry.Lifecycle.{
  finalize_accept_from_pending, finalize_purge_from_rejected, transition_status,
}
use nightfall_photo_ingress.Registry.Migrations.{initialize}
use nightfall_photo_ingress.Sql.{exists_where, find_first, select_where, update_where, upsert}
use nightfall_photo_ingress.Storage.Commit.{
  commit_copy, commit_pending_to_accepted, commit_rename, commit_staging_to_accepted, install_copy,
  sha256_file,
}
use nightfall_photo_ingress.Text.{
  all_chars, cat, decimal, is_space, lower, lstrip, replace, rstrip, split, split_last, starts,
  strip, take_text, text_length,
}
use mathlib.Core.Path.{subst}
use nightfall_photo_ingress.Base.{
  dedupe, ℕ, String, true, Option, none, some, List, [], ◌∷◌, refl, ◌≡◌,
}
use nightfall_photo_ingress.World.{World, content, put, remove}
use nightfall_photo_ingress.Registry.WellFormed.{IsWellFormed}
use nightfall_photo_ingress.Storage.Render.{
  is_within, candidate, choose_collision_safe_destination,
  choose_collision_safe_destination_with_threshold, drop_dots, has_parent_part, is_edge, is_safe,
  join, parent_name, path_parts, render_storage_relative_path, render_text, sanitize_filename,
  stem_suffix, substitute, try_candidates,
}
use nightfall_photo_ingress.Review.Results.{
  AcceptResult, PurgeResult, TrashProcessResult, is_hex, normalize_sha,
}
use nightfall_photo_ingress.Review.Accept.{
  accept_sha256, purge_path, purge_sha256, accept_checks, accept_move,
}
use nightfall_photo_ingress.Review.Trash.{process_trash, trash_loop, trash_one}
use nightfall_photo_ingress.Review.Outcome.Counts.{AddsUp, process_trash-AddsUp}
use nightfall_photo_ingress.Review.Outcome.Purged.{purge_path-deletes}
use nightfall_photo_ingress.Review.Outcome.Final.{
  IsOnRecord, accept_sha256-IsAccepted, purge_sha256-IsPurged,
}
use nightfall_photo_ingress.Flows.{
  Flow, run_flows, run_flows-IsWellFormed, reject_flow, accept_flow, purge_flow, trash_flow,
  ingest_flow, replay_flow,
}
use nightfall_photo_ingress.Tests.Data.{
  os, core, settings, staged, w, db-IsWellFormed, sha_a, sha_b,
}

abbrev day : List Flow
day =
    ingest_flow settings staged
    ∷ accept_flow sha_a none "cli"
    ∷ purge_flow sha_b none "cli"
    ∷ reject_flow sha_a (some "blurred") "api"
    ∷ trash_flow ("/trash/a.jpg" ∷ [])
    ∷ accept_flow "not a hash" none "cli"
    ∷ replay_flow true
    ∷ []

run_flows-IsWellFormed_example : IsWellFormed (run_flows os core day w).db
run_flows-IsWellFormed_example = run_flows-IsWellFormed os core day w db-IsWellFormed

abbrev accepted : AcceptResult
accepted = record { sha256 = sha_a; destination_path = "/accepted/2026/03/a.jpg" }

accept_sha256-IsAccepted_example :
    IsOnRecord sha_a "accepted"
      (some "/accepted/2026/03/a.jpg")
      (accept_sha256 os core sha_a none "cli" w).1.db
unfolding accept_sha256 content is_within update_file write_acceptance write_audit
    get_accept_context get_file latest_origin finalize_accept_from_pending initialize accept_checks
    accept_move is_hex normalize_sha exists_where find_first select_where update_where commit_copy
    commit_pending_to_accepted commit_rename commit_staging_to_accepted install_copy sha256_file
    candidate choose_collision_safe_destination choose_collision_safe_destination_with_threshold
    drop_dots has_parent_part is_edge is_safe join parent_name path_parts
    render_storage_relative_path render_text sanitize_filename stem_suffix substitute try_candidates
    all_chars cat decimal is_space lower lstrip replace rstrip split split_last starts strip
    take_text text_length put remove
accept_sha256-IsAccepted_example = accept_sha256-IsAccepted os core sha_a none "cli" w accepted refl

abbrev purged : PurgeResult
purged = record { sha256 = sha_b; purged_path = some "/rejected/2026/b.jpg" }

purge_sha256-IsPurged_example :
    IsOnRecord sha_b "purged" none (purge_sha256 os core sha_b none "cli" w).1.db
unfolding content find_first get_file initialize is_within finalize_purge_from_rejected
    normalize_sha purge_sha256
purge_sha256-IsPurged_example = purge_sha256-IsPurged os core sha_b none "cli" w purged refl

abbrev KeptNone : Option (List ℕ) → Type 0
KeptNone none = Unit
KeptNone (some bytes) = ⊥

purge_path-deletes_example :
    ◌≡◌ {A = Option String} (some "/rejected/2026/b.jpg") (some "/rejected/2026/b.jpg")
    × (is_within os "/rejected/2026/b.jpg" core.rejected_path ≡ true)
unfolding purge_path content is_within starts cat remove
purge_path-deletes_example =
    purge_path-deletes os core (some "/rejected/2026/b.jpg") w "/rejected/2026/b.jpg"
      (λ e. subst KeptNone e tt)

-- The same world without the pair.
abbrev solo : World
solo = record w { db = record w.db { live_photo_pairs = [] } }

abbrev emptied : TrashProcessResult
emptied = record {
  processed_files = 1;
  rejected_files = 1;
  noop_files = 0;
  unknown_files = 0;
  removed_paths = "/trash/a.jpg" ∷ "/pending/2026/a.jpg" ∷ [];
}

process_trash-AddsUp_example : AddsUp 1 emptied
unfolding candidate cat choose_collision_safe_destination
    choose_collision_safe_destination_with_threshold content decimal drop_dots find_first
    get_accept_context get_file has_parent_part initialize is_edge is_safe is_within join
    latest_origin lstrip is_allowed write_file append_audit_event clear_current_path
    create_or_update_file update_current_path transition_status apply_live_photo_pair_status
    get_live_photo_pair get_live_photo_pair_for_member set_pair_status move_current move_existing
    move_path move_physical_to_rejected move_row move_to_rejected_folder record_move apply_reject
    reject_existing reject_found reject_noop reject_pair reject_row reject_single reject_unknown
    dedupe trash_loop trash_one upsert parent_name path_parts process_trash put remove
    render_storage_relative_path render_text replace rstrip sanitize_filename select_where
    sha256_file split split_last starts stem_suffix strip substitute take_text text_length
    try_candidates update_file update_where write_audit
process_trash-AddsUp_example = process_trash-AddsUp os core ("/trash/a.jpg" ∷ []) solo emptied refl
