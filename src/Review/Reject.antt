-- ===== src/Review/Reject.antt =====
-- The rejection of one hash (`_apply_reject` and `reject_sha256` of
-- src/nightfall_photo_ingress/reject.py).
use nightfall_photo_ingress.Base.{
  dedupe, ℕ, String, Option, none, some, [], ◌++◌, ◌==◌, if◌then◌else◌,
}
use nightfall_photo_ingress.Base.Exec.{Exec, pure, lift, gets, wrap_flow, ◌>>=◌, ◌>>◌}
use nightfall_photo_ingress.Text.{text_or}
use nightfall_photo_ingress.Registry.Schema.{FileRow, PairRow}
use nightfall_photo_ingress.Registry.Files.{get_file, create_or_update_file, append_audit_event}
use nightfall_photo_ingress.Registry.Lifecycle.{transition_status}
use nightfall_photo_ingress.Registry.Pairs.{
  get_live_photo_pair_for_member, apply_live_photo_pair_status,
}
use nightfall_photo_ingress.Registry.Migrations.{initialize}
use nightfall_photo_ingress.World.{Os, World, on_db, utc_now}
use nightfall_photo_ingress.Review.Results.{
  Core, RejectResult, rejected_unknown, rejected_pair, reject_noop_already_rejected,
  rejected_existing, normalize_sha,
}
use nightfall_photo_ingress.Review.Moves.{move_physical_to_rejected, move_to_rejected_folder}

-- What `reject_sha256` and `process_trash` pass on.
pub record RejectCall : Type 0 where
  pub sha256 : String
  pub reason : String
  pub actor : String
  pub fallback_original_filename : Option String
  pub fallback_size_bytes : ℕ
  pub incoming_path : Option String

-- No row has the hash: the incoming file, if any, is retained and a row is made.
unfoldable pub reject_unknown : Os → Core → RejectCall → Exec World RejectResult
reject_unknown os core c = do
  move_time ← utc_now os
  retained ←
      move_physical_to_rejected os core c.incoming_path c.sha256 c.fallback_original_filename
        move_time
  now ← utc_now os
  on_db (
      create_or_update_file c.sha256 c.fallback_size_bytes "rejected" c.fallback_original_filename
        retained now)
  audit_time ← utc_now os
  on_db (append_audit_event (some c.sha256) "rejected" (some c.reason) c.actor none none audit_time)
  pure (record { sha256 = c.sha256; action = rejected_unknown; removed_paths = [] })

-- The hash is in a pair that is not rejected yet: both members go.
unfoldable pub reject_pair : Os → Core → RejectCall → PairRow → Exec World RejectResult
reject_pair os core c pair = do
  photo_paths ← move_to_rejected_folder os core pair.photo_sha256
  video_paths ← move_to_rejected_folder os core pair.video_sha256
  now_photo ← utc_now os
  now_video ← utc_now os
  now ← utc_now os
  on_db (
      apply_live_photo_pair_status pair.pair_id "rejected" c.reason c.actor now_photo now_video now)
  pure (record {
    sha256 = c.sha256;
    action = rejected_pair;
    removed_paths = dedupe (photo_paths ++ video_paths);
  })

unfoldable pub reject_noop : Os → RejectCall → Exec World RejectResult
reject_noop os c = do
  now ← utc_now os
  on_db (
      append_audit_event (some c.sha256) "reject_noop_already_rejected" (some c.reason) c.actor none
        none now)
  pure (record { sha256 = c.sha256; action = reject_noop_already_rejected; removed_paths = [] })

unfoldable pub reject_existing : Os → Core → RejectCall → Exec World RejectResult
reject_existing os core c = do
  paths ← move_to_rejected_folder os core c.sha256
  now ← utc_now os
  wrap_flow (on_db (transition_status c.sha256 "rejected" c.reason c.actor now))
  pure (record { sha256 = c.sha256; action = rejected_existing; removed_paths = dedupe paths })

-- A row has the hash, and its pair, if it has one, is rejected already.
unfoldable pub reject_single : Os → Core → RejectCall → FileRow → Exec World RejectResult
unfolding reject_noop reject_existing
reject_single os core c row =
    if row.status == "rejected" then reject_noop os c else reject_existing os core c

unfoldable pub reject_row :
    Os → Core → RejectCall → FileRow → Option PairRow → Exec World RejectResult
unfolding reject_single
reject_row os core c row none = reject_single os core c row
reject_row os core c row (some pair) =
    if pair.status == "rejected" then reject_single os core c row else reject_pair os core c pair

unfoldable pub reject_found : Os → Core → RejectCall → Option FileRow → Exec World RejectResult
unfolding reject_row
reject_found os core c none = reject_unknown os core c
reject_found os core c (some row) = do
  pair ← gets (λ w. get_live_photo_pair_for_member c.sha256 w.db)
  reject_row os core c row pair

unfoldable pub apply_reject : Os → Core → RejectCall → Exec World RejectResult
unfolding reject_found
apply_reject os core c = do found ← gets (λ w. get_file c.sha256 w.db); reject_found os core c found

unfoldable pub reject_sha256 : Os → Core → String → Option String → String → Exec World RejectResult
reject_sha256 os core sha reason actor = do
  normalized ← lift (normalize_sha sha)
  on_db initialize
  apply_reject os core (record {
    sha256 = normalized;
    reason = text_or reason "cli_reject";
    actor = actor;
    fallback_original_filename = none;
    fallback_size_bytes = 0;
    incoming_path = none;
  })
