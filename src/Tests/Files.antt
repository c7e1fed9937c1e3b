-- ===== src/Tests/Files.antt =====
-- The theorems on names, on moves of files and on the queue of live photos at concrete inputs.
use nightfall_photo_ingress.Base.{
  ℕ, ◌≤◌, String, true, false, some, List, [], ◌∷◌, refl, ◌≡◌, ◌≢◌, All, arith, eq_iff,
}
use nightfall_photo_ingress.Base.Exec.{ok, copy_size_mismatch}
use nightfall_photo_ingress.Sql.{select_where}
use nightfall_photo_ingress.Text.{AllChars, cat}
use nightfall_photo_ingress.World.{content, exists, put}
use nightfall_photo_ingress.Storage.Render.{
  is_safe, sanitize_filename, render_storage_relative_path, candidate,
  choose_collision_safe_destination_with_threshold, render_text, is_within,
}
use nightfall_photo_ingress.Storage.Commit.{
  CommitResult, copy_verify_unlink, commit_staging_to_accepted, install_copy,
}
use nightfall_photo_ingress.Storage.Names.{
  IsPlain, sanitize_filename-safe, render-IsPlain, choose_collision_safe_destination-fresh,
}
use nightfall_photo_ingress.Storage.Durable.{IsDelivered, commit-delivers}
use nightfall_photo_ingress.Storage.Durable.Raised.{IsSafe, commit-keeps_source}
use nightfall_photo_ingress.LivePhoto.{
  Queued, LivePhotoPair, photo, video, ingest_queued, make_pair, distance,
}
use nightfall_photo_ingress.LivePhoto.Queue.{
  IsEntry, IsUnpaired, matches, ingest_queued-IsUnpaired, ingest_queued-pair,
}
use nightfall_photo_ingress.Tests.Data.{os, failing_os, w, fs, sha_a}

sanitize_filename-safe_example :
    (sanitize_filename "../a b.jpg" ≢ "") × AllChars is_safe (sanitize_filename "../a b.jpg")
sanitize_filename-safe_example = sanitize_filename-safe "../a b.jpg"

render-IsPlain_example : All IsPlain ("2026" ∷ "a.jpg" ∷ [])
unfolding render_text render_storage_relative_path
render-IsPlain_example =
    render-IsPlain os "{yyyy}//./{original}" sha_a "a.jpg" "t" ("2026" ∷ "a.jpg" ∷ []) refl

choose_collision_safe_destination-fresh_example :
    (p : String) × (choose_collision_safe_destination_with_threshold fs "/pending/2026/a.jpg" 10
      ≡ ok p)
    × (exists p fs ≡ false)
unfolding candidate content
choose_collision_safe_destination-fresh_example =
    choose_collision_safe_destination-fresh fs "/pending/2026/a.jpg" 10 1 (omega arith)
      (omega arith) refl

other_than_tmp : ◌≢◌ {A = String} "/staging/b" "/pending/b.tmp"
other_than_tmp e = ground (arith, eq_iff "/staging/b" "/pending/b.tmp")

other_than_destination : ◌≢◌ {A = String} "/staging/b" "/pending/b"
other_than_destination e = ground (arith, eq_iff "/staging/b" "/pending/b")

commit-keeps_source_example :
    IsSafe failing_os "/staging/b" "/pending/b" w
      (commit_staging_to_accepted failing_os "/staging/b" "/pending/b" false (some "/pending") w).1
unfolding commit_staging_to_accepted content install_copy is_within cat put
commit-keeps_source_example =
    commit-keeps_source failing_os "/staging/b" "/pending/b" w false (some "/pending")
      (copy_size_mismatch 2 0) other_than_tmp refl

abbrev result : CommitResult
result = record { destination_path = "/pending/b"; bytes_written = 2; method = copy_verify_unlink }

commit-delivers_example :
    (copy : List ℕ) × IsDelivered os "/staging/b" "/pending/b"
      (7 ∷ 8 ∷ [])
      copy
      result
      (commit_staging_to_accepted os "/staging/b" "/pending/b" false (some "/pending") w).1.fs
unfolding cat commit_staging_to_accepted content install_copy is_within put
commit-delivers_example =
    commit-delivers os "/staging/b" "/pending/b" w false (some "/pending") (7 ∷ 8 ∷ []) result
      other_than_tmp other_than_destination refl refl

abbrev still : Queued
still = record {
  entry = record {
    account = "anna";
    onedrive_id = "id1";
    filename = "IMG_1.HEIC";
    captured_at = "t";
  };
  component = photo;
  stem = "IMG_1";
  captured_at = 5000000;
  queued_at = "t";
}

abbrev motion : Queued
motion = record still {
  entry = record {
    account = "anna";
    onedrive_id = "id2";
    filename = "IMG_1.MOV";
    captured_at = "t";
  };
  component = video;
  captured_at = 6000000;
}

ingest_queued-IsUnpaired_example : IsUnpaired 3 (ingest_queued 3 motion (still ∷ [])).0
ingest_queued-IsUnpaired_example = ingest_queued-IsUnpaired 3 motion (still ∷ []) (tt, tt)

abbrev joined : LivePhotoPair
joined = record {
  account = "anna";
  stem = "IMG_1";
  photo_onedrive_id = "id1";
  video_onedrive_id = "id2";
}

ingest_queued-pair_example :
    (best : Queued) × (IsEntry best (still ∷ []) × (matches 3 motion best ≡ true))
    × (joined ≡ make_pair motion.entry motion.component motion.stem best)
    × All
        (λ x.
          distance best.captured_at motion.captured_at ≤ distance x.captured_at motion.captured_at)
        (select_where (matches 3 motion) (still ∷ []))
unfolding ingest_queued
ingest_queued-pair_example = ingest_queued-pair 3 motion (still ∷ []) joined refl
