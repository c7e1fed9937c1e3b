-- ===== src/Tests/Drifts.antt =====
-- The reconciliation of the staging folder and the aged entries of the pairing queue at concrete
-- inputs.
use nightfall_photo_ingress.Text.{starts}
use nightfall_photo_ingress.Base.{
  ℕ, ◌+◌, String, Option, none, some, List, [], ◌∷◌, refl, ◌≡◌, length, ◌==◌, if◌then◌else◌,
}
use nightfall_photo_ingress.World.{Fs, content}
use nightfall_photo_ingress.LivePhoto.{Queued, photo}
use nightfall_photo_ingress.LivePhoto.Unresolved.{unresolved, pop_aged_unresolved}
use nightfall_photo_ingress.Ingest.Drift.{DriftCall, category_of, reconcile_staging_drift}
use nightfall_photo_ingress.Ingest.Drift.Untouched.{reconcile_staging_drift-Untouched}

-- All files are of the same age, but the one that has no age.
abbrev age : String → Option ℕ
age path = if path == "/staging/new.jpg" then none else some 90000

abbrev call : DriftCall
call = record {
  quarantine_dir = "/quarantine";
  tmp_ttl_minutes = 60;
  failed_ttl_hours = 1;
  orphan_ttl_days = 1;
  warning_threshold = 10;
  now = 5;
  age = age;
}

abbrev files : Fs
files =
    ("/staging/new.jpg", 1 ∷ [])
    ∷ ("/staging/a/x.jpg", 2 ∷ [])
    ∷ ("/staging/b/x.jpg", 3 ∷ [])
    ∷ ("/staging/c/x.jpg", 4 ∷ [])
    ∷ []

abbrev listed : List String
listed = "/staging/new.jpg" ∷ "/staging/a/x.jpg" ∷ "/staging/b/x.jpg" ∷ "/staging/c/x.jpg" ∷ []

reconcile_staging_drift-Untouched_example :
    let (r, fs') = reconcile_staging_drift call listed files in
    (content "/staging/new.jpg" fs' ≡ content "/staging/new.jpg" files)
    × (r.quarantined_count
        ≡ r.stale_temp_count + r.completed_unpersisted_count + r.orphan_unknown_count)
unfolding category_of starts
reconcile_staging_drift-Untouched_example =
    reconcile_staging_drift-Untouched call listed files "/staging/new.jpg" refl refl

-- Of three old files with one name, three are reported in the quarantine, but two are there: the third
-- took the place of the second.
reconcile_lost_run :
    let (r, fs') = reconcile_staging_drift call listed files in
    (r.quarantined_count ≡ 3)
    × ((length fs' ≡ 3)
        × ((content "/quarantine/orphan_unknown/x.jpg" fs' ≡ some (2 ∷ []))
            × (content "/quarantine/orphan_unknown/x-5.jpg" fs' ≡ some (4 ∷ []))))
unfolding reconcile_staging_drift
reconcile_lost_run = (refl, (refl, (refl, refl)))

abbrev waiting : String → Queued
waiting queued_at = record {
  entry = record {
    account = "alice";
    onedrive_id = "1";
    filename = "a.jpg";
    captured_at = "2026-01-01T00:00:00Z";
  };
  component = photo;
  stem = "a";
  captured_at = 0;
  queued_at = queued_at;
}

abbrev waited : String → ℕ
waited queued_at = if queued_at == "2026-01-01" then 90 else 10

-- The entry that is old enough is removed, the other is kept.
pop_aged_run :
    ((pop_aged_unresolved waited 60 (waiting "2026-01-02" ∷ waiting "2026-01-01" ∷ [])).0
      ≡ unresolved waited (waiting "2026-01-01") ∷ [])
    × ((pop_aged_unresolved waited 60 (waiting "2026-01-02" ∷ waiting "2026-01-01" ∷ [])).1
        ≡ waiting "2026-01-02" ∷ [])
unfolding pop_aged_unresolved
pop_aged_run = (refl, refl)
