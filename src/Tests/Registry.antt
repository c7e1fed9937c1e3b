-- ===== src/Tests/Registry.antt =====
-- The theorems on the registry at a concrete database.
use nightfall_photo_ingress.Base.{
  none, some, List, [], ◌∷◌, ◌++◌, refl, ◌≡◌, ◌↔◌, ◌==◌, if◌then◌else◌, ◌+◌,
}
use nightfall_photo_ingress.Base.Exec.{ok, err, integrity, accept_missing}
use nightfall_photo_ingress.Sql.{find_first}
use nightfall_photo_ingress.Registry.Schema.{half_rebuilt, FileRow, AuditRow}
use nightfall_photo_ingress.Registry.Conn.{is_allowed, set_status}
use nightfall_photo_ingress.Registry.Files.{get_file, acceptance_count}
use nightfall_photo_ingress.Registry.Lifecycle.{
  finalize_accept_from_pending, finalize_purge_from_rejected, finalize_unknown_ingest,
}
use nightfall_photo_ingress.Registry.Pairs.{apply_live_photo_pair_status, get_live_photo_pair}
use nightfall_photo_ingress.Registry.WellFormed.{IsWellFormed}
use nightfall_photo_ingress.Registry.Migrations.{initialize}
use nightfall_photo_ingress.Registry.Ops.{
  Op, run_op, run, run-IsWellFormed, accept, purge, transition, is_whole,
}
use nightfall_photo_ingress.Registry.Ops.Atomic.{run_op-atomic}
use nightfall_photo_ingress.Registry.Transitions.Pair.{apply_live_photo_pair_status_lem}
use nightfall_photo_ingress.Registry.Ops.Log.{audit_rows, run_op-audit_log, run-audit_log}
use nightfall_photo_ingress.Registry.Transitions.Accept.{
  finalize_accept-ok_iff, finalize_accept_lem,
}
use nightfall_photo_ingress.Registry.Transitions.Purge.{finalize_purge-ok_iff, finalize_purge_lem}
use nightfall_photo_ingress.Registry.Transitions.Ingest.{finalize_unknown_ingest_lem}
use nightfall_photo_ingress.Tests.Data.{
  db, db-IsWellFormed, sha_a, sha_b, pending_a, rejected_b, pair_ab,
}

-- An acceptance, an acceptance of no file, a purge, and a status that is not allowed.
abbrev calls : List Op
calls =
    accept sha_a "/accepted/a.jpg" "anna" "/Camera/a.jpg" "cli" "ok" "t1"
    ∷ accept "ff" "/accepted/f.jpg" "anna" "/Camera/f.jpg" "cli" "ok" "t2"
    ∷ purge sha_b "old" "cli" "t3"
    ∷ transition sha_a "lost" "" "cli" "t4"
    ∷ []

run-IsWellFormed_example : IsWellFormed (run calls db)
run-IsWellFormed_example = run-IsWellFormed calls db db-IsWellFormed

run_op-atomic_example :
    (run_op (accept "ff" "/accepted/f.jpg" "anna" "/Camera/f.jpg" "cli" "ok" "t2") db).1 ≡ db
unfolding finalize_accept_from_pending find_first is_whole run_op
run_op-atomic_example =
    run_op-atomic (accept "ff" "/accepted/f.jpg" "anna" "/Camera/f.jpg" "cli" "ok" "t2") db
      (accept_missing "ff") refl db-IsWellFormed refl

run_op-audit_log_example :
    (run_op (purge sha_b "old" "cli" "t3") db).1.audit_log
    ≡ db.audit_log ++ audit_rows (purge sha_b "old" "cli" "t3") db
unfolding run_op finalize_purge_from_rejected find_first
run_op-audit_log_example = run_op-audit_log (purge sha_b "old" "cli" "t3") db refl

run-audit_log_example : (more : List AuditRow) × ((run calls db).audit_log ≡ db.audit_log ++ more)
run-audit_log_example = run-audit_log calls db db-IsWellFormed

apply_live_photo_pair_status_lem_example :
    let (result, db') =
      apply_live_photo_pair_status "pair" "rejected" "no" "cli" "t1" "t2" "t3" db in
    (result ≡ ok tt)
    × (get_live_photo_pair "pair" db'
        ≡ some (record pair_ab { status = "rejected"; updated_at = "t3" }))
    × (get_file sha_a db'
        ≡ some (
            if sha_a == pair_ab.video_sha256
            then set_status "rejected" "t2" pending_a
            else if sha_a == pair_ab.photo_sha256
            then set_status "rejected" "t1" pending_a
            else pending_a))
unfolding find_first get_file get_live_photo_pair is_allowed
apply_live_photo_pair_status_lem_example =
    apply_live_photo_pair_status_lem "pair" "rejected" "no" "cli" "t1" "t2" "t3" db pair_ab sha_a
      pending_a db-IsWellFormed refl refl refl

finalize_accept-ok_iff_example :
    ((finalize_accept_from_pending sha_b "/accepted/b" "anna" "/b" "cli" "ok" "t1" db).0 ≡ ok tt)
    ↔ ((row : FileRow) × (get_file sha_b db ≡ some row) × (row.status ≡ "pending"))
finalize_accept-ok_iff_example =
    finalize_accept-ok_iff sha_b "/accepted/b" "anna" "/b" "cli" "ok" "t1" db

finalize_accept_lem_example :
    let (r, db') =
      finalize_accept_from_pending sha_a "/accepted/a" "anna" "/a" "cli" "ok" "t1" db in
    (r ≡ ok tt)
    × (get_file sha_b db' ≡ (
        if sha_a == sha_b
        then some (record pending_a {
          status = "accepted";
          current_path = some "/accepted/a";
          updated_at = "t1";
        })
        else get_file sha_b db))
    × (acceptance_count sha_b db'
        ≡ (if sha_a == sha_b then acceptance_count sha_b db + 1 else acceptance_count sha_b db))
unfolding get_file find_first
finalize_accept_lem_example =
    finalize_accept_lem sha_a "/accepted/a" "anna" "/a" "cli" "ok" "t1" db pending_a sha_b refl refl

finalize_purge-ok_iff_example :
    ((finalize_purge_from_rejected sha_a "old" "cli" "t1" db).0 ≡ ok tt)
    ↔ ((row : FileRow) × (get_file sha_a db ≡ some row) × (row.status ≡ "rejected"))
finalize_purge-ok_iff_example = finalize_purge-ok_iff sha_a "old" "cli" "t1" db

finalize_purge_lem_example :
    let (r, db') = finalize_purge_from_rejected sha_b "old" "cli" "t1" db in
    (r ≡ ok tt)
    × (get_file sha_b db' ≡ (
        if sha_b == sha_b
        then some (record rejected_b { status = "purged"; current_path = none; updated_at = "t1" })
        else get_file sha_b db))
unfolding get_file find_first
finalize_purge_lem_example = finalize_purge_lem sha_b "old" "cli" "t1" db rejected_b sha_b refl refl

finalize_unknown_ingest_lem_example :
    let (r, db') =
      finalize_unknown_ingest "cc" 9 "c.jpg" "/pending/c.jpg" "anna" "id3" "/c.jpg" "t0" "cli" none
        "t1" db in
    (r ≡ ok tt)
    × (get_file "cc" db'
        ≡ some (record {
          sha256 = "cc";
          size_bytes = 9;
          status = "pending";
          original_filename = some "c.jpg";
          current_path = some "/pending/c.jpg";
          first_seen_at = elim (get_file "cc" db) [ none ↦ "t1" | some old ↦ old.first_seen_at ];
          updated_at = "t1";
        }))
finalize_unknown_ingest_lem_example =
    finalize_unknown_ingest_lem "cc" 9 "c.jpg" "/pending/c.jpg" "anna" "id3" "/c.jpg" "t0" "cli"
      "t1" db

-- A registry whose hash cache was left half rebuilt cannot be opened, and is left as it was.
half_rebuilt_run :
    initialize (record db { hash_cache_layout = half_rebuilt })
    ≡ (err integrity, record db { hash_cache_layout = half_rebuilt })
unfolding initialize
half_rebuilt_run = refl
