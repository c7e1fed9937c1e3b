-- ===== src/Review/Outcome/Final.antt =====
-- The registry's row at the end of an acceptance and of a purge
-- (src/nightfall_photo_ingress/reject.py).
use nightfall_photo_ingress.Base.{String, not, ◌≡◌, refl, Option, none, some, ◌==◌, eq_refl}
use nightfall_photo_ingress.Base.Exec.{
  ok, lift, gets, or_raise, raise_if, unknown_sha256, purge_flow_status,
}
use nightfall_photo_ingress.Base.Exec.Ensures.{
  Ensures, Ensures-last, Ensures-return, Ensures-wrap_flow,
}
use nightfall_photo_ingress.Text.{text_or}
use nightfall_photo_ingress.World.{Os, World, on_db, utc_now}
use nightfall_photo_ingress.Registry.Schema.{Db, FileRow}
use nightfall_photo_ingress.Registry.Files.{get_file}
use nightfall_photo_ingress.Registry.Lifecycle.{
  finalize_accept_from_pending, finalize_purge_from_rejected,
}
use nightfall_photo_ingress.Registry.Migrations.{initialize}
use nightfall_photo_ingress.Registry.Transitions.Accept.{
  finalize_accept_lem, finalize_accept-ok_iff,
}
use nightfall_photo_ingress.Registry.Transitions.Purge.{finalize_purge_lem, finalize_purge-ok_iff}
use nightfall_photo_ingress.Review.Results.{Core, AcceptResult, PurgeResult, normalize_sha}
use nightfall_photo_ingress.Review.Accept.{
  accept_checks, accept_move, accept_sha256, purge_sha256, purge_path,
}

-- The file is on record with this status and path.
pub record IsOnRecord (sha status : String) (path : Option String) (db : Db) : Type 0 where
  pub row : FileRow
  pub found : get_file sha db ≡ some row
  pub has_status : row.status ≡ status
  pub has_path : row.current_path ≡ path

accept_call-IsOnRecord :
    (sha path account source actor reason now : String)
    → Ensures
        (λ _ w. IsOnRecord sha "accepted" (some path) w.db)
        (on_db (finalize_accept_from_pending sha path account source actor reason now))
accept_call-IsOnRecord sha path account source actor reason now = record {
  at = λ w a returned.
      let (row, found, st) =
        (finalize_accept-ok_iff sha path account source actor reason now w.db).0 returned in
      let (r, file, count) =
        finalize_accept_lem sha path account source actor reason now w.db row sha found st in
      record {
        row = record row { status = "accepted"; current_path = some path; updated_at = now };
        found = rw file (rw (eq_refl sha) refl);
        has_status = refl;
        has_path = refl;
      };
}

purge_call-IsOnRecord :
    (sha reason actor now : String)
    → Ensures
        (λ _ w. IsOnRecord sha "purged" none w.db)
        (on_db (finalize_purge_from_rejected sha reason actor now))
purge_call-IsOnRecord sha reason actor now = record {
  at = λ w a returned.
      let (row, found, st) = (finalize_purge-ok_iff sha reason actor now w.db).0 returned in
      let (r, file) = finalize_purge_lem sha reason actor now w.db row sha found st in
      record {
        row = record row { status = "purged"; current_path = none; updated_at = now };
        found = rw file (rw (eq_refl sha) refl);
        has_status = refl;
        has_path = refl;
      };
}

abbrev IsAccepted : AcceptResult → World → Type 0
IsAccepted r w = IsOnRecord r.sha256 "accepted" (some r.destination_path) w.db

accept-IsAccepted :
    (os : Os) (core : Core) (sha : String) (reason : Option String) (actor : String)
    → Ensures IsAccepted (accept_sha256 os core sha reason actor)
unfolding accept_sha256
accept-IsAccepted os core sha reason actor =
    Ensures-last IsAccepted (lift (normalize_sha sha)) _ (λ normalized.
      Ensures-last IsAccepted (on_db initialize) _ (λ _.
        Ensures-last IsAccepted (accept_checks os core sha normalized) _ (λ checked.
          Ensures-last IsAccepted (accept_move os core normalized checked.0 checked.1 checked.2) _
            (λ destination. Ensures-last IsAccepted (utc_now os) _ (λ now.
              Ensures-return IsAccepted _ _ (
                accept_call-IsOnRecord normalized destination checked.0.account
                  checked.0.source_path actor (text_or reason "operator_accept") now))))))

abbrev IsPurged : PurgeResult → World → Type 0
IsPurged r w = IsOnRecord r.sha256 "purged" none w.db

purge-IsPurged :
    (os : Os) (core : Core) (sha : String) (reason : Option String) (actor : String)
    → Ensures IsPurged (purge_sha256 os core sha reason actor)
unfolding purge_sha256
purge-IsPurged os core sha reason actor =
    Ensures-last IsPurged (lift (normalize_sha sha)) _ (λ normalized.
      Ensures-last IsPurged (on_db initialize) _ (λ _.
        Ensures-last IsPurged (gets (λ w. get_file normalized w.db)) _ (λ found.
          Ensures-last IsPurged (or_raise found (unknown_sha256 sha)) _ (λ row.
            Ensures-last IsPurged
              (raise_if (not (row.status == "rejected")) (purge_flow_status row.status)) _
              (λ _. Ensures-last IsPurged (purge_path os core row.current_path) _ (λ purged.
                Ensures-last IsPurged (utc_now os) _ (λ now.
                  Ensures-return IsPurged _ (record { sha256 = normalized; purged_path = purged })
                    (Ensures-wrap_flow _ _ (
                      purge_call-IsOnRecord normalized (text_or reason "cli_purge") actor
                        now)))))))))

-- An acceptance that returns leaves the file accepted in the registry, and its path there is the
-- destination that the result names.
pub accept_sha256-IsAccepted :
    (os : Os) (core : Core) (sha : String) (reason : Option String) (actor : String) (w : World)
    (r : AcceptResult)
    → (accept_sha256 os core sha reason actor w).0 ≡ ok r
    → IsOnRecord r.sha256 "accepted"
        (some r.destination_path)
        (accept_sha256 os core sha reason actor w).1.db
accept_sha256-IsAccepted os core sha reason actor w r returned =
    (accept-IsAccepted os core sha reason actor).at w r returned

-- A purge that returns leaves the file purged in the registry, and without a path.
pub purge_sha256-IsPurged :
    (os : Os) (core : Core) (sha : String) (reason : Option String) (actor : String) (w : World)
    (r : PurgeResult)
    → (purge_sha256 os core sha reason actor w).0 ≡ ok r
    → IsOnRecord r.sha256 "purged" none (purge_sha256 os core sha reason actor w).1.db
purge_sha256-IsPurged os core sha reason actor w r returned =
    (purge-IsPurged os core sha reason actor).at w r returned
