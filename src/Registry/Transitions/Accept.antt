-- ===== src/Registry/Transitions/Accept.antt =====
-- The acceptance of a pending file (`finalize_accept_from_pending`).
use nightfall_photo_ingress.Base.{
  ◌+◌, String, ◌≡◌, refl, ◌∙◌, none, some, ◌==◌, eq_iff, arith, ◌↔◌, inl, inr, Option-cases,
  if◌then◌else◌,
}
use nightfall_photo_ingress.Base.Exec.{ok}
use nightfall_photo_ingress.Sql.{find_first, count_where}
use nightfall_photo_ingress.Sql.Laws.{exists_where_of_find_first, count_where-append}
use nightfall_photo_ingress.Registry.Schema.{Db, FileRow, has_sha}
use nightfall_photo_ingress.Registry.Conn.{
  update_file, write_audit, write_acceptance, set_status_path,
}
use nightfall_photo_ingress.Registry.Files.{get_file, acceptance_count}
use nightfall_photo_ingress.Registry.Lifecycle.{finalize_accept_from_pending}
use nightfall_photo_ingress.Registry.WellFormed.{update_file-file_exists}
use nightfall_photo_ingress.Registry.Transitions.{get_file-update_file_if}

module _ (sha path account source_path actor reason now : String) (db : Db) where
  accepted_db : Db
  accepted_db = write_audit (some sha) (some account) "accepted" (some reason) none actor now (
      write_acceptance sha account source_path now
        (update_file sha (set_status_path "accepted" (some path) now) db))

  finalize_accept-ok :
      (row : FileRow)
      → get_file sha db ≡ some row
      → row.status ≡ "pending"
      → finalize_accept_from_pending sha path account source_path actor reason now db
        ≡ (ok tt, accepted_db)
  unfolding finalize_accept_from_pending accepted_db get_file
  finalize_accept-ok row found st = ground (
    arith,
    eq_iff row.status "pending",
    exists_where_of_find_first (has_sha sha) db.files row found,
    update_file-file_exists sha (set_status_path "accepted" (some path) now) sha db (λ r. refl),
  )

  -- The count of acceptances rises by one for the file accepted, and for no other.
  accepted_db-count :
      (x : String)
      → acceptance_count x accepted_db
        ≡ (if sha == x then acceptance_count x db + 1 else acceptance_count x db)
  unfolding accepted_db write_audit write_acceptance update_file acceptance_count count_where
  accepted_db-count x = count_where-append _ db.accepted_records _ ∙ ground arith

  accepted_db-file :
      (x : String)
      → get_file x accepted_db
        ≡ get_file x (update_file sha (set_status_path "accepted" (some path) now) db)
  unfolding accepted_db write_audit write_acceptance get_file
  accepted_db-file x = refl

  -- Acceptance of a pending file returns; that file is then accepted at its new path, with the rest
  -- of its row but the update time kept, and one acceptance of it is added; no other file's row or
  -- acceptance count changes.
  pub finalize_accept_lem :
      (row : FileRow) (x : String)
      → get_file sha db ≡ some row
      → row.status ≡ "pending"
      → let (r, db') =
          finalize_accept_from_pending sha path account source_path actor reason now db in
        (r ≡ ok tt)
        × (get_file x db' ≡ (
            if sha == x
            then some
                (record row { status = "accepted"; current_path = some path; updated_at = now })
            else get_file x db))
        × (acceptance_count x db'
            ≡ (if sha == x then acceptance_count x db + 1 else acceptance_count x db))
  finalize_accept_lem row x found st = rw (finalize_accept-ok row found st) (
    refl,
    accepted_db-file x
        ∙ get_file-update_file_if x sha (set_status_path "accepted" (some path) now) db row
            (λ r. refl) found,
    accepted_db-count x,
  )

  accept_needs_pending :
      (finalize_accept_from_pending sha path account source_path actor reason now db).0 ≡ ok tt
      → (row : FileRow) × (get_file sha db ≡ some row) × (row.status ≡ "pending")
  unfolding finalize_accept_from_pending get_file
  accept_needs_pending returned = elim (Option-cases (find_first (has_sha sha) db.files)) [
    | inl missing ↦ ground arith
    | inr (row, found) ↦ (row, found, ground (arith, eq_iff row.status "pending"))
  ]

  -- Acceptance returns exactly when the file is there and pending.
  pub finalize_accept-ok_iff :
      ((finalize_accept_from_pending sha path account source_path actor reason now db).0 ≡ ok tt)
      ↔ ((row : FileRow) × (get_file sha db ≡ some row) × (row.status ≡ "pending"))
  finalize_accept-ok_iff =
      (accept_needs_pending, λ (row, found, st). (finalize_accept_lem row sha found st).0)
