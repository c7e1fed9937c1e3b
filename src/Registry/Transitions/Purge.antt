-- ===== src/Registry/Transitions/Purge.antt =====
-- The purge of a rejected file (`finalize_purge_from_rejected`).
use nightfall_photo_ingress.Base.{
  String, ◌≡◌, refl, ap, ◌∙◌, none, some, ◌==◌, eq_iff, arith, ◌↔◌, inl, inr, Option-cases,
  if◌then◌else◌,
}
use nightfall_photo_ingress.Base.Exec.{ok}
use nightfall_photo_ingress.Sql.{find_first}
use nightfall_photo_ingress.Registry.Schema.{Db, FileRow, has_sha}
use nightfall_photo_ingress.Registry.Conn.{update_file, write_audit, set_status_path}
use nightfall_photo_ingress.Registry.Files.{get_file}
use nightfall_photo_ingress.Registry.Lifecycle.{finalize_purge_from_rejected}
use nightfall_photo_ingress.Registry.Transitions.{get_file-update_file_if}

module _ (sha reason actor now : String) (db : Db) where
  purged_db : Db
  purged_db =
      write_audit (some sha) none "purged" (some reason) none actor now
        (update_file sha (set_status_path "purged" none now) db)

  finalize_purge-ok :
      (row : FileRow)
      → get_file sha db ≡ some row
      → row.status ≡ "rejected"
      → finalize_purge_from_rejected sha reason actor now db ≡ (ok tt, purged_db)
  unfolding finalize_purge_from_rejected purged_db get_file
  finalize_purge-ok row found st = ground (arith, eq_iff row.status "rejected")

  purge_needs_rejected :
      (finalize_purge_from_rejected sha reason actor now db).0 ≡ ok tt
      → (row : FileRow) × (get_file sha db ≡ some row) × (row.status ≡ "rejected")
  unfolding finalize_purge_from_rejected get_file
  purge_needs_rejected returned = elim (Option-cases (find_first (has_sha sha) db.files)) [
    | inl missing ↦ ground arith
    | inr (row, found) ↦ (row, found, ground (arith, eq_iff row.status "rejected"))
  ]

  purged_db-file :
      (x : String)
      → get_file x purged_db ≡ get_file x (update_file sha (set_status_path "purged" none now) db)
  unfolding purged_db write_audit get_file
  purged_db-file x = refl

  -- A purge returns exactly when the file is there and rejected.
  pub finalize_purge-ok_iff :
      ((finalize_purge_from_rejected sha reason actor now db).0 ≡ ok tt)
      ↔ ((row : FileRow) × (get_file sha db ≡ some row) × (row.status ≡ "rejected"))
  finalize_purge-ok_iff =
      (purge_needs_rejected, λ (row, found, st). ap (λ p. p.0) (finalize_purge-ok row found st))

  -- The purge of a rejected file returns; that file is then purged and has no path, and no other
  -- file's row changes.
  pub finalize_purge_lem :
      (row : FileRow) (x : String)
      → get_file sha db ≡ some row
      → row.status ≡ "rejected"
      → let (r, db') = finalize_purge_from_rejected sha reason actor now db in
        (r ≡ ok tt)
        × (get_file x db' ≡ (
            if sha == x
            then some (record row { status = "purged"; current_path = none; updated_at = now })
            else get_file x db))
  finalize_purge_lem row x found st = rw (finalize_purge-ok row found st) (
    refl,
    purged_db-file x
        ∙ get_file-update_file_if x sha (set_status_path "purged" none now) db row (λ r. refl)
            found,
  )
