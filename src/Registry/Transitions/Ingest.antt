-- ===== src/Registry/Transitions/Ingest.antt =====
-- The ingest of content with an unknown hash (`finalize_unknown_ingest`).
use nightfall_photo_ingress.Base.{ℕ, String, true, ◌≡◌, refl, ◌∙◌, none, some, eq_refl, arith}
use nightfall_photo_ingress.Base.Exec.{ok}
use nightfall_photo_ingress.Registry.Schema.{Db}
use nightfall_photo_ingress.Registry.Conn.{
  file_exists, write_file, write_audit, write_metadata, write_origin,
}
use nightfall_photo_ingress.Registry.Files.{get_file}
use nightfall_photo_ingress.Registry.Lifecycle.{finalize_unknown_ingest}
use nightfall_photo_ingress.Registry.WellFormed.{write_file-file_exists}
use nightfall_photo_ingress.Registry.Transitions.{get_file-write_file}

module _ (sha : String) (size : ℕ) (filename path account id source_path time actor now : String)
    (db : Db) where
  unknown_db : Db
  unknown_db =
      write_audit (some sha) (some account) "pending" (some "unknown_hash") none actor now (
        write_origin account id sha (some source_path) now (
          write_metadata account id size time sha now
            (write_file sha size "pending" (some filename) (some path) now db)))

  written_exists :
      file_exists sha (
        write_metadata account id size time sha now
          (write_file sha size "pending" (some filename) (some path) now db))
      ≡ true
  unfolding write_metadata
  written_exists =
      write_file-file_exists sha size "pending" (some filename) (some path) now sha db ∙ rw eq_refl

  finalize_unknown_ingest-ok :
      finalize_unknown_ingest sha size filename path account id source_path time actor none now db
      ≡ (ok tt, unknown_db)
  unfolding finalize_unknown_ingest unknown_db
  finalize_unknown_ingest-ok = ground (arith, written_exists)

  unknown_db-file :
      (x : String)
      → get_file x unknown_db
        ≡ get_file x (write_file sha size "pending" (some filename) (some path) now db)
  unfolding unknown_db write_audit write_origin write_metadata get_file
  unknown_db-file x = refl

  -- The ingest of unknown content returns; its file is then pending at the path given with the size
  -- given. A row that the hash had before keeps its first-seen time.
  pub finalize_unknown_ingest_lem :
      let (r, db') =
        finalize_unknown_ingest sha size filename path account id source_path time actor none now
          db in
      (r ≡ ok tt)
      × (get_file sha db'
          ≡ some (record {
            sha256 = sha;
            size_bytes = size;
            status = "pending";
            original_filename = some filename;
            current_path = some path;
            first_seen_at = elim (get_file sha db) [ none ↦ now | some old ↦ old.first_seen_at ];
            updated_at = now;
          }))
  finalize_unknown_ingest_lem = rw finalize_unknown_ingest-ok (
    refl,
    unknown_db-file sha ∙ get_file-write_file sha size "pending" filename (some path) now db,
  )
