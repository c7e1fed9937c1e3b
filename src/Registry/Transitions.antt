-- ===== src/Registry/Transitions.antt =====
-- The row of a file after the statements of the lifecycle methods.
pub mod Accept
pub mod Purge
pub mod Ingest
pub mod Pair
use nightfall_photo_ingress.Base.{
  ℕ, suc, ◌+◌, String, Bool, true, false, ◌≡◌, ◌≢◌, refl, ap, ◌∙◌, Option, none, some, List, [],
  ◌∷◌, ◌++◌, ◌==◌, eq_iff, eq_refl, arith, ◌↔◌, ◌⊎◌, inl, inr, Bool-cases, Option-cases,
  if◌then◌else◌,
}
use nightfall_photo_ingress.Base.Exec.{
  Error, Result, ok, err, accept_missing, accept_status, purge_missing, purge_status,
}
use nightfall_photo_ingress.Sql.{find_first, exists_where, count_where, update_where}
use nightfall_photo_ingress.Sql.Laws.{
  find_first-update_where, exists_where_of_find_first, count_where-append, find_first_sound,
  find_first-upsert_self, find_first-upsert_ne,
}
use nightfall_photo_ingress.Registry.Schema.{Db, FileRow, has_sha}
use nightfall_photo_ingress.Registry.Conn.{
  file_exists, update_file, write_file, write_audit, write_acceptance, write_metadata, write_origin,
  set_status, set_status_path, set_path, coalesce,
}
use nightfall_photo_ingress.Registry.Files.{get_file, acceptance_count}
use nightfall_photo_ingress.Registry.Lifecycle.{
  finalize_unknown_ingest, finalize_accept_from_pending, finalize_known_ingest,
  finalize_purge_from_rejected, transition_status,
}
use nightfall_photo_ingress.Registry.WellFormed.{update_file-file_exists, write_file-file_exists}

-- The row of the file itself, and that of any file.
pub get_file-update_file :
    (x sha : String) (f : FileRow → FileRow) (db : Db)
    → ((r : FileRow) → (f r).sha256 ≡ r.sha256)
    → get_file x (update_file sha f db)
      ≡ elim (get_file x db) [ none ↦ none | some r ↦ some (if r.sha256 == sha then f r else r) ]
unfolding get_file update_file
get_file-update_file x sha f db k =
    find_first-update_where (has_sha x) (has_sha sha) f db.files (λ r. rw (k r))

pub get_file_sound : (x : String) (db : Db) (r : FileRow) → get_file x db ≡ some r → r.sha256 ≡ x
unfolding get_file
get_file_sound x db r e = (eq_iff r.sha256 x).0 (find_first_sound (has_sha x) db.files r e)

pub get_file-update_file_self :
    (sha : String) (f : FileRow → FileRow) (db : Db) (row : FileRow)
    → ((r : FileRow) → (f r).sha256 ≡ r.sha256)
    → get_file sha db ≡ some row
    → get_file sha (update_file sha f db) ≡ some (f row)
get_file-update_file_self sha f db row k found =
    get_file-update_file sha sha f db k ∙ rw found (rw (get_file_sound sha db row found, eq_refl))

pub get_file-update_file_ne :
    (x sha : String) (f : FileRow → FileRow) (db : Db)
    → ((r : FileRow) → (f r).sha256 ≡ r.sha256)
    → x ≢ sha
    → get_file x (update_file sha f db) ≡ get_file x db
get_file-update_file_ne x sha f db k ne = elim (Option-cases (get_file x db)) [
  | inl none_here ↦ get_file-update_file x sha f db k ∙ rw none_here
  | inr (row, found) ↦
      get_file-update_file x sha f db k
      ∙ rw found (ground (arith, eq_iff row.sha256 sha, get_file_sound x db row found))
]

-- The row after an upsert: a new one, or the old one with its first-seen time kept.
pub get_file-write_file :
    (sha : String) (size : ℕ) (status filename : String) (path : Option String) (now : String)
    (db : Db)
    → get_file sha (write_file sha size status (some filename) path now db)
      ≡ some (record {
        sha256 = sha;
        size_bytes = size;
        status = status;
        original_filename = some filename;
        current_path = path;
        first_seen_at = elim (get_file sha db) [ none ↦ now | some old ↦ old.first_seen_at ];
        updated_at = now;
      })
unfolding get_file write_file
get_file-write_file sha size status filename path now db =
    find_first-upsert_self (has_sha sha) _ _ db.files (eq_refl sha) (λ r. refl)
    ∙ elim (Option-cases (find_first (has_sha sha) db.files)) [
      | inl new ↦ rw new
      | inr (old, found) ↦
          rw found
            (rw (← (eq_iff old.sha256 sha).0 (find_first_sound (has_sha sha) db.files old found)))
    ]

-- The row of any file after the update of one that is there.
pub get_file-update_file_if :
    (x sha : String) (f : FileRow → FileRow) (db : Db) (row : FileRow)
    → ((r : FileRow) → (f r).sha256 ≡ r.sha256)
    → get_file sha db ≡ some row
    → get_file x (update_file sha f db) ≡ (if sha == x then some (f row) else get_file x db)
get_file-update_file_if x sha f db row k found = elim (Bool-cases (sha == x)) [
  | inl same ↦
      rw same (rw (← (eq_iff sha x).0 same) (get_file-update_file_self sha f db row k found))
  | inr other ↦ rw other (get_file-update_file_ne x sha f db k (λ e. ground (arith, eq_iff sha x)))
]

pub file_exists_of_get_file :
    (sha : String) (db : Db) (row : FileRow)
    → get_file sha db ≡ some row
    → file_exists sha db ≡ true
unfolding get_file
file_exists_of_get_file sha db row found =
    exists_where_of_find_first (has_sha sha) db.files row found
