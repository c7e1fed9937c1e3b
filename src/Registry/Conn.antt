-- ===== src/Registry/Conn.antt =====
-- A connection and its transactions (`with self._connect() as conn` of
-- src/nightfall_photo_ingress/domain/registry.py), and the statements that several methods share.
-- `PRAGMA foreign_keys = ON` is set on every connection, so a statement that writes a reference to
-- `files` raises IntegrityError when no row has that sha256.
use nightfall_photo_ingress.Base.{
  ℕ, ◌+◌, String, Bool, not, Option, none, some, [], ◌∷◌, ◌++◌, ◌==◌, ◌||◌,
}
use nightfall_photo_ingress.Base.Exec.{
  integrity, invalid_status, Result, ok, err, Exec, raise_if, ◌>>=◌, ◌>>◌,
}
use nightfall_photo_ingress.Sql.{exists_where, update_where, upsert}
use nightfall_photo_ingress.Registry.Schema.{Db, FileRow, has_sha, metadata_key, origin_key}

-- What is committed, and what the open transaction sees.
pub record Conn : Type 0 where
  pub disk : Db
  pub work : Db

-- BEGIN IMMEDIATE: no transaction is open, so the two agree
abbrev pub begin_immediate : Exec Conn Unit
begin_immediate c = (ok tt, record c { work = c.disk })

abbrev pub commit : Exec Conn Unit
commit c = (ok tt, record c { disk = c.work })

abbrev pub rollback : Exec Conn Unit
rollback c = (ok tt, record c { work = c.disk })

-- `with conn:` commits when its body returns and rolls back when it raises.
abbrev pub close_connection {ℓ} : {A : Type ℓ} → Result A × Conn → Result A × Db
close_connection (ok a, c) = (ok a, c.work)
close_connection (err e, c) = (err e, c.disk)

abbrev pub with_connect : {A : Type 0} → Exec Conn A → Exec Db A
with_connect m db = close_connection (m (record { disk = db; work = db }))

-- A query, which changes nothing.
abbrev pub query : {A : Type 0} → (Db → A) → Exec Conn A
query f c = (ok (f c.work), c)

-- A statement that writes.
abbrev pub write : (Db → Db) → Exec Conn Unit
write f c = (ok tt, record c { work = f c.work })

abbrev pub file_exists : String → Db → Bool
file_exists sha db = exists_where (has_sha sha) db.files

-- A write of a reference to `files(sha256)`.
abbrev pub write_reference : String → (Db → Db) → Exec Conn Unit
write_reference sha f = do
  present ← query (file_exists sha)
  raise_if (not present) integrity
  write f

abbrev pub coalesce : Option String → Option String → Option String
coalesce none old = old
coalesce (some new) old = some new

-- INSERT INTO files … ON CONFLICT(sha256) DO UPDATE
unfoldable pub write_file : String → ℕ → String → Option String → Option String → String → Db → Db
write_file sha size status filename path now db = record db {
  files =
      upsert (has_sha sha)
        (record {
          sha256 = sha;
          size_bytes = size;
          status = status;
          original_filename = filename;
          current_path = path;
          first_seen_at = now;
          updated_at = now;
        })
        (λ r. record r {
          size_bytes = size;
          status = status;
          original_filename = coalesce filename r.original_filename;
          current_path = path;
          updated_at = now;
        })
        db.files;
}

-- INSERT INTO metadata_index … ON CONFLICT(account_name, onedrive_id) DO UPDATE
unfoldable pub write_metadata : String → String → ℕ → String → String → String → Db → Db
write_metadata account id size modified_time sha now db = record db {
  metadata_index =
      upsert (metadata_key account id)
        (record {
          account_name = account;
          onedrive_id = id;
          size_bytes = size;
          modified_time = modified_time;
          sha256 = sha;
          created_at = now;
          updated_at = now;
        })
        (λ r. record r {
          size_bytes = size;
          modified_time = modified_time;
          sha256 = sha;
          updated_at = now;
        })
        db.metadata_index;
}

-- INSERT INTO file_origins … ON CONFLICT(account, onedrive_id) DO UPDATE
unfoldable pub write_origin : String → String → String → Option String → String → Db → Db
write_origin account id sha path_hint now db = record db {
  file_origins =
      upsert (origin_key account id)
        (record {
          account = account;
          onedrive_id = id;
          sha256 = sha;
          path_hint = path_hint;
          first_seen_at = now;
          last_seen_at = now;
        })
        (λ r. record r { sha256 = sha; path_hint = path_hint; last_seen_at = now }) db.file_origins;
}

-- INSERT INTO accepted_records
unfoldable pub write_acceptance : String → String → String → String → Db → Db
write_acceptance sha account source_path now db = record db {
  accepted_seq = db.accepted_seq + 1;
  accepted_records =
      db.accepted_records
      ++ record {
        id = db.accepted_seq + 1;
        sha256 = sha;
        account = account;
        source_path = source_path;
        accepted_at = now;
      }
        ∷ [];
}

-- INSERT INTO audit_log
unfoldable pub write_audit :
    Option String
    → Option String
    → String
    → Option String
    → Option String
    → String
    → String
    → Db
    → Db
write_audit sha account action reason details actor now db = record db {
  audit_seq = db.audit_seq + 1;
  audit_log =
      db.audit_log
      ++ record {
        id = db.audit_seq + 1;
        sha256 = sha;
        account_name = account;
        action = action;
        reason = reason;
        details_json = details;
        actor = actor;
        ts = now;
      }
        ∷ [];
}

-- UPDATE files SET … WHERE sha256 = ?
unfoldable pub update_file : String → (FileRow → FileRow) → Db → Db
update_file sha f db = record db { files = update_where (has_sha sha) f db.files }

-- ALLOWED_FILE_STATUSES
unfoldable pub is_allowed : String → Bool
is_allowed s = s == "pending" || s == "accepted" || s == "rejected" || s == "purged"

-- `Registry._validate_status`
abbrev pub validate_status : String → Exec Db Unit
validate_status value = raise_if (not (is_allowed value)) (invalid_status value)

-- The SET lists of the updates of `files`.
abbrev pub set_path : Option String → String → FileRow → FileRow
set_path path now r = record r { current_path = path; updated_at = now }

abbrev pub set_status : String → String → FileRow → FileRow
set_status status now r = record r { status = status; updated_at = now }

abbrev pub set_status_path : String → Option String → String → FileRow → FileRow
set_status_path status path now r = record r {
  status = status;
  current_path = path;
  updated_at = now;
}
