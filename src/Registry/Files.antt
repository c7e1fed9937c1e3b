-- ===== src/Registry/Files.antt =====
-- The methods of `class Registry` that write and read single tables
-- (src/nightfall_photo_ingress/domain/registry.py).
use Prim.Native.String.{compare}
use Prim.Native.Nat.{Ordering}
use nightfall_photo_ingress.Base.{
  ℕ, ◌+◌, String, Bool, false, Option, none, some, List, [], ◌∷◌, ◌++◌, ◌==◌, ◌&&◌, if◌then◌else◌,
  option_or,
}
use nightfall_photo_ingress.Base.Exec.{Exec, ◌>>◌}
use nightfall_photo_ingress.Sql.{find_first, select_where, count_where}
use nightfall_photo_ingress.Registry.Schema.{Db, FileRow, MetadataRow, OriginRow, AuditRow, has_sha}
use nightfall_photo_ingress.Registry.Conn.{
  begin_immediate, commit, with_connect, query, write, write_reference, write_file, write_metadata,
  write_origin, write_acceptance, write_audit, update_file, validate_status, set_path,
}

unfoldable pub create_or_update_file :
    String → ℕ → String → Option String → Option String → String → Exec Db Unit
create_or_update_file sha size status filename path now = do
  validate_status status
  with_connect (do begin_immediate; write (write_file sha size status filename path now); commit)

unfoldable pub upsert_metadata_index : String → String → ℕ → String → String → String → Exec Db Unit
upsert_metadata_index account id size modified_time sha now =
    with_connect
      (do begin_immediate; write (write_metadata account id size modified_time sha now); commit)

unfoldable pub upsert_file_origin : String → String → String → Option String → String → Exec Db Unit
upsert_file_origin sha account id path_hint now =
    with_connect
      (do begin_immediate; write_reference sha (write_origin account id sha path_hint now); commit)

unfoldable pub record_acceptance : String → String → String → String → Exec Db Unit
record_acceptance sha account source_path now =
    with_connect (do
      begin_immediate
      write_reference sha (write_acceptance sha account source_path now)
      commit)

unfoldable pub clear_current_path : String → String → Exec Db Unit
clear_current_path sha now =
    with_connect (do begin_immediate; write (update_file sha (set_path none now)); commit)

unfoldable pub update_current_path : String → String → String → Exec Db Unit
update_current_path sha new_path now =
    with_connect
      (do begin_immediate; write (update_file sha (set_path (some new_path) now)); commit)

-- Returns `cursor.lastrowid`, the id of the new row.
unfoldable pub append_audit_event :
    Option String
    → String
    → Option String
    → String
    → Option String
    → Option String
    → String
    → Exec Db ℕ
append_audit_event sha action reason actor account details now = with_connect (do
  begin_immediate
  write (write_audit sha account action reason details actor now)
  commit
  query (λ db. db.audit_seq))

write_terminal :
    String
    → ℕ
    → String
    → String
    → Option String
    → String
    → Option String
    → String
    → String
    → Db
    → Db
write_terminal batch seq account id sha action reason actor now db = record db {
  terminal_seq = db.terminal_seq + 1;
  ingest_terminal_audit =
      db.ingest_terminal_audit
      ++ record {
        id = db.terminal_seq + 1;
        batch_run_id = batch;
        sequence_no = seq;
        account = account;
        onedrive_id = id;
        sha256 = sha;
        action = action;
        reason = reason;
        actor = actor;
        ts = now;
      }
        ∷ [];
}

unfoldable pub append_ingest_terminal_event :
    String
    → ℕ
    → String
    → String
    → Option String
    → String
    → Option String
    → String
    → String
    → Exec Db ℕ
unfolding write_terminal
append_ingest_terminal_event batch seq account id sha action reason actor now = with_connect (do
  begin_immediate
  write (write_terminal batch seq account id sha action reason actor now)
  commit
  query (λ db. db.terminal_seq))

unfoldable pub get_file : String → Db → Option FileRow
get_file sha db = find_first (has_sha sha) db.files

unfoldable pub list_audit_events : String → Db → List AuditRow
list_audit_events sha db =
    select_where (λ r. elim r.sha256 [ none ↦ false | some s ↦ s == sha ]) db.audit_log

unfoldable pub acceptance_count : String → Db → ℕ
acceptance_count sha db = count_where (λ r. r.sha256 == sha) db.accepted_records

-- The dataclass `AcceptContext`.
pub record AcceptContext : Type 0 where
  pub account : String
  pub source_path : String
  pub modified_time : String

-- ORDER BY last_seen_at DESC LIMIT 1: the first row of the latest time
later : OriginRow → OriginRow → OriginRow
later a b = elim (compare a.last_seen_at b.last_seen_at) [ Ordering.lt ↦ b | _ ↦ a ]

latest_from : OriginRow → List OriginRow → OriginRow
unfolding later
latest_from best [] = best
latest_from best (r ∷ rows) = latest_from (later best r) rows

unfoldable pub latest_origin : List OriginRow → Option OriginRow
unfolding latest_from
latest_origin [] = none
latest_origin (r ∷ rows) = some (latest_from r rows)

-- The row of the LEFT JOIN, whose key is that of `metadata_index`.
abbrev pub joins : OriginRow → MetadataRow → Bool
joins o m =
    (m.account_name == o.account) && (m.onedrive_id == o.onedrive_id) && (m.sha256 == o.sha256)

-- `row["modified_time"] or _utc_now()`: NULL and the empty text are both falsy
abbrev pub time_or_now : Option MetadataRow → String → String
time_or_now none now = now
time_or_now (some m) now = if m.modified_time == "" then now else m.modified_time

unfoldable pub get_accept_context : String → String → Db → Option AcceptContext
unfolding latest_origin
get_accept_context sha now db =
    elim (latest_origin (select_where (λ o. o.sha256 == sha) db.file_origins)) [
      | none ↦ none
      | some o ↦ some (record {
        account = o.account;
        source_path = option_or o.path_hint "/";
        modified_time = time_or_now (find_first (joins o) db.metadata_index) now;
      })
    ]
