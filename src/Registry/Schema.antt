-- ===== src/Registry/Schema.antt =====
-- The rows of the registry's tables (`_schema_v2_sql` and `_ensure_optional_tables` of
-- src/nightfall_photo_ingress/domain/registry.py), and the database as a record of tables.
use nightfall_photo_ingress.Base.{ℕ, String, Bool, Option, List, ◌==◌, ◌&&◌}

-- The table `files`, also the dataclass `FileRecord`.
pub record FileRow : Type 0 where
  pub sha256 : String
  pub size_bytes : ℕ
  pub status : String
  pub original_filename : Option String
  pub current_path : Option String
  pub first_seen_at : String
  pub updated_at : String

-- The table `metadata_index`.
pub record MetadataRow : Type 0 where
  pub account_name : String
  pub onedrive_id : String
  pub size_bytes : ℕ
  pub modified_time : String
  pub sha256 : String
  pub created_at : String
  pub updated_at : String

-- The table `accepted_records`.
pub record AcceptedRow : Type 0 where
  pub id : ℕ
  pub sha256 : String
  pub account : String
  pub source_path : String
  pub accepted_at : String

-- The table `file_origins`.
pub record OriginRow : Type 0 where
  pub account : String
  pub onedrive_id : String
  pub sha256 : String
  pub path_hint : Option String
  pub first_seen_at : String
  pub last_seen_at : String

-- The table `audit_log`, also the dataclass `AuditRecord`.
pub record AuditRow : Type 0 where
  pub id : ℕ
  pub sha256 : Option String
  pub account_name : Option String
  pub action : String
  pub reason : Option String
  pub details_json : Option String
  pub actor : String
  pub ts : String

-- The table `live_photo_pairs`, also the dataclass `LivePhotoPairRecord`.
pub record PairRow : Type 0 where
  pub pair_id : String
  pub account : String
  pub stem : String
  pub photo_sha256 : String
  pub video_sha256 : String
  pub status : String
  pub created_at : String
  pub updated_at : String

-- The table `external_hash_cache`.
pub record HashCacheRow : Type 0 where
  pub account_name : String
  pub source_relpath : Option String
  pub hash_algo : String
  pub hash_value : String
  pub verified_sha256 : Option String
  pub first_seen_at : String
  pub updated_at : String

-- The table `ingest_terminal_audit`.
pub record TerminalRow : Type 0 where
  pub id : ℕ
  pub batch_run_id : String
  pub sequence_no : ℕ
  pub account : String
  pub onedrive_id : String
  pub sha256 : Option String
  pub action : String
  pub reason : Option String
  pub actor : String
  pub ts : String

-- The table `blocked_rules`.
pub record BlockedRow : Type 0 where
  pub id : ℕ
  pub pattern_text : String
  pub rule_type : String
  pub reason : Option String
  pub enabled : Bool
  pub created_at : String
  pub updated_at : String

-- The table `ui_action_idempotency`, without the columns that are not read.
pub record KeyRow : Type 0 where
  pub idempotency_key : String
  pub action : String
  pub item_id : String
  pub response_status : ℕ
  pub response_body_json : String
  pub created_at : String
  pub expires_at : String

-- One database file. A `…_seq` field is the table's AUTOINCREMENT counter: the largest id given.
-- The table `external_hash_cache`: as it is now, of the older layout, or of the older layout beside the
-- filled copy that an interrupted rebuild has left.
pub data HashCacheLayout : Type 0 where
  h1 older half_rebuilt : HashCacheLayout

pub record Db : Type 0 where
  pub user_version : ℕ
  pub files : List FileRow
  pub metadata_index : List MetadataRow
  pub accepted_records : List AcceptedRow
  pub accepted_seq : ℕ
  pub file_origins : List OriginRow
  pub audit_log : List AuditRow
  pub audit_seq : ℕ
  pub live_photo_pairs : List PairRow
  pub external_hash_cache : List HashCacheRow
  pub hash_cache_layout : HashCacheLayout
  pub ingest_terminal_audit : List TerminalRow
  pub terminal_seq : ℕ
  pub blocked_rules : List BlockedRow
  pub blocked_seq : ℕ
  pub ui_action_idempotency : List KeyRow

-- WHERE sha256 = ?, on `files`
abbrev pub has_sha : String → FileRow → Bool
has_sha sha r = r.sha256 == sha

-- The primary keys of `metadata_index`, `file_origins` and `live_photo_pairs`.
abbrev pub metadata_key : String → String → MetadataRow → Bool
metadata_key account id r = (r.account_name == account) && (r.onedrive_id == id)

abbrev pub origin_key : String → String → OriginRow → Bool
origin_key account id r = (r.account == account) && (r.onedrive_id == id)

abbrev pub pair_key : String → PairRow → Bool
pair_key id r = r.pair_id == id
