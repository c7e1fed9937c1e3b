-- ===== src/Ingest/Candidate.antt =====
-- A staged candidate and the outcome of its ingest (src/nightfall_photo_ingress/domain/ingest.py).
use nightfall_photo_ingress.Base.{ℕ, String, Bool, Option}

-- The dataclass `StagedCandidate`; a size that is known is not negative, as
-- `_validate_batch_contract` requires.
pub record StagedCandidate : Type 0 where
  pub account_name : String
  pub onedrive_id : String
  pub original_filename : String
  pub relative_path : String
  pub modified_time : String
  pub size_bytes : Option ℕ
  pub staging_path : String

-- The dataclass `IngestOutcome`.
pub record IngestOutcome : Type 0 where
  pub account_name : String
  pub onedrive_id : String
  pub action : String
  pub sha256 : Option String
  pub destination_path : Option String
  pub prefilter_hit : Bool

pub data ZeroBytePolicy : Type 0 where
  allow quarantine reject : ZeroBytePolicy

-- The arguments that `process_batch` passes on for each candidate, and whether there is a journal.
pub record Settings : Type 0 where
  pub pending_root : String
  pub storage_template : String
  pub staging_on_same_pool : Bool
  pub pre_hash_size_verify : Bool
  pub zero_byte_policy : ZeroBytePolicy
  pub quarantine_dir : Option String
  pub collision_max_attempts : ℕ
  pub has_journal : Bool
