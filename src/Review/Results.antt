-- ===== src/Review/Results.antt =====
-- The results of the flows, and the normalisation of a hash that an operator types.
use Prim.Native.Char.{Char, code}
use nightfall_photo_ingress.Base.{
  ℕ, String, Bool, not, ◌||◌, ◌&&◌, Option, List, eqb, leb, if◌then◌else◌,
}
use nightfall_photo_ingress.Base.Exec.{Result, ok, err, invalid_sha256}
use nightfall_photo_ingress.Text.{strip, is_space, lower, text_length, all_chars}

pub data RejectAction : Type 0 where
  rejected_unknown rejected_pair reject_noop_already_rejected rejected_existing : RejectAction

-- The dataclasses `RejectResult`, `TrashProcessResult`, `AcceptResult` and `PurgeResult`.
pub record RejectResult : Type 0 where
  pub sha256 : String
  pub action : RejectAction
  pub removed_paths : List String

pub record TrashProcessResult : Type 0 where
  pub processed_files : ℕ
  pub rejected_files : ℕ
  pub noop_files : ℕ
  pub unknown_files : ℕ
  pub removed_paths : List String

pub record AcceptResult : Type 0 where
  pub sha256 : String
  pub destination_path : String

pub record PurgeResult : Type 0 where
  pub sha256 : String
  pub purged_path : Option String

-- The part of `CoreConfig` that the flows read.
pub record Core : Type 0 where
  pub pending_path : String
  pub accepted_path : String
  pub rejected_path : String
  pub storage_template : String
  pub accepted_storage_template : String

-- char in "0123456789abcdef"
unfoldable pub is_hex : Char → Bool
is_hex c = let n = code c in (leb 48 n && leb n 57) || (leb 97 n && leb n 102)

-- sha256.strip().lower(), refused unless it has 64 hexadecimal digits
unfoldable pub normalize_sha : String → Result String
unfolding is_hex strip is_space lower text_length all_chars
normalize_sha sha =
    let normalized = lower (strip is_space sha) in
    if not (eqb (text_length normalized) 64) || not (all_chars is_hex normalized)
    then err (invalid_sha256 sha)
    else ok normalized
