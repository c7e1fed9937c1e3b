-- ===== src/Tests/Data.antt =====
-- The surroundings, settings and worlds of the tests.
use nightfall_photo_ingress.Base.{
  ℕ, String, true, false, none, some, List, [], ◌∷◌, refl, eqb, if◌then◌else◌,
}
use nightfall_photo_ingress.Registry.Schema.{h1, Db, FileRow, PairRow}
use nightfall_photo_ingress.Registry.Conn.{is_allowed}
use nightfall_photo_ingress.Registry.WellFormed.{IsWellFormed}
use nightfall_photo_ingress.Sql.{exists_where}
use nightfall_photo_ingress.Registry.Pairs.{is_pair_status}
use nightfall_photo_ingress.World.{Os, World, Fs}
use nightfall_photo_ingress.Review.Results.{Core}
use nightfall_photo_ingress.Ingest.Candidate.{StagedCandidate, Settings, reject}

abbrev pub sha_a : String
sha_a = "aaaaaaaaaaaaaaaaaaaaaaaaaaaaaaaaaaaaaaaaaaaaaaaaaaaaaaaaaaaaaaaa"

abbrev pub sha_b : String
sha_b = "bbbbbbbbbbbbbbbbbbbbbbbbbbbbbbbbbbbbbbbbbbbbbbbbbbbbbbbbbbbbbbbb"

-- Bytes that begin with 1 have the digest `sha_a`, others `sha_b`; copies are faithful.
abbrev digest_of : List ℕ → String
digest_of [] = sha_b
digest_of (x ∷ bytes) = if eqb x 1 then sha_a else sha_b

abbrev pub os : Os
os = record {
  clock = λ n. "2026-03-01T10:00:00+00:00";
  hexdigest = digest_of;
  resolve = λ p. p;
  same_device = λ p q. false;
  chmod_fails = λ p. false;
  fsync_fails = λ p. false;
  year_month = λ s. some ("2026", "03");
  current_year_month = ("2026", "03");
  copied = λ bytes. bytes;
  uuid = λ n. "0123456789ab";
  run_id = λ n. "run";
  text_hexdigest = λ s. s;
  epoch_seconds = λ n. 1772359200;
  instant = λ s. some 0;
  fnmatch = λ s p. false;
  re_search = λ p s. some false;
  journal_full = λ rs. false;
}

-- A disk that drops what is copied to it.
abbrev pub failing_os : Os
failing_os = record os { copied = λ bytes. [] }

abbrev pub core : Core
core = record {
  pending_path = "/pending";
  accepted_path = "/accepted";
  rejected_path = "/rejected";
  storage_template = "{yyyy}/{original}";
  accepted_storage_template = "{yyyy}/{mm}/{original}";
}

abbrev pub settings : Settings
settings = record {
  pending_root = "/pending";
  storage_template = "{yyyy}/{original}";
  staging_on_same_pool = true;
  pre_hash_size_verify = true;
  zero_byte_policy = reject;
  quarantine_dir = none;
  collision_max_attempts = 10;
  has_journal = true;
}

abbrev pub staged : StagedCandidate
staged = record {
  account_name = "anna";
  onedrive_id = "id2";
  original_filename = "b.jpg";
  relative_path = "/Camera/b.jpg";
  modified_time = "2026-03-01T09:00:00Z";
  size_bytes = some 2;
  staging_path = "/staging/b";
}

abbrev file : String → String → String → FileRow
file sha status path = record {
  sha256 = sha;
  size_bytes = 3;
  status = status;
  original_filename = some "a.jpg";
  current_path = some path;
  first_seen_at = "t0";
  updated_at = "t0";
}

abbrev pub pending_a : FileRow
pending_a = file sha_a "pending" "/pending/2026/a.jpg"

abbrev pub rejected_b : FileRow
rejected_b = file sha_b "rejected" "/rejected/2026/b.jpg"

abbrev pub pair_ab : PairRow
pair_ab = record {
  pair_id = "pair";
  account = "anna";
  stem = "a";
  photo_sha256 = sha_a;
  video_sha256 = sha_b;
  status = "pending";
  created_at = "t0";
  updated_at = "t0";
}

-- One pending file with its origin, one rejected file, and a pair of the two.
abbrev pub db : Db
db = record {
  user_version = 2;
  hash_cache_layout = h1;
  files = pending_a ∷ rejected_b ∷ [];
  metadata_index =
      (record {
        account_name = "anna";
        onedrive_id = "id1";
        size_bytes = 3;
        modified_time = "2026-03-01T09:00:00Z";
        sha256 = sha_a;
        created_at = "t0";
        updated_at = "t0";
      })
      ∷ [];
  accepted_records = [];
  accepted_seq = 0;
  file_origins =
      (record {
        account = "anna";
        onedrive_id = "id1";
        sha256 = sha_a;
        path_hint = some "/Camera/a.jpg";
        first_seen_at = "t0";
        last_seen_at = "t0";
      })
      ∷ [];
  audit_log = [];
  audit_seq = 0;
  live_photo_pairs = pair_ab ∷ [];
  external_hash_cache = [];
  ingest_terminal_audit = [];
  terminal_seq = 0;
  blocked_rules = [];
  blocked_seq = 0;
  ui_action_idempotency = [];
}

pub db-IsWellFormed : IsWellFormed db
unfolding is_allowed is_pair_status exists_where
db-IsWellFormed = record {
  unique = (refl, (refl, tt));
  statuses = (refl, (refl, tt));
  origins = (refl, tt);
  acceptances = tt;
  photos = (refl, tt);
  videos = (refl, tt);
  pair_statuses = (refl, tt);
  audit_bound = tt;
  audit_order = tt;
}

abbrev pub fs : Fs
fs =
    ("/pending/2026/a.jpg", 1 ∷ 2 ∷ 3 ∷ [])
    ∷ ("/rejected/2026/b.jpg", 4 ∷ 5 ∷ 6 ∷ [])
    ∷ ("/staging/b", 7 ∷ 8 ∷ [])
    ∷ ("/trash/a.jpg", 1 ∷ 2 ∷ 3 ∷ [])
    ∷ []

abbrev pub w : World
w = record { db = db; fs = fs; reads = 0; journal = [] }
