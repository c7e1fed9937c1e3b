-- ===== src/Ingest/Identity.antt =====
-- The outcome of a candidate bears the candidate's account and id
-- (src/nightfall_photo_ingress/domain/ingest.py).
use nightfall_photo_ingress.Base.{ℕ, zero, String, Bool, ◌≡◌, refl, Option, none, some}
use nightfall_photo_ingress.Base.Exec.Returns.{Returns, returns_rules}
use nightfall_photo_ingress.Registry.Schema.{FileRow}
use nightfall_photo_ingress.World.{Os}
use nightfall_photo_ingress.Ingest.Candidate.{
  StagedCandidate, IngestOutcome, Settings, ZeroBytePolicy, quarantine, reject,
}
use nightfall_photo_ingress.Ingest.Process.{
  outcome, persist_unknown, persist_known, persist_blocked, persist, after_block_rules,
  hash_and_persist, after_prefilter, prefilter, after_size, check_size, process_one,
}

-- `o` is an outcome for `c`.
abbrev pub IsFor : StagedCandidate → IngestOutcome → Type 0
IsFor c o = (o.account_name ≡ c.account_name) × (o.onedrive_id ≡ c.onedrive_id)

module _ (os : Os) (s : Settings) (c : StagedCandidate) where
  outcome-IsFor :
      (action : String) (sha destination : Option String) (hit : Bool)
      → IsFor c (outcome c action sha destination hit)
  outcome-IsFor action sha destination hit = (refl, refl)

  persist-IsFor :
      (op sha : String) (found : Option FileRow) → Returns (IsFor c) (persist os s op c sha found)
  unfolding persist persist_unknown persist_known
  persist-IsFor op sha none = search (returns_rules, outcome-IsFor) depth 20
  persist-IsFor op sha (some row) = search (returns_rules, outcome-IsFor) depth 20

  after_block_rules-IsFor :
      (op sha : String) (size : ℕ) (rule : Option (String × String))
      → Returns (IsFor c) (after_block_rules os s op c sha size rule)
  unfolding after_block_rules persist_blocked
  after_block_rules-IsFor op sha size none = search (returns_rules, persist-IsFor) depth 20
  after_block_rules-IsFor op sha size (some rule) = search (returns_rules, outcome-IsFor) depth 30

  after_prefilter-IsFor :
      (op : String) (size : ℕ) (hit : Option (String × String))
      → Returns (IsFor c) (after_prefilter os s op c size hit)
  unfolding after_prefilter hash_and_persist
  after_prefilter-IsFor op size none = search (returns_rules, after_block_rules-IsFor) depth 20
  after_prefilter-IsFor op size (some hit) = search (returns_rules, outcome-IsFor) depth 20

  prefilter-IsFor : (op : String) (size : ℕ) → Returns (IsFor c) (prefilter os s op c size)
  unfolding prefilter
  prefilter-IsFor op size = search (returns_rules, after_prefilter-IsFor)

  after_size-IsFor :
      (op : String) (size : ℕ) (policy : ZeroBytePolicy)
      → Returns (IsFor c) (after_size os s op c size policy)
  unfolding after_size
  after_size-IsFor op zero reject = search (returns_rules, outcome-IsFor)
  after_size-IsFor op zero quarantine = search (returns_rules, outcome-IsFor)
  after_size-IsFor op _ _ = prefilter-IsFor op _

  check_size-IsFor : (op : String) (size : ℕ) → Returns (IsFor c) (check_size os s op c size)
  unfolding check_size
  check_size-IsFor op size = search (returns_rules, outcome-IsFor, after_size-IsFor) depth 14

  pub process_one-IsFor : Returns (IsFor c) (process_one os s c)
  unfolding process_one
  process_one-IsFor = search (returns_rules, outcome-IsFor, check_size-IsFor) depth 14
