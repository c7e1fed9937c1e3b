-- ===== src/Ingest/Sound.antt =====
-- The invariant of the registry under the ingest of a candidate
-- (src/nightfall_photo_ingress/domain/ingest.py).
use nightfall_photo_ingress.Base.{ℕ, zero, String, Bool, true, false, Option, none, some}
use nightfall_photo_ingress.Base.Exec.Keeps.{Keeps}
use nightfall_photo_ingress.World.{Os}
use nightfall_photo_ingress.World.Keeps.{IsSound, sound_rules}
use nightfall_photo_ingress.Registry.Schema.{Db, FileRow}
use nightfall_photo_ingress.Registry.WellFormed.{IsWellFormed}
use nightfall_photo_ingress.Registry.Lifecycle.{finalize_unknown_ingest}
use nightfall_photo_ingress.Registry.Preserve.{
  create_or_update_file-IsWellFormed, upsert_metadata_index-IsWellFormed,
  upsert_file_origin-IsWellFormed, append_audit_event-IsWellFormed,
  finalize_unknown_ingest-IsWellFormed, finalize_known_ingest-IsWellFormed,
}
use nightfall_photo_ingress.Storage.Sound.{sha256_file-IsSound, file_size-IsSound, commit-IsSound}
use nightfall_photo_ingress.Ingest.Candidate.{
  StagedCandidate, Settings, ZeroBytePolicy, quarantine, reject,
}
use nightfall_photo_ingress.Ingest.Journal.{journal_append}
use nightfall_photo_ingress.Ingest.Policy.{handle_quarantine_or_delete}
use nightfall_photo_ingress.Ingest.Process.{
  persist_known, persist_unknown, persist_blocked, persist, after_block_rules, hash_and_persist,
  after_prefilter, prefilter, after_size, check_size, process_one,
}

journal_append-IsSound :
    (os : Os) (b : Bool) (op phase : String) (c : StagedCandidate) (d s : Option String)
    → Keeps IsSound (journal_append os b op phase c d s)
unfolding journal_append
journal_append-IsSound os false op phase c d s = record { at = λ w h. h }
journal_append-IsSound os true op phase c d s = record { at = λ w h. h }

persist_known-IsSound :
    (os : Os) (s : Settings) (op : String) (c : StagedCandidate) (sha : String) (row : FileRow)
    → Keeps IsSound (persist_known os s op c sha row)
unfolding persist_known
persist_known-IsSound os s op c sha row =
    search
      (sound_rules, file_size-IsSound, journal_append-IsSound, finalize_known_ingest-IsWellFormed)
      depth 16

-- The lemma on the transaction, in the order of its arguments.
unknown_call :
    (sha : String) (size : ℕ) (fn path a i src t actor now : String) (db : Db)
    → IsWellFormed db
    → IsWellFormed (finalize_unknown_ingest sha size fn path a i src t actor none now db).1
unknown_call sha size fn path a i src t actor now db =
    finalize_unknown_ingest-IsWellFormed sha size fn path a i src t actor now none db

persist_unknown-IsSound :
    (os : Os) (s : Settings) (op : String) (c : StagedCandidate) (sha : String)
    → Keeps IsSound (persist_unknown os s op c sha)
unfolding persist_unknown
persist_unknown-IsSound os s op c sha =
    search (sound_rules, commit-IsSound, file_size-IsSound, journal_append-IsSound, unknown_call)
      depth 24

persist_blocked-IsSound :
    (os : Os) (s : Settings) (op : String) (c : StagedCandidate) (sha : String) (size : ℕ)
    (rule : String × String)
    → Keeps IsSound (persist_blocked os s op c sha size rule)
unfolding persist_blocked
persist_blocked-IsSound os s op c sha size rule =
    search
      (
        sound_rules, journal_append-IsSound, create_or_update_file-IsWellFormed,
        upsert_metadata_index-IsWellFormed, upsert_file_origin-IsWellFormed,
        append_audit_event-IsWellFormed,
      )
      depth 24

persist-IsSound :
    (os : Os) (s : Settings) (op : String) (c : StagedCandidate) (sha : String)
    (found : Option FileRow)
    → Keeps IsSound (persist os s op c sha found)
unfolding persist
persist-IsSound os s op c sha none = persist_unknown-IsSound os s op c sha
persist-IsSound os s op c sha (some row) = persist_known-IsSound os s op c sha row

after_block_rules-IsSound :
    (os : Os) (s : Settings) (op : String) (c : StagedCandidate) (sha : String) (size : ℕ)
    (rule : Option (String × String))
    → Keeps IsSound (after_block_rules os s op c sha size rule)
unfolding after_block_rules
after_block_rules-IsSound os s op c sha size (some rule) =
    persist_blocked-IsSound os s op c sha size rule
after_block_rules-IsSound os s op c sha size none = search (sound_rules, persist-IsSound)

hash_and_persist-IsSound :
    (os : Os) (s : Settings) (op : String) (c : StagedCandidate) (size : ℕ)
    → Keeps IsSound (hash_and_persist os s op c size)
unfolding hash_and_persist
hash_and_persist-IsSound os s op c size =
    search (sound_rules, sha256_file-IsSound, journal_append-IsSound, after_block_rules-IsSound)
      depth 12

after_prefilter-IsSound :
    (os : Os) (s : Settings) (op : String) (c : StagedCandidate) (size : ℕ)
    (hit : Option (String × String))
    → Keeps IsSound (after_prefilter os s op c size hit)
unfolding after_prefilter
after_prefilter-IsSound os s op c size none = hash_and_persist-IsSound os s op c size
after_prefilter-IsSound os s op c size (some (status, sha)) =
    search (sound_rules, append_audit_event-IsWellFormed) depth 12

handle-IsSound :
    (os : Os) (p : String) (dir : Option String) (category : String)
    → Keeps IsSound (handle_quarantine_or_delete os p dir category)
unfolding handle_quarantine_or_delete
handle-IsSound os p none category = search sound_rules
handle-IsSound os p (some dir) category = search sound_rules

prefilter-IsSound :
    (os : Os) (s : Settings) (op : String) (c : StagedCandidate) (size : ℕ)
    → Keeps IsSound (prefilter os s op c size)
unfolding prefilter
prefilter-IsSound os s op c size = search (sound_rules, after_prefilter-IsSound)

after_size-IsSound :
    (os : Os) (s : Settings) (op : String) (c : StagedCandidate) (size : ℕ)
    (policy : ZeroBytePolicy)
    → Keeps IsSound (after_size os s op c size policy)
unfolding after_size
after_size-IsSound os s op c zero reject = search sound_rules
after_size-IsSound os s op c zero quarantine = search (sound_rules, handle-IsSound)
after_size-IsSound os s op c _ _ = prefilter-IsSound os s op c _

check_size-IsSound :
    (os : Os) (s : Settings) (op : String) (c : StagedCandidate) (size : ℕ)
    → Keeps IsSound (check_size os s op c size)
unfolding check_size
check_size-IsSound os s op c size =
    search (sound_rules, journal_append-IsSound, handle-IsSound, after_size-IsSound) depth 12

pub process_one-IsSound :
    (os : Os) (s : Settings) (c : StagedCandidate) → Keeps IsSound (process_one os s c)
unfolding process_one
process_one-IsSound os s c =
    search (sound_rules, journal_append-IsSound, file_size-IsSound, check_size-IsSound) depth 14
