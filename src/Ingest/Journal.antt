-- ===== src/Ingest/Journal.antt =====
-- The ingest journal (src/nightfall_photo_ingress/domain/journal.py): one record is appended for each
-- phase, after a rotation that empties the active file when it is full.
use nightfall_photo_ingress.Base.{String, Bool, true, false, Option, [], ◌∷◌, ◌++◌, if◌then◌else◌}
use nightfall_photo_ingress.Base.Exec.{ok, Exec, pure, ◌>>=◌, ◌>>◌}
use nightfall_photo_ingress.World.{Os, World, JournalRecord, utc_now}
use nightfall_photo_ingress.Ingest.Candidate.{StagedCandidate}

-- `_rotate_if_needed`
unfoldable pub rotate_if_needed : Os → Exec World Unit
rotate_if_needed os w =
    (ok tt, record w { journal = if os.journal_full w.journal then [] else w.journal })

abbrev add_record : JournalRecord → Exec World Unit
add_record r w = (ok tt, record w { journal = w.journal ++ r ∷ [] })

-- `IngestOperationJournal.append`
unfoldable pub append :
    Os → String → String → StagedCandidate → Option String → Option String → Exec World Unit
unfolding rotate_if_needed
append os op_id phase c destination sha = do
  rotate_if_needed os
  ts ← utc_now os
  add_record (record {
    op_id = op_id;
    phase = phase;
    ts = ts;
    account = c.account_name;
    onedrive_id = c.onedrive_id;
    staging_path = c.staging_path;
    destination_path = destination;
    sha256 = sha;
  })

-- `_journal_append`
unfoldable pub journal_append :
    Os → Bool → String → String → StagedCandidate → Option String → Option String → Exec World Unit
unfolding append
journal_append os false op_id phase c destination sha = pure tt
journal_append os true op_id phase c destination sha = append os op_id phase c destination sha
