-- ===== src/Ingest/Process.antt =====
-- The ingest of one staged candidate (`_process_one` of
-- src/nightfall_photo_ingress/domain/ingest.py), in the stages of the source: what is refused before
-- hashing, the pre-filter, the block rules, and the persistence of unknown and of known content.
use nightfall_photo_ingress.Base.{
  ℕ, zero, String, Bool, true, false, not, ◌&&◌, Option, none, some, eqb, if◌then◌else◌,
}
use nightfall_photo_ingress.Base.Exec.{Exec, pure, lift, gets, ◌>>=◌, ◌>>◌}
use nightfall_photo_ingress.Text.{cat}
use nightfall_photo_ingress.Registry.Schema.{FileRow}
use nightfall_photo_ingress.Registry.Files.{
  get_file, create_or_update_file, upsert_metadata_index, upsert_file_origin, append_audit_event,
}
use nightfall_photo_ingress.Registry.Lifecycle.{finalize_unknown_ingest, finalize_known_ingest}
use nightfall_photo_ingress.World.{Os, World, exists, on_db, utc_now, unlink}
use nightfall_photo_ingress.Storage.Render.{
  render_storage_relative_path, join, choose_collision_safe_destination_with_threshold,
}
use nightfall_photo_ingress.Storage.Commit.{sha256_file, file_size, commit_staging_to_accepted}
use nightfall_photo_ingress.Ingest.Candidate.{
  StagedCandidate, IngestOutcome, Settings, ZeroBytePolicy, quarantine, reject,
}
use nightfall_photo_ingress.Ingest.Journal.{journal_append}
use nightfall_photo_ingress.Ingest.Policy.{
  prefilter_status, match_block_rule, handle_quarantine_or_delete,
}

abbrev pipeline : String
pipeline = "ingest_pipeline"

abbrev pub outcome : StagedCandidate → String → Option String → Option String → Bool → IngestOutcome
outcome c action sha destination hit = record {
  account_name = c.account_name;
  onedrive_id = c.onedrive_id;
  action = action;
  sha256 = sha;
  destination_path = destination;
  prefilter_hit = hit;
}

-- Content whose hash has no row: the file goes to the pending queue, then to the registry.
unfoldable pub persist_unknown :
    Os → Settings → String → StagedCandidate → String → Exec World IngestOutcome
persist_unknown os s op_id c sha = do
  parts ←
      lift
        (render_storage_relative_path os s.storage_template sha c.original_filename c.modified_time)
  fs ← gets (λ w. w.fs)
  destination ← lift (
      choose_collision_safe_destination_with_threshold fs (join s.pending_root parts)
        s.collision_max_attempts)
  commit_staging_to_accepted os c.staging_path destination s.staging_on_same_pool
      (some s.pending_root)
  journal_append os s.has_journal op_id "storage_committed" c (some destination) (some sha)
  size ← file_size destination
  now ← utc_now os
  on_db (
      finalize_unknown_ingest sha size c.original_filename destination c.account_name c.onedrive_id
        c.relative_path c.modified_time pipeline none now)
  journal_append os s.has_journal op_id "registry_persisted" c (some destination) (some sha)
  pure (outcome c "pending" (some sha) (some destination) false)

-- Content whose hash has a row, whatever its status: the staged file is discarded.
unfoldable pub persist_known :
    Os → Settings → String → StagedCandidate → String → FileRow → Exec World IngestOutcome
persist_known os s op_id c sha row = do
  size ← file_size c.staging_path
  unlink c.staging_path
  now ← utc_now os
  on_db (
      finalize_known_ingest sha row.status c.account_name c.onedrive_id c.relative_path
        c.modified_time size pipeline now)
  journal_append os s.has_journal op_id "registry_persisted" c none (some sha)
  pure (outcome c (cat "discard_" row.status) (some sha) none false)

-- Content whose name a block rule matches: discarded and on record as rejected.
unfoldable pub persist_blocked :
    Os
    → Settings
    → String
    → StagedCandidate
    → String
    → ℕ
    → String × String
    → Exec World IngestOutcome
persist_blocked os s op_id c sha size rule = do
  unlink c.staging_path
  t1 ← utc_now os
  on_db (create_or_update_file sha size "rejected" (some c.original_filename) none t1)
  t2 ← utc_now os
  on_db (upsert_metadata_index c.account_name c.onedrive_id size c.modified_time sha t2)
  t3 ← utc_now os
  on_db (upsert_file_origin sha c.account_name c.onedrive_id (some c.relative_path) t3)
  t4 ← utc_now os
  on_db (
      append_audit_event (some sha) "rejected"
        (some (cat "block_rule:" (cat rule.0 (cat ":" rule.1)))) pipeline none none t4)
  journal_append os s.has_journal op_id "registry_persisted" c none (some sha)
  pure (outcome c "discard_rejected" (some sha) none false)

unfoldable pub persist :
    Os → Settings → String → StagedCandidate → String → Option FileRow → Exec World IngestOutcome
persist os s op_id c sha none = persist_unknown os s op_id c sha
persist os s op_id c sha (some row) = persist_known os s op_id c sha row

unfoldable pub after_block_rules :
    Os
    → Settings
    → String
    → StagedCandidate
    → String
    → ℕ
    → Option (String × String)
    → Exec World IngestOutcome
unfolding persist
after_block_rules os s op_id c sha size (some rule) = persist_blocked os s op_id c sha size rule
after_block_rules os s op_id c sha size none = do
  found ← gets (λ w. get_file sha w.db)
  persist os s op_id c sha found

-- The hash, then the block rules.
unfoldable pub hash_and_persist :
    Os → Settings → String → StagedCandidate → ℕ → Exec World IngestOutcome
unfolding after_block_rules
hash_and_persist os s op_id c size = do
  sha ← sha256_file os c.staging_path
  journal_append os s.has_journal op_id "hash_completed" c none (some sha)
  blocked ← gets (λ w. match_block_rule os c.original_filename w.db)
  after_block_rules os s op_id c sha size blocked

-- The pre-filter's answer, if it has one.
unfoldable pub after_prefilter :
    Os
    → Settings
    → String
    → StagedCandidate
    → ℕ
    → Option (String × String)
    → Exec World IngestOutcome
after_prefilter os s op_id c size none = hash_and_persist os s op_id c size
after_prefilter os s op_id c size (some (status, sha)) = do
  unlink c.staging_path
  now ← utc_now os
  on_db (
      append_audit_event (some sha) (cat "prefilter_" status) (some "metadata_index_match") pipeline
        none none now)
  pure (outcome c (cat "discard_" status) (some sha) none true)

unfoldable pub prefilter : Os → Settings → String → StagedCandidate → ℕ → Exec World IngestOutcome
unfolding after_prefilter
prefilter os s op_id c size = do
  hit ← gets (λ w. prefilter_status c w.db)
  after_prefilter os s op_id c size hit

-- A file of no bytes, by the policy; any other file goes on.
unfoldable pub after_size :
    Os → Settings → String → StagedCandidate → ℕ → ZeroBytePolicy → Exec World IngestOutcome
unfolding prefilter
after_size os s op_id c zero reject = do
  unlink c.staging_path
  pure (outcome c "reject_zero_byte" none none false)
after_size os s op_id c zero quarantine = do
  handle_quarantine_or_delete os c.staging_path s.quarantine_dir "zero_byte"
  pure (outcome c "quarantine_zero_byte" none none false)
after_size os s op_id c size policy = prefilter os s op_id c size

-- pre_hash_size_verify and candidate.size_bytes is not None and candidate.size_bytes != actual_size
abbrev size_differs : Bool → Option ℕ → ℕ → Bool
size_differs verify none actual = false
size_differs verify (some declared) actual = verify && not (eqb declared actual)

unfoldable pub check_size : Os → Settings → String → StagedCandidate → ℕ → Exec World IngestOutcome
unfolding after_size
check_size os s op_id c actual =
    if size_differs s.pre_hash_size_verify c.size_bytes actual
    then (do
      journal_append os s.has_journal op_id "size_mismatch" c none none
      handle_quarantine_or_delete os c.staging_path s.quarantine_dir "size_mismatch"
      pure (outcome c "size_mismatch" none none false))
    else after_size os s op_id c actual s.zero_byte_policy

-- f"{account_name}:{onedrive_id}:{uuid4().hex[:12]}"
abbrev new_op_id : Os → StagedCandidate → World → String
new_op_id os c w = cat c.account_name (cat ":" (cat c.onedrive_id (cat ":" (os.uuid w.reads))))

unfoldable pub process_one : Os → Settings → StagedCandidate → Exec World IngestOutcome
unfolding check_size
process_one os s c = do
  op_id ← gets (new_op_id os c)
  journal_append os s.has_journal op_id "ingest_started" c none none
  there ← gets (λ w. exists c.staging_path w.fs)
  if not there
      then (do
        journal_append os s.has_journal op_id "missing_staged" c none none
        pure (outcome c "missing_staged" none none false))
      else (do actual ← file_size c.staging_path; check_size os s op_id c actual)
