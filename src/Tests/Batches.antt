-- ===== src/Tests/Batches.antt =====
-- The theorems on batches at a concrete world.
use nightfall_photo_ingress.LivePhoto.{classify_component, ingest_queued, stem_of}
use nightfall_photo_ingress.Ingest.Journal.{journal_append}
use nightfall_photo_ingress.Ingest.Policy.{match_block_rule, prefilter_status}
use nightfall_photo_ingress.Ingest.Process.{hash_and_persist, persist_known, process_one}
use nightfall_photo_ingress.Registry.Conn.{is_allowed, write_metadata}
use nightfall_photo_ingress.Registry.Files.{get_file, append_ingest_terminal_event}
use nightfall_photo_ingress.Registry.Lifecycle.{finalize_known_ingest}
use nightfall_photo_ingress.Sql.{exists_where, find_first, select_where, count_where}
use nightfall_photo_ingress.Storage.Commit.{sha256_file}
use nightfall_photo_ingress.World.{content}
use nightfall_photo_ingress.Base.{◌+◌, true, false, none, some, List, [], ◌∷◌, ◌++◌, map, refl, ◌≡◌}
use nightfall_photo_ingress.LivePhoto.Heuristics.{LivePhotoHeuristics}
use nightfall_photo_ingress.Ingest.Candidate.{StagedCandidate, IngestOutcome}
use nightfall_photo_ingress.Ingest.Batch.{
  BatchCall, IngestBatchResult, Handled, Pairing, conclude, process_batch, validate_candidates,
  append_terminal, pair_candidate,
}
use nightfall_photo_ingress.Ingest.Batch.Outcomes.{
  candidate_key, outcome_key, process_batch-Reports,
}
use nightfall_photo_ingress.Ingest.Batch.Terminal.{events, expected_events, conclude-events}
use nightfall_photo_ingress.Tests.Data.{os, w, settings, staged, sha_b}

abbrev heuristics : LivePhotoHeuristics
heuristics = record {
  capture_tolerance_seconds = 3;
  stem_mode = "exact_stem";
  component_order = "photo_first";
  conflict_policy = "nearest_capture_time";
}

abbrev call : BatchCall
call = record {
  settings = settings;
  input_schema_version = 1;
  worker_count = 1;
  size_aware_scheduling = true;
  live_photo_heuristics = some heuristics;
}

-- A larger candidate, which is handled first; its staged file is missing.
abbrev lost : StagedCandidate
lost = record staged { onedrive_id = "id3"; size_bytes = some 9; staging_path = "/staging/c" }

abbrev candidates : List StagedCandidate
candidates = staged ∷ lost ∷ []

abbrev discarded : IngestOutcome
discarded = record {
  account_name = "anna";
  onedrive_id = "id2";
  action = "discard_rejected";
  sha256 = some sha_b;
  destination_path = none;
  prefilter_hit = false;
}

abbrev missing : IngestOutcome
missing = record discarded { onedrive_id = "id3"; action = "missing_staged"; sha256 = none }

abbrev result : IngestBatchResult
result = record {
  outcomes = discarded ∷ missing ∷ [];
  pending_count = 0;
  discarded_count = 2;
  prefilter_discard_count = 0;
  prefilter_hit_count = 0;
  prefilter_miss_count = 2;
  size_mismatch_count = 0;
  zero_byte_reject_count = 0;
  zero_byte_quarantine_count = 0;
}

process_batch-Reports_example :
    (map outcome_key result.outcomes ≡ map candidate_key candidates) × (0 + 2 ≡ 2)
unfolding content exists_where finalize_known_ingest find_first get_file hash_and_persist is_allowed
    journal_append match_block_rule append_terminal pair_candidate classify_component ingest_queued
    stem_of append_ingest_terminal_event count_where persist_known prefilter_status process_batch
    process_one select_where sha256_file validate_candidates write_metadata
process_batch-Reports_example = process_batch-Reports os call candidates w result refl

abbrev handled : List Handled
handled = (staged, discarded) ∷ (lost, missing) ∷ []

abbrev unpaired : Pairing
unpaired = record { queue = []; hashes = [] }

conclude-events_example :
    events (conclude os (some heuristics) "run" 0 unpaired handled w).1
    ≡ events w ++ expected_events "run" 0 handled
unfolding append_ingest_terminal_event append_terminal classify_component conclude ingest_queued
    pair_candidate stem_of
conclude-events_example = conclude-events os (some heuristics) "run" 0 unpaired handled w refl
