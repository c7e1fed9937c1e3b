-- ===== src/Ingest/Batch.antt =====
-- The ingest of a batch (`process_batch` of src/nightfall_photo_ingress/domain/ingest.py): its
-- checks, the order in which the candidates are handled, the pairing of live photos and the terminal
-- events. With more workers than one the candidates are handled in that order too, which is one of
-- the orders that the threads may take.
pub mod Order
pub mod Outcomes
pub mod Terminal
pub mod Sound
use nightfall_photo_ingress.Base.{
  ℕ, zero, suc, ◌+◌, String, Bool, true, false, not, ◌&&◌, ◌||◌, Option, none, some, List, [], ◌∷◌,
  ◌++◌, ◌==◌, eqb, leb, ltb, is_some, if◌then◌else◌, map,
}
use nightfall_photo_ingress.Base.Exec.{
  input_schema, malformed_candidate, worker_count_too_small, attempts_too_small, unsafe_template,
  invalid_time, Exec, pure, raise_if, or_raise, gets, ◌>>=◌, ◌>>◌,
}
use nightfall_photo_ingress.Sql.{count_where}
use nightfall_photo_ingress.Text.{cat, strip, is_space, starts, replace, take_text}
use nightfall_photo_ingress.Registry.Files.{append_ingest_terminal_event}
use nightfall_photo_ingress.Registry.Pairs.{upsert_live_photo_pair}
use nightfall_photo_ingress.World.{Os, World, on_db, utc_now}
use nightfall_photo_ingress.Storage.Lint.{lint_storage_template}
use nightfall_photo_ingress.LivePhoto.{
  LivePhotoCandidate, LivePhotoPair, Component, Queued, classify_component, ingest,
}
use nightfall_photo_ingress.LivePhoto.Heuristics.{LivePhotoHeuristics, enforce_v1_defaults}
use nightfall_photo_ingress.Ingest.Candidate.{StagedCandidate, IngestOutcome, Settings}
use nightfall_photo_ingress.Ingest.Process.{process_one}

-- The arguments of a batch besides the candidates.
pub record BatchCall : Type 0 where
  pub settings : Settings
  pub input_schema_version : ℕ
  pub worker_count : ℕ
  pub size_aware_scheduling : Bool
  pub live_photo_heuristics : Option LivePhotoHeuristics

-- The dataclass `IngestBatchResult`.
pub record IngestBatchResult : Type 0 where
  pub outcomes : List IngestOutcome
  pub pending_count : ℕ
  pub discarded_count : ℕ
  pub prefilter_discard_count : ℕ
  pub prefilter_hit_count : ℕ
  pub prefilter_miss_count : ℕ
  pub size_mismatch_count : ℕ
  pub zero_byte_reject_count : ℕ
  pub zero_byte_quarantine_count : ℕ

abbrev pub is_blank : String → Bool
unfolding strip is_space
is_blank s = strip is_space s == ""

-- A time that `datetime.fromisoformat` takes.
abbrev pub is_time : Os → String → Bool
is_time os s = is_some (os.year_month (replace s "Z" "+00:00"))

unfoldable pub validate_candidate : {S : Type 0} → Os → ℕ → StagedCandidate → Exec S Unit
unfolding starts strip is_space replace
validate_candidate os index c = do
  raise_if (is_blank c.account_name) (malformed_candidate index "account_name is required")
  raise_if (is_blank c.onedrive_id) (malformed_candidate index "onedrive_id is required")
  raise_if (is_blank c.original_filename)
      (malformed_candidate index "original_filename is required")
  raise_if (not (starts "/" c.relative_path))
      (malformed_candidate index "relative_path must start with '/'")
  raise_if (not (is_time os c.modified_time))
      (malformed_candidate index "modified_time is not valid ISO-8601")

unfoldable pub validate_candidates : {S : Type 0} → Os → ℕ → List StagedCandidate → Exec S Unit
unfolding validate_candidate
validate_candidates os index [] = pure tt
validate_candidates os index (c ∷ cs) =
    validate_candidate os index c >> validate_candidates os (index + 1) cs

-- `_validate_batch_contract`
unfoldable pub validate_batch_contract : {S : Type 0} → Os → ℕ → List StagedCandidate → Exec S Unit
validate_batch_contract os version candidates = do
  raise_if (not (eqb version 1)) (input_schema version)
  validate_candidates os 0 candidates

-- enumerate(…)
unfoldable pub enumerate : {A : Type 0} → ℕ → List A → List (ℕ × A)
enumerate n [] = []
enumerate n (x ∷ xs) = (n, x) ∷ enumerate (n + 1) xs

-- The sort of the schedule: (size, -index) in reverse, so larger sizes first and equal sizes in the
-- order of the batch; an unknown size counts as -1.
abbrev pub size_key : StagedCandidate → ℕ
size_key c = elim c.size_bytes [ none ↦ zero | some n ↦ suc n ]

abbrev pub goes_first : ℕ × StagedCandidate → ℕ × StagedCandidate → Bool
goes_first (i, a) (j, b) = ltb (size_key b) (size_key a) || eqb (size_key a) (size_key b) && leb i j

-- list.sort, by a test of two elements that do not change places
unfoldable pub insert_by : {A : Type 0} → (A → A → Bool) → A → List A → List A
insert_by before x [] = x ∷ []
insert_by before x (y ∷ ys) = if before x y then x ∷ y ∷ ys else y ∷ insert_by before x ys

unfoldable pub sort_by : {A : Type 0} → (A → A → Bool) → List A → List A
unfolding insert_by
sort_by before [] = []
sort_by before (x ∷ xs) = insert_by before x (sort_by before xs)

unfoldable pub schedule : Bool → List StagedCandidate → List (ℕ × StagedCandidate)
unfolding sort_by enumerate
schedule true candidates = sort_by goes_first (enumerate 0 candidates)
schedule false candidates = enumerate 0 candidates

abbrev pub Handled : Type 0
Handled = StagedCandidate × IngestOutcome

unfoldable pub process_scheduled :
    Os → Settings → List (ℕ × StagedCandidate) → Exec World (List (ℕ × Handled))
process_scheduled os s [] = pure []
process_scheduled os s ((index, c) ∷ cs) = do
  outcome ← process_one os s c
  rest ← process_scheduled os s cs
  pure ((index, (c, outcome)) ∷ rest)

-- ordered_results.sort(key=lambda item: item[0])
abbrev pub index_before : {A : Type 0} → ℕ × A → ℕ × A → Bool
index_before (i, a) (j, b) = leb i j

unfoldable pub in_order : List (ℕ × Handled) → List Handled
unfolding sort_by
in_order results = map (λ r. r.1) (sort_by index_before results)

unfoldable pub process_candidates :
    Os → BatchCall → List StagedCandidate → Exec World (List Handled)
unfolding process_scheduled schedule in_order
process_candidates os call candidates = do
  results ← process_scheduled os call.settings (schedule call.size_aware_scheduling candidates)
  pure (in_order results)

-- `_terminal_reason_from_outcome`
unfoldable pub terminal_reason_from_outcome : IngestOutcome → String
unfolding starts
terminal_reason_from_outcome o =
    if o.prefilter_hit
    then "metadata_prefilter"
    else if o.action == "pending"
    then "unknown_hash"
    else if starts "discard_" o.action
    then "known_hash"
    else if (o.action == "missing_staged")
        || (o.action == "size_mismatch")
        || (o.action == "reject_zero_byte")
        || (o.action == "quarantine_zero_byte")
    then o.action
    else "terminal_outcome"

-- `_live_photo_pair_id`
unfoldable pub live_photo_pair_id : Os → String → String → String → String → String
unfolding cat take_text
live_photo_pair_id os account stem photo video =
    take_text 32
      (os.text_hexdigest (cat account (cat "|" (cat stem (cat "|" (cat photo (cat "|" video)))))))

-- The hashes of the ids handled so far, the latest first.
abbrev pub Hashes : Type 0
Hashes = List (String × String)

unfoldable pub hash_of : String → Hashes → Option String
hash_of id [] = none
hash_of id ((k, sha) ∷ hs) = if k == id then some sha else hash_of id hs

abbrev pub with_hash : String → Option String → Hashes → Hashes
with_hash id none hs = hs
with_hash id (some sha) hs = (id, sha) ∷ hs

-- What the pairing keeps between candidates.
pub record Pairing : Type 0 where
  pub queue : List Queued
  pub hashes : Hashes

abbrev pub live_candidate : StagedCandidate → LivePhotoCandidate
live_candidate c = record {
  account = c.account_name;
  onedrive_id = c.onedrive_id;
  filename = c.original_filename;
  captured_at = c.modified_time;
}

-- `pair_queue.ingest`, which parses the time and reads the clock for a component only
unfoldable pub queue_component :
    Os
    → ℕ
    → LivePhotoCandidate
    → Option Component
    → List Queued
    → Exec World (List Queued × Option LivePhotoPair)
unfolding ingest
queue_component os tolerance c none queue = pure (queue, none)
queue_component os tolerance c (some component) queue = do
  captured ← or_raise (os.instant c.captured_at) (invalid_time c.captured_at)
  now ← utc_now os
  pure (ingest tolerance c captured now queue)

unfoldable pub record_known : Os → LivePhotoPair → Option String → Option String → Exec World Unit
unfolding live_photo_pair_id
record_known os pair (some photo) (some video) = do
  now ← utc_now os
  on_db (
      upsert_live_photo_pair (live_photo_pair_id os pair.account pair.stem photo video) pair.account
        pair.stem photo video "paired" now)
record_known os pair _ _ = pure tt

unfoldable pub record_pair : Os → Hashes → Option LivePhotoPair → Exec World Unit
unfolding record_known hash_of
record_pair os hashes none = pure tt
record_pair os hashes (some pair) =
    record_known os pair (hash_of pair.photo_onedrive_id hashes)
      (hash_of pair.video_onedrive_id hashes)

unfoldable pub pair_candidate :
    Os → Option LivePhotoHeuristics → StagedCandidate → Pairing → Exec World Pairing
unfolding queue_component record_pair
pair_candidate os none c p = pure p
pair_candidate os (some h) c p = do
  paired ←
      queue_component os h.capture_tolerance_seconds (live_candidate c)
        (classify_component c.original_filename) p.queue
  record_pair os p.hashes paired.1
  pure (record p { queue = paired.0 })

unfoldable pub append_terminal : Os → String → ℕ → Handled → Exec World ℕ
unfolding terminal_reason_from_outcome
append_terminal os batch seq (c, o) = do
  now ← utc_now os
  on_db (
      append_ingest_terminal_event batch seq c.account_name c.onedrive_id o.sha256 o.action
        (some (terminal_reason_from_outcome o)) "ingest_pipeline" now)

-- The loop over the ordered results, after `seq` of them.
unfoldable pub conclude :
    Os → Option LivePhotoHeuristics → String → ℕ → Pairing → List Handled → Exec World Unit
conclude os h batch seq p [] = pure tt
conclude os h batch seq p ((c, o) ∷ rest) = do
  p' ← pair_candidate os h c (record p { hashes = with_hash c.onedrive_id o.sha256 p.hashes })
  row ← append_terminal os batch (seq + 1) (c, o)
  conclude os h batch (seq + 1) p' rest

abbrev pub has_action : String → IngestOutcome → Bool
has_action action o = o.action == action

unfoldable pub summarise : List IngestOutcome → IngestBatchResult
summarise outcomes = record {
  outcomes = outcomes;
  pending_count = count_where (has_action "pending") outcomes;
  discarded_count =
      count_where
        (λ o.
          (o.action == "discard_accepted")
          || (o.action == "discard_rejected")
          || (o.action == "discard_purged")
          || (o.action == "discard_pending")
          || (o.action == "missing_staged"))
        outcomes;
  prefilter_discard_count = count_where (λ o. o.prefilter_hit) outcomes;
  prefilter_hit_count = count_where (λ o. o.prefilter_hit) outcomes;
  prefilter_miss_count = count_where (λ o. not o.prefilter_hit) outcomes;
  size_mismatch_count = count_where (has_action "size_mismatch") outcomes;
  zero_byte_reject_count = count_where (has_action "reject_zero_byte") outcomes;
  zero_byte_quarantine_count = count_where (has_action "quarantine_zero_byte") outcomes;
}

-- `DeferredPairQueue(live_photo_heuristics)`, where there are heuristics
unfoldable pub new_queue : Option LivePhotoHeuristics → Exec World Unit
unfolding enforce_v1_defaults
new_queue none = pure tt
new_queue (some h) = enforce_v1_defaults h

abbrev pub no_findings : List String → Bool
no_findings [] = true
no_findings (f ∷ fs) = false

-- What follows the checks.
unfoldable pub run_batch :
    Os → BatchCall → String → List StagedCandidate → Exec World IngestBatchResult
unfolding process_candidates conclude summarise
run_batch os call batch candidates = do
  handled ← process_candidates os call candidates
  conclude os call.live_photo_heuristics batch 0 (record { queue = []; hashes = [] }) handled
  pure (summarise (map (λ h. h.1) handled))

unfoldable pub process_batch : Os → BatchCall → List StagedCandidate → Exec World IngestBatchResult
unfolding validate_batch_contract lint_storage_template new_queue run_batch
process_batch os call candidates = do
  validate_batch_contract os call.input_schema_version candidates
  raise_if (eqb call.worker_count 0) worker_count_too_small
  raise_if (eqb call.settings.collision_max_attempts 0) attempts_too_small
  let findings = lint_storage_template call.settings.storage_template
  raise_if (not (no_findings findings)) (unsafe_template findings)
  batch ← gets (λ w. os.run_id w.reads)
  new_queue call.live_photo_heuristics
  run_batch os call batch candidates
