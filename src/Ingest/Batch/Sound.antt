-- ===== src/Ingest/Batch/Sound.antt =====
-- The invariant of the registry under the ingest of a batch (`process_batch` of
-- src/nightfall_photo_ingress/domain/ingest.py).
use nightfall_photo_ingress.Base.{ℕ, ◌+◌, String, Option, none, some, List, [], ◌∷◌}
use nightfall_photo_ingress.Base.Exec.{pure}
use nightfall_photo_ingress.Base.Exec.Keeps.{Keeps, Keeps-bind, Keeps-then, Keeps-pure}
use nightfall_photo_ingress.Registry.Preserve.{
  upsert_live_photo_pair-IsWellFormed, append_ingest_terminal_event-IsWellFormed,
}
use nightfall_photo_ingress.World.{Os, World}
use nightfall_photo_ingress.World.Keeps.{IsSound, sound_rules}
use nightfall_photo_ingress.LivePhoto.{LivePhotoCandidate, LivePhotoPair, Component, Queued}
use nightfall_photo_ingress.LivePhoto.Heuristics.{LivePhotoHeuristics, enforce_v1_defaults}
use nightfall_photo_ingress.Ingest.Candidate.{StagedCandidate, Settings}
use nightfall_photo_ingress.Ingest.Process.{process_one}
use nightfall_photo_ingress.Ingest.Sound.{process_one-IsSound}
use nightfall_photo_ingress.Ingest.Batch.{
  BatchCall, Handled, Hashes, Pairing, validate_candidate, validate_candidates,
  validate_batch_contract, process_scheduled, process_candidates, queue_component, record_known,
  record_pair, pair_candidate, append_terminal, conclude, new_queue, run_batch, process_batch,
}

module _ (os : Os) where
  validate_candidate-IsSound :
      (index : ℕ) (c : StagedCandidate) → Keeps {S = World} IsSound (validate_candidate os index c)
  unfolding validate_candidate
  validate_candidate-IsSound index c = search sound_rules depth 16

  validate_candidates-IsSound :
      (index : ℕ) (cs : List StagedCandidate) → Keeps IsSound (validate_candidates os index cs)
  unfolding validate_candidates
  validate_candidates-IsSound index [] = search sound_rules
  validate_candidates-IsSound index (c ∷ cs) =
      Keeps-then (validate_candidate os index c) (validate_candidates os (index + 1) cs)
        (validate_candidate-IsSound index c) (validate_candidates-IsSound (index + 1) cs)

  process_scheduled-IsSound :
      (s : Settings) (cs : List (ℕ × StagedCandidate)) → Keeps IsSound (process_scheduled os s cs)
  unfolding process_scheduled
  process_scheduled-IsSound s [] = search sound_rules
  process_scheduled-IsSound s ((i, c) ∷ cs) =
      Keeps-bind (process_one os s c) _ (process_one-IsSound os s c) (λ o.
        Keeps-bind (process_scheduled os s cs) (λ rest. pure ((i, (c, o)) ∷ rest))
          (process_scheduled-IsSound s cs) (λ rest. Keeps-pure _))

  queue_component-IsSound :
      (tolerance : ℕ) (c : LivePhotoCandidate) (component : Option Component) (queue : List Queued)
      → Keeps IsSound (queue_component os tolerance c component queue)
  unfolding queue_component
  queue_component-IsSound tolerance c none queue = search sound_rules
  queue_component-IsSound tolerance c (some component) queue = search sound_rules depth 12

  record_known-IsSound :
      (pair : LivePhotoPair) (photo video : Option String)
      → Keeps IsSound (record_known os pair photo video)
  unfolding record_known
  record_known-IsSound pair (some photo) (some video) =
      search (sound_rules, upsert_live_photo_pair-IsWellFormed) depth 12
  record_known-IsSound pair none video = search sound_rules
  record_known-IsSound pair (some photo) none = search sound_rules

  record_pair-IsSound :
      (hashes : Hashes) (pair : Option LivePhotoPair) → Keeps IsSound (record_pair os hashes pair)
  unfolding record_pair
  record_pair-IsSound hashes none = search sound_rules
  record_pair-IsSound hashes (some pair) = search (sound_rules, record_known-IsSound)

  pair_candidate-IsSound :
      (h : Option LivePhotoHeuristics) (c : StagedCandidate) (p : Pairing)
      → Keeps IsSound (pair_candidate os h c p)
  unfolding pair_candidate
  pair_candidate-IsSound none c p = search sound_rules
  pair_candidate-IsSound (some h) c p =
      search (sound_rules, queue_component-IsSound, record_pair-IsSound) depth 12

  append_terminal-IsSound :
      (batch : String) (seq : ℕ) (h : Handled) → Keeps IsSound (append_terminal os batch seq h)
  unfolding append_terminal
  append_terminal-IsSound batch seq (c, o) =
      search (sound_rules, append_ingest_terminal_event-IsWellFormed) depth 12

  conclude-IsSound :
      (h : Option LivePhotoHeuristics) (batch : String) (seq : ℕ) (p : Pairing) (hs : List Handled)
      → Keeps IsSound (conclude os h batch seq p hs)
  unfolding conclude
  conclude-IsSound h batch seq p [] = search sound_rules
  conclude-IsSound h batch seq p ((c, o) ∷ rest) =
      search
        (
          sound_rules,
          pair_candidate-IsSound,
          append_terminal-IsSound,
          λ (p' : Pairing). conclude-IsSound h batch (seq + 1) p' rest,
        )
        depth 12

  new_queue-IsSound : (h : Option LivePhotoHeuristics) → Keeps IsSound (new_queue h)
  unfolding new_queue enforce_v1_defaults
  new_queue-IsSound none = search sound_rules
  new_queue-IsSound (some h) = search sound_rules depth 12

  pub process_batch-IsSound :
      (call : BatchCall) (candidates : List StagedCandidate)
      → Keeps IsSound (process_batch os call candidates)
  unfolding process_batch validate_batch_contract run_batch process_candidates
  process_batch-IsSound call candidates =
      search
        (
          sound_rules, validate_candidates-IsSound, new_queue-IsSound, process_scheduled-IsSound,
          conclude-IsSound,
        )
        depth 30
