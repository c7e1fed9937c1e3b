-- ===== src/Flows.antt =====
-- The program seen from outside: the operator's flows of src/nightfall_photo_ingress/reject.py, the
-- ingest of a staged candidate and the recovery from the journal of
-- src/nightfall_photo_ingress/domain/ingest.py, the triage of src/api/services/triage_service.py and
-- the chunks of src/nightfall_photo_ingress/hash_import.py, as data, and sequences of them on one
-- world. A flow that raises leaves what it wrote, and its caller goes on with the next.
use nightfall_photo_ingress.Base.{ℕ, String, Bool, Option, List, [], ◌∷◌}
use nightfall_photo_ingress.Registry.WellFormed.{IsWellFormed}
use nightfall_photo_ingress.World.{Os, World}
use nightfall_photo_ingress.World.Keeps.{IsSound}
use nightfall_photo_ingress.Review.Results.{Core}
use nightfall_photo_ingress.Review.Reject.{reject_sha256}
use nightfall_photo_ingress.Review.Accept.{accept_sha256, purge_sha256}
use nightfall_photo_ingress.Review.Trash.{process_trash}
use nightfall_photo_ingress.Review.Sound.{
  reject_sha256-IsSound, accept_sha256-IsSound, purge_sha256-IsSound, process_trash-IsSound,
}
use nightfall_photo_ingress.Ingest.Candidate.{StagedCandidate, Settings}
use nightfall_photo_ingress.Ingest.Process.{process_one}
use nightfall_photo_ingress.Ingest.Replay.{replay_interrupted_operations}
use nightfall_photo_ingress.Ingest.Sound.{process_one-IsSound}
use nightfall_photo_ingress.Ingest.Recovery.{replay-IsSound}
use nightfall_photo_ingress.Ingest.Batch.{BatchCall, process_batch}
use nightfall_photo_ingress.Ingest.Batch.Sound.{process_batch-IsSound}
use nightfall_photo_ingress.HashImport.{execute_hash_import_chunks}
use nightfall_photo_ingress.HashImport.Sound.{execute_hash_import_chunks-IsSound}
use nightfall_photo_ingress.Api.Keys.{Wire}
use nightfall_photo_ingress.Api.Triage.{TriageResponse, TriageCall, Details, execute}
use nightfall_photo_ingress.Api.Triage.Sound.{execute-IsSound}

-- A call of the program: the hash, the reason and the actor for a review, the files listed for the
-- trash, the settings and the candidate for an ingest, whether there is a journal to replay, the
-- request for a triage, the hashes, the chunk size and the dry run for an import, and the arguments
-- and candidates of a batch.
pub data Flow : Type 0 where
  reject_flow : String → Option String → String → Flow
  accept_flow : String → Option String → String → Flow
  purge_flow : String → Option String → String → Flow
  trash_flow : List String → Flow
  ingest_flow : Settings → StagedCandidate → Flow
  replay_flow : Bool → Flow
  triage_flow : Wire TriageResponse → Details → TriageCall → Flow
  import_flow : List String → ℕ → Bool → Flow
  batch_flow : BatchCall → List StagedCandidate → Flow

unfoldable pub run_flow : Os → Core → Flow → World → World
run_flow os core (reject_flow sha reason actor) w = (reject_sha256 os core sha reason actor w).1
run_flow os core (accept_flow sha reason actor) w = (accept_sha256 os core sha reason actor w).1
run_flow os core (purge_flow sha reason actor) w = (purge_sha256 os core sha reason actor w).1
run_flow os core (trash_flow paths) w = (process_trash os core paths w).1
run_flow os core (ingest_flow settings c) w = (process_one os settings c w).1
run_flow os core (replay_flow journal) w = (replay_interrupted_operations os journal w).1
run_flow os core (triage_flow wire details c) w = (execute os wire details c w).1
run_flow os core (import_flow hashes size dry) w =
    (execute_hash_import_chunks os hashes size dry w).1
run_flow os core (batch_flow call candidates) w = (process_batch os call candidates w).1

unfoldable pub run_flows : Os → Core → List Flow → World → World
run_flows os core [] w = w
run_flows os core (f ∷ fs) w = run_flows os core fs (run_flow os core f w)

run_flow-IsSound :
    (os : Os) (core : Core) (f : Flow) (w : World) → IsSound w → IsSound (run_flow os core f w)
unfolding run_flow
run_flow-IsSound os core (reject_flow sha reason actor) w h =
    (reject_sha256-IsSound os core sha reason actor).at w h
run_flow-IsSound os core (accept_flow sha reason actor) w h =
    (accept_sha256-IsSound os core sha reason actor).at w h
run_flow-IsSound os core (purge_flow sha reason actor) w h =
    (purge_sha256-IsSound os core sha reason actor).at w h
run_flow-IsSound os core (trash_flow paths) w h = (process_trash-IsSound os core paths).at w h
run_flow-IsSound os core (ingest_flow settings c) w h = (process_one-IsSound os settings c).at w h
run_flow-IsSound os core (replay_flow journal) w h = (replay-IsSound os journal).at w h
run_flow-IsSound os core (triage_flow wire details c) w h =
    (execute-IsSound os wire details c).at w h
run_flow-IsSound os core (import_flow hashes size dry) w h =
    (execute_hash_import_chunks-IsSound os hashes size dry).at w h
run_flow-IsSound os core (batch_flow call candidates) w h =
    (process_batch-IsSound os call candidates).at w h

-- Whatever sequence of rejections, acceptances, purges, trash runs, ingests, batches, recoveries,
-- triage requests and hash imports is made,
-- whichever of them raise and wherever, a registry that was well-formed is well-formed again: hashes
-- in `files` are unique, every status is allowed, origins, acceptances and live photo pairs
-- refer to files that have a row, and audit ids rise.
pub run_flows-IsWellFormed :
    (os : Os) (core : Core) (flows : List Flow) (w : World)
    → IsWellFormed w.db
    → IsWellFormed (run_flows os core flows w).db
unfolding run_flows
run_flows-IsWellFormed os core [] w h = h
run_flows-IsWellFormed os core (f ∷ fs) w h =
    run_flows-IsWellFormed os core fs (run_flow os core f w) (run_flow-IsSound os core f w h)
