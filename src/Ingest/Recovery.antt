-- ===== src/Ingest/Recovery.antt =====
-- The invariant of the registry under the recovery from the journal
-- (src/nightfall_photo_ingress/domain/ingest.py).
use nightfall_photo_ingress.Base.{String, Bool, true, false, Option, none, some, List, [], ◌∷◌}
use nightfall_photo_ingress.Base.Exec.{ok}
use nightfall_photo_ingress.Base.Exec.Keeps.{Keeps}
use nightfall_photo_ingress.World.{Os, JournalRecord}
use nightfall_photo_ingress.World.Keeps.{IsSound, sound_rules}
use nightfall_photo_ingress.Registry.Preserve.{append_audit_event-IsWellFormed}
use nightfall_photo_ingress.Ingest.Replay.{
  ReplayReport, quarantine_destination, remove_staging, audit_recovery, recover_op, replay_op,
  replay_ops, replay_interrupted_operations,
}

quarantine_destination-IsSound : (p : Option String) → Keeps IsSound (quarantine_destination p)
unfolding quarantine_destination
quarantine_destination-IsSound none = search sound_rules
quarantine_destination-IsSound (some p) = search sound_rules depth 12

remove_staging-IsSound : (p : String) → Keeps IsSound (remove_staging p)
unfolding remove_staging
remove_staging-IsSound p = search sound_rules depth 12

audit_recovery-IsSound :
    (os : Os) (op : String) (sha : Option String) → Keeps IsSound (audit_recovery os op sha)
unfolding audit_recovery
audit_recovery-IsSound os op none = search sound_rules
audit_recovery-IsSound os op (some sha) =
    search (sound_rules, append_audit_event-IsWellFormed) depth 16

recover_op-IsSound :
    (os : Os) (op : String) (r : JournalRecord) (t : ReplayReport)
    → Keeps IsSound (recover_op os op r t)
unfolding recover_op
recover_op-IsSound os op r t =
    search
      (sound_rules, quarantine_destination-IsSound, remove_staging-IsSound, audit_recovery-IsSound)
      depth 12

replay_op-IsSound :
    (os : Os) (op : String) (rs : List JournalRecord) (t : ReplayReport)
    → Keeps IsSound (replay_op os op rs t)
unfolding replay_op
replay_op-IsSound os op [] t = search sound_rules
replay_op-IsSound os op (r ∷ rs) t = search (sound_rules, recover_op-IsSound) depth 12

replay_ops-IsSound :
    (os : Os) (groups : List (String × List JournalRecord)) (t : ReplayReport)
    → Keeps IsSound (replay_ops os groups t)
unfolding replay_ops
replay_ops-IsSound os [] t = search sound_rules
replay_ops-IsSound os ((op, rs) ∷ groups) t =
    search (sound_rules, replay_op-IsSound, replay_ops-IsSound os groups)

clear-IsSound : Keeps IsSound (λ w. (ok tt, record w { journal = [] }))
clear-IsSound = record { at = λ w h. h }

pub replay-IsSound : (os : Os) (b : Bool) → Keeps IsSound (replay_interrupted_operations os b)
unfolding replay_interrupted_operations
replay-IsSound os false = search sound_rules
replay-IsSound os true = search (sound_rules, replay_ops-IsSound, clear-IsSound) depth 14
