-- ===== src/Ingest/Replay.antt =====
-- The recovery of interrupted operations from the journal (`replay_interrupted_operations` of
-- src/nightfall_photo_ingress/domain/ingest.py).
use nightfall_photo_ingress.Base.{
  ℕ, ◌+◌, String, Bool, true, false, not, ◌&&◌, ◌||◌, Option, none, some, List, [], ◌∷◌, ◌++◌, ◌==◌,
  if◌then◌else◌, is_some,
}
use nightfall_photo_ingress.Base.Exec.{ok, Exec, pure, gets, ◌>>=◌, ◌>>◌}
use nightfall_photo_ingress.Text.{cat}
use nightfall_photo_ingress.Registry.Files.{get_file, append_audit_event}
use nightfall_photo_ingress.World.{Os, World, JournalRecord, exists, on_db, utc_now, unlink, rename}

pub record ReplayReport : Type 0 where
  pub interrupted_total : ℕ
  pub quarantined_destinations : ℕ
  pub removed_staging : ℕ
  pub unresolved_op_ids : List String

-- The operations of the journal in the order of their first record, each with its records.
op_known : String → List (String × List JournalRecord) → Bool
op_known op [] = false
op_known op ((o, rs) ∷ groups) = o == op || op_known op groups

add_to : JournalRecord → List (String × List JournalRecord) → List (String × List JournalRecord)
add_to r [] = (r.op_id, r ∷ []) ∷ []
add_to r ((o, rs) ∷ groups) =
    if o == r.op_id then (o, rs ++ r ∷ []) ∷ groups else (o, rs) ∷ add_to r groups

group_from :
    List (String × List JournalRecord) → List JournalRecord → List (String × List JournalRecord)
unfolding add_to
group_from groups [] = groups
group_from groups (r ∷ rs) = group_from (add_to r groups) rs

unfoldable pub by_op : List JournalRecord → List (String × List JournalRecord)
unfolding group_from
by_op rs = group_from [] rs

-- "registry_persisted" in phases
unfoldable pub is_persisted : List JournalRecord → Bool
is_persisted [] = false
is_persisted (r ∷ rs) = r.phase == "registry_persisted" || is_persisted rs

abbrev last_record : JournalRecord → List JournalRecord → JournalRecord
last_record r [] = r
last_record r (x ∷ xs) = last_record x xs

-- A destination that was written moves aside; an empty text is no destination.
unfoldable pub quarantine_destination : Option String → Exec World ℕ
quarantine_destination none = pure 0
quarantine_destination (some p) = do
  there ← gets (λ w. not (p == "") && exists p w.fs)
  if there then (do rename p (cat p ".orphaned"); pure 1) else pure 0

unfoldable pub remove_staging : String → Exec World ℕ
remove_staging p = do
  there ← gets (λ w. exists p w.fs)
  if there then (do unlink p; pure 1) else pure 0

unfoldable pub audit_recovery : Os → String → Option String → Exec World Unit
audit_recovery os op none = pure tt
audit_recovery os op (some sha) = do
  found ← gets (λ w. get_file sha w.db)
  now ← utc_now os
  if is_some found
      then (do
        on_db (
            append_audit_event (some sha) "recovery_interrupted_ingest"
              (some (cat "journal_replay:" op)) "ingest_pipeline" none none now)
        pure tt)
      else pure tt

unfoldable pub recover_op : Os → String → JournalRecord → ReplayReport → Exec World ReplayReport
unfolding quarantine_destination remove_staging audit_recovery
recover_op os op latest t = do
  moved ← quarantine_destination latest.destination_path
  removed ← remove_staging latest.staging_path
  audit_recovery os op latest.sha256
  pure (record {
    interrupted_total = t.interrupted_total + 1;
    quarantined_destinations = t.quarantined_destinations + moved;
    removed_staging = t.removed_staging + removed;
    unresolved_op_ids = t.unresolved_op_ids ++ op ∷ [];
  })

unfoldable pub replay_op : Os → String → List JournalRecord → ReplayReport → Exec World ReplayReport
unfolding is_persisted recover_op
replay_op os op [] t = pure t
replay_op os op (r ∷ rs) t =
    if is_persisted (r ∷ rs) then pure t else recover_op os op (last_record r rs) t

unfoldable pub replay_ops :
    Os → List (String × List JournalRecord) → ReplayReport → Exec World ReplayReport
unfolding replay_op
replay_ops os [] t = pure t
replay_ops os ((op, rs) ∷ groups) t = do t' ← replay_op os op rs t; replay_ops os groups t'

abbrev clear : Exec World Unit
clear w = (ok tt, record w { journal = [] })

abbrev empty_report : ReplayReport
empty_report = record {
  interrupted_total = 0;
  quarantined_destinations = 0;
  removed_staging = 0;
  unresolved_op_ids = [];
}

-- Without a journal there is nothing to do.
unfoldable pub replay_interrupted_operations : Os → Bool → Exec World ReplayReport
unfolding by_op replay_ops
replay_interrupted_operations os false = pure empty_report
replay_interrupted_operations os true = do
  records ← gets (λ w. w.journal)
  t ← replay_ops os (by_op records) empty_report
  clear
  pure t
