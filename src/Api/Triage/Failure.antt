-- ===== src/Api/Triage/Failure.antt =====
-- A triage request that raises, and the invariant of the registry under triage
-- (`TriageService.execute` of src/api/services/triage_service.py).
use nightfall_photo_ingress.Base.{suc, String, ◌≡◌, arith, inl, inr, Option-cases}
use nightfall_photo_ingress.Base.Exec.{Error, err, Result-split}
use nightfall_photo_ingress.Sql.{find_first}
use nightfall_photo_ingress.Registry.Schema.{Db, has_sha}
use nightfall_photo_ingress.Registry.Conn.{write_audit}
use nightfall_photo_ingress.World.{Os, World}
use nightfall_photo_ingress.Api.Keys.{Wire, replay_if_present, persist_idempotency}
use nightfall_photo_ingress.Api.Triage.{
  TriageResponse, TriageCall, Details, action_to_state, apply_triage, write_event, execute_new,
  execute,
}

module _ (os : Os) (wire : Wire TriageResponse) (details : Details) (c : TriageCall) where
  -- The two databases have the same files and the same keys.
  abbrev Untouched : Db → Db → Type 0
  Untouched db db' = (db'.files ≡ db.files) × (db'.ui_action_idempotency ≡ db.ui_action_idempotency)

  apply_triage-atomic :
      (state now : String) (db : Db) (e : Error)
      → (apply_triage wire details c state now db).0 ≡ err e
      → (apply_triage wire details c state now db).1 ≡ db
  unfolding apply_triage persist_idempotency
  apply_triage-atomic state now db e raised =
      elim (Option-cases (find_first (has_sha c.item_id) db.files)) [
        | inl missing ↦ ground arith
        | inr (row, found) ↦ ground arith
      ]

  execute_new-Untouched :
      (w : World) (e : Error)
      → (execute_new os wire details c w).0 ≡ err e
      → Untouched w.db (execute_new os wire details c w).1.db
  unfolding execute_new write_event write_audit
  execute_new-Untouched w e raised = elim (Option-cases (action_to_state c.action)) [
    | inl unsupported ↦ ground arith
    | inr (state, supported) ↦
        let now : String = os.clock w.reads in
        let db1 : Db =
          (write_event os details c "pre" "_requested" (record w { reads = suc w.reads })).1.db in
        elim (Result-split (apply_triage wire details c state now db1).0) [
          | inl (response, good) ↦ ground arith
          | inr (x, failed) ↦ ground (arith, apply_triage-atomic state now db1 x failed)
        ]
  ]

  -- A triage request that raises, for an unknown item, an unsupported action, a key that was used
  -- for another request or a write that fails, changes no file and keeps no key.
  pub execute-raises :
      (w : World) (e : Error)
      → (execute os wire details c w).0 ≡ err e
      → ((execute os wire details c w).1.db.files ≡ w.db.files)
        × ((execute os wire details c w).1.db.ui_action_idempotency ≡ w.db.ui_action_idempotency)
  unfolding execute
  execute-raises w e raised =
      elim (Result-split (replay_if_present wire c.idempotency_key c.action c.item_id w.db)) [
        | inr (x, conflict) ↦ ground arith
        | inl (found, there) ↦ elim (Option-cases found) [
          | inl new ↦ ground (arith, execute_new-Untouched w e)
          | inr (x, old) ↦ ground arith
        ]
      ]
