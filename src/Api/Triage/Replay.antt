-- ===== src/Api/Triage/Replay.antt =====
-- A triage request and its repetition (`TriageService.execute` of
-- src/api/services/triage_service.py).
use nightfall_photo_ingress.Base.{
  ℕ, suc, String, false, ◌≡◌, Option, some, List, [], ◌∷◌, ◌++◌, eq_refl, arith, inl, inr,
  Option-cases,
}
use nightfall_photo_ingress.Base.Exec.{Result, ok, Result-split}
use nightfall_photo_ingress.Sql.{find_first, exists_where}
use nightfall_photo_ingress.Sql.Laws.{find_first-append}
use nightfall_photo_ingress.Registry.Schema.{Db, KeyRow, has_sha}
use nightfall_photo_ingress.Registry.Conn.{write_audit, update_file}
use nightfall_photo_ingress.World.{Os, World}
use nightfall_photo_ingress.Api.Keys.{Wire, has_key, replay_if_present, persist_idempotency}
use nightfall_photo_ingress.Api.Triage.{
  TriageResponse, TriageCall, Details, action_to_state, apply_triage, write_event, execute_new,
  execute,
}

module _ (os : Os) (wire : Wire TriageResponse) (details : Details) (c : TriageCall) where
  abbrev kept_row : TriageResponse → String → KeyRow
  kept_row r now = record {
    idempotency_key = c.idempotency_key;
    action = c.action;
    item_id = c.item_id;
    response_status = 200;
    response_body_json = wire.dumps r;
    created_at = now;
    expires_at = wire.expires now;
  }

  apply_triage-keys :
      (state now : String) (db : Db) (r : TriageResponse)
      → (apply_triage wire details c state now db).0 ≡ ok r
      → (exists_where (has_key c.idempotency_key) db.ui_action_idempotency ≡ false)
        × ((apply_triage wire details c state now db).1.ui_action_idempotency
            ≡ db.ui_action_idempotency ++ kept_row r now ∷ [])
  unfolding apply_triage persist_idempotency write_audit update_file
  apply_triage-keys state now db r returned =
      elim (Option-cases (find_first (has_sha c.item_id) db.files)) [
        | inl missing ↦ ground arith
        | inr (row, found) ↦ ground arith
      ]

  -- The row that was kept is replayed as the response.
  replay_if_present-kept :
      (r : TriageResponse) (now : String) (rows : List KeyRow) (db : Db)
      → wire.loads (wire.dumps r) ≡ ok r
      → exists_where (has_key c.idempotency_key) rows ≡ false
      → db.ui_action_idempotency ≡ rows ++ kept_row r now ∷ []
      → replay_if_present wire c.idempotency_key c.action c.item_id db ≡ ok (some (200, r))
  unfolding replay_if_present
  replay_if_present-kept r now rows db round fresh kept = rw kept (
      rw
        (find_first-append (has_key c.idempotency_key) rows (kept_row r now) fresh
          (eq_refl c.idempotency_key))
        (ground (arith, round, eq_refl c.action, eq_refl c.item_id)))

  abbrev announced : World → World
  announced w = (write_event os details c "pre" "_requested" (record w { reads = suc w.reads })).1

  execute_new-replayed :
      (w : World) (r : ℕ × TriageResponse)
      → ((a : TriageResponse) → wire.loads (wire.dumps a) ≡ ok a)
      → (execute_new os wire details c w).0 ≡ ok r
      → replay_if_present wire c.idempotency_key c.action c.item_id
          (execute_new os wire details c w).1.db
        ≡ ok (some r)
  unfolding execute_new write_event
  execute_new-replayed w r round returned = elim (Option-cases (action_to_state c.action)) [
    | inl unsupported ↦ ground arith
    | inr (state, supported) ↦
        let now : String = os.clock w.reads in
        let db1 : Db = (announced w).db in
        elim (Result-split (apply_triage wire details c state now db1).0) [
          | inr (e, raised) ↦ ground arith
          | inl (response, good) ↦
              let (fresh, kept) = apply_triage-keys state now db1 response good in
              let replayed =
                replay_if_present-kept response now db1.ui_action_idempotency
                  (apply_triage wire details c state now db1).1 (round response) fresh kept in
              ground (arith, replayed)
        ]
  ]

  earlier : Db → Result (Option (ℕ × TriageResponse))
  earlier db = replay_if_present wire c.idempotency_key c.action c.item_id db

  execute-replayed :
      (w : World) (r : ℕ × TriageResponse)
      → ((a : TriageResponse) → wire.loads (wire.dumps a) ≡ ok a)
      → (execute os wire details c w).0 ≡ ok r
      → earlier (execute os wire details c w).1.db ≡ ok (some r)
  unfolding execute earlier
  execute-replayed w r round returned = elim (Result-split (earlier w.db)) [
    | inr (e, conflict) ↦ ground arith
    | inl (found, there) ↦ elim (Option-cases found) [
      | inl new ↦ ground (arith, execute_new-replayed w r round)
      | inr (x, old) ↦ ground arith
    ]
  ]

repeated :
    (os : Os) (wire : Wire TriageResponse) (details : Details) (c again : TriageCall) (w : World)
    (r : ℕ × TriageResponse)
    → again.idempotency_key ≡ c.idempotency_key
    → again.action ≡ c.action
    → again.item_id ≡ c.item_id
    → earlier os wire details c w.db ≡ ok (some r)
    → execute os wire details again w ≡ (ok r, w)
unfolding execute earlier
repeated os wire details c again w r key action item there = ground arith

-- A triage request that returned returns the same response when it is sent again, under its key,
-- action and item, whatever reason, actor and address it names then, and the repetition changes
-- nothing. The JSON texts of responses read back as they were.
pub execute-replay :
    (os : Os) (wire : Wire TriageResponse) (details : Details) (c again : TriageCall) (w : World)
    (r : ℕ × TriageResponse)
    → ((a : TriageResponse) → wire.loads (wire.dumps a) ≡ ok a)
    → again.idempotency_key ≡ c.idempotency_key
    → again.action ≡ c.action
    → again.item_id ≡ c.item_id
    → (execute os wire details c w).0 ≡ ok r
    → execute os wire details again (execute os wire details c w).1
      ≡ (ok r, (execute os wire details c w).1)
execute-replay os wire details c again w r round key action item returned =
    repeated os wire details c again (execute os wire details c w).1 r key action item
      (execute-replayed os wire details c w r round returned)
