-- ===== src/Api/Triage.antt =====
-- The triage of a queue item (`TriageService.execute` of src/api/services/triage_service.py, and
-- src/api/audit_hook.py). The thumbnail cache, which is cleaned on a best effort, is left out.
pub mod Replay
pub mod Failure
pub mod Sound
use nightfall_photo_ingress.Base.{
  ℕ, String, Bool, true, false, not, ◌&&◌, Option, none, some, List, [], ◌∷◌, ◌++◌, ◌==◌,
  if◌then◌else◌, option_or,
}
use nightfall_photo_ingress.Base.Exec.{
  Error, unsupported_action, item_not_found, Result, ok, err, Exec, pure, lift, gets, or_raise,
  ◌>>=◌, ◌>>◌,
}
use Prim.Native.String.{compare}
use Prim.Native.Nat.{Ordering}
use nightfall_photo_ingress.Sql.{find_first, select_where}
use nightfall_photo_ingress.Text.{cat}
use nightfall_photo_ingress.Registry.Schema.{Db, FileRow, MetadataRow, OriginRow, has_sha}
use nightfall_photo_ingress.Registry.Conn.{
  Conn, with_connect, query, write, update_file, set_status, write_audit,
}
use nightfall_photo_ingress.Registry.Files.{latest_origin}
use nightfall_photo_ingress.World.{Os, World, on_db, utc_now}
use nightfall_photo_ingress.Api.Keys.{Wire, replay_if_present, persist_idempotency}

pub record TriageResponse : Type 0 where
  pub action_correlation_id : String
  pub item_id : String
  pub state : String

-- One request, as the router passes it on. `details` is the JSON text of the audit details, from the
-- item, the phase, the state and the client's address.
pub record TriageCall : Type 0 where
  pub action : String
  pub item_id : String
  pub idempotency_key : String
  pub reason : Option String
  pub actor : String
  pub client_ip : Option String

abbrev pub Details : Type 0
Details = String → String → Option String → Option String → String

-- _ACTION_TO_STATE
unfoldable pub action_to_state : String → Option String
action_to_state action =
    if action == "accept"
    then some "accepted"
    else if action == "reject"
    then some "rejected"
    else if action == "defer"
    then some "pending"
    else none

-- ORDER BY updated_at DESC LIMIT 1: the first row of the latest time
later_metadata : MetadataRow → MetadataRow → MetadataRow
later_metadata a b = elim (compare a.updated_at b.updated_at) [ Ordering.lt ↦ b | _ ↦ a ]

latest_metadata : Option MetadataRow → List MetadataRow → Option MetadataRow
unfolding later_metadata
latest_metadata best [] = best
latest_metadata none (r ∷ rows) = latest_metadata (some r) rows
latest_metadata (some best) (r ∷ rows) = latest_metadata (some (later_metadata best r)) rows

abbrev filled : Option String → Option String
filled none = none
filled (some s) = if s == "" then none else some s

abbrev origin_account : Option OriginRow → Option String
origin_account none = none
origin_account (some o) = filled (some o.account)

abbrev metadata_account : Option MetadataRow → Option String
metadata_account none = none
metadata_account (some m) = filled (some m.account_name)

unfoldable pub resolve_account_name : String → Db → Option String
unfolding latest_metadata
resolve_account_name item db =
    elim (metadata_account
      (latest_metadata none (select_where (λ m. m.sha256 == item) db.metadata_index))) [
        | some account ↦ some account
        | none ↦
            origin_account (latest_origin (select_where (λ o. o.sha256 == item) db.file_origins))
      ]

-- write_triage_requested_event and write_triage_compensating_event, each committed at once
unfoldable pub write_event : Os → Details → TriageCall → String → String → Exec World Unit
write_event os details c phase suffix = do
  now ← utc_now os
  on_db (
      with_connect (do
        account ← query (resolve_account_name c.item_id)
        write (
            write_audit (some c.item_id) account (cat "triage_" (cat c.action suffix)) c.reason
              (some (details c.item_id phase none c.client_ip)) c.actor now)))

-- The transaction: the status, its audit row and the key.
unfoldable pub apply_triage :
    Wire TriageResponse → Details → TriageCall → String → String → Exec Db TriageResponse
apply_triage wire details c state now = with_connect (do
  found ← query (λ db. find_first (has_sha c.item_id) db.files)
  row ← or_raise found item_not_found
  write (update_file c.item_id (set_status state now))
  account ← query (resolve_account_name c.item_id)
  write (
      write_audit (some c.item_id) account (cat "triage_" (cat c.action "_applied")) c.reason
        (some (details c.item_id "applied" (some state) c.client_ip)) c.actor now)
  let response : TriageResponse = record {
    action_correlation_id = c.idempotency_key;
    item_id = c.item_id;
    state = state;
  }
  persist_idempotency wire c.idempotency_key c.action c.item_id 200 response now
  pure response)

-- try: m except Exception: handler; raise
abbrev pub compensate : {A : Type 0} → Result A → Exec World Unit → World → Result A × World
compensate (ok a) handler w = (ok a, w)
compensate (err e) handler w = (err e, (handler w).1)

abbrev pub or_compensate : {A : Type 0} → Exec World A → Exec World Unit → Exec World A
or_compensate m handler w = let (r, w') = m w in compensate r handler w'

-- What follows the look for an earlier response.
unfoldable pub execute_new :
    Os → Wire TriageResponse → Details → TriageCall → Exec World (ℕ × TriageResponse)
unfolding write_event apply_triage action_to_state
execute_new os wire details c = do
  state ← or_raise (action_to_state c.action) (unsupported_action c.action)
  now ← utc_now os
  write_event os details c "pre" "_requested"
  response ←
      or_compensate (on_db (apply_triage wire details c state now))
        (write_event os details c "compensating" "_compensating")
  pure (200, response)

unfoldable pub after_replay :
    Os
    → Wire TriageResponse
    → Details
    → TriageCall
    → Option (ℕ × TriageResponse)
    → Exec World (ℕ × TriageResponse)
unfolding execute_new
after_replay os wire details c (some replayed) = pure replayed
after_replay os wire details c none = execute_new os wire details c

unfoldable pub execute :
    Os → Wire TriageResponse → Details → TriageCall → Exec World (ℕ × TriageResponse)
unfolding after_replay
execute os wire details c = do
  earlier ← gets (λ w. replay_if_present wire c.idempotency_key c.action c.item_id w.db)
  replayed ← lift earlier
  after_replay os wire details c replayed
