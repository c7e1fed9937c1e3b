-- ===== src/Api/Keys.antt =====
-- The idempotency keys of the write services (`_replay_if_present` and `_persist_idempotency` of
-- src/api/services/triage_service.py and src/api/services/blocklist_service.py). A connection that
-- runs BEGIN, commits at the end and rolls back on a raise is `with_connect`.
pub mod Sound
use nightfall_photo_ingress.Base.{
  ℕ, String, Bool, true, false, not, ◌&&◌, Option, none, some, List, [], ◌∷◌, ◌++◌, ◌==◌,
  if◌then◌else◌,
}
use nightfall_photo_ingress.Base.Exec.{
  Error, integrity, key_conflict, Result, ok, err, Exec, pure, raise_if, ◌>>=◌, ◌>>◌,
}
use nightfall_photo_ingress.Sql.{find_first, exists_where}
use nightfall_photo_ingress.Registry.Schema.{Db, KeyRow}
use nightfall_photo_ingress.Registry.Conn.{Conn, query, write}

-- How a response is kept: `json.dumps(response.model_dump())`, and `Model(**json.loads(text))`; and
-- the time one day later.
pub record Wire (A : Type 0) : Type 0 where
  pub dumps : A → String
  pub loads : String → Result A
  pub expires : String → String

abbrev pub has_key : String → KeyRow → Bool
has_key key r = r.idempotency_key == key

module _ {A : Type 0} (wire : Wire A) where
  abbrev replay_body : ℕ → Result A → Result (Option (ℕ × A))
  replay_body status (ok a) = ok (some (status, a))
  replay_body status (err e) = err e

  abbrev replay_row : String → String → Option KeyRow → Result (Option (ℕ × A))
  replay_row action item none = ok none
  replay_row action item (some r) =
      if not (r.action == action && r.item_id == item)
      then err key_conflict
      else replay_body r.response_status (wire.loads r.response_body_json)

  unfoldable pub replay_if_present : String → String → String → Db → Result (Option (ℕ × A))
  replay_if_present key action item db =
      replay_row action item (find_first (has_key key) db.ui_action_idempotency)

  -- INSERT INTO ui_action_idempotency, whose key is UNIQUE
  unfoldable pub persist_idempotency : String → String → String → ℕ → A → String → Exec Conn Unit
  persist_idempotency key action item status body now = do
    taken ← query (λ db. exists_where (has_key key) db.ui_action_idempotency)
    raise_if taken integrity
    write (λ db. record db {
      ui_action_idempotency =
          db.ui_action_idempotency
          ++ record {
            idempotency_key = key;
            action = action;
            item_id = item;
            response_status = status;
            response_body_json = wire.dumps body;
            created_at = now;
            expires_at = wire.expires now;
          }
            ∷ [];
    })
