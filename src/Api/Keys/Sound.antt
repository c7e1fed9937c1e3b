-- ===== src/Api/Keys/Sound.antt =====
-- The invariant of the registry where a response is kept (`_persist_idempotency` of
-- src/api/services/triage_service.py).
use nightfall_photo_ingress.Base.{String, ℕ, List}
use nightfall_photo_ingress.Base.Exec.Keeps.{Keeps}
use nightfall_photo_ingress.Registry.Schema.{Db, KeyRow}
use nightfall_photo_ingress.Registry.WellFormed.{IsWellFormed}
use nightfall_photo_ingress.Registry.Transaction.{BothSound, conn_rules}
use nightfall_photo_ingress.Api.Keys.{Wire, persist_idempotency}

-- A row of another table of the write services changes nothing that the invariant is about.
keys-IsWellFormed :
    (db : Db) (rows : List KeyRow)
    → IsWellFormed db
    → IsWellFormed (record db { ui_action_idempotency = rows })
keys-IsWellFormed db rows h = record {
  unique = h.unique;
  statuses = h.statuses;
  origins = h.origins;
  acceptances = h.acceptances;
  photos = h.photos;
  videos = h.videos;
  pair_statuses = h.pair_statuses;
  audit_bound = h.audit_bound;
  audit_order = h.audit_order;
}

pub persist_idempotency-BothSound :
    {A : Type 0} (wire : Wire A) (key action item : String) (status : ℕ) (body : A) (now : String)
    → Keeps BothSound (persist_idempotency wire key action item status body now)
unfolding persist_idempotency
persist_idempotency-BothSound wire key action item status body now =
    search (conn_rules, keys-IsWellFormed) depth 12
