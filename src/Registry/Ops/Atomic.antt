-- ===== src/Registry/Ops/Atomic.antt =====
-- The methods of `class Registry` where they raise
-- (src/nightfall_photo_ingress/domain/registry.py).
use nightfall_photo_ingress.Base.{
  String, true, ◌≡◌, refl, none, some, arith, inl, inr, Option-cases, Bool-cases,
}
use nightfall_photo_ingress.Base.Exec.{Error, ok, err}
use nightfall_photo_ingress.Sql.Laws.{All-find_first, find_first_of_exists_where}
use nightfall_photo_ingress.Registry.Schema.{Db, PairRow, pair_key, has_sha}
use nightfall_photo_ingress.Registry.Conn.{
  file_exists, is_allowed, update_file, write_audit, set_status,
}
use nightfall_photo_ingress.Registry.Files.{
  create_or_update_file, upsert_metadata_index, upsert_file_origin, record_acceptance,
  clear_current_path, update_current_path, append_audit_event, append_ingest_terminal_event,
}
use nightfall_photo_ingress.Registry.Lifecycle.{
  finalize_unknown_ingest, finalize_accept_from_pending, finalize_known_ingest,
  finalize_purge_from_rejected, transition_status,
}
use nightfall_photo_ingress.Registry.Pairs.{
  upsert_live_photo_pair, apply_live_photo_pair_status, get_live_photo_pair,
}
use nightfall_photo_ingress.Registry.WellFormed.{IsWellFormed, update_file-file_exists}
use nightfall_photo_ingress.Registry.Ops.{
  Op, run_op, is_whole, create_or_update, pair_status, pair_status_cut,
}

-- A transition to an allowed status of a file that is there returns.
pub transition_status-ok :
    (sha status reason actor now : String) (db : Db)
    → is_allowed status ≡ true
    → file_exists sha db ≡ true
    → transition_status sha status reason actor now db ≡ (
      ok tt,
      write_audit
          (some sha)
          none
          status
          (some reason)
          none
          actor
          now
          (update_file sha (set_status status now) db),
    )
unfolding transition_status
transition_status-ok sha status reason actor now db a e =
    let (row, found) = find_first_of_exists_where (has_sha sha) db.files e in ground arith

-- The members of a pair that is found are files.
pub pair-members :
    (id : String) (db : Db) (row : PairRow)
    → IsWellFormed db
    → get_live_photo_pair id db ≡ some row
    → (file_exists row.photo_sha256 db ≡ true) × (file_exists row.video_sha256 db ≡ true)
unfolding get_live_photo_pair
pair-members id db row h e = (
  All-find_first _ (pair_key id) db.live_photo_pairs row h.photos e,
  All-find_first _ (pair_key id) db.live_photo_pairs row h.videos e,
)

pub file_exists-transition :
    (sha status reason actor now x : String) (db : Db)
    → file_exists x (
        write_audit
          (some sha)
          none
          status
          (some reason)
          none
          actor
          now
          (update_file sha (set_status status now) db))
      ≡ file_exists x db
unfolding write_audit
file_exists-transition sha status reason actor now x db =
    update_file-file_exists sha (set_status status now) x db (λ r. refl)

-- A pair that is found takes an allowed status without fail, although its three writes are three
-- transactions.
pub apply_live_photo_pair_status-ok :
    (id status reason actor now_photo now_video now : String) (db : Db) (row : PairRow)
    → IsWellFormed db
    → is_allowed status ≡ true
    → get_live_photo_pair id db ≡ some row
    → (apply_live_photo_pair_status id status reason actor now_photo now_video now db).0 ≡ ok tt
unfolding apply_live_photo_pair_status
apply_live_photo_pair_status-ok id status reason actor now_photo now_video now db row h a found =
    let (p, v) = pair-members id db row h found in
    let d1 : Db =
      write_audit (some row.photo_sha256) none status (some reason) none actor now_photo
        (update_file row.photo_sha256 (set_status status now_photo) db) in
    ground (
      arith,
      transition_status-ok row.photo_sha256 status reason actor now_photo db a p,
      transition_status-ok row.video_sha256 status reason actor now_video d1 a,
      file_exists-transition row.photo_sha256 status reason actor now_photo row.video_sha256 db,
    )

apply_live_photo_pair_status-atomic :
    (id status reason actor now_photo now_video now : String) (db : Db) (e : Error)
    → IsWellFormed db
    → (apply_live_photo_pair_status id status reason actor now_photo now_video now db).0 ≡ err e
    → (apply_live_photo_pair_status id status reason actor now_photo now_video now db).1 ≡ db
apply_live_photo_pair_status-atomic id status reason actor now_photo now_video now db e h raised =
    elim (Bool-cases (is_allowed status)) [
      | inr wrong ↦ unfold apply_live_photo_pair_status in ground arith
      | inl a ↦ elim (Option-cases (get_live_photo_pair id db)) [
        | inl missing ↦ unfold apply_live_photo_pair_status in ground arith
        | inr (row, found) ↦ cc (
          raised,
          apply_live_photo_pair_status-ok id status reason actor now_photo now_video now db row h a
              found,
        )
      ]
    ]

-- A call of the registry that raises leaves a well-formed database as it was,
-- `finalize_unknown_ingest` at each of its injected failures included. The calls are those of `Op`;
-- one kind is excepted, a change of a pair's status that is cut off between its transactions.
pub run_op-atomic :
    (op : Op) (db : Db) (e : Error)
    → is_whole op ≡ true
    → IsWellFormed db
    → (run_op op db).0 ≡ err e
    → (run_op op db).1 ≡ db
unfolding run_op is_whole create_or_update_file upsert_metadata_index upsert_file_origin
    record_acceptance clear_current_path update_current_path append_audit_event
    append_ingest_terminal_event finalize_unknown_ingest finalize_accept_from_pending
    finalize_known_ingest finalize_purge_from_rejected transition_status upsert_live_photo_pair
run_op-atomic (create_or_update sha size st fn path now) db e whole h r = ground arith
run_op-atomic (pair_status i st r actor now_photo now_video now) db e whole h raised =
    apply_live_photo_pair_status-atomic i st r actor now_photo now_video now db e h raised
run_op-atomic (pair_status_cut at_first i st r actor now_photo now_video) db e whole h raised = cc
run_op-atomic op db e whole h r = ground arith
