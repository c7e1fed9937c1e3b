-- ===== src/Registry/Ops/Log.antt =====
-- The audit log under the methods of `class Registry`
-- (src/nightfall_photo_ingress/domain/registry.py).
use nightfall_photo_ingress.Base.{
  ℕ, String, Bool, true, ◌≡◌, refl, ◌∙◌, ap, sym, Option, none, some, List, [], ◌∷◌, ◌++◌, ◌+◌,
  append-nil, append_assoc, arith, inl, inr, Option-cases,
}
use nightfall_photo_ingress.Base.Exec.{ok, Result-cases}
use nightfall_photo_ingress.Base.Exec.Keeps.{Keeps, keeps_rules}
use nightfall_photo_ingress.Registry.Schema.{Db, AuditRow, PairRow}
use nightfall_photo_ingress.Registry.Conn.{
  write_file, write_metadata, write_origin, write_acceptance, write_audit, update_file, set_status,
}
use nightfall_photo_ingress.Registry.Files.{
  create_or_update_file, upsert_metadata_index, upsert_file_origin, record_acceptance,
  clear_current_path, update_current_path, append_audit_event, append_ingest_terminal_event,
}
use nightfall_photo_ingress.Registry.Lifecycle.{
  finalize_unknown_ingest, finalize_accept_from_pending, finalize_known_ingest,
  finalize_purge_from_rejected, transition_status,
}
use nightfall_photo_ingress.Registry.Pairs.{
  upsert_live_photo_pair, apply_live_photo_pair_status, apply_live_photo_pair_status_cut,
  get_live_photo_pair, write_pair, set_pair_status,
}
use nightfall_photo_ingress.Registry.Ops.{
  run_op-IsWellFormed, Op, run_op, run, audit, unknown_ingest, accept, known_ingest, purge,
  transition, pair_status, pair_status_cut, is_whole,
}
use nightfall_photo_ingress.Registry.Ops.Atomic.{run_op-atomic}
use nightfall_photo_ingress.Registry.WellFormed.{IsWellFormed}
use nightfall_photo_ingress.Text.{cat}

-- The rows that a call which returns adds to the audit log, as the methods document them.
abbrev row_after :
    ℕ
    → Option String
    → Option String
    → String
    → Option String
    → Option String
    → String
    → String
    → AuditRow
row_after seq sha account action reason details actor now = record {
  id = seq + 1;
  sha256 = sha;
  account_name = account;
  action = action;
  reason = reason;
  details_json = details;
  actor = actor;
  ts = now;
}

abbrev pair_rows : Option PairRow → ℕ → String → String → String → String → String → List AuditRow
pair_rows none seq st r actor now_photo now_video = []
pair_rows (some row) seq st r actor now_photo now_video =
    row_after seq (some row.photo_sha256) none st (some r) none actor now_photo
    ∷ row_after (seq + 1) (some row.video_sha256) none st (some r) none actor now_video
    ∷ []

pub audit_rows : Op → Db → List AuditRow
audit_rows (audit sha act r actor a d now) db = row_after db.audit_seq sha a act r d actor now ∷ []
audit_rows (unknown_ingest sha size fn path a i src t actor fail now) db =
    row_after db.audit_seq (some sha) (some a) "pending" (some "unknown_hash") none actor now ∷ []
audit_rows (accept sha path a src actor r now) db =
    row_after db.audit_seq (some sha) (some a) "accepted" (some r) none actor now ∷ []
audit_rows (known_ingest sha st a i src t size actor now) db =
    row_after db.audit_seq (some sha) (some a) (cat "discard_" st) (some "known_hash") none actor
      now
    ∷ []
audit_rows (purge sha r actor now) db =
    row_after db.audit_seq (some sha) none "purged" (some r) none actor now ∷ []
audit_rows (transition sha st r actor now) db =
    row_after db.audit_seq (some sha) none st (some r) none actor now ∷ []
audit_rows (pair_status i st r actor now_photo now_video now) db =
    pair_rows (get_live_photo_pair i db) db.audit_seq st r actor now_photo now_video
audit_rows _ db = []

-- A transition that returns has written the status and one row.
transition_status-returns :
    (sha status reason actor now : String) (db : Db)
    → (transition_status sha status reason actor now db).0 ≡ ok tt
    → (transition_status sha status reason actor now db).1
      ≡ write_audit
          (some sha)
          none
          status
          (some reason)
          none
          actor
          now
          (update_file sha (set_status status now) db)
unfolding transition_status
transition_status-returns sha status reason actor now db returned = ground arith

apply_live_photo_pair_status-audit_log :
    (id status reason actor now_photo now_video now : String) (db : Db)
    → (apply_live_photo_pair_status id status reason actor now_photo now_video now db).0 ≡ ok tt
    → (apply_live_photo_pair_status id status reason actor now_photo now_video now db).1.audit_log
      ≡ db.audit_log
        ++ pair_rows
            (get_live_photo_pair id db)
            db.audit_seq
            status
            reason
            actor
            now_photo
            now_video
unfolding apply_live_photo_pair_status set_pair_status write_audit update_file
apply_live_photo_pair_status-audit_log id status reason actor now_photo now_video now db returned =
    elim (Option-cases (get_live_photo_pair id db)) [
      | inl missing ↦ ground arith
      | inr (row, found) ↦
          let d1 : Db =
            write_audit (some row.photo_sha256) none status (some reason) none actor now_photo
              (update_file row.photo_sha256 (set_status status now_photo) db) in
          ground (
            arith,
            transition_status-returns row.photo_sha256 status reason actor now_photo db,
            transition_status-returns row.video_sha256 status reason actor now_video d1,
            append_assoc db.audit_log
                (row_after db.audit_seq (some row.photo_sha256) none status (some reason) none actor
                    now_photo
                  ∷ [])
                (row_after (db.audit_seq + 1) (some row.video_sha256) none status (some reason) none
                    actor now_video
                  ∷ []),
          )
    ]

cut-raises :
    (at_first : Bool) (id status reason actor now_photo now_video : String) (db : Db)
    → (apply_live_photo_pair_status_cut at_first id status reason actor now_photo now_video db).0
      ≡ ok tt
    → ⊥
unfolding apply_live_photo_pair_status_cut
cut-raises at_first id status reason actor now_photo now_video db returned = ground arith

-- A call that returns has appended to the audit log exactly its rows: one for an audit event, an
-- ingest, an acceptance, a purge or a transition, one for each member of a live photo pair, and
-- none for any other call.
pub run_op-audit_log :
    (op : Op) (db : Db)
    → (run_op op db).0 ≡ ok tt
    → (run_op op db).1.audit_log ≡ db.audit_log ++ audit_rows op db
unfolding run_op audit_rows create_or_update_file upsert_metadata_index upsert_file_origin
    record_acceptance clear_current_path update_current_path append_audit_event
    append_ingest_terminal_event finalize_unknown_ingest finalize_accept_from_pending
    finalize_known_ingest finalize_purge_from_rejected transition_status upsert_live_photo_pair
    write_file write_metadata write_origin write_acceptance write_audit update_file write_pair
run_op-audit_log (audit sha act r actor a d now) db returned = refl
run_op-audit_log (pair_status i st r actor now_photo now_video now) db returned =
    apply_live_photo_pair_status-audit_log i st r actor now_photo now_video now db returned
run_op-audit_log (pair_status_cut at_first i st r actor now_photo now_video) db returned =
    absurd (cut-raises at_first i st r actor now_photo now_video db returned)
run_op-audit_log op db returned = ground (arith, append-nil db.audit_log)

-- The log is `old` with rows at its end.
Grown : List AuditRow → Db → Type 0
Grown old db = (more : List AuditRow) × (db.audit_log ≡ old ++ more)

transition_status-Grown :
    (sha status reason actor now : String) (old : List AuditRow)
    → Keeps (Grown old) (transition_status sha status reason actor now)
unfolding transition_status Grown write_audit update_file
transition_status-Grown sha status reason actor now old = record {
  at = λ db (more, e). elim (Result-cases (transition_status sha status reason actor now db).0) [
    | inl returned ↦ (
      more ++ row_after db.audit_seq (some sha) none status (some reason) none actor now ∷ [],
      ap (λ (d : Db). d.audit_log)
            (transition_status-returns sha status reason actor now db returned)
          ∙ ap
              (λ l.
                l
                ++ row_after db.audit_seq (some sha) none status (some reason) none actor now ∷ [])
              e
          ∙ append_assoc old more _,
    )
    | inr (x, raised) ↦ (more, ground (arith, e))
  ];
}

cut-Grown :
    (at_first : Bool) (id status reason actor now_photo now_video : String) (old : List AuditRow)
    → Keeps
        (Grown old)
        (apply_live_photo_pair_status_cut at_first id status reason actor now_photo now_video)
unfolding apply_live_photo_pair_status_cut
cut-Grown at_first id status reason actor now_photo now_video old =
    search (keeps_rules, transition_status-Grown) depth 20

uncut-Grown :
    (op : Op) (db : Db) → is_whole op ≡ true → IsWellFormed db → Grown db.audit_log (run_op op db).1
unfolding Grown
uncut-Grown op db whole h = elim (Result-cases (run_op op db).0) [
  | inl returned ↦ (audit_rows op db, run_op-audit_log op db returned)
  | inr (x, raised) ↦ (
    [],
    ap (λ (d : Db). d.audit_log) (run_op-atomic op db x whole h raised)
        ∙ sym (append-nil db.audit_log),
  )
]

run_op-Grown : (op : Op) (db : Db) → IsWellFormed db → Grown db.audit_log (run_op op db).1
unfolding run_op is_whole Grown
run_op-Grown (pair_status_cut at_first i st r actor now_photo now_video) db h =
    (cut-Grown at_first i st r actor now_photo now_video db.audit_log).at db
      ([], sym (append-nil db.audit_log))
run_op-Grown op db h = uncut-Grown op db refl h

-- Over any sequence of the calls of `Op` from a well-formed database, returning, raising or cut off,
-- the audit log only grows at its end: what was logged stays, in its order. The pruning of the log is
-- not one of these calls.
pub run-audit_log :
    (ops : List Op) (db : Db)
    → IsWellFormed db
    → (more : List AuditRow) × ((run ops db).audit_log ≡ db.audit_log ++ more)
unfolding run Grown
run-audit_log [] db h = ([], sym (append-nil db.audit_log))
run-audit_log (op ∷ ops) db h =
    let (here, first) = run_op-Grown op db h in
    let (more, e) = run-audit_log ops (run_op op db).1 (run_op-IsWellFormed op db h) in
    (here ++ more, e ∙ ap (λ l. l ++ more) first ∙ append_assoc db.audit_log here more)
