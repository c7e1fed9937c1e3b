-- ===== src/Registry/Ops.antt =====
-- The methods of `class Registry` that write to the tables of files, origins, acceptances, pairs and
-- audit events, as data: not the import of hashes, the opening and the pruning of the audit log. With
-- them, and sequences of calls of them. A call that
-- raises leaves the sequence to its caller, which goes on with the next call.
pub mod Atomic
pub mod Log
use nightfall_photo_ingress.Base.{ℕ, String, Bool, true, false, Option, List, [], ◌∷◌}
use nightfall_photo_ingress.Base.Exec.{Exec, ok, pure, ◌>>=◌, ◌>>◌}
use nightfall_photo_ingress.Registry.Schema.{Db}
use nightfall_photo_ingress.Registry.Files.{
  create_or_update_file, upsert_metadata_index, upsert_file_origin, record_acceptance,
  clear_current_path, update_current_path, append_audit_event, append_ingest_terminal_event,
}
use nightfall_photo_ingress.Registry.Lifecycle.{
  finalize_unknown_ingest, finalize_accept_from_pending, finalize_known_ingest,
  finalize_purge_from_rejected, transition_status,
}
use nightfall_photo_ingress.Registry.Pairs.{
  upsert_live_photo_pair, apply_live_photo_pair_status, apply_live_photo_pair_status_cut,
}
use nightfall_photo_ingress.Registry.WellFormed.{IsWellFormed}
use nightfall_photo_ingress.Registry.Preserve.{
  create_or_update_file-IsWellFormed, upsert_metadata_index-IsWellFormed,
  upsert_file_origin-IsWellFormed, record_acceptance-IsWellFormed, clear_current_path-IsWellFormed,
  update_current_path-IsWellFormed, append_audit_event-IsWellFormed,
  append_ingest_terminal_event-IsWellFormed, finalize_unknown_ingest-IsWellFormed,
  finalize_accept_from_pending-IsWellFormed, finalize_known_ingest-IsWellFormed,
  finalize_purge_from_rejected-IsWellFormed, transition_status-IsWellFormed,
  upsert_live_photo_pair-IsWellFormed, apply_live_photo_pair_status-IsWellFormed,
  apply_live_photo_pair_status_cut-IsWellFormed,
}

-- A call with its arguments; the last are what the call reads from the clock.
pub data Op : Type 0 where
  create_or_update : String → ℕ → String → Option String → Option String → String → Op
  metadata : String → String → ℕ → String → String → String → Op
  origin : String → String → String → Option String → String → Op
  acceptance : String → String → String → String → Op
  clear_path : String → String → Op
  update_path : String → String → String → Op
  audit :
      Option String → String → Option String → String → Option String → Option String → String → Op
  terminal :
      String → ℕ → String → String → Option String → String → Option String → String → String → Op
  unknown_ingest :
      String
      → ℕ
      → String
      → String
      → String
      → String
      → String
      → String
      → String
      → Option ℕ
      → String
      → Op
  accept : String → String → String → String → String → String → String → Op
  known_ingest : String → String → String → String → String → String → ℕ → String → String → Op
  purge : String → String → String → String → Op
  transition : String → String → String → String → String → Op
  pair : String → String → String → String → String → String → String → Op
  pair_status : String → String → String → String → String → String → String → Op
  pair_status_cut : Bool → String → String → String → String → String → String → Op

unfoldable pub run_op : Op → Exec Db Unit
run_op (create_or_update sha size st fn path now) = create_or_update_file sha size st fn path now
run_op (metadata a i size t sha now) = upsert_metadata_index a i size t sha now
run_op (origin sha a i hint now) = upsert_file_origin sha a i hint now
run_op (acceptance sha a src now) = record_acceptance sha a src now
run_op (clear_path sha now) = clear_current_path sha now
run_op (update_path sha path now) = update_current_path sha path now
run_op (audit sha act r actor a d now) = append_audit_event sha act r actor a d now >> pure tt
run_op (terminal b n a i sha act r actor now) =
    append_ingest_terminal_event b n a i sha act r actor now >> pure tt
run_op (unknown_ingest sha size fn path a i src t actor fail now) =
    finalize_unknown_ingest sha size fn path a i src t actor fail now
run_op (accept sha path a src actor r now) = finalize_accept_from_pending sha path a src actor r now
run_op (known_ingest sha st a i src t size actor now) =
    finalize_known_ingest sha st a i src t size actor now
run_op (purge sha r actor now) = finalize_purge_from_rejected sha r actor now
run_op (transition sha st r actor now) = transition_status sha st r actor now
run_op (pair i a stem p v st now) = upsert_live_photo_pair i a stem p v st now
run_op (pair_status i st r actor now_photo now_video now) =
    apply_live_photo_pair_status i st r actor now_photo now_video now
run_op (pair_status_cut at_first i st r actor now_photo now_video) =
    apply_live_photo_pair_status_cut at_first i st r actor now_photo now_video

-- The call is not cut off between two of its transactions.
unfoldable pub is_whole : Op → Bool
is_whole (pair_status_cut at_first i st r actor now_photo now_video) = false
is_whole _ = true

unfoldable pub run : List Op → Db → Db
run [] db = db
run (op ∷ ops) db = run ops (run_op op db).1

pub run_op-IsWellFormed : (op : Op) (db : Db) → IsWellFormed db → IsWellFormed (run_op op db).1
unfolding run_op append_audit_event append_ingest_terminal_event
run_op-IsWellFormed (create_or_update sha size st fn path now) db h =
    create_or_update_file-IsWellFormed sha size st fn path now db h
run_op-IsWellFormed (metadata a i size t sha now) db h =
    upsert_metadata_index-IsWellFormed a i size t sha now db h
run_op-IsWellFormed (origin sha a i hint now) db h =
    upsert_file_origin-IsWellFormed sha a i hint now db h
run_op-IsWellFormed (acceptance sha a src now) db h =
    record_acceptance-IsWellFormed sha a src now db h
run_op-IsWellFormed (clear_path sha now) db h = clear_current_path-IsWellFormed sha now db h
run_op-IsWellFormed (update_path sha path now) db h =
    update_current_path-IsWellFormed sha path now db h
run_op-IsWellFormed (audit sha act r actor a d now) db h =
    append_audit_event-IsWellFormed sha act r actor a d now db h
run_op-IsWellFormed (terminal b n a i sha act r actor now) db h =
    append_ingest_terminal_event-IsWellFormed b n a i sha act r actor now db h
run_op-IsWellFormed (unknown_ingest sha size fn path a i src t actor fail now) db h =
    finalize_unknown_ingest-IsWellFormed sha size fn path a i src t actor now fail db h
run_op-IsWellFormed (accept sha path a src actor r now) db h =
    finalize_accept_from_pending-IsWellFormed sha path a src actor r now db h
run_op-IsWellFormed (known_ingest sha st a i src t size actor now) db h =
    finalize_known_ingest-IsWellFormed sha st a i src t size actor now db h
run_op-IsWellFormed (purge sha r actor now) db h =
    finalize_purge_from_rejected-IsWellFormed sha r actor now db h
run_op-IsWellFormed (transition sha st r actor now) db h =
    transition_status-IsWellFormed sha st r actor now db h
run_op-IsWellFormed (pair i a stem p v st now) db h =
    upsert_live_photo_pair-IsWellFormed i a stem p v st now db h
run_op-IsWellFormed (pair_status i st r actor now_photo now_video now) db h =
    apply_live_photo_pair_status-IsWellFormed i st r actor now_photo now_video now db h
run_op-IsWellFormed (pair_status_cut at_first i st r actor now_photo now_video) db h =
    apply_live_photo_pair_status_cut-IsWellFormed at_first i st r actor now_photo now_video db h

-- Whatever sequence of the registry calls of `Op` is made from a well-formed database, with whatever arguments
-- and whichever of them raise or are cut off, the database is well-formed again: hashes in `files` are unique,
-- every status is allowed, origins, acceptances and live photo pairs refer to
-- files that have a row, and audit ids rise.
pub run-IsWellFormed : (ops : List Op) (db : Db) → IsWellFormed db → IsWellFormed (run ops db)
unfolding run
run-IsWellFormed [] db h = h
run-IsWellFormed (op ∷ ops) db h =
    run-IsWellFormed ops (run_op op db).1 (run_op-IsWellFormed op db h)
