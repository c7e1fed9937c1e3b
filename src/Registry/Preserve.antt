-- ===== src/Registry/Preserve.antt =====
-- The invariant of the registry under each method of `class Registry`
-- (src/nightfall_photo_ingress/domain/registry.py).
use nightfall_photo_ingress.Base.{
  Bool, ℕ, String, true, ◌≡◌, refl, Option, none, some, arith, Option-cases, inl, inr,
}
use nightfall_photo_ingress.Registry.Schema.{Db}
use nightfall_photo_ingress.Registry.Conn.{
  write_file, write_metadata, write_origin, write_acceptance, update_file, is_allowed, set_path,
  set_status, set_status_path,
}
use nightfall_photo_ingress.Registry.Files.{
  create_or_update_file, upsert_metadata_index, upsert_file_origin, record_acceptance,
  clear_current_path, update_current_path, append_audit_event, append_ingest_terminal_event,
}
use nightfall_photo_ingress.Registry.Lifecycle.{
  finalize_unknown_ingest, finalize_accept_from_pending, finalize_known_ingest,
  finalize_purge_from_rejected, transition_status,
}
use nightfall_photo_ingress.Registry.Pairs.{
  is_pair_status, upsert_live_photo_pair, get_live_photo_pair, apply_live_photo_pair_status,
  apply_live_photo_pair_status_cut,
}
use nightfall_photo_ingress.Registry.WellFormed.{
  write_pair-IsWellFormed, set_pair_status-IsWellFormed, IsWellFormed, write_file-IsWellFormed,
  update_file-IsWellFormed, write_metadata-IsWellFormed, write_origin-IsWellFormed,
  write_acceptance-IsWellFormed, write_audit-IsWellFormed,
}
use nightfall_photo_ingress.Text.{cat}

pub create_or_update_file-IsWellFormed :
    (sha : String) (size : ℕ) (status : String) (filename path : Option String) (now : String)
    (db : Db)
    → IsWellFormed db
    → IsWellFormed (create_or_update_file sha size status filename path now db).1
unfolding create_or_update_file
create_or_update_file-IsWellFormed sha size status filename path now db h =
    ground (arith, write_file-IsWellFormed sha size status filename path now db)

module _ (sha : String) (size : ℕ)
    (filename path account id source_path time actor now : String) where
  pub finalize_unknown_ingest-IsWellFormed :
      (fail : Option ℕ) (db : Db)
      → IsWellFormed db
      → IsWellFormed
          (finalize_unknown_ingest sha size filename path account id source_path time actor fail now
            db).1
  unfolding finalize_unknown_ingest is_allowed
  finalize_unknown_ingest-IsWellFormed fail db h =
      let d1 : Db = write_file sha size "pending" (some filename) (some path) now db in
      let d2 : Db = write_metadata account id size time sha now d1 in
      let d3 : Db = write_origin account id sha (some source_path) now d2 in
      ground (
        arith,
        write_file-IsWellFormed sha size "pending" (some filename) (some path) now db (refl) h,
        write_metadata-IsWellFormed account id size time sha now d1,
        write_origin-IsWellFormed account id sha (some source_path) now d2,
        write_audit-IsWellFormed (some sha) (some account) "pending" (some "unknown_hash") none
            actor now d3,
      )

pub upsert_metadata_index-IsWellFormed :
    (account id : String) (size : ℕ) (time sha now : String) (db : Db)
    → IsWellFormed db
    → IsWellFormed (upsert_metadata_index account id size time sha now db).1
unfolding upsert_metadata_index
upsert_metadata_index-IsWellFormed account id size time sha now db h =
    write_metadata-IsWellFormed account id size time sha now db h

pub upsert_file_origin-IsWellFormed :
    (sha account id : String) (hint : Option String) (now : String) (db : Db)
    → IsWellFormed db
    → IsWellFormed (upsert_file_origin sha account id hint now db).1
unfolding upsert_file_origin
upsert_file_origin-IsWellFormed sha account id hint now db h =
    ground (arith, write_origin-IsWellFormed account id sha hint now db)

pub record_acceptance-IsWellFormed :
    (sha account source_path now : String) (db : Db)
    → IsWellFormed db
    → IsWellFormed (record_acceptance sha account source_path now db).1
unfolding record_acceptance
record_acceptance-IsWellFormed sha account source_path now db h =
    ground (arith, write_acceptance-IsWellFormed sha account source_path now db)

pub set_path-IsWellFormed :
    (sha : String) (path : Option String) (now : String) (db : Db)
    → IsWellFormed db
    → IsWellFormed (update_file sha (set_path path now) db)
set_path-IsWellFormed sha path now db h =
    update_file-IsWellFormed sha (set_path path now) db (λ r. refl) (λ r a. a) h

pub clear_current_path-IsWellFormed :
    (sha now : String) (db : Db) → IsWellFormed db → IsWellFormed (clear_current_path sha now db).1
unfolding clear_current_path
clear_current_path-IsWellFormed sha now db h = set_path-IsWellFormed sha none now db h

pub update_current_path-IsWellFormed :
    (sha path now : String) (db : Db)
    → IsWellFormed db
    → IsWellFormed (update_current_path sha path now db).1
unfolding update_current_path
update_current_path-IsWellFormed sha path now db h = set_path-IsWellFormed sha (some path) now db h

pub append_audit_event-IsWellFormed :
    (sha : Option String) (action : String) (reason : Option String) (actor : String)
    (account details : Option String) (now : String) (db : Db)
    → IsWellFormed db
    → IsWellFormed (append_audit_event sha action reason actor account details now db).1
unfolding append_audit_event
append_audit_event-IsWellFormed sha action reason actor account details now db h =
    write_audit-IsWellFormed sha account action reason details actor now db h

pub append_ingest_terminal_event-IsWellFormed :
    (batch : String) (seq : ℕ) (account id : String) (sha : Option String) (action : String)
    (reason : Option String) (actor now : String) (db : Db)
    → IsWellFormed db
    → IsWellFormed
        (append_ingest_terminal_event batch seq account id sha action reason actor now db).1
unfolding append_ingest_terminal_event
append_ingest_terminal_event-IsWellFormed batch seq account id sha action reason actor now db h =
    record {
      unique = h.unique;
      statuses = h.statuses;
      origins = h.origins;
      acceptances = h.acceptances;
      photos = h.photos;
      videos = h.videos;
      pair_statuses = h.pair_statuses;
      audit_bound = h.audit_bound;
      audit_order = h.audit_order;
    }

-- An update of the status of one file to an allowed one.
pub set_status_path-IsWellFormed :
    (sha status : String) (path : Option String) (now : String) (db : Db)
    → is_allowed status ≡ true
    → IsWellFormed db
    → IsWellFormed (update_file sha (set_status_path status path now) db)
set_status_path-IsWellFormed sha status path now db a h =
    update_file-IsWellFormed sha (set_status_path status path now) db (λ r. refl) (λ r _. a) h

pub set_status-IsWellFormed :
    (sha status now : String) (db : Db)
    → is_allowed status ≡ true
    → IsWellFormed db
    → IsWellFormed (update_file sha (set_status status now) db)
set_status-IsWellFormed sha status now db a h =
    update_file-IsWellFormed sha (set_status status now) db (λ r. refl) (λ r _. a) h

pub finalize_accept_from_pending-IsWellFormed :
    (sha new_path account source_path actor reason now : String) (db : Db)
    → IsWellFormed db
    → IsWellFormed
        (finalize_accept_from_pending sha new_path account source_path actor reason now db).1
unfolding finalize_accept_from_pending is_allowed
finalize_accept_from_pending-IsWellFormed sha new_path account source_path actor reason now db h =
    let d1 : Db = update_file sha (set_status_path "accepted" (some new_path) now) db in
    let d2 : Db = write_acceptance sha account source_path now d1 in
    ground (
      arith,
      set_status_path-IsWellFormed sha "accepted" (some new_path) now db refl h,
      write_acceptance-IsWellFormed sha account source_path now d1,
      write_audit-IsWellFormed (some sha) (some account) "accepted" (some reason) none actor now d2,
    )

pub finalize_purge_from_rejected-IsWellFormed :
    (sha reason actor now : String) (db : Db)
    → IsWellFormed db
    → IsWellFormed (finalize_purge_from_rejected sha reason actor now db).1
unfolding finalize_purge_from_rejected is_allowed
finalize_purge_from_rejected-IsWellFormed sha reason actor now db h =
    let d1 : Db = update_file sha (set_status_path "purged" none now) db in
    ground (
      arith,
      set_status_path-IsWellFormed sha "purged" none now db refl h,
      write_audit-IsWellFormed (some sha) none "purged" (some reason) none actor now d1,
    )

pub finalize_known_ingest-IsWellFormed :
    (sha known account id source_path time : String) (size : ℕ) (actor now : String) (db : Db)
    → IsWellFormed db
    → IsWellFormed (finalize_known_ingest sha known account id source_path time size actor now db).1
unfolding finalize_known_ingest
finalize_known_ingest-IsWellFormed sha known account id source_path time size actor now db h =
    let d1 : Db = write_metadata account id size time sha now db in
    let d2 : Db = write_origin account id sha (some source_path) now d1 in
    ground (
      arith,
      write_metadata-IsWellFormed account id size time sha now db h,
      write_origin-IsWellFormed account id sha (some source_path) now d1,
      write_audit-IsWellFormed (some sha) (some account) (cat "discard_" known) (some "known_hash")
          none actor now d2,
    )

pub transition_status-IsWellFormed :
    (sha status reason actor now : String) (db : Db)
    → IsWellFormed db
    → IsWellFormed (transition_status sha status reason actor now db).1
unfolding transition_status
transition_status-IsWellFormed sha status reason actor now db h =
    let d1 : Db = update_file sha (set_status status now) db in
    ground (
      arith,
      set_status-IsWellFormed sha status now db,
      write_audit-IsWellFormed (some sha) none status (some reason) none actor now d1,
    )

pub is_allowed-is_pair_status :
    (status : String) → is_allowed status ≡ true → is_pair_status status ≡ true
unfolding is_pair_status
is_allowed-is_pair_status status h = ground arith

pub upsert_live_photo_pair-IsWellFormed :
    (id account stem photo video status now : String) (db : Db)
    → IsWellFormed db
    → IsWellFormed (upsert_live_photo_pair id account stem photo video status now db).1
unfolding upsert_live_photo_pair
upsert_live_photo_pair-IsWellFormed id account stem photo video status now db h =
    ground (arith, write_pair-IsWellFormed id account stem photo video status now db)

pub apply_live_photo_pair_status-IsWellFormed :
    (id status reason actor now_photo now_video now : String) (db : Db)
    → IsWellFormed db
    → IsWellFormed
        (apply_live_photo_pair_status id status reason actor now_photo now_video now db).1
unfolding apply_live_photo_pair_status
apply_live_photo_pair_status-IsWellFormed id status reason actor now_photo now_video now db h =
    elim (Option-cases (get_live_photo_pair id db)) [
      | inl missing ↦ ground arith
      | inr (pair, found) ↦
          let d1 : Db = (transition_status pair.photo_sha256 status reason actor now_photo db).1 in
          let d2 : Db = (transition_status pair.video_sha256 status reason actor now_video d1).1 in
          ground (
            arith,
            transition_status-IsWellFormed pair.photo_sha256 status reason actor now_photo db h,
            transition_status-IsWellFormed pair.video_sha256 status reason actor now_video d1,
            set_pair_status-IsWellFormed id status now d2,
            is_allowed-is_pair_status status,
          )
    ]

pub apply_live_photo_pair_status_cut-IsWellFormed :
    (at_first : Bool) (id status reason actor now_photo now_video : String) (db : Db)
    → IsWellFormed db
    → IsWellFormed
        (apply_live_photo_pair_status_cut at_first id status reason actor now_photo now_video db).1
unfolding apply_live_photo_pair_status_cut
apply_live_photo_pair_status_cut-IsWellFormed at_first id status reason actor now_photo now_video db
      h =
    elim (Option-cases (get_live_photo_pair id db)) [
      | inl missing ↦ ground arith
      | inr (pair, found) ↦
          let d1 : Db = (transition_status pair.photo_sha256 status reason actor now_photo db).1 in
          ground (
            arith,
            transition_status-IsWellFormed pair.photo_sha256 status reason actor now_photo db h,
            transition_status-IsWellFormed pair.video_sha256 status reason actor now_video d1,
          )
    ]
