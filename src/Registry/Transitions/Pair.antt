-- ===== src/Registry/Transitions/Pair.antt =====
-- The rows after a change of a live photo pair's status (`apply_live_photo_pair_status` of
-- src/nightfall_photo_ingress/domain/registry.py).
use nightfall_photo_ingress.Base.{
  String, true, ◌≡◌, refl, ◌∙◌, ap, Bool-cases, inl, inr, none, some, arith, ◌==◌, if◌then◌else◌,
}
use nightfall_photo_ingress.Base.Exec.{ok}
use nightfall_photo_ingress.Sql.Laws.{find_first-update_where, find_first_sound}
use nightfall_photo_ingress.Registry.Schema.{Db, FileRow, PairRow, pair_key}
use nightfall_photo_ingress.Registry.Conn.{is_allowed, update_file, write_audit, set_status}
use nightfall_photo_ingress.Registry.Files.{get_file}
use nightfall_photo_ingress.Registry.Pairs.{
  apply_live_photo_pair_status, get_live_photo_pair, set_pair_status,
}
use nightfall_photo_ingress.Registry.WellFormed.{IsWellFormed}
use nightfall_photo_ingress.Registry.Transitions.{get_file-update_file, get_file_sound}
use nightfall_photo_ingress.Registry.Ops.Atomic.{
  pair-members, transition_status-ok, file_exists-transition,
}

-- The database after a transition of a file's status.
abbrev moved : String → String → String → String → String → Db → Db
moved sha status reason actor now db =
    write_audit (some sha) none status (some reason) none actor now
      (update_file sha (set_status status now) db)

-- The row of a file after it.
abbrev moved_row : String → String → String → String → FileRow → FileRow
moved_row x sha status now r = if x == sha then set_status status now r else r

get_file-moved :
    (x sha status reason actor now : String) (db : Db) (r : FileRow)
    → get_file x db ≡ some r
    → get_file x (moved sha status reason actor now db) ≡ some (moved_row x sha status now r)
unfolding get_file write_audit
get_file-moved x sha status reason actor now db r found =
    get_file-update_file x sha (set_status status now) db (λ row. refl)
    ∙ rw found (rw (get_file_sound x db r found))

get_live_photo_pair-set_pair_status :
    (id status now : String) (db : Db) (row : PairRow)
    → get_live_photo_pair id db ≡ some row
    → get_live_photo_pair id (set_pair_status id status now db)
      ≡ some (record row { status = status; updated_at = now })
unfolding get_live_photo_pair set_pair_status
get_live_photo_pair-set_pair_status id status now db row found =
    find_first-update_where (pair_key id) (pair_key id) _ db.live_photo_pairs (λ r. refl)
    ∙ rw found (rw (find_first_sound (pair_key id) db.live_photo_pairs row found))

moved_row-both :
    (x photo video status now_photo now_video : String) (r : FileRow)
    → moved_row x video status now_video (moved_row x photo status now_photo r) ≡ (
        if x == video
        then set_status status now_video r
        else if x == photo
        then set_status status now_photo r
        else r)
moved_row-both x photo video status now_photo now_video r = elim (Bool-cases (x == video)) [
  | inl is_video ↦ elim (Bool-cases (x == photo)) [
    | inl is_photo ↦ rw (is_video, is_photo) refl
    | inr other ↦ rw (is_video, other) refl
  ]
  | inr other ↦ rw other refl
]

-- The three transactions, one after the other.
apply_live_photo_pair_status-runs :
    (id status reason actor now_photo now_video now : String) (db : Db) (row : PairRow)
    → IsWellFormed db
    → is_allowed status ≡ true
    → get_live_photo_pair id db ≡ some row
    → apply_live_photo_pair_status id status reason actor now_photo now_video now db ≡ (
      ok tt,
      set_pair_status id status now (
          moved row.video_sha256 status reason actor now_video
            (moved row.photo_sha256 status reason actor now_photo db)),
    )
unfolding apply_live_photo_pair_status
apply_live_photo_pair_status-runs id status reason actor now_photo now_video now db row h a found =
    let (p, v) = pair-members id db row h found in
    let d1 = moved row.photo_sha256 status reason actor now_photo db in
    ground (
      arith,
      transition_status-ok row.photo_sha256 status reason actor now_photo db a p,
      transition_status-ok row.video_sha256 status reason actor now_video d1 a,
      file_exists-transition row.photo_sha256 status reason actor now_photo row.video_sha256 db,
    )

-- In a well-formed database a pair that is found takes an allowed status without fail when no
-- connection fails: afterwards the pair's row has it with the time of the last write, and of the
-- rows of the files exactly those of the photo and of the video have it, each with the time of its
-- own write, the video's where both are one file.
pub apply_live_photo_pair_status_lem :
    (id status reason actor now_photo now_video now : String) (db : Db) (row : PairRow) (x : String)
    (r : FileRow)
    → IsWellFormed db
    → is_allowed status ≡ true
    → get_live_photo_pair id db ≡ some row
    → get_file x db ≡ some r
    → let (result, db') =
        apply_live_photo_pair_status id status reason actor now_photo now_video now db in
      (result ≡ ok tt)
      × (get_live_photo_pair id db' ≡ some (record row { status = status; updated_at = now }))
      × (get_file x db'
          ≡ some (
              if x == row.video_sha256
              then set_status status now_video r
              else if x == row.photo_sha256
              then set_status status now_photo r
              else r))
unfolding write_audit get_live_photo_pair get_file update_file set_pair_status
apply_live_photo_pair_status_lem id status reason actor now_photo now_video now db row x r h a found
      file =
    let d1 = moved row.photo_sha256 status reason actor now_photo db in
    let d2 = moved row.video_sha256 status reason actor now_video d1 in
    rw
      (apply_live_photo_pair_status-runs id status reason actor now_photo now_video now db row h a
        found)
      (
        refl,
        get_live_photo_pair-set_pair_status id status now d2 row found,
        get_file-moved x row.video_sha256 status reason actor now_video d1
              (moved_row x row.photo_sha256 status now_photo r)
              (get_file-moved x row.photo_sha256 status reason actor now_photo db r file)
            ∙ ap some
                (moved_row-both x row.photo_sha256 row.video_sha256 status now_photo now_video r),
      )
