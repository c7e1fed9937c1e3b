-- ===== src/Registry/WellFormed.antt =====
-- The invariant of a registry database, and the lemmas on it for each statement of the methods.
use nightfall_photo_ingress.Base.{
  ◌∙◌, ℕ, ◌+◌, ◌≤◌, String, Bool, true, false, ◌≡◌, refl, Option, List, [], ◌∷◌, ◌++◌, ◌==◌, eq_iff,
  arith, All, All-append, All-impl, if◌then◌else◌, ◌||◌, inl, inr, Bool-cases,
}
use nightfall_photo_ingress.Sql.{exists_where, update_where, upsert, IsUnique, IsIncreasing}
use nightfall_photo_ingress.Sql.Laws.{
  exists_where-update_where, exists_where-upsert, All-update_where, All-upsert,
}
use nightfall_photo_ingress.Registry.Schema.{Db, FileRow, AuditRow, has_sha, pair_key, origin_key}
use nightfall_photo_ingress.Registry.Conn.{
  file_exists, write_file, write_metadata, write_origin, write_acceptance, write_audit, update_file,
  is_allowed,
}
use nightfall_photo_ingress.Registry.Pairs.{is_pair_status, write_pair, set_pair_status}

-- r and s have one sha256.
abbrev pub same_sha : FileRow → FileRow → Bool
same_sha r = has_sha r.sha256

-- What the constraints of the schema and the methods together guarantee: files have different
-- hashes and an allowed status, references point at rows of `files`, and the ids of the audit log
-- rise and stay below the counter.
pub record IsWellFormed (db : Db) : Type 0 where
  pub unique : IsUnique same_sha db.files
  pub statuses : All (λ r. is_allowed r.status ≡ true) db.files
  pub origins : All (λ r. file_exists r.sha256 db ≡ true) db.file_origins
  pub acceptances : All (λ r. file_exists r.sha256 db ≡ true) db.accepted_records
  pub photos : All (λ r. file_exists r.photo_sha256 db ≡ true) db.live_photo_pairs
  pub videos : All (λ r. file_exists r.video_sha256 db ≡ true) db.live_photo_pairs
  pub pair_statuses : All (λ r. is_pair_status r.status ≡ true) db.live_photo_pairs
  pub audit_bound : All (λ r. r.id ≤ db.audit_seq) db.audit_log
  pub audit_order : IsIncreasing (λ r. r.id) 0 db.audit_log

or_true : (b : Bool) → (b || true) ≡ true
or_true b = ground arith

module _ (sha : String) (new : FileRow) (f : FileRow → FileRow) where
  -- The upsert of a hash keeps the hashes that are there, and adds its own.
  exists_where-upsert_sha :
      new.sha256 ≡ sha
      → ((r : FileRow) → (f r).sha256 ≡ r.sha256)
      → (x : String) (rows : List FileRow)
      → exists_where (has_sha x) (upsert (has_sha sha) new f rows)
        ≡ (has_sha x new || exists_where (has_sha x) rows)
  exists_where-upsert_sha e k x rows =
      exists_where-upsert (has_sha x) (has_sha sha) new f rows (λ r. rw (k r))
        (λ r h. rw (e, (eq_iff r.sha256 sha).0 h))

  upsert-IsUnique :
      new.sha256 ≡ sha
      → ((r : FileRow) → (f r).sha256 ≡ r.sha256)
      → (rows : List FileRow) → IsUnique same_sha rows
      → IsUnique same_sha (upsert (has_sha sha) new f rows)
  unfolding upsert exists_where
  upsert-IsUnique e k [] h = (refl, tt)
  upsert-IsUnique e k (r ∷ rows) h = elim (Bool-cases (has_sha sha r)) [
    | inl same ↦ rw same (rw (k r) h.0, h.1)
    | inr other ↦ rw other (
      exists_where-upsert_sha e k r.sha256 rows
          ∙ ground (arith, eq_iff new.sha256 r.sha256, eq_iff r.sha256 sha),
      upsert-IsUnique e k rows h.1,
    )
  ]

sha256-if :
    (b : Bool) (f : FileRow → FileRow) (r : FileRow)
    → (f r).sha256 ≡ r.sha256
    → (if b then f r else r).sha256 ≡ r.sha256
sha256-if true f r k = k
sha256-if false f r k = refl

update-IsUnique :
    (sha : String) (f : FileRow → FileRow)
    → ((r : FileRow) → (f r).sha256 ≡ r.sha256)
    → (rows : List FileRow) → IsUnique same_sha rows
    → IsUnique same_sha (update_where (has_sha sha) f rows)
unfolding update_where
update-IsUnique sha f k [] h = tt
update-IsUnique sha f k (r ∷ rows) h = (
  rw (sha256-if (has_sha sha r) f r (k r))
      (exists_where-update_where (same_sha r) (has_sha sha) f rows (λ x. rw (k x)) ∙ h.0),
  update-IsUnique sha f k rows h.1,
)

append-IsIncreasing :
    (lo n : ℕ) (rows : List AuditRow) (new : AuditRow)
    → IsIncreasing (λ r. r.id) lo rows
    → All (λ r. r.id ≤ n) rows
    → lo ≤ n
    → new.id ≡ n + 1
    → IsIncreasing (λ r. r.id) lo (rows ++ new ∷ [])
append-IsIncreasing lo n [] new i b h e = (omega arith, tt)
append-IsIncreasing lo n (r ∷ rows) new i b h e =
    (i.0, append-IsIncreasing r.id n rows new i.1 b.1 b.0 e)

-- A file that was there stays there under each statement.
pub write_file-file_exists :
    (sha : String) (size : ℕ) (status : String) (filename path : Option String) (now : String)
    (x : String) (db : Db)
    → file_exists x (write_file sha size status filename path now db)
      ≡ ((sha == x) || file_exists x db)
unfolding write_file
write_file-file_exists sha size status filename path now x db =
    exists_where-upsert_sha sha _ _ refl (λ r. refl) x db.files

pub update_file-file_exists :
    (sha : String) (f : FileRow → FileRow) (x : String) (db : Db)
    → ((r : FileRow) → (f r).sha256 ≡ r.sha256)
    → file_exists x (update_file sha f db) ≡ file_exists x db
unfolding update_file
update_file-file_exists sha f x db k =
    exists_where-update_where (has_sha x) (has_sha sha) f db.files (λ r. rw (k r))

-- The rows of `files` may change, the other tables stay: what is left to show.
pub files-IsWellFormed :
    (db : Db) (rows : List FileRow)
    → ((x : String) → file_exists x db ≡ true → exists_where (has_sha x) rows ≡ true)
    → IsUnique same_sha rows
    → All (λ r. is_allowed r.status ≡ true) rows
    → IsWellFormed db
    → IsWellFormed (record db { files = rows })
files-IsWellFormed db rows grow u st h = record {
  unique = u;
  statuses = st;
  origins = All-impl _ _ (λ r. grow r.sha256) db.file_origins h.origins;
  acceptances = All-impl _ _ (λ r. grow r.sha256) db.accepted_records h.acceptances;
  photos = All-impl _ _ (λ r. grow r.photo_sha256) db.live_photo_pairs h.photos;
  videos = All-impl _ _ (λ r. grow r.video_sha256) db.live_photo_pairs h.videos;
  pair_statuses = h.pair_statuses;
  audit_bound = h.audit_bound;
  audit_order = h.audit_order;
}

pub write_file-IsWellFormed :
    (sha : String) (size : ℕ) (status : String) (filename path : Option String) (now : String)
    (db : Db)
    → is_allowed status ≡ true
    → IsWellFormed db
    → IsWellFormed (write_file sha size status filename path now db)
unfolding write_file
write_file-IsWellFormed sha size status filename path now db a h =
    files-IsWellFormed db _
      (λ x e. exists_where-upsert_sha sha _ _ refl (λ r. refl) x db.files ∙ rw e (or_true _))
      (upsert-IsUnique sha _ _ refl (λ r. refl) db.files h.unique)
      (All-upsert _ (has_sha sha) _ _ a (λ r _. a) db.files h.statuses) h

pub update_file-IsWellFormed :
    (sha : String) (f : FileRow → FileRow) (db : Db)
    → ((r : FileRow) → (f r).sha256 ≡ r.sha256)
    → ((r : FileRow) → is_allowed r.status ≡ true → is_allowed (f r).status ≡ true)
    → IsWellFormed db
    → IsWellFormed (update_file sha f db)
unfolding update_file
update_file-IsWellFormed sha f db k a h =
    files-IsWellFormed db _
      (λ x e. exists_where-update_where (has_sha x) (has_sha sha) f db.files (λ r. rw (k r)) ∙ e)
      (update-IsUnique sha f k db.files h.unique)
      (All-update_where _ (has_sha sha) f a db.files h.statuses) h

pub write_metadata-IsWellFormed :
    (account id : String) (size : ℕ) (time sha now : String) (db : Db)
    → IsWellFormed db
    → IsWellFormed (write_metadata account id size time sha now db)
unfolding write_metadata
write_metadata-IsWellFormed account id size time sha now db h = record {
  unique = h.unique;
  statuses = h.statuses;
  origins = h.origins;
  acceptances = h.acceptances;
  photos = h.photos;
  videos = h.videos;
  pair_statuses = h.pair_statuses;
  audit_bound = h.audit_bound;
  audit_order = h.audit_order;
}

pub write_origin-IsWellFormed :
    (account id sha : String) (hint : Option String) (now : String) (db : Db)
    → file_exists sha db ≡ true
    → IsWellFormed db
    → IsWellFormed (write_origin account id sha hint now db)
unfolding write_origin
write_origin-IsWellFormed account id sha hint now db e h = record {
  unique = h.unique;
  statuses = h.statuses;
  origins = All-upsert _ (origin_key account id) _ _ e (λ r _. e) db.file_origins h.origins;
  acceptances = h.acceptances;
  photos = h.photos;
  videos = h.videos;
  pair_statuses = h.pair_statuses;
  audit_bound = h.audit_bound;
  audit_order = h.audit_order;
}

pub write_acceptance-IsWellFormed :
    (sha account source_path now : String) (db : Db)
    → file_exists sha db ≡ true
    → IsWellFormed db
    → IsWellFormed (write_acceptance sha account source_path now db)
unfolding write_acceptance
write_acceptance-IsWellFormed sha account source_path now db e h = record {
  unique = h.unique;
  statuses = h.statuses;
  origins = h.origins;
  acceptances = All-append _ db.accepted_records _ h.acceptances (e, tt);
  photos = h.photos;
  videos = h.videos;
  pair_statuses = h.pair_statuses;
  audit_bound = h.audit_bound;
  audit_order = h.audit_order;
}

pub write_audit-IsWellFormed :
    (sha account : Option String) (action : String) (reason details : Option String)
    (actor now : String) (db : Db)
    → IsWellFormed db
    → IsWellFormed (write_audit sha account action reason details actor now db)
unfolding write_audit
write_audit-IsWellFormed sha account action reason details actor now db h = record {
  unique = h.unique;
  statuses = h.statuses;
  origins = h.origins;
  acceptances = h.acceptances;
  photos = h.photos;
  videos = h.videos;
  pair_statuses = h.pair_statuses;
  audit_bound =
      All-append _ db.audit_log _ (All-impl _ _ (λ r b. omega arith) db.audit_log h.audit_bound)
        (omega arith, tt);
  audit_order =
      append-IsIncreasing 0 db.audit_seq db.audit_log _ h.audit_order h.audit_bound (omega arith)
        refl;
}

pub write_pair-IsWellFormed :
    (id account stem photo video status now : String) (db : Db)
    → is_pair_status status ≡ true
    → file_exists photo db ≡ true
    → file_exists video db ≡ true
    → IsWellFormed db
    → IsWellFormed (write_pair id account stem photo video status now db)
unfolding write_pair
write_pair-IsWellFormed id account stem photo video status now db st p v h = record {
  unique = h.unique;
  statuses = h.statuses;
  origins = h.origins;
  acceptances = h.acceptances;
  photos = All-upsert _ (pair_key id) _ _ p (λ r _. p) db.live_photo_pairs h.photos;
  videos = All-upsert _ (pair_key id) _ _ v (λ r _. v) db.live_photo_pairs h.videos;
  pair_statuses = All-upsert _ (pair_key id) _ _ st (λ r _. st) db.live_photo_pairs h.pair_statuses;
  audit_bound = h.audit_bound;
  audit_order = h.audit_order;
}

pub set_pair_status-IsWellFormed :
    (id status now : String) (db : Db)
    → is_pair_status status ≡ true
    → IsWellFormed db
    → IsWellFormed (set_pair_status id status now db)
unfolding set_pair_status
set_pair_status-IsWellFormed id status now db st h = record {
  unique = h.unique;
  statuses = h.statuses;
  origins = h.origins;
  acceptances = h.acceptances;
  photos = All-update_where _ (pair_key id) _ (λ r e. e) db.live_photo_pairs h.photos;
  videos = All-update_where _ (pair_key id) _ (λ r e. e) db.live_photo_pairs h.videos;
  pair_statuses =
      All-update_where _ (pair_key id) _ (λ r _. st) db.live_photo_pairs h.pair_statuses;
  audit_bound = h.audit_bound;
  audit_order = h.audit_order;
}
