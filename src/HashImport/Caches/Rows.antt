-- ===== src/HashImport/Caches/Rows.antt =====
-- The rows that a cache or the files of a directory give (`_parse_hashes_v2_cache`,
-- `_backfill_v2_rows_from_v1` and `_rehash_directory_rows` of
-- src/nightfall_photo_ingress/hash_import.py).
use mathlib.Core.Path.{subst}
use nightfall_photo_ingress.Base.{
  ℕ, ◌+◌, String, Bool, true, false, not, ◌&&◌, ◌≡◌, refl, sym, ap, ◌∙◌, Option, none, some, List,
  [], ◌∷◌, ◌==◌, eq_iff, All, map, contains, and_left, and_right, Bool-cases, if◌then◌else◌, inl,
  inr,
}
use nightfall_photo_ingress.Base.Exec.{Error, hash_parse, Result, ok, err}
use nightfall_photo_ingress.World.{Fs, content}
use nightfall_photo_ingress.Text.{lower}
use nightfall_photo_ingress.HashImport.{
  HashImportDirectoryPlan, PlanSource, cache_v2, backfill_v1, recompute,
}
use nightfall_photo_ingress.HashImport.Caches.{
  Tools, HashImportDirectoryRow, normal_path, is_subset, check_rows, checked_row, v1_checked,
  validate_cache_row_path, iter_importable_files, validate_required_rows, parse_hashes_v2_lines,
  digest_at, v1_row, v1_rows, in_directory,
}

pub is_subset_lem :
    (p : String) (xs ys : List String)
    → is_subset xs ys ≡ true
    → contains p xs ≡ true
    → contains p ys ≡ true
unfolding is_subset contains
is_subset_lem p [] ys h e = cc
is_subset_lem p (x ∷ xs) ys h e =
    let head = and_left (contains x ys) (is_subset xs ys) h in
    elim (Bool-cases (x == p)) [
      | inl same ↦ subst (λ q. contains q ys ≡ true) ((eq_iff x p).0 same) head
      | inr other ↦
          is_subset_lem p xs ys (and_right (contains x ys) (is_subset xs ys) h) (rw other at e)
    ]

-- Two lists that are subsets of one another have the same members.
pub same_members :
    (p : String) (xs ys : List String)
    → is_subset xs ys ≡ true
    → is_subset ys xs ≡ true
    → contains p ys ≡ contains p xs
same_members p xs ys there back =
    let f = is_subset_lem p xs ys there in
    let g = is_subset_lem p ys xs back in
    elim (Bool-cases (contains p xs)) [
      | inl here ↦ f here ∙ sym here
      | inr absent ↦ elim (Bool-cases (contains p ys)) [
        | inl there' ↦ there' ∙ sym (g there')
        | inr absent' ↦ absent' ∙ sym absent
      ]
    ]

pub ok_inj : {A : Type 0} (a b : A) → ◌≡◌ {A = Result A} (ok a) (ok b) → a ≡ b
ok_inj a b e = cc

unfoldable pub paths_of : List HashImportDirectoryRow → List String
paths_of rows = map (λ row. row.path) rows

unfoldable pub hashes_of : List HashImportDirectoryRow → List String
hashes_of rows = map (λ row. row.sha256) rows

pub unless_ok :
    {A : Type 0} (b : Bool) (x : Error) (r : Result A) (a : A)
    → (if not b then err x else r) ≡ ok a
    → (b ≡ true) × (r ≡ ok a)
unless_ok true x r a e = (refl, e)
unless_ok false x r a e = cc

checked_row-ok :
    (row : HashImportDirectoryRow) (valid : Result (Unit {0}))
    (rest : Result (List HashImportDirectoryRow)) (rows : List HashImportDirectoryRow)
    → checked_row row valid rest ≡ ok rows
    → (tail : List HashImportDirectoryRow) × (rest ≡ ok tail) × (row ∷ tail ≡ rows)
unfolding checked_row
checked_row-ok row (ok tt) (ok tail) rows e = (tail, refl, ok_inj (row ∷ tail) rows e)
checked_row-ok row (ok tt) (err x) rows e = cc
checked_row-ok row (err x) rest rows e = cc

-- A row of a cache, its path as `Path` reads it.
unfoldable pub under_path : HashImportDirectoryRow → HashImportDirectoryRow
unfolding normal_path
under_path row = record row { path = normal_path row.path }

pub check_rows-map :
    (fs : Fs) (directory : String) (n : ℕ) (rows checked : List HashImportDirectoryRow)
    → check_rows fs directory n rows ≡ ok checked
    → checked ≡ map under_path rows
unfolding check_rows under_path
check_rows-map fs directory n [] checked e = sym (ok_inj [] checked e)
check_rows-map fs directory n (row ∷ rows) checked e =
    let path = normal_path row.path in
    let (tail, t, whole) =
      checked_row-ok (record row { path = path }) (validate_cache_row_path fs directory n path)
        (check_rows fs directory (n + 1) rows) checked e in
    sym whole
    ∙ ap (λ l. record row { path = path } ∷ l) (check_rows-map fs directory (n + 1) rows tail t)

module _ (tools : Tools) (fs : Fs) (directory : String) where
  abbrev pub importable : List String
  importable = iter_importable_files tools fs directory

  unfoldable pub Digested : HashImportDirectoryRow → Type 0
  Digested row = row.sha256 ≡ digest_at tools fs directory tools.sha256 row.path

  -- Where rows may come from.
  unfoldable pub Origin : PlanSource → List HashImportDirectoryRow → Type 0
  Origin cache_v2 rows =
      (bytes : List ℕ) × ((hash : String) × ((stored : List HashImportDirectoryRow) × (content
              (in_directory tools fs directory ".hashes.v2") fs
            ≡ some bytes)
          × (tools.directory_hash directory ≡ some hash)
          × (parse_hashes_v2_lines (tools.text_of bytes) ≡ ok (hash, stored))
          × (rows ≡ map under_path stored)))
  Origin backfill_v1 rows = All Digested rows
  Origin recompute rows = All Digested rows

  -- The rows behind a plan.
  pub record IsCovering (plan : HashImportDirectoryPlan) : Type 0 where
    pub rows : List HashImportDirectoryRow
    pub hashes : plan.sha256_values ≡ hashes_of rows
    pub members : (p : String) → contains p (paths_of rows) ≡ contains p importable
    pub origin : Origin plan.source rows

  pub validate_required_rows-ok :
      (rows checked : List HashImportDirectoryRow)
      → validate_required_rows tools fs directory rows ≡ ok checked
      → (rows ≡ checked) × ((p : String) → contains p (paths_of rows) ≡ contains p importable)
  unfolding validate_required_rows paths_of
  validate_required_rows-ok rows checked e =
      elim (Bool-cases
        (is_subset importable (paths_of rows) && is_subset (paths_of rows) importable)) [
          | inl both ↦ (
            ok_inj rows checked (rw both at e),
            λ p. same_members p importable (paths_of rows) (and_left _ _ both) (and_right _ _ both),
          )
          | inr neither ↦ absurd (err_ok (rw neither at e))
        ]
    where
      err_ok :
          err (hash_parse 0 "cache rows do not match current directory contents") ≡ ok checked → ⊥
      err_ok x = cc

  pub rehash-Digested :
      (paths : List String)
      → All Digested (
          map
            (λ path. record {
              sha1 = digest_at tools fs directory tools.sha1 path;
              sha256 = digest_at tools fs directory tools.sha256 path;
              path = path;
            })
            paths)
  unfolding Digested
  rehash-Digested [] = tt
  rehash-Digested (p ∷ ps) = (refl, rehash-Digested ps)

  pub rehash-members :
      (paths : List String)
      → paths_of (
          map
            (λ path. record {
              sha1 = digest_at tools fs directory tools.sha1 path;
              sha256 = digest_at tools fs directory tools.sha256 path;
              path = path;
            })
            paths)
        ≡ paths
  unfolding paths_of
  rehash-members [] = refl
  rehash-members (p ∷ ps) = ap (λ l. p ∷ l) (rehash-members ps)

  v1_checked-Digested :
      (n : ℕ) (found : Option (String × String)) (rest : Result (List HashImportDirectoryRow))
      (rows : List HashImportDirectoryRow)
      → ((tail : List HashImportDirectoryRow) → rest ≡ ok tail → All Digested tail)
      → v1_checked tools fs directory n found rest ≡ ok rows
      → All Digested rows
  unfolding v1_checked Digested
  v1_checked-Digested n none rest rows h e = cc
  v1_checked-Digested n (some (digest, written)) rest rows h e =
      let path = normal_path written in
      let row : HashImportDirectoryRow = record {
        sha1 = lower digest;
        sha256 = digest_at tools fs directory tools.sha256 path;
        path = path;
      } in
      let (tail, t, whole) =
        checked_row-ok row (validate_cache_row_path fs directory n path) rest rows e in
      subst (All Digested) whole (refl, h tail t)

  pub v1_rows-Digested :
      (n : ℕ) (lines : List String) (rows : List HashImportDirectoryRow)
      → v1_rows tools fs directory n lines ≡ ok rows
      → All Digested rows
  unfolding v1_rows
  v1_rows-Digested n [] rows e = subst (All Digested) (ok_inj [] rows e) tt
  v1_rows-Digested n (line ∷ lines) rows e =
      v1_checked-Digested n (v1_row line) (v1_rows tools fs directory (n + 1) lines) rows
        (v1_rows-Digested (n + 1) lines) e
