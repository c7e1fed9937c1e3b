-- ===== src/HashImport/Caches.antt =====
-- The plan for one directory of an import: its v2 cache, its v1 cache, or the hashes computed again
-- (`build_hash_import_directory_plan` and what it calls in src/nightfall_photo_ingress/hash_import.py).
-- The errors leave out the name of the file that they are about.
pub mod Rows
pub mod Covered
pub mod Written
use Prim.Native.Char.{Char, code}
use nightfall_photo_ingress.Base.{
  ℕ, zero, suc, ◌+◌, String, Bool, true, false, not, ◌&&◌, ◌||◌, Option, none, some, List, [], ◌∷◌,
  ◌==◌, eqb, leb, is_some, option_or, if◌then◌else◌, contains, map,
}
use nightfall_photo_ingress.Base.Exec.{
  Error, hash_parse, directory_hash_failed, Result, ok, err, and_then,
}
use nightfall_photo_ingress.Text.{
  cat, text_length, all_chars, starts, drop_text, lstrip, strip, is_space, split, lower, take_text,
  splitlines,
}
use nightfall_photo_ingress.World.{Fs, content, exists}
use nightfall_photo_ingress.Sql.{select_where}
use nightfall_photo_ingress.Storage.Render.{path_parts, parent_name, join}
use nightfall_photo_ingress.Ingest.Batch.{sort_by}
use nightfall_photo_ingress.HashImport.{
  HashImportDirectoryPlan, PlanSource, cache_v2, backfill_v1, recompute,
}

-- The surroundings: the text of a file's bytes, the hash that `find`, `sort` and `sha1sum` give for a
-- directory, hashlib's two digests, and the order of names by their bytes.
pub record Tools : Type 0 where
  pub text_of : List ℕ → String
  pub directory_hash : String → Option String
  pub sha1 : List ℕ → String
  pub sha256 : List ℕ → String
  pub before : String → String → Bool

-- The dataclass `HashImportDirectoryRow`.
pub record HashImportDirectoryRow : Type 0 where
  pub sha1 : String
  pub sha256 : String
  pub path : String

unfoldable pub is_hex : Char → Bool
is_hex c =
    let n = code c in (leb 48 n && leb n 57) || (leb 65 n && leb n 70) || (leb 97 n && leb n 102)

-- fullmatch of "^[0-9a-fA-F]{n}$"
unfoldable pub is_digest : ℕ → String → Bool
unfolding text_length all_chars is_hex
is_digest n s = eqb (text_length s) n && all_chars is_hex s

-- The group of `DIRECTORY_HASH_HEADER_RE`.
unfoldable pub directory_header : String → Option String
unfolding starts drop_text lstrip is_space is_digest
directory_header line =
    let rest = drop_text 14 line in
    let digest = lstrip is_space rest in
    if starts "DIRECTORY_HASH" line && not (digest == rest) && is_digest 40 digest
    then some digest
    else none

-- A row of a v2 cache, from its columns.
unfoldable pub parse_row : ℕ → List String → Result HashImportDirectoryRow
unfolding is_digest lower
parse_row n (sha1 ∷ sha256 ∷ path ∷ []) =
    if not (is_digest 40 sha1)
    then err (hash_parse n "invalid SHA-1 value in column 1")
    else if not (is_digest 64 sha256)
    then err (hash_parse n "invalid SHA-256 value in column 2")
    else if path == ""
    then err (hash_parse n "empty path in column 3")
    else ok (record { sha1 = lower sha1; sha256 = lower sha256; path = path })
parse_row n _ = err (hash_parse n "expected exactly 3 tab-separated fields")

unfoldable pub parse_rows : ℕ → List String → Result (List HashImportDirectoryRow)
unfolding parse_row split
parse_rows n [] = ok []
parse_rows n (line ∷ lines) =
    let rest = parse_rows (n + 1) lines in
    and_then (parse_row n (split "\t" line)) (λ row. and_then rest (λ rows. ok (row ∷ rows)))

unfoldable pub parse_v2_lines : List String → Result (String × List HashImportDirectoryRow)
unfolding directory_header parse_rows lower
parse_v2_lines [] = err (hash_parse 1 "expected exact header 'CACHE_SCHEMA v2'")
parse_v2_lines (header ∷ lines) =
    if not (header == "CACHE_SCHEMA v2")
    then err (hash_parse 1 "expected exact header 'CACHE_SCHEMA v2'")
    else elim lines [
      | [] ↦ err (hash_parse 2 "missing DIRECTORY_HASH header")
      | second ∷ rows ↦ elim (directory_header second) [
        | none ↦ err (hash_parse 2 "invalid DIRECTORY_HASH header")
        | some hash ↦ and_then (parse_rows 3 rows) (λ parsed. ok (lower hash, parsed))
      ]
    ]

unfoldable pub parse_hashes_v2_lines : String → Result (String × List HashImportDirectoryRow)
unfolding splitlines parse_v2_lines
parse_hashes_v2_lines text = parse_v2_lines (splitlines text)

-- After the digest of a v1 row: as much white space as leaves a space or a star, and a path.
abbrev marked_path : String → Option String
marked_path String.[] = none
marked_path (String.◌∷◌ m path) =
    if (eqb (code m) 32 || eqb (code m) 42) && not (path == "") then some path else none

unfoldable pub v1_path : String → Option String
unfolding is_space
v1_path String.[] = none
v1_path (String.◌∷◌ c s) =
    let later = v1_path s in
    if not (is_space c) then none else if is_some later then later else marked_path s

-- The groups of `SHA1_ROW_RE`.
unfoldable pub v1_row : String → Option (String × String)
unfolding take_text drop_text is_digest v1_path
v1_row line =
    let digest = take_text 40 line in
    if not (is_digest 40 digest)
    then none
    else elim (v1_path (drop_text 40 line)) [ none ↦ none | some path ↦ some (digest, path) ]

-- `_is_ignored_file`, on the name of a path
unfoldable pub is_ignored_file : String → Bool
unfolding lower
is_ignored_file name =
    name == ".hashes.v2"
    || name == ".hashes.sha1"
    || name == ".hashes.v1"
    || lower name == "thumbs.db"

-- str(Path(s)) for a relative path, from its parts
abbrev relative_path : List String → String
relative_path [] = "."
relative_path (p ∷ ps) = join p ps

-- For an absolute path.
abbrev rooted : List String → String
rooted [] = "/"
rooted (p ∷ ps) = join "" (p ∷ ps)

-- str(Path(s)): two slashes at the start are kept, other runs are one slash
unfoldable pub normal_path : String → String
unfolding starts join path_parts cat
normal_path s =
    let parts = path_parts s in
    let text = rooted parts in
    if not (starts "/" s)
    then relative_path parts
    else if starts "//" s && not (starts "///" s)
    then cat "/" text
    else text

-- `_validate_cache_row_path`
unfoldable pub validate_cache_row_path : Fs → String → ℕ → String → Result (Unit {0})
unfolding parent_name is_ignored_file starts content
validate_cache_row_path fs directory n path =
    let (parent, name) = parent_name path in
    if not (starts "/" path)
    then err (hash_parse n "path must be absolute")
    else if not (parent == directory)
    then err (hash_parse n "path must belong to cache directory")
    else if is_ignored_file name
    then err (hash_parse n "path references ignored file")
    else if not (exists path fs)
    then err (hash_parse n "path does not exist as a file")
    else ok tt

-- A row under its path, before the rows behind it, once the path is validated.
unfoldable pub checked_row :
    HashImportDirectoryRow
    → Result (Unit {0})
    → Result (List HashImportDirectoryRow)
    → Result (List HashImportDirectoryRow)
checked_row row (err e) rest = err e
checked_row row (ok tt) (err e) = err e
checked_row row (ok tt) (ok rows) = ok (row ∷ rows)

unfoldable pub check_rows :
    Fs → String → ℕ → List HashImportDirectoryRow → Result (List HashImportDirectoryRow)
unfolding validate_cache_row_path normal_path checked_row
check_rows fs directory n [] = ok []
check_rows fs directory n (row ∷ rows) =
    let path = normal_path row.path in
    checked_row (record row { path = path }) (validate_cache_row_path fs directory n path)
      (check_rows fs directory (n + 1) rows)

-- Every member of one list is in the other.
unfoldable pub is_subset : List String → List String → Bool
unfolding contains
is_subset [] ys = true
is_subset (x ∷ xs) ys = contains x ys && is_subset xs ys

module _ (tools : Tools) (fs : Fs) (directory : String) where
  -- path.parent == directory and not ignored, among the files
  abbrev is_importable : String → Bool
  is_importable path =
      let (parent, name) = parent_name path in parent == directory && not (is_ignored_file name)

  unfoldable pub iter_importable_files : List String
  unfolding sort_by parent_name is_ignored_file
  iter_importable_files =
      sort_by (λ p q. tools.before (parent_name p).1 (parent_name q).1)
        (select_where is_importable (map (λ file. file.0) fs))

  -- `_validate_required_rows`, and the rows
  unfoldable pub validate_required_rows :
      List HashImportDirectoryRow → Result (List HashImportDirectoryRow)
  unfolding is_subset iter_importable_files
  validate_required_rows rows =
      let seen = map (λ row. row.path) rows in
      if is_subset iter_importable_files seen && is_subset seen iter_importable_files
      then ok rows
      else err (hash_parse 0 "cache rows do not match current directory contents")

  unfoldable pub parse_hashes_v2_cache : List ℕ → String → Result (List HashImportDirectoryRow)
  unfolding parse_hashes_v2_lines check_rows validate_required_rows
  parse_hashes_v2_cache bytes expected =
      and_then (parse_hashes_v2_lines (tools.text_of bytes)) (λ parsed.
        if not (parsed.0 == expected)
        then err (hash_parse 2 "stale DIRECTORY_HASH header")
        else and_then (check_rows fs directory 3 parsed.1) validate_required_rows)

  -- The digest of a file that is there.
  abbrev pub digest_at : (List ℕ → String) → String → String
  digest_at digest path = digest (option_or (content path fs) [])

  unfoldable pub rehash_directory_rows : List HashImportDirectoryRow
  unfolding iter_importable_files
  rehash_directory_rows =
      map
        (λ path. record {
          sha1 = digest_at tools.sha1 path;
          sha256 = digest_at tools.sha256 path;
          path = path;
        })
        iter_importable_files

  abbrev pub plan_of : PlanSource → Bool → List HashImportDirectoryRow → HashImportDirectoryPlan
  plan_of source replaced rows = record {
    source = source;
    sha256_values = map (λ row. row.sha256) rows;
    stale_or_invalid_cache_replaced = replaced;
  }

  -- try: the rows of a cache, except HashImportParseError: the rows computed again
  unfoldable pub or_rehashed :
      PlanSource → Result (List HashImportDirectoryRow) → Result HashImportDirectoryPlan
  unfolding rehash_directory_rows
  or_rehashed source (ok rows) = ok (plan_of source false rows)
  or_rehashed source (err (hash_parse n message)) =
      ok (plan_of recompute true rehash_directory_rows)
  or_rehashed source (err e) = err e

  -- The row of a v1 cache, before the rows behind it, with the hash of its file.
  unfoldable pub v1_checked :
      ℕ
      → Option (String × String)
      → Result (List HashImportDirectoryRow)
      → Result (List HashImportDirectoryRow)
  unfolding validate_cache_row_path normal_path lower checked_row
  v1_checked n none rest = err (hash_parse n "invalid v1 cache row")
  v1_checked n (some (digest, written)) rest =
      let path = normal_path written in
      checked_row
        (record { sha1 = lower digest; sha256 = digest_at tools.sha256 path; path = path })
        (validate_cache_row_path fs directory n path) rest

  -- The rows of a v1 cache from line n on.
  unfoldable pub v1_rows : ℕ → List String → Result (List HashImportDirectoryRow)
  unfolding v1_row v1_checked
  v1_rows n [] = ok []
  v1_rows n (line ∷ lines) = v1_checked n (v1_row line) (v1_rows (n + 1) lines)

  -- The rows below a v1 header.
  unfoldable pub backfill_below :
      Option String → String → List String → Result (List HashImportDirectoryRow)
  unfolding v1_rows validate_required_rows lower
  backfill_below none expected lines = err (hash_parse 1 "invalid DIRECTORY_HASH header")
  backfill_below (some hash) expected lines =
      if not (lower hash == expected)
      then err (hash_parse 1 "stale DIRECTORY_HASH header")
      else and_then (v1_rows 2 lines) validate_required_rows

  unfoldable pub backfill_lines : List String → String → Result (List HashImportDirectoryRow)
  unfolding directory_header strip is_space backfill_below
  backfill_lines [] expected = err (hash_parse 1 "missing DIRECTORY_HASH header")
  backfill_lines (first ∷ lines) expected =
      backfill_below (directory_header (strip is_space first)) expected lines

  -- `_backfill_v2_rows_from_v1`, with `_parse_hashes_v1_cache`
  unfoldable pub backfill_v2_rows_from_v1 : List ℕ → String → Result (List HashImportDirectoryRow)
  unfolding backfill_lines splitlines
  backfill_v2_rows_from_v1 bytes expected =
      backfill_lines (splitlines (tools.text_of bytes)) expected

  -- `_find_v1_cache_path`, as the bytes of the file
  unfoldable pub in_directory : String → String
  unfolding cat
  in_directory name = cat directory (cat "/" name)

  unfoldable pub find_v1_cache : Option (List ℕ)
  unfolding content in_directory
  find_v1_cache = elim (content (in_directory ".hashes.sha1") fs) [
    | some bytes ↦ some bytes
    | none ↦ content (in_directory ".hashes.v1") fs
  ]

  unfoldable pub plan_without_v2 : Option (List ℕ) → String → Result HashImportDirectoryPlan
  unfolding or_rehashed backfill_v2_rows_from_v1 rehash_directory_rows
  plan_without_v2 none hash = ok (plan_of recompute false rehash_directory_rows)
  plan_without_v2 (some v1) hash = or_rehashed backfill_v1 (backfill_v2_rows_from_v1 v1 hash)

  unfoldable pub plan_with : Option (List ℕ) → String → Result HashImportDirectoryPlan
  unfolding or_rehashed parse_hashes_v2_cache plan_without_v2 find_v1_cache
  plan_with none hash = plan_without_v2 find_v1_cache hash
  plan_with (some v2) hash = or_rehashed cache_v2 (parse_hashes_v2_cache v2 hash)

  unfoldable pub plan_by : Option String → Result HashImportDirectoryPlan
  unfolding plan_with content in_directory
  plan_by none = err (directory_hash_failed directory)
  plan_by (some hash) = plan_with (content (in_directory ".hashes.v2") fs) hash

  unfoldable pub build_hash_import_directory_plan : Result HashImportDirectoryPlan
  unfolding plan_by
  build_hash_import_directory_plan = plan_by (tools.directory_hash directory)
