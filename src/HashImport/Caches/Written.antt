-- ===== src/HashImport/Caches/Written.antt =====
-- The text of a v2 cache and its parse (`_parse_hashes_v2_lines` of
-- src/nightfall_photo_ingress/hash_import.py).
use Prim.Native.Char.{Char, code}
use nightfall_photo_ingress.Base.{
  ℕ, ◌+◌, String, true, false, not, some, List, [], ◌∷◌, ◌≡◌, refl, ap, ◌∙◌, ◌==◌, All, map, eqb,
  and_left, and_right, arith, eq_iff, Bool-cases, inl, inr,
}
use nightfall_photo_ingress.Base.Exec.{ok}
use nightfall_photo_ingress.Text.{
  cat, lower, split, is_space, is_line_boundary, lstrip, starts, drop_text, text_length, all_chars,
}
use nightfall_photo_ingress.Text.Lines.{
  IsLine, text_of_lines, splitlines-text_of_lines, cat-AllChars,
}
use nightfall_photo_ingress.Text.Splits.{Lacks, split-cat, split-Lacks, all_chars-AllChars}
use nightfall_photo_ingress.HashImport.Caches.{
  HashImportDirectoryRow, is_hex, is_digest, directory_header, parse_row, parse_rows,
  parse_hashes_v2_lines, parse_v2_lines,
}

-- The three columns of a row, with a tab between them.
unfoldable pub written_row : HashImportDirectoryRow → String
unfolding cat
written_row row = cat row.sha1 (cat "\t" (cat row.sha256 (cat "\t" row.path)))

-- The lines of a cache.
abbrev lines_of : String → List HashImportDirectoryRow → List String
lines_of hash rows = "CACHE_SCHEMA v2" ∷ cat "DIRECTORY_HASH " hash ∷ map written_row rows

-- The text of a cache, each line with a line feed behind it.
unfoldable pub written : String → List HashImportDirectoryRow → String
unfolding text_of_lines
written hash rows = text_of_lines (lines_of hash rows)

-- A row whose digests are hexadecimal in small letters, and whose path is one column of one line.
pub record IsRow (row : HashImportDirectoryRow) : Type 0 where
  pub sha1_digest : is_digest 40 row.sha1 ≡ true
  pub sha1_lower : lower row.sha1 ≡ row.sha1
  pub sha256_digest : is_digest 64 row.sha256 ≡ true
  pub sha256_lower : lower row.sha256 ≡ row.sha256
  pub path_given : (row.path == "") ≡ false
  pub path_column : Lacks "\t" row.path
  pub path_line : IsLine row.path

is_hex-tab : (c : Char) → is_hex c ≡ true → not (eqb (code c) 9) ≡ true
unfolding is_hex
is_hex-tab c h = ground arith

digest_hex : (n : ℕ) (s : String) → is_digest n s ≡ true → all_chars is_hex s ≡ true
unfolding is_digest
digest_hex n s h = and_right (eqb (text_length s) n) (all_chars is_hex s) h

is_digest-Lacks : (n : ℕ) (s : String) → is_digest n s ≡ true → Lacks "\t" s
is_digest-Lacks n s h = all_chars-AllChars is_hex _ s is_hex-tab (digest_hex n s h)

split-written_row :
    (row : HashImportDirectoryRow)
    → IsRow row
    → split "\t" (written_row row) ≡ row.sha1 ∷ row.sha256 ∷ row.path ∷ []
unfolding written_row cat
split-written_row row h =
    split-cat "\t" row.sha1 (cat row.sha256 (cat "\t" row.path))
      (is_digest-Lacks 40 row.sha1 h.sha1_digest)
    ∙ ap (λ l. row.sha1 ∷ l)
        (split-cat "\t" row.sha256 row.path (is_digest-Lacks 64 row.sha256 h.sha256_digest)
          ∙ ap (λ l. row.sha256 ∷ l) (split-Lacks "\t" row.path h.path_column))

parse_row-IsRow :
    (n : ℕ) (row : HashImportDirectoryRow)
    → IsRow row
    → parse_row n (row.sha1 ∷ row.sha256 ∷ row.path ∷ []) ≡ ok row
unfolding parse_row
parse_row-IsRow n row h =
    rw (h.sha1_digest, h.sha256_digest, h.path_given, h.sha1_lower, h.sha256_lower) refl

parse_rows-written :
    (n : ℕ) (rows : List HashImportDirectoryRow)
    → All IsRow rows
    → parse_rows n (map written_row rows) ≡ ok rows
unfolding parse_rows
parse_rows-written n [] h = refl
parse_rows-written n (row ∷ rows) h =
    rw (split-written_row row h.0, parse_row-IsRow n row h.0, parse_rows-written (n + 1) rows h.1)
      refl

is_hex-space : (c : Char) → is_hex c ≡ true → is_space c ≡ false
unfolding is_hex is_space
is_hex-space c h = ground arith

lstrip-hex : (s : String) → all_chars is_hex s ≡ true → lstrip is_space s ≡ s
unfolding lstrip all_chars
lstrip-hex String.[] h = refl
lstrip-hex (String.◌∷◌ c s) h =
    rw (is_hex-space c (and_left (is_hex c) (all_chars is_hex s) h)) refl

not_itself : (hash : String) → (hash == cat " " hash) ≡ false
unfolding cat text_length
not_itself hash = elim (Bool-cases (hash == cat " " hash)) [
  | inl same ↦ absurd (longer hash (ap text_length ((eq_iff hash (cat " " hash)).0 same)))
  | inr other ↦ other
]
  where
    longer : (s : String) → text_length s ≡ text_length (cat " " s) → ⊥
    longer s e = omega (arith, e)

directory_header-written :
    (hash : String)
    → is_digest 40 hash ≡ true
    → directory_header (cat "DIRECTORY_HASH " hash) ≡ some hash
unfolding directory_header cat starts drop_text lstrip is_space
directory_header-written hash h =
    let hex = digest_hex 40 hash h in rw (lstrip-hex hash hex, not_itself hash, h) refl

is_hex-boundary : (c : Char) → is_hex c ≡ true → not (is_line_boundary c) ≡ true
unfolding is_hex is_line_boundary
is_hex-boundary c h = ground arith

is_digest-IsLine : (n : ℕ) (s : String) → is_digest n s ≡ true → IsLine s
is_digest-IsLine n s h = all_chars-AllChars is_hex _ s is_hex-boundary (digest_hex n s h)

written_row-IsLine : (row : HashImportDirectoryRow) → IsRow row → IsLine (written_row row)
unfolding written_row is_line_boundary
written_row-IsLine row h = cat-AllChars _ row.sha1 _ (is_digest-IsLine 40 row.sha1 h.sha1_digest) (
    cat-AllChars _ "\t" _ (refl, tt)
      (cat-AllChars _ row.sha256 _ (is_digest-IsLine 64 row.sha256 h.sha256_digest)
        (cat-AllChars _ "\t" row.path (refl, tt) h.path_line)))

rows-IsLine :
    (rows : List HashImportDirectoryRow) → All IsRow rows → All IsLine (map written_row rows)
rows-IsLine [] h = tt
rows-IsLine (row ∷ rows) h = (written_row-IsLine row h.0, rows-IsLine rows h.1)

-- What is written consists of its lines.
lines_of-IsLine :
    (hash : String) (rows : List HashImportDirectoryRow)
    → is_digest 40 hash ≡ true
    → All IsRow rows
    → All IsLine (lines_of hash rows)
unfolding all_chars is_line_boundary
lines_of-IsLine hash rows digest h =
    let line : (s : String) → all_chars (λ c. not (is_line_boundary c)) s ≡ true → IsLine s =
      λ s e. all_chars-AllChars _ _ s (λ c k. k) e in
    (
      line "CACHE_SCHEMA v2" refl,
      (
        cat-AllChars _ "DIRECTORY_HASH " hash (line "DIRECTORY_HASH " refl)
            (is_digest-IsLine 40 hash digest),
        rows-IsLine rows h,
      ),
    )

parse_v2_lines-lines_of :
    (hash : String) (rows : List HashImportDirectoryRow)
    → is_digest 40 hash ≡ true
    → lower hash ≡ hash
    → All IsRow rows
    → parse_v2_lines (lines_of hash rows) ≡ ok (hash, rows)
unfolding parse_v2_lines
parse_v2_lines-lines_of hash rows digest small h =
    rw (directory_header-written hash digest, parse_rows-written 3 rows h, small) refl

-- The text of a v2 cache reads back: of the text whose lines hold a hash and rows, each with a line
-- feed behind it, the parse gives that hash and these rows, if the hash has forty hexadecimal digits
-- in small letters and each row has digests in small letters and a path that is not empty and has
-- neither a tab nor a character that ends a line.
pub parse_hashes_v2_lines-written :
    (hash : String) (rows : List HashImportDirectoryRow)
    → is_digest 40 hash ≡ true
    → lower hash ≡ hash
    → All IsRow rows
    → parse_hashes_v2_lines (written hash rows) ≡ ok (hash, rows)
unfolding parse_hashes_v2_lines written
parse_hashes_v2_lines-written hash rows digest small h =
    ap parse_v2_lines
      (splitlines-text_of_lines (lines_of hash rows) (lines_of-IsLine hash rows digest h))
    ∙ parse_v2_lines-lines_of hash rows digest small h
