-- ===== src/Tests/Imports.antt =====
-- The theorems on the plans of an import at concrete inputs.
use nightfall_photo_ingress.Text.{lower, is_line_boundary}
use nightfall_photo_ingress.Text.Lines.{text_of_lines}
use nightfall_photo_ingress.Base.{String, false, some, [], ◌∷◌, refl, ◌≡◌}
use nightfall_photo_ingress.Base.Exec.{ok, err, hash_parse}
use nightfall_photo_ingress.World.{Fs}
use nightfall_photo_ingress.HashImport.{HashImportDirectoryPlan, cache_v2}
use nightfall_photo_ingress.HashImport.Caches.{
  HashImportDirectoryRow, check_rows, parse_hashes_v2_lines, Tools, is_digest,
}
use nightfall_photo_ingress.HashImport.Caches.Written.{
  IsRow, written, parse_hashes_v2_lines-written,
}
use nightfall_photo_ingress.Tests.Data.{sha_b}

abbrev sha1_a : String
sha1_a = "da39a3ee5e6b4b0d3255bfef95601890afd80709"

abbrev row : String
row =
    "da39a3ee5e6b4b0d3255bfef95601890afd80709\te3b0c44298fc1c149afbf4c8996fb92427ae41e4649b934ca495991b7852b855\t/lib/a.jpg"

abbrev tools : Tools
tools = record {
  text_of = λ bytes.
      text_of_lines
        ("CACHE_SCHEMA v2" ∷ "DIRECTORY_HASH da39a3ee5e6b4b0d3255bfef95601890afd80709" ∷ row ∷ []);
  directory_hash = λ directory. some sha1_a;
  sha1 = λ bytes. sha1_a;
  sha256 = λ bytes. sha_b;
  before = λ a b. false;
}

abbrev files : Fs
files = ("/lib/a.jpg", 1 ∷ []) ∷ ("/lib/.hashes.v2", 2 ∷ []) ∷ ("/lib/sub/b.jpg", 3 ∷ []) ∷ []

abbrev plan : HashImportDirectoryPlan
plan = record {
  source = cache_v2;
  sha256_values = "e3b0c44298fc1c149afbf4c8996fb92427ae41e4649b934ca495991b7852b855" ∷ [];
  stale_or_invalid_cache_replaced = false;
}

abbrev cached : HashImportDirectoryRow
cached = record { sha1 = sha1_a; sha256 = sha_b; path = "/lib/a.jpg" }

cached-IsRow : IsRow cached
unfolding is_digest lower is_line_boundary
cached-IsRow = record {
  sha1_digest = refl;
  sha1_lower = refl;
  sha256_digest = refl;
  sha256_lower = refl;
  path_given = refl;
  path_column = (refl, (refl, (refl, (refl, (refl, (refl, (refl, (refl, (refl, (refl, tt))))))))));
  path_line = (refl, (refl, (refl, (refl, (refl, (refl, (refl, (refl, (refl, (refl, tt))))))))));
}

parse_hashes_v2_lines-written_example :
    parse_hashes_v2_lines (written sha1_a (cached ∷ [])) ≡ ok (sha1_a, cached ∷ [])
unfolding is_digest lower
parse_hashes_v2_lines-written_example =
    parse_hashes_v2_lines-written sha1_a (cached ∷ []) refl refl (cached-IsRow, tt)

-- A relative path of a cache is refused.
relative_refused :
    check_rows files "/lib" 3 (record cached { path = "lib/a.jpg" } ∷ [])
    ≡ err (hash_parse 3 "path must be absolute")
unfolding check_rows
relative_refused = refl
