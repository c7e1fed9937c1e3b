-- ===== src/Storage/Render.antt =====
-- Destination paths: sanitised names, the storage template, collision-safe names and the check that
-- a path stays below its root (src/nightfall_photo_ingress/domain/storage.py).
use Prim.Native.Char.{Char, code}
use nightfall_photo_ingress.Base.{
  ℕ, zero, suc, ◌+◌, String, Bool, false, not, ◌&&◌, ◌||◌, Option, none, some, List, [], ◌∷◌, ◌==◌,
  eqb, leb, ltb, if◌then◌else◌,
}
use nightfall_photo_ingress.Base.Exec.{
  Result, ok, err, template_not_relative, template_unsafe_parts, max_attempts_too_small,
  collision_threshold, escapes_root,
}
use nightfall_photo_ingress.Text.{
  cat, strip, starts, replace, take_text, split_last, split, decimal,
}
use nightfall_photo_ingress.World.{Os, Fs, exists}

-- The characters that `_SAFE_NAME_RE` leaves.
unfoldable pub is_safe : Char → Bool
is_safe c =
    let n = code c in
    (leb 65 n && leb n 90)
    || (leb 97 n && leb n 122)
    || (leb 48 n && leb n 57)
    || eqb n 46
    || eqb n 95
    || eqb n 32
    || eqb n 45

-- `_SAFE_NAME_RE.sub("_", value)`: each run of other characters becomes one underscore
unfoldable pub substitute : Bool → String → String
unfolding is_safe
substitute in_run String.[] = String.[]
substitute in_run (String.◌∷◌ c s) =
    let rest = substitute (not (is_safe c)) s in
    if is_safe c then String.◌∷◌ c rest else if in_run then rest else String.◌∷◌ "_" rest

-- The characters of `.strip("._ ")`.
unfoldable pub is_edge : Char → Bool
is_edge c = let n = code c in eqb n 46 || eqb n 95 || eqb n 32

unfoldable pub sanitize_filename : String → String
unfolding substitute is_edge strip
sanitize_filename value =
    let cleaned = strip is_edge (substitute false value) in
    if cleaned == "" then "unnamed" else cleaned

-- `_parse_timestamp`, as the year and month that the template uses
abbrev parse_timestamp : Os → String → String × String
parse_timestamp os value = elim (os.year_month (replace value "Z" "+00:00")) [
  | some ym ↦ ym
  | none ↦ os.current_year_month
]

-- Path(rendered).parts: empty components and dots are dropped
unfoldable pub drop_dots : List String → List String
drop_dots [] = []
drop_dots (p ∷ ps) = let rest = drop_dots ps in if (p == "") || (p == ".") then rest else p ∷ rest

unfoldable pub path_parts : String → List String
unfolding drop_dots split
path_parts s = drop_dots (split "/" s)

unfoldable pub has_parent_part : List String → Bool
has_parent_part [] = false
has_parent_part (p ∷ ps) = p == ".." || has_parent_part ps

-- The template with its placeholders replaced.
unfoldable pub render_text : Os → String → String → String → String → String
unfolding sanitize_filename replace take_text
render_text os template sha filename modified_time =
    let (yyyy, mm) = parse_timestamp os modified_time in
    let r1 = replace template "{yyyy}" yyyy in
    let r2 = replace r1 "{mm}" mm in
    let r3 = replace r2 "{sha8}" (take_text 8 sha) in
    replace r3 "{original}" (sanitize_filename filename)

unfoldable pub render_storage_relative_path :
    Os → String → String → String → String → Result (List String)
unfolding path_parts has_parent_part starts
render_storage_relative_path os template sha filename modified_time =
    let rendered = render_text os template sha filename modified_time in
    let parts = path_parts rendered in
    if starts "/" rendered
    then err template_not_relative
    else if has_parent_part parts
    then err template_unsafe_parts
    else ok parts

-- root / relative
unfoldable pub join : String → List String → String
unfolding cat
join root [] = root
join root (p ∷ ps) = join (cat root (cat "/" p)) ps

-- The stem and the suffix of a name: the last dot counts if text stands on both sides.
stem_suffix_of : String → Option (String × String) → String × String
unfolding cat
stem_suffix_of name none = (name, "")
stem_suffix_of name (some (a, b)) = if (a == "") || (b == "") then (name, "") else (a, cat "." b)

unfoldable pub stem_suffix : String → String × String
unfolding stem_suffix_of split_last
stem_suffix name = stem_suffix_of name (split_last "." name)

-- The parent and the name of a path.
abbrev parent_name_of : String → Option (String × String) → String × String
parent_name_of path none = (".", path)
parent_name_of path (some (parent, name)) = (parent, name)

unfoldable pub parent_name : String → String × String
unfolding split_last
parent_name path = parent_name_of path (split_last "/" path)

-- parent / f"{stem}-{index}{suffix}"
unfoldable pub candidate : String → ℕ → String
unfolding parent_name stem_suffix cat decimal
candidate base index =
    let (parent, name) = parent_name base in
    let (stem, suffix) = stem_suffix name in
    cat parent (cat "/" (cat stem (cat "-" (cat (decimal index) suffix))))

-- The loop over the indices, `left` of which remain.
unfoldable pub try_candidates : Fs → String → ℕ → ℕ → ℕ → Result String
try_candidates fs base attempts zero index = err (collision_threshold base attempts)
try_candidates fs base attempts (suc left) index =
    let rest = try_candidates fs base attempts left (index + 1) in
    if exists (candidate base index) fs then rest else ok (candidate base index)

unfoldable pub choose_collision_safe_destination_with_threshold : Fs → String → ℕ → Result String
unfolding try_candidates
choose_collision_safe_destination_with_threshold fs base attempts =
    if ltb attempts 1
    then err max_attempts_too_small
    else if exists base fs
    then try_candidates fs base attempts attempts 1
    else ok base

abbrev pub default_attempts : ℕ
default_attempts = 10000

unfoldable pub choose_collision_safe_destination : Fs → String → Result String
unfolding choose_collision_safe_destination_with_threshold
choose_collision_safe_destination fs base =
    choose_collision_safe_destination_with_threshold fs base default_attempts

-- `_ensure_within_root`: raises unless the resolved path is the resolved root or below it
unfoldable pub is_within : Os → String → String → Bool
unfolding starts cat
is_within os path root =
    starts (cat (os.resolve root) "/") (os.resolve path) || os.resolve path == os.resolve root

abbrev pub ensure_within_root : Os → String → String → Result (Unit {0})
ensure_within_root os path root = if is_within os path root then ok tt else err (escapes_root path)
