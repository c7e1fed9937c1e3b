-- ===== src/Ingest/Policy.antt =====
-- What the engine decides from the registry before and after hashing: the metadata pre-filter, the
-- block rules, and the removal of problematic files
-- (src/nightfall_photo_ingress/domain/ingest.py).
use nightfall_photo_ingress.Base.{
  ℕ, String, Bool, false, ◌&&◌, ◌||◌, Option, none, some, List, [], ◌∷◌, ◌==◌, eqb, if◌then◌else◌,
}
use nightfall_photo_ingress.Base.Exec.{Exec, gets, ◌>>=◌}
use nightfall_photo_ingress.Sql.{find_first, select_where}
use nightfall_photo_ingress.Text.{cat, decimal}
use nightfall_photo_ingress.Registry.Schema.{Db, MetadataRow, BlockedRow, has_sha}
use nightfall_photo_ingress.Registry.Conn.{is_allowed}
use nightfall_photo_ingress.World.{Os, World, exists, unlink, rename}
use nightfall_photo_ingress.Storage.Render.{parent_name, stem_suffix}
use nightfall_photo_ingress.Ingest.Candidate.{StagedCandidate}

-- m.size_bytes = ?, where an unknown size is passed as -1
abbrev size_matches : Option ℕ → ℕ → Bool
size_matches none n = false
size_matches (some m) n = eqb n m

abbrev pub metadata_matches : StagedCandidate → MetadataRow → Bool
metadata_matches c m =
    (m.account_name == c.account_name)
    && (m.onedrive_id == c.onedrive_id)
    && size_matches c.size_bytes m.size_bytes
    && (m.modified_time == c.modified_time)

-- The rows of the JOIN with `files`, which has one row for a hash.
joined : List MetadataRow → Db → Option (String × String)
joined [] db = none
joined (m ∷ ms) db =
    let rest = joined ms db in
    elim (find_first (has_sha m.sha256) db.files) [
      | none ↦ rest
      | some f ↦ some (f.status, m.sha256)
    ]

abbrev allowed_only : Option (String × String) → Option (String × String)
allowed_only none = none
allowed_only (some (status, sha)) = if is_allowed status then some (status, sha) else none

-- `_prefilter_status`: the status and hash on record for exactly this metadata
unfoldable pub prefilter_status : StagedCandidate → Db → Option (String × String)
unfolding joined
prefilter_status c db =
    allowed_only (joined (select_where (metadata_matches c) db.metadata_index) db)

-- Whether an enabled rule matches a name; an invalid regular expression does not.
abbrev rule_matches : Os → String → BlockedRow → Bool
rule_matches os filename r =
    (r.rule_type == "filename" && os.fnmatch filename r.pattern_text)
    || (r.rule_type == "regex"
        && elim (os.re_search r.pattern_text filename) [ none ↦ false | some b ↦ b ])

-- `_match_block_rule`: the first enabled rule, in the order of ids
unfoldable pub match_block_rule : Os → String → Db → Option (String × String)
match_block_rule os filename db =
    elim (find_first (λ r. r.enabled && rule_matches os filename r) db.blocked_rules) [
      | none ↦ none
      | some r ↦ some (r.rule_type, r.pattern_text)
    ]

-- `_handle_quarantine_or_delete`
quarantine_target : Os → String → World → String
unfolding parent_name stem_suffix cat decimal
quarantine_target os target w =
    let (parent, name) = parent_name target in
    let (stem, suffix) = stem_suffix name in
    if exists target w.fs
    then cat parent (cat "/" (cat stem (cat "-" (cat (decimal (os.epoch_seconds w.reads)) suffix))))
    else target

unfoldable pub handle_quarantine_or_delete : Os → String → Option String → String → Exec World Unit
unfolding quarantine_target
handle_quarantine_or_delete os path none category = unlink path
handle_quarantine_or_delete os path (some dir) category = do
  let plain = cat dir (cat "/" (cat category (cat "/" (parent_name path).1)))
  target ← gets (quarantine_target os plain)
  rename path target
