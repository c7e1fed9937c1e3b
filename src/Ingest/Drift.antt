-- ===== src/Ingest/Drift.antt =====
-- The files that stay in the staging folder: `cleanup_staging_tmp_files` and
-- `reconcile_staging_drift` of src/nightfall_photo_ingress/domain/ingest.py.
pub mod Untouched
use nightfall_photo_ingress.Base.{
  ℕ, ◌+◌, ◌*◌, String, Bool, true, false, not, ◌&&◌, Option, none, some, List, [], ◌∷◌, ◌++◌, ◌==◌,
  leb, ltb, option_or, if◌then◌else◌,
}
use nightfall_photo_ingress.Text.{cat, decimal}
use nightfall_photo_ingress.World.{Fs, content, put, remove, exists}
use nightfall_photo_ingress.Storage.Render.{parent_name, stem_suffix}

-- The settings, the clock in seconds, and the age of a file in seconds, if `stat` gives one.
pub record DriftCall : Type 0 where
  pub quarantine_dir : String
  pub tmp_ttl_minutes : ℕ
  pub failed_ttl_hours : ℕ
  pub orphan_ttl_days : ℕ
  pub warning_threshold : ℕ
  pub now : ℕ
  pub age : String → Option ℕ

pub data DriftCategory : Type 0 where
  stale_temp completed_unpersisted orphan_unknown : DriftCategory

abbrev pub category_name : DriftCategory → String
category_name stale_temp = "stale_temp"
category_name completed_unpersisted = "completed_unpersisted"
category_name orphan_unknown = "orphan_unknown"

-- The dataclass `StagingDriftReport`.
pub record StagingDriftReport : Type 0 where
  pub stale_temp_count : ℕ
  pub completed_unpersisted_count : ℕ
  pub orphan_unknown_count : ℕ
  pub quarantined_count : ℕ
  pub warnings : List String

-- max(1, n)
abbrev at_least_one : ℕ → ℕ
at_least_one n = if leb n 1 then 1 else n

unfoldable pub is_tmp : String → Bool
unfolding parent_name stem_suffix
is_tmp path = (stem_suffix (parent_name path).1).1 == ".tmp"

-- The files with the suffix are removed that are old enough, of those that `rglob` lists.
unfoldable pub cleanup_staging_tmp_files : DriftCall → List String → Fs → ℕ × Fs
unfolding remove
cleanup_staging_tmp_files call [] fs = (0, fs)
cleanup_staging_tmp_files call (tmp ∷ tmps) fs =
    let expired = ltb (at_least_one call.tmp_ttl_minutes * 60) (option_or (call.age tmp) 0) in
    let (removed, fs') =
      cleanup_staging_tmp_files call tmps (if expired then remove tmp fs else fs) in
    (if expired then removed + 1 else removed, fs')

module _ (call : DriftCall) where
  category_by_age : Bool → ℕ → Option DriftCategory
  category_by_age tmp age =
      if tmp && ltb (at_least_one call.tmp_ttl_minutes * 60) age
      then some stale_temp
      else if not tmp && ltb (at_least_one call.orphan_ttl_days * 86400) age
      then some orphan_unknown
      else if not tmp && ltb (at_least_one call.failed_ttl_hours * 3600) age
      then some completed_unpersisted
      else none

  unfoldable pub category_of : String → Option DriftCategory
  unfolding category_by_age is_tmp
  category_of path = elim (call.age path) [
    | none ↦ none
    | some age ↦ category_by_age (is_tmp path) age
  ]

  -- category / name, with the time in the name if there is such a file
  unfoldable pub drift_name : Fs → DriftCategory → String → String
  unfolding cat decimal parent_name stem_suffix content
  drift_name fs category path =
      let name = (parent_name path).1 in
      let (stem, suffix) = stem_suffix name in
      let folder = cat (category_name category) "/" in
      if exists (cat (cat call.quarantine_dir "/") (cat folder name)) fs
      then cat folder (cat stem (cat "-" (cat (decimal call.now) suffix)))
      else cat folder name

  unfoldable pub drift_target : Fs → DriftCategory → String → String
  unfolding cat drift_name
  drift_target fs category path = cat (cat call.quarantine_dir "/") (drift_name fs category path)

  -- The category of a path that is a file.
  unfoldable pub drifted : Fs → String → Option DriftCategory
  unfolding category_of content
  drifted fs path = if exists path fs then category_of path else none

  unfoldable pub quarantined : Option DriftCategory → String → Fs → Fs
  unfolding drift_target put remove content
  quarantined none path fs = fs
  quarantined (some category) path fs =
      put (drift_target fs category path) (option_or (content path fs) []) (remove path fs)

  unfoldable pub count_drift : Option DriftCategory → StagingDriftReport → StagingDriftReport
  count_drift none r = r
  count_drift (some stale_temp) r = record r {
    stale_temp_count = r.stale_temp_count + 1;
    quarantined_count = r.quarantined_count + 1;
  }
  count_drift (some completed_unpersisted) r = record r {
    completed_unpersisted_count = r.completed_unpersisted_count + 1;
    quarantined_count = r.quarantined_count + 1;
  }
  count_drift (some orphan_unknown) r = record r {
    orphan_unknown_count = r.orphan_unknown_count + 1;
    quarantined_count = r.quarantined_count + 1;
  }

  -- The loop over what `rglob` lists.
  unfoldable pub reconcile_files : List String → Fs → StagingDriftReport × Fs
  unfolding drifted quarantined count_drift
  reconcile_files [] fs = (
    record {
      stale_temp_count = 0;
      completed_unpersisted_count = 0;
      orphan_unknown_count = 0;
      quarantined_count = 0;
      warnings = [];
    },
    fs,
  )
  reconcile_files (path ∷ paths) fs =
      let category = drifted fs path in
      let (report, fs') = reconcile_files paths (quarantined category path fs) in
      (count_drift category report, fs')

  -- The warning for a count that reaches the threshold.
  unfoldable pub warning : String → ℕ → List String
  unfolding cat decimal
  warning reason n =
      if leb call.warning_threshold n
      then cat reason (cat "_threshold_exceeded:" (decimal n)) ∷ []
      else []

  unfoldable pub reconcile_staging_drift : List String → Fs → StagingDriftReport × Fs
  unfolding reconcile_files warning
  reconcile_staging_drift paths fs =
      let (r, fs') = reconcile_files paths fs in
      (
        record r {
          warnings =
              warning "stale_temp" r.stale_temp_count
              ++ warning "completed_unpersisted" r.completed_unpersisted_count
              ++ warning "orphan_unknown" r.orphan_unknown_count;
        },
        fs',
      )
