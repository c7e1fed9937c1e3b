-- ===== src/Ingest/Drift/Untouched.antt =====
-- What the reconciliation of the staging folder leaves alone (`reconcile_staging_drift` of
-- src/nightfall_photo_ingress/domain/ingest.py).
use mathlib.Core.Path.{subst}
use nightfall_photo_ingress.Base.{
  ◌+◌, String, Bool, true, false, ◌≡◌, refl, sym, ◌∙◌, Option, none, some, List, [], ◌∷◌, ◌==◌,
  eq_iff, is_some, option_or, Bool-cases, inl, inr, arith,
}
use nightfall_photo_ingress.Text.{cat, starts}
use nightfall_photo_ingress.World.{Fs, content, remove, exists}
use nightfall_photo_ingress.World.Laws.{content-remove, content-put}
use nightfall_photo_ingress.Ingest.Drift.{
  DriftCall, DriftCategory, stale_temp, completed_unpersisted, orphan_unknown, StagingDriftReport,
  category_of, drift_name, drift_target, drifted, quarantined, count_drift, reconcile_files,
  reconcile_staging_drift,
}

starts-cat : (p s : String) → starts p (cat p s) ≡ true
unfolding starts cat
starts-cat String.[] s = refl
starts-cat (String.◌∷◌ c p) s = ground (arith, starts-cat p s)

-- Texts that a test tells apart differ.
told_apart :
    (test : String → Bool) (a b : String) → test a ≡ true → test b ≡ false → (a == b) ≡ false
told_apart test a b passes fails = elim (Bool-cases (a == b)) [
  | inl same ↦
      absurd (true_false (sym (subst (λ c. test c ≡ true) ((eq_iff a b).0 same) passes) ∙ fails))
  | inr other ↦ other
]
  where
    true_false : true ≡ false → ⊥
    true_false x = cc

-- A report whose counts add up.
AddsUp : StagingDriftReport → Type 0
AddsUp r =
    r.quarantined_count
    ≡ r.stale_temp_count + r.completed_unpersisted_count + r.orphan_unknown_count

module _ (call : DriftCall) where
  count_drift-AddsUp :
      (c : Option DriftCategory) (r : StagingDriftReport) → AddsUp r → AddsUp (count_drift call c r)
  unfolding count_drift AddsUp
  count_drift-AddsUp none r h = h
  count_drift-AddsUp (some stale_temp) r h = omega (arith, h)
  count_drift-AddsUp (some completed_unpersisted) r h = omega (arith, h)
  count_drift-AddsUp (some orphan_unknown) r h = omega (arith, h)

  reconcile_files-AddsUp :
      (paths : List String) (fs : Fs) → AddsUp (reconcile_files call paths fs).0
  unfolding reconcile_files AddsUp
  reconcile_files-AddsUp [] fs = refl
  reconcile_files-AddsUp (path ∷ paths) fs =
      count_drift-AddsUp (drifted call fs path) _
        (reconcile_files-AddsUp paths (quarantined call (drifted call fs path) path fs))

  -- A path that is not old and not in the quarantine.
  record IsApart (p : String) : Type 0 where
    not_old : category_of call p ≡ none
    outside : starts (cat call.quarantine_dir "/") p ≡ false

  -- Every target is in the quarantine.
  drift_target-starts :
      (fs : Fs) (category : DriftCategory) (path : String)
      → starts (cat call.quarantine_dir "/") (drift_target call fs category path) ≡ true
  unfolding drift_target
  drift_target-starts fs category path =
      starts-cat (cat call.quarantine_dir "/") (drift_name call fs category path)

  drifted-some :
      (fs : Fs) (path : String) (category : DriftCategory)
      → drifted call fs path ≡ some category
      → category_of call path ≡ some category
  unfolding drifted
  drifted-some fs path category e = elim (Bool-cases (exists path fs)) [
    | inl here ↦ rw here at e
    | inr gone ↦ absurd (none_some (rw gone at e))
  ]
    where
      none_some : ◌≡◌ {A = Option DriftCategory} none (some category) → ⊥
      none_some x = cc

  quarantined-content :
      (p path : String) (fs : Fs) (c : Option DriftCategory)
      → IsApart p
      → drifted call fs path ≡ c
      → content p (quarantined call c path fs) ≡ content p fs
  unfolding quarantined
  quarantined-content p path fs none apart e = refl
  quarantined-content p path fs (some category) apart e =
      let target = drift_target call fs category path in
      let old = drifted-some fs path category e in
      content-put p target (option_or (content path fs) []) (remove path fs)
      ∙ rw
          (
            told_apart (starts (cat call.quarantine_dir "/")) target p
                (drift_target-starts fs category path) apart.outside,
            content-remove p path fs,
            told_apart (λ q. is_some (category_of call q)) path p (rw old refl)
                (rw apart.not_old refl),
          )
          refl

  reconcile_files-content :
      (p : String) (paths : List String) (fs : Fs)
      → IsApart p
      → content p (reconcile_files call paths fs).1 ≡ content p fs
  unfolding reconcile_files
  reconcile_files-content p [] fs apart = refl
  reconcile_files-content p (path ∷ paths) fs apart =
      reconcile_files-content p paths (quarantined call (drifted call fs path) path fs) apart
      ∙ quarantined-content p path fs (drifted call fs path) apart refl

-- A reconciliation leaves alone what is neither too old, by the limits for its kind of file, nor in the
-- quarantine: such a path holds afterwards what it held before. It reports as many quarantined files
-- as the three counts add up to.
pub reconcile_staging_drift-Untouched :
    (call : DriftCall) (paths : List String) (fs : Fs) (p : String)
    → category_of call p ≡ none
    → starts (cat call.quarantine_dir "/") p ≡ false
    → let (r, fs') = reconcile_staging_drift call paths fs in
      (content p fs' ≡ content p fs)
      × (r.quarantined_count
          ≡ r.stale_temp_count + r.completed_unpersisted_count + r.orphan_unknown_count)
unfolding reconcile_staging_drift AddsUp
reconcile_staging_drift-Untouched call paths fs p not_old outside = (
  reconcile_files-content call p paths fs (record { not_old = not_old; outside = outside }),
  reconcile_files-AddsUp call paths fs,
)
