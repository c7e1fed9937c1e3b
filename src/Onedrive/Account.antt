-- ===== src/Onedrive/Account.antt =====
-- What a poll keeps of an account: its cursor, its resync marker, the incidents of its circuit
-- breaker, and the temporary files that it recovers
-- (src/nightfall_photo_ingress/adapters/onedrive/client.py).
use nightfall_photo_ingress.Base.{
  ℕ, ◌+◌, String, Bool, false, not, ◌&&◌, ◌||◌, Option, none, some, List, [], ◌∷◌, ◌==◌, ltb,
  option_or, if◌then◌else◌, contains,
}
use nightfall_photo_ingress.Base.Exec.{ok, Exec, pure, modify, ◌>>◌}
use nightfall_photo_ingress.Text.{cat, strip, is_space, decimal, split}
use nightfall_photo_ingress.Storage.Render.{parent_name}
use nightfall_photo_ingress.Onedrive.Delta.{RawItem}
use nightfall_photo_ingress.Onedrive.Staging.{
  Remote, PollSettings, DownloadedHandoffCandidate, Counts, record_ghost_reason, Staging,
  replace_file,
}

-- The account, the settings of the poll, what the clock says of it (the time in seconds, a timestamp,
-- and the seconds since the start at each page), and the temporary files that are old enough.
pub record Account : Type 0 where
  pub settings : PollSettings
  pub root : String
  pub max_downloads : ℕ
  pub max_delta_pages : ℕ
  pub max_runtime_seconds : ℕ
  pub delta_loop_resync_threshold : ℕ
  pub delta_breaker_ghost_threshold : ℕ
  pub delta_breaker_stale_page_threshold : ℕ
  pub delta_breaker_cooldown_seconds : ℕ
  pub now_epoch : ℕ
  pub now : String
  pub elapsed : ℕ → ℕ
  pub stale_tmp : List String

-- The marker file of a resync, without its time.
pub record ResyncMarker : Type 0 where
  pub reason : String
  pub resync_url : Option String

-- The incident state, an object with two keys.
pub record Incidents : Type 0 where
  pub cooldown_until_epoch : Option ℕ
  pub loop_incidents : Option ℕ

-- The files of the account, its counters, and the pages handed to the ingest.
pub record Poll : Type 0 where
  pub staging : Staging
  pub cursor : Option String
  pub marker : Option ResyncMarker
  pub incidents : Incidents
  pub anomalies : Counts
  pub handed : List (List DownloadedHandoffCandidate)

-- `_load_cursor`
unfoldable pub load_cursor : Option String → Option String
unfolding strip is_space
load_cursor none = none
load_cursor (some text) = let s = strip is_space text in if s == "" then none else some s

-- An action on the staging part.
abbrev pub on_staging : {A : Type 0} → Exec Staging A → Exec Poll A
on_staging m p = let (r, s) = m p.staging in (r, record p { staging = s })

unfoldable pub anomaly : String → ℕ → Exec Poll Unit
unfolding record_ghost_reason
anomaly reason n = modify (λ p. record p { anomalies = record_ghost_reason reason n p.anomalies })

-- `_mark_resync_required`
abbrev pub mark_resync_required : String → Option String → Exec Poll Unit
mark_resync_required reason url =
    modify (λ p. record p { marker = some (record { reason = reason; resync_url = url }) })

-- `_save_cursor`, and `_clear_resync_marker`, which always follows
abbrev pub save_cursor : String → Exec Poll Unit
save_cursor link = modify (λ p. record p { cursor = some link; marker = none })

-- `_increment_loop_incident`
abbrev pub increment_loop_incident : Exec Poll ℕ
increment_loop_incident p =
    let n = option_or p.incidents.loop_incidents 0 + 1 in
    (ok n, record p { incidents = record p.incidents { loop_incidents = some n } })

-- `_reset_loop_incidents`
abbrev pub reset_loop_incidents : Exec Poll Unit
reset_loop_incidents =
    modify (λ p. record p { incidents = record p.incidents { loop_incidents = some 0 } })

-- `_arm_breaker_cooldown`
abbrev pub arm_breaker_cooldown : ℕ → ℕ → Exec Poll Unit
arm_breaker_cooldown now seconds = modify (λ p. record p {
  incidents = record p.incidents { cooldown_until_epoch = some (now + seconds) };
})

-- `_is_breaker_cooldown_active`
abbrev pub is_breaker_cooldown_active : ℕ → Incidents → Bool
is_breaker_cooldown_active now i = elim i.cooldown_until_epoch [
  | none ↦ false
  | some until ↦ ltb now until
]

-- The part of `_build_initial_delta_url` from the segments of the root on: `quote` of each, joined.
unfoldable pub quoted_segments : Remote → List String → String
unfolding cat
quoted_segments remote [] = ""
quoted_segments remote (p ∷ ps) =
    let rest = quoted_segments remote ps in
    if p == "" then rest else cat "/" (cat (remote.quote p) rest)

unfoldable pub build_initial_delta_url : Remote → String → String
unfolding quoted_segments cat split strip is_space
build_initial_delta_url remote root =
    let segments = quoted_segments remote (split "/" (strip is_space root)) in
    cat "https://graph.microsoft.com/v1.0/me/drive/root:"
      (cat (if segments == "" then "/" else segments) ":/delta")

-- `_count_replayed_item_ids`: the ids seen, and how many were seen before
unfoldable pub count_replayed_item_ids : List String → List (Option RawItem) → List String × ℕ
count_replayed_item_ids seen [] = (seen, 0)
count_replayed_item_ids seen (none ∷ items) = count_replayed_item_ids seen items
count_replayed_item_ids seen (some raw ∷ items) =
    let id = option_or raw.id "" in
    let again = contains id seen in
    let (seen', n) =
      count_replayed_item_ids (if (id == "") || again then seen else id ∷ seen) items in
    (seen', if not (id == "") && again then n + 1 else n)

-- `_recover_staging_tmp_files`, on the files that are old enough
unfoldable pub recover_staging_tmp_files : Remote → ℕ → String → List String → Exec Staging Unit
unfolding cat decimal parent_name replace_file
recover_staging_tmp_files remote now root [] = pure tt
recover_staging_tmp_files remote now root (path ∷ rest) = do
  let name = (parent_name path).1
  replace_file remote path
      (cat root (cat "/_recovery_quarantine/" (cat name (cat "." (decimal now)))))
  recover_staging_tmp_files remote now root rest
