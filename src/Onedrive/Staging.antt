-- ===== src/Onedrive/Staging.antt =====
-- The download of the candidates of a page into the staging folder of an account
-- (`download_candidates` and what it calls in
-- src/nightfall_photo_ingress/adapters/onedrive/client.py). The counters that no result exports are
-- left out.
pub mod Deliver
use Prim.Native.Char.{Char, code}
use nightfall_photo_ingress.Base.{
  ℕ, zero, suc, ◌+◌, String, Bool, true, false, not, ◌&&◌, ◌||◌, Option, none, some, List, [], ◌∷◌,
  ◌++◌, ◌==◌, eqb, leb, is_some, option_or, if◌then◌else◌, contains,
}
use nightfall_photo_ingress.Base.Exec.{
  Error, os_error, file_not_found, download_failed, graph_failed, Result, ok, err, Exec, pure,
  raise, gets, modify, ◌>>=◌, ◌>>◌,
}
use nightfall_photo_ingress.Text.{cat, strip, take_text, lower, text_length, all_chars}
use nightfall_photo_ingress.World.{Fs, content, put, remove}
use nightfall_photo_ingress.Storage.Render.{stem_suffix, path_parts}
use nightfall_photo_ingress.LivePhoto.{last_part}
use nightfall_photo_ingress.Registry.HashCache.{take}
use nightfall_photo_ingress.Onedrive.Retry.{RetryPolicy, Clockwork}
use nightfall_photo_ingress.Onedrive.Download.{Reply, Session, download_with_retry}
use nightfall_photo_ingress.Onedrive.Graph.{GraphReply, Refresh, GraphSession, graph_get_json}
use nightfall_photo_ingress.Onedrive.Delta.{RawItem, RemoteCandidate}

-- The fields that the code reads of a JSON object of Graph.
pub record Payload : Type 0 where
  pub value : Option (List (Option RawItem))
  pub next_link : Option String
  pub delta_link : Option String
  pub download_url : Option String

-- The other side: what the n-th call gets, for a GET by its address, attempt and token, for a
-- download by its address and attempt; the refresh of the token at the n-th call; whether the disk
-- fails in the n-th call, where the code does not look at that; and `quote` and hashlib's digest of a
-- text, cut to eight digits.
pub record Remote : Type 0 where
  pub graph : ℕ → String → ℕ → String → GraphReply Payload
  pub body : ℕ → String → ℕ → Reply
  pub refresh : ℕ → Refresh
  pub disk_fails : ℕ → Bool
  pub quote : String → String
  pub digest8 : String → String

-- The settings of a poll.
pub record PollSettings : Type 0 where
  pub clockwork : Clockwork
  pub policy : RetryPolicy
  pub token : String
  pub staging_root : String
  pub account_name : String
  pub integrity_mode : String

-- The dataclass `DownloadedHandoffCandidate`.
pub record DownloadedHandoffCandidate : Type 0 where
  pub account_name : String
  pub onedrive_id : String
  pub original_filename : String
  pub relative_path : String
  pub modified_time : String
  pub size_bytes : Option ℕ
  pub staging_path : String

-- A line of the lifecycle journal, without its time.
pub record LifecycleEvent : Type 0 where
  pub event : String
  pub item_id : String
  pub path : String

-- A counter for each reason, as a dict.
abbrev pub Counts : Type 0
Counts = List (String × ℕ)

-- `_record_ghost_reason`
unfoldable pub record_ghost_reason : String → ℕ → Counts → Counts
record_ghost_reason reason n [] = (reason, n) ∷ []
record_ghost_reason reason n ((k, m) ∷ counts) =
    if k == reason then (k, m + n) ∷ counts else (k, m) ∷ record_ghost_reason reason n counts

pub record Staging : Type 0 where
  pub session : Session
  pub graph : GraphSession
  pub calls : ℕ
  pub ghosts : Counts
  pub journal : List LifecycleEvent
  pub manifest : List DownloadedHandoffCandidate

-- [A-Za-z0-9._-], the characters that `_SAFE_STAGING_BASENAME_RE` leaves
unfoldable pub is_base_char : Char → Bool
is_base_char c =
    let n = code c in
    (leb 97 n && leb n 122)
    || (leb 65 n && leb n 90)
    || (leb 48 n && leb n 57)
    || eqb n 46
    || eqb n 95
    || eqb n 45

unfoldable pub is_base_edge : Char → Bool
is_base_edge c = let n = code c in eqb n 46 || eqb n 95 || eqb n 45

-- re.sub("[^A-Za-z0-9._-]+", "_", s): one underscore for each run
sub_runs : Bool → String → String
unfolding is_base_char
sub_runs in_run String.[] = String.[]
sub_runs in_run (String.◌∷◌ c s) = elim (is_base_char c) [
  | true ↦ String.◌∷◌ c (sub_runs false s)
  | false ↦ let rest = sub_runs true s in if in_run then rest else String.◌∷◌ "_" rest
]

unfoldable pub safe_staging_basename : String → String
unfolding sub_runs strip is_base_edge take_text
safe_staging_basename item_id =
    let sanitized = strip is_base_edge (sub_runs false item_id) in
    if sanitized == "" then "item" else take_text 120 sanitized

unfoldable pub unique_staging_basename : Remote → String → List String → String × List String
unfolding safe_staging_basename cat
unique_staging_basename remote item_id used =
    let base = safe_staging_basename item_id in
    let candidate = cat base (cat "-" (remote.digest8 item_id)) in
    if contains base used then (candidate, candidate ∷ used) else (base, base ∷ used)

unfoldable pub is_extension_char : Char → Bool
is_extension_char c =
    let n = code c in (leb 97 n && leb n 122) || (leb 65 n && leb n 90) || (leb 48 n && leb n 57)

-- fullmatch of "\.[A-Za-z0-9]{1,16}$", on a suffix, which begins with a dot
unfoldable pub is_safe_suffix : String → Bool
unfolding all_chars is_extension_char text_length
is_safe_suffix String.[] = false
is_safe_suffix (String.◌∷◌ dot rest) =
    not (rest == "") && all_chars is_extension_char rest && leb (text_length rest) 16

unfoldable pub safe_extension : String → String
unfolding path_parts stem_suffix is_safe_suffix lower
safe_extension name =
    let suffix = (stem_suffix (last_part (path_parts name))).1 in
    if is_safe_suffix suffix then lower suffix else ".bin"

-- The paths of one candidate.
pub record Paths : Type 0 where
  pub tmp_path : String
  pub final_path : String
  pub quarantine_path : String

unfoldable pub paths_of : PollSettings → String → String → Paths
unfolding cat safe_extension
paths_of ps base name =
    let target_root = cat ps.staging_root (cat "/" ps.account_name) in
    let file = cat base (safe_extension name) in
    record {
      tmp_path = cat target_root (cat "/" (cat base ".tmp"));
      final_path = cat target_root (cat "/" file);
      quarantine_path = cat target_root (cat "/_quarantine/" file);
    }

unfoldable pub ghost : String → Exec Staging Unit
unfolding record_ghost_reason
ghost reason = modify (λ s. record s { ghosts = record_ghost_reason reason 1 s.ghosts })

abbrev pub set_files : Staging → Fs → Staging
set_files s fs = record s { session = record s.session { fs = fs } }

abbrev pub next_call : Staging → Staging
next_call s = record s { calls = suc s.calls }

-- A call of the disk that may raise, and then leaves the files as they were.
abbrev pub unless_failing : Bool → Exec Staging Unit → Exec Staging Unit
unless_failing true call s = (err os_error, next_call s)
unless_failing false call s = call (next_call s)

unfoldable pub on_disk : Remote → Exec Staging Unit → Exec Staging Unit
on_disk remote call s = unless_failing (remote.disk_fails s.calls) call s

-- `_append_lifecycle_event`
abbrev pub log_event : String → String → String → Exec Staging Unit
log_event event item path = modify (λ s. record s {
  journal = s.journal ++ record { event = event; item_id = item; path = path } ∷ [];
})

unfoldable pub lifecycle : Remote → String → String → String → Exec Staging Unit
unfolding on_disk
lifecycle remote event item path = on_disk remote (log_event event item path)

abbrev pub unlink_now : String → Exec Staging Unit
unlink_now p = modify (λ s. set_files s (remove p s.session.fs))

-- path.unlink(missing_ok=True)
unfoldable pub unlink_file : Remote → String → Exec Staging Unit
unfolding on_disk
unlink_file remote p = on_disk remote (unlink_now p)

abbrev pub replace_now : String → String → Exec Staging Unit
replace_now p q s = elim (content p s.session.fs) [
  | none ↦ (err (file_not_found p), s)
  | some bytes ↦ (ok tt, set_files s (put q bytes (remove p s.session.fs)))
]

-- path.replace(target)
unfoldable pub replace_file : Remote → String → String → Exec Staging Unit
unfolding on_disk
replace_file remote p q = on_disk remote (replace_now p q)

-- try: … except DownloadError: the code and the status of the failure, if there is one
abbrev pub caught : Result (Unit {0}) → Result (Option (String × Option ℕ))
caught (ok tt) = ok none
caught (err (download_failed f)) = ok (some f)
caught (err e) = err e

-- `_is_download_url_unreachable`
unfoldable pub is_download_url_unreachable : String × Option ℕ → Bool
is_download_url_unreachable (code, none) = false
is_download_url_unreachable (code, some status) = eqb status 401 || eqb status 403 || eqb status 404

abbrev pub handoff_of : RemoteCandidate → Paths → DownloadedHandoffCandidate
handoff_of c paths = record {
  account_name = c.account_name;
  onedrive_id = c.item_id;
  original_filename = c.name;
  relative_path = c.relative_path;
  modified_time = c.normalized_modified_time;
  size_bytes = c.size_bytes;
  staging_path = paths.final_path;
}

abbrev pub log_handoff : RemoteCandidate → Paths → Exec Staging Unit
log_handoff c paths = modify (λ s. record s { manifest = s.manifest ++ handoff_of c paths ∷ [] })

-- `_append_boundary_handoff_entry`
unfoldable pub hand_off : Remote → RemoteCandidate → Paths → Exec Staging Unit
unfolding on_disk
hand_off remote c paths = on_disk remote (log_handoff c paths)

module _ (remote : Remote) (ps : PollSettings) where
  abbrev pub graph_get : String → Exec Staging Payload
  graph_get url s =
      let (r, g) =
        graph_get_json ps.clockwork ps.policy (remote.graph s.calls url) (remote.refresh s.calls)
          ps.token s.graph in
      (r, record s { graph = g; calls = suc s.calls })

  unfoldable pub download : String → String → Option ℕ → Exec Staging (Option (String × Option ℕ))
  unfolding download_with_retry
  download url destination expected s =
      let (r, session) =
        download_with_retry ps.clockwork ps.policy destination (remote.body s.calls url) expected
          s.session in
      (caught r, record s { session = session; calls = suc s.calls })

  abbrev pub not_found : Result Payload → Result (Option String × String)
  not_found (ok p) = elim p.download_url [
    | none ↦ ok (none, "ghost_missing_download_url_after_refresh")
    | some url ↦
        if url == ""
        then ok (none, "ghost_missing_download_url_after_refresh")
        else ok (some url, "download_url_refreshed")
  ]
  not_found (err (graph_failed (code, some status))) =
      if eqb status 404
      then ok (none, "ghost_item_not_found_on_refresh")
      else err (graph_failed (code, some status))
  not_found (err e) = err e

  -- `_resolve_download_url_once`
  unfoldable pub resolve_download_url_once : String → Exec Staging (Option String × String)
  unfolding graph_get_json cat
  resolve_download_url_once item_id s =
      let url = cat "https://graph.microsoft.com/v1.0/me/drive/items/" (remote.quote item_id) in
      let (r, s') = graph_get url s in (not_found r, s')

  -- The address that is used, or none after a note of the reason.
  unfoldable pub resolved : Option String × String → Exec Staging (Option String)
  unfolding record_ghost_reason
  resolved (none, reason) = do ghost reason; pure none
  resolved (some url, reason) = pure (some url)

  unfoldable pub initial_url : RemoteCandidate → Exec Staging (Option String)
  unfolding resolve_download_url_once record_ghost_reason resolved
  initial_url c =
      let given = option_or c.download_url "" in
      if not (given == "") then pure (some given) else (do
        ghost "delta_file_missing_download_url"
        found ← resolve_download_url_once c.item_id
        resolved found)

  -- The second failure of a candidate.
  unfoldable pub after_second : Paths → Option (String × Option ℕ) → Exec Staging Bool
  unfolding record_ghost_reason is_download_url_unreachable unlink_file
  after_second paths none = pure true
  after_second paths (some failure) = do
    unlink_file remote paths.tmp_path
    if is_download_url_unreachable failure
        then (do ghost "ghost_download_unreachable_after_refresh"; pure false)
        else raise (download_failed failure)

  unfoldable pub second_download : RemoteCandidate → Paths → Option String → Exec Staging Bool
  unfolding download after_second
  second_download c paths none = pure false
  second_download c paths (some url) = do
    outcome ← download url paths.tmp_path c.size_bytes
    after_second paths outcome

  -- The first failure of a candidate: the address is resolved once more.
  unfoldable pub after_first :
      RemoteCandidate → Paths → Option (String × Option ℕ) → Exec Staging Bool
  unfolding second_download resolved resolve_download_url_once record_ghost_reason
      is_download_url_unreachable unlink_file
  after_first c paths none = pure true
  after_first c paths (some failure) = do
    unlink_file remote paths.tmp_path
    if not (is_download_url_unreachable failure) then raise (download_failed failure) else (do
      found ← resolve_download_url_once c.item_id
      url ← resolved found
      second_download c paths url)

  -- Whether the bytes of the candidate are at its temporary path.
  unfoldable pub fetch : RemoteCandidate → Paths → Option String → Exec Staging Bool
  unfolding download after_first
  fetch c paths none = pure false
  fetch c paths (some url) = do
    outcome ← download url paths.tmp_path c.size_bytes
    after_first c paths outcome

  -- What follows a download: the quarantine for an unknown size, else the hand-off.
  unfoldable pub finish :
      RemoteCandidate → Paths → Bool → Exec Staging (Option DownloadedHandoffCandidate)
  unfolding record_ghost_reason lifecycle replace_file hand_off
  finish c paths false = pure none
  finish c paths true = do
    lifecycle remote "download_completed" c.item_id paths.tmp_path
    if not (is_some c.size_bytes) && (ps.integrity_mode == "tolerant")
        then (do
          replace_file remote paths.tmp_path paths.quarantine_path
          ghost "integrity_missing_expected_size_quarantined"
          lifecycle remote "download_quarantined" c.item_id paths.quarantine_path
          pure none)
        else (do
          replace_file remote paths.tmp_path paths.final_path
          lifecycle remote "ready_for_hash" c.item_id paths.final_path
          hand_off remote c paths
          pure (some (handoff_of c paths)))

  unfoldable pub stage_candidate :
      RemoteCandidate → Paths → Exec Staging (Option DownloadedHandoffCandidate)
  unfolding initial_url fetch finish record_ghost_reason lifecycle
  stage_candidate c paths =
      if not (is_some c.size_bytes) && (ps.integrity_mode == "strict")
      then (do ghost "integrity_missing_expected_size_blocked"; pure none)
      else (do
        lifecycle remote "download_started" c.item_id paths.tmp_path
        url ← initial_url c
        here ← fetch c paths url
        finish c paths here)

  abbrev pub and_handoff :
      Option DownloadedHandoffCandidate
      → List DownloadedHandoffCandidate
      → List DownloadedHandoffCandidate
  and_handoff none rows = rows
  and_handoff (some h) rows = h ∷ rows

  unfoldable pub stage_all :
      List String → List RemoteCandidate → Exec Staging (List DownloadedHandoffCandidate)
  unfolding stage_candidate unique_staging_basename paths_of
  stage_all used [] = pure []
  stage_all used (c ∷ cs) = do
    let name = unique_staging_basename remote c.item_id used
    staged ← stage_candidate c (paths_of ps name.0 c.name)
    more ← stage_all name.1 cs
    pure (and_handoff staged more)

  -- `download_candidates` without `reset_manifest`: no limit, or a limit that is 0, takes them all.
  unfoldable pub download_candidates :
      Option ℕ → List RemoteCandidate → Exec Staging (List DownloadedHandoffCandidate)
  unfolding stage_all take
  download_candidates limit candidates =
      let n = option_or limit 0 in stage_all [] (if eqb n 0 then candidates else take n candidates)
