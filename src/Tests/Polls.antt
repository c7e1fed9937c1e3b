-- ===== src/Tests/Polls.antt =====
-- The theorems on the polls of an account at concrete inputs, and runs of polls.
use nightfall_photo_ingress.Base.{
  true, ℕ, String, false, none, some, List, [], ◌∷◌, ◌++◌, ◌==◌, length, All, if◌then◌else◌, refl,
  ◌≡◌, ◌≤◌, ◌+◌, arith, contains,
}
use nightfall_photo_ingress.Base.Exec.{ok}
use nightfall_photo_ingress.World.{content, put}
use nightfall_photo_ingress.Onedrive.Retry.{classify_status}
use nightfall_photo_ingress.Onedrive.Download.{takes, response, size_error}
use nightfall_photo_ingress.Onedrive.Graph.{
  GraphReply, answered, refreshes, GraphSession, graph_get_json,
}
use nightfall_photo_ingress.Onedrive.Graph.Outcome.{IsAnswered, graph_get_json-bounds}
use nightfall_photo_ingress.Onedrive.Delta.{RemoteCandidate, entry_of, has_entry, set_entry}
use nightfall_photo_ingress.Onedrive.Staging.{
  Payload, Remote, PollSettings, Staging, Paths, handoff_of, stage_candidate,
}
use nightfall_photo_ingress.Onedrive.Staging.Deliver.{IsDelivered, stage_candidate-safe}
use nightfall_photo_ingress.Onedrive.Poll.{start_url, poll_account_once, before_page, diagnostic}
use nightfall_photo_ingress.Onedrive.Account.{Account, Poll}
use nightfall_photo_ingress.Onedrive.Poll.Chain.{IsCheckpoint}
use nightfall_photo_ingress.Onedrive.Poll.Cursor.{poll_account_once-IsCheckpoint}
use nightfall_photo_ingress.Onedrive.Single.{
  SingleCall, normal, critical, runtime_budget_exhausted_result, evaluate_drift_state,
  poll_single_account,
}
use nightfall_photo_ingress.Tests.Services.{policy, clockwork, session, item}

abbrev graph_session : GraphSession
graph_session = record {
  sleeps = [];
  graph_request_total = 0;
  retry_attempt_total = 0;
  retry_transport_error_total = 0;
  throttle_response_total = 0;
  resync_required_total = 0;
  auth_refresh_attempt_total = 0;
  auth_refresh_success_total = 0;
  auth_refresh_failure_total = 0;
}

-- A server that takes the second token only.
abbrev guarded : ℕ → String → GraphReply ℕ
guarded n token =
    if token == "new" then answered 200 none none (some 7) else answered 401 none none none

graph_get_json-bounds_example :
    let (result, s') =
      graph_get_json clockwork policy guarded (refreshes "new") "old" graph_session in
    (s'.graph_request_total ≤ 0 + 2)
    × (s'.auth_refresh_success_total ≤ 0 + 1)
    × ((more : List ℕ) × (s'.sleeps ≡ [] ++ more) × All (λ d. d ≤ 10) more × (length more ≤ 2))
    × IsAnswered guarded result
graph_get_json-bounds_example =
    graph_get_json-bounds clockwork policy guarded (refreshes "new") "old" graph_session

guarded_run :
    (graph_get_json clockwork policy guarded (refreshes "new") "old" graph_session).0 ≡ ok 7
unfolding graph_get_json classify_status
guarded_run = refl

-- The first page is at the cursor, the second at its next link, and its delta link ends the walk.
abbrev pages : String → Payload
pages url =
    if url == "https://graph/second"
    then record {
      value = some (some (item "2" "b.jpg") ∷ []);
      next_link = none;
      delta_link = some "https://graph/delta";
      download_url = none;
    }
    else record {
      value = some (some (item "1" "a.jpg") ∷ some (item "3" "c.jpg") ∷ []);
      next_link = some "https://graph/second";
      delta_link = none;
      download_url = none;
    }

abbrev remote : Remote
remote = record {
  graph = λ call url attempt token. answered 200 none none (some (pages url));
  body = λ call url attempt. response 200 none ((7 ∷ 8 ∷ 9 ∷ []) ∷ []) takes false;
  disk_fails = λ call. false;
  refresh = λ call. refreshes "new";
  quote = λ s. s;
  digest8 = λ s. "00000000";
}

abbrev settings : PollSettings
settings = record {
  clockwork = clockwork;
  policy = policy;
  token = "token";
  staging_root = "/staging";
  account_name = "alice";
  integrity_mode = "strict";
}

abbrev account : Account
account = record {
  settings = settings;
  root = "/Camera";
  max_downloads = 0;
  max_delta_pages = 5;
  max_runtime_seconds = 60;
  delta_loop_resync_threshold = 3;
  delta_breaker_ghost_threshold = 10;
  delta_breaker_stale_page_threshold = 10;
  delta_breaker_cooldown_seconds = 300;
  now_epoch = 1000;
  now = "2026-01-01T00:00:00Z";
  elapsed = λ page. page;
  stale_tmp = [];
}

abbrev staging : Staging
staging = record {
  session = session;
  graph = graph_session;
  calls = 0;
  ghosts = [];
  journal = [];
  manifest = [];
}

abbrev before : Poll
before = record {
  staging = staging;
  cursor = some "https://graph/first";
  marker = none;
  incidents = record { cooldown_until_epoch = none; loop_incidents = none };
  anomalies = [];
  handed = [];
}

abbrev candidate : RemoteCandidate
candidate = record {
  account_name = "alice";
  item_id = "1";
  name = "a.jpg";
  relative_path = "/Camera";
  size_bytes = some 3;
  raw_modified_time = none;
  normalized_modified_time = "2026-01-01T00:00:00Z";
  download_url = some "https://host/x";
}

abbrev paths : Paths
paths = record {
  tmp_path = "/staging/alice/1.tmp";
  final_path = "/staging/alice/1.jpg";
  quarantine_path = "/staging/alice/_quarantine/1.jpg";
}

stage_candidate-safe_example :
    let (r, s') = stage_candidate remote settings candidate paths staging in
    IsDelivered candidate paths none r s'.session.fs
unfolding content
stage_candidate-safe_example =
    stage_candidate-safe remote settings candidate paths staging (omega arith) refl refl

stage_candidate_run :
    (stage_candidate remote settings candidate paths staging).0
    ≡ ok (some (handoff_of candidate paths))
unfolding classify_status content size_error put stage_candidate
stage_candidate_run = refl

poll_account_once-IsCheckpoint_example :
    IsCheckpoint remote
      (start_url remote account (some "https://graph/first"))
      (some "https://graph/first")
      (poll_account_once remote account before).1.cursor
poll_account_once-IsCheckpoint_example = poll_account_once-IsCheckpoint remote account before

-- A walk over two pages ends with the delta link as the cursor, and three files.
poll_run :
    ((poll_account_once remote account before).1.cursor ≡ some "https://graph/delta")
    × (length (poll_account_once remote account before).1.staging.session.fs ≡ 3)
unfolding classify_status content contains entry_of has_entry set_entry before_page diagnostic
    poll_account_once put size_error start_url
poll_run = (refl, refl)

abbrev map_names : List (String × List ℕ) → List String
map_names [] = []
map_names ((p, bytes) ∷ fs) = p ∷ map_names fs

-- With a budget of one download the second file of the first page is not fetched, though the cursor
-- is behind that page.
poll_budget_run :
    let p = (poll_account_once remote (record account { max_downloads = 1 }) before).1 in
    (p.cursor ≡ some "https://graph/second")
    × (map_names p.staging.session.fs ≡ "/staging/alice/1.jpg" ∷ [])
unfolding before_page classify_status contains content diagnostic entry_of has_entry
    poll_account_once put set_entry size_error start_url
poll_budget_run = (refl, refl)

abbrev single : SingleCall
single = record {
  max_poll_runtime_seconds = 60;
  remaining_budget = 30;
  lock_busy = false;
  drift_warning_threshold = (1, 4);
  drift_critical_threshold = (1, 2);
  drift_min_events = 2;
  drift_fail_fast_enabled = true;
  adaptive_backpressure_enabled = true;
  backpressure_retry_threshold = 5;
  backpressure_transport_error_threshold = 5;
  backpressure_cooldown_seconds = 60;
}

-- Two malformed items are critical, but not beside the counters of a poll that had to try again.
drift_diluted_run :
    ((evaluate_drift_state single (("delta_file_missing_name", 2) ∷ [])).0 ≡ critical)
    × ((evaluate_drift_state single
          (("delta_file_missing_name", 2) ∷ ("diag_retry_attempt_total", 8) ∷ [])).0
        ≡ normal)
unfolding evaluate_drift_state
drift_diluted_run = (refl, refl)

single_run :
    (poll_single_account remote account (record single { remaining_budget = 0 }) before).0
    ≡ ok runtime_budget_exhausted_result
unfolding poll_single_account
single_run = refl
