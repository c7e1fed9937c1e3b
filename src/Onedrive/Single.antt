-- ===== src/Onedrive/Single.antt =====
-- The poll of one account within a run over the accounts: `_poll_single_account` and what it does with
-- the counters of the poll (src/nightfall_photo_ingress/adapters/onedrive/client.py). The token is
-- given, and the paths of files and trace events are left out.
use Prim.Native.String.{compare}
use Prim.Native.Nat.{Ordering}
use nightfall_photo_ingress.Base.{
  ℕ, ◌+◌, ◌*◌, String, Bool, true, false, none, not, ◌&&◌, ◌||◌, List, [], ◌∷◌, ◌==◌, eqb, leb, ltb,
  if◌then◌else◌,
}
use nightfall_photo_ingress.Base.Exec.{graph_failed, Exec, pure, raise, ◌>>=◌, ◌>>◌}
use nightfall_photo_ingress.Text.{starts, drop_text}
use nightfall_photo_ingress.Ingest.Batch.{sort_by}
use nightfall_photo_ingress.Onedrive.Staging.{Remote, Counts, record_ghost_reason}
use nightfall_photo_ingress.Onedrive.Poll.{PollResult, count_of, total_count, poll_account_once}
use nightfall_photo_ingress.Onedrive.Account.{Account, Poll, arm_breaker_cooldown}

-- The settings beside those of the poll. A threshold for a ratio is a fraction, and the remaining
-- budget in whole seconds is zero where none is left.
pub record SingleCall : Type 0 where
  pub max_poll_runtime_seconds : ℕ
  pub remaining_budget : ℕ
  pub lock_busy : Bool
  pub drift_warning_threshold : ℕ × ℕ
  pub drift_critical_threshold : ℕ × ℕ
  pub drift_min_events : ℕ
  pub drift_fail_fast_enabled : Bool
  pub adaptive_backpressure_enabled : Bool
  pub backpressure_retry_threshold : ℕ
  pub backpressure_transport_error_threshold : ℕ
  pub backpressure_cooldown_seconds : ℕ

pub data PollState : Type 0 where
  normal warning critical skipped_runtime_budget : PollState

-- The dataclass `AccountPollResult`, without the ratio.
pub record AccountPollResult : Type 0 where
  pub downloaded_paths : List String
  pub candidate_count : ℕ
  pub ghost_reason_counts : Counts
  pub delta_anomaly_reason_counts : Counts
  pub counters : Counts
  pub state : PollState
  pub drift_events : ℕ

-- `_runtime_budget_exhausted_result`
abbrev pub runtime_budget_exhausted_result : AccountPollResult
runtime_budget_exhausted_result = record {
  downloaded_paths = [];
  candidate_count = 0;
  ghost_reason_counts = [];
  delta_anomaly_reason_counts = ("scheduler_runtime_budget_exhausted", 1) ∷ [];
  counters = [];
  state = skipped_runtime_budget;
  drift_events = 0;
}

-- The counters of fields that are missing or malformed.
unfoldable pub is_drift_reason : String → Bool
unfolding starts
is_drift_reason key =
    (starts "delta_item_missing_" key
        || starts "delta_file_missing_" key
        || starts "delta_file_invalid_" key)
      && not (key == "delta_file_missing_download_url")
    || key == "ghost_missing_download_url_after_refresh"

unfoldable pub count_drift_events : Counts → ℕ
unfolding is_drift_reason
count_drift_events [] = 0
count_drift_events ((key, n) ∷ counts) =
    let rest = count_drift_events counts in if is_drift_reason key then n + rest else rest

-- events / total >= a / b
abbrev at_least : ℕ → ℕ → ℕ × ℕ → Bool
at_least events total (a, b) = leb (a * total) (events * b)

-- `_evaluate_drift_state`
unfoldable pub evaluate_drift_state : SingleCall → Counts → PollState × ℕ
unfolding count_drift_events total_count
evaluate_drift_state call counts =
    let events = count_drift_events counts in
    let total = if leb (total_count counts) 1 then 1 else total_count counts in
    (
      if ltb events call.drift_min_events
          then normal
          else if at_least events total call.drift_critical_threshold
          then critical
          else if at_least events total call.drift_warning_threshold
          then warning
          else normal,
      events,
    )

-- `_split_anomaly_and_diagnostics`
unfoldable pub split_anomaly_and_diagnostics : Counts → Counts × Counts
unfolding starts drop_text
split_anomaly_and_diagnostics [] = ([], [])
split_anomaly_and_diagnostics ((key, n) ∷ counts) =
    let (anomalies, diagnostics) = split_anomaly_and_diagnostics counts in
    if starts "diag_" key
    then (anomalies, (drop_text 5 key, n) ∷ diagnostics)
    else ((key, n) ∷ anomalies, diagnostics)

-- sorted(counts.items()), where each key stands once
abbrev key_first : String × ℕ → String × ℕ → Bool
key_first a b = elim (compare a.0 b.0) [ Ordering.lt ↦ true | _ ↦ false ]

unfoldable pub sorted_counts : Counts → Counts
unfolding sort_by
sorted_counts counts = sort_by key_first counts

-- `_apply_adaptive_backpressure`
unfoldable pub apply_adaptive_backpressure :
    Account → SingleCall → AccountPollResult → Exec Poll Unit
unfolding count_of
apply_adaptive_backpressure a call result =
    if call.adaptive_backpressure_enabled
      && (leb call.backpressure_retry_threshold (count_of "retry_attempt_total" result.counters)
          || leb call.backpressure_transport_error_threshold
              (count_of "retry_transport_error_total" result.counters))
    then arm_breaker_cooldown a.now_epoch call.backpressure_cooldown_seconds
    else pure tt

abbrev is_critical : PollState → Bool
is_critical critical = true
is_critical _ = false

-- min(max_poll_runtime_seconds, max(1, remaining_budget)), where some budget is left
abbrev with_budget : Account → SingleCall → Account
with_budget a call = record a {
  max_runtime_seconds =
      if leb call.max_poll_runtime_seconds call.remaining_budget
      then call.max_poll_runtime_seconds
      else call.remaining_budget;
}

-- The result of a poll that was made.
unfoldable pub single_result : PollResult → PollState × ℕ → Counts × Counts → AccountPollResult
unfolding sorted_counts
single_result r drift parts = record {
  downloaded_paths = r.downloaded_paths;
  candidate_count = r.candidate_count;
  ghost_reason_counts = sorted_counts r.ghost_reason_counts;
  delta_anomaly_reason_counts = sorted_counts parts.0;
  counters = sorted_counts parts.1;
  state = drift.0;
  drift_events = drift.1;
}

unfoldable pub poll_single_account : Remote → Account → SingleCall → Exec Poll AccountPollResult
unfolding poll_account_once count_of record_ghost_reason evaluate_drift_state
    split_anomaly_and_diagnostics single_result apply_adaptive_backpressure
poll_single_account remote a call =
    if eqb call.remaining_budget 0
    then pure runtime_budget_exhausted_result
    else if call.lock_busy
    then raise (graph_failed ("account_singleton_lock_busy", none))
    else (do
      r ← poll_account_once remote (with_budget a call)
      let missing = count_of "ghost_missing_download_url_after_refresh" r.ghost_reason_counts
      let counts =
          if eqb missing 0
          then r.delta_anomaly_counts
          else record_ghost_reason "ghost_missing_download_url_after_refresh" missing
              r.delta_anomaly_counts
      let drift = evaluate_drift_state call counts
      let parts = split_anomaly_and_diagnostics counts
      let result = single_result r drift parts
      if call.drift_fail_fast_enabled && is_critical drift.0
          then raise (graph_failed ("drift_threshold_critical", none))
          else (do apply_adaptive_backpressure a call result; pure result))
