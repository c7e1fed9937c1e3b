-- ===== src/Onedrive/Poll.antt =====
-- The walk over the delta pages of one account (`poll_account_once` of
-- src/nightfall_photo_ingress/adapters/onedrive/client.py). Trace events are left out.
pub mod Chain
pub mod Pages
pub mod Cursor
use nightfall_photo_ingress.Base.{
  ℕ, zero, suc, ◌+◌, ◌-◌, String, Bool, true, false, not, ◌&&◌, ◌||◌, Option, none, some, List, [],
  ◌∷◌, ◌++◌, ◌==◌, eqb, leb, ltb, length, is_some, option_or, if◌then◌else◌, contains, map,
}
use nightfall_photo_ingress.Base.Exec.{
  Error, graph_failed, resync_required, Result, ok, err, Exec, pure, raise, gets, modify, ◌>>=◌,
  ◌>>◌,
}
use nightfall_photo_ingress.Text.{cat, strip, is_space, decimal, starts, split}
use nightfall_photo_ingress.Storage.Render.{parent_name}
use nightfall_photo_ingress.World.{content}
use nightfall_photo_ingress.Onedrive.Graph.{graph_get_json}
use nightfall_photo_ingress.Onedrive.Delta.{
  RawItem, RemoteCandidate, Reduction, apply_delta_page_to_reducer, empty_reduction,
  materialize_reduced_candidates, reduce_delta_page_candidates,
}
use nightfall_photo_ingress.Onedrive.Staging.{
  Payload, Remote, PollSettings, DownloadedHandoffCandidate, Counts, record_ghost_reason, Staging,
  graph_get, replace_file, download_candidates,
}
use nightfall_photo_ingress.Onedrive.Account.{
  Account, ResyncMarker, Incidents, Poll, load_cursor, on_staging, anomaly, mark_resync_required,
  save_cursor, increment_loop_incident, reset_loop_incidents, arm_breaker_cooldown,
  is_breaker_cooldown_active, quoted_segments, build_initial_delta_url, count_replayed_item_ids,
  recover_staging_tmp_files,
}

-- What the walk keeps between pages.
pub record Walk : Type 0 where
  pub next_url : Option String
  pub delta_link : Option String
  pub seen_next_links : List String
  pub seen_item_ids : List String
  pub reduction : Reduction
  pub downloaded : List String

-- How the walk ends: at the end of the links, at the download budget, or with a return of nothing.
pub data Walked : Type 0 where
  all_pages : Walk → Walked
  budget_reached : Walk → Walked
  abandoned : Walked

-- The counts of the reasons that a page recorded.
abbrev pub anomalies_of : List String → Exec Poll Unit
anomalies_of [] = pure tt
anomalies_of (reason ∷ reasons) = anomaly reason 1 >> anomalies_of reasons

-- if link: the cursor is saved
abbrev pub save_link : Option String → Exec Poll Unit
save_link none = pure tt
save_link (some link) = save_cursor link

-- The rows of a page are handed to the ingest, if there are any.
abbrev pub hand_over : List DownloadedHandoffCandidate → Exec Poll Unit
hand_over rows =
    modify
      (λ p. record p { handed = if eqb (length rows) 0 then p.handed else p.handed ++ rows ∷ [] })

module _ (remote : Remote) (a : Account) where
  abbrev pub page_items : Payload → List (Option RawItem)
  page_items j = option_or j.value []

  -- The downloads of a page within the budget, and their hand-off.
  unfoldable pub take_page : List RemoteCandidate → ℕ → Exec Poll (List String)
  unfolding download_candidates
  take_page candidates downloaded =
      let remaining = a.max_downloads - downloaded in
      if eqb (length candidates) 0 || (not (eqb a.max_downloads 0) && eqb remaining 0)
      then pure []
      else (do
        rows ← on_staging (
            download_candidates remote a.settings
              (if eqb a.max_downloads 0 then none else some remaining) candidates)
        hand_over rows
        pure (map (λ r. r.staging_path) rows))

  -- What the page makes of the reducer, and which of its items were seen before.
  unfoldable pub reduction_after : Payload → Walk → Reduction
  unfolding apply_delta_page_to_reducer
  reduction_after j w =
      apply_delta_page_to_reducer a.now a.settings.account_name j.value
        (record w.reduction { reasons = [] })

  unfoldable pub replayed_in : Payload → Walk → List String × ℕ
  unfolding count_replayed_item_ids
  replayed_in j w = count_replayed_item_ids w.seen_item_ids (page_items j)

  unfoldable pub page_candidates : Payload → List RemoteCandidate
  unfolding reduce_delta_page_candidates
  page_candidates j = reduce_delta_page_candidates a.now a.settings.account_name j.value

  unfoldable pub walk_after : Payload → Walk → List String → Walk
  unfolding replayed_in reduction_after
  walk_after j w paths = record w {
    next_url = j.next_link;
    delta_link = if option_or j.delta_link "" == "" then w.delta_link else j.delta_link;
    seen_item_ids = (replayed_in j w).0;
    reduction = reduction_after j w;
    downloaded = w.downloaded ++ paths;
  }

  unfoldable pub count_replayed : ℕ → Exec Poll Unit
  unfolding record_ghost_reason
  count_replayed n = if eqb n 0 then pure tt else anomaly "delta_replayed_item_id" n

  -- A page that is read: its counters, its downloads, and the checkpoint behind it.
  unfoldable pub process_payload : Payload → Walk → Exec Poll Walk
  unfolding replayed_in reduction_after page_candidates take_page record_ghost_reason walk_after
      count_replayed
  process_payload j w = do
    count_replayed (replayed_in j w).1
    anomalies_of (reduction_after j w).reasons
    paths ← take_page (page_candidates j) (length w.downloaded)
    save_link j.next_link
    pure (walk_after j w paths)

  -- A link that was walked before: after enough such incidents a resync is forced.
  unfoldable pub loop_detected : Exec Poll (Option Payload)
  unfolding record_ghost_reason
  loop_detected = do
    incidents ← increment_loop_incident
    if leb a.delta_loop_resync_threshold incidents
        then (do
          anomaly "delta_forced_resync_after_loop_threshold" 1
          mark_resync_required "delta_forced_resync_after_loop_threshold" none
          reset_loop_incidents
          pure none)
        else (do
          anomaly "delta_nextlink_cycle_detected" 1
          raise (graph_failed ("delta_nextlink_cycle_detected", none)))

  -- except GraphResyncRequired
  unfoldable pub after_get : Result Payload → Exec Poll (Option Payload)
  unfolding record_ghost_reason
  after_get (ok j) = pure (some j)
  after_get (err (resync_required url)) = do
    anomaly "delta_resync_required_410" 1
    mark_resync_required "delta_resync_required_410" url
    pure none
  after_get (err e) = raise e

  unfoldable pub get_page : String → Exec Poll (Option Payload)
  unfolding after_get graph_get_json
  get_page url p =
      let (r, s) = graph_get remote a.settings url p.staging in
      after_get r (record p { staging = s })

  unfoldable pub fetch_page : String → Walk → Exec Poll (Option Payload)
  unfolding loop_detected get_page
  fetch_page url w = if contains url w.seen_next_links then loop_detected else get_page url

  abbrev budget_spent : Walk → Bool
  budget_spent w = not (eqb a.max_downloads 0) && leb a.max_downloads (length w.downloaded)

  -- The tests before a page, then `body` on its address: `left` pages are allowed.
  unfoldable pub before_page : ℕ → Walk → (String → Exec Poll Walked) → Exec Poll Walked
  unfolding record_ghost_reason
  before_page left w body =
      let url = option_or w.next_url "" in
      if url == ""
      then pure (all_pages w)
      else if budget_spent w
      then pure (budget_reached w)
      else if ltb a.max_runtime_seconds (a.elapsed (a.max_delta_pages - left))
      then (do
        anomaly "delta_runtime_limit_exceeded" 1
        raise (graph_failed ("delta_runtime_limit_exceeded", none)))
      else body url

  abbrev pub after_fetch : Option Payload → (Payload → Exec Poll Walked) → Exec Poll Walked
  after_fetch none k = pure abandoned
  after_fetch (some j) k = k j

  -- while next_url: …, with `left` pages allowed
  unfoldable pub page_loop : ℕ → Walk → Exec Poll Walked
  unfolding fetch_page process_payload record_ghost_reason
  page_loop zero w = before_page zero w (λ url. do
    anomaly "delta_page_limit_exceeded" 1
    raise (graph_failed ("delta_page_limit_exceeded", none)))
  page_loop (suc left) w = before_page (suc left) w (λ url. do
    found ← fetch_page url w
    after_fetch found (λ j. do
      w' ← process_payload j (record w { seen_next_links = url ∷ w.seen_next_links })
      page_loop left w'))

-- What a poll returns.
pub record PollResult : Type 0 where
  pub downloaded_paths : List String
  pub candidate_count : ℕ
  pub ghost_reason_counts : Counts
  pub delta_anomaly_counts : Counts

-- counts.get(reason, 0), and the sum of all
unfoldable pub count_of : String → Counts → ℕ
count_of reason [] = 0
count_of reason ((k, n) ∷ counts) = if k == reason then n else count_of reason counts

unfoldable pub total_count : Counts → ℕ
total_count [] = 0
total_count ((k, n) ∷ counts) = n + total_count counts

unfoldable pub diagnostic : String → ℕ → Exec Poll Unit
unfolding record_ghost_reason
diagnostic key n = if eqb n 0 then pure tt else anomaly key n

-- The diagnostics that are exported, but for the two counters of response headers.
unfoldable pub export_diagnostics : Exec Poll Unit
unfolding record_ghost_reason
export_diagnostics = do
  g ← gets (λ p. p.staging.graph)
  s ← gets (λ p. p.staging.session)
  diagnostic "diag_retry_attempt_total" (g.retry_attempt_total + s.retry_attempt_total)
  diagnostic "diag_retry_transport_error_total"
      (g.retry_transport_error_total + s.retry_transport_error_total)
  diagnostic "diag_throttle_response_total" (g.throttle_response_total + s.throttle_response_total)
  diagnostic "diag_resync_required_total" g.resync_required_total
  diagnostic "diag_auth_refresh_attempt_total" g.auth_refresh_attempt_total
  diagnostic "diag_auth_refresh_success_total" g.auth_refresh_success_total
  diagnostic "diag_auth_refresh_failure_total" g.auth_refresh_failure_total

-- A poll begins with an empty manifest and with counters of its own.
abbrev pub fresh : Staging → Staging
fresh s = record s {
  manifest = [];
  ghosts = [];
  session = record s.session {
    download_request_total = 0;
    retry_attempt_total = 0;
    retry_transport_error_total = 0;
    throttle_response_total = 0;
  };
  graph = record s.graph {
    graph_request_total = 0;
    retry_attempt_total = 0;
    retry_transport_error_total = 0;
    throttle_response_total = 0;
    resync_required_total = 0;
    auth_refresh_attempt_total = 0;
    auth_refresh_success_total = 0;
    auth_refresh_failure_total = 0;
  };
}

module _ (remote : Remote) (a : Account) where
  unfoldable pub start_url : Option String → String
  unfolding load_cursor build_initial_delta_url
  start_url cursor = option_or (load_cursor cursor) (build_initial_delta_url remote a.root)

  abbrev pub start_walk : String → Walk
  start_walk url = record {
    next_url = some url;
    delta_link = none;
    seen_next_links = [];
    seen_item_ids = [];
    reduction = empty_reduction;
    downloaded = [];
  }

  unfoldable pub nothing_polled : Exec Poll PollResult
  nothing_polled = gets (λ p. record {
    downloaded_paths = [];
    candidate_count = 0;
    ghost_reason_counts = [];
    delta_anomaly_counts = p.anomalies;
  })

  -- The circuit breakers.
  unfoldable pub arm_breakers : Exec Poll Unit
  unfolding record_ghost_reason count_of total_count
  arm_breakers = do
    stale ← gets (λ p. count_of "delta_replayed_item_id" p.anomalies)
    ghosts ← gets (λ p. total_count p.staging.ghosts)
    if leb a.delta_breaker_stale_page_threshold stale
        then (do
          anomaly "delta_breaker_armed_stale_page" 1
          arm_breaker_cooldown a.now_epoch a.delta_breaker_cooldown_seconds)
        else if leb a.delta_breaker_ghost_threshold ghosts
        then (do
          anomaly "delta_breaker_armed_ghost" 1
          arm_breaker_cooldown a.now_epoch a.delta_breaker_cooldown_seconds)
        else pure tt

  unfoldable pub complete : Walk → Exec Poll PollResult
  unfolding export_diagnostics arm_breakers materialize_reduced_candidates
  complete w = do
    save_link w.delta_link
    export_diagnostics
    arm_breakers
    gets (λ p. record {
      downloaded_paths = w.downloaded;
      candidate_count = length (materialize_reduced_candidates w.reduction.reducer);
      ghost_reason_counts = p.staging.ghosts;
      delta_anomaly_counts = p.anomalies;
    })

  unfoldable pub after_walk : Walked → Exec Poll PollResult
  unfolding complete nothing_polled
  after_walk abandoned = nothing_polled
  after_walk (budget_reached w) = complete w
  after_walk (all_pages w) =
      if is_some w.delta_link then complete w else raise (graph_failed ("missing_delta_link", none))

  unfoldable pub poll_account_once : Exec Poll PollResult
  unfolding page_loop after_walk recover_staging_tmp_files record_ghost_reason nothing_polled cat
  poll_account_once = do
    cursor ← gets (λ p. p.cursor)
    modify (λ p. record p { staging = fresh p.staging; anomalies = [] })
    cooling ← gets (λ p. is_breaker_cooldown_active a.now_epoch p.incidents)
    if cooling then (do anomaly "delta_breaker_cooldown_active" 1; nothing_polled) else (do
      on_staging (
          recover_staging_tmp_files remote a.now_epoch
            (cat a.settings.staging_root (cat "/" a.settings.account_name)) a.stale_tmp)
      walked ← page_loop remote a a.max_delta_pages (start_walk (start_url cursor))
      after_walk walked)
