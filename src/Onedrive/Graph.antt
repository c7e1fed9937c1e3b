-- ===== src/Onedrive/Graph.antt =====
-- A request to Graph with bounded retries and one refresh of the token (`_graph_get_json` of
-- src/nightfall_photo_ingress/adapters/onedrive/client.py). Trace events, the redacted hints of
-- errors and the counters of headers are left out.
pub mod Outcome
use nightfall_photo_ingress.Base.{
  ℕ, zero, suc, ◌+◌, String, Bool, true, false, ◌||◌, Option, none, some, List, [], ◌∷◌, ◌++◌, eqb,
  leb, if◌then◌else◌,
}
use nightfall_photo_ingress.Base.Exec.{Error, Result, ok, err, graph_failed, resync_required}
use nightfall_photo_ingress.Onedrive.Retry.{
  RetryPolicy, Clockwork, classify_status, parse_retry_after, compute_delay,
}

-- What a GET gives: `httpx.RequestError`, or a response with its status, its Retry-After and
-- Location headers and its parsed JSON, if `json.loads` takes it.
pub data GraphReply (J : Type 0) : Type 0 where
  unreached : GraphReply J
  answered : ℕ → Option String → Option String → Option J → GraphReply J

-- `refresh_access_token`: there is none, or the token that it gives, or `AuthError`.
pub data Refresh : Type 0 where
  no_refresh : Refresh
  refreshes : String → Refresh
  refresh_fails : Refresh

-- The sleeps so far and the diagnostics counters.
pub record GraphSession : Type 0 where
  pub sleeps : List ℕ
  pub graph_request_total : ℕ
  pub retry_attempt_total : ℕ
  pub retry_transport_error_total : ℕ
  pub throttle_response_total : ℕ
  pub resync_required_total : ℕ
  pub auth_refresh_attempt_total : ℕ
  pub auth_refresh_success_total : ℕ
  pub auth_refresh_failure_total : ℕ

-- How one attempt ends: with the payload, with an error, with a sleep, or with a new token.
pub data GraphVerdict (J : Type 0) : Type 0 where
  payload : J → GraphVerdict J
  fails : Error → GraphVerdict J
  sleeps_for : ℕ → GraphVerdict J
  with_token : String → GraphVerdict J

abbrev pub retried : ℕ → GraphSession → GraphSession
retried status s = record s {
  retry_attempt_total = s.retry_attempt_total + 1;
  throttle_response_total =
      if eqb status 429 || eqb status 503
      then s.throttle_response_total + 1
      else s.throttle_response_total;
}

module _ {J : Type 0} (clockwork : Clockwork) (policy : RetryPolicy) where
  -- if attempt >= policy.max_attempts: raise …, else sleep
  abbrev pub fail_or_sleep : ℕ → String × Option ℕ → Option ℕ → GraphVerdict J
  fail_or_sleep attempt code hint =
      if leb policy.max_attempts attempt
      then fails (graph_failed code)
      else sleeps_for (compute_delay attempt hint policy (clockwork.jitter attempt))

  -- A 401 or a 403: one refresh is made, if there is a way to.
  unfoldable pub refresh_or_fail : Bool → ℕ → Refresh → GraphSession → GraphVerdict J × GraphSession
  refresh_or_fail true status r s = (
    fails (graph_failed ("graph_auth_failed", some status)),
    record s { auth_refresh_attempt_total = s.auth_refresh_attempt_total + 1 },
  )
  refresh_or_fail false status no_refresh s = (
    fails (graph_failed ("graph_auth_failed", some status)),
    record s { auth_refresh_attempt_total = s.auth_refresh_attempt_total + 1 },
  )
  refresh_or_fail false status refresh_fails s = (
    fails (graph_failed ("graph_auth_refresh_failed", some status)),
    record s {
      auth_refresh_attempt_total = s.auth_refresh_attempt_total + 1;
      auth_refresh_failure_total = s.auth_refresh_failure_total + 1;
    },
  )
  refresh_or_fail false status (refreshes token) s = (
    with_token token,
    record s {
      auth_refresh_attempt_total = s.auth_refresh_attempt_total + 1;
      auth_refresh_success_total = s.auth_refresh_success_total + 1;
    },
  )

  -- A response of any other status.
  unfoldable pub take_response :
      ℕ → Option String → Option J → GraphSession → GraphVerdict J × GraphSession
  take_response status location body s =
      if eqb status 410
      then (
        fails (resync_required location),
        record s { resync_required_total = s.resync_required_total + 1 },
      )
      else if leb 400 status
      then (fails (graph_failed ("graph_error", some status)), s)
      else elim body [
        | none ↦ (fails (graph_failed ("graph_invalid_json", none)), s)
        | some j ↦ (payload j, s)
      ]

  unfoldable pub handle_graph_reply :
      ℕ → Bool → Refresh → GraphReply J → GraphSession → GraphVerdict J × GraphSession
  unfolding refresh_or_fail take_response
  handle_graph_reply attempt refreshed r unreached s = (
    fail_or_sleep attempt ("graph_transport_error", none) none,
    record s {
      retry_attempt_total = s.retry_attempt_total + 1;
      retry_transport_error_total = s.retry_transport_error_total + 1;
    },
  )
  handle_graph_reply attempt refreshed r (answered status retry_after location body) s =
      if eqb status 401 || eqb status 403
      then refresh_or_fail refreshed status r s
      else if classify_status status
      then (
        fail_or_sleep attempt ("graph_retry_exhausted", some status)
            (parse_retry_after clockwork retry_after),
        retried status s,
      )
      else take_response status location body s

  -- for attempt in range(1, policy.max_attempts + 1), of which `left` remain. The reply depends on
  -- the attempt and on the token that is sent.
  unfoldable pub graph_attempts :
      (ℕ → String → GraphReply J)
      → Refresh
      → ℕ
      → ℕ
      → Bool
      → String
      → GraphSession
      → Result J × GraphSession
  unfolding handle_graph_reply
  graph_attempts http r zero attempt refreshed token s =
      (err (graph_failed ("graph_retry_loop_exit", none)), s)
  graph_attempts http r (suc left) attempt refreshed token s =
      let (verdict, s') =
        handle_graph_reply attempt refreshed r (http attempt token)
          (record s { graph_request_total = s.graph_request_total + 1 }) in
      elim verdict [
        | payload j ↦ (ok j, s')
        | fails e ↦ (err e, s')
        | sleeps_for delay ↦
            graph_attempts http r left (attempt + 1) refreshed token
              (record s' { sleeps = s'.sleeps ++ delay ∷ [] })
        | with_token fresh ↦ graph_attempts http r left (attempt + 1) true fresh s'
      ]

  unfoldable pub graph_get_json :
      (ℕ → String → GraphReply J) → Refresh → String → GraphSession → Result J × GraphSession
  unfolding graph_attempts
  graph_get_json http r token s = graph_attempts http r policy.max_attempts 1 false token s
