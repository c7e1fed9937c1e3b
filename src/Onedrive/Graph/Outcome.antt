-- ===== src/Onedrive/Graph/Outcome.antt =====
-- How a request to Graph ends (`_graph_get_json` of
-- src/nightfall_photo_ingress/adapters/onedrive/client.py).
use mathlib.Core.Path.{subst}
use nightfall_photo_ingress.Base.{
  ℕ, zero, suc, ◌+◌, ◌≤◌, ◌<◌, String, Bool, true, false, ◌||◌, ◌≡◌, refl, sym, ◌∙◌, Option, none,
  some, List, [], ◌∷◌, ◌++◌, append-nil, append_assoc, ap, All-append, length-append, eqb, leb,
  length, All, arith, inl, inr, Bool-cases, Option-cases, if◌then◌else◌,
}
use nightfall_photo_ingress.Base.Exec.{Error, Result, ok, err, graph_failed}
use nightfall_photo_ingress.Onedrive.Retry.{
  RetryPolicy, Clockwork, classify_status, parse_retry_after, compute_delay-le,
}
use nightfall_photo_ingress.Onedrive.Graph.{
  GraphReply, unreached, answered, Refresh, no_refresh, refreshes, refresh_fails, GraphSession,
  GraphVerdict, payload, fails, sleeps_for, with_token, fail_or_sleep, refresh_or_fail, retried,
  take_response, handle_graph_reply, graph_attempts, graph_get_json,
}

-- The reply is a response without an error status, and its payload is `j`.
abbrev pub Gives : {J : Type 0} → GraphReply J → J → Type 0
Gives unreached j = ⊥
Gives (answered status retry_after location body) j = (status < 400) × (body ≡ some j)

abbrev counted : GraphSession → GraphSession
counted s = record s { graph_request_total = s.graph_request_total + 1 }

abbrev slept_more : ℕ → GraphSession → GraphSession
slept_more d s = record s { sleeps = s.sleeps ++ d ∷ [] }

-- A result that is a payload is that of the answer to some attempt.
pub IsAnswered : {J : Type 0} → (ℕ → String → GraphReply J) → Result J → Type 0
IsAnswered http (ok j) = (attempt : ℕ) × ((token : String) × Gives (http attempt token) j)
IsAnswered http (err e) = Unit

ok-IsAnswered :
    {J : Type 0} (http : ℕ → String → GraphReply J) (r : Result J)
    → ((j : J) → r ≡ ok j → (attempt : ℕ) × ((token : String) × Gives (http attempt token) j))
    → IsAnswered http r
unfolding IsAnswered
ok-IsAnswered http (ok j) h = h j refl
ok-IsAnswered http (err e) h = tt

module _ {J : Type 0} (clockwork : Clockwork) (policy : RetryPolicy) where
  -- What one attempt may do to the session, by its verdict.
  abbrev Fits : Bool → GraphReply J → GraphVerdict J → GraphSession → GraphSession → Type 0
  Fits refreshed reply (payload j) s s' =
      Gives reply j × (s'.auth_refresh_success_total ≡ s.auth_refresh_success_total)
  Fits refreshed reply (fails e) s s' = s'.auth_refresh_success_total ≡ s.auth_refresh_success_total
  Fits refreshed reply (sleeps_for delay) s s' =
      (delay ≤ policy.max_delay) × (s'.auth_refresh_success_total ≡ s.auth_refresh_success_total)
  Fits refreshed reply (with_token token) s s' =
      (refreshed ≡ false) × (s'.auth_refresh_success_total ≡ s.auth_refresh_success_total + 1)

  record AttemptFits (refreshed : Bool) (reply : GraphReply J) (s : GraphSession)
      (r : GraphVerdict J × GraphSession) : Type 0 where
    fits : Fits refreshed reply r.0 s r.1
    requests : r.1.graph_request_total ≡ s.graph_request_total
    slept : r.1.sleeps ≡ s.sleeps

  fail_or_sleep-Fits :
      (attempt : ℕ) (code : String × Option ℕ) (hint : Option ℕ) (refreshed : Bool)
      (reply : GraphReply J) (s s' : GraphSession)
      → s'.auth_refresh_success_total ≡ s.auth_refresh_success_total
      → Fits refreshed reply (fail_or_sleep clockwork policy attempt code hint) s s'
  fail_or_sleep-Fits attempt code hint refreshed reply s s' e =
      elim (Bool-cases (leb policy.max_attempts attempt)) [
        | inl last ↦ rw last e
        | inr early ↦ rw early (compute_delay-le attempt hint policy (clockwork.jitter attempt), e)
      ]

  refresh_or_fail-AttemptFits :
      (refreshed : Bool) (status : ℕ) (r : Refresh) (reply : GraphReply J) (s : GraphSession)
      → AttemptFits refreshed reply s (refresh_or_fail clockwork policy refreshed status r s)
  unfolding refresh_or_fail
  refresh_or_fail-AttemptFits true status r reply s = record {
    fits = refl;
    requests = refl;
    slept = refl;
  }
  refresh_or_fail-AttemptFits false status no_refresh reply s = record {
    fits = refl;
    requests = refl;
    slept = refl;
  }
  refresh_or_fail-AttemptFits false status refresh_fails reply s = record {
    fits = refl;
    requests = refl;
    slept = refl;
  }
  refresh_or_fail-AttemptFits false status (refreshes token) reply s = record {
    fits = (refl, refl);
    requests = refl;
    slept = refl;
  }

  take_response-AttemptFits :
      (refreshed : Bool) (status : ℕ) (retry_after location : Option String) (body : Option J)
      (s : GraphSession)
      → AttemptFits refreshed
          (answered status retry_after location body)
          s
          (take_response clockwork policy status location body s)
  unfolding take_response
  take_response-AttemptFits refreshed status retry_after location body s =
      elim (Bool-cases (eqb status 410)) [
        | inl gone ↦ rw gone (record { fits = refl; requests = refl; slept = refl })
        | inr other ↦ elim (Bool-cases (leb 400 status)) [
          | inl bad ↦ rw other (rw bad (record { fits = refl; requests = refl; slept = refl }))
          | inr good ↦ elim (Option-cases body) [
            | inl broken ↦
                rw other
                  (rw good (rw broken (record { fits = refl; requests = refl; slept = refl })))
            | inr (j, read) ↦
                let low : status < 400 = ground arith in
                rw other (
                  rw good (
                    rw read (record { fits = ((low, refl), refl); requests = refl; slept = refl })))
          ]
        ]
      ]

  handle_graph_reply-AttemptFits :
      (attempt : ℕ) (refreshed : Bool) (r : Refresh) (reply : GraphReply J) (s : GraphSession)
      → AttemptFits refreshed reply s
          (handle_graph_reply clockwork policy attempt refreshed r reply s)
  unfolding handle_graph_reply
  handle_graph_reply-AttemptFits attempt refreshed r unreached s = record {
    fits =
        fail_or_sleep-Fits attempt ("graph_transport_error", none) none refreshed unreached s _
          refl;
    requests = refl;
    slept = refl;
  }
  handle_graph_reply-AttemptFits attempt refreshed r (answered status retry_after location body) s =
      let reply : GraphReply J = answered status retry_after location body in
      elim (Bool-cases (eqb status 401 || eqb status 403)) [
        | inl denied ↦ rw denied (refresh_or_fail-AttemptFits refreshed status r reply s)
        | inr allowed ↦ elim (Bool-cases (classify_status status)) [
          | inl transient ↦ rw allowed (
              rw transient (record {
                fits =
                    fail_or_sleep-Fits attempt ("graph_retry_exhausted", some status)
                      (parse_retry_after clockwork retry_after) refreshed reply s (retried status s)
                      refl;
                requests = refl;
                slept = refl;
              }))
          | inr settled ↦
              rw allowed (
                rw settled (take_response-AttemptFits refreshed status retry_after location body s))
        ]
      ]

  -- How the attempts that are left may end.
  record GraphEnds (http : ℕ → String → GraphReply J) (left : ℕ) (refreshed : Bool)
      (s : GraphSession) (r : Result J × GraphSession) : Type 0 where
    gives : (j : J) → r.0 ≡ ok j → (attempt : ℕ) × ((token : String) × Gives (http attempt token) j)
    requests : r.1.graph_request_total ≤ s.graph_request_total + left
    refresh_count :
        r.1.auth_refresh_success_total ≤ s.auth_refresh_success_total + (if refreshed then 0 else 1)
    slept :
        (more : List ℕ) × (r.1.sleeps ≡ s.sleeps ++ more)
        × All (λ d. d ≤ policy.max_delay) more
        × (length more ≤ left)

  stops :
      (http : ℕ → String → GraphReply J) (left : ℕ) (refreshed : Bool) (s s' : GraphSession)
      (r : Result J)
      → ((j : J) → r ≡ ok j → (attempt : ℕ) × ((token : String) × Gives (http attempt token) j))
      → s'.graph_request_total ≡ (counted s).graph_request_total
      → s'.sleeps ≡ s.sleeps
      → s'.auth_refresh_success_total ≡ s.auth_refresh_success_total
      → GraphEnds http (suc left) refreshed s (r, s')
  stops http left refreshed s s' r given n e k = record {
    gives = given;
    requests = omega (arith, n);
    refresh_count = rw k (ground arith);
    slept = ([], e ∙ sym (append-nil s.sleeps), tt, omega arith);
  }

  goes_on :
      (http : ℕ → String → GraphReply J) (left : ℕ) (refreshed flag : Bool) (s u : GraphSession)
      (delays : List ℕ) (r : Result J × GraphSession)
      → u.graph_request_total ≡ s.graph_request_total + 1
      → u.sleeps ≡ s.sleeps ++ delays
      → All (λ d. d ≤ policy.max_delay) delays
      → length delays ≤ 1
      → u.auth_refresh_success_total + (if flag then 0 else 1)
        ≤ s.auth_refresh_success_total + (if refreshed then 0 else 1)
      → GraphEnds http left flag u r
      → GraphEnds http (suc left) refreshed s r
  goes_on http left refreshed flag s u delays r n e short few k rest =
      let (more, same, bounded, count) = rest.slept in
      let kept = rest.refresh_count in
      record {
        gives = rest.gives;
        requests = omega (arith, n, rest.requests);
        refresh_count = omega (arith, k, kept);
        slept = (
          delays ++ more,
          same ∙ rw e (append_assoc s.sleeps delays more),
          All-append (λ d. d ≤ policy.max_delay) delays more short bounded,
          omega (arith, length-append delays more, few, count),
        );
      }

  -- What the loop does with a verdict.
  continue_with :
      (ℕ → String → GraphReply J)
      → Refresh
      → ℕ
      → ℕ
      → Bool
      → String
      → GraphVerdict J × GraphSession
      → Result J × GraphSession
  continue_with http r left attempt refreshed token (verdict, s') = elim verdict [
    | payload j ↦ (ok j, s')
    | fails e ↦ (err e, s')
    | sleeps_for delay ↦
        graph_attempts clockwork policy http r left (attempt + 1) refreshed token
          (slept_more delay s')
    | with_token fresh ↦ graph_attempts clockwork policy http r left (attempt + 1) true fresh s'
  ]

  ok_inj : (a b : J) → ◌≡◌ {A = Result J} (ok a) (ok b) → a ≡ b
  ok_inj a b e = cc

  err_ok : (x : Error) (j : J) → ◌≡◌ {A = Result J} (err x) (ok j) → ⊥
  err_ok x j e = cc

  continue_with-GraphEnds :
      (http : ℕ → String → GraphReply J) (r : Refresh) (left attempt : ℕ) (refreshed : Bool)
      (token : String) (s s' : GraphSession) (verdict : GraphVerdict J)
      → AttemptFits refreshed (http attempt token) (counted s) (verdict, s')
      → ((flag : Bool) (token' : String) (u : GraphSession)
          → GraphEnds http left flag u
              (graph_attempts clockwork policy http r left (attempt + 1) flag token' u))
      → GraphEnds http
          (suc left)
          refreshed
          s
          (continue_with http r left attempt refreshed token (verdict, s'))
  unfolding continue_with
  continue_with-GraphEnds http r left attempt refreshed token s s' (payload j) h rest =
      stops http left refreshed s s' (ok j)
        (λ j' e. (attempt, (token, subst (Gives (http attempt token)) (ok_inj j j' e) h.fits.0)))
        h.requests h.slept h.fits.1
  continue_with-GraphEnds http r left attempt refreshed token s s' (fails x) h rest =
      stops http left refreshed s s' (err x) (λ j e. absurd (err_ok x j e)) h.requests h.slept
        h.fits
  continue_with-GraphEnds http r left attempt refreshed token s s' (sleeps_for delay) h rest =
      goes_on http left refreshed refreshed s (slept_more delay s') (delay ∷ []) _ h.requests
        (ap (λ x. x ++ delay ∷ []) h.slept) (h.fits.0, tt) (omega arith)
        (let k = h.fits.1 in omega (arith, k)) (rest refreshed token (slept_more delay s'))
  continue_with-GraphEnds http r left attempt refreshed token s s' (with_token fresh) h rest =
      let once = h.fits.0 in
      let one_more = h.fits.1 in
      goes_on http left refreshed true s s' [] _ h.requests (h.slept ∙ sym (append-nil s.sleeps)) tt
        (omega arith) (rw once (omega (arith, one_more))) (rest true fresh s')

  graph_attempts-GraphEnds :
      (http : ℕ → String → GraphReply J) (r : Refresh) (left attempt : ℕ) (refreshed : Bool)
      (token : String) (s : GraphSession)
      → GraphEnds http left refreshed s
          (graph_attempts clockwork policy http r left attempt refreshed token s)
  unfolding graph_attempts continue_with
  graph_attempts-GraphEnds http r zero attempt refreshed token s = record {
    gives = λ j e. absurd (err_ok (graph_failed ("graph_retry_loop_exit", none)) j e);
    requests = omega arith;
    refresh_count = omega arith;
    slept = ([], sym (append-nil s.sleeps), tt, omega arith);
  }
  graph_attempts-GraphEnds http r (suc left) attempt refreshed token s =
      let (verdict, s') =
        handle_graph_reply clockwork policy attempt refreshed r (http attempt token) (counted s) in
      continue_with-GraphEnds http r left attempt refreshed token s s' verdict
        (handle_graph_reply-AttemptFits attempt refreshed r (http attempt token) (counted s))
        (λ flag token' u. graph_attempts-GraphEnds http r left (attempt + 1) flag token' u)

  pub graph_get_json-Gives :
      (http : ℕ → String → GraphReply J) (r : Refresh) (token : String) (s : GraphSession) (j : J)
      → (graph_get_json clockwork policy http r token s).0 ≡ ok j
      → (attempt : ℕ) × ((token' : String) × Gives (http attempt token') j)
  unfolding graph_get_json
  graph_get_json-Gives http r token s =
      (graph_attempts-GraphEnds http r policy.max_attempts 1 false token s).gives

  -- Whatever the server answers, a request to Graph is sent at most as often as the policy allows and
  -- refreshes the token at most once; it sleeps at most as often as it is sent, each time at most the
  -- policy's longest delay. Where it returns, the payload is that of a response without an error
  -- status.
  pub graph_get_json-bounds :
      (http : ℕ → String → GraphReply J) (r : Refresh) (token : String) (s : GraphSession)
      → let (result, s') = graph_get_json clockwork policy http r token s in
        (s'.graph_request_total ≤ s.graph_request_total + policy.max_attempts)
        × (s'.auth_refresh_success_total ≤ s.auth_refresh_success_total + 1)
        × ((more : List ℕ) × (s'.sleeps ≡ s.sleeps ++ more)
            × All (λ d. d ≤ policy.max_delay) more
            × (length more ≤ policy.max_attempts))
        × IsAnswered http result
  unfolding graph_get_json
  graph_get_json-bounds http r token s =
      let ends = graph_attempts-GraphEnds http r policy.max_attempts 1 false token s in
      (ends.requests, ends.refresh_count, ends.slept, ok-IsAnswered http _ ends.gives)
