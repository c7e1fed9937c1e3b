-- ===== src/Onedrive/Poll/Pages.antt =====
-- The links that the loop over the pages holds (`poll_account_once` of
-- src/nightfall_photo_ingress/adapters/onedrive/client.py).
use nightfall_photo_ingress.Base.{
  ℕ, zero, suc, ◌-◌, String, false, ◌≡◌, refl, ◌⊎◌, inl, inr, Option, none, some, ◌∷◌, ◌==◌, leb,
  ltb, length, option_or, if◌then◌else◌, contains, Bool-cases,
}
use nightfall_photo_ingress.Base.Exec.{resync_required, graph_failed, Result, ok, err, Exec, ◌>>=◌}
use nightfall_photo_ingress.Base.Exec.Triples.{
  Triple, Triple-pure, Triple-raise, Triple-if, Triple-test, Triple-Keeps, Triple-bind, Triple-then,
}
use nightfall_photo_ingress.Onedrive.Graph.Outcome.{graph_get_json-Gives}
use nightfall_photo_ingress.Onedrive.Staging.{Payload, Remote, graph_get}
use nightfall_photo_ingress.Onedrive.Poll.{
  Walk, Walked, all_pages, budget_reached, abandoned, save_link, anomalies_of, take_page,
  budget_spent, count_replayed, replayed_in, reduction_after, page_candidates, walk_after,
  process_payload, loop_detected, after_get, get_page, fetch_page, before_page, after_fetch,
  page_loop,
}
use nightfall_photo_ingress.Onedrive.Account.{
  Account, Poll, anomaly, mark_resync_required, increment_loop_incident, reset_loop_incidents,
}
use nightfall_photo_ingress.Onedrive.Poll.Chain.{
  Answers, Chain, IsLinked, follow, Safe, Keeps-anomaly, Keeps-mark, Keeps-increment, Keeps-reset,
  Keeps-anomalies_of, Keeps-count_replayed, Keeps-take_page, Keeps-save_link, EndsGood, IsGood,
}

module _ (remote : Remote) (a : Account) (first : String) (old : Option String) where
  -- The page that a GET found.
  Found : String → Option Payload → Poll → Type 0
  Found url found p =
      (Safe remote a first old) p × ((j : Payload) → found ≡ some j → Answers remote url j)

  none-Found : (url : String) (p : Poll) → (Safe remote a first old) p → Found url none p
  unfolding Found
  none-Found url p h = (h, λ j e. absurd (none_some j e))
    where
      none_some : (j : Payload) → ◌≡◌ {A = Option Payload} none (some j) → ⊥
      none_some j e = cc

  after_get-Triple :
      (url : String) (r : Result Payload)
      → ((j : Payload) → r ≡ ok j → Answers remote url j)
      → Triple
          (Safe remote a first old)
          (Found url)
          (Safe remote a first old)
          (after_get remote a r)
  unfolding after_get
  after_get-Triple url (ok j) answered =
      Triple-pure (some j) (λ p h. unfold Found in (h, λ j' e. answered j' (some_ok j' e)))
    where
      some_ok : (j' : Payload) → some j ≡ some j' → ok j ≡ ok j'
      some_ok j' e = cc
  after_get-Triple url (err (resync_required next)) answered =
      Triple-then (anomaly "delta_resync_required_410" 1) _
        (Triple-Keeps _ ((Keeps-anomaly remote a first old) _ 1))
        (Triple-then (mark_resync_required "delta_resync_required_410" next) _
          (Triple-Keeps _ ((Keeps-mark remote a first old) _ next))
          (Triple-pure none (none-Found url)))
  after_get-Triple url (err _) answered = Triple-raise _ (λ p h. h)

  get_page-Triple :
      (url : String)
      → Triple
          (Safe remote a first old)
          (Found url)
          (Safe remote a first old)
          (get_page remote a url)
  unfolding get_page
  get_page-Triple url = record {
    at = λ p h.
        let ps = a.settings in
        let s = p.staging in
        let gives =
          graph_get_json-Gives ps.clockwork ps.policy (remote.graph s.calls url)
            (remote.refresh s.calls) ps.token s.graph in
        (after_get-Triple url (graph_get remote ps url s).0 (λ j e. (s.calls, gives j e))).at
          (record p { staging = (graph_get remote ps url s).1 }) h;
  }

  loop_detected-Triple :
      (url : String)
      → Triple
          (Safe remote a first old)
          (Found url)
          (Safe remote a first old)
          (loop_detected remote a)
  unfolding loop_detected
  loop_detected-Triple url =
      Triple-bind increment_loop_incident _ (Triple-Keeps _ (Keeps-increment remote a first old))
        (λ incidents.
          Triple-if (leb a.delta_loop_resync_threshold incidents) _ _
            (Triple-then (anomaly "delta_forced_resync_after_loop_threshold" 1) _
              (Triple-Keeps _ ((Keeps-anomaly remote a first old) _ 1))
              (Triple-then (mark_resync_required "delta_forced_resync_after_loop_threshold" none) _
                (Triple-Keeps _ ((Keeps-mark remote a first old) _ none))
                (Triple-then reset_loop_incidents _
                  (Triple-Keeps _ (Keeps-reset remote a first old))
                  (Triple-pure none (none-Found url)))))
            (Triple-then (anomaly "delta_nextlink_cycle_detected" 1) _
              (Triple-Keeps _ ((Keeps-anomaly remote a first old) _ 1))
              (Triple-raise (graph_failed ("delta_nextlink_cycle_detected", none)) (λ p h. h))))

  fetch_page-Triple :
      (url : String) (w : Walk)
      → Triple
          (Safe remote a first old)
          (Found url)
          (Safe remote a first old)
          (fetch_page remote a url w)
  unfolding fetch_page
  fetch_page-Triple url w =
      Triple-if (contains url w.seen_next_links) _ _ (loop_detected-Triple url)
        (get_page-Triple url)

  delta_of :
      (delta old : Option String) (link : String)
      → (if option_or delta "" == "" then old else delta) ≡ some link
      → (old ≡ some link) ⊎ (delta ≡ some link)
  delta_of delta old link e = elim (Bool-cases (option_or delta "" == "")) [
    | inl empty ↦ inl (rw empty at e)
    | inr named ↦ inr (rw named at e)
  ]

  page_link :
      (url : String) (j : Payload)
      → Chain remote first url
      → Answers remote url j
      → (link : String) → (j.next_link ≡ some link) ⊎ (j.delta_link ≡ some link)
      → IsLinked remote first link
  page_link url j chained answered link named = record {
    url = url;
    page = j;
    chained = chained;
    answered_with = answered;
    named = named;
  }

  -- A page of the chain that is processed.
  process_payload-Triple :
      (url : String) (j : Payload) (w : Walk)
      → Chain remote first url
      → Answers remote url j
      → ((link : String) → w.delta_link ≡ some link → IsLinked remote first link)
      → Triple
          (Safe remote a first old)
          (λ w' p. (Safe remote a first old) p × (IsGood remote a first old) w')
          (Safe remote a first old)
          (process_payload remote a j w)
  unfolding process_payload walk_after
  process_payload-Triple url j w chained answered linked =
      Triple-then (count_replayed remote a (replayed_in remote a j w).1) _
        (Triple-Keeps _ ((Keeps-count_replayed remote a first old) (replayed_in remote a j w).1))
        (Triple-then (anomalies_of (reduction_after remote a j w).reasons) _
          (Triple-Keeps _
            ((Keeps-anomalies_of remote a first old) (reduction_after remote a j w).reasons))
          (Triple-bind (take_page remote a (page_candidates remote a j) (length w.downloaded)) _
            (Triple-Keeps _ (
              (Keeps-take_page remote a first old) (page_candidates remote a j)
                (length w.downloaded)))
            (λ paths.
              Triple-then (save_link j.next_link) _
                (Triple-Keeps _ (
                  (Keeps-save_link remote a first old) j.next_link
                    (λ link e. page_link url j chained answered link (inl e))))
                (Triple-pure (walk_after remote a j w paths) (λ p h. (
                  h,
                  record {
                    next_chained = λ next e. follow j chained answered e;
                    delta_linked = λ link e. elim (delta_of j.delta_link w.delta_link link e) [
                      | inl before ↦ linked link before
                      | inr here ↦ page_link url j chained answered link (inr here)
                    ];
                  },
                ))))))

  link_of :
      (link : Option String) → (option_or link "" == "") ≡ false → link ≡ some (option_or link "")
  link_of none e = cc
  link_of (some url) e = refl

  -- The tests before a page, and what follows them for the address of the page.
  before_page-Triple :
      (left : ℕ) (w : Walk) (body : String → Exec Poll Walked)
      → (IsGood remote a first old) w
      → ((url : String)
          → Chain remote first url
          → Triple
              (Safe remote a first old)
              (λ walked p. (Safe remote a first old) p × (EndsGood remote a first old) walked)
              (Safe remote a first old)
              (body url))
      → Triple
          (Safe remote a first old)
          (λ walked p. (Safe remote a first old) p × (EndsGood remote a first old) walked)
          (Safe remote a first old)
          (before_page remote a left w body)
  unfolding EndsGood before_page
  before_page-Triple left w body good then_body =
      let url = option_or w.next_url "" in
      Triple-test (url == "") _ _ (λ ended. Triple-pure (all_pages w) (λ p h. (h, good)))
        (λ more.
          Triple-if (budget_spent remote a w) _ _
            (Triple-pure (budget_reached w) (λ p h. (h, good)))
            (Triple-if (ltb a.max_runtime_seconds (a.elapsed (a.max_delta_pages - left))) _ _
              (Triple-then (anomaly "delta_runtime_limit_exceeded" 1) _
                (Triple-Keeps _ ((Keeps-anomaly remote a first old) _ 1))
                (Triple-raise (graph_failed ("delta_runtime_limit_exceeded", none)) (λ p h. h)))
              (then_body url (good.next_chained url (link_of w.next_url more)))))

  -- The page at an address, if it was found, and the loop behind it.
  after_fetch-Triple :
      (url : String) (w : Walk) (loop : Walk → Exec Poll Walked) (found : Option Payload)
      → Chain remote first url
      → ((link : String) → w.delta_link ≡ some link → IsLinked remote first link)
      → ((w' : Walk)
          → (IsGood remote a first old) w'
          → Triple
              (Safe remote a first old)
              (λ walked p. (Safe remote a first old) p × (EndsGood remote a first old) walked)
              (Safe remote a first old)
              (loop w'))
      → Triple
          (Found url found)
          (λ walked p. (Safe remote a first old) p × (EndsGood remote a first old) walked)
          (Safe remote a first old)
          (after_fetch remote a found (λ j. process_payload remote a j w >>= loop))
  after_fetch-Triple url w loop none chained linked then_loop =
      Triple-pure abandoned (λ p h. unfold Found EndsGood in (h.0, tt))
  after_fetch-Triple url w loop (some j) chained linked then_loop = record {
    at = λ p h.
        let found : (Safe remote a first old) p
            × ((j' : Payload) → some j ≡ some j' → Answers remote url j') =
          unfold Found in h in
        (Triple-bind _ loop (process_payload-Triple url j w chained (found.1 j refl) linked)
            (λ w'. record { at = λ p' h'. (then_loop w' h'.1).at p' h'.0 })).at
          p found.0;
  }

  pub page_loop-Triple :
      (left : ℕ) (w : Walk)
      → (IsGood remote a first old) w
      → Triple
          (Safe remote a first old)
          (λ walked p. (Safe remote a first old) p × (EndsGood remote a first old) walked)
          (Safe remote a first old)
          (page_loop remote a left w)
  unfolding page_loop
  page_loop-Triple zero w good = before_page-Triple zero w _ good (λ url chained.
      Triple-then (anomaly "delta_page_limit_exceeded" 1) _
        (Triple-Keeps _ ((Keeps-anomaly remote a first old) _ 1))
        (Triple-raise (graph_failed ("delta_page_limit_exceeded", none)) (λ p h. h)))
  page_loop-Triple (suc left) w good = before_page-Triple (suc left) w _ good (λ url chained.
      Triple-bind (fetch_page remote a url w) _ (fetch_page-Triple url w) (λ found.
        after_fetch-Triple url (record w { seen_next_links = url ∷ w.seen_next_links })
          (page_loop remote a left) found chained good.delta_linked (page_loop-Triple left)))
