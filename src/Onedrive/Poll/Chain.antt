-- ===== src/Onedrive/Poll/Chain.antt =====
-- The addresses and the links that the pages of a poll vouch for (`poll_account_once` of
-- src/nightfall_photo_ingress/adapters/onedrive/client.py), and the steps that leave the cursor alone.
use nightfall_photo_ingress.Base.{
  ℕ, ◌-◌, String, not, ◌&&◌, ◌||◌, ◌≡◌, refl, ◌⊎◌, inr, Option, none, some, List, [], ◌∷◌, eqb,
  length, if◌then◌else◌, map,
}
use nightfall_photo_ingress.Base.Exec.{Exec, pure}
use nightfall_photo_ingress.Base.Exec.Keeps.{
  Keeps, keeps_rules, Keeps-pure, Keeps-if, Keeps-bind, Keeps-then,
}
use nightfall_photo_ingress.Onedrive.Graph.Outcome.{Gives}
use nightfall_photo_ingress.Onedrive.Delta.{RemoteCandidate}
use nightfall_photo_ingress.Onedrive.Staging.{
  Payload, Remote, Staging, DownloadedHandoffCandidate, record_ghost_reason, download_candidates,
}
use nightfall_photo_ingress.Onedrive.Poll.{
  Walk, Walked, all_pages, budget_reached, abandoned, save_link, hand_over, anomalies_of, take_page,
  count_replayed,
}
use nightfall_photo_ingress.Onedrive.Account.{
  Account, Poll, on_staging, anomaly, mark_resync_required, increment_loop_incident,
  reset_loop_incidents, arm_breaker_cooldown,
}

module _ (remote : Remote) where
  -- Some GET of this address is answered with this payload.
  abbrev pub Answers : String → Payload → Type 0
  Answers url j =
      (n : ℕ) × ((attempt : ℕ) × ((token : String) × Gives (remote.graph n url attempt token) j))

  -- The addresses that the next links lead to, from a first one.
  pub data Chain (first : String) : String → Type 0 where
    begin : Chain first first
    follow :
        {url next : String} (j : Payload)
        → Chain first url
        → Answers url j
        → j.next_link ≡ some next
        → Chain first next

  -- A link, to the next page or to the next delta, that a page of the chain bears.
  pub record IsLinked (first link : String) : Type 0 where
    pub url : String
    pub page : Payload
    pub chained : Chain first url
    pub answered_with : Answers url page
    pub named : (page.next_link ≡ some link) ⊎ (page.delta_link ≡ some link)

  -- The cursor is the old one, or a link of the chain.
  abbrev pub IsCheckpoint : String → Option String → Option String → Type 0
  IsCheckpoint first old cursor =
      (cursor ≡ old) ⊎ ((link : String) × (cursor ≡ some link) × IsLinked first link)

module _ (remote : Remote) (a : Account) (first : String) (old : Option String) where
  abbrev pub Safe : Poll → Type 0
  Safe p = IsCheckpoint remote first old p.cursor

  pub Keeps-on_staging : {A : Type 0} (m : Exec Staging A) → Keeps Safe (on_staging m)
  Keeps-on_staging m = record { at = λ p h. h }

  pub Keeps-anomaly : (reason : String) (n : ℕ) → Keeps Safe (anomaly reason n)
  unfolding record_ghost_reason anomaly
  Keeps-anomaly reason n = record { at = λ p h. h }

  pub Keeps-mark :
      (reason : String) (url : Option String) → Keeps Safe (mark_resync_required reason url)
  Keeps-mark reason url = record { at = λ p h. h }

  pub Keeps-increment : Keeps Safe increment_loop_incident
  Keeps-increment = record { at = λ p h. h }

  pub Keeps-reset : Keeps Safe reset_loop_incidents
  Keeps-reset = record { at = λ p h. h }

  pub Keeps-arm : (now seconds : ℕ) → Keeps Safe (arm_breaker_cooldown now seconds)
  Keeps-arm now seconds = record { at = λ p h. h }

  pub Keeps-anomalies_of : (reasons : List String) → Keeps Safe (anomalies_of reasons)
  unfolding record_ghost_reason anomaly
  Keeps-anomalies_of [] = search keeps_rules
  Keeps-anomalies_of (reason ∷ reasons) =
      Keeps-then (anomaly reason 1) (anomalies_of reasons) (Keeps-anomaly reason 1)
        (Keeps-anomalies_of reasons)

  pub Keeps-count_replayed : (n : ℕ) → Keeps Safe (count_replayed remote a n)
  unfolding count_replayed
  Keeps-count_replayed n =
      Keeps-if (eqb n 0) (pure tt) _ (Keeps-pure tt) (Keeps-anomaly "delta_replayed_item_id" n)

  pub Keeps-hand_over : (rows : List DownloadedHandoffCandidate) → Keeps Safe (hand_over rows)
  Keeps-hand_over rows = record { at = λ p h. h }

  pub Keeps-take_page :
      (candidates : List RemoteCandidate) (n : ℕ) → Keeps Safe (take_page remote a candidates n)
  unfolding take_page
  Keeps-take_page candidates n =
      let remaining = a.max_downloads - n in
      let limit = if eqb a.max_downloads 0 then none else some remaining in
      Keeps-if (eqb (length candidates) 0 || (not (eqb a.max_downloads 0) && eqb remaining 0)) _ _
        (Keeps-pure [])
        (Keeps-bind (on_staging (download_candidates remote a.settings limit candidates)) _
          (Keeps-on_staging (download_candidates remote a.settings limit candidates))
          (λ rows.
            Keeps-then (hand_over rows) _ (Keeps-hand_over rows)
              (Keeps-pure (map (λ r. r.staging_path) rows))))

  pub Keeps-save_link :
      (next : Option String)
      → ((link : String) → next ≡ some link → IsLinked remote first link)
      → Keeps Safe (save_link next)
  Keeps-save_link none linked = Keeps-pure tt
  Keeps-save_link (some link) linked = record { at = λ p h. inr (link, refl, linked link refl) }

  -- What is known of the links that a walk holds.
  pub record IsGood (w : Walk) : Type 0 where
    pub next_chained : (url : String) → w.next_url ≡ some url → Chain remote first url
    pub delta_linked : (link : String) → w.delta_link ≡ some link → IsLinked remote first link

  unfoldable pub EndsGood : Walked → Type 0
  EndsGood (all_pages w) = IsGood w
  EndsGood (budget_reached w) = IsGood w
  EndsGood abandoned = Unit
