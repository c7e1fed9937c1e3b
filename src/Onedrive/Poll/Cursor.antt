-- ===== src/Onedrive/Poll/Cursor.antt =====
-- Which checkpoints a poll may write (`poll_account_once` of
-- src/nightfall_photo_ingress/adapters/onedrive/client.py).
use mathlib.Core.Path.{subst}
use nightfall_photo_ingress.Base.{ℕ, String, ◌≡◌, refl, inl, Option, none, some, [], eqb, is_some}
use nightfall_photo_ingress.Base.Exec.{Result, ok, err, ◌>>=◌, ◌>>◌}
use nightfall_photo_ingress.Base.Exec.Keeps.{
  Keeps, keeps_rules, Keeps-pure, Keeps-raise, Keeps-gets, Keeps-if, Keeps-then,
}
use nightfall_photo_ingress.Base.Exec.Triples.{
  Triple, Ends, Triple-if, Triple-Keeps, Triple-bind, Triple-then,
}
use nightfall_photo_ingress.Onedrive.Staging.{Remote}
use nightfall_photo_ingress.Text.{cat}
use nightfall_photo_ingress.Onedrive.Poll.{
  fresh, Walk, Walked, all_pages, budget_reached, abandoned, save_link, diagnostic, page_loop,
  PollResult, export_diagnostics, start_url, start_walk, nothing_polled, arm_breakers, complete,
  after_walk, poll_account_once,
}
use nightfall_photo_ingress.Onedrive.Account.{
  is_breaker_cooldown_active, recover_staging_tmp_files, Account, Poll, on_staging, anomaly,
}
use nightfall_photo_ingress.Onedrive.Poll.Chain.{
  Chain, IsCheckpoint, begin, Safe, Keeps-on_staging, Keeps-anomaly, Keeps-arm, Keeps-save_link,
  EndsGood, IsGood,
}
use nightfall_photo_ingress.Onedrive.Poll.Pages.{page_loop-Triple}

module _ (remote : Remote) (a : Account) (first : String) (old : Option String) where
  Keeps-diagnostic : (key : String) (n : ℕ) → Keeps (Safe remote a first old) (diagnostic key n)
  unfolding diagnostic
  Keeps-diagnostic key n =
      Keeps-if (eqb n 0) _ _ (Keeps-pure tt) ((Keeps-anomaly remote a first old) key n)

  Keeps-export : Keeps (Safe remote a first old) export_diagnostics
  unfolding export_diagnostics
  Keeps-export = search (keeps_rules, Keeps-diagnostic) depth 20

  Keeps-arm_breakers : Keeps (Safe remote a first old) (arm_breakers remote a)
  unfolding arm_breakers
  Keeps-arm_breakers =
      search (keeps_rules, (Keeps-anomaly remote a first old), (Keeps-arm remote a first old)) depth
        16

  Keeps-complete :
      (w : Walk)
      → (IsGood remote a first old) w
      → Keeps (Safe remote a first old) (complete remote a w)
  unfolding complete
  Keeps-complete w good =
      Keeps-then (save_link w.delta_link) _
        ((Keeps-save_link remote a first old) w.delta_link good.delta_linked)
        (Keeps-then export_diagnostics _ Keeps-export
          (Keeps-then (arm_breakers remote a) _ Keeps-arm_breakers (Keeps-gets _)))

  Keeps-after_walk :
      (walked : Walked)
      → (EndsGood remote a first old) walked
      → Keeps (Safe remote a first old) (after_walk remote a walked)
  unfolding after_walk EndsGood nothing_polled
  Keeps-after_walk abandoned good = Keeps-gets _
  Keeps-after_walk (budget_reached w) good = Keeps-complete w good
  Keeps-after_walk (all_pages w) good =
      Keeps-if (is_some w.delta_link) _ _ (Keeps-complete w good) (Keeps-raise _)

  start-IsGood : (IsGood remote a first old) (start_walk remote a first)
  start-IsGood = record {
    next_chained = λ url e. subst (Chain remote first) (some_inj url e) begin;
    delta_linked = λ link e. absurd (none_some link e);
  }
    where
      some_inj : (url : String) → some first ≡ some url → first ≡ url
      some_inj url e = cc

      none_some : (link : String) → ◌≡◌ {A = Option String} none (some link) → ⊥
      none_some link e = cc

  -- A poll from `first` on.
  walk_from-Triple :
      Triple
        (Safe remote a first old)
        (λ result. (Safe remote a first old))
        (Safe remote a first old)
        (page_loop remote a a.max_delta_pages (start_walk remote a first) >>= after_walk remote a)
  walk_from-Triple =
      Triple-bind _ (after_walk remote a)
        ((page_loop-Triple remote a first old) a.max_delta_pages _ start-IsGood)
        (λ walked. record { at = λ p h. (Triple-Keeps _ (Keeps-after_walk walked h.1)).at p h.0 })

  cooldown-Triple :
      Triple
        (Safe remote a first old)
        (λ result. (Safe remote a first old))
        (Safe remote a first old)
        (anomaly "delta_breaker_cooldown_active" 1 >> nothing_polled remote a)
  unfolding nothing_polled
  cooldown-Triple = Triple-Keeps _ (
      Keeps-then (anomaly "delta_breaker_cooldown_active" 1) _
        ((Keeps-anomaly remote a first old) _ 1) (Keeps-gets _))

settled :
    (remote : Remote) (first : String) (old : Option String) (r : Result PollResult) (p : Poll)
    → Ends
        (λ result p'. IsCheckpoint remote first old p'.cursor)
        (λ p'. IsCheckpoint remote first old p'.cursor)
        r
        p
    → IsCheckpoint remote first old p.cursor
settled remote first old (ok result) p h = h
settled remote first old (err e) p h = h

-- Whatever the server answers, a poll leaves a cursor that its pages vouch for, whether it returns or
-- raises. The cursor is the one before the poll, or it is a next link or a delta link that a page
-- bears which was read as the answer to a GET without an error status; and the address of that page
-- is the one that the poll starts from, or a chain of next links of such pages leads to it from there.
-- So it is never cleared, also not where a page is answered with 410.
pub poll_account_once-IsCheckpoint :
    (remote : Remote) (a : Account) (p : Poll)
    → let (result, p') = poll_account_once remote a p in
      IsCheckpoint remote (start_url remote a p.cursor) p.cursor p'.cursor
unfolding poll_account_once
poll_account_once-IsCheckpoint remote a p =
    settled remote (start_url remote a p.cursor) p.cursor _ _ (
      (Triple-if (is_breaker_cooldown_active a.now_epoch p.incidents) _ _
          (cooldown-Triple remote a (start_url remote a p.cursor) p.cursor)
          (Triple-then
            (on_staging (
              recover_staging_tmp_files remote a.now_epoch
                (cat a.settings.staging_root (cat "/" a.settings.account_name)) a.stale_tmp))
            _ (Triple-Keeps _ (Keeps-on_staging remote a (start_url remote a p.cursor) p.cursor _))
            (walk_from-Triple remote a (start_url remote a p.cursor) p.cursor))).at
        (record p { staging = fresh p.staging; anomalies = [] }) (inl refl))
