-- ===== src/Onedrive/Staging/Deliver.antt =====
-- What the download of one candidate leaves at its final path (`download_candidates` of
-- src/nightfall_photo_ingress/adapters/onedrive/client.py).
use nightfall_photo_ingress.Base.{
  Bool, ◌⊎◌, ℕ, ◌≤◌, String, Bool, true, false, not, ◌&&◌, ◌≡◌, refl, ◌∙◌, Option, none, some, List,
  ◌==◌, eq_refl, length, arith, inl, inr, Option-cases, is_some,
}
use nightfall_photo_ingress.Base.Exec.{download_failed, Result, ok, err, Exec}
use nightfall_photo_ingress.Base.Exec.Keeps.{Keeps, keeps_rules}
use nightfall_photo_ingress.Base.Exec.Triples.{
  Triple, Ends, Triple-pure, Triple-raise, Triple-if, Triple-bind, Triple-then, Triple-from,
}
use nightfall_photo_ingress.World.{Fs, content, put, remove}
use nightfall_photo_ingress.World.Laws.{content-remove, content-put}
use nightfall_photo_ingress.Onedrive.Download.{download_with_retry}
use nightfall_photo_ingress.Onedrive.Download.Outcome.{fits, download_with_retry-fits}
use nightfall_photo_ingress.Onedrive.Download.Elsewhere.{download_with_retry-elsewhere}
use nightfall_photo_ingress.Onedrive.Delta.{RemoteCandidate}
use nightfall_photo_ingress.Onedrive.Staging.{
  Remote, PollSettings, Staging, next_call, unless_failing, on_disk, log_event, unlink_now,
  replace_now, log_handoff, Paths, DownloadedHandoffCandidate, ghost, lifecycle, unlink_file,
  replace_file, set_files, caught, is_download_url_unreachable, download, resolve_download_url_once,
  resolved, initial_url, after_second, second_download, after_first, fetch, handoff_of, hand_off,
  finish, stage_candidate, record_ghost_reason,
}

module _ (remote : Remote) (ps : PollSettings) (c : RemoteCandidate) (paths : Paths)
    (old : Option (List ℕ)) (attempts : 1 ≤ ps.policy.max_attempts)
    (tmp_apart : (paths.tmp_path == paths.final_path) ≡ false)
    (quarantine_apart : (paths.quarantine_path == paths.final_path) ≡ false) where
  -- The final path holds what it held before.
  Kept : Staging → Type 0
  Kept s = content paths.final_path s.session.fs ≡ old

  -- A file of the size on record, if there is one, is at this path.
  HasSized : String → Staging → Type 0
  HasSized p s =
      (bytes : List ℕ) × (content p s.session.fs ≡ some bytes)
      × (fits c.size_bytes (length bytes) ≡ true)

  -- How an error leaves the final path: as it was, or with a file of the size on record.
  abbrev Aborted : Staging → Type 0
  Aborted s = Kept s ⊎ HasSized paths.final_path s

  Kept-Aborted : {A : Type 0} (r : Result A) (s : Staging) → Kept s → Ends (λ a. Kept) Aborted r s
  Kept-Aborted (ok a) s h = h
  Kept-Aborted (err e) s h = inl h

  Triple-Kept : {A : Type 0} (m : Exec Staging A) → Keeps Kept m → Triple Kept (λ a. Kept) Aborted m
  Triple-Kept m k = record { at = λ s h. Kept-Aborted (m s).0 (m s).1 (k.at s h) }

  Keeps-ghost : (reason : String) → Keeps Kept (ghost reason)
  unfolding Kept record_ghost_reason ghost
  Keeps-ghost reason = record { at = λ s h. h }

  -- A call of the disk, whether it fails or not.
  unless_failing-Ends :
      (P : Staging → Type 0) (Q : Unit {0} → Staging → Type 0) (E : Staging → Type 0) (fails : Bool)
      (call : Exec Staging Unit) (s : Staging)
      → ((s : Staging) → P s → E (next_call s))
      → ((s : Staging) → P s → P (next_call s))
      → Triple P Q E call
      → P s
      → Ends Q E (unless_failing fails call s).0 (unless_failing fails call s).1
  unless_failing-Ends P Q E true call s raised kept called h = raised s h
  unless_failing-Ends P Q E false call s raised kept called h = called.at (next_call s) (kept s h)

  on_disk-Triple :
      (P : Staging → Type 0) (Q : Unit {0} → Staging → Type 0) (E : Staging → Type 0)
      (call : Exec Staging Unit)
      → ((s : Staging) → P s → E (next_call s))
      → ((s : Staging) → P s → P (next_call s))
      → Triple P Q E call
      → Triple P Q E (on_disk remote call)
  unfolding on_disk
  on_disk-Triple P Q E call raised kept called = record {
    at = λ s h. unless_failing-Ends P Q E (remote.disk_fails s.calls) call s raised kept called h;
  }

  -- Where the final path is kept: in either end.
  on_disk-Kept :
      (call : Exec Staging Unit)
      → Keeps Kept call
      → Triple Kept (λ a. Kept) Aborted (on_disk remote call)
  unfolding Kept
  on_disk-Kept call k =
      on_disk-Triple Kept (λ a. Kept) Aborted call (λ s h. inl h) (λ s h. h) (Triple-Kept call k)

  lifecycle-Kept :
      (event item path : String)
      → Triple Kept (λ a. Kept) Aborted (lifecycle remote event item path)
  unfolding lifecycle Kept
  lifecycle-Kept event item path =
      on_disk-Kept (log_event event item path) (record { at = λ s h. h })

  unlink-Kept : Triple Kept (λ a. Kept) Aborted (unlink_file remote paths.tmp_path)
  unfolding unlink_file Kept
  unlink-Kept = on_disk-Kept (unlink_now paths.tmp_path) (record {
    at = λ s h. content-remove paths.final_path paths.tmp_path s.session.fs ∙ rw tmp_apart h;
  })

  Keeps-resolve : (item : String) → Keeps Kept (resolve_download_url_once remote ps item)
  unfolding Kept resolve_download_url_once
  Keeps-resolve item = record { at = λ s h. h }

  Keeps-resolved : (found : Option String × String) → Keeps Kept (resolved remote ps found)
  unfolding resolved record_ghost_reason
  Keeps-resolved (none, reason) = search (keeps_rules, Keeps-ghost)
  Keeps-resolved (some url, reason) = search keeps_rules

  Keeps-initial_url : Keeps Kept (initial_url remote ps c)
  unfolding initial_url
  Keeps-initial_url = search (keeps_rules, Keeps-ghost, Keeps-resolve, Keeps-resolved) depth 12

  -- After a download, by its failure, and after the fetch.
  Fetched : Option (String × Option ℕ) → Staging → Type 0
  Fetched outcome s = Kept s × (outcome ≡ none → HasSized paths.tmp_path s)

  Got : Bool → Staging → Type 0
  Got here s = Kept s × (here ≡ true → HasSized paths.tmp_path s)

  Fetched-Kept : (outcome : Option (String × Option ℕ)) (s : Staging) → Fetched outcome s → Kept s
  unfolding Fetched
  Fetched-Kept outcome s h = h.0

  Got-Kept : (here : Bool) (s : Staging) → Got here s → Kept s
  unfolding Got
  Got-Kept here s h = h.0

  caught-Ends :
      (r : Result (Unit {0})) (s : Staging)
      → Kept s
      → (r ≡ ok tt → HasSized paths.tmp_path s)
      → Ends Fetched Aborted (caught r) s
  unfolding Fetched
  caught-Ends (ok tt) s k sized = (k, λ e. sized refl)
  caught-Ends (err (download_failed f)) s k sized = (k, λ e. absurd (some_none f e))
    where
      some_none : (f : String × Option ℕ) → some f ≡ none → ⊥
      some_none f e = cc
  caught-Ends (err _) s k sized = inl k

  download-Triple :
      (url : String)
      → Triple Kept Fetched Aborted (download remote ps url paths.tmp_path c.size_bytes)
  unfolding download Kept HasSized
  download-Triple url = record {
    at = λ s h.
        caught-Ends
          (download_with_retry ps.clockwork ps.policy paths.tmp_path (remote.body s.calls url)
            c.size_bytes s.session).0
          _
          (download_with_retry-elsewhere ps.clockwork ps.policy paths.tmp_path paths.final_path
              tmp_apart (remote.body s.calls url) c.size_bytes s.session
            ∙ h)
          (download_with_retry-fits ps.clockwork ps.policy paths.tmp_path (remote.body s.calls url)
            c.size_bytes s.session attempts);
  }

  nothing-Got : (s : Staging) → Kept s → Got false s
  unfolding Got
  nothing-Got s k = (k, λ e. absurd (false_true e))
    where
      false_true : false ≡ true → ⊥
      false_true e = cc

  after_second-Triple :
      (outcome : Option (String × Option ℕ))
      → Triple (Fetched outcome) Got Aborted (after_second remote ps paths outcome)
  unfolding after_second
  after_second-Triple none = Triple-pure true (λ s h. unfold Fetched Got in (h.0, λ e. h.1 refl))
  after_second-Triple (some failure) = Triple-from {P = Kept} _ (Fetched-Kept (some failure)) (
      Triple-then (unlink_file remote paths.tmp_path) _ unlink-Kept (
        Triple-if (is_download_url_unreachable failure) _ _
          (Triple-then (ghost "ghost_download_unreachable_after_refresh") _
            (Triple-Kept _ (Keeps-ghost "ghost_download_unreachable_after_refresh"))
            (Triple-pure false nothing-Got))
          (Triple-raise (download_failed failure) (λ s k. inl k))))

  second_download-Triple :
      (url : Option String) → Triple Kept Got Aborted (second_download remote ps c paths url)
  unfolding second_download
  second_download-Triple none = Triple-pure false nothing-Got
  second_download-Triple (some url) =
      Triple-bind (download remote ps url paths.tmp_path c.size_bytes) _ (download-Triple url)
        after_second-Triple

  after_first-Triple :
      (outcome : Option (String × Option ℕ))
      → Triple (Fetched outcome) Got Aborted (after_first remote ps c paths outcome)
  unfolding after_first
  after_first-Triple none = Triple-pure true (λ s h. unfold Fetched Got in (h.0, λ e. h.1 refl))
  after_first-Triple (some failure) = Triple-from {P = Kept} _ (Fetched-Kept (some failure)) (
      Triple-then (unlink_file remote paths.tmp_path) _ unlink-Kept (
        Triple-if (not (is_download_url_unreachable failure)) _ _
          (Triple-raise (download_failed failure) (λ s k. inl k))
          (Triple-bind (resolve_download_url_once remote ps c.item_id) _
            (Triple-Kept _ (Keeps-resolve c.item_id))
            (λ found.
              Triple-bind (resolved remote ps found) _ (Triple-Kept _ (Keeps-resolved found))
                second_download-Triple))))

  fetch-Triple : (url : Option String) → Triple Kept Got Aborted (fetch remote ps c paths url)
  unfolding fetch
  fetch-Triple none = Triple-pure false nothing-Got
  fetch-Triple (some url) =
      Triple-bind (download remote ps url paths.tmp_path c.size_bytes) _ (download-Triple url)
        after_first-Triple

  -- What a candidate leaves: its file at the final path with its hand-off, or the path as it was.
  Left : Option DownloadedHandoffCandidate → Staging → Type 0
  Left none s = Kept s
  Left (some h) s = (h ≡ handoff_of c paths) × HasSized paths.final_path s

  Keeps-quarantine : Keeps Kept (replace_now paths.tmp_path paths.quarantine_path)
  unfolding Kept
  Keeps-quarantine = record {
    at = λ s h. elim (Option-cases (content paths.tmp_path s.session.fs)) [
      | inl missing ↦ ground arith
      | inr (bytes, there) ↦
          rw (there, replace_now)
            (content-put paths.final_path paths.quarantine_path bytes
                (remove paths.tmp_path s.session.fs)
              ∙ rw quarantine_apart
                  (content-remove paths.final_path paths.tmp_path s.session.fs ∙ rw tmp_apart h))
    ];
  }

  quarantine-Kept :
      Triple Kept (λ a. Kept) Aborted (replace_file remote paths.tmp_path paths.quarantine_path)
  unfolding replace_file
  quarantine-Kept = on_disk-Kept (replace_now paths.tmp_path paths.quarantine_path) Keeps-quarantine

  replace_now_lem :
      (p q : String) (bytes : List ℕ) (s : Staging)
      → content p s.session.fs ≡ some bytes
      → replace_now p q s ≡ (ok tt, set_files s (put q bytes (remove p s.session.fs)))
  replace_now_lem p q bytes s there = rw (there, replace_now) refl

  -- The rename to the final path.
  replace_now-Triple :
      Triple
        (Got true)
        (λ a. HasSized paths.final_path)
        Aborted
        (replace_now paths.tmp_path paths.final_path)
  unfolding Got HasSized
  replace_now-Triple = record {
    at = λ s h.
        let (bytes, there, sized) = h.1 refl in
        rw (replace_now_lem paths.tmp_path paths.final_path bytes s there) (
          bytes,
          content-put paths.final_path paths.final_path bytes (remove paths.tmp_path s.session.fs)
              ∙ rw (eq_refl paths.final_path) refl,
          sized,
        );
  }

  replace-Triple :
      Triple
        (Got true)
        (λ a. HasSized paths.final_path)
        Aborted
        (replace_file remote paths.tmp_path paths.final_path)
  unfolding replace_file Got Kept HasSized
  replace-Triple =
      on_disk-Triple (Got true) (λ a. HasSized paths.final_path) Aborted
        (replace_now paths.tmp_path paths.final_path) (λ s h. inl h.0) (λ s h. h) replace_now-Triple

  completed-Triple :
      Triple
        (Got true)
        (λ a. Got true)
        Aborted
        (lifecycle remote "download_completed" c.item_id paths.tmp_path)
  unfolding lifecycle Got Kept HasSized
  completed-Triple =
      on_disk-Triple (Got true) (λ a. Got true) Aborted
        (log_event "download_completed" c.item_id paths.tmp_path) (λ s h. inl h.0) (λ s h. h)
        (record { at = λ s h. h })

  -- What follows the rename leaves the file there, whether it fails or not.
  ready-Triple :
      Triple
        (HasSized paths.final_path)
        (λ a. HasSized paths.final_path)
        Aborted
        (lifecycle remote "ready_for_hash" c.item_id paths.final_path)
  unfolding lifecycle HasSized
  ready-Triple =
      on_disk-Triple (HasSized paths.final_path) (λ a. HasSized paths.final_path) Aborted
        (log_event "ready_for_hash" c.item_id paths.final_path) (λ s h. inr h) (λ s h. h)
        (record { at = λ s h. h })

  hand_off-Triple :
      Triple
        (HasSized paths.final_path)
        (λ a. HasSized paths.final_path)
        Aborted
        (hand_off remote c paths)
  unfolding hand_off HasSized
  hand_off-Triple =
      on_disk-Triple (HasSized paths.final_path) (λ a. HasSized paths.final_path) Aborted
        (log_handoff c paths) (λ s h. inr h) (λ s h. h) (record { at = λ s h. h })

  finish-Triple : (here : Bool) → Triple (Got here) Left Aborted (finish remote ps c paths here)
  unfolding finish
  finish-Triple false = Triple-pure none (λ s h. unfold Left Got in h.0)
  finish-Triple true =
      Triple-then (lifecycle remote "download_completed" c.item_id paths.tmp_path) _
        completed-Triple
        (Triple-if (not (is_some c.size_bytes) && (ps.integrity_mode == "tolerant")) _ _
          (Triple-from {P = Kept} _ (Got-Kept true) (
            Triple-then (replace_file remote paths.tmp_path paths.quarantine_path) _ quarantine-Kept
              (Triple-then (ghost "integrity_missing_expected_size_quarantined") _
                (Triple-Kept _ (Keeps-ghost "integrity_missing_expected_size_quarantined"))
                (Triple-then
                  (lifecycle remote "download_quarantined" c.item_id paths.quarantine_path) _
                  (lifecycle-Kept "download_quarantined" c.item_id paths.quarantine_path)
                  (Triple-pure none (λ s k. unfold Left in k))))))
          (Triple-then (replace_file remote paths.tmp_path paths.final_path) _ replace-Triple (
            Triple-then (lifecycle remote "ready_for_hash" c.item_id paths.final_path) _
              ready-Triple
              (Triple-then (hand_off remote c paths) _ hand_off-Triple
                (Triple-pure (some (handoff_of c paths)) (λ s h. unfold Left in (refl, h)))))))

  stage_candidate-Triple : Triple Kept Left Aborted (stage_candidate remote ps c paths)
  unfolding stage_candidate
  stage_candidate-Triple =
      Triple-if (not (is_some c.size_bytes) && (ps.integrity_mode == "strict")) _ _
        (Triple-then (ghost "integrity_missing_expected_size_blocked") _
          (Triple-Kept _ (Keeps-ghost "integrity_missing_expected_size_blocked"))
          (Triple-pure none (λ s k. unfold Left in k)))
        (Triple-then (lifecycle remote "download_started" c.item_id paths.tmp_path) _
          (lifecycle-Kept "download_started" c.item_id paths.tmp_path)
          (Triple-bind (initial_url remote ps c) _ (Triple-Kept _ Keeps-initial_url)
            (λ url. Triple-bind (fetch remote ps c paths url) _ (fetch-Triple url) finish-Triple)))

-- What the outcome of a candidate says of its final path, which held `old`.
pub IsDelivered :
    RemoteCandidate
    → Paths
    → Option (List ℕ)
    → Result (Option DownloadedHandoffCandidate)
    → Fs
    → Type 0
IsDelivered c paths old (ok (some h)) fs =
    (h ≡ handoff_of c paths)
    × ((bytes : List ℕ) × (content paths.final_path fs ≡ some bytes)
        × (fits c.size_bytes (length bytes) ≡ true))
IsDelivered c paths old (ok none) fs = content paths.final_path fs ≡ old
IsDelivered c paths old (err e) fs =
    (content paths.final_path fs ≡ old)
    ⊎ ((bytes : List ℕ) × (content paths.final_path fs ≡ some bytes)
        × (fits c.size_bytes (length bytes) ≡ true))

Ends-IsDelivered :
    (remote : Remote) (ps : PollSettings) (c : RemoteCandidate) (paths : Paths)
    (old : Option (List ℕ)) (attempts : 1 ≤ ps.policy.max_attempts)
    (tmp : (paths.tmp_path == paths.final_path) ≡ false)
    (quarantine : (paths.quarantine_path == paths.final_path) ≡ false)
    (r : Result (Option DownloadedHandoffCandidate)) (s : Staging)
    → Ends
        (Left remote ps c paths old attempts tmp quarantine)
        (Aborted remote ps c paths old attempts tmp quarantine)
        r
        s
    → IsDelivered c paths old r s.session.fs
unfolding Kept Left HasSized IsDelivered
Ends-IsDelivered remote ps c paths old attempts tmp quarantine (ok (some h)) s e = e
Ends-IsDelivered remote ps c paths old attempts tmp quarantine (ok none) s e = e
Ends-IsDelivered remote ps c paths old attempts tmp quarantine (err x) s e = e

-- Whatever happens to a candidate, its final path is safe. If it is handed off, the hand-off names it
-- and its final path, and a file is there that has the size on record, if there is one. If it is
-- skipped, the final path holds what it held before. If an error is raised, that of the server, of the
-- token, or of the disk at any call, the final path holds what it held before or a file of the size on
-- record. At least one attempt is allowed, and neither the temporary path nor the quarantine is the
-- final path.
pub stage_candidate-safe :
    (remote : Remote) (ps : PollSettings) (c : RemoteCandidate) (paths : Paths) (s : Staging)
    → 1 ≤ ps.policy.max_attempts
    → (paths.tmp_path == paths.final_path) ≡ false
    → (paths.quarantine_path == paths.final_path) ≡ false
    → let (r, s') = stage_candidate remote ps c paths s in
      IsDelivered c paths (content paths.final_path s.session.fs) r s'.session.fs
unfolding Kept
stage_candidate-safe remote ps c paths s attempts tmp quarantine =
    let old = content paths.final_path s.session.fs in
    Ends-IsDelivered remote ps c paths old attempts tmp quarantine _ _
      ((stage_candidate-Triple remote ps c paths old attempts tmp quarantine).at s refl)
