-- ===== src/Onedrive/Download/Elsewhere.antt =====
-- A download touches no file but its destination (`download_with_retry` of
-- src/nightfall_photo_ingress/adapters/onedrive/client.py).
use nightfall_photo_ingress.Base.{
  ℕ, zero, suc, ◌+◌, ◌≡◌, refl, ◌∙◌, String, Bool, true, false, Option, List, [], ◌∷◌, ◌++◌, ◌==◌,
  arith, inl, inr, Option-cases, length,
}
use nightfall_photo_ingress.Base.Exec.{Result, ok, err, download_failed}
use nightfall_photo_ingress.World.{Fs, content, put}
use nightfall_photo_ingress.World.Laws.{content-remove, content-put}
use nightfall_photo_ingress.Onedrive.Retry.{RetryPolicy, Clockwork}
use nightfall_photo_ingress.Onedrive.Download.{
  Disk, takes, not_opened, cut_off, cleanup_partial, Reply, transport_error, response, Session,
  Verdict, delivered, give_up, again, joined_chunks, size_error, throttled, receive, handle_reply,
  download_attempts, download_with_retry,
}

module _ (clockwork : Clockwork) (policy : RetryPolicy) (destination q : String)
    (apart : (destination == q) ≡ false) where
  cleanup_partial-elsewhere :
      (stuck : Bool) (fs : Fs)
      → content q (cleanup_partial clockwork policy destination stuck fs) ≡ content q fs
  unfolding cleanup_partial
  cleanup_partial-elsewhere true fs = refl
  cleanup_partial-elsewhere false fs = content-remove q destination fs ∙ rw apart refl

  put-elsewhere : (bytes : List ℕ) (fs : Fs) → content q (put destination bytes fs) ≡ content q fs
  put-elsewhere bytes fs = content-put q destination bytes fs ∙ rw apart refl

  receive-elsewhere :
      (expected : Option ℕ) (attempt : ℕ) (chunks : List (List ℕ)) (disk : Disk) (stuck : Bool)
      (s : Session)
      → content q (receive clockwork policy destination expected attempt chunks disk stuck s).1.fs
        ≡ content q s.fs
  unfolding receive
  receive-elsewhere expected attempt chunks not_opened stuck s =
      cleanup_partial-elsewhere stuck s.fs
  receive-elsewhere expected attempt chunks (cut_off bytes) stuck s =
      cleanup_partial-elsewhere stuck (put destination bytes s.fs) ∙ put-elsewhere bytes s.fs
  receive-elsewhere expected attempt chunks takes stuck s =
      let bytes = joined_chunks chunks in
      elim (Option-cases (size_error expected (length bytes))) [
        | inl good ↦ rw (good, receive) (put-elsewhere bytes s.fs)
        | inr (code, bad) ↦
            rw (bad, receive)
              (cleanup_partial-elsewhere stuck (put destination bytes s.fs)
                ∙ put-elsewhere bytes s.fs)
      ]

  handle_reply-elsewhere :
      (expected : Option ℕ) (attempt : ℕ) (reply : Reply) (s : Session)
      → content q (handle_reply clockwork policy destination expected attempt reply s).1.fs
        ≡ content q s.fs
  unfolding handle_reply throttled
  handle_reply-elsewhere expected attempt (transport_error stuck) s =
      cleanup_partial-elsewhere stuck s.fs
  handle_reply-elsewhere expected attempt (response status header chunks disk stuck) s = ground (
    arith,
    cleanup_partial-elsewhere stuck s.fs,
    receive-elsewhere expected attempt chunks disk stuck s,
  )

  -- What the loop does with a verdict keeps the file, if the rest of the loop does.
  continued-elsewhere :
      (rest : Session → Result (Unit {0}) × Session) (verdict : Verdict) (s s' : Session)
      → ((u : Session) → content q (rest u).1.fs ≡ content q u.fs)
      → content q s'.fs ≡ content q s.fs
      → content q
          (elim verdict as (λ v. Result (Unit {0}) × Session) [
            | delivered ↦ (ok tt, s')
            | give_up code ↦ (err (download_failed code), s')
            | again delay ↦ rest (record s' { sleeps = s'.sleeps ++ delay ∷ [] })
          ]).1.fs
        ≡ content q s.fs
  continued-elsewhere rest delivered s s' k h = h
  continued-elsewhere rest (give_up code) s s' k h = h
  continued-elsewhere rest (again delay) s s' k h =
      k (record s' { sleeps = s'.sleeps ++ delay ∷ [] }) ∙ h

  download_attempts-elsewhere :
      (http : ℕ → Reply) (expected : Option ℕ) (left attempt : ℕ) (s : Session)
      → content q (download_attempts clockwork policy destination http expected left attempt s).1.fs
        ≡ content q s.fs
  unfolding download_attempts
  download_attempts-elsewhere http expected zero attempt s = refl
  download_attempts-elsewhere http expected (suc left) attempt s =
      let s1 : Session = record s { download_request_total = s.download_request_total + 1 } in
      let (verdict, s') =
        handle_reply clockwork policy destination expected attempt (http attempt) s1 in
      continued-elsewhere
        (download_attempts clockwork policy destination http expected left (attempt + 1)) verdict s1
        s' (download_attempts-elsewhere http expected left (attempt + 1))
        (handle_reply-elsewhere expected attempt (http attempt) s1)

  -- Whatever the server answers, another file than the destination is as before.
  pub download_with_retry-elsewhere :
      (http : ℕ → Reply) (expected : Option ℕ) (s : Session)
      → content q (download_with_retry clockwork policy destination http expected s).1.fs
        ≡ content q s.fs
  unfolding download_with_retry
  download_with_retry-elsewhere http expected s =
      download_attempts-elsewhere http expected policy.max_attempts 1 s
