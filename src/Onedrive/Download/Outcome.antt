-- ===== src/Onedrive/Download/Outcome.antt =====
-- How a download ends, and what its retries cost (`download_with_retry` of
-- src/nightfall_photo_ingress/adapters/onedrive/client.py).
use nightfall_photo_ingress.Base.{
  ℕ, zero, suc, ◌+◌, ◌≤◌, ◌<◌, ◌≡◌, refl, ◌∙◌, sym, ap, String, Bool, true, false, Option, none,
  some, List, [], ◌∷◌, ◌++◌, eqb, leb, length, All, append-nil, append_assoc, arith, inl, inr,
  Bool-cases, Option-cases, eq_refl,
}
use nightfall_photo_ingress.Base.Exec.{Error, Result, ok, err, download_failed}
use nightfall_photo_ingress.World.{Fs, content, put}
use nightfall_photo_ingress.World.Laws.{content-remove, content-put}
use nightfall_photo_ingress.Onedrive.Retry.{
  RetryPolicy, Clockwork, classify_status, compute_delay-le,
}
use nightfall_photo_ingress.Onedrive.Download.{
  Disk, takes, not_opened, cut_off, cleanup_partial, is_stuck, Reply, transport_error, response,
  Session, Verdict, delivered, give_up, again, joined_chunks, size_error, throttled, cleaned,
  give_up_or_sleep, receive, handle_reply, download_attempts, download_with_retry,
}

-- A length is the one expected, if one is.
abbrev pub fits : Option ℕ → ℕ → Bool
fits none n = true
fits (some m) n = eqb n m

size_error-none :
    (expected : Option ℕ) (n : ℕ) → size_error expected n ≡ none → fits expected n ≡ true
unfolding size_error
size_error-none none n h = refl
size_error-none (some m) n h = ground arith

module _ (clockwork : Clockwork) (policy : RetryPolicy) (destination : String) where
  -- What is at the destination after an attempt with this verdict, if its removal does not fail, and
  -- what a sleep is bounded by.
  abbrev Settled : Option ℕ → ℕ → Bool → Verdict → Session → Type 0
  Settled expected attempt stuck delivered s =
      (bytes : List ℕ) × (content destination s.fs ≡ some bytes)
      × (fits expected (length bytes) ≡ true)
  Settled expected attempt stuck (give_up code) s = stuck ≡ false → content destination s.fs ≡ none
  Settled expected attempt stuck (again delay) s =
      (stuck ≡ false → content destination s.fs ≡ none)
      × (delay ≤ policy.max_delay)
      × (attempt < policy.max_attempts)

  -- One attempt neither counts a request nor sleeps by itself.
  record AttemptEnds (expected : Option ℕ) (attempt : ℕ) (stuck : Bool) (s : Session)
      (r : Verdict × Session) : Type 0 where
    requests : r.1.download_request_total ≡ s.download_request_total
    slept : r.1.sleeps ≡ s.sleeps
    settled : Settled expected attempt stuck r.0 r.1

  removed :
      (stuck : Bool) (fs : Fs)
      → stuck ≡ false
      → content destination (cleanup_partial clockwork policy destination stuck fs) ≡ none
  unfolding cleanup_partial
  removed true fs e = cc
  removed false fs e = content-remove destination destination fs ∙ rw (eq_refl destination)

  give_up_or_sleep-Settled :
      (expected : Option ℕ) (attempt : ℕ) (stuck : Bool) (code : String × Option ℕ)
      (hint : Option ℕ) (s : Session)
      → (stuck ≡ false → content destination s.fs ≡ none)
      → Settled expected attempt stuck
          (give_up_or_sleep clockwork policy destination attempt code hint)
          s
  give_up_or_sleep-Settled expected attempt stuck code hint s gone =
      elim (Bool-cases (leb policy.max_attempts attempt)) [
        | inl last ↦ rw last gone
        | inr early ↦
            rw early
              (gone, compute_delay-le attempt hint policy (clockwork.jitter attempt), ground arith)
      ]

  receive-AttemptEnds :
      (expected : Option ℕ) (attempt : ℕ) (chunks : List (List ℕ)) (disk : Disk) (stuck : Bool)
      (s : Session)
      → AttemptEnds expected attempt stuck s
          (receive clockwork policy destination expected attempt chunks disk stuck s)
  unfolding receive
  receive-AttemptEnds expected attempt chunks not_opened stuck s = record {
    requests = refl;
    slept = refl;
    settled = removed stuck s.fs;
  }
  receive-AttemptEnds expected attempt chunks (cut_off bytes) stuck s = record {
    requests = refl;
    slept = refl;
    settled = removed stuck (put destination bytes s.fs);
  }
  receive-AttemptEnds expected attempt chunks takes stuck s =
      let bytes : List ℕ = joined_chunks chunks in
      elim (Option-cases (size_error expected (length bytes))) [
        | inl good ↦
            rw (good, receive)
              (record {
                requests = refl;
                slept = refl;
                settled = (
                  bytes,
                  content-put destination destination bytes s.fs ∙ rw (eq_refl destination),
                  size_error-none expected (length bytes) good,
                );
              })
        | inr (code, bad) ↦
            rw (bad, receive)
              (record {
                requests = refl;
                slept = refl;
                settled =
                    give_up_or_sleep-Settled expected attempt stuck (code, none) none
                      (cleaned clockwork policy destination stuck
                        (record s { fs = put destination bytes s.fs }))
                      (removed stuck (put destination bytes s.fs));
              })
      ]

  throttled-fs :
      (status : ℕ) (s : Session) → (throttled clockwork policy destination status s).fs ≡ s.fs
  unfolding throttled
  throttled-fs status s = ground arith

  handle_reply-AttemptEnds :
      (expected : Option ℕ) (attempt : ℕ) (reply : Reply) (s : Session)
      → AttemptEnds expected attempt
          (is_stuck reply)
          s
          (handle_reply clockwork policy destination expected attempt reply s)
  unfolding handle_reply throttled
  handle_reply-AttemptEnds expected attempt (transport_error stuck) s = record {
    requests = refl;
    slept = refl;
    settled =
        give_up_or_sleep-Settled expected attempt stuck ("download_transport_error", none) none _
          (removed stuck s.fs);
  }
  handle_reply-AttemptEnds expected attempt (response status header chunks disk stuck) s =
      elim (Bool-cases (classify_status status)) [
        | inl transient ↦ rw transient (record {
          requests = ground arith;
          slept = ground arith;
          settled =
              give_up_or_sleep-Settled expected attempt stuck
                ("download_retry_exhausted", some status) _ _
                (λ e.
                  ap (λ fs. content destination fs) (throttled-fs status _) ∙ removed stuck s.fs e);
        })
        | inr settled ↦ elim (Bool-cases (leb 400 status)) [
          | inl refused ↦
              rw settled (
                rw refused (record { requests = refl; slept = refl; settled = removed stuck s.fs }))
          | inr fine ↦
              rw settled (rw fine (receive-AttemptEnds expected attempt chunks disk stuck s))
        ]
      ]

  -- No removal of a partial file fails.
  abbrev IsRemovable : (ℕ → Reply) → Type 0
  IsRemovable http = (attempt : ℕ) → is_stuck (http attempt) ≡ false

  abbrev Final : (ℕ → Reply) → Option ℕ → Result (Unit {0}) → Session → Type 0
  Final http expected (ok tt) s =
      (bytes : List ℕ) × (content destination s.fs ≡ some bytes)
      × (fits expected (length bytes) ≡ true)
  Final http expected (err e) s = IsRemovable http → content destination s.fs ≡ none

  -- The end of a loop with `left` attempts.
  record LoopEnds (http : ℕ → Reply) (expected : Option ℕ) (left : ℕ) (s : Session)
      (r : Result (Unit {0}) × Session) : Type 0 where
    final : Final http expected r.0 r.1
    requests : r.1.download_request_total ≤ s.download_request_total + left
    slept :
        (more : List ℕ) × (r.1.sleeps ≡ s.sleeps ++ more)
        × All (λ d. d ≤ policy.max_delay) more
        × (length more < left)

  abbrev counted : Session → Session
  counted s = record s { download_request_total = s.download_request_total + 1 }

  abbrev slept_more : ℕ → Session → Session
  slept_more d s = record s { sleeps = s.sleeps ++ d ∷ [] }

  abbrev continue_with :
      (ℕ → Reply) → Option ℕ → ℕ → ℕ → Verdict × Session → Result (Unit {0}) × Session
  continue_with http expected left attempt (verdict, s) = elim verdict [
    | delivered ↦ (ok tt, s)
    | give_up code ↦ (err (download_failed code), s)
    | again delay ↦
        download_attempts clockwork policy destination http expected left (attempt + 1)
          (slept_more delay s)
  ]

  ends_here :
      (http : ℕ → Reply) (expected : Option ℕ) (left : ℕ) (s s' : Session) (r : Result (Unit {0}))
      → Final http expected r s'
      → s'.download_request_total ≡ s.download_request_total + 1
      → s'.sleeps ≡ s.sleeps
      → LoopEnds http expected (suc left) s (r, s')
  ends_here http expected left s s' r f n e = record {
    final = f;
    requests = omega (arith, n);
    slept = ([], e ∙ sym (append-nil s.sleeps), tt, omega arith);
  }

  goes_on :
      (http : ℕ → Reply) (expected : Option ℕ) (left d : ℕ) (s s' : Session)
      (r : Result (Unit {0}) × Session)
      → d ≤ policy.max_delay
      → s'.download_request_total ≡ s.download_request_total + 1
      → s'.sleeps ≡ s.sleeps
      → LoopEnds http expected left (slept_more d s') r
      → LoopEnds http expected (suc left) s r
  goes_on http expected left d s s' r h n e rest =
      let (more, same, bounded, few) = rest.slept in
      record {
        final = rest.final;
        requests = omega (arith, n, rest.requests);
        slept = (
          d ∷ more,
          same ∙ rw e (append_assoc s.sleeps (d ∷ []) more),
          (h, bounded),
          omega arith,
        );
      }

  continue_with-LoopEnds :
      (http : ℕ → Reply) (expected : Option ℕ) (left attempt : ℕ) (s : Session) (verdict : Verdict)
      (s' : Session)
      → AttemptEnds expected attempt (is_stuck (http attempt)) (counted s) (verdict, s')
      → attempt + suc left ≡ policy.max_attempts + 1
      → ((t : Session)
          → attempt < policy.max_attempts
          → LoopEnds http expected left t
              (download_attempts clockwork policy destination http expected left (attempt + 1) t))
      → LoopEnds http expected (suc left) s (continue_with http expected left attempt (verdict, s'))
  continue_with-LoopEnds http expected left attempt s delivered s' h e rest =
      ends_here http expected left s s' (ok tt) h.settled h.requests h.slept
  continue_with-LoopEnds http expected left attempt s (give_up code) s' h e rest =
      ends_here http expected left s s' (err (download_failed code))
        (λ removable. h.settled (removable attempt)) h.requests h.slept
  continue_with-LoopEnds http expected left attempt s (again d) s' h e rest =
      goes_on http expected left d s s' _ h.settled.1 h.requests h.slept
        (rest (slept_more d s') h.settled.2)

  download_attempts-LoopEnds :
      (http : ℕ → Reply) (expected : Option ℕ) (left attempt : ℕ) (s : Session)
      → 1 ≤ left
      → attempt + left ≡ policy.max_attempts + 1
      → LoopEnds http expected left s
          (download_attempts clockwork policy destination http expected left attempt s)
  unfolding download_attempts
  download_attempts-LoopEnds http expected zero attempt s pos e = absurd (omega arith)
  download_attempts-LoopEnds http expected (suc left) attempt s pos e =
      let r : Verdict × Session =
        handle_reply clockwork policy destination expected attempt (http attempt) (counted s) in
      continue_with-LoopEnds http expected left attempt s r.0 r.1
        (handle_reply-AttemptEnds expected attempt (http attempt) (counted s)) e
        (λ t early.
          download_attempts-LoopEnds http expected left (attempt + 1) t (omega arith) (omega arith))

  download_with_retry-LoopEnds :
      (http : ℕ → Reply) (expected : Option ℕ) (s : Session)
      → 1 ≤ policy.max_attempts
      → LoopEnds http expected policy.max_attempts s
          (download_with_retry clockwork policy destination http expected s)
  unfolding download_with_retry
  download_with_retry-LoopEnds http expected s h =
      download_attempts-LoopEnds http expected policy.max_attempts 1 s h (omega arith)

  Final-ok :
      (http : ℕ → Reply) (expected : Option ℕ) (r : Result (Unit {0})) (s : Session)
      → Final http expected r s
      → r ≡ ok tt
      → (bytes : List ℕ) × (content destination s.fs ≡ some bytes)
        × (fits expected (length bytes) ≡ true)
  Final-ok http expected (ok tt) s f e = f
  Final-ok http expected (err x) s f e = cc

  Final-err :
      (http : ℕ → Reply) (expected : Option ℕ) (r : Result (Unit {0})) (s : Session) (x : Error)
      → Final http expected r s
      → r ≡ err x
      → IsRemovable http
      → content destination s.fs ≡ none
  Final-err http expected (ok tt) s x f e removable = cc
  Final-err http expected (err y) s x f e removable = f removable

  -- The same for a size that is not known too.
  pub download_with_retry-fits :
      (http : ℕ → Reply) (expected : Option ℕ) (s : Session)
      → 1 ≤ policy.max_attempts
      → (download_with_retry clockwork policy destination http expected s).0 ≡ ok tt
      → (bytes : List ℕ) × (content destination
            (download_with_retry clockwork policy destination http expected s).1.fs
          ≡ some bytes)
        × (fits expected (length bytes) ≡ true)
  download_with_retry-fits http expected s h returned =
      Final-ok http expected _ _ (download_with_retry-LoopEnds http expected s h).final returned

  -- A download that returns, where at least one attempt is allowed, has left at the destination a
  -- file of exactly the size expected.
  pub download_with_retry-delivers :
      (http : ℕ → Reply) (size : ℕ) (s : Session)
      → 1 ≤ policy.max_attempts
      → (download_with_retry clockwork policy destination http (some size) s).0 ≡ ok tt
      → (bytes : List ℕ) × (content destination
            (download_with_retry clockwork policy destination http (some size) s).1.fs
          ≡ some bytes)
        × (length bytes ≡ size)
  download_with_retry-delivers http size s h returned =
      let (bytes, placed, sized) =
        Final-ok http (some size) _ _ (download_with_retry-LoopEnds http (some size) s h).final
          returned in
      (bytes, placed, ground arith)

  -- A download that raises a DownloadError, for whatever reason and after whatever attempts, leaves no
  -- file at the destination, where at least one attempt is allowed and no removal of a partial file
  -- fails; such a failure is passed over.
  pub download_with_retry-cleans :
      (http : ℕ → Reply) (expected : Option ℕ) (s : Session) (e : Error)
      → 1 ≤ policy.max_attempts
      → ((attempt : ℕ) → is_stuck (http attempt) ≡ false)
      → (download_with_retry clockwork policy destination http expected s).0 ≡ err e
      → content destination (download_with_retry clockwork policy destination http expected s).1.fs
        ≡ none
  download_with_retry-cleans http expected s e h removable raised =
      Final-err http expected _ _ e (download_with_retry-LoopEnds http expected s h).final raised
        removable

  -- Whatever the server answers, a download makes at most the attempts that the policy allows, and
  -- sleeps fewer times than that, each time at most the policy's longest delay. At least one attempt
  -- is allowed.
  pub download_with_retry-bounds :
      (http : ℕ → Reply) (expected : Option ℕ) (s : Session)
      → 1 ≤ policy.max_attempts
      → let s' = (download_with_retry clockwork policy destination http expected s).1 in
        (s'.download_request_total ≤ s.download_request_total + policy.max_attempts)
        × ((more : List ℕ) × (s'.sleeps ≡ s.sleeps ++ more)
            × All (λ d. d ≤ policy.max_delay) more
            × (length more < policy.max_attempts))
  download_with_retry-bounds http expected s h =
      let ends = download_with_retry-LoopEnds http expected s h in (ends.requests, ends.slept)
