-- ===== src/Onedrive/Download.antt =====
-- The download of one file with bounded retries (`download_with_retry` of
-- src/nightfall_photo_ingress/adapters/onedrive/client.py). Trace events are left out, and the
-- counters are always kept.
pub mod Outcome
pub mod Elsewhere
use nightfall_photo_ingress.Base.{
  ℕ, zero, suc, ◌+◌, String, Bool, true, false, not, ◌&&◌, ◌||◌, Option, none, some, List, [], ◌∷◌,
  ◌++◌, eqb, leb, ltb, length, if◌then◌else◌,
}
use nightfall_photo_ingress.Base.Exec.{Result, ok, err, download_failed}
use nightfall_photo_ingress.World.{Fs, put, remove}
use nightfall_photo_ingress.Onedrive.Retry.{
  RetryPolicy, Clockwork, classify_status, parse_retry_after, compute_delay,
}

-- What becomes of the writing of a body: all is written, the file cannot be opened, or the disk fails
-- when these bytes are written.
pub data Disk : Type 0 where
  takes : Disk
  not_opened : Disk
  cut_off : List ℕ → Disk

-- What a request meets: `httpx.RequestError`, or a response with its status, its Retry-After header,
-- its body in chunks, and what becomes of their writing; and whether the removal of the partial file
-- fails.
pub data Reply : Type 0 where
  transport_error : Bool → Reply
  response : ℕ → Option String → List (List ℕ) → Disk → Bool → Reply

abbrev pub is_stuck : Reply → Bool
is_stuck (transport_error stuck) = stuck
is_stuck (response status header chunks disk stuck) = stuck

-- The files, the sleeps so far, and the diagnostics counters.
pub record Session : Type 0 where
  pub fs : Fs
  pub sleeps : List ℕ
  pub download_request_total : ℕ
  pub retry_attempt_total : ℕ
  pub retry_transport_error_total : ℕ
  pub throttle_response_total : ℕ

-- How one attempt ends: with the file, with an error, its code and its status, or with a sleep before the next.
pub data Verdict : Type 0 where
  delivered : Verdict
  give_up : String × Option ℕ → Verdict
  again : ℕ → Verdict

-- handle.write(chunk) for each chunk
abbrev pub joined_chunks : List (List ℕ) → List ℕ
joined_chunks [] = []
joined_chunks (c ∷ cs) = c ++ joined_chunks cs

-- expected_size is not None and bytes_written != expected_size, with the code of the error
unfoldable pub size_error : Option ℕ → ℕ → Option String
size_error none written = none
size_error (some expected) written =
    if ltb 0 expected && eqb written 0
    then some "download_empty_body"
    else if eqb written expected
    then none
    else some "download_size_mismatch"

module _ (clockwork : Clockwork) (policy : RetryPolicy) (destination : String) where
  -- `_cleanup_partial`, whose OSError is passed over
  unfoldable pub cleanup_partial : Bool → Fs → Fs
  cleanup_partial true fs = fs
  cleanup_partial false fs = remove destination fs

  -- `_cleanup_partial`, and the count of the failed attempt
  abbrev pub cleaned : Bool → Session → Session
  cleaned stuck s = record s {
    fs = cleanup_partial stuck s.fs;
    retry_attempt_total = s.retry_attempt_total + 1;
  }

  -- if attempt >= policy.max_attempts: raise …, else sleep
  abbrev pub give_up_or_sleep : ℕ → String × Option ℕ → Option ℕ → Verdict
  give_up_or_sleep attempt code hint =
      if leb policy.max_attempts attempt
      then give_up code
      else again (compute_delay attempt hint policy (clockwork.jitter attempt))

  -- The body of a response that is no error: written, then measured.
  unfoldable pub receive : Option ℕ → ℕ → List (List ℕ) → Disk → Bool → Session → Verdict × Session
  unfolding cleanup_partial
  receive expected attempt chunks not_opened stuck s =
      (give_up ("download_write_error", none), record s { fs = cleanup_partial stuck s.fs })
  receive expected attempt chunks (cut_off bytes) stuck s = (
    give_up ("download_write_error", none),
    record s { fs = cleanup_partial stuck (put destination bytes s.fs) },
  )
  receive expected attempt chunks takes stuck s =
      let bytes = joined_chunks chunks in
      let s' : Session = record s { fs = put destination bytes s.fs } in
      elim (size_error expected (length bytes)) [
        | none ↦ (delivered, s')
        | some code ↦ (give_up_or_sleep attempt (code, none) none, cleaned stuck s')
      ]

  throttled : ℕ → Session → Session
  throttled status s =
      if eqb status 429 || eqb status 503
      then record s { throttle_response_total = s.throttle_response_total + 1 }
      else s

  unfoldable pub handle_reply : Option ℕ → ℕ → Reply → Session → Verdict × Session
  unfolding receive throttled cleanup_partial
  handle_reply expected attempt (transport_error stuck) s = (
    give_up_or_sleep attempt ("download_transport_error", none) none,
    record (cleaned stuck s) { retry_transport_error_total = s.retry_transport_error_total + 1 },
  )
  handle_reply expected attempt (response status header chunks disk stuck) s =
      if classify_status status
      then (
        give_up_or_sleep attempt ("download_retry_exhausted", some status)
            (parse_retry_after clockwork header),
        throttled status (cleaned stuck s),
      )
      else if leb 400 status
      then (give_up ("download_error", some status), record s { fs = cleanup_partial stuck s.fs })
      else receive expected attempt chunks disk stuck s

  -- for attempt in range(1, policy.max_attempts + 1), of which `left` remain
  unfoldable pub download_attempts :
      (ℕ → Reply) → Option ℕ → ℕ → ℕ → Session → Result (Unit {0}) × Session
  unfolding handle_reply
  download_attempts http expected zero attempt s = (ok tt, s)
  download_attempts http expected (suc left) attempt s =
      let (verdict, s') =
        handle_reply expected attempt (http attempt)
          (record s { download_request_total = s.download_request_total + 1 }) in
      elim verdict [
        | delivered ↦ (ok tt, s')
        | give_up code ↦ (err (download_failed code), s')
        | again delay ↦
            download_attempts http expected left (attempt + 1)
              (record s' { sleeps = s'.sleeps ++ delay ∷ [] })
      ]

  unfoldable pub download_with_retry :
      (ℕ → Reply) → Option ℕ → Session → Result (Unit {0}) × Session
  unfolding download_attempts
  download_with_retry http expected s = download_attempts http expected policy.max_attempts 1 s
