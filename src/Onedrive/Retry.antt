-- ===== src/Onedrive/Retry.antt =====
-- The retry policy (src/nightfall_photo_ingress/adapters/onedrive/retry.py). Durations are natural
-- numbers of one small unit, in place of floating-point seconds.
use nightfall_photo_ingress.Base.{
  ℕ, ◌+◌, ◌-◌, ◌*◌, ◌^◌, ◌≤◌, String, Bool, ◌||◌, Option, none, some, ◌==◌, eqb, leb, arith,
  if◌then◌else◌,
}
use nightfall_photo_ingress.Text.{strip, is_space}

pub record RetryPolicy : Type 0 where
  pub max_attempts : ℕ
  pub base_delay : ℕ
  pub max_delay : ℕ

-- RETRYABLE_STATUS_CODES
unfoldable pub classify_status : ℕ → Bool
classify_status code = eqb code 429 || eqb code 500 || eqb code 502 || eqb code 503 || eqb code 504

-- A duration that a header names: ahead of now, or behind it.
pub data Offset : Type 0 where
  ahead behind : ℕ → Offset

-- max(0.0, …)
abbrev clamp : Offset → ℕ
clamp (ahead n) = n
clamp (behind n) = 0

-- What the header parser takes from Python: `float`, `parsedate_to_datetime` less the present time,
-- and `random.uniform(0, 1)` as the n-th jitter.
pub record Clockwork : Type 0 where
  pub float_of : String → Option Offset
  pub date_offset : String → Option Offset
  pub jitter : ℕ → ℕ

abbrev date_delay : Clockwork → String → Option ℕ
date_delay clockwork s = elim (clockwork.date_offset s) [ none ↦ none | some d ↦ some (clamp d) ]

unfoldable pub parse_retry_after : Clockwork → Option String → Option ℕ
unfolding strip is_space
parse_retry_after clockwork none = none
parse_retry_after clockwork (some value) =
    let stripped = strip is_space value in
    if stripped == "" then none else elim (clockwork.float_of stripped) [
      | some d ↦ some (clamp d)
      | none ↦ date_delay clockwork stripped
    ]

abbrev pub min : ℕ → ℕ → ℕ
min a b = if leb a b then a else b

unfoldable pub compute_delay : ℕ → Option ℕ → RetryPolicy → ℕ → ℕ
compute_delay attempt (some hint) policy jitter = min hint policy.max_delay
compute_delay attempt none policy jitter =
    min (policy.base_delay * 2 ^ (attempt - 1) + jitter) policy.max_delay

-- No delay is longer than the policy's cap, with a hint of the server or without one.
pub compute_delay-le :
    (attempt : ℕ) (hint : Option ℕ) (policy : RetryPolicy) (jitter : ℕ)
    → compute_delay attempt hint policy jitter ≤ policy.max_delay
unfolding compute_delay
compute_delay-le attempt none policy jitter = ground arith
compute_delay-le attempt (some h) policy jitter = ground arith
