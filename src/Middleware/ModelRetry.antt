-- ===== src/Middleware/ModelRetry.antt =====
-- agent/middleware/model_retry.py: calls of a model that are made again after passing failures.
-- Delays are natural numbers of milliseconds. The handler is a function on the state of everything
-- outside; `wrap_model_call` and `awrap_model_call` differ only in how they sleep.
use open_review.Base.{
  ℕ, zero, suc, ◌+◌, ◌≡◌, ◌⊎◌, ◌≤◌, ◌<◌, inl, inr, refl, Bool, true, false, not, ◌&&◌, ◌||◌, Option,
  none, some, List, [], ◌∷◌, String, ◌==◌, leb, ltb, eqb, if◌then◌else◌, arith, is_some, Bool-cases,
  Option-cases,
}
pub mod Bounds
use open_review.Base.Codes.{codes, contains}
use open_review.Base.TextTools.{TextTools}

-- what the middleware reads of an exception: the integers among its attributes, and its texts
pub record ModelError : Type 0 where
  pub cancelled : Bool
  pub status_code : Option ℕ
  pub status : Option ℕ
  pub response_status_code : Option ℕ
  pub class_name : String
  pub message : String

-- the first of three attributes that is there
unfoldable pub status_of : ModelError → Option ℕ
status_of e =
    if is_some e.status_code
    then e.status_code
    else if is_some e.status
    then e.status
    else e.response_status_code

-- `status in _RETRYABLE_STATUS_CODES or (status is not None and status >= 500)`
abbrev passing_status : Option ℕ → Bool
passing_status none = false
passing_status (some n) = eqb n 408 || eqb n 409 || eqb n 425 || eqb n 429 || leb 500 n

abbrev passing_name : String → Bool
passing_name s =
    s == "APIConnectionError"
    || s == "APITimeoutError"
    || s == "ConnectTimeout"
    || s == "ReadTimeout"
    || s == "RemoteProtocolError"
    || s == "RateLimitError"
    || s == "TimeoutException"
    || s == "WriteTimeout"

unfoldable pub is_retryable_model_error : TextTools → ModelError → Bool
unfolding status_of contains
is_retryable_model_error t e =
    let message = codes (t.lower e.message) in
    if e.cancelled
    then false
    else passing_status (status_of e)
      || passing_name e.class_name
      || contains (codes "rate limit") message
      || contains (codes "too many requests") message

pub record ModelRetry : Type 0 where
  pub delays : List ℕ
  pub max_delay : ℕ
  pub max_retry_attempts : Option ℕ

-- the n-th delay, counted from 0, or the longest
abbrev pub nth_delay : List ℕ → ℕ → ℕ → ℕ
nth_delay [] longest n = longest
nth_delay (d ∷ ds) longest zero = d
nth_delay (d ∷ ds) longest (suc n) = nth_delay ds longest n

-- `_retry_delay_seconds`; `none` is its ValueError
unfoldable pub retry_delay : ModelRetry → ℕ → Option ℕ
retry_delay m zero = none
retry_delay m (suc n) = some (nth_delay m.delays m.max_delay n)

pub data Outcome {ℓ} (A : Type ℓ) : Type ℓ where
  returned : A → Outcome A
  failed : ModelError → Outcome A

-- How a call ends: with the outcome of the last call of the handler, or with the ValueError of
-- the delay; and the attempts that were announced and slept for, with their delays.
pub data Ending {ℓ} (A : Type ℓ) : Type ℓ where
  ended : Outcome A → Ending A
  no_delay : Ending A

abbrev pub beyond : Option ℕ → ℕ → Bool
beyond none attempt = false
beyond (some m) attempt = ltb m attempt

abbrev pub Log : Type 0
Log = List (ℕ × ℕ)

module _ {W A : Type 0} (t : TextTools) (m : ModelRetry) (handler : W → Outcome A × W) where
  abbrev noting : ℕ → ℕ → Option (Ending A × W × Log) → Option (Ending A × W × Log)
  noting attempt delay none = none
  noting attempt delay (some (r, w, log)) = some (r, w, (attempt, delay) ∷ log)

  abbrev sleep_then : ℕ → Option ℕ → W → Option (Ending A × W × Log) → Option (Ending A × W × Log)
  sleep_then attempt none w next = some (no_delay, w, [])
  sleep_then attempt (some delay) w next = noting attempt delay next

  -- one round of the loop, after the call of the handler; `next` is the rest of the loop
  unfoldable pub after_call :
      ℕ → Outcome A → W → Option (Ending A × W × Log) → Option (Ending A × W × Log)
  unfolding is_retryable_model_error retry_delay
  after_call retry_attempt (returned a) w next = some (ended (returned a), w, [])
  after_call retry_attempt (failed e) w next =
      if not (is_retryable_model_error t e) || beyond m.max_retry_attempts (suc retry_attempt)
      then some (ended (failed e), w, [])
      else sleep_then (suc retry_attempt) (retry_delay m (suc retry_attempt)) w next

  -- the loop, after `retry_attempt` failures; `none` means that the fuel ran out
  unfoldable pub call_from : ℕ → ℕ → W → Option (Ending A × W × Log)
  unfolding after_call
  call_from zero retry_attempt w = none
  call_from (suc fuel) retry_attempt w =
      let next = call_from fuel (suc retry_attempt) (handler w).1 in
      after_call retry_attempt (handler w).0 (handler w).1 next

  unfoldable pub wrap_model_call : ℕ → W → Option (Ending A × W × Log)
  unfolding call_from
  wrap_model_call fuel w = call_from fuel 0 w
