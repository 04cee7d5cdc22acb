-- ===== src/Tests/ModelRetry.antt =====
-- A model that fails twice with status 429 and then answers.
use open_review.Base.{
  ℕ, suc, ◌+◌, ◌≡◌, ◌≤◌, ◌⊎◌, refl, false, String, some, none, [], ◌∷◌, arith, ltb, if◌then◌else◌,
}
use open_review.Middleware.ModelRetry.{
  ModelError, ModelRetry, Outcome, returned, failed, ended, wrap_model_call,
  is_retryable_model_error,
}
use open_review.Middleware.ModelRetry.Bounds.{
  AllPass, IsFinal, after, schedule, wrap-first_final, wrap-Bounded,
}
use open_review.Tests.AutoReview.{plain}

abbrev busy : ModelError
busy = record {
  cancelled = false;
  status_code = none;
  status = some 429;
  response_status_code = none;
  class_name = "APIStatusError";
  message = "";
}

-- the state counts the calls
abbrev busy_twice : ℕ → Outcome String × ℕ
busy_twice n = (if ltb n 2 then failed busy else returned "done", n + 1)

abbrev three_delays : ModelRetry
three_delays = record { delays = 5 ∷ 10 ∷ []; max_delay = 100; max_retry_attempts = some 3 }

wrap-first_final_example :
    wrap_model_call plain three_delays busy_twice 4 0
    ≡ some (ended (returned "done"), 3, (1, 5) ∷ (2, 10) ∷ [])
unfolding is_retryable_model_error
wrap-first_final_example =
    wrap-first_final plain three_delays busy_twice 2 4 0 (omega arith) (refl, (refl, tt)) tt refl

wrap-Bounded_example :
    (k : ℕ) × (k ≤ 3)
    × AllPass plain three_delays busy_twice k 0
    × (IsFinal plain three_delays busy_twice
          (busy_twice (after plain three_delays busy_twice k 0)).0
        ⊎ (k ≡ 3))
    × (wrap_model_call plain three_delays busy_twice 4 0
        ≡ some (
          ended (busy_twice (after plain three_delays busy_twice k 0)).0,
          after plain three_delays busy_twice (suc k) 0,
          schedule plain three_delays busy_twice 0 k,
        ))
wrap-Bounded_example = wrap-Bounded plain three_delays busy_twice 3 4 0 refl (omega arith)
