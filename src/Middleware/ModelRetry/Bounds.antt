-- ===== src/Middleware/ModelRetry/Bounds.antt =====
-- How often a model is called, and what a call returns in the end.
use open_review.Base.{
  ℕ, zero, suc, ◌+◌, ◌≡◌, ◌⊎◌, ◌≤◌, ◌<◌, inl, inr, refl, true, false, Option, none, some, [], ◌∷◌,
  ltb, arith, Bool-cases,
}
use open_review.Base.TextTools.{TextTools}
use open_review.Middleware.ModelRetry.{
  ModelRetry, Outcome, returned, failed, Ending, ended, Log, nth_delay, beyond,
  is_retryable_model_error, after_call, call_from, wrap_model_call,
}

module _ {W A : Type 0} (t : TextTools) (m : ModelRetry) (handler : W → Outcome A × W) where
  -- the state after `k` calls of the handler
  abbrev pub after : ℕ → W → W
  after zero w = w
  after (suc k) w = after k (handler w).1

  abbrev pub IsPassing : Outcome A → Type 0
  IsPassing (returned a) = ⊥
  IsPassing (failed e) = is_retryable_model_error t e ≡ true

  abbrev pub IsFinal : Outcome A → Type 0
  IsFinal (returned a) = Unit
  IsFinal (failed e) = is_retryable_model_error t e ≡ false

  -- the first `k` calls fail in passing
  abbrev pub AllPass : ℕ → W → Type 0
  AllPass zero w = Unit
  AllPass (suc k) w = IsPassing (handler w).0 × AllPass k (handler w).1

  -- the log of `k` retries behind the attempt
  abbrev pub schedule : ℕ → ℕ → Log
  schedule attempt zero = []
  schedule attempt (suc k) =
      (suc attempt, nth_delay m.delays m.max_delay attempt) ∷ schedule (suc attempt) k

  step_passing :
      (attempt : ℕ) (o : Outcome A) (w w' : W) (r : Ending A) (log : Log)
      → IsPassing o
      → beyond m.max_retry_attempts (suc attempt) ≡ false
      → after_call t m handler attempt o w (some (r, w', log))
        ≡ some (r, w', (suc attempt, nth_delay m.delays m.max_delay attempt) ∷ log)
  unfolding after_call
  step_passing attempt (returned a) w w' r log p b = absurd p
  step_passing attempt (failed e) w w' r log p b = rw (p, b) refl

  step_final :
      (attempt : ℕ) (o : Outcome A) (w : W) (next : Option (Ending A × W × Log))
      → IsFinal o
      → after_call t m handler attempt o w next ≡ some (ended o, w, [])
  unfolding after_call
  step_final attempt (returned a) w next f = refl
  step_final attempt (failed e) w next f = rw f refl

  step_beyond :
      (attempt : ℕ) (o : Outcome A) (w : W) (next : Option (Ending A × W × Log))
      → beyond m.max_retry_attempts (suc attempt) ≡ true
      → after_call t m handler attempt o w next ≡ some (ended o, w, [])
  unfolding after_call
  step_beyond attempt (returned a) w next b = refl
  step_beyond attempt (failed e) w next b = ground arith

  outcome_cases : (o : Outcome A) → IsPassing o ⊎ IsFinal o
  outcome_cases (returned a) = inr tt
  outcome_cases (failed e) = Bool-cases (is_retryable_model_error t e)

  beyond_mono :
      (limit : Option ℕ) (i j : ℕ) → i ≤ j → beyond limit j ≡ false → beyond limit i ≡ false
  beyond_mono none i j h b = refl
  beyond_mono (some n) i j h b = ground arith

  -- the loop ends behind `k` passing failures with a final outcome
  loop_ends :
      (k fuel attempt : ℕ) (w : W)
      → k < fuel
      → AllPass k w
      → IsFinal (handler (after k w)).0
      → beyond m.max_retry_attempts (attempt + k) ≡ false
      → call_from t m handler fuel attempt w
        ≡ some (ended (handler (after k w)).0, after (suc k) w, schedule attempt k)
  unfolding call_from
  loop_ends k zero attempt w lt p f b = absurd (omega arith)
  loop_ends zero (suc fuel) attempt w lt p f b = step_final attempt (handler w).0 (handler w).1 _ f
  loop_ends (suc k) (suc fuel) attempt w lt p f b =
      let limit = beyond_mono m.max_retry_attempts in
      let rest =
        loop_ends k fuel (suc attempt) (handler w).1 (omega arith) p.1 f
          (limit (suc attempt + k) (attempt + suc k) (omega arith) b) in
      rw rest (
        step_passing attempt (handler w).0 (handler w).1 (after (suc k) (handler w).1)
          (ended (handler (after k (handler w).1)).0) (schedule (suc attempt) k) p.0
          (limit (suc attempt) (attempt + suc k) (omega arith) b))

  -- Where the first `k` calls of the handler fail in passing, the next one returns or fails for good, and `k` retries are allowed, `wrap_model_call` ends with the outcome of that call: the handler has been called `k + 1` times, and the delays of attempts 1 to `k` have been announced and slept for, in order. Fuel above `k` is enough.
  pub wrap-first_final :
      (k fuel : ℕ) (w : W)
      → k < fuel
      → AllPass k w
      → IsFinal (handler (after k w)).0
      → beyond m.max_retry_attempts k ≡ false
      → wrap_model_call t m handler fuel w
        ≡ some (ended (handler (after k w)).0, after (suc k) w, schedule 0 k)
  unfolding wrap_model_call
  wrap-first_final k fuel w lt p f b =
      loop_ends k fuel 0 w lt p f (beyond_mono m.max_retry_attempts (0 + k) k (omega arith) b)

  -- what a bounded loop ends with, after `attempt` failures
  abbrev pub Bounded : ℕ → ℕ → ℕ → W → Type 0
  Bounded limit fuel attempt w =
      (k : ℕ) × (attempt + k ≤ limit)
      × AllPass k w
      × (IsFinal (handler (after k w)).0 ⊎ (attempt + k ≡ limit))
      × (call_from t m handler fuel attempt w
          ≡ some (ended (handler (after k w)).0, after (suc k) w, schedule attempt k))

  from_zero : {P : Type 0} (k l : ℕ) → P ⊎ (0 + k ≡ l) → P ⊎ (k ≡ l)
  from_zero k l (inl p) = inl p
  from_zero k l (inr e) = inr (omega arith)

  one_more : {P : Type 0} (a k l : ℕ) → P ⊎ (suc a + k ≡ l) → P ⊎ (a + suc k ≡ l)
  one_more a k l (inl p) = inl p
  one_more a k l (inr e) = inr (omega arith)

  retried :
      (attempt fuel limit : ℕ) (w : W)
      → IsPassing (handler w).0
      → beyond m.max_retry_attempts (suc attempt) ≡ false
      → Bounded limit fuel (suc attempt) (handler w).1
      → Bounded limit (suc fuel) attempt w
  unfolding call_from
  retried attempt fuel limit w p b (k, le, all, end, e) = (
    suc k,
    omega arith,
    (p, all),
    one_more attempt k limit end,
    rw e (
        step_passing attempt (handler w).0 (handler w).1 (after (suc k) (handler w).1)
          (ended (handler (after k (handler w).1)).0) (schedule (suc attempt) k) p b),
  )

  loop-Bounded :
      (limit fuel attempt : ℕ) (w : W)
      → m.max_retry_attempts ≡ some limit
      → attempt ≤ limit
      → limit < fuel + attempt
      → Bounded limit fuel attempt w
  unfolding call_from
  loop-Bounded limit zero attempt w e le lt = absurd (omega arith)
  loop-Bounded limit (suc fuel) attempt w e le lt = elim (outcome_cases (handler w).0) [
    | inr f ↦ (0, omega arith, tt, inl f, step_final attempt (handler w).0 (handler w).1 _ f)
    | inl p ↦ elim (Bool-cases (ltb limit (suc attempt))) [
      | inl b ↦ (
        0,
        omega arith,
        tt,
        inr (ground arith),
        step_beyond attempt (handler w).0 (handler w).1 _ (rw e b),
      )
      | inr b ↦
          retried attempt fuel limit w p (rw e b)
            (loop-Bounded limit fuel (suc attempt) (handler w).1 e (ground arith) (omega arith))
    ]
  ]

  -- With a limit on the retries every call ends, whatever the handler does: it is called `k + 1` times for some `k` within the limit, all but the last of these calls fail in passing, and the outcome is that of the last, which returns, fails for good, or is the last one allowed. Fuel above the limit is enough, and the ValueError of the delays does not occur.
  pub wrap-Bounded :
      (limit fuel : ℕ) (w : W)
      → m.max_retry_attempts ≡ some limit
      → limit < fuel
      → (k : ℕ) × (k ≤ limit)
        × AllPass k w
        × (IsFinal (handler (after k w)).0 ⊎ (k ≡ limit))
        × (wrap_model_call t m handler fuel w
            ≡ some (ended (handler (after k w)).0, after (suc k) w, schedule 0 k))
  unfolding wrap_model_call
  wrap-Bounded limit fuel w e lt =
      let (k, le, all, end, run) = loop-Bounded limit fuel 0 w e (omega arith) (omega arith) in
      (k, omega arith, all, from_zero k limit end, run)
