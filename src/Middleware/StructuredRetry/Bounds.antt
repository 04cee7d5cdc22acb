-- ===== src/Middleware/StructuredRetry/Bounds.antt =====
-- How often a model is asked for structured output.
use open_review.Base.{
  ℕ, zero, suc, ◌+◌, ◌≤◌, ◌≡◌, ◌⊎◌, ◌∙◌, inl, inr, refl, ap, String, true, false, List, arith,
  Bool-cases,
}
use open_review.Base.Result.{Result}
use open_review.Middleware.StructuredRetry.{
  Schema, ModelRequest, ModelResponse, Run, Turn, needs_retry, next, retried, last_turn, loop,
  first_turn, wrap_model_call,
}

module _ {V W : Type 0} (strip : String → String) (spec_names : Schema → List String)
    (max_retries : ℕ) (handler : ModelRequest → W → Result (ModelResponse V) × W) where
  abbrev T : Type 0
  T = Turn strip spec_names max_retries handler

  -- the turn behind `k` retries
  abbrev pub turns : ℕ → ℕ → T → T
  turns zero attempt t = t
  turns (suc k) attempt t =
      turns k (suc attempt) (next strip spec_names max_retries handler (suc attempt) t)

  -- the first `k` turns ask for another one
  abbrev pub AllRetry : ℕ → ℕ → T → Type 0
  AllRetry zero attempt t = Unit
  AllRetry (suc k) attempt t =
      (needs_retry strip spec_names max_retries handler t ≡ true)
      × AllRetry k (suc attempt) (next strip spec_names max_retries handler (suc attempt) t)

  -- `k` retries, each recorded, and what comes behind them
  abbrev pub behind :
      ℕ
      → ℕ
      → T
      → Run strip spec_names max_retries handler
      → Run strip spec_names max_retries handler
  behind zero attempt t rest = rest
  behind (suc k) attempt t rest =
      retried strip spec_names max_retries handler (suc attempt) t
        (behind k (suc attempt) (next strip spec_names max_retries handler (suc attempt) t) rest)

  abbrev pub Ends : ℕ → ℕ → T → Type 0
  Ends left attempt t =
      (k : ℕ) × (k ≤ left)
      × AllRetry k attempt t
      × ((needs_retry strip spec_names max_retries handler (turns k attempt t) ≡ false)
          ⊎ (k ≡ left))
      × (loop strip spec_names max_retries handler left attempt t
          ≡ behind k attempt t
              (last_turn strip spec_names max_retries handler (attempt + k) (turns k attempt t)))

  shift : (a k : ℕ) → suc a + k ≡ a + suc k
  shift a k = omega arith

  add_zero : (a : ℕ) → a + 0 ≡ a
  add_zero a = omega arith

  one_more : {P : Type 0} (k l : ℕ) → P ⊎ (k ≡ l) → P ⊎ (suc k ≡ suc l)
  one_more k l (inl p) = inl p
  one_more k l (inr e) = inr (ap suc e)

  loop-Ends : (left attempt : ℕ) (t : T) → Ends left attempt t
  unfolding loop
  loop-Ends zero attempt t = (0, omega arith, tt, inr refl, rw (add_zero attempt) refl)
  loop-Ends (suc left) attempt t =
      elim (Bool-cases (needs_retry strip spec_names max_retries handler t)) [
        | inr e ↦ (0, omega arith, tt, inl e, rw (e, add_zero attempt) refl)
        | inl e ↦
            let t' = next strip spec_names max_retries handler (suc attempt) t in
            let (k, le, all, end, run) = loop-Ends left (suc attempt) t' in
            (suc k, omega arith, (e, all), one_more k left end, rw (e, run, shift attempt k) refl)
      ]

  -- Every call ends, with at most `max_retries` retries, whatever the handler does: for some `k` within the limit the first `k` turns all ask for a retry, each of which is recorded and sent with the grown conversation, and the run is settled by the next turn, which asks for none or is the last one allowed.
  pub wrap-Ends :
      (request : ModelRequest) (w : W)
      → (k : ℕ) × (k ≤ max_retries)
        × AllRetry k 0 (first_turn strip spec_names max_retries handler request w)
        × ((needs_retry strip spec_names max_retries handler
                (turns k 0 (first_turn strip spec_names max_retries handler request w))
              ≡ false)
            ⊎ (k ≡ max_retries))
        × (wrap_model_call strip spec_names max_retries handler request w
            ≡ behind k 0 (first_turn strip spec_names max_retries handler request w) (
                last_turn strip spec_names max_retries handler k
                  (turns k 0 (first_turn strip spec_names max_retries handler request w))))
  unfolding wrap_model_call
  wrap-Ends request w =
      let first = first_turn strip spec_names max_retries handler request w in
      let (k, le, all, end, run) = loop-Ends max_retries 0 first in
      let zero_add : 0 + k ≡ k = omega arith in
      (
        k,
        le,
        all,
        end,
        run
            ∙ ap
                (λ (n : ℕ).
                  behind k 0 first
                    (last_turn strip spec_names max_retries handler n (turns k 0 first)))
                zero_add,
      )
