-- ===== src/Middleware/StructuredRetry/Answered.antt =====
-- What a model is let go with.
use open_review.Base.{
  ℕ, zero, suc, ◌≡◌, ◌⊎◌, ◌∙◌, inl, inr, refl, ap, sym, String, true, false, Option, none, some,
  List, is_some, is_empty, Bool-cases,
}
use mathlib.Core.Path.{subst}
use open_review.Base.Result.{Result, ok, err}
use open_review.Middleware.StructuredRetry.{
  Schema, Format, strategy, schema, other_format, ModelRequest, wants_retry, ending, again,
  ModelResponse, answered, Run, Turn, needs_retry, next, last_turn, loop, first_turn,
  wrap_model_call, should_retry, contains_tool_interaction, normalize_response_format,
}

module _ {V W : Type 0} (strip : String → String) (spec_names : Schema → List String)
    (max_retries : ℕ) (handler : ModelRequest → W → Result (ModelResponse V) × W) where
  abbrev T : Type 0
  T = Turn strip spec_names max_retries handler

  -- an answer that may be let go
  abbrev pub MayGo : ModelResponse V → Type 0
  MayGo r =
      (is_some r.structured_response ≡ true)
      ⊎ ((contains_tool_interaction r.result ≡ true) ⊎ (is_empty r.result ≡ true))

  MayGo-cases :
      (request : ModelRequest) (r : ModelResponse V)
      → is_some request.response_format ≡ true
      → should_retry request r ≡ false
      → MayGo r
  unfolding should_retry
  MayGo-cases request r f h = elim (Bool-cases (is_some r.structured_response)) [
    | inl a ↦ inl a
    | inr a ↦ elim (Bool-cases (contains_tool_interaction r.result)) [
      | inl b ↦ inr (inl b)
      | inr b ↦ elim (Bool-cases (is_empty r.result)) [
        | inl c ↦ inr (inr c)
        | inr c ↦ absurd (cc (rw (f, a, b, c) at h))
      ]
    ]
  ]

  ending_answered :
      (attempt : ℕ) (request : ModelRequest) (w : W) (o : Result (ModelResponse V))
      (r : ModelResponse V)
      → is_some request.response_format ≡ true
      → wants_retry strip spec_names max_retries handler request o ≡ false
      → (ending strip spec_names max_retries handler attempt w o).0 ≡ answered r
      → MayGo r
  unfolding should_retry wants_retry
  ending_answered attempt request w (err e) r f h a = cc
  ending_answered attempt request w (ok response) r f h a =
      subst MayGo (cc a) (MayGo-cases request response f h)

  last_answered :
      (attempt : ℕ) (t : T) (r : ModelResponse V)
      → is_some t.request.response_format ≡ true
      → (last_turn strip spec_names max_retries handler attempt t).0 ≡ answered r
      → MayGo r
  unfolding last_turn
  last_answered attempt t r f a =
      elim (Bool-cases (needs_retry strip spec_names max_retries handler t)) [
        | inl e ↦ absurd (cc (rw e at a))
        | inr e ↦ ending_answered attempt t.request t.world t.outcome r f e (rw e at a)
      ]

  normalize-is_some :
      (f : Option Format) → is_some (normalize_response_format spec_names f) ≡ is_some f
  unfolding normalize_response_format
  normalize-is_some none = refl
  normalize-is_some (some (strategy names h)) = refl
  normalize-is_some (some (schema s)) = refl
  normalize-is_some (some (other_format n)) = refl

  again_format :
      (attempt : ℕ) (t : T) (o : Result (ModelResponse V))
      → is_some t.request.response_format ≡ true
      → is_some (again strip spec_names max_retries handler attempt t o).request.response_format
        ≡ true
  unfolding next
  again_format attempt t (err e) f = f
  again_format attempt t (ok response) f = normalize-is_some t.request.response_format ∙ f

  no_loop :
      (attempt : ℕ) (t : T)
      → (last_turn strip spec_names max_retries handler attempt t).0
        ≡ (loop strip spec_names max_retries handler zero attempt t).0
  unfolding loop
  no_loop attempt t = refl

  loop_last :
      (left attempt : ℕ) (t : T)
      → needs_retry strip spec_names max_retries handler t ≡ false
      → loop strip spec_names max_retries handler (suc left) attempt t
        ≡ last_turn strip spec_names max_retries handler attempt t
  unfolding loop
  loop_last left attempt t e = rw e refl

  loop_retry :
      (left attempt : ℕ) (t : T)
      → needs_retry strip spec_names max_retries handler t ≡ true
      → (loop strip spec_names max_retries handler (suc left) attempt t).0
        ≡ (loop strip spec_names max_retries handler left
            (suc attempt)
            (next strip spec_names max_retries handler (suc attempt) t)).0
  unfolding loop
  loop_retry left attempt t e = rw e refl

  next_format :
      (attempt : ℕ) (t : T)
      → is_some t.request.response_format ≡ true
      → is_some (next strip spec_names max_retries handler attempt t).request.response_format ≡ true
  unfolding next
  next_format attempt t f = again_format attempt t t.outcome f

  loop_answered :
      (left attempt : ℕ) (t : T) (r : ModelResponse V)
      → is_some t.request.response_format ≡ true
      → (loop strip spec_names max_retries handler left attempt t).0 ≡ answered r
      → MayGo r
  loop_answered zero attempt t r f a = last_answered attempt t r f (no_loop attempt t ∙ a)
  loop_answered (suc left) attempt t r f a =
      elim (Bool-cases (needs_retry strip spec_names max_retries handler t)) [
        | inl e ↦
            loop_answered left (suc attempt)
              (next strip spec_names max_retries handler (suc attempt) t) r
              (next_format (suc attempt) t f) (sym (loop_retry left attempt t e) ∙ a)
        | inr e ↦ last_answered attempt t r f (
            ap (λ (run : Run strip spec_names max_retries handler). run.0)
              (sym (loop_last left attempt t e))
            ∙ a)
      ]

  -- Where the request wants structured output and the call is answered, the answer has a structured response, or interacts with tools, or is empty: no plain text is let through, also not a final one.
  pub answered-MayGo :
      (request : ModelRequest) (w : W) (r : ModelResponse V)
      → is_some request.response_format ≡ true
      → (wrap_model_call strip spec_names max_retries handler request w).0 ≡ answered r
      → MayGo r
  unfolding wrap_model_call
  answered-MayGo request w r f a =
      loop_answered max_retries 0 (first_turn strip spec_names max_retries handler request w) r
        (normalize-is_some request.response_format ∙ f) a
