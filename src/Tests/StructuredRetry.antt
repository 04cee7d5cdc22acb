-- ===== src/Tests/StructuredRetry.antt =====
-- A model that answers in plain text once and then as it should.
use open_review.Base.{
  ℕ, ◌+◌, ◌≡◌, ◌≤◌, ◌⊎◌, refl, false, String, some, none, List, [], ◌∷◌, eqb, if◌then◌else◌,
}
use open_review.Base.Result.{Result, ok}
use open_review.Middleware.StructuredRetry.{
  Schema, class_named, schema, human, ai, text, ModelRequest, ModelResponse, answered,
  retry_requested, retry_succeeded, wrap_model_call, needs_retry, last_turn, first_turn,
}
use open_review.Middleware.StructuredRetry.Answered.{MayGo, answered-MayGo}
use open_review.Middleware.StructuredRetry.Bounds.{turns, AllRetry, behind, wrap-Ends}

abbrev same : String → String
same s = s

abbrev names : Schema → List String
names s = "Report" ∷ []

abbrev plain_text : ModelResponse ℕ
plain_text = record { structured_response = none; result = ai (text "Sure!") false ∷ [] }

abbrev proper : ModelResponse ℕ
proper = record { structured_response = some 7; result = ai (text "") false ∷ [] }

-- the state counts the calls
abbrev once_wrong : ModelRequest → ℕ → Result (ModelResponse ℕ) × ℕ
once_wrong request n = (ok (if eqb n 0 then plain_text else proper), n + 1)

abbrev ask : ModelRequest
ask = record {
  response_format = some (schema (class_named "Report"));
  messages = human "Report!" ∷ [];
}

second_try :
    wrap_model_call same names 3 once_wrong ask 0
    ≡ (answered proper, 2, retry_requested 1 "Sure!" ∷ retry_succeeded 1 ∷ [])
unfolding wrap_model_call
second_try = refl

wrap-Ends_example :
    (k : ℕ) × (k ≤ 3)
    × AllRetry same names 3 once_wrong k 0 (first_turn same names 3 once_wrong ask 0)
    × ((needs_retry same names 3 once_wrong
            (turns same names 3 once_wrong k 0 (first_turn same names 3 once_wrong ask 0))
          ≡ false)
        ⊎ (k ≡ 3))
    × (wrap_model_call same names 3 once_wrong ask 0
        ≡ behind same names 3 once_wrong k 0 (first_turn same names 3 once_wrong ask 0) (
            last_turn same names 3 once_wrong k
              (turns same names 3 once_wrong k 0 (first_turn same names 3 once_wrong ask 0))))
wrap-Ends_example = wrap-Ends same names 3 once_wrong ask 0

answered-MayGo_example : MayGo same names 3 once_wrong proper
unfolding wrap_model_call
answered-MayGo_example = answered-MayGo same names 3 once_wrong ask 0 proper refl refl
