-- ===== src/Tests/Termination.antt =====
-- An operator ends a run while its agent calls a tool.
use open_review.Base.{ℕ, ◌+◌, ◌≡◌, refl, String, some, List, [], ◌∷◌, ◌++◌}
use open_review.Base.Dict
use open_review.Runtime.Store.Sqlite.{init}
use open_review.Runtime.Store.Sqlite.Records.{request_run_termination}
use open_review.Runtime.Termination.{
  RunTerminationMiddleware, RunTerminationRequested, Boundary, Call, before_model, model_call,
  tool_call, done, terminated, run_calls, request-terminates,
}

abbrev guard_of_run : RunTerminationMiddleware
guard_of_run = record { run_id = some "r1"; actor_key = "7!3"; reason = "user_terminated" }

-- the state outside counts the calls
abbrev ask_model : Call String ℕ
ask_model (s, n) = (done "text", (s, n + 1))

abbrev use_tool : Call String ℕ
use_tool (s, n) = (done "tool", ((request_run_termination "r1" "7!3" "operator" "t0" s).1, n + 1))

abbrev begun : List (Boundary String ℕ)
begun = before_model ∷ model_call ask_model ∷ tool_call use_tool ∷ []

request-terminates_example :
    (e : RunTerminationRequested) × (e.run_id ≡ "r1")
    × (run_calls guard_of_run (begun ++ model_call ask_model ∷ []) (init, 0)
        ≡ (some (terminated e), (run_calls guard_of_run begun (init, 0)).1))
unfolding run_calls request_run_termination Dict.get Dict.put
request-terminates_example =
    request-terminates guard_of_run "r1" begun [] (model_call ask_model) (init, 0)
      (request_run_termination "r1" "7!3" "operator" "t0" init).0 refl refl refl refl
