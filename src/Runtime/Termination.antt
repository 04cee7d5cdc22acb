-- ===== src/Runtime/Termination.antt =====
-- agent/runtime/termination.py: a run that an operator has ended stops at its next boundary. The
-- hooks `abefore_agent`, `abefore_model`, `awrap_model_call` and `awrap_tool_call` make one check
-- each, and are four functions; a call is a function on the store and on the state outside, and may
-- raise.
use open_review.Base.{
  ◌≡◌, ◌∙◌, refl, String, false, Option, none, some, List, [], ◌∷◌, ◌++◌, ◌==◌, if◌then◌else◌,
}
use open_review.Base.Result.{PyError}
use open_review.Runtime.Models.{RunTerminationRequest}
use open_review.Runtime.Store.Sqlite.{SqliteStore}
use open_review.Runtime.Store.Sqlite.Records.{get_run_termination}

-- the exception
pub record RunTerminationRequested : Type 0 where
  pub run_id : String
  pub actor_key : String
  pub reason : String
  pub requested_by : Option String
  pub requested_at : Option String

pub record RunTerminationMiddleware : Type 0 where
  pub run_id : Option String
  pub actor_key : String
  pub reason : String

abbrev raised_for :
    RunTerminationMiddleware
    → String
    → Option RunTerminationRequest
    → Option RunTerminationRequested
raised_for m run_id none = none
raised_for m run_id (some request) = some (record {
  run_id = run_id;
  actor_key = m.actor_key;
  reason = m.reason;
  requested_by = some request.requested_by;
  requested_at = some request.requested_at;
})

abbrev raise_for_run :
    RunTerminationMiddleware → Option String → SqliteStore → Option RunTerminationRequested
unfolding get_run_termination
raise_for_run m none s = none
raise_for_run m (some run_id) s =
    if run_id == "" then none else raised_for m run_id (get_run_termination run_id s)

-- the exception that is raised, if any
unfoldable pub raise_if_run_termination_requested :
    RunTerminationMiddleware → SqliteStore → Option RunTerminationRequested
unfolding get_run_termination
raise_if_run_termination_requested m s = raise_for_run m m.run_id s

pub data Reply (A : Type 0) : Type 0 where
  passed : Reply A
  done : A → Reply A
  terminated : RunTerminationRequested → Reply A
  raised : PyError → Reply A

-- a call that the agent makes, with all that runs beside it
abbrev pub Call : Type 0 → Type 0 → Type 0
Call A W = SqliteStore × W → Reply A × (SqliteStore × W)

-- where the agent framework comes to the middleware
pub data Boundary (A W : Type 0) : Type 0 where
  before_agent before_model : Boundary A W
  model_call tool_call : Call A W → Boundary A W

abbrev pub abefore_agent : RunTerminationMiddleware → SqliteStore → Option RunTerminationRequested
unfolding raise_if_run_termination_requested
abefore_agent m s = raise_if_run_termination_requested m s

abbrev pub abefore_model : RunTerminationMiddleware → SqliteStore → Option RunTerminationRequested
unfolding raise_if_run_termination_requested
abefore_model m s = raise_if_run_termination_requested m s

-- the exception that a request is answered with
abbrev exception :
    RunTerminationMiddleware → String → RunTerminationRequest → RunTerminationRequested
exception m run_id request = record {
  run_id = run_id;
  actor_key = m.actor_key;
  reason = m.reason;
  requested_by = some request.requested_by;
  requested_at = some request.requested_at;
}

abbrev checked : {A : Type 0} → Option RunTerminationRequested → Reply A
checked none = passed
checked (some e) = terminated e

module _ {A W : Type 0} (m : RunTerminationMiddleware) where
  abbrev after_check :
      Option RunTerminationRequested → Call A W → SqliteStore × W → Reply A × (SqliteStore × W)
  after_check (some e) handler s = (terminated e, s)
  after_check none handler s = handler s

  -- a check and the call behind it
  unfoldable pub awrap_model_call : Call A W → Call A W
  unfolding raise_if_run_termination_requested
  awrap_model_call handler s = after_check (raise_if_run_termination_requested m s.0) handler s

  unfoldable pub awrap_tool_call : Call A W → Call A W
  unfolding raise_if_run_termination_requested
  awrap_tool_call handler s = after_check (raise_if_run_termination_requested m s.0) handler s

  unfoldable pub take_boundary : Boundary A W → Call A W
  unfolding abefore_agent abefore_model awrap_model_call awrap_tool_call
  take_boundary before_agent s = (checked (abefore_agent m s.0), s)
  take_boundary before_model s = (checked (abefore_model m s.0), s)
  take_boundary (model_call handler) s = awrap_model_call handler s
  take_boundary (tool_call handler) s = awrap_tool_call handler s

  abbrev unless_done :
      Reply A
      → SqliteStore × W
      → Option (Reply A) × (SqliteStore × W)
      → Option (Reply A) × (SqliteStore × W)
  unless_done passed s rest = rest
  unless_done (done a) s rest = rest
  unless_done (terminated e) s rest = (some (terminated e), s)
  unless_done (raised e) s rest = (some (raised e), s)

  -- the boundaries of an agent one after another; an exception ends them
  unfoldable pub run_calls :
      List (Boundary A W) → SqliteStore × W → Option (Reply A) × (SqliteStore × W)
  unfolding take_boundary
  run_calls [] s = (none, s)
  run_calls (call ∷ calls) s =
      let r = take_boundary call s in let rest = run_calls calls r.1 in unless_done r.0 r.1 rest

  abbrev Stopped : String → Reply A × (SqliteStore × W) → SqliteStore × W → Type 0
  Stopped run_id r s = (e : RunTerminationRequested) × (e.run_id ≡ run_id) × (r ≡ (terminated e, s))

  -- whatever the boundary is, it is not passed
  boundary-Stopped :
      (run_id : String) (call : Boundary A W) (s : SqliteStore × W)
      (request : RunTerminationRequest)
      → m.run_id ≡ some run_id
      → (run_id == "") ≡ false
      → get_run_termination run_id s.0 ≡ some request
      → Stopped run_id (take_boundary call s) s
  unfolding take_boundary
  boundary-Stopped run_id before_agent s request i n q =
      (exception m run_id request, refl, rw (i, n, q) refl)
  boundary-Stopped run_id before_model s request i n q =
      (exception m run_id request, refl, rw (i, n, q) refl)
  boundary-Stopped run_id (model_call handler) s request i n q =
      (exception m run_id request, refl, rw (i, n, q) refl)
  boundary-Stopped run_id (tool_call handler) s request i n q =
      (exception m run_id request, refl, rw (i, n, q) refl)

  stopped_at :
      (run_id : String) (call : Boundary A W) (calls : List (Boundary A W)) (s : SqliteStore × W)
      (request : RunTerminationRequest)
      → m.run_id ≡ some run_id
      → (run_id == "") ≡ false
      → get_run_termination run_id s.0 ≡ some request
      → (e : RunTerminationRequested) × (e.run_id ≡ run_id)
        × (run_calls (call ∷ calls) s ≡ (some (terminated e), s))
  unfolding run_calls
  stopped_at run_id call calls s request i n q =
      let (e, same, stop) = boundary-Stopped run_id call s request i n q in (e, same, rw stop refl)

  append_step :
      (r : Reply A) (s : SqliteStore × W) (x y : Option (Reply A) × (SqliteStore × W))
      (calls : List (Boundary A W))
      → (unless_done r s x).0 ≡ none
      → (x.0 ≡ none → y ≡ run_calls calls x.1)
      → unless_done r s y ≡ run_calls calls (unless_done r s x).1
  append_step passed s x y calls h f = f h
  append_step (done a) s x y calls h f = f h
  append_step (terminated e) s x y calls h f = cc
  append_step (raised e) s x y calls h f = cc

  run-append :
      (before calls : List (Boundary A W)) (s : SqliteStore × W)
      → (run_calls before s).0 ≡ none
      → run_calls (before ++ calls) s ≡ run_calls calls (run_calls before s).1
  unfolding run_calls
  run-append [] calls s h = refl
  run-append (call ∷ before) calls s h =
      let r = take_boundary call s in
      append_step r.0 r.1 (run_calls before r.1) (run_calls (before ++ calls) r.1) calls h
        (run-append before calls r.1)

  -- If a request to terminate the run stands in the store when an agent has passed some boundaries,
  -- whoever made it and during whichever call, then the next boundary, be it the start of the agent
  -- or of a model turn, a model call or a tool call, is not passed and its call not made: the run
  -- ends with the exception for this run, and neither the store nor the state outside changes any
  -- more.
  pub request-terminates :
      (run_id : String) (before calls : List (Boundary A W)) (call : Boundary A W)
      (s : SqliteStore × W) (request : RunTerminationRequest)
      → m.run_id ≡ some run_id
      → (run_id == "") ≡ false
      → (run_calls before s).0 ≡ none
      → get_run_termination run_id (run_calls before s).1.0 ≡ some request
      → (e : RunTerminationRequested) × (e.run_id ≡ run_id)
        × (run_calls (before ++ call ∷ calls) s ≡ (some (terminated e), (run_calls before s).1))
  request-terminates run_id before calls call s request i n h q =
      let (e, same, stop) = stopped_at run_id call calls (run_calls before s).1 request i n q in
      (e, same, run-append before (call ∷ calls) s h ∙ stop)
