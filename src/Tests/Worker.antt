-- ===== src/Tests/Worker.antt =====
use open_review.Base.{
  not, ◌&&◌, is_empty, ℕ, ◌<◌, ◌≡◌, refl, sym, ap, ◌∙◌, [], ◌∷◌, true, none, some, arith, length,
  Bool-cases, inl, inr, ◌==◌,
}
use open_review.Base.Dict
use open_review.Base.Result.{ok}
use open_review.Runtime.Models.{type_name}
use open_review.Runtime.RuntimeStore.{RuntimeStore}
use open_review.Runtime.Queue.{resume_runtime_processing, Service, enqueue_gitlab_event}
use open_review.Runtime.Queue.Resume.{served, resume-served}
use open_review.Runtime.Queue.Wake.{IsAwake, AwakeBut, awake, enqueue-IsAwake}
use open_review.Runtime.Queue.Resume.{asked}
use open_review.Runtime.Store.Sqlite.Delivery.{backlog}
use open_review.Runtime.Store.Sqlite.Records as SqliteRecords
use open_review.Runtime.Store.Instance
use open_review.Runtime.Store.Instance.{SqliteHost, sqlite_runtime}
use open_review.Runtime.Worker.{make_run_record, make_execution_key, Fresh}
use open_review.Runtime.Worker.Drain.{returned, Settings, Handlers, Handler, exit, drain_mr_actor}
use open_review.Runtime.Worker.Drain.Alive.{HandlersKeep, drain-IsAwake}
use open_review.Runtime.Worker.Drain.Empties.{drain-Emptied}
use open_review.Runtime.Worker.Drain.Holds.{Holds, HandlersStay}
use open_review.Runtime.Worker.Drain.Ends.{Ended, drain-Ended}
use open_review.Tests.{program, world, note, cleanup, review, row, with_row}

abbrev pub runtime : RuntimeStore world
runtime = sqlite_runtime world (λ now. 1)

-- one actor, scheduled, with a review, a note and a cleanup
abbrev pub service : Service world runtime
service = record {
  state = record { db = with_row (row (review ∷ note ∷ cleanup ∷ []) []); clock = 5 };
  jobs = "a" ∷ [];
}

pub service-IsAwake : IsAwake world runtime service
unfolding program asked
service-IsAwake j = elim (Bool-cases ("a" == j)) [ inl p ↦ rw p refl | inr p ↦ rw p refl ]

enqueue-IsAwake_example : IsAwake world runtime (enqueue_gitlab_event world runtime note service).1
enqueue-IsAwake_example = enqueue-IsAwake world runtime note service service-IsAwake

abbrev settings : Settings
settings = record {
  lease_seconds = 60;
  max_event_attempts = 3;
  digest = λ text. "0123456789abcdef";
}

abbrev fresh : ℕ → Fresh
fresh n = record { suffix = "00000000"; started_at = "t0"; completed_at = "t10" }

-- every handler succeeds
abbrev succeed : Handler world runtime settings
succeed e s =
    (returned (record { status = some "completed"; reason = none; degraded_reason = none }), s)

abbrev handlers : Handlers world runtime settings
handlers t = some succeed

handlers-HandlersKeep : HandlersKeep world runtime settings "w1" refl [] "a" handlers
handlers-HandlersKeep h e s p there j other =
    let same : succeed ≡ h = cc in
    ap (λ (f : Handler world runtime settings). awake (asked j []) (runtime.view (f e s).1 j))
      (sym same)
    ∙ there j other

handlers-HandlersStay : HandlersStay world runtime settings "w1" refl "a" handlers
handlers-HandlersStay h e s p =
    let same : succeed ≡ h = cc in
    (
      ap (λ (f : Handler world runtime settings). (runtime.view (f e s).1 "a").inflight) (sym same),
      ap (λ (f : Handler world runtime settings). (runtime.view (f e s).1 "a").events) (sym same),
    )

three_events : length (backlog (runtime.view service.state "a")) < 4
unfolding program
three_events = omega arith

drain-Ended_example :
    Ended (drain_mr_actor world runtime settings 4 handlers fresh "a" "w1" service).0
drain-Ended_example =
    drain-Ended world runtime settings "w1" refl handlers "a" handlers-HandlersStay 4 fresh service
      three_events

drained :
    (drain_mr_actor world runtime settings 4 handlers fresh "a" "w1" service).0 ≡ exit (ok true)
unfolding program drain_mr_actor Instance.acquire Instance.heartbeat Dict.put
    SqliteRecords.get_run_termination SqliteRecords.write_run SqliteRecords.list_runs
    make_run_record type_name make_execution_key
drained = refl

-- the actor's job is taken off the queue
abbrev started : Service world runtime
started = record { state = service.state; jobs = [] }

others_awake : AwakeBut world runtime [] "a" service.state
unfolding program
others_awake j other = rw other refl

leased_a : (runtime.acquire_lease "a" "w1" 60 service.state).0 ≡ true
unfolding program Instance.acquire
leased_a = refl

finished :
    (drain_mr_actor world runtime settings 4 handlers fresh "a" "w1" started).0 ≡ exit (ok true)
unfolding program drain_mr_actor Instance.acquire Instance.heartbeat Dict.put
    SqliteRecords.get_run_termination SqliteRecords.write_run SqliteRecords.list_runs
    make_run_record type_name make_execution_key
finished = refl

drain-IsAwake_example :
    IsAwake world runtime
      (drain_mr_actor world runtime settings 4 handlers fresh "a" "w1" started).1
drain-IsAwake_example =
    drain-IsAwake world runtime settings "w1" refl [] handlers "a" 4 fresh service.state (ok true)
      handlers-HandlersKeep others_awake leased_a finished

has_events :
    not (
      is_empty (runtime.view service.state "a").events
      && is_empty (runtime.view service.state "a").inflight)
    ≡ true
unfolding program
has_events = refl

resume-served_example :
    served world runtime "a" (resume_runtime_processing world runtime service).1 ≡ true
resume-served_example = resume-served world runtime service "a" has_events

drain-Emptied_example : Holds [] [] (
    runtime.view
      (drain_mr_actor world runtime settings 4 handlers fresh "a" "w1" service).1.state
      "a")
drain-Emptied_example =
    drain-Emptied world runtime settings "w1" handlers "a" refl handlers-HandlersStay 4 fresh
      service drained
