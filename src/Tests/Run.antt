-- ===== src/Tests/Run.antt =====
use open_review.Base.{◌+◌, ◌≡◌, refl, [], ◌∷◌, ◌++◌, true, false, List, arith, All}
use open_review.Base.Dict
use open_review.Base.StrSet
use open_review.Runtime.World.{seconds}
use open_review.Runtime.Store.Memory
use open_review.Runtime.Store.Sqlite
use open_review.Runtime.Store.Sqlite.{SqliteStore, init, expire_seen}
use open_review.Runtime.Store.Sqlite.Refines.{view}
use open_review.Runtime.Store.Agree.{
  Call, memory_run, sqlite_run, sqlite_step, Matches, RegularRun, append_event, pop_next_batch,
  ack_batch, acquire_lease, heartbeat_lease, release_lease, mark_actor_scheduled, restore_inflight,
}
use open_review.Runtime.Store.Agree.Proof.{run-agrees}
use open_review.Runtime.Store.Agree.Leases.{sqlite_after, IsForeign, acquire_excludes}
use open_review.Runtime.Store.Agree.Backlog.{taken, run-Extends}
use open_review.Runtime.Store.Sqlite.Delivery.{backlog}
use open_review.Tests.{program, world, review, note, row, with_row}

-- an event comes, a worker takes it, and another one asks for the lease
abbrev calls : List Call
calls =
    append_event 5 6 note
    ∷ mark_actor_scheduled "7!3"
    ∷ acquire_lease 7 "7!3" "w1" 60
    ∷ acquire_lease 8 "7!3" "w2" 60
    ∷ pop_next_batch "7!3"
    ∷ ack_batch "7!3" (note ∷ [])
    ∷ release_lease "7!3" "w1"
    ∷ []

empty-Matches : Matches Memory.init Sqlite.init
unfolding program StrSet.has
empty-Matches = record { actors = λ key. refl; seen = λ id. refl }

calls-RegularRun : RegularRun world calls Sqlite.init
unfolding program sqlite_step Dict.put
calls-RegularRun = (refl, (tt, (refl, (refl, ((note ∷ [], refl), (tt, (refl, tt)))))))

run-agrees_example : memory_run world calls Memory.init ≡ sqlite_run world calls Sqlite.init
run-agrees_example = run-agrees world calls Memory.init Sqlite.init empty-Matches calls-RegularRun

-- what another worker, and the holder, call in the meantime
abbrev meanwhile : List Call
meanwhile =
    append_event 6 7 note
    ∷ acquire_lease 8 "a" "w2" 60
    ∷ heartbeat_lease 9 "a" "w2" 60
    ∷ pop_next_batch "a"
    ∷ release_lease "a" "w2"
    ∷ []

abbrev one_review : SqliteStore
one_review = with_row (row (review ∷ []) [])

lease_taken : (Sqlite.acquire_lease 5 "a" "w1" 60 one_review).0 ≡ true
unfolding program
lease_taken = refl

meanwhile-IsForeign : All (IsForeign "a" "w1" (5 + seconds 60)) meanwhile
meanwhile-IsForeign =
    (tt, ((refl, λ e. (refl, omega arith)), ((refl, λ e. refl), (tt, ((refl, λ e. refl), tt)))))

acquire_excludes_example :
    (Sqlite.acquire_lease 60 "a" "w2" 60
      (sqlite_after world meanwhile (Sqlite.acquire_lease 5 "a" "w1" 60 one_review).1)).0
    ≡ false
acquire_excludes_example =
    acquire_excludes world "a" "w1" "w2" 5 60 60 60 meanwhile one_review refl refl refl
      (omega arith) lease_taken meanwhile-IsForeign

-- a worker that dies after `pop_next_batch`, and the next one
abbrev crash : List Call
crash =
    acquire_lease 7 "a" "w1" 60
    ∷ pop_next_batch "a"
    ∷ append_event 8 9 note
    ∷ acquire_lease 90000000 "a" "w2" 60
    ∷ restore_inflight "a"
    ∷ []

run-Extends_example :
    backlog (view (sqlite_after world crash one_review) "a")
    ≡ backlog (view one_review "a") ++ taken world crash one_review "a"
run-Extends_example = run-Extends world crash one_review "a" (refl, (tt, (tt, (refl, (tt, tt)))))
