-- ===== src/Tests/Store.antt =====
use Prim.Native.Nat.{max}
use open_review.Base.{◌+◌, ◌≡◌, refl, List, [], ◌∷◌, true, false, String, ltb, arith, is_empty}
use open_review.Base.Result.{ok}
use open_review.Runtime.Attempts.{same_ids}
use open_review.Runtime.Store.Sqlite.{
  SqliteStore, init, pop_next_batch, restore_inflight, list_actor_events, mark_inflight_failed,
  append_event,
}
use open_review.Runtime.Store.Sqlite.Refines.{view}
use open_review.Runtime.Store.Sqlite.Delivery.{restore-pop}
use open_review.Runtime.Store.Agree.{Call}
use open_review.Runtime.Store.Agree.Leases.{sqlite_after}
use open_review.Runtime.Store.Agree.Dedupe.{append-append_dup}
use open_review.Runtime.Store.Sqlite.Retry.{fail-Budget, FailedTimes, Budget}
use open_review.Tests.{program, world, review, review2, note, row, with_row}

abbrev queued : SqliteStore
queued = with_row (row (review ∷ review2 ∷ note ∷ []) [])

queued_idle : (view queued "a").inflight ≡ []
unfolding program
queued_idle = refl

popped : (pop_next_batch world "a" queued).0 ≡ ok (review ∷ review2 ∷ [])
unfolding program
popped = refl

restore-pop_example :
    list_actor_events "a" (restore_inflight "a" (pop_next_batch world "a" queued).1).1
    ≡ list_actor_events "a" queued
restore-pop_example = restore-pop world "a" queued queued_idle

abbrev busy : SqliteStore
busy = with_row (row (note ∷ []) (review ∷ review2 ∷ []))

busy_batch : (view busy "a").inflight ≡ review ∷ review2 ∷ []
unfolding program
busy_batch = refl

fresh_events : FailedTimes world 0 (view busy "a").inflight
unfolding program
fresh_events = (refl, (refl, tt))

same_batch : same_ids (view busy "a").inflight (review ∷ review2 ∷ []) ≡ true
unfolding program
same_batch = refl

busy_lem : is_empty (view busy "a").inflight ≡ false
unfolding program
busy_lem = refl

fail-Budget_example :
    let r = mark_inflight_failed world "a" (review ∷ review2 ∷ []) "lost" 3 busy in
    Budget world 0 (view busy "a") (ltb (0 + 1) (max 3 1)) (r.0, view r.1 "a")
fail-Budget_example =
    fail-Budget world "a" "lost" 0 3 busy (review ∷ review2 ∷ []) busy_lem fresh_events same_batch

first_taken : (append_event 5 6 note init).0 ≡ true
unfolding program
first_taken = refl

-- what happens between the two deliveries
abbrev between : List Call
between =
    Call.pop_next_batch "a" ∷ Call.append_event 50 51 review ∷ Call.ack_batch "a" (note ∷ []) ∷ []

append-append_dup_example :
    let left = sqlite_after world between (append_event 5 6 note init).1 in
    let again = append_event 100 101 note left in
    (again.0 ≡ false) × ((key : String) → view again.1 key ≡ view left key)
append-append_dup_example =
    append-append_dup world 5 6 100 101 note note between init first_taken refl
      (tt, (omega arith, (tt, tt))) (omega arith)
