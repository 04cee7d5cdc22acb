-- ===== src/Runtime/Store/Actor.antt =====
-- The specification of the queue part of `RuntimeStore`: what one actor has, and what each
-- operation makes of it. Both stores are proved to implement it.
use open_review.Base.{
  ℕ, ◌+◌, String, Bool, true, false, not, ◌&&◌, Option, none, some, List, [], ◌∷◌, ◌++◌, map, ◌==◌,
  ltb, length, is_empty, if◌then◌else◌,
}
use open_review.Base.Result.{Result, ok, err}
use open_review.Runtime.Models.{EventEnvelope}
use open_review.Runtime.World.{World, seconds}
use open_review.Runtime.Attempts.{max_attempts_of, note_failure, retryable, same_ids}
use open_review.Runtime.Batch.{next_batch}

pub record Actor : Type 0 where
  pub events : List EventEnvelope
  pub inflight : List EventEnvelope
  pub scheduled : Bool
  pub lease : Option (String × ℕ)

abbrev pub push : EventEnvelope → Actor → Actor
push e a = record a { events = a.events ++ e ∷ [] }

abbrev pub without : String → List EventEnvelope → List EventEnvelope
without id [] = []
without id (e ∷ es) = let rest = without id es in if e.event_id == id then rest else e ∷ rest

abbrev pub has_id : String → List EventEnvelope → Bool
has_id id [] = false
has_id id (e ∷ es) = if e.event_id == id then true else has_id id es

abbrev pub remove : String → Actor → Bool × Actor
remove id a =
    if has_id id a.inflight
    then (false, a)
    else if has_id id a.events
    then (true, record a { events = without id a.events })
    else (false, a)

abbrev pub restore : Actor → ℕ × Actor
restore a = (length a.inflight, record a { events = a.inflight ++ a.events; inflight = [] })

abbrev pub pop_from : World → List EventEnvelope → Actor → Result (List EventEnvelope) × Actor
pop_from w [] a = (ok [], a)
pop_from w (e ∷ q) a =
    let c = next_batch w e q in
    elim c.raised [
      | none ↦ (ok c.batch, record a { events = c.queue; inflight = c.batch })
      | some x ↦ (err x, a)
    ]

abbrev pub pop : World → Actor → Result (List EventEnvelope) × Actor
pop w a = if is_empty a.inflight then pop_from w a.events a else (ok [], a)

abbrev pub ack : List EventEnvelope → Actor → Actor
ack batch a = if same_ids a.inflight batch then record a { inflight = [] } else a

abbrev pub failed_with : ℕ → String → ℕ → Actor → Result Bool × Actor
failed_with attempts error max_attempts a =
    if retryable attempts max_attempts
    then (ok true, record a { inflight = map (note_failure attempts error) a.inflight })
    else (ok false, record a { inflight = [] })

abbrev pub fail : World → List EventEnvelope → String → ℕ → Actor → Result Bool × Actor
fail w batch error max_attempts a =
    if same_ids a.inflight batch
    then (elim (max_attempts_of w a.inflight) [
      | ok n ↦ failed_with (n + 1) error max_attempts a
      | err x ↦ (err x, a)
    ])
    else (ok false, a)

abbrev pub mark : Actor → Bool × Actor
mark a = if a.scheduled then (false, a) else (true, record a { scheduled = true })

abbrev pub clear : Actor → Actor
clear a = record a { scheduled = false }

-- another worker holds the lease at `now`
abbrev pub held_by_other : ℕ → String → Option (String × ℕ) → Bool
held_by_other now worker none = false
held_by_other now worker (some (owner, until)) = ltb now until && not (owner == worker)

abbrev pub owned_by : String → Option (String × ℕ) → Bool
owned_by worker none = false
owned_by worker (some (owner, until)) = owner == worker

abbrev pub acquire : ℕ → String → ℕ → Actor → Bool × Actor
acquire now worker ttl a =
    if held_by_other now worker a.lease
    then (false, a)
    else (true, record a { lease = some (worker, now + seconds ttl) })

abbrev pub heartbeat : ℕ → String → ℕ → Actor → Bool × Actor
heartbeat now worker ttl a =
    if owned_by worker a.lease
    then (true, record a { lease = some (worker, now + seconds ttl) })
    else (false, a)

abbrev pub release : String → Actor → Actor
release worker a = if owned_by worker a.lease then record a { lease = none } else a
