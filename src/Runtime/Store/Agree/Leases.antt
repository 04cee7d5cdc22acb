-- ===== src/Runtime/Store/Agree/Leases.antt =====
-- Mutual exclusion by leases in the SQLite store: who holds a lease keeps it until it expires,
-- whatever the other workers call.
use open_review.Base.{
  All, is_some, ℕ, ◌+◌, ◌<◌, String, true, false, ◌≡◌, refl, sym, ap, ◌∙◌, Option, some, List, [],
  ◌∷◌, ◌==◌, eq_iff, eq_refl, arith, lt→ltb, Bool-cases, inl, inr,
}
use open_review.Base.Dict
use open_review.Runtime.Models.{EventEnvelope, actor_key}
use open_review.Runtime.World.{World, seconds}
use open_review.Runtime.Store.Actor
use open_review.Runtime.Store.Actor.{Actor}
use open_review.Runtime.Store.Contract.{Becomes, Becomes-part}
use open_review.Runtime.Store.Sqlite
use open_review.Runtime.Store.Sqlite.{SqliteStore, expire_seen}
use open_review.Runtime.Store.Sqlite.Refines as Right
use open_review.Runtime.Store.Sqlite.Refines.{view}
use open_review.Runtime.Store.Agree.{
  Call, sqlite_step, append_event, has_actor_events, restore_inflight, pop_next_batch,
  mark_actor_scheduled, clear_actor_scheduled, remove_pending_event, release_lease, ack_batch,
  mark_inflight_failed, acquire_lease, heartbeat_lease,
}

-- the store after a run of calls
abbrev pub sqlite_after : World → List Call → SqliteStore → SqliteStore
sqlite_after w [] s = s
sqlite_after w (c ∷ cs) s = sqlite_after w cs (sqlite_step w c s).1

abbrev lease_of : Actor → Option (String × ℕ)
lease_of a = a.lease

-- the part of an operation's specification that concerns the lease
append_part :
    (now later : ℕ) (e : EventEnvelope) (s : SqliteStore) (j : String)
    → lease_of (view (Sqlite.append_event now later e s).1 j) ≡ lease_of (view s j)
append_part now later e s j =
    elim (Bool-cases (is_some (Dict.get (expire_seen now s.seen_event_ids) e.event_id))) [
      | inl p ↦ unfold Sqlite.append_event Sqlite.load_actor_state in rw p refl
      | inr p ↦
          Becomes-part view lease_of (actor_key e) s (Sqlite.append_event now later e s).1
            (Actor.push e) (Right.append-Becomes now later e s p) (λ a. refl) j
    ]

lease-fail :
    (w : World) (b : List EventEnvelope) (error : String) (n : ℕ) (a : Actor)
    → lease_of (Actor.fail w b error n a).1 ≡ lease_of a
lease-fail w b error n a = ground arith

lease-pop_from :
    (w : World) (q : List EventEnvelope) (a : Actor)
    → lease_of (Actor.pop_from w q a).1 ≡ lease_of a
lease-pop_from w [] a = refl
lease-pop_from w (x ∷ q) a = ground arith

lease-pop : (w : World) (a : Actor) → lease_of (Actor.pop w a).1 ≡ lease_of a
lease-pop w a = ground (arith, lease-pop_from w a.events a)

-- A call by which no worker but `worker` can take the lease of `key` over: calls for the lease are
-- by others, and before `until`.
abbrev pub IsForeign : String → String → ℕ → Call → Type 0
IsForeign key worker until (acquire_lease now k other ttl) =
    ((other == "") ≡ false) × ((k ≡ key) → ((worker == other) ≡ false) × (now < until))
IsForeign key worker until (heartbeat_lease now k other ttl) =
    ((other == "") ≡ false) × ((k ≡ key) → (worker == other) ≡ false)
IsForeign key worker until (release_lease k other) =
    ((other == "") ≡ false) × ((k ≡ key) → (worker == other) ≡ false)
IsForeign key worker until _ = Unit {0}

foreign :
    (k key : String) (s s' : SqliteStore) (f : Actor → Actor) (l : Option (String × ℕ))
    → Becomes view k s (f (view s k)) s'
    → lease_of (view s key) ≡ l
    → ((k ≡ key) → lease_of (f (view s key)) ≡ l)
    → lease_of (view s' key) ≡ l
foreign k key s s' f l h held kept = elim (Bool-cases (k == key)) [
  | inl e ↦
      let p = (eq_iff k key).0 e in
      let changed : view s' key ≡ f (view s k) = h key ∙ rw e refl in
      let moved : lease_of (f (view s k)) ≡ lease_of (f (view s key)) =
        ap (λ x. lease_of (f (view s x))) p in
      ap lease_of changed ∙ moved ∙ kept p
  | inr e ↦ let same : view s' key ≡ view s key = h key ∙ rw e refl in ap lease_of same ∙ held
]

module _ (w : World) (key worker : String) (until : ℕ) where
  abbrev Held : SqliteStore → Type 0
  Held s = lease_of (view s key) ≡ some (worker, until)

  acquire_denied :
      (now ttl : ℕ) (other : String) (a : Actor)
      → lease_of a ≡ some (worker, until)
      → (worker == other) ≡ false
      → now < until
      → Actor.acquire now other ttl a ≡ (false, a)
  acquire_denied now ttl other a held ne lt = rw (held, ne, lt→ltb now until lt) refl

  heartbeat_denied :
      (now ttl : ℕ) (other : String) (a : Actor)
      → lease_of a ≡ some (worker, until)
      → (worker == other) ≡ false
      → Actor.heartbeat now other ttl a ≡ (false, a)
  heartbeat_denied now ttl other a held ne = rw (held, ne) refl

  release_denied :
      (other : String) (a : Actor)
      → lease_of a ≡ some (worker, until)
      → (worker == other) ≡ false
      → Actor.release other a ≡ a
  release_denied other a held ne = rw (held, ne) refl

  step-Held :
      (c : Call) (s : SqliteStore)
      → IsForeign key worker until c
      → Held s
      → Held (sqlite_step w c s).1
  unfolding sqlite_step
  step-Held (append_event now later e) s f h = append_part now later e s key ∙ h
  step-Held (has_actor_events k) s f h = h
  step-Held (restore_inflight k) s f h =
      Becomes-part view lease_of k s (Sqlite.restore_inflight k s).1 (λ a. (Actor.restore a).1)
        ((Right.restore-Implements k s).1) (λ a. refl) key
      ∙ h
  step-Held (pop_next_batch k) s f h =
      Becomes-part view lease_of k s (Sqlite.pop_next_batch w k s).1 (λ a. (Actor.pop w a).1)
        ((Right.pop-Implements w k s).1) (lease-pop w) key
      ∙ h
  step-Held (mark_actor_scheduled k) s f h =
      Becomes-part view lease_of k s (Sqlite.mark_actor_scheduled k s).1 (λ a. (Actor.mark a).1)
        ((Right.mark-Implements k s).1) (λ a. ground arith) key
      ∙ h
  step-Held (clear_actor_scheduled k) s f h =
      Becomes-part view lease_of k s (Sqlite.clear_actor_scheduled k s) Actor.clear
        (Right.clear-Becomes k s) (λ a. refl) key
      ∙ h
  step-Held (remove_pending_event k id) s f h =
      Becomes-part view lease_of k s (Sqlite.remove_pending_event k id s).1
        (λ a. (Actor.remove id a).1) ((Right.remove-Implements k s id).1) (λ a. ground arith) key
      ∙ h
  step-Held (ack_batch k b) s f h =
      Becomes-part view lease_of k s (Sqlite.ack_batch k b s) (Actor.ack b)
        (Right.ack-Becomes k s b) (λ a. ground arith) key
      ∙ h
  step-Held (mark_inflight_failed k b error n) s f h =
      Becomes-part view lease_of k s (Sqlite.mark_inflight_failed w k b error n s).1
        (λ a. (Actor.fail w b error n a).1) ((Right.fail-Implements w k s b error n).1)
        (lease-fail w b error n) key
      ∙ h
  step-Held (acquire_lease now k other ttl) s (named, f) h =
      foreign k key s (Sqlite.acquire_lease now k other ttl s).1
        (λ a. (Actor.acquire now other ttl a).1) _
        ((Right.acquire-Implements k other s named now ttl).1) h
        (λ p. rw (acquire_denied now ttl other (view s key) h (f p).0 (f p).1) h)
  step-Held (heartbeat_lease now k other ttl) s (named, f) h =
      foreign k key s (Sqlite.heartbeat_lease now k other ttl s).1
        (λ a. (Actor.heartbeat now other ttl a).1) _
        ((Right.heartbeat-Implements k other s named now ttl).1) h
        (λ p. rw (heartbeat_denied now ttl other (view s key) h (f p)) h)
  step-Held (release_lease k other) s (named, f) h =
      foreign k key s (Sqlite.release_lease k other s) (Actor.release other) _
        (Right.release-Becomes k other s named) h
        (λ p. rw (release_denied other (view s key) h (f p)) h)

  run-Held :
      (calls : List Call) (s : SqliteStore)
      → All (IsForeign key worker until) calls
      → Held s
      → Held (sqlite_after w calls s)
  run-Held [] s f h = h
  run-Held (c ∷ cs) s f h = run-Held cs (sqlite_step w c s).1 f.1 (step-Held c s f.0 h)

acquired-lease :
    (now ttl : ℕ) (worker : String) (a : Actor)
    → (Actor.acquire now worker ttl a).0 ≡ true
    → lease_of (Actor.acquire now worker ttl a).1 ≡ some (worker, now + seconds ttl)
acquired-lease now ttl worker a h = ground arith

-- A worker that acquires a lease keeps it for `ttl` seconds: after any calls in which all calls for
-- a lease are by named workers, and those for this lease are by others and, if they acquire, before
-- its end, every acquire by a named other worker before the end is refused.
pub acquire_excludes :
    (w : World) (key worker other : String) (start ttl now ttl' : ℕ) (calls : List Call)
    (s : SqliteStore)
    → (worker == "") ≡ false
    → (other == "") ≡ false
    → (worker == other) ≡ false
    → now < start + seconds ttl
    → (Sqlite.acquire_lease start key worker ttl s).0 ≡ true
    → All (IsForeign key worker (start + seconds ttl)) calls
    → (Sqlite.acquire_lease now key other ttl'
        (sqlite_after w calls (Sqlite.acquire_lease start key worker ttl s).1)).0
      ≡ false
acquire_excludes w key worker other start ttl now ttl' calls s named named' ne early got f =
    let (said, became) = Right.acquire-Implements key worker s named start ttl in
    let until = start + seconds ttl in
    let s1 = (Sqlite.acquire_lease start key worker ttl s).1 in
    let s2 = sqlite_after w calls s1 in
    let held : lease_of (view s1 key) ≡ some (worker, until) =
      ap lease_of (became key)
      ∙ rw (eq_refl key) (acquired-lease start ttl worker (view s key) (sym said ∙ got)) in
    let still = run-Held w key worker until calls s1 f held in
    (Right.acquire-Implements key other s2 named' now ttl').0
    ∙ ap (λ r. r.0) (acquire_denied w key worker until now ttl' other (view s2 key) still ne early)
