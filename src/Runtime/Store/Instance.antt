-- ===== src/Runtime/Store/Instance.antt =====
-- The SQLite store, with a clock, has the operations and the laws of `RuntimeStore`.
use open_review.Base.{
  ℕ, ◌+◌, String, Bool, true, false, not, ◌&&◌, ◌≡◌, refl, sym, ap, ◌∙◌, ◌==◌, eq_iff, arith,
  Bool-cases, inl, inr, is_empty, is_some, if◌then◌else◌,
}
use open_review.Base.Dict
use open_review.Runtime.Models.{EventEnvelope, RunRecord, RunJournalEvent, actor_key}
use open_review.Runtime.World.{World, seconds}
use open_review.Runtime.Store.Actor
use open_review.Runtime.Store.Actor.{Actor}
use open_review.Runtime.Store.Contract.{Becomes}
use open_review.Runtime.Store.Sqlite
use open_review.Runtime.Store.Sqlite.{SqliteStore, expire_seen}
use open_review.Runtime.Store.Sqlite.Records as SqliteRecords
use open_review.Runtime.Store.Sqlite.Refines as Right
use open_review.Runtime.Store.Sqlite.Statuses.{list_actor_statuses, statuses_lem}
use open_review.Runtime.RuntimeStore.{RuntimeStore, Unchanged, Leases, leased}

-- The database, and what `time.time()` reads next.
pub record SqliteHost : Type 0 where
  pub db : SqliteStore
  pub clock : ℕ

abbrev pub view : SqliteHost → String → Actor
view h = Right.view h.db

-- The clock moves on by any amount with each reading.
module _ (w : World) (tick : ℕ → ℕ) where
  abbrev moved : SqliteHost → SqliteStore → SqliteHost
  moved h d = record { db = d; clock = h.clock + tick h.clock }

  abbrev keep {ℓ} : {A : Type ℓ} → SqliteHost → A × SqliteStore → A × SqliteHost
  keep h r = (r.0, record h { db = r.1 })

  abbrev read {ℓ} : {A : Type ℓ} → SqliteHost → A × SqliteStore → A × SqliteHost
  read h r = (r.0, moved h r.1)

  unfoldable pub append : EventEnvelope → SqliteHost → Bool × SqliteHost
  append e h = read h (Sqlite.append_event h.clock (h.clock + tick h.clock) e h.db)

  append_cases :
      (e : EventEnvelope) (h : SqliteHost) (b : Bool)
      → is_some (Dict.get (expire_seen h.clock h.db.seen_event_ids) e.event_id) ≡ b
      → ((append e h).0 ≡ not b)
  unfolding append Sqlite.append_event
  append_cases e h true p = rw p refl
  append_cases e h false p = rw p refl

  pub append-refused :
      (e : EventEnvelope) (h : SqliteHost)
      → (append e h).0 ≡ false
      → Unchanged view h (append e h).1
  unfolding append Sqlite.append_event Sqlite.load_actor_state
  append-refused e h r j =
      elim (Bool-cases (is_some (Dict.get (expire_seen h.clock h.db.seen_event_ids) e.event_id))) [
        | inl p ↦ rw p refl
        | inr p ↦ cc (append_cases e h false p)
      ]

  pub append-Becomes :
      (e : EventEnvelope) (h : SqliteHost)
      → (append e h).0 ≡ true
      → Becomes view (actor_key e) h (Actor.push e (view h (actor_key e))) (append e h).1
  unfolding append
  append-Becomes e h r =
      elim (Bool-cases (is_some (Dict.get (expire_seen h.clock h.db.seen_event_ids) e.event_id))) [
        | inl p ↦ cc (append_cases e h true p)
        | inr p ↦ Right.append-Becomes h.clock (h.clock + tick h.clock) e h.db p
      ]

  pub has_lem :
      (key : String) (h : SqliteHost)
      → Sqlite.has_actor_events key h.db
        ≡ not (is_empty (view h key).events && is_empty (view h key).inflight)
  unfolding Sqlite.has_actor_events
  has_lem key h = refl

  Becomes-same :
      (key : String) (h h' : SqliteHost) (a : Actor)
      → Becomes view key h a h'
      → a ≡ view h key
      → Unchanged view h h'
  Becomes-same key h h' a became same j = elim (Bool-cases (key == j)) [
    | inl p ↦ became j ∙ rw p (same ∙ ap (view h) ((eq_iff key j).0 p))
    | inr p ↦ became j ∙ rw p refl
  ]

  unfoldable pub acquire : String → String → ℕ → SqliteHost → Bool × SqliteHost
  acquire key worker ttl h = read h (Sqlite.acquire_lease h.clock key worker ttl h.db)

  unfoldable pub heartbeat : String → String → ℕ → SqliteHost → Bool × SqliteHost
  heartbeat key worker ttl h = read h (Sqlite.heartbeat_lease h.clock key worker ttl h.db)

  acquire_known :
      (now : ℕ) (worker : String) (ttl : ℕ) (a : Actor) (b : Bool)
      → (Actor.acquire now worker ttl a).0 ≡ b
      → (Actor.acquire now worker ttl a).1 ≡ (if b then leased worker (now + seconds ttl) a else a)
  acquire_known now worker ttl a true h = ground arith
  acquire_known now worker ttl a false h = ground arith

  heartbeat_known :
      (now : ℕ) (worker : String) (ttl : ℕ) (a : Actor) (b : Bool)
      → (Actor.heartbeat now worker ttl a).0 ≡ b
      → (Actor.heartbeat now worker ttl a).1
        ≡ (if b then leased worker (now + seconds ttl) a else a)
  heartbeat_known now worker ttl a true h = ground arith
  heartbeat_known now worker ttl a false h = ground arith

  module _ (key worker : String) (ttl : ℕ) (h : SqliteHost) (named : (worker == "") ≡ false) where
    pub acquire-refused :
        (acquire key worker ttl h).0 ≡ false → Unchanged view h (acquire key worker ttl h).1
    unfolding acquire
    acquire-refused r =
        let (said, became) = Right.acquire-Implements key worker h.db named h.clock ttl in
        Becomes-same key h (acquire key worker ttl h).1 _ became
          (acquire_known h.clock worker ttl (view h key) false (sym said ∙ r))

    pub acquire-Leases :
        (acquire key worker ttl h).0 ≡ true → Leases view key worker h (acquire key worker ttl h).1
    unfolding acquire
    acquire-Leases r =
        let (said, became) = Right.acquire-Implements key worker h.db named h.clock ttl in
        let now_leased = acquire_known h.clock worker ttl (view h key) true (sym said ∙ r) in
        (
          h.clock + seconds ttl,
          λ j. became j ∙ ap (λ a. if key == j then a else view h j) now_leased,
        )

    pub heartbeat-owned : (heartbeat key worker ttl h).0 ≡ Actor.owned_by worker (view h key).lease
    unfolding heartbeat
    heartbeat-owned =
        (Right.heartbeat-Implements key worker h.db named h.clock ttl).0 ∙ ground arith

    pub heartbeat-refused :
        (heartbeat key worker ttl h).0 ≡ false → Unchanged view h (heartbeat key worker ttl h).1
    unfolding heartbeat
    heartbeat-refused r =
        let (said, became) = Right.heartbeat-Implements key worker h.db named h.clock ttl in
        Becomes-same key h (heartbeat key worker ttl h).1 _ became
          (heartbeat_known h.clock worker ttl (view h key) false (sym said ∙ r))

    pub heartbeat-Leases :
        (heartbeat key worker ttl h).0 ≡ true
        → Leases view key worker h (heartbeat key worker ttl h).1
    unfolding heartbeat
    heartbeat-Leases r =
        let (said, became) = Right.heartbeat-Implements key worker h.db named h.clock ttl in
        let now_leased = heartbeat_known h.clock worker ttl (view h key) true (sym said ∙ r) in
        (
          h.clock + seconds ttl,
          λ j. became j ∙ ap (λ a. if key == j then a else view h j) now_leased,
        )

  pub write_run-Unchanged :
      (r : RunRecord) (h : SqliteHost)
      → Unchanged view h (moved h (SqliteRecords.write_run h.clock r h.db))
  unfolding SqliteRecords.write_run Sqlite.load_actor_state
  write_run-Unchanged r h j = refl

  pub journal-Unchanged :
      (e : RunJournalEvent) (h : SqliteHost)
      → Unchanged view h (moved h (SqliteRecords.record_run_journal_event h.clock e h.db))
  unfolding SqliteRecords.record_run_journal_event Sqlite.load_actor_state
  journal-Unchanged e h j = refl

  pub checkpoint-Unchanged :
      (key : String) (h : SqliteHost)
      → Unchanged view h (record h { db = SqliteRecords.clear_run_checkpoint key h.db })
  unfolding SqliteRecords.clear_run_checkpoint Sqlite.load_actor_state
  checkpoint-Unchanged key h j = refl

  -- The SQLite store of agent/runtime/store.py behind the protocol `RuntimeStore`.
  abbrev pub sqlite_runtime : RuntimeStore w
  sqlite_runtime = record {
    State = SqliteHost;
    view = view;
    append_event = append;
    has_actor_events = λ key h. Sqlite.has_actor_events key h.db;
    restore_inflight = λ key h. keep h (Sqlite.restore_inflight key h.db);
    pop_next_batch = λ key h. keep h (Sqlite.pop_next_batch w key h.db);
    ack_batch = λ key b h. record h { db = Sqlite.ack_batch key b h.db };
    mark_inflight_failed =
        λ key b error n h. keep h (Sqlite.mark_inflight_failed w key b error n h.db);
    mark_actor_scheduled = λ key h. keep h (Sqlite.mark_actor_scheduled key h.db);
    clear_actor_scheduled = λ key h. record h { db = Sqlite.clear_actor_scheduled key h.db };
    acquire_lease = acquire;
    heartbeat_lease = heartbeat;
    release_lease = λ key worker h. record h { db = Sqlite.release_lease key worker h.db };
    write_run = λ r h. moved h (SqliteRecords.write_run h.clock r h.db);
    list_runs = λ key n h. SqliteRecords.list_runs key n h.db;
    get_run_termination = λ id h. SqliteRecords.get_run_termination id h.db;
    record_run_journal_event =
        λ e h. moved h (SqliteRecords.record_run_journal_event h.clock e h.db);
    clear_run_checkpoint = λ key h. record h { db = SqliteRecords.clear_run_checkpoint key h.db };
    append-refused = append-refused;
    append-Becomes = append-Becomes;
    has_lem = has_lem;
    restore-Implements = λ key h. Right.restore-Implements key h.db;
    pop-result = λ key h. (Right.pop-Implements w key h.db).0;
    pop-Becomes = λ key h b r. (Right.pop-Implements w key h.db).1;
    list_actor_statuses = λ h. (list_actor_statuses h.clock h.db, moved h h.db);
    statuses-Unchanged = λ h j. refl;
    statuses_lem = λ key h. statuses_lem h.clock key h.db;
    pop-Becomes_some = λ key h. (_, (Right.pop-Implements w key h.db).1);
    ack-Becomes = λ key b h. Right.ack-Becomes key h.db b;
    fail-Implements = λ key b error n h nonempty. Right.fail-Implements w key h.db b error n;
    mark-Implements = λ key h. Right.mark-Implements key h.db;
    clear-Becomes = λ key h. Right.clear-Becomes key h.db;
    acquire-refused = acquire-refused;
    acquire-Leases = acquire-Leases;
    heartbeat-owned = heartbeat-owned;
    heartbeat-refused = heartbeat-refused;
    heartbeat-Leases = heartbeat-Leases;
    release-Becomes = λ key worker h named. Right.release-Becomes key worker h.db named;
    write_run-Unchanged = write_run-Unchanged;
    journal-Unchanged = journal-Unchanged;
    checkpoint-Unchanged = checkpoint-Unchanged;
  }
