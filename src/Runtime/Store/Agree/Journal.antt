-- ===== src/Runtime/Store/Agree/Journal.antt =====
-- The run journal of the SQLite store, read back by its sequence numbers, is the list that the
-- in-memory store keeps.
use Prim.Native.Nat.{max}
use mathlib.Core.List.{map-append}
use open_review.Base.{
  length-map, last_n, last_n-reverse, ℕ, ◌+◌, ◌≤◌, ◌<◌, String, ◌≡◌, refl, sym, ap, ◌∙◌, Option,
  none, some, List, [], ◌∷◌, ◌++◌, map, ◌==◌, eq_iff, arith, Bool-cases, inl, inr, if◌then◌else◌,
  All, All-append, length, ltb, append_assoc, append-nil,
}
use open_review.Base.Dict
use open_review.Base.Dict.{Dict, get-put}
use open_review.Runtime.Models.{RunJournalEvent}
use open_review.Runtime.Store.Memory
use open_review.Runtime.Store.Memory.{MemoryStore, or_nil}
use open_review.Runtime.Store.Memory.Records as MemoryRecords
use open_review.Runtime.Store.Memory.Records.{limited}
use open_review.Runtime.Store.Sqlite
use open_review.Runtime.Store.Sqlite.{SqliteStore, JournalRow}
use open_review.Runtime.Store.Sqlite.Records as SqliteRecords
use open_review.Runtime.Store.Sqlite.Records.{
  journal_rows, max_sequence, insert_sequence, by_sequence, limited_rows,
}

-- sequence numbers grow
abbrev pub Ordered : List JournalRow → Type 0
Ordered [] = Unit
Ordered (row ∷ rows) = All (λ r. row.sequence < r.sequence) rows × Ordered rows

insert-Ordered :
    (row : JournalRow) (rows : List JournalRow)
    → All (λ r. row.sequence < r.sequence) rows
    → insert_sequence row rows ≡ row ∷ rows
unfolding insert_sequence
insert-Ordered row [] h = refl
insert-Ordered row (x ∷ xs) h = ground arith

-- sorting changes nothing
by_sequence-Ordered : (rows : List JournalRow) → Ordered rows → by_sequence rows ≡ rows
unfolding by_sequence
by_sequence-Ordered [] h = refl
by_sequence-Ordered (row ∷ rows) h = rw (by_sequence-Ordered rows h.1) (insert-Ordered row rows h.0)

Ordered-snoc :
    (rows : List JournalRow) (r : JournalRow)
    → Ordered rows
    → All (λ x. x.sequence < r.sequence) rows
    → Ordered (rows ++ r ∷ [])
Ordered-snoc [] r h below = (tt, tt)
Ordered-snoc (x ∷ xs) r h below = (
  All-append (λ y. x.sequence < y.sequence) xs (r ∷ []) h.0 (below.0, tt),
  Ordered-snoc xs r h.1 below.1,
)

All-weaken :
    (m n : ℕ) (rows : List JournalRow)
    → m ≤ n
    → All (λ x. x.sequence < m) rows
    → All (λ x. x.sequence < n) rows
All-weaken m n [] le h = tt
All-weaken m n (x ∷ xs) le h = (omega arith, All-weaken m n xs le h.1)

below_next : (rows : List JournalRow) → All (λ x. x.sequence < max_sequence rows + 1) rows
unfolding max_sequence
below_next [] = tt
below_next (x ∷ xs) = (
  omega arith,
  All-weaken (max_sequence xs + 1) (max x.sequence (max_sequence xs) + 1) xs (omega arith)
      (below_next xs),
)

rows-append :
    (key : String) (xs ys : List JournalRow)
    → journal_rows key (xs ++ ys) ≡ journal_rows key xs ++ journal_rows key ys
unfolding journal_rows
rows-append key [] ys = refl
rows-append key (x ∷ xs) ys = elim (Bool-cases (x.execution_key == key)) [
  | inl p ↦ rw p (rw (rows-append key xs ys) refl)
  | inr p ↦ rw p (rows-append key xs ys)
]

-- both stores hold, for each execution, the same events in the same order
pub record SameJournal (m : MemoryStore) (d : SqliteStore) : Type 0 where
  pub ordered : (key : String) → Ordered (journal_rows key d.run_journal)
  pub events :
      (key : String)
      → or_nil (Dict.get m.run_journal key)
        ≡ map (λ row. row.event) (journal_rows key d.run_journal)

module _ (now : ℕ) (e : RunJournalEvent) (m : MemoryStore) (d : SqliteStore)
    (same : SameJournal m d) where
  abbrev rows : String → List JournalRow
  rows key = journal_rows key d.run_journal

  abbrev new_row : JournalRow
  new_row = record {
    execution_key = e.execution_key;
    sequence = max_sequence (rows e.execution_key) + 1;
    event = e;
    created_at = now;
  }

  abbrev d' : SqliteStore
  d' = SqliteRecords.record_run_journal_event now e d

  new_rows :
      (key : String)
      → journal_rows key d'.run_journal
        ≡ rows key ++ (if e.execution_key == key then new_row ∷ [] else [])
  unfolding SqliteRecords.record_run_journal_event
  new_rows key = rows-append key d.run_journal (new_row ∷ []) ∙ (unfold journal_rows in refl)

  new_events :
      (key : String)
      → or_nil (Dict.get (MemoryRecords.record_run_journal_event e m).run_journal key)
        ≡ or_nil (Dict.get m.run_journal key) ++ (if e.execution_key == key then e ∷ [] else [])
  unfolding MemoryRecords.record_run_journal_event
  new_events key = elim (Bool-cases (e.execution_key == key)) [
    | inl p ↦
        rw (get-put, p)
          (ap (λ k. or_nil (Dict.get m.run_journal k) ++ e ∷ []) ((eq_iff e.execution_key key).0 p))
    | inr p ↦ rw (get-put, p, append-nil) refl
  ]

  map_new :
      (key : String)
      → map (λ row. row.event) (if e.execution_key == key then new_row ∷ [] else [])
        ≡ (if e.execution_key == key then e ∷ [] else [])
  map_new key = elim (Bool-cases (e.execution_key == key)) [ inl p ↦ rw p refl | inr p ↦ rw p refl ]

  -- recording an event keeps the two journals the same
  pub record-SameJournal : SameJournal (MemoryRecords.record_run_journal_event e m) d'
  record-SameJournal = record {
    ordered = λ key. elim (Bool-cases (e.execution_key == key)) [
      | inl p ↦
          let k = (eq_iff e.execution_key key).0 p in
          rw (new_rows key, p)
            (Ordered-snoc (rows key) new_row (same.ordered key)
              (rw (← k) (below_next (rows e.execution_key))))
      | inr p ↦ rw (new_rows key, p, append-nil) (same.ordered key)
    ];
    events = λ key.
        new_events key
        ∙ ap (λ l. l ++ (if e.execution_key == key then e ∷ [] else [])) (same.events key)
        ∙ sym (
            ap (map (λ row. row.event)) (new_rows key)
            ∙ map-append _ (rows key) _
            ∙ ap (λ l. map (λ row. row.event) (rows key) ++ l) (map_new key));
  }

map-last_n {ℓ κ} :
    {A : Type ℓ} {B : Type κ} (f : A → B) (n : ℕ) (xs : List A)
    → map f (last_n n xs) ≡ last_n n (map f xs)
map-last_n f n [] = refl
map-last_n f n (x ∷ xs) = elim (Bool-cases (ltb (length xs) n)) [
  | inl p ↦ rw (length-map xs f, p) refl
  | inr p ↦ rw (length-map xs f, p) (map-last_n f n xs)
]

limited_rows_lem :
    (limit : Option ℕ) (rows : List JournalRow) → limited_rows limit rows ≡ limited limit rows
limited_rows_lem none rows = refl
limited_rows_lem (some n) rows = rw (last_n-reverse n rows) refl

map-limited {ℓ κ} :
    {A : Type ℓ} {B : Type κ} (f : A → B) (limit : Option ℕ) (xs : List A)
    → map f (limited limit xs) ≡ limited limit (map f xs)
map-limited f none xs = refl
map-limited f (some n) xs = elim (Bool-cases (ltb 0 n)) [
  | inl p ↦ rw p (map-last_n f n xs)
  | inr p ↦ rw p refl
]

-- the two stores list the same journal, with a limit or without
pub list-agrees :
    (m : MemoryStore) (d : SqliteStore) (key : String) (limit : Option ℕ)
    → SameJournal m d
    → MemoryRecords.list_run_journal key limit m ≡ SqliteRecords.list_run_journal key limit d
unfolding MemoryRecords.list_run_journal SqliteRecords.list_run_journal
list-agrees m d key limit same =
    rw
      (
        by_sequence-Ordered (journal_rows key d.run_journal) (same.ordered key),
        limited_rows_lem,
        map-limited,
        same.events key,
      )
      refl

-- one event after another, each with the clock's reading
unfoldable pub record_all : List (ℕ × RunJournalEvent) → SqliteStore → SqliteStore
record_all [] d = d
record_all ((now, e) ∷ es) d = record_all es (SqliteRecords.record_run_journal_event now e d)

-- the events of one execution, in order
unfoldable pub of_execution : String → List (ℕ × RunJournalEvent) → List RunJournalEvent
of_execution key [] = []
of_execution key ((now, e) ∷ es) =
    (if e.execution_key == key then e ∷ [] else []) ++ of_execution key es

record_all-SameJournal :
    (es : List (ℕ × RunJournalEvent)) (m : MemoryStore) (d : SqliteStore) (key : String)
    → SameJournal m d
    → (m' : MemoryStore) × SameJournal m' (record_all es d)
      × (or_nil (Dict.get m'.run_journal key)
          ≡ or_nil (Dict.get m.run_journal key) ++ of_execution key es)
unfolding record_all of_execution
record_all-SameJournal [] m d key h = (m, h, sym (append-nil _))
record_all-SameJournal ((now, e) ∷ es) m d key h =
    let m1 = MemoryRecords.record_run_journal_event e m in
    let (m', same, grown) =
      record_all-SameJournal es m1 (SqliteRecords.record_run_journal_event now e d) key
        (record-SameJournal now e m d h) in
    (
      m',
      same,
      grown
          ∙ ap (λ l. l ++ of_execution key es) (new_events now e m d h key)
          ∙ append_assoc (or_nil (Dict.get m.run_journal key)) _ _,
    )

empty-SameJournal : SameJournal Memory.init Sqlite.init
unfolding journal_rows Dict.get
empty-SameJournal = record { ordered = λ key. tt; events = λ key. refl }

-- After any events were recorded in an empty SQLite store, the journal of an execution is the list of
-- the events that were recorded for it, in the order of recording and whatever the clock said; with a positive limit, the last ones.
pub list-record_all :
    (es : List (ℕ × RunJournalEvent)) (key : String) (limit : Option ℕ)
    → SqliteRecords.list_run_journal key limit (record_all es Sqlite.init)
      ≡ limited limit (of_execution key es)
unfolding SqliteRecords.list_run_journal
list-record_all es key limit =
    let (m, same, grown) =
      record_all-SameJournal es Memory.init Sqlite.init key empty-SameJournal in
    let d = record_all es Sqlite.init in
    sym (list-agrees m d key limit same)
    ∙ (unfold MemoryRecords.list_run_journal Dict.get in ap (limited limit) grown)
