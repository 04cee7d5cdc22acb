-- ===== src/Runtime/Store/Sqlite/Race.antt =====
-- `_record_run_journal_event_sync` has no `BEGIN`: its SELECT and its INSERT are two transactions,
-- and another record of the same execution can come between them.
use Prim.Native.Nat.{max}
use open_review.Base.{
  ℕ, ◌+◌, ◌<◌, String, Bool, true, false, ◌&&◌, ◌||◌, ◌≡◌, refl, sym, ap, ◌∙◌, List, [], ◌∷◌, ◌++◌,
  ◌==◌, eqb, eq_refl, arith, Bool-cases, inl, inr, if◌then◌else◌,
}
use open_review.Runtime.Models.{RunJournalEvent}
use open_review.Runtime.Store.Sqlite.{SqliteStore, JournalRow}
use open_review.Runtime.Store.Sqlite.Records.{journal_rows, max_sequence, record_run_journal_event}

-- the SELECT
unfoldable pub next_sequence : String → SqliteStore → ℕ
unfolding max_sequence journal_rows
next_sequence key s = max_sequence (journal_rows key s.run_journal) + 1

-- a row with the primary key (execution_key, sequence)
unfoldable pub has_row : String → ℕ → List JournalRow → Bool
has_row key n [] = false
has_row key n (row ∷ rows) = row.execution_key == key && eqb row.sequence n || has_row key n rows

-- the INSERT; `false` is its IntegrityError
unfoldable pub insert_journal_event : ℕ → ℕ → RunJournalEvent → SqliteStore → Bool × SqliteStore
unfolding has_row
insert_journal_event now sequence e s =
    if has_row e.execution_key sequence s.run_journal then (false, s) else (
      true,
      record s {
        run_journal =
            s.run_journal
            ++ record {
              execution_key = e.execution_key;
              sequence = sequence;
              event = e;
              created_at = now;
            }
              ∷ [];
      },
    )

no_row_above :
    (key : String) (n : ℕ) (rows : List JournalRow)
    → max_sequence (journal_rows key rows) < n
    → has_row key n rows ≡ false
unfolding has_row max_sequence journal_rows
no_row_above key n [] h = refl
no_row_above key n (row ∷ rows) h = elim (Bool-cases (row.execution_key == key)) [
  | inl p ↦
      let top = max_sequence (journal_rows key rows) in
      let split : max row.sequence top < n = rw p at h in
      rw (p, no_row_above key n rows (omega arith)) (ground (arith, split))
  | inr p ↦ rw (p, no_row_above key n rows (rw p at h)) refl
]

has_row-snoc :
    (key : String) (n : ℕ) (rows : List JournalRow) (row : JournalRow)
    → row.execution_key ≡ key
    → row.sequence ≡ n
    → has_row key n (rows ++ row ∷ []) ≡ true
unfolding has_row
has_row-snoc key n [] row p q = rw (p, q, eq_refl key) (ground arith)
has_row-snoc key n (x ∷ rows) row p q = rw (has_row-snoc key n rows row p q) (ground arith)

-- with nothing between them, the two statements are one record
pub statements_lem :
    (now : ℕ) (e : RunJournalEvent) (s : SqliteStore)
    → insert_journal_event now (next_sequence e.execution_key s) e s
      ≡ (true, record_run_journal_event now e s)
unfolding insert_journal_event next_sequence record_run_journal_event
statements_lem now e s =
    let top = max_sequence (journal_rows e.execution_key s.run_journal) in
    let free : has_row e.execution_key (top + 1) s.run_journal ≡ false =
      no_row_above e.execution_key (top + 1) s.run_journal (omega arith) in
    rw free refl

insert_refused :
    (now n : ℕ) (e : RunJournalEvent) (s : SqliteStore)
    → has_row e.execution_key n s.run_journal ≡ true
    → insert_journal_event now n e s ≡ (false, s)
unfolding insert_journal_event
insert_refused now n e s h = rw h refl

taken_row :
    (now : ℕ) (e : RunJournalEvent) (key : String) (s : SqliteStore)
    → e.execution_key ≡ key
    → has_row key (next_sequence key s) (record_run_journal_event now e s).run_journal ≡ true
unfolding next_sequence record_run_journal_event
taken_row now e key s same =
    has_row-snoc key _ s.run_journal _ same
      (ap (λ k. max_sequence (journal_rows k s.run_journal) + 1) same)

-- If two records of one execution both read the journal before either inserts, then the first insert
-- is made and the second raises an IntegrityError, which leaves the store as it is: the second
-- event is lost.
pub racing_record_lost :
    (now now' : ℕ) (e e' : RunJournalEvent) (s : SqliteStore)
    → e.execution_key ≡ e'.execution_key
    → let first = insert_journal_event now (next_sequence e.execution_key s) e s in
      (first ≡ (true, record_run_journal_event now e s))
      × (insert_journal_event now' (next_sequence e'.execution_key s) e' first.1 ≡ (false, first.1))
racing_record_lost now now' e e' s same =
    let first = statements_lem now e s in
    let n = next_sequence e'.execution_key s in
    let lost =
      insert_refused now' n e' (record_run_journal_event now e s)
        (taken_row now e e'.execution_key s same) in
    (
      first,
      ap (λ (f : Bool × SqliteStore). insert_journal_event now' n e' f.1) first
          ∙ lost
          ∙ sym (ap (λ (f : Bool × SqliteStore). (false, f.1)) first),
    )
