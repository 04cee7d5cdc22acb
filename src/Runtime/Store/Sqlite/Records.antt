-- ===== src/Runtime/Store/Sqlite/Records.antt =====
-- `SQLiteRuntimeStore` of agent/runtime/store.py: runs, publish receipts, journal, checkpoints and
-- termination requests. The `now` of a write is the `time.time()` that stamps the row.
use Prim.Native.Nat.{max}
use open_review.Base.{
  ℕ, ◌+◌, String, Bool, true, false, ◌&&◌, Option, none, some, List, [], ◌∷◌, ◌++◌, ◌==◌, leb, ltb,
  take, is_some, if◌then◌else◌, map,
}
use mathlib.Core.List.{reverse}
use open_review.Base.Dict
use open_review.Base.Dict.{Dict}
use open_review.Base.Result.{Result, ok, err}
use open_review.Runtime.Models.{
  RunRecord, PublishReceipt, RunJournalEvent, RunCheckpoint, RunTerminationRequest,
}
use open_review.Runtime.World.{World}
use open_review.Runtime.Receipts.{can_be_reclaimed}
use open_review.Runtime.Store.Memory.Records.{new_request}
use open_review.Runtime.Store.Sqlite.{SqliteStore, RunRow, ReceiptRow, JournalRow}

unfoldable pub write_run : ℕ → RunRecord → SqliteStore → SqliteStore
write_run now r s = record s {
  runs = Dict.put s.runs r.run_id (record { actor_key = r.actor_key; run = r; updated_at = now });
}

-- the rows of one actor
rows_of_actor : String → Dict RunRow → List RunRow
rows_of_actor key [] = []
rows_of_actor key ((id, row) ∷ rows) =
    let rest = rows_of_actor key rows in if row.actor_key == key then row ∷ rest else rest

-- `ORDER BY updated_at DESC`
insert_newest : RunRow → List RunRow → List RunRow
insert_newest row [] = row ∷ []
insert_newest row (x ∷ xs) =
    let rest = insert_newest row xs in
    if leb x.updated_at row.updated_at then row ∷ x ∷ xs else x ∷ rest

newest_first : List RunRow → List RunRow
unfolding insert_newest
newest_first [] = []
newest_first (row ∷ rows) = insert_newest row (newest_first rows)

unfoldable pub list_runs : String → ℕ → SqliteStore → List RunRecord
unfolding rows_of_actor newest_first
list_runs key limit s = map (λ row. row.run) (take limit (newest_first (rows_of_actor key s.runs)))

same_receipt_key : String → String → ReceiptRow → Bool
same_receipt_key key op_key row = row.actor_key == key && row.op_key == op_key

abbrev pub receipt_of : Option ReceiptRow → Option PublishReceipt
receipt_of none = none
receipt_of (some row) = some row.receipt

-- `SELECT ... WHERE actor_key = ? AND op_key = ?`
unfoldable pub find_receipt : String → String → List ReceiptRow → Option PublishReceipt
unfolding same_receipt_key
find_receipt key op_key [] = none
find_receipt key op_key (row ∷ rows) =
    if same_receipt_key key op_key row then some row.receipt else find_receipt key op_key rows

-- `INSERT ... ON CONFLICT(actor_key, op_key) DO UPDATE`; `stamp` makes the new `created_at` of a row
-- that is updated from the old one
unfoldable pub upsert_receipt : (ℕ → ℕ) → ℕ → PublishReceipt → List ReceiptRow → List ReceiptRow
unfolding same_receipt_key
upsert_receipt stamp now r [] =
    record { actor_key = r.actor_key; op_key = r.op_key; receipt = r; created_at = now } ∷ []
upsert_receipt stamp now r (row ∷ rows) =
    if same_receipt_key r.actor_key r.op_key row
    then record row { receipt = r; created_at = stamp row.created_at } ∷ rows
    else row ∷ upsert_receipt stamp now r rows

unfoldable pub get_publish_receipt : String → String → SqliteStore → Option PublishReceipt
unfolding find_receipt
get_publish_receipt key op_key s = find_receipt key op_key s.publish_receipts

unfoldable pub record_publish_receipt : ℕ → PublishReceipt → SqliteStore → SqliteStore
record_publish_receipt now r s = record s {
  publish_receipts = upsert_receipt (λ old. old) now r s.publish_receipts;
}

-- the `UPDATE` and the `INSERT` of `claim_publish_receipt`
unfoldable pub claim_write : ℕ → PublishReceipt → SqliteStore → SqliteStore
claim_write now r s = record s {
  publish_receipts = upsert_receipt (λ old. now) now r s.publish_receipts;
}

claim_over :
    ℕ
    → PublishReceipt
    → PublishReceipt
    → Result Bool
    → SqliteStore
    → Result (PublishReceipt × Bool) × SqliteStore
claim_over now receipt existing (ok false) s = (ok (existing, false), s)
claim_over now receipt existing (ok true) s = (ok (receipt, true), claim_write now receipt s)
claim_over now receipt existing (err x) s = (err x, s)

claim_known :
    World
    → ℕ
    → PublishReceipt
    → Option ℕ
    → Option PublishReceipt
    → SqliteStore
    → Result (PublishReceipt × Bool) × SqliteStore
unfolding claim_over
claim_known w now receipt stale_after none s = (ok (receipt, true), claim_write now receipt s)
claim_known w now receipt stale_after (some existing) s =
    claim_over now receipt existing (can_be_reclaimed w now existing stale_after) s

unfoldable pub claim_publish_receipt :
    World
    → ℕ
    → PublishReceipt
    → Option ℕ
    → SqliteStore
    → Result (PublishReceipt × Bool) × SqliteStore
unfolding claim_known
claim_publish_receipt w now receipt stale_after s =
    claim_known w now receipt stale_after (get_publish_receipt receipt.actor_key receipt.op_key s) s

-- the rows of one execution, in the order of insertion
unfoldable pub journal_rows : String → List JournalRow → List JournalRow
journal_rows key [] = []
journal_rows key (row ∷ rows) =
    let rest = journal_rows key rows in if row.execution_key == key then row ∷ rest else rest

-- `COALESCE(MAX(sequence), 0)`
unfoldable pub max_sequence : List JournalRow → ℕ
max_sequence [] = 0
max_sequence (row ∷ rows) = max row.sequence (max_sequence rows)

-- The SELECT and the INSERT, two transactions, with nothing between them (Runtime/Store/Sqlite/Race
-- has them apart).
unfoldable pub record_run_journal_event : ℕ → RunJournalEvent → SqliteStore → SqliteStore
record_run_journal_event now e s =
    let sequence = max_sequence (journal_rows e.execution_key s.run_journal) + 1 in
    record s {
      run_journal =
          s.run_journal
          ++ record {
            execution_key = e.execution_key;
            sequence = sequence;
            event = e;
            created_at = now;
          }
            ∷ [];
    }

-- `ORDER BY sequence ASC`
unfoldable pub insert_sequence : JournalRow → List JournalRow → List JournalRow
insert_sequence row [] = row ∷ []
insert_sequence row (x ∷ xs) =
    let rest = insert_sequence row xs in
    if leb row.sequence x.sequence then row ∷ x ∷ xs else x ∷ rest

unfoldable pub by_sequence : List JournalRow → List JournalRow
unfolding insert_sequence
by_sequence [] = []
by_sequence (row ∷ rows) = insert_sequence row (by_sequence rows)

-- With a positive limit: `ORDER BY sequence DESC LIMIT ?`, and the rows reversed.
abbrev pub limited_rows : Option ℕ → List JournalRow → List JournalRow
limited_rows none rows = rows
limited_rows (some n) rows = if ltb 0 n then reverse (take n (reverse rows)) else rows

unfoldable pub list_run_journal : String → Option ℕ → SqliteStore → List RunJournalEvent
list_run_journal key limit s =
    map (λ row. row.event) (limited_rows limit (by_sequence (journal_rows key s.run_journal)))

unfoldable pub write_run_checkpoint : RunCheckpoint → SqliteStore → SqliteStore
write_run_checkpoint c s = record s {
  run_checkpoints = Dict.put s.run_checkpoints c.execution_key c;
}

unfoldable pub get_run_checkpoint : String → SqliteStore → Option RunCheckpoint
get_run_checkpoint key s = Dict.get s.run_checkpoints key

unfoldable pub clear_run_checkpoint : String → SqliteStore → SqliteStore
clear_run_checkpoint key s = record s { run_checkpoints = Dict.del s.run_checkpoints key }

request_known :
    RunTerminationRequest
    → Option RunTerminationRequest
    → SqliteStore
    → RunTerminationRequest × SqliteStore
request_known request (some existing) s = (existing, s)
request_known request none s =
    (request, record s { run_terminations = Dict.put s.run_terminations request.run_id request })

-- the SELECT and the INSERT, two transactions, with nothing between them
unfoldable pub request_run_termination :
    String → String → String → String → SqliteStore → RunTerminationRequest × SqliteStore
unfolding request_known
request_run_termination run_id actor_key requested_by now s =
    request_known (new_request run_id actor_key requested_by now)
      (Dict.get s.run_terminations run_id) s

unfoldable pub get_run_termination : String → SqliteStore → Option RunTerminationRequest
get_run_termination run_id s = Dict.get s.run_terminations run_id

unfoldable pub is_run_termination_requested : String → SqliteStore → Bool
is_run_termination_requested run_id s = is_some (Dict.get s.run_terminations run_id)
