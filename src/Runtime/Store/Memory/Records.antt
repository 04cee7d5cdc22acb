-- ===== src/Runtime/Store/Memory/Records.antt =====
-- `InMemoryRuntimeStore` of agent/runtime/store.py: runs, publish receipts, journal, checkpoints
-- and termination requests. A request takes its two times from `iso_now()`: arguments here.
use open_review.Base.{
  last_n, ℕ, String, Bool, true, false, Option, none, some, List, [], ◌∷◌, ◌++◌, ◌==◌, ltb, take,
  is_some, if◌then◌else◌,
}
use open_review.Base.Dict
use open_review.Base.Dict.{Dict}
use open_review.Base.Result.{Result, ok, err}
use open_review.Runtime.Models.{
  RunRecord, PublishReceipt, RunJournalEvent, RunCheckpoint, RunTerminationRequest,
}
use open_review.Runtime.World.{World}
use open_review.Runtime.Receipts.{can_be_reclaimed}
use open_review.Runtime.Store.Memory.{MemoryStore, or_nil}

-- the `for` loop of `write_run`: the first run with the same id is replaced in its place; `none`
-- where the loop ends without `break`
unfoldable pub replace_run : RunRecord → List RunRecord → Option (List RunRecord)
replace_run r [] = none
replace_run r (x ∷ xs) =
    let rest = replace_run r xs in
    if x.run_id == r.run_id
    then some (r ∷ xs)
    else elim rest [ none ↦ none | some ys ↦ some (x ∷ ys) ]

written : RunRecord → List RunRecord → Option (List RunRecord) → List RunRecord
written r runs none = r ∷ runs
written r runs (some replaced) = replaced

abbrev pub max_runs : ℕ
max_runs = 50

-- `while len(runs) > 50: runs.pop()` leaves the first 50
unfoldable pub write_run : RunRecord → MemoryStore → MemoryStore
unfolding written replace_run
write_run r s =
    let runs = or_nil (Dict.get s.runs r.actor_key) in
    record s {
      runs = Dict.put s.runs r.actor_key (take max_runs (written r runs (replace_run r runs)));
    }

unfoldable pub list_runs : String → ℕ → MemoryStore → List RunRecord
list_runs key limit s = take limit (or_nil (Dict.get s.runs key))

abbrev pub receipts_of : Option (Dict PublishReceipt) → Dict PublishReceipt
receipts_of none = []
receipts_of (some d) = d

unfoldable pub get_publish_receipt : String → String → MemoryStore → Option PublishReceipt
get_publish_receipt key op_key s = Dict.get (receipts_of (Dict.get s.publish_receipts key)) op_key

unfoldable pub record_publish_receipt : PublishReceipt → MemoryStore → MemoryStore
record_publish_receipt r s = record s {
  publish_receipts =
      Dict.put s.publish_receipts r.actor_key
        (Dict.put (receipts_of (Dict.get s.publish_receipts r.actor_key)) r.op_key r);
}

-- what is returned beside an existing receipt that may, or may not, be claimed again
claim_over :
    PublishReceipt
    → PublishReceipt
    → Result Bool
    → MemoryStore
    → Result (PublishReceipt × Bool) × MemoryStore
claim_over receipt existing (ok false) s = (ok (existing, false), s)
claim_over receipt existing (ok true) s = (ok (receipt, true), record_publish_receipt receipt s)
claim_over receipt existing (err x) s = (err x, s)

claim_known :
    World
    → ℕ
    → PublishReceipt
    → Option ℕ
    → Option PublishReceipt
    → MemoryStore
    → Result (PublishReceipt × Bool) × MemoryStore
unfolding claim_over
claim_known w now receipt stale_after none s =
    (ok (receipt, true), record_publish_receipt receipt s)
claim_known w now receipt stale_after (some existing) s =
    claim_over receipt existing (can_be_reclaimed w now existing stale_after) s

unfoldable pub claim_publish_receipt :
    World
    → ℕ
    → PublishReceipt
    → Option ℕ
    → MemoryStore
    → Result (PublishReceipt × Bool) × MemoryStore
unfolding claim_known
claim_publish_receipt w now receipt stale_after s =
    claim_known w now receipt stale_after (get_publish_receipt receipt.actor_key receipt.op_key s) s

unfoldable pub record_run_journal_event : RunJournalEvent → MemoryStore → MemoryStore
record_run_journal_event e s = record s {
  run_journal =
      Dict.put s.run_journal e.execution_key
        (or_nil (Dict.get s.run_journal e.execution_key) ++ e ∷ []);
}

-- `journal[-limit:]`, for a positive limit
abbrev pub limited {ℓ} : {A : Type ℓ} → Option ℕ → List A → List A
limited none xs = xs
limited (some n) xs = if ltb 0 n then last_n n xs else xs

unfoldable pub list_run_journal : String → Option ℕ → MemoryStore → List RunJournalEvent
list_run_journal key limit s = limited limit (or_nil (Dict.get s.run_journal key))

unfoldable pub write_run_checkpoint : RunCheckpoint → MemoryStore → MemoryStore
write_run_checkpoint c s = record s {
  run_checkpoints = Dict.put s.run_checkpoints c.execution_key c;
}

unfoldable pub get_run_checkpoint : String → MemoryStore → Option RunCheckpoint
get_run_checkpoint key s = Dict.get s.run_checkpoints key

unfoldable pub clear_run_checkpoint : String → MemoryStore → MemoryStore
clear_run_checkpoint key s = record s { run_checkpoints = Dict.del s.run_checkpoints key }

abbrev pub new_request : String → String → String → String → RunTerminationRequest
new_request run_id actor_key requested_by now = record {
  run_id = run_id;
  actor_key = actor_key;
  requested_by = requested_by;
  requested_at = now;
  updated_at = now;
}

request_known :
    RunTerminationRequest
    → Option RunTerminationRequest
    → MemoryStore
    → RunTerminationRequest × MemoryStore
request_known request (some existing) s = (existing, s)
request_known request none s =
    (request, record s { run_terminations = Dict.put s.run_terminations request.run_id request })

unfoldable pub request_run_termination :
    String → String → String → String → MemoryStore → RunTerminationRequest × MemoryStore
unfolding request_known
request_run_termination run_id actor_key requested_by now s =
    request_known (new_request run_id actor_key requested_by now)
      (Dict.get s.run_terminations run_id) s

unfoldable pub get_run_termination : String → MemoryStore → Option RunTerminationRequest
get_run_termination run_id s = Dict.get s.run_terminations run_id

unfoldable pub is_run_termination_requested : String → MemoryStore → Bool
is_run_termination_requested run_id s = is_some (Dict.get s.run_terminations run_id)
