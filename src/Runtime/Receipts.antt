-- ===== src/Runtime/Receipts.antt =====
-- `_publish_receipt_can_be_reclaimed` of agent/runtime/store.py. The argument `now` is
-- `now_in_open_review_tz()`, which has a time zone, in microseconds.
use open_review.Base.{ℕ, ◌+◌, Bool, true, false, Option, none, some, leb, eqb, if◌then◌else◌}
use open_review.Base.Result.{Result, ok, err, type_error}
use open_review.Runtime.Models.{PublishReceipt, PublishStatus}
use open_review.Runtime.World.{World, Stamp, seconds}

-- the age of a claim, for a positive limit; a time that cannot be read is old enough
stale_claim : ℕ → ℕ → Option Stamp → Result Bool
stale_claim now limit none = ok true
stale_claim now limit (some created_at) =
    if created_at.aware then ok (leb (created_at.micros + seconds limit) now) else err type_error

claim_reclaimable : World → ℕ → PublishReceipt → Option ℕ → Result Bool
unfolding stale_claim
claim_reclaimable w now receipt none = ok false
claim_reclaimable w now receipt (some limit) =
    if eqb limit 0 then ok false else stale_claim now limit (w.fromisoformat receipt.created_at)

reclaim_by_status : World → ℕ → PublishReceipt → Option ℕ → PublishStatus → Result Bool
unfolding claim_reclaimable
reclaim_by_status w now receipt stale_after PublishStatus.failed = ok true
reclaim_by_status w now receipt stale_after PublishStatus.claimed =
    claim_reclaimable w now receipt stale_after
reclaim_by_status w now receipt stale_after PublishStatus.completed = ok false

unfoldable pub can_be_reclaimed : World → ℕ → PublishReceipt → Option ℕ → Result Bool
unfolding reclaim_by_status
can_be_reclaimed w now receipt stale_after =
    reclaim_by_status w now receipt stale_after receipt.status
