-- ===== src/Runtime/ReceiptStore.antt =====
-- What agent/runtime/publish.py relies on in a store of publish receipts: the operations of
-- `RuntimeStore` that it calls, with their laws. Both stores are proved to have them.
use open_review.Base.{
  ℕ, String, Bool, true, false, ◌&&◌, ◌≡◌, Option, none, some, ◌==◌, if◌then◌else◌,
}
use open_review.Base.Result.{Result, ok, err}
use open_review.Runtime.Models.{PublishReceipt}
use open_review.Runtime.Receipts.{can_be_reclaimed}
use open_review.Runtime.World.{World}

-- the receipt at (key, op) after `r` was stored
abbrev pub stored : PublishReceipt → String → String → Option PublishReceipt → Option PublishReceipt
stored r key op old = if r.actor_key == key && r.op_key == op then some r else old

abbrev over : PublishReceipt → PublishReceipt → Result Bool → Result (PublishReceipt × Bool)
over r old (ok true) = ok (r, true)
over r old (ok false) = ok (old, false)
over r old (err x) = err x

-- The reply to a claim: the new receipt with `true`, the old one with `false`, or an exception.
abbrev pub verdict :
    World → ℕ → PublishReceipt → Option ℕ → Option PublishReceipt → Result (PublishReceipt × Bool)
verdict w now r stale_after none = ok (r, true)
verdict w now r stale_after (some old) = over r old (can_be_reclaimed w now old stale_after)

abbrev pub claimed_by : Result (PublishReceipt × Bool) → Bool
claimed_by (ok (r, b)) = b
claimed_by (err x) = false

pub record ReceiptStore (w : World) : Type 1 where
  pub State : Type 0
  pub get : String → String → State → Option PublishReceipt
  pub put : ℕ → PublishReceipt → State → State
  pub claim : ℕ → PublishReceipt → Option ℕ → State → Result (PublishReceipt × Bool) × State
  pub get-put :
      (now : ℕ) (r : PublishReceipt) (key op : String) (s : State)
      → get key op (put now r s) ≡ stored r key op (get key op s)
  pub claim-verdict :
      (now : ℕ) (r : PublishReceipt) (stale_after : Option ℕ) (s : State)
      → (claim now r stale_after s).0 ≡ verdict w now r stale_after (get r.actor_key r.op_key s)
  pub get-claim :
      (now : ℕ) (r : PublishReceipt) (stale_after : Option ℕ) (key op : String) (s : State)
      → get key op (claim now r stale_after s).1 ≡ (
          if claimed_by (claim now r stale_after s).0
          then stored r key op (get key op s)
          else get key op s)
  pub refused_unchanged :
      (now : ℕ) (r : PublishReceipt) (stale_after : Option ℕ) (s : State)
      → claimed_by (claim now r stale_after s).0 ≡ false
      → (claim now r stale_after s).1 ≡ s
