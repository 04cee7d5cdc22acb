-- ===== src/Runtime/Publish/Idempotent.antt =====
-- A repeated run does not publish twice.
use open_review.Base.{
  ℕ, String, Bool, true, false, ◌≡◌, refl, sym, ap, ◌∙◌, Option, none, some, eq_refl, arith,
}
use open_review.Base.Dict.{Dict}
use open_review.Base.Result.{Result, ok, err}
use open_review.Runtime.Json.{Json}
use open_review.Runtime.Models.{PublishReceipt, PublishChannel, PublishStatus}
use open_review.Runtime.World.{World}
use open_review.Runtime.Receipts.{can_be_reclaimed}
use open_review.Runtime.ReceiptStore.{ReceiptStore, verdict, claimed_by}
use open_review.Runtime.Publish.{
  GitLabPublishService, Times, Outside, make_receipt, has_receipts, claim, record_outcome,
  record_completed, publish, after_claim, finish, track, or_text,
}

verdict_refused :
    (w : World) (now : ℕ) (r x : PublishReceipt) (stale : Option ℕ) (old : Option PublishReceipt)
    → verdict w now r stale old ≡ ok (x, false)
    → old ≡ some x
verdict_refused w now r x stale none h = cc
verdict_refused w now r x stale (some e) h = ground arith

completed-not_reclaimed :
    (w : World) (now : ℕ) (r : PublishReceipt) (stale : Option ℕ)
    → r.status ≡ PublishStatus.completed
    → can_be_reclaimed w now r stale ≡ ok false
unfolding can_be_reclaimed
completed-not_reclaimed w now r stale h = rw h refl

module _ (w : World) (store : ReceiptStore w) (ttl : ℕ) {G : Type 0} (self : GitLabPublishService)
    (op : String) where
  -- the receipt of the operation
  abbrev pub receipt_at : Outside w store G → Option PublishReceipt
  receipt_at s = store.get (or_text self.actor_key) op s.receipts

  track-receipts :
      (run : Option String) (fields : Option (Dict Json)) (r : PublishReceipt)
      (s : Outside w store G)
      → (track w store ttl run fields r s).receipts ≡ s.receipts
  unfolding track
  track-receipts none fields r s = refl
  track-receipts (some run) none r s = refl
  track-receipts (some run) (some fields) r s = ground arith

  module _ (on : has_receipts self ≡ true) where
    completed_at :
        (t : Times) (channel : PublishChannel) (id : Option String) (fields : Option (Dict Json))
        (s : Outside w store G)
        → receipt_at (record_completed w store ttl self t op channel id fields s).1
          ≡ some (record_completed w store ttl self t op channel id fields s).0
    unfolding record_completed
    completed_at t channel id fields s =
        ap (store.get (or_text self.actor_key) op) (
          track-receipts self.tracking_run_id fields _ (
            record_outcome w store ttl self t
              (make_receipt self op channel id PublishStatus.completed t.outcome_stamp) s))
        ∙ (unfold record_outcome make_receipt in
            rw (on, store.get-put, eq_refl (or_text self.actor_key), eq_refl op) refl)

    finish-receipt :
        (t : Times) (channel : PublishChannel) (fields : Option (Dict Json))
        (out : Result (Option String)) (s : Outside w store G) (r : PublishReceipt)
        → (finish w store ttl self t op channel fields out s).0 ≡ ok r
        → receipt_at (finish w store ttl self t op channel fields out s).1 ≡ some r
    unfolding finish
    finish-receipt t channel fields (err x) s r h = cc
    finish-receipt t channel fields (ok id) s r h = cc (completed_at t channel id fields s, h)

    -- what the service does after a claim leaves the receipt that it returns, if that is complete
    after_claim-receipt :
        (t : Times) (channel : PublishChannel) (publisher : G → Result (Option String) × G)
        (fields : Option (Dict Json)) (v : Result (PublishReceipt × Bool)) (s : Outside w store G)
        (r : PublishReceipt)
        → ((x : PublishReceipt) → v ≡ ok (x, false) → receipt_at s ≡ some x)
        → (after_claim w store ttl self t op channel publisher fields v s).0 ≡ ok r
        → receipt_at (after_claim w store ttl self t op channel publisher fields v s).1 ≡ some r
    unfolding after_claim
    after_claim-receipt t channel publisher fields (err x) s r old h = cc
    after_claim-receipt t channel publisher fields (ok (x, false)) s r old h = cc (old x refl, h)
    after_claim-receipt t channel publisher fields (ok (x, true)) s r old h =
        finish-receipt t channel fields (publisher s.gitlab).0
          (record s { gitlab = (publisher s.gitlab).1 }) r h

    claim_result :
        (t : Times) (channel : PublishChannel) (s : Outside w store G)
        → (claim w store ttl self t op channel s).0
          ≡ verdict w t.claim_now
              (make_receipt self op channel none PublishStatus.claimed t.claim_stamp)
              (some ttl)
              (receipt_at s)
    unfolding claim make_receipt
    claim_result t channel s = rw on (store.claim-verdict t.claim_now _ (some ttl) s.receipts)

    claim_refused :
        (t : Times) (channel : PublishChannel) (s : Outside w store G) (x : PublishReceipt)
        → (claim w store ttl self t op channel s).0 ≡ ok (x, false)
        → (claim w store ttl self t op channel s).1 ≡ s
    unfolding claim
    claim_refused t channel s x = rw on (λ h.
        ap (λ (q : store.State). record s { receipts = q })
          (store.refused_unchanged t.claim_now _ (some ttl) s.receipts (ap claimed_by h)))

    -- a publish that returns leaves the receipt that it returns
    publish-receipt :
        (t : Times) (channel : PublishChannel) (publisher : G → Result (Option String) × G)
        (fields : Option (Dict Json)) (s : Outside w store G) (r : PublishReceipt)
        → (publish w store ttl self t op channel publisher fields s).0 ≡ ok r
        → receipt_at (publish w store ttl self t op channel publisher fields s).1 ≡ some r
    unfolding publish
    publish-receipt t channel publisher fields s r h =
        let c = claim w store ttl self t op channel s in
        after_claim-receipt t channel publisher fields c.0 c.1 r
          (λ x refused.
            ap receipt_at (claim_refused t channel s x refused)
            ∙ verdict_refused w t.claim_now _ x (some ttl) (receipt_at s)
                (sym (claim_result t channel s) ∙ refused))
          h

    -- For a service with a store and an actor key: where a completed receipt stands at the
    -- operation, `_publish` returns it, and neither GitLab, the receipts nor the tracked runs
    -- change, whatever the publisher would do.
    pub publish_completed :
        (t : Times) (channel : PublishChannel) (publisher : G → Result (Option String) × G)
        (fields : Option (Dict Json)) (s : Outside w store G) (r : PublishReceipt)
        → receipt_at s ≡ some r
        → r.status ≡ PublishStatus.completed
        → publish w store ttl self t op channel publisher fields s ≡ (ok r, s)
    unfolding publish
    publish_completed t channel publisher fields s r found complete =
        let refused : (claim w store ttl self t op channel s).0 ≡ ok (r, false) =
          claim_result t channel s
          ∙ rw (found, completed-not_reclaimed w t.claim_now r (some ttl) complete) refl in
        rw (refused, claim_refused t channel s r refused) refl

    -- For a service with a store and an actor key, if a publish returned a completed
    -- receipt, then publishing the same operation again, at any time, in any channel and with any
    -- publisher, returns that receipt and changes nothing.
    pub publish_twice :
        (t t' : Times) (channel channel' : PublishChannel)
        (publisher publisher' : G → Result (Option String) × G)
        (fields fields' : Option (Dict Json)) (s : Outside w store G) (r : PublishReceipt)
        → (publish w store ttl self t op channel publisher fields s).0 ≡ ok r
        → r.status ≡ PublishStatus.completed
        → let s1 = (publish w store ttl self t op channel publisher fields s).1 in
          publish w store ttl self t' op channel' publisher' fields' s1 ≡ (ok r, s1)
    publish_twice t t' channel channel' publisher publisher' fields fields' s r h complete =
        publish_completed t' channel' publisher' fields' _ r
          (publish-receipt t channel publisher fields s r h) complete
