-- ===== src/Runtime/Publish.antt =====
-- agent/runtime/publish.py: `GitLabPublishService` over any store of receipts. The publisher is an
-- argument: what it does to GitLab is a change of the type `G`, and it returns an identifier (as a
-- text) or raises. Times come from the clock and are arguments.
pub mod Idempotent
use open_review.Base.{
  ℕ, String, Bool, true, false, not, ◌&&◌, Option, none, some, List, [], ◌∷◌, ◌++◌, ◌==◌,
  if◌then◌else◌,
}
use open_review.Base.Dict
use open_review.Base.Dict.{Dict}
use open_review.Base.Result.{Result, PyError, ok, err}
use open_review.Runtime.Json.{Json, str, opt_str}
use open_review.Runtime.Models.{
  PublishReceipt, PublishChannel, PublishStatus, mr_note, discussion_reply, inline_comment,
  project_issue, merge_request,
}
use open_review.Runtime.World.{World}
use open_review.Runtime.Batch.{truthy}
use open_review.Runtime.ReceiptStore.{ReceiptStore}

pub record GitLabPublishService : Type 0 where
  pub has_store : Bool
  pub actor_key : Option String
  pub tracking_run_id : Option String

-- `iso_now()` and the clock when the claim, and when the outcome, is stored
pub record Times : Type 0 where
  pub claim_stamp : String
  pub claim_now : ℕ
  pub outcome_stamp : String
  pub outcome_now : ℕ

abbrev or_text : Option String → String
or_text none = ""
or_text (some s) = s

unfoldable pub channel_name : PublishChannel → String
channel_name mr_note = "mr_note"
channel_name discussion_reply = "discussion_reply"
channel_name inline_comment = "inline_comment"
channel_name project_issue = "project_issue"
channel_name merge_request = "merge_request"

unfoldable pub make_receipt :
    GitLabPublishService
    → String
    → PublishChannel
    → Option String
    → PublishStatus
    → String
    → PublishReceipt
make_receipt self op_key channel external_id status stamp = record {
  actor_key = or_text self.actor_key;
  op_key = op_key;
  channel = channel;
  external_id = external_id;
  status = status;
  created_at = stamp;
}

-- `self.store and self.actor_key`
abbrev pub has_receipts : GitLabPublishService → Bool
has_receipts self = self.has_store && truthy self.actor_key

update : Dict Json → Dict Json → Dict Json
update d [] = d
update d ((k, v) ∷ more) = update (Dict.put d k v) more

unfoldable pub published_object : PublishChannel → Option String → String → Dict Json → Dict Json
unfolding update channel_name
published_object channel external_id created_at fields =
    update
      (("channel", str (channel_name channel))
        ∷ ("external_id", opt_str external_id)
        ∷ ("created_at", str created_at)
        ∷ [])
      fields

-- the receipts, GitLab, and the objects that were appended to tracked runs
pub record Outside (w : World) (store : ReceiptStore w) (G : Type 0) : Type 0 where
  pub receipts : store.State
  pub gitlab : G
  pub tracked : List (String × Dict Json)

module _ (w : World) (store : ReceiptStore w) (ttl_seconds : ℕ) {G : Type 0} where
  unfoldable pub claim :
      GitLabPublishService
      → Times
      → String
      → PublishChannel
      → Outside w store G
      → Result (PublishReceipt × Bool) × Outside w store G
  unfolding make_receipt
  claim self t op_key channel s =
      let receipt = make_receipt self op_key channel none PublishStatus.claimed t.claim_stamp in
      let r = store.claim t.claim_now receipt (some ttl_seconds) s.receipts in
      if not (has_receipts self)
      then (ok (receipt, true), s)
      else (r.0, record s { receipts = r.1 })

  track :
      Option String → Option (Dict Json) → PublishReceipt → Outside w store G → Outside w store G
  unfolding published_object
  track none fields receipt s = s
  track (some run_id) none receipt s = s
  track (some run_id) (some fields) receipt s = if run_id == "" then s else record s {
    tracked =
        s.tracked
        ++ (run_id, published_object receipt.channel receipt.external_id receipt.created_at fields)
          ∷ [];
  }

  unfoldable pub record_outcome :
      GitLabPublishService → Times → PublishReceipt → Outside w store G → Outside w store G
  record_outcome self t receipt s =
      if has_receipts self
      then record s { receipts = store.put t.outcome_now receipt s.receipts }
      else s

  -- `_record`
  unfoldable pub record_completed :
      GitLabPublishService
      → Times
      → String
      → PublishChannel
      → Option String
      → Option (Dict Json)
      → Outside w store G
      → PublishReceipt × Outside w store G
  unfolding make_receipt record_outcome track
  record_completed self t op_key channel external_id fields s =
      let receipt =
        make_receipt self op_key channel external_id PublishStatus.completed t.outcome_stamp in
      (receipt, track self.tracking_run_id fields receipt (record_outcome self t receipt s))

  -- after the publisher: its exception is raised again once the claim is marked as failed
  finish :
      GitLabPublishService
      → Times
      → String
      → PublishChannel
      → Option (Dict Json)
      → Result (Option String)
      → Outside w store G
      → Result PublishReceipt × Outside w store G
  unfolding record_completed record_outcome make_receipt
  finish self t op_key channel fields (err x) s = (
    err x,
    record_outcome self t
        (make_receipt self op_key channel none PublishStatus.failed t.outcome_stamp) s,
  )
  finish self t op_key channel fields (ok external_id) s =
      let r = record_completed self t op_key channel external_id fields s in (ok r.0, r.1)

  after_claim :
      GitLabPublishService
      → Times
      → String
      → PublishChannel
      → (G → Result (Option String) × G)
      → Option (Dict Json)
      → Result (PublishReceipt × Bool)
      → Outside w store G
      → Result PublishReceipt × Outside w store G
  unfolding finish
  after_claim self t op_key channel publisher fields (err x) s = (err x, s)
  after_claim self t op_key channel publisher fields (ok (receipt, false)) s = (ok receipt, s)
  after_claim self t op_key channel publisher fields (ok (receipt, true)) s =
      let out = publisher s.gitlab in
      finish self t op_key channel fields out.0 (record s { gitlab = out.1 })

  -- `_publish`; the three public methods pass their channel
  unfoldable pub publish :
      GitLabPublishService
      → Times
      → String
      → PublishChannel
      → (G → Result (Option String) × G)
      → Option (Dict Json)
      → Outside w store G
      → Result PublishReceipt × Outside w store G
  unfolding claim after_claim
  publish self t op_key channel publisher fields s =
      let c = claim self t op_key channel s in
      after_claim self t op_key channel publisher fields c.0 c.1

  unfoldable pub publish_mr_note :
      GitLabPublishService
      → Times
      → String
      → (G → Result (Option String) × G)
      → Option (Dict Json)
      → Outside w store G
      → Result PublishReceipt × Outside w store G
  publish_mr_note self t op_key publisher fields s =
      publish self t op_key mr_note publisher fields s

  unfoldable pub publish_discussion_reply :
      GitLabPublishService
      → Times
      → String
      → (G → Result (Option String) × G)
      → Option (Dict Json)
      → Outside w store G
      → Result PublishReceipt × Outside w store G
  publish_discussion_reply self t op_key publisher fields s =
      publish self t op_key discussion_reply publisher fields s

  unfoldable pub publish_inline_comment :
      GitLabPublishService
      → Times
      → String
      → (G → Result (Option String) × G)
      → Option (Dict Json)
      → Outside w store G
      → Result PublishReceipt × Outside w store G
  publish_inline_comment self t op_key publisher fields s =
      publish self t op_key inline_comment publisher fields s
