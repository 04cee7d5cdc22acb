-- ===== src/Runtime/Models.antt =====
-- agent/runtime/models.py. Time stamps that a model's default factory takes from the clock are
-- arguments of the code that builds the value.
pub mod Digits
use Prim.Native.String.{◌++◌ as str_append}
use open_review.Base.{
  ℕ, zero, suc, ◌/◌, ◌%◌, String, Bool, true, false, Option, none, some, List, [], ◌∷◌, ltb,
  if◌then◌else◌,
}
use open_review.Base.Dict.{Dict}
use open_review.Runtime.Json.{Json, str, obj, fields, opt_str, opt_num}

pub data EventType : Type 0 where
  auto_review mention sandbox_cleanup daily_audit agent_self_evolution : EventType
  daily_audit_evolution daily_audit_direction_persistence : EventType
  daily_audit_short_term_persistence daily_audit_long_term_persistence : EventType
  daily_audit_skill_persistence : EventType

pub data RunState : Type 0 where
  queued running publishing succeeded skipped failed stale terminated : RunState

pub data PublishChannel : Type 0 where
  mr_note discussion_reply inline_comment project_issue merge_request : PublishChannel

pub data PublishStatus : Type 0 where
  claimed completed failed : PublishStatus

pub data RunJournalEventType : Type 0 where
  stage_started stage_completed checkpoint_written observation : RunJournalEventType
  run_restarted run_failed run_completed run_terminated : RunJournalEventType

pub data RunJournalStatus : Type 0 where
  running completed failed skipped restarted terminated : RunJournalStatus

pub record ActorRuntimeStatus : Type 0 where
  pub actor_key : String
  pub pending_count : ℕ
  pub inflight_count : ℕ
  pub lease_owner : Option String
  pub lease_ttl_seconds : Option ℕ
  pub scheduled : Bool

pub record EventEnvelope : Type 0 where
  pub event_id : String
  pub event_type : EventType
  pub project_id : String
  pub mr_iid : Option ℕ
  pub source_branch : String
  pub target_branch : String
  pub title : String
  pub head_sha : Option String
  pub note_id : Option ℕ
  pub discussion_id : Option String
  pub note_body : Option String
  pub note_author : Option String
  pub received_at : String
  pub payload : Dict Json

abbrev pub is_auto_review : EventType → Bool
is_auto_review auto_review = true
is_auto_review _ = false

abbrev pub is_mention : EventType → Bool
is_mention mention = true
is_mention _ = false

-- the literal that stands for the type in a stored event
unfoldable pub type_name : EventType → String
type_name auto_review = "auto_review"
type_name mention = "mention"
type_name sandbox_cleanup = "sandbox_cleanup"
type_name daily_audit = "daily_audit"
type_name agent_self_evolution = "agent_self_evolution"
type_name daily_audit_evolution = "daily_audit_evolution"
type_name daily_audit_direction_persistence = "daily_audit_direction_persistence"
type_name daily_audit_short_term_persistence = "daily_audit_short_term_persistence"
type_name daily_audit_long_term_persistence = "daily_audit_long_term_persistence"
type_name daily_audit_skill_persistence = "daily_audit_skill_persistence"

digit : ℕ → String
digit zero = "0"
digit (suc zero) = "1"
digit (suc (suc zero)) = "2"
digit (suc (suc (suc zero))) = "3"
digit (suc (suc (suc (suc zero)))) = "4"
digit (suc (suc (suc (suc (suc zero))))) = "5"
digit (suc (suc (suc (suc (suc (suc zero)))))) = "6"
digit (suc (suc (suc (suc (suc (suc (suc zero))))))) = "7"
digit (suc (suc (suc (suc (suc (suc (suc (suc zero)))))))) = "8"
digit _ = "9"

-- A number has fewer decimal digits than `suc n`, the fuel that `show` gives.
show_from : ℕ → ℕ → String
unfolding digit
show_from zero n = ""
show_from (suc fuel) n =
    let more = show_from fuel (n / 10) in
    if ltb n 10 then digit n else str_append more (digit (n % 10))

-- an integer in an f-string
unfoldable pub show : ℕ → String
unfolding show_from
show n = show_from (suc n) n

abbrev show_iid : Option ℕ → String
show_iid none = "None"
show_iid (some n) = show n

actor_suffix : EventType → Option ℕ → String
unfolding show
actor_suffix agent_self_evolution iid = "self_evolution"
actor_suffix daily_audit iid = "daily_audit"
actor_suffix daily_audit_evolution iid = "daily_audit"
actor_suffix daily_audit_direction_persistence iid = "daily_audit_direction_persistence"
actor_suffix daily_audit_short_term_persistence iid = "daily_audit_short_term_persistence"
actor_suffix daily_audit_long_term_persistence iid = "daily_audit_long_term_persistence"
actor_suffix daily_audit_skill_persistence iid = "daily_audit_skill_persistence"
actor_suffix _ iid = show_iid iid

unfoldable pub actor_key : EventEnvelope → String
unfolding actor_suffix
actor_key event =
    str_append (str_append event.project_id "!") (actor_suffix event.event_type event.mr_iid)

-- `model_dump(mode="json")`
unfoldable pub model_dump : EventEnvelope → Json
unfolding type_name
model_dump e = obj (
    fields (
      ("event_id", str e.event_id)
      ∷ ("event_type", str (type_name e.event_type))
      ∷ ("project_id", str e.project_id)
      ∷ ("mr_iid", opt_num e.mr_iid)
      ∷ ("source_branch", str e.source_branch)
      ∷ ("target_branch", str e.target_branch)
      ∷ ("title", str e.title)
      ∷ ("head_sha", opt_str e.head_sha)
      ∷ ("note_id", opt_num e.note_id)
      ∷ ("discussion_id", opt_str e.discussion_id)
      ∷ ("note_body", opt_str e.note_body)
      ∷ ("note_author", opt_str e.note_author)
      ∷ ("received_at", str e.received_at)
      ∷ ("payload", obj (fields e.payload))
      ∷ []))

pub record RunRecord : Type 0 where
  pub run_id : String
  pub execution_key : Option String
  pub actor_key : String
  pub event_type : EventType
  pub project_id : String
  pub mr_iid : Option ℕ
  pub event_ids : List String
  pub batch_size : ℕ
  pub head_sha : Option String
  pub note_id : Option ℕ
  pub discussion_id : Option String
  pub state : RunState
  pub started_at : String
  pub completed_at : Option String
  pub reason : Option String
  pub error : Option String

pub record PublishReceipt : Type 0 where
  pub actor_key : String
  pub op_key : String
  pub channel : PublishChannel
  pub external_id : Option String
  pub status : PublishStatus
  pub created_at : String

pub record RunJournalEvent : Type 0 where
  pub execution_key : String
  pub run_id : Option String
  pub actor_key : String
  pub scene : EventType
  pub workflow_version : String
  pub stage_key : Option String
  pub event_type : RunJournalEventType
  pub status : RunJournalStatus
  pub summary : Option String
  pub artifact_refs : Dict String
  pub details : Dict Json
  pub created_at : String

pub record RunCheckpoint : Type 0 where
  pub execution_key : String
  pub actor_key : String
  pub scene : EventType
  pub workflow_version : String
  pub stage_key : String
  pub artifact_refs : Dict String
  pub details : Dict Json
  pub updated_at : String

pub record RunTerminationRequest : Type 0 where
  pub run_id : String
  pub actor_key : String
  pub requested_by : String
  pub requested_at : String
  pub updated_at : String
