-- ===== src/Scenes/Mention/Models.antt =====
-- agent/scenes/mention/models.py, and `MrCommentRecord` of agent/gitlab/comments.py. Texts are
-- lists of code points. `validation_result`, which nothing sets, is left out.
use open_review.Base.{ℕ, Bool, Option, List}
use open_review.Base.Codes.{Codes}
use open_review.Utils.Diff.Resolve.{Side}

pub record MrCommentRecord : Type 0 where
  pub note_id : Option ℕ
  pub discussion_id : Option Codes
  pub author : Codes
  pub body : Codes
  pub created_at : Codes
  pub file_path : Option Codes
  pub line : Option ℕ
  pub is_system : Bool
  pub kind : Codes

pub record MentionThreadMessage : Type 0 where
  pub note_id : Option ℕ
  pub discussion_id : Option Codes
  pub author : Codes
  pub body : Codes
  pub created_at : Codes
  pub file_path : Option Codes
  pub line : Option ℕ
  pub is_bot : Bool
  pub kind : Codes

-- `MentionReplyKind`, and the intents of results
pub data ReplyKind : Type 0 where
  reply follow_up analysis code_change : ReplyKind

pub data ReplyTarget : Type 0 where
  discussion mr_comment : ReplyTarget

pub data RunStatus : Type 0 where
  replied pushed skipped failed : RunStatus

pub record ChangedFileContext : Type 0 where
  pub file_path : Codes
  pub old_path : Codes
  pub diff : Codes

-- `MrSnapshot`, the fields that the code behind the prompts reads
pub record MrSnapshot : Type 0 where
  pub source_branch : Codes
  pub target_branch : Codes
  pub head_sha : Codes
  pub diff_text : Codes
  pub changed_files : List ChangedFileContext

pub record MentionContext : Type 0 where
  pub note_id : ℕ
  pub discussion_id : Option Codes
  pub note_body : Codes
  pub note_author : Codes
  pub trigger_note : MentionThreadMessage
  pub batched_notes : List MentionThreadMessage
  pub covered_note_ids : List ℕ
  pub discussion_messages : List MentionThreadMessage
  pub recent_mr_activity : List MentionThreadMessage
  pub reply_target : ReplyTarget
  pub run_id : Codes
  pub mr_snapshot : MrSnapshot
  pub skip_reason : Option Codes

pub record MentionInlineSnippet : Type 0 where
  pub path : Codes
  pub line : ℕ
  pub side : Side
  pub code : Codes
  pub lang : Codes

pub record MentionAgentResponse : Type 0 where
  pub reply_markdown : Codes
  pub reply_kind : ReplyKind
  pub used_subagents : List Codes
  pub inline_snippets : List MentionInlineSnippet

pub record MentionReviewVerdict : Type 0 where
  pub approved : Bool
  pub feedback_markdown : Codes

pub record MentionExecutionResult : Type 0 where
  pub intent : ReplyKind
  pub status : RunStatus
  pub reply_markdown : Codes
  pub covered_note_ids : List ℕ
  pub used_subagents : List Codes
  pub inline_snippets : List MentionInlineSnippet
  pub changed_files : List Codes
  pub commit_sha : Option Codes
  pub review_approved : Option Bool
  pub review_rounds : ℕ
  pub degraded_reason : Option Codes
