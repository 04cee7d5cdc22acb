-- ===== src/Scenes/Mention/Run.antt =====
-- `_run_mention_inner` of agent/scenes/mention/orchestrator.py: one run of the mention scene. The
-- identity, the check for a termination and the worktree are actions; the context is
-- `build_mention_context`.
use open_review.Base.{
  ℕ, ◌≡◌, Bool, true, false, not, ◌&&◌, Option, none, some, List, [], ◌∷◌, ◌++◌, if◌then◌else◌,
  is_empty, is_some,
}
use open_review.Base.Codes.{Codes, codes}
use open_review.Gitlab.Markers.{same_codes}
use open_review.Scenes.Mention.Models.{
  ReplyKind, reply, analysis, RunStatus, skipped, failed as run_failed, MentionContext,
  MentionExecutionResult,
}
use open_review.Scenes.Mention.Effects.{
  Action, Outcome, done, fault, ◌>>=◌, ◌>>◌, pure, except, except_at, finally,
}
use open_review.Scenes.Mention.Materialize.{Tools}
use open_review.Scenes.Mention.Loop.{Agents, run_author_reviewer_loop}
use open_review.Scenes.Mention.Publish.{Post, publish_mention_result}
pub mod Published

-- the bot's identity, or the error of its resolution
pub data Identity : Type 0 where
  known : Identity
  unknown : Option Codes → Identity

pub record Surroundings (W : Type 0) : Type 0 where
  pub raise_if_run_termination_requested : Action W (Unit {0})
  pub build_mention_context : Action W MentionContext
  pub resolve_bot_identity : Action W Identity
  -- with the head and the run's identifier
  pub create_temporary_worktree : Codes → Codes → Action W Codes
  pub cleanup_temporary_worktree : Codes → Action W (Unit {0})
  -- the agents are built for the worktree

abbrev pub plain_result : ReplyKind → RunStatus → Codes → List ℕ → Codes → MentionExecutionResult
plain_result intent status text ids reason = record {
  intent = intent;
  status = status;
  reply_markdown = text;
  covered_note_ids = ids;
  used_subagents = [];
  inline_snippets = [];
  changed_files = [];
  commit_sha = none;
  review_approved = none;
  review_rounds = 0;
  degraded_reason = some reason;
}

-- `identity.error or 'unknown error'`
abbrev error_text : Option Codes → Codes
error_text none = codes "unknown error"
error_text (some text) = if is_empty text then codes "unknown error" else text

abbrev pub failure : MentionContext → Codes → MentionExecutionResult
failure context text =
    plain_result analysis run_failed
      (codes "处理这次 mention 时发生错误：\n\n```\n" ++ (text ++ codes "\n```")) context.covered_note_ids
      text

abbrev pub skip_text : Codes → Codes
skip_text reason = codes "跳过重复 mention 处理：" ++ (reason ++ codes "。")

abbrev pub is_stale : Option Codes → Codes → Bool
is_stale none head = false
is_stale (some expected) head = not (is_empty expected) && not (same_codes head expected)

abbrev pub is_skipped : Option Codes → Bool
is_skipped none = false
is_skipped (some reason) = not (is_empty reason)

abbrev pub reason_of : Option Codes → Codes
reason_of none = []
reason_of (some reason) = reason

module _ {W P : Type 0} (outside : Surroundings W) (tools : Tools W) (agents : Codes → Agents W P)
    (sha256_hex : Codes → Codes) (post : Codes → Post → Action W Bool) where
  abbrev pub publish : MentionContext → MentionExecutionResult → Action W MentionExecutionResult
  publish = publish_mention_result sha256_hex post

  -- the `try` block behind the creation of the worktree
  abbrev pub answer : MentionContext → Codes → Action W MentionExecutionResult
  answer context worktree_dir = do
    result ← run_author_reviewer_loop tools (agents worktree_dir) context worktree_dir
    outside.raise_if_run_termination_requested
    publish context result

  -- its start
  abbrev pub prepare : MentionContext → Action W Codes
  prepare context =
      outside.raise_if_run_termination_requested
      >> outside.create_temporary_worktree context.mr_snapshot.head_sha context.run_id

  abbrev pub on_error : MentionContext → Codes → Action W MentionExecutionResult
  on_error context text = publish context (failure context text)

  -- `if worktree_dir: _cleanup_temporary_worktree(worktree_dir)`
  abbrev pub clean_up : Codes → Action W (Unit {0})
  clean_up worktree_dir =
      if is_empty worktree_dir then pure tt else outside.cleanup_temporary_worktree worktree_dir

  -- the block with its handlers: only a worktree that was created, whose name is not empty, is
  -- removed
  abbrev pub guarded : MentionContext → Outcome Codes × W → Outcome MentionExecutionResult × W
  guarded context (fault e, w) = except_at (fault e, w) (on_error context)
  guarded context (done worktree_dir, w) =
      finally (except (answer context worktree_dir) (on_error context)) (clean_up worktree_dir) w

  unfoldable pub work : MentionContext → Action W MentionExecutionResult
  work context w = guarded context (prepare context w)

  abbrev pub with_identity : MentionContext → Identity → Action W MentionExecutionResult
  with_identity context known = work context
  with_identity context (unknown error) = pure (
      plain_result reply run_failed (codes "当前无法解析 GitLab Bot 身份：" ++ error_text error) []
        (codes "gitlab_bot_identity_unavailable"))

  unfoldable pub run_mention_inner : Option Codes → Action W MentionExecutionResult
  unfolding work
  run_mention_inner expected_head_sha = do
    outside.raise_if_run_termination_requested
    context ← outside.build_mention_context
    if is_skipped context.skip_reason
        then pure (
            plain_result reply skipped (skip_text (reason_of context.skip_reason)) []
              (reason_of context.skip_reason))
        else if is_stale expected_head_sha context.mr_snapshot.head_sha
        then pure (
            plain_result reply skipped (codes "执行开始前合并请求的 head 已变化，本次 mention 已跳过。") []
              (codes "stale_webhook_head_sha"))
        else outside.resolve_bot_identity >>= with_identity context
