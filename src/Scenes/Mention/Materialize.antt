-- ===== src/Scenes/Mention/Materialize.antt =====
-- `_materialize_main_agent_result` and what it calls, of agent/scenes/mention/orchestrator.py: when
-- the changes of a worktree are pushed. `sandbox.execute` is there, so that the AttributeError of
-- `_working_tree_has_changes` does not occur.
use open_review.Base.{
  ℕ, ◌≡◌, Bool, true, false, not, ◌&&◌, ◌||◌, Option, none, some, List, [], ◌∷◌, ◌++◌, take, drop,
  length, eqb, ltb, leb, if◌then◌else◌, is_empty,
}
use open_review.Base.Codes.{Codes, codes, splitlines}
use open_review.Base.Spaces.{strip}
use open_review.Gitlab.Markers.{same_codes}
use open_review.Scenes.Mention.Models.{
  ReplyKind, reply, follow_up, analysis, code_change, RunStatus, replied, pushed, MentionContext,
  MentionAgentResponse, MentionExecutionResult,
}
use open_review.Scenes.Mention.Skip.{digits}
use open_review.Scenes.Mention.Effects.{Action, Outcome, done, fault, ◌>>=◌, ◌>>◌, pure}
pub mod Asks
pub mod Gates
pub mod Settled
pub mod Paths

-- What the code asks of git in the sandbox and of GitLab, for one run: commands with the text they
-- print, `can_push_to_branch`, the head of the merge request, a commit of all changes and a push.
pub record Tools (W : Type 0) : Type 0 where
  pub status_porcelain : Action W Codes
  pub status_short : Action W Codes
  pub can_push_to_branch : Codes → Action W Bool
  pub current_head_sha : Action W Codes
  pub commit_all_and_get_sha : Action W Codes
  pub push_branch_head : Codes → Action W (Unit {0})
  -- `MENTION_MAX_CHANGED_FILES`, 0 where it is not set
  pub max_changed_files : ℕ

unfoldable pub append_reply_note : Codes → Codes → Codes
unfolding strip
append_reply_note reply_markdown note =
    if is_empty (strip note)
    then strip reply_markdown
    else if is_empty (strip reply_markdown)
    then strip note
    else strip (strip reply_markdown ++ (codes "\n\n" ++ strip note))

unfoldable pub append_push_success_note : Codes → Codes → Codes → Codes
unfolding append_reply_note
append_push_success_note reply_markdown source_branch commit_sha =
    append_reply_note reply_markdown (
      codes "我已经推送改动到 `"
      ++ (source_branch ++ (codes "` 分支。\n新提交：`" ++ (take 8 commit_sha ++ codes "`。"))))

-- a line of `git status --short`, as a path; an empty line gives none
unfoldable pub changed_path : Codes → List Codes
unfolding strip
changed_path line =
    let text = strip line in
    if is_empty text then [] else (if ltb 3 (length text) then drop 3 text else text) ∷ []

abbrev pub changed_paths : List Codes → List Codes
unfolding changed_path
changed_paths [] = []
changed_paths (line ∷ lines) = changed_path line ++ changed_paths lines

abbrev pub max_review_rounds : ℕ
max_review_rounds = 10

abbrev pub rejected_reason : Codes
rejected_reason = codes "review_rejected_after_max_rounds"

-- `reason or default`
abbrev pub reason_or : Option Codes → Codes → Codes
reason_or none default = default
reason_or (some reason) default = if is_empty reason then default else reason

abbrev pub is_code_change : ReplyKind → Bool
is_code_change code_change = true
is_code_change reply = false
is_code_change follow_up = false
is_code_change analysis = false

-- a result that is not pushed, with the reason and what the reply says of it
abbrev pub degraded : Codes → Codes → MentionExecutionResult → MentionExecutionResult
degraded reason note result = record result {
  degraded_reason = some reason;
  reply_markdown = append_reply_note result.reply_markdown note;
}

-- a returned result, or one that is to be pushed
pub data Decision : Type 0 where
  stop go : MentionExecutionResult → Decision

module _ {W : Type 0} (tools : Tools W) where
  unfoldable pub working_tree_has_changes : Action W Bool
  unfolding strip
  working_tree_has_changes = do
    status ← tools.status_porcelain
    pure (not (is_empty (strip status)) && not (same_codes (strip status) (codes "<no output>")))

  unfoldable pub collect_changed_paths : Action W (List Codes)
  unfolding splitlines changed_path
  collect_changed_paths = do output ← tools.status_short; pure (changed_paths (splitlines output))

  -- an error of the preflight counts as a yes
  abbrev pub or_true : Outcome Bool × W → Outcome Bool × W
  or_true (done b, w) = (done b, w)
  or_true (fault e, w) = (done true, w)

  unfoldable pub source_branch_is_pushable : MentionContext → Action W Bool
  source_branch_is_pushable context w =
      or_true (tools.can_push_to_branch context.mr_snapshot.source_branch w)

  unfoldable pub head_is_current : Codes → Action W Bool
  head_is_current expected =
      if is_empty expected
      then pure true
      else (do now ← tools.current_head_sha; pure (same_codes now expected))

  unfoldable pub commit_and_push : Codes → Action W Codes
  commit_and_push source_branch = do
    commit_sha ← tools.commit_all_and_get_sha
    tools.push_branch_head source_branch
    pure commit_sha

  -- the result that the function starts from
  unfoldable pub first_result :
      MentionContext
      → MentionAgentResponse
      → List Codes
      → Bool
      → ℕ
      → Option Codes
      → MentionExecutionResult
  unfolding strip
  first_result context response used_subagents review_approved review_rounds degraded_reason =
      record {
        intent = response.reply_kind;
        status = replied;
        reply_markdown = strip response.reply_markdown;
        covered_note_ids = context.covered_note_ids;
        used_subagents = used_subagents;
        inline_snippets = response.inline_snippets;
        changed_files = [];
        commit_sha = none;
        review_approved = some review_approved;
        review_rounds = review_rounds;
        degraded_reason = degraded_reason;
      }

  abbrev pub too_many : List Codes → Bool
  too_many files = ltb 0 tools.max_changed_files && ltb tools.max_changed_files (length files)

  abbrev pub limit_note : List Codes → Codes
  limit_note files =
      codes "我没有推送，因为本次改动涉及 "
      ++ (digits (length files)
          ++ (codes " 个文件，超过本次允许修改的文件数上限 " ++ (digits tools.max_changed_files ++ codes "。")))

  -- the last two questions, before a push
  abbrev pub ask_gitlab : MentionContext → MentionExecutionResult → Action W Decision
  ask_gitlab context result = do
    pushable ← source_branch_is_pushable context
    if not pushable
        then pure (
            stop (
              degraded (codes "source_branch_not_pushable")
                (codes "我没有推送，因为我没有 GitLab 上 `"
                  ++ (context.mr_snapshot.source_branch ++ codes "` 分支的推送权限。"))
                result))
        else (do
          current ← head_is_current context.mr_snapshot.head_sha
          pure (
              if current
              then go result
              else stop (
                  degraded (codes "stale_head_sha") (codes "我处理期间合并请求的 head 已变化，所以没有推送代码。")
                    result)))

  -- the questions about a changed worktree
  abbrev pub ask_changes :
      MentionContext
      → MentionAgentResponse
      → Bool
      → Option Codes
      → MentionExecutionResult
      → Action W Decision
  ask_changes context response allow_push degraded_reason result =
      if not (is_code_change response.reply_kind)
      then pure (
          stop (
            degraded (reason_or degraded_reason (codes "dirty_worktree_without_code_change_reply"))
              (codes "我没有推送，因为工作树发生了变化，但这次结果没有被声明为代码修改。") result))
      else if too_many result.changed_files
      then pure (
          stop (
            degraded (codes "changed_file_limit_exceeded") (limit_note result.changed_files)
              result))
      else if not allow_push
      then pure (
          stop (
            degraded (reason_or degraded_reason rejected_reason)
              (codes "我没有推送代码，因为 reviewer 连续 "
                ++ (digits max_review_rounds ++ codes " 轮都没有通过这版结果。"))
              result))
      else ask_gitlab context result

  -- the function up to the push
  unfoldable pub decide :
      MentionContext
      → MentionAgentResponse
      → List Codes
      → Bool
      → ℕ
      → Bool
      → Option Codes
      → Action W Decision
  unfolding append_reply_note
  decide context response used_subagents review_approved review_rounds allow_push degraded_reason =
      let result =
        first_result context response used_subagents review_approved review_rounds
          degraded_reason in
      do
        changed ← working_tree_has_changes
        if not changed
            then pure (
                stop (
                  if is_code_change response.reply_kind
                  then degraded (reason_or degraded_reason (codes "no_file_changes"))
                      (codes "我没有推送改动，因为工作树没有实际变化。") result
                  else result))
            else (do
              files ← collect_changed_paths
              ask_changes context response allow_push degraded_reason
                  (record result { changed_files = files }))

  abbrev pub conclude : MentionContext → Decision → Action W MentionExecutionResult
  conclude context (stop result) = pure result
  conclude context (go result) = do
    commit_sha ← commit_and_push context.mr_snapshot.source_branch
    pure (record result {
      commit_sha = some commit_sha;
      reply_markdown =
          append_push_success_note result.reply_markdown context.mr_snapshot.source_branch
            commit_sha;
      status = pushed;
    })

  unfoldable pub materialize_main_agent_result :
      MentionContext
      → MentionAgentResponse
      → List Codes
      → Bool
      → ℕ
      → Bool
      → Option Codes
      → Action W MentionExecutionResult
  unfolding append_push_success_note
  materialize_main_agent_result context response used_subagents approved rounds allow_push reason =
      do
        decision ← decide context response used_subagents approved rounds allow_push reason
        conclude context decision
