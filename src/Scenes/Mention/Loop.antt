-- ===== src/Scenes/Mention/Loop.antt =====
-- `_run_author_reviewer_loop` of agent/scenes/mention/orchestrator.py: an author answers, a
-- reviewer accepts the answer or sends it back, for ten rounds at most. An agent is an action: it
-- takes the messages and the round, and returns its structured answer (with the subagents that it
-- used) and the messages of its payload, which may be missing.
use open_review.Base.{
  ℕ, zero, suc, ◌+◌, ◌-◌, ◌≡◌, Bool, true, false, not, Option, none, some, List, [], ◌∷◌, ◌++◌, map,
  eqb, if◌then◌else◌, is_empty,
}
use open_review.Base.Codes.{Codes, codes}
use open_review.Base.Spaces.{strip, join}
use open_review.Scenes.Mention.Models.{
  MentionContext, MentionAgentResponse, MentionReviewVerdict, MentionExecutionResult,
  MentionInlineSnippet,
}
use open_review.Utils.Diff.Resolve.{Side, new, old, unchanged}
use open_review.Scenes.Mention.Skip.{digits}
use open_review.Scenes.Mention.Effects.{Action, Outcome, done, fault, ◌>>=◌, ◌>>◌, pure, except_at}
use open_review.Scenes.Mention.Materialize.{
  Tools, working_tree_has_changes, collect_changed_paths, materialize_main_agent_result,
  max_review_rounds, rejected_reason,
}
pub mod Reviewed

-- a message of ours, or one of the agent framework
pub data Message (P : Type 0) : Type 0 where
  human : Codes → Message P
  other : P → Message P

-- what an author's round returns: the answer, the subagents of its calls, and the messages
pub record AuthorReply (P : Type 0) : Type 0 where
  pub response : MentionAgentResponse
  pub used_subagents : List Codes
  pub messages : List (Message P)

pub record ReviewerReply (P : Type 0) : Type 0 where
  pub verdict : MentionReviewVerdict
  pub messages : List (Message P)

pub record Agents (W P : Type 0) : Type 0 where
  pub author : List (Message P) → ℕ → Action W (AuthorReply P)
  pub reviewer : List (Message P) → ℕ → Action W (ReviewerReply P)
  -- `git diff` in the worktree
  pub worktree_diff : Action W Codes
  -- `json.dumps` of the candidate, with its reply stripped
  pub candidate_json : MentionAgentResponse → Codes

-- `payload.get("messages") or messages`
abbrev pub messages_or : {P : Type 0} → List (Message P) → List (Message P) → List (Message P)
messages_or [] messages = messages
messages_or (m ∷ ms) messages = m ∷ ms

abbrev side_name : Side → Codes
side_name new = codes "new"
side_name old = codes "old"
side_name unchanged = codes "unchanged"

abbrev fenced : Codes → Codes → Codes
fenced lang text = codes "```" ++ (lang ++ (codes "\n" ++ (text ++ codes "\n```")))

abbrev snippet_for_review : MentionInlineSnippet → Codes
snippet_for_review item =
    codes "- "
    ++ (item.path
        ++ (codes ":"
            ++ (digits item.line
                ++ (codes " ("
                    ++ (side_name item.side
                        ++ (codes ", "
                            ++ (item.lang ++ (codes ")\n" ++ fenced item.lang item.code))))))))

-- `text or default`
abbrev text_or : Codes → Codes → Codes
text_or text default = if is_empty text then default else text

unfoldable pub format_inline_snippets_for_review : List MentionInlineSnippet → Codes
unfolding join
format_inline_snippets_for_review snippets =
    if is_empty snippets
    then codes "- none"
    else join (codes "\n") (map snippet_for_review snippets)

unfoldable pub build_reviewer_request :
    Codes → MentionContext → MentionAgentResponse → Codes → ℕ → List Codes → Codes → Codes
unfolding strip join format_inline_snippets_for_review
build_reviewer_request candidate context response worktree_dir round_index changed_files diff_text =
    join [] (
      codes "请审核第 "
      ∷ digits round_index
      ∷ codes " 轮 mention 候选结果。\n\n## 原始用户请求\n"
      ∷ strip context.note_body
      ∷ codes "\n\n## 候选结构化结果\n"
      ∷ candidate
      ∷ codes "\n\n## 候选 inline 片段\n"
      ∷ format_inline_snippets_for_review response.inline_snippets
      ∷ codes "\n\n## 当前工作树变更文件\n"
      ∷ text_or (join (codes "\n") (map (λ path. codes "- " ++ path) changed_files))
          (codes "- none")
      ∷ codes "\n\n## 当前工作树 diff\n```diff\n"
      ∷ text_or (strip diff_text) (codes "(no diff)")
      ∷ codes "\n```\n\n工作树路径："
      ∷ worktree_dir
      ∷ codes "\n请只输出审核结论和最关键的修订反馈。"
      ∷ [])

unfoldable pub build_author_revision_message : Codes → ℕ → Codes
unfolding strip join
build_author_revision_message feedback round_index = join [] (
    codes "第 "
    ∷ digits round_index
    ∷ codes
        " 轮 reviewer 没有通过当前候选结果。\n\n请根据下面的审核反馈直接修订你的候选答复或候选代码修改；保留正确部分，修正问题后重新给出完整结构化结果。\n\n## Reviewer 反馈\n"
    ∷ text_or (strip feedback) (codes "(no feedback provided)")
    ∷ [])

module _ {W P : Type 0} (tools : Tools W) (agents : Agents W P) (context : MentionContext)
    (worktree_dir : Codes) where
  abbrev pub diff_or_empty : Outcome Codes × W → Outcome Codes × W
  diff_or_empty (done text, w) = (done text, w)
  diff_or_empty (fault e, w) = (done [], w)

  unfoldable pub current_worktree_diff : Action W Codes
  current_worktree_diff w = diff_or_empty (agents.worktree_diff w)

  unfoldable pub files_to_review : Action W (List Codes)
  files_to_review = do
    changed ← working_tree_has_changes tools
    if changed then collect_changed_paths tools else pure []

  -- a round up to the reviewer's answer
  pub record Round : Type 0 where
    pub reply : AuthorReply P
    pub review : ReviewerReply P
    -- the messages that both were sent
    pub author_messages : List (Message P)
    pub reviewer_messages : List (Message P)

  unfoldable pub play : List (Message P) → List (Message P) → ℕ → Action W Round
  unfolding current_worktree_diff files_to_review build_reviewer_request
  play author_messages reviewer_messages round_index = do
    reply ← agents.author author_messages round_index
    changed_files ← files_to_review
    diff_text ← (if is_empty changed_files then pure [] else current_worktree_diff)
    let request =
        reviewer_messages
        ++ (human (
              build_reviewer_request (agents.candidate_json reply.response) context reply.response
                worktree_dir round_index changed_files diff_text)
            ∷ [])
    review ← agents.reviewer request round_index
    pure (record {
      reply = reply;
      review = review;
      author_messages = author_messages;
      reviewer_messages = request;
    })

  -- the result of a round that is the last one, which pushes only what was approved
  abbrev pub settle : Round → ℕ → Action W MentionExecutionResult
  settle r round_index =
      materialize_main_agent_result tools context r.reply.response r.reply.used_subagents
        r.review.verdict.approved round_index r.review.verdict.approved
        (if r.review.verdict.approved then none else some rejected_reason)

  -- the round after `n` more rounds is the last one; `max_review_rounds - n` is its number
  unfoldable pub rounds : ℕ → List (Message P) → List (Message P) → Action W MentionExecutionResult
  unfolding play build_author_revision_message
  rounds zero author_messages reviewer_messages = do
    r ← play author_messages reviewer_messages max_review_rounds
    settle r max_review_rounds
  rounds (suc n) author_messages reviewer_messages = do
    let round_index = max_review_rounds - suc n
    r ← play author_messages reviewer_messages round_index
    let again =
        rounds n
          (messages_or r.reply.messages r.author_messages
            ++ (human (build_author_revision_message r.review.verdict.feedback_markdown round_index)
                ∷ []))
          (messages_or r.review.messages r.reviewer_messages)
    if r.review.verdict.approved then settle r round_index else again

  unfoldable pub run_author_reviewer_loop : Action W MentionExecutionResult
  unfolding rounds
  run_author_reviewer_loop = rounds (max_review_rounds - 1) (human context.note_body ∷ []) []
