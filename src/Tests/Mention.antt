-- ===== src/Tests/Mention.antt =====
-- The mention scene on one merge request: note 7 asks, and note 9 follows.
use open_review.Base.{
  ℕ, suc, ◌≡◌, inl, inr, refl, Bool, true, false, none, some, [], ◌∷◌, filter, arith,
}
use open_review.Base.Codes.{Codes, codes}
use open_review.Base.Spaces.{rstrip}
use open_review.Runtime.Models.{show}
use open_review.Gitlab.Comments.{truncate, truncate_to, front}
use open_review.Utils.Diff.{diff_line_positions}
use open_review.Utils.Diff.Resolve.{new, resolve_diff_line_position}
use open_review.Scenes.Mention.Models.{
  MrCommentRecord, MentionThreadMessage, code_change, discussion, pushed, ChangedFileContext,
  MentionContext, MentionInlineSnippet, MentionAgentResponse, MentionExecutionResult,
}
use open_review.Scenes.Mention.Skip.{
  Bot, is_bot_author, already_processed, skip_reason, skip_reason_for_note_ids, format_reply_body,
}
use open_review.Scenes.Mention.Skip.Answered.{answered-skips}
use open_review.Scenes.Mention.Skip.Truncated.{truncated-repeats}
use open_review.Scenes.Mention.Effects.{Action, done, pure}
use open_review.Scenes.Mention.Materialize.{
  Tools, changed_path, materialize_main_agent_result, append_push_success_note, decide,
  working_tree_has_changes, collect_changed_paths, source_branch_is_pushable, head_is_current,
  commit_and_push, first_result,
}
use open_review.Scenes.Mention.Materialize.Paths.{changed_path_cut}
use open_review.Scenes.Mention.Materialize.Settled.{Settled, materialize-Settled}
use open_review.Scenes.Mention.Loop.{Agents, run_author_reviewer_loop}
use open_review.Scenes.Mention.Publish.{
  Post, Place, find_changed_file, publish_mention_result, resolve_snippet_position,
}
use open_review.Scenes.Mention.Run.{Surroundings, known, run_mention_inner}
use open_review.Scenes.Mention.Run.Published.{Ran, run-Answered}
use open_review.Scenes.Mention.Publish.Placed.{IsFileOf, PlacedIn, position-PlacedIn}

abbrev note : MentionThreadMessage
note = record {
  note_id = some 7;
  discussion_id = some (codes "d1");
  author = codes "ann";
  body = codes "fix it";
  created_at = codes "2026-01-01";
  file_path = none;
  line = none;
  is_bot = false;
  kind = codes "discussion";
}

abbrev pub context : MentionContext
context = record {
  note_id = 7;
  discussion_id = some (codes "d1");
  note_body = codes "fix it";
  note_author = codes "ann";
  trigger_note = note;
  batched_notes = note ∷ [];
  covered_note_ids = 7 ∷ 9 ∷ [];
  discussion_messages = note ∷ [];
  recent_mr_activity = note ∷ [];
  reply_target = discussion;
  run_id = codes "r1";
  mr_snapshot = record {
    source_branch = codes "f";
    target_branch = codes "main";
    head_sha = codes "abc";
    diff_text = [];
    changed_files =
        record {
          file_path = codes "a.py";
          old_path = codes "a.py";
          diff = codes "@@ -1 +1 @@\n+x\n";
        }
        ∷ [];
  };
  skip_reason = none;
}

abbrev pub result : MentionExecutionResult
result = record {
  intent = code_change;
  status = pushed;
  reply_markdown = codes "done <b> <!-- open-review-x:";
  covered_note_ids = [];
  used_subagents = codes "review" ∷ [];
  inline_snippets = [];
  changed_files = [];
  commit_sha = some (codes "c0ffee");
  review_approved = some true;
  review_rounds = 1;
  degraded_reason = none;
}

abbrev pub bot : Bot
bot = record { username = some (codes "bot"); lower = λ s. s }

abbrev pub comment : Codes → MrCommentRecord
comment body = record {
  note_id = some 8;
  discussion_id = some (codes "d1");
  author = codes "bot";
  body = body;
  created_at = codes "2026-01-02";
  file_path = none;
  line = none;
  is_system = false;
  kind = codes "discussion";
}

answered-skips_example :
    skip_reason_for_note_ids bot
      (9 ∷ [])
      (codes "abc")
      (comment (codes "hello") ∷ comment (truncate (format_reply_body context result)) ∷ [])
    ≡ some already_processed
unfolding format_reply_body is_bot_author filter show
answered-skips_example =
    answered-skips bot context result (comment (truncate (format_reply_body context result)))
      (comment (codes "hello") ∷ []) [] 7 (9 ∷ []) 9 []
      (record { run_id = refl; head_sha = refl; subagents = (refl, tt); commit = refl }) refl
      (omega arith) refl refl (inr (inl refl), tt)

abbrev long_result : MentionExecutionResult
long_result = record result { reply_markdown = codes "a long reply"; used_subagents = [] }

truncated-repeats_example :
    (skip_reason_for_note_ids bot
        (9 ∷ [])
        (codes "abc")
        (comment (truncate_to 110 (format_reply_body context long_result)) ∷ [])
      ≡ skip_reason_for_note_ids bot (9 ∷ []) (codes "abc") [])
    × (skip_reason bot 9
          (codes "abc")
          (comment (truncate_to 110 (format_reply_body context long_result)) ∷ [])
        ≡ skip_reason bot 9 (codes "abc") [])
unfolding format_reply_body filter show front
truncated-repeats_example =
    truncated-repeats 110 bot context long_result
      (comment (truncate_to 110 (format_reply_body context long_result))) [] [] (9 ∷ []) 9
      (codes "abc") (omega arith)
      (refl, (refl, (refl, (refl, (refl, (refl, (refl, (refl, (refl, (refl, tt)))))))))) refl

changed_path_cut_example :
    (changed_path (codes "M  ab") ≡ codes "ab" ∷ [])
    × (changed_path (codes " M ab") ≡ codes "b" ∷ [])
unfolding rstrip
changed_path_cut_example = changed_path_cut b'M' b' ' b'a' b'b' [] refl refl

-- the state outside is the number of pushes
abbrev tools : Tools ℕ
tools = record {
  status_porcelain = pure (codes "M  ab");
  status_short = pure (codes "M  ab\n M cd");
  can_push_to_branch = λ branch. pure true;
  current_head_sha = pure (codes "abc");
  commit_all_and_get_sha = pure (codes "c0ffee");
  push_branch_head = λ branch w. (done tt, suc w);
  max_changed_files = 2;
}

abbrev response : MentionAgentResponse
response = record {
  reply_markdown = codes "ok";
  reply_kind = code_change;
  used_subagents = [];
  inline_snippets = [];
}

abbrev pushed_result : MentionExecutionResult
pushed_result = record {
  intent = code_change;
  status = pushed;
  reply_markdown = append_push_success_note (codes "ok") (codes "f") (codes "c0ffee");
  covered_note_ids = 7 ∷ 9 ∷ [];
  used_subagents = [];
  inline_snippets = [];
  changed_files = codes "ab" ∷ codes "d" ∷ [];
  commit_sha = some (codes "c0ffee");
  review_approved = some true;
  review_rounds = 1;
  degraded_reason = none;
}

pushed_once :
    materialize_main_agent_result tools context response [] true 1 true none 0
    ≡ (done pushed_result, 1)
unfolding materialize_main_agent_result decide working_tree_has_changes collect_changed_paths
    source_branch_is_pushable head_is_current commit_and_push first_result
pushed_once = refl

materialize-Settled_example :
    Settled tools context response [] true 1 true none 0
      (materialize_main_agent_result tools context response [] true 1 true none 0)
materialize-Settled_example = materialize-Settled tools context response [] true 1 true none 0

abbrev agents : Agents ℕ (Unit {0})
agents = record {
  author = λ messages round.
      pure (record { response = response; used_subagents = []; messages = messages });
  reviewer = λ messages round. pure (record {
    verdict = record { approved = true; feedback_markdown = [] };
    messages = messages;
  });
  worktree_diff = pure [];
  candidate_json = λ r. [];
}

abbrev snippet : MentionInlineSnippet
snippet = record { path = codes "a.py"; line = 1; side = new; code = codes "x"; lang = codes "py" }

abbrev at : Place
at = record { new_path = codes "a.py"; old_path = codes "a.py"; new_line = some 1; old_line = none }

abbrev file : ChangedFileContext
file = record {
  file_path = codes "a.py";
  old_path = codes "a.py";
  diff = codes "@@ -1 +1 @@\n+x\n";
}

position-PlacedIn_example :
    (f : ChangedFileContext) × IsFileOf (codes "a.py") (file ∷ []) f × PlacedIn f snippet at
unfolding resolve_snippet_position resolve_diff_line_position find_changed_file diff_line_positions
position-PlacedIn_example = position-PlacedIn context snippet at refl

abbrev outside : Surroundings ℕ
outside = record {
  raise_if_run_termination_requested = pure tt;
  build_mention_context = pure context;
  resolve_bot_identity = pure known;
  create_temporary_worktree = λ head run. pure (codes "/w");
  cleanup_temporary_worktree = λ dir. pure tt;
}

abbrev post : Codes → Post → Action ℕ Bool
post key body w = (done true, w)

ran : run_mention_inner outside tools (λ dir. agents) (λ s. s) post none 0 ≡ (done pushed_result, 1)
unfolding run_mention_inner run_author_reviewer_loop materialize_main_agent_result
    publish_mention_result append_push_success_note decide working_tree_has_changes
    collect_changed_paths source_branch_is_pushable head_is_current commit_and_push first_result
ran = refl

run-Answered_example :
    (c : MentionContext) × (u v : ℕ) × (outside.raise_if_run_termination_requested 0 ≡ (done tt, u))
    × (outside.build_mention_context u ≡ (done c, v))
    × Ran outside tools (λ dir. agents) (λ s. s) post none c v pushed_result 1
run-Answered_example =
    run-Answered outside tools (λ dir. agents) (λ s. s) post none 0 pushed_result 1 ran
