-- ===== src/Scenes/Mention/Loop/Reviewed.antt =====
-- How the loop between author and reviewer ends.
use open_review.Base.{ℕ, suc, ◌++◌, ◌≤◌, ◌≡◌, ◌⊎◌, true, false, none, some, List, [], ◌∷◌}
use open_review.Base.Codes.{Codes}
use open_review.Scenes.Mention.Models.{replied, pushed, MentionContext, MentionExecutionResult}
use open_review.Scenes.Mention.Effects.{done, Reach}
use open_review.Scenes.Mention.Materialize.Asks.{AskStep}
use open_review.Scenes.Mention.Materialize.{Tools, commit_and_push, max_review_rounds}
use open_review.Scenes.Mention.Loop.{
  Agents, Message, Round, human, messages_or, build_author_revision_message, play, settle,
}

module _ {W P : Type 0} (tools : Tools W) (agents : Agents W P) (context : MentionContext)
    (worktree_dir : Codes) where
  abbrev R : Type 0
  R = Round tools agents context worktree_dir

  -- a call that a round makes: of an agent, for the diff, or a question
  abbrev pub PlayStep : W → W → Type 0
  PlayStep w v =
      ((messages : List (Message P)) × (k : ℕ) × (v ≡ (agents.author messages k w).1))
      ⊎ ((messages : List (Message P)) × (k : ℕ) × (v ≡ (agents.reviewer messages k w).1))
      ⊎ (v ≡ (agents.worktree_diff w).1)
      ⊎ AskStep tools w v

  -- a push that was allowed and made, or a reply without a commit
  abbrev pub PushedOrReplied : R → MentionExecutionResult → W → Type 0
  PushedOrReplied round r w' =
      (r.status ≡ replied) × (r.commit_sha ≡ none)
      ⊎ (v : W) × (sha : Codes) × (round.review.verdict.approved ≡ true)
        × (commit_and_push tools context.mr_snapshot.source_branch v ≡ (done sha, w'))
        × (r.status ≡ pushed)
        × (r.commit_sha ≡ some sha)

  -- The rounds before the one with the given number, from state `w` on: each was played, rejected,
  -- and followed at once by the next, with the reviewer's feedback for the author.
  pub data Rejected (w : W) : ℕ → List (Message P) → List (Message P) → W → Type 0 where
    first_round : Rejected w 1 (human context.note_body ∷ []) [] w
    next_round :
        {k : ℕ} {to_author to_reviewer : List (Message P)} {u v : W} (round : R)
        → Rejected w k to_author to_reviewer u
        → play tools agents context worktree_dir to_author to_reviewer k u ≡ (done round, v)
        → round.review.verdict.approved ≡ false
        → Rejected w
            (suc k)
            (messages_or round.reply.messages round.author_messages
              ++ human (build_author_revision_message round.review.verdict.feedback_markdown k)
                ∷ [])
            (messages_or round.review.messages round.reviewer_messages)
            v

  -- the round that the result is of
  pub record LastRound (w : W) (r : MentionExecutionResult) (w' : W) : Type 0 where
    pub number : ℕ
    pub first_at_least : 1 ≤ number
    pub last_at_most : number ≤ max_review_rounds
    pub to_author : List (Message P)
    pub to_reviewer : List (Message P)
    pub before : W
    pub earlier : Rejected w number to_author to_reviewer before
    pub after : W
    -- by then only questions were asked, and agents called
    pub reached : Reach PlayStep w after
    pub round : R
    pub played :
        play tools agents context worktree_dir to_author to_reviewer number before
        ≡ (done round, after)
    pub ends : (round.review.verdict.approved ≡ true) ⊎ (number ≡ max_review_rounds)
    pub settled : settle tools agents context worktree_dir round number after ≡ (done r, w')
    pub outcome : PushedOrReplied round r w'
