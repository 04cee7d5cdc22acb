-- ===== src/Scenes/Mention/Materialize/Asks.antt =====
-- The questions in front of a push change nothing: neither a commit nor a push is among their calls.
use open_review.Base.{ℕ, ◌≡◌, refl, inl, inr, ◌⊎◌, Bool, true, not, Option, List, is_empty}
use open_review.Base.Codes.{Codes}
use open_review.Scenes.Mention.Models.{MentionContext, MentionAgentResponse, MentionExecutionResult}
use open_review.Scenes.Mention.Effects.{
  Action, Outcome, done, fault, Only, step-Only, pure-Only, bind-Only, if-Only,
}
use open_review.Scenes.Mention.Materialize.{
  Tools, is_code_change, working_tree_has_changes, collect_changed_paths, or_true,
  source_branch_is_pushable, head_is_current, too_many, ask_gitlab, ask_changes, decide,
  first_result,
}

module _ {W : Type 0} (tools : Tools W) where
  -- one command that reads: `git status` in its two forms, and two requests of GitLab
  abbrev pub AskStep : W → W → Type 0
  AskStep w v =
      (v ≡ (tools.status_porcelain w).1)
      ⊎ (v ≡ (tools.status_short w).1)
      ⊎ ((branch : Codes) × (v ≡ (tools.can_push_to_branch branch w).1))
      ⊎ (v ≡ (tools.current_head_sha w).1)

  abbrev pub Asks : {A : Type 0} → Action W A → Type 0
  Asks m = Only AskStep m

  pub changes-Asks : Asks (working_tree_has_changes tools)
  unfolding working_tree_has_changes
  changes-Asks =
      bind-Only (step-Only tools.status_porcelain (λ w. inl refl)) (λ status. pure-Only _)

  pub paths-Asks : Asks (collect_changed_paths tools)
  unfolding collect_changed_paths
  paths-Asks =
      bind-Only (step-Only tools.status_short (λ w. inr (inl refl))) (λ output. pure-Only _)

  or_true-state : (r : Outcome Bool × W) → (or_true tools r).1 ≡ r.1
  or_true-state (done b, w) = refl
  or_true-state (fault e, w) = refl

  pushable-Asks : (context : MentionContext) → Asks (source_branch_is_pushable tools context)
  unfolding source_branch_is_pushable
  pushable-Asks context = step-Only (source_branch_is_pushable tools context) (λ w.
      let branch = context.mr_snapshot.source_branch in
      inr (inr (inl (branch, or_true-state (tools.can_push_to_branch branch w)))))

  head-Asks : (expected : Codes) → Asks (head_is_current tools expected)
  unfolding head_is_current
  head-Asks expected = if-Only (is_empty expected) (pure-Only true) (
      bind-Only (step-Only tools.current_head_sha (λ w. inr (inr (inr refl)))) (λ now. pure-Only _))

  gitlab-Asks :
      (context : MentionContext) (result : MentionExecutionResult)
      → Asks (ask_gitlab tools context result)
  gitlab-Asks context result = bind-Only (pushable-Asks context) (λ pushable.
      if-Only (not pushable) (pure-Only _)
        (bind-Only (head-Asks context.mr_snapshot.head_sha) (λ current. pure-Only _)))

  changed-Asks :
      (context : MentionContext) (response : MentionAgentResponse) (allow_push : Bool)
      (reason : Option Codes) (result : MentionExecutionResult)
      → Asks (ask_changes tools context response allow_push reason result)
  changed-Asks context response allow_push reason result =
      if-Only (not (is_code_change response.reply_kind)) (pure-Only _) (
        if-Only (too_many tools result.changed_files) (pure-Only _)
          (if-Only (not allow_push) (pure-Only _) (gitlab-Asks context result)))

  pub decide-Asks :
      (context : MentionContext) (response : MentionAgentResponse) (used : List Codes)
      (approved : Bool) (rounds : ℕ) (allow_push : Bool) (reason : Option Codes)
      → Asks (decide tools context response used approved rounds allow_push reason)
  unfolding decide
  decide-Asks context response used approved rounds allow_push reason =
      bind-Only changes-Asks (λ changed. if-Only (not changed) (pure-Only _) (
        bind-Only paths-Asks (λ files.
          changed-Asks context response allow_push reason
            (record (first_result tools context response used approved rounds reason) {
              changed_files = files;
            }))))
