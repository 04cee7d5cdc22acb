-- ===== src/Scenes/Mention/Materialize/Settled.antt =====
-- How `_materialize_main_agent_result` ends, and what it has done by then.
use open_review.Base.{ℕ, ◌≡◌, ◌∙◌, ◌⊎◌, inl, inr, refl, sym, ap, Bool, Option, none, some, List}
use open_review.Base.Codes.{Codes}
use open_review.Scenes.Mention.Models.{
  replied, pushed, MentionContext, MentionAgentResponse, MentionExecutionResult,
}
use open_review.Scenes.Mention.Effects.{
  Action, Outcome, Fault, done, fault, Reach, bind-done, bind-fault, pure-done, pure-fault,
}
use open_review.Scenes.Mention.Materialize.{
  Tools, Decision, stop, go, commit_and_push, decide, conclude, materialize_main_agent_result,
}
use open_review.Scenes.Mention.Materialize.Asks.{AskStep, decide-Asks}
use open_review.Scenes.Mention.Materialize.Gates.{Passed, decide-Passed, decide-Keeps}
use mathlib.Core.Path.{subst}

module _ {W : Type 0} (tools : Tools W) (context : MentionContext) (response : MentionAgentResponse)
    (used_subagents : List Codes) (review_approved : Bool) (review_rounds : ℕ) (allow_push : Bool)
    (degraded_reason : Option Codes) where
  abbrev decided : Action W Decision
  decided =
      decide tools context response used_subagents review_approved review_rounds allow_push
        degraded_reason

  abbrev pub materialized : Action W MentionExecutionResult
  materialized =
      materialize_main_agent_result tools context response used_subagents review_approved
        review_rounds allow_push degraded_reason

  -- only questions were asked on the way from one state to the other
  abbrev pub Asked : W → W → Type 0
  Asked w v = Reach (AskStep tools) w v

  -- nothing was committed or pushed
  abbrev pub Kept : W → W → MentionExecutionResult → Type 0
  Kept w w' r = (r.status ≡ replied) × (r.commit_sha ≡ none) × Asked w w'

  -- every gate was passed with nothing but questions, and then `commit_and_push` ended so
  abbrev pub Tried : W → Outcome Codes × W → Type 0
  Tried w end =
      (v : W) × (made : MentionExecutionResult) × Passed tools context response used_subagents
        review_approved review_rounds allow_push degraded_reason w v made
      × Asked w v
      × (commit_and_push tools context.mr_snapshot.source_branch v ≡ end)

  abbrev pub Sent : W → W → MentionExecutionResult → Type 0
  Sent w w' r =
      (sha : Codes) × Tried w (done sha, w') × (r.status ≡ pushed) × (r.commit_sha ≡ some sha)

  abbrev pub Settled : W → Outcome MentionExecutionResult × W → Type 0
  Settled w (done r, w') = Kept w w' r ⊎ Sent w w' r
  Settled w (fault e, w') = Asked w w' ⊎ Tried w (fault e, w')

  asked : (w v : W) (o : Outcome Decision) → decided w ≡ (o, v) → Asked w v
  asked w v o h = subst (Asked w) (ap (λ r. r.1) h) (
      (decide-Asks tools context response used_subagents review_approved review_rounds allow_push
          degraded_reason).reaches
        w)

  concluded :
      (d : Decision) (r : MentionExecutionResult) (w v w' : W)
      → decided w ≡ (done d, v)
      → conclude tools context d v ≡ (done r, w')
      → Kept w w' r ⊎ Sent w w' r
  concluded (stop made) r w v w' e k =
      let (same, at) = pure-done made r v w' k in
      let kept =
        decide-Keeps tools context response used_subagents review_approved review_rounds allow_push
          degraded_reason (stop made) w v e in
      inl (
        ap (λ (x : MentionExecutionResult). x.status) (sym same) ∙ kept.0,
        ap (λ (x : MentionExecutionResult). x.commit_sha) (sym same) ∙ kept.1,
        subst (Asked w) at (asked w v (done (stop made)) e),
      )
  concluded (go made) r w v w' e k =
      let (sha, v1, e1, k1) =
        bind-done (commit_and_push tools context.mr_snapshot.source_branch) _ v r w' k in
      let (same, at) = pure-done _ r v1 w' k1 in
      let passed =
        decide-Passed tools context response used_subagents review_approved review_rounds allow_push
          degraded_reason made w v e in
      let sent = e1 ∙ (λ i. (done sha, at i)) in
      inr (
        sha,
        (v, made, passed, asked w v (done (go made)) e, sent),
        ap (λ (x : MentionExecutionResult). x.status) (sym same),
        ap (λ (x : MentionExecutionResult). x.commit_sha) (sym same),
      )

  pub returned-Settled :
      (r : MentionExecutionResult) (w w' : W)
      → materialized w ≡ (done r, w')
      → Kept w w' r ⊎ Sent w w' r
  unfolding materialize_main_agent_result
  returned-Settled r w w' h =
      let (d, v, e, k) = bind-done decided _ w r w' h in concluded d r w v w' e k

  interrupted :
      (d : Decision) (x : Fault) (w v w' : W)
      → decided w ≡ (done d, v)
      → conclude tools context d v ≡ (fault x, w')
      → Tried w (fault x, w')
  interrupted (stop made) x w v w' e k = absurd (pure-fault made v x w' k)
  interrupted (go made) x w v w' e k =
      elim (bind-fault (commit_and_push tools context.mr_snapshot.source_branch) _ v x w' k) [
        | inl f ↦ (
          v,
          made,
          decide-Passed tools context response used_subagents review_approved review_rounds
              allow_push degraded_reason made w v e,
          asked w v (done (go made)) e,
          f,
        )
        | inr (sha, u, f, g) ↦ absurd (pure-fault _ u x w' g)
      ]

  raised-Settled :
      (x : Fault) (w w' : W) → materialized w ≡ (fault x, w') → Asked w w' ⊎ Tried w (fault x, w')
  unfolding materialize_main_agent_result
  raised-Settled x w w' h = elim (bind-fault decided _ w x w' h) [
    | inl e ↦ inl (asked w w' (fault x) e)
    | inr (d, v, e, k) ↦ inr (interrupted d x w v w' e k)
  ]

  settled_lem : (w : W) (r : Outcome MentionExecutionResult × W) → materialized w ≡ r → Settled w r
  settled_lem w (done r, w') h = returned-Settled r w w' h
  settled_lem w (fault x, w') h = raised-Settled x w w' h

  -- However `_materialize_main_agent_result` ends, it commits and pushes nothing before all of this
  -- holds: the reply is a code change, the push was allowed, the worktree had changes, in no more
  -- files than the limit allows, GitLab let the bot push to the branch (or could not be asked), and
  -- the head was still that of the run (or the run has none). Until then it has only asked git and
  -- GitLab. If it returns, it has either done nothing else, and the result says `replied` without a
  -- commit, or then committed and pushed, and the result says `pushed` with that commit. If it
  -- raises, it has done nothing else, or the commit or the push behind the gates raised.
  pub materialize-Settled : (w : W) → Settled w (materialized w)
  materialize-Settled w = settled_lem w (materialized w) refl
