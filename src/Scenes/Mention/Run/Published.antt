-- ===== src/Scenes/Mention/Run/Published.antt =====
-- What is left behind by a run of the mention scene.
use open_review.Base.{
  ◌≡◌, ◌∙◌, ◌⊎◌, inl, inr, refl, sym, ap, Bool, true, false, Option, [], ◌∷◌, is_empty,
  if◌then◌else◌,
}
use open_review.Base.Codes.{Codes}
use open_review.Scenes.Mention.Models.{
  skipped, failed as run_failed, MentionContext, MentionExecutionResult,
}
use open_review.Scenes.Mention.Effects.{
  Action, Outcome, done, fault, terminated, failed, except_at, finally_at, bind-done, bind-fault,
  pure, pure-done,
}
use open_review.Scenes.Mention.Materialize.{Tools}
use open_review.Scenes.Mention.Loop.{Agents, run_author_reviewer_loop}
use open_review.Scenes.Mention.Publish.{Post}
use open_review.Scenes.Mention.Run.{
  Surroundings, Identity, known, unknown, is_skipped, is_stale, clean_up, with_identity,
  run_mention_inner, failure, publish, answer, prepare, on_error, guarded, work,
}

module _ {W P : Type 0} (outside : Surroundings W) (tools : Tools W) (agents : Codes → Agents W P)
    (sha256_hex : Codes → Codes) (post : Codes → Post → Action W Bool)
    (context : MentionContext) where
  abbrev published : MentionExecutionResult → Action W MentionExecutionResult
  published = publish outside tools agents sha256_hex post context

  abbrev pub looped : Codes → Action W MentionExecutionResult
  looped dir = run_author_reviewer_loop tools (agents dir) context dir

  abbrev pub asked_to_end : Action W (Unit {0})
  asked_to_end = outside.raise_if_run_termination_requested

  -- the loop's result was published and came back
  abbrev pub PublishedLoop : Codes → W → MentionExecutionResult → W → Type 0
  PublishedLoop dir u r v =
      (result : MentionExecutionResult) × (u1 u2 : W) × (looped dir u ≡ (done result, u1))
      × (asked_to_end u1 ≡ (done tt, u2))
      × (published result u2 ≡ (done r, v))

  -- the loop, the look for a request to end the run, or the publication raised an error
  abbrev pub Failed : Codes → W → Codes → W → Type 0
  Failed dir u text v =
      (looped dir u ≡ (fault (failed text), v))
      ⊎ (result : MentionExecutionResult) × (u1 : W) × (looped dir u ≡ (done result, u1))
        × ((asked_to_end u1 ≡ (fault (failed text), v))
            ⊎ (u2 : W) × (asked_to_end u1 ≡ (done tt, u2))
              × (published result u2 ≡ (fault (failed text), v)))

  -- the result of the loop was published, or the error that kept it from being published
  abbrev pub PublishedAt : Codes → W → MentionExecutionResult → W → Type 0
  PublishedAt dir u r v =
      PublishedLoop dir u r v
      ⊎ (text : Codes) × (u1 : W) × Failed dir u text u1
        × (published (failure context text) u1 ≡ (done r, v))

  except-cases :
      (o : Outcome MentionExecutionResult × W) (r : MentionExecutionResult) (v : W)
      → except_at o (on_error outside tools agents sha256_hex post context) ≡ (done r, v)
      → (o ≡ (done r, v))
        ⊎ (text : Codes) × (u : W) × (o ≡ (fault (failed text), u))
          × (published (failure context text) u ≡ (done r, v))
  except-cases (done x, u) r v h = inl h
  except-cases (fault terminated, u) r v h = cc
  except-cases (fault (failed text), u) r v h = inr (text, u, refl, h)

  answer-Published :
      (dir : Codes) (r : MentionExecutionResult) (w v : W)
      → answer outside tools agents sha256_hex post context dir w ≡ (done r, v)
      → PublishedLoop dir w r v
  answer-Published dir r w v h =
      let (result, u, e, k) =
        bind-done (run_author_reviewer_loop tools (agents dir) context dir) _ w r v h in
      let (unit, u', e', k') =
        bind-done outside.raise_if_run_termination_requested (λ _. published result) u r v k in
      (result, u, u', e, e', k')

  answer-Failed :
      (dir text : Codes) (w v : W)
      → answer outside tools agents sha256_hex post context dir w ≡ (fault (failed text), v)
      → Failed dir w text v
  answer-Failed dir text w v h =
      elim (bind-fault (run_author_reviewer_loop tools (agents dir) context dir) _ w (failed text) v
        h) [
          | inl e ↦ inl e
          | inr (result, u, e, k) ↦
              elim (bind-fault outside.raise_if_run_termination_requested (λ _. published result) u
                (failed text) v k) [
                  | inl f ↦ inr (result, u, e, inl f)
                  | inr (unit, u2, f, g) ↦ inr (result, u, e, inr (u2, f, g))
                ]
        ]

  guarded_answer-Published :
      (dir : Codes) (r : MentionExecutionResult) (w v : W)
      → except_at
          (answer outside tools agents sha256_hex post context dir w)
          (on_error outside tools agents sha256_hex post context)
        ≡ (done r, v)
      → PublishedAt dir w r v
  guarded_answer-Published dir r w v h =
      elim (except-cases (answer outside tools agents sha256_hex post context dir w) r v h) [
        | inl e ↦ inl (answer-Published dir r w v e)
        | inr (text, u, f, e) ↦ inr (text, u, answer-Failed dir text w u f, e)
      ]

  finally-cases :
      (o : Outcome MentionExecutionResult) (c : Outcome (Unit {0}) × W) (r : MentionExecutionResult)
      (w' : W)
      → finally_at o c ≡ (done r, w')
      → (o ≡ done r) × (c ≡ (done tt, w'))
  finally-cases o (done u, w) r w' h = (cc, cc)
  finally-cases o (fault e, w) r w' h = cc

  -- the worktree was removed, where it has a name
  abbrev pub CleanedUp : Codes → W → W → Type 0
  CleanedUp dir v w' =
      if is_empty dir then v ≡ w' else outside.cleanup_temporary_worktree dir v ≡ (done tt, w')

  -- the worktree was made, or asking for the end of the run or making the worktree raised an error
  abbrev pub Prepared : W → Outcome Codes × W → Type 0
  Prepared w (done dir, u) =
      (w1 : W) × (asked_to_end w ≡ (done tt, w1))
      × (outside.create_temporary_worktree context.mr_snapshot.head_sha context.run_id w1
          ≡ (done dir, u))
  Prepared w (fault e, u) =
      (asked_to_end w ≡ (fault e, u))
      ⊎ (w1 : W) × (asked_to_end w ≡ (done tt, w1))
        × (outside.create_temporary_worktree context.mr_snapshot.head_sha context.run_id w1
            ≡ (fault e, u))

  abbrev pub Answered : W → MentionExecutionResult → W → Type 0
  Answered w r w' =
      ((text : Codes) × (u : W) × Prepared w (fault (failed text), u)
        × (published (failure context text) u ≡ (done r, w')))
      ⊎ (dir : Codes) × (u v : W) × Prepared w (done dir, u)
        × PublishedAt dir u r v
        × CleanedUp dir v w'

  prepare-Prepared :
      (w : W) (p : Outcome Codes × W)
      → prepare outside tools agents sha256_hex post context w ≡ p
      → Prepared w p
  prepare-Prepared w (done dir, u) h =
      let (unit, w1, e, k) = bind-done outside.raise_if_run_termination_requested _ w dir u h in
      (w1, e, k)
  prepare-Prepared w (fault x, u) h =
      elim (bind-fault outside.raise_if_run_termination_requested _ w x u h) [
        | inl e ↦ inl e
        | inr (unit, w1, e, k) ↦ inr (w1, e, k)
      ]

  clean_up-CleanedUp :
      (dir : Codes) (v w' : W)
      → clean_up outside tools agents sha256_hex post dir v ≡ (done tt, w')
      → CleanedUp dir v w'
  clean_up-CleanedUp [] v w' h = ap (λ o. o.1) h
  clean_up-CleanedUp (c ∷ dir) v w' h = h

  guarded-Answered :
      (p : Outcome Codes × W) (w : W) (r : MentionExecutionResult) (w' : W)
      → prepare outside tools agents sha256_hex post context w ≡ p
      → guarded outside tools agents sha256_hex post context p ≡ (done r, w')
      → Answered w r w'
  guarded-Answered (fault terminated, u) w r w' e h = cc
  guarded-Answered (fault (failed text), u) w r w' e h =
      inl (text, u, prepare-Prepared w (fault (failed text), u) e, h)
  guarded-Answered (done dir, u) w r w' e h =
      let block =
        except_at (answer outside tools agents sha256_hex post context dir u)
          (on_error outside tools agents sha256_hex post context) in
      let (out, clean) =
        finally-cases block.0 (clean_up outside tools agents sha256_hex post dir block.1) r w' h in
      inr (
        dir,
        u,
        block.1,
        prepare-Prepared w (done dir, u) e,
        guarded_answer-Published dir r u block.1 (λ i. (out i, block.1)),
        clean_up-CleanedUp dir block.1 w' clean,
      )

  pub work-Answered :
      (w : W) (r : MentionExecutionResult) (w' : W)
      → work outside tools agents sha256_hex post context w ≡ (done r, w')
      → Answered w r w'
  unfolding work
  work-Answered w r w' h =
      guarded-Answered (prepare outside tools agents sha256_hex post context w) w r w' refl h

module _ {W P : Type 0} (outside : Surroundings W) (tools : Tools W) (agents : Codes → Agents W P)
    (sha256_hex : Codes → Codes) (post : Codes → Post → Action W Bool)
    (expected : Option Codes) where
  -- a run that has its context: skipped, or for a head that is gone, or without an identity, or
  -- answered
  abbrev pub Ran : MentionContext → W → MentionExecutionResult → W → Type 0
  Ran context w r w' =
      ((is_skipped context.skip_reason ≡ true) × (r.status ≡ skipped) × (w ≡ w'))
      ⊎ ((is_stale expected context.mr_snapshot.head_sha ≡ true) × (r.status ≡ skipped) × (w ≡ w'))
      ⊎ ((error : Option Codes) × (outside.resolve_bot_identity w ≡ (done (unknown error), w'))
          × (r.status ≡ run_failed))
      ⊎ (u : W) × (is_skipped context.skip_reason ≡ false)
        × (is_stale expected context.mr_snapshot.head_sha ≡ false)
        × (outside.resolve_bot_identity w ≡ (done known, u))
        × Answered outside tools agents sha256_hex post context u r w'

  either_way :
      {A : Type 0} (b : Bool) (early : A) (m : Action W A) (a : A) (w w' : W)
      → (if b then pure early else m) w ≡ (done a, w')
      → ((b ≡ true) × (early ≡ a) × (w ≡ w')) ⊎ ((b ≡ false) × (m w ≡ (done a, w')))
  either_way true early m a w w' h =
      let (same, at) = pure-done early a w w' h in inl (refl, same, at)
  either_way false early m a w w' h = inr (refl, h)

  identified :
      (context : MentionContext) (i : Identity) (r : MentionExecutionResult) (w u w' : W)
      → is_skipped context.skip_reason ≡ false
      → is_stale expected context.mr_snapshot.head_sha ≡ false
      → outside.resolve_bot_identity w ≡ (done i, u)
      → with_identity outside tools agents sha256_hex post context i u ≡ (done r, w')
      → Ran context w r w'
  identified context known r w u w' a b e h =
      inr (
        inr (inr (u, a, b, e, work-Answered outside tools agents sha256_hex post context u r w' h)))
  identified context (unknown error) r w u w' a b e h =
      let (same, at) = pure-done _ r u w' h in
      inr (
        inr (
          inl (
            error,
            e ∙ (λ i. (done (unknown error), at i)),
            ap (λ (x : MentionExecutionResult). x.status) (sym same),
          )))

  -- A `_run_mention_inner` that returns a result has built the context, and then: it has done
  -- nothing more and says `skipped`, where the context has a reason to skip or the head is not the
  -- expected one; or the bot's identity is unknown, and it says `failed`; or the result it returns
  -- came back from its publication. What is published is the result of the author and reviewer loop
  -- on the worktree, or, where making the worktree, the loop, or the publication raised an error,
  -- the failure with that error's text. A worktree that was made and has a name is removed last.
  pub run-Answered :
      (w : W) (r : MentionExecutionResult) (w' : W)
      → run_mention_inner outside tools agents sha256_hex post expected w ≡ (done r, w')
      → (context : MentionContext) × (u v : W) × (outside.raise_if_run_termination_requested w
          ≡ (done tt, u))
        × (outside.build_mention_context u ≡ (done context, v))
        × Ran context v r w'
  unfolding run_mention_inner
  run-Answered w r w' h =
      let (unit, u, e, k) = bind-done outside.raise_if_run_termination_requested _ w r w' h in
      let (context, v, f, l) = bind-done outside.build_mention_context _ u r w' k in
      (
        context,
        u,
        v,
        e,
        f,
        elim (either_way (is_skipped context.skip_reason) _ _ r v w' l) [
          | inl (a, same, at) ↦
              inl (a, ap (λ (x : MentionExecutionResult). x.status) (sym same), at)
          | inr (a, m) ↦
              elim (either_way (is_stale expected context.mr_snapshot.head_sha) _ _ r v w' m) [
                | inl (b, same, at) ↦
                    inr (inl (b, ap (λ (x : MentionExecutionResult). x.status) (sym same), at))
                | inr (b, n) ↦
                    let (i, x, g, o) = bind-done outside.resolve_bot_identity _ v r w' n in
                    identified context i r v x w' a b g o
              ]
        ],
      )
