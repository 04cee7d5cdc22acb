-- ===== src/Scenes/Mention/Materialize/Gates.antt =====
-- What is true where `_materialize_main_agent_result` decides to push, and the results where not.
use open_review.Base.{
  ℕ, ◌≡◌, refl, ap, Bool, true, false, not, Option, none, some, List, if◌then◌else◌, arith,
}
use mathlib.Core.Path.{subst}
use open_review.Base.Codes.{Codes}
use open_review.Scenes.Mention.Models.{
  replied, MentionContext, MentionAgentResponse, MentionExecutionResult,
}
use open_review.Scenes.Mention.Effects.{Action, Outcome, done, fault, ◌>>=◌, pure, bind-done}
use open_review.Scenes.Mention.Materialize.{
  Tools, Decision, stop, go, is_code_change, working_tree_has_changes, collect_changed_paths,
  source_branch_is_pushable, head_is_current, first_result, too_many, ask_gitlab, decide,
}

decision_of : {W : Type 0} → Outcome Decision × W → Option Decision
decision_of (done d, w) = some d
decision_of (fault e, w) = none

abbrev pub IsUnpushed : MentionExecutionResult → Type 0
IsUnpushed r = (r.status ≡ replied) × (r.commit_sha ≡ none)

abbrev pub OnResult : Decision → Type 0
OnResult (stop r) = IsUnpushed r
OnResult (go r) = IsUnpushed r

module _ {W : Type 0} (tools : Tools W) (context : MentionContext) (response : MentionAgentResponse)
    (used_subagents : List Codes) (review_approved : Bool) (review_rounds : ℕ) (allow_push : Bool)
    (degraded_reason : Option Codes) where
  abbrev first : MentionExecutionResult
  first =
      first_result tools context response used_subagents review_approved review_rounds
        degraded_reason

  -- every gate in front of a push, in the order of the code, from state `w` to state `w'`
  pub record Passed (w w' : W) (result : MentionExecutionResult) : Type 0 where
    pub changes : is_code_change response.reply_kind ≡ true
    pub allowed : allow_push ≡ true
    pub files : List Codes
    pub w1 : W
    pub changed : working_tree_has_changes tools w ≡ (done true, w1)
    pub w2 : W
    pub collected : collect_changed_paths tools w1 ≡ (done files, w2)
    pub few : too_many tools files ≡ false
    pub w3 : W
    pub pushable : source_branch_is_pushable tools context w2 ≡ (done true, w3)
    pub current : head_is_current tools context.mr_snapshot.head_sha w3 ≡ (done true, w')
    pub as_made : result ≡ record first { changed_files = files }

  abbrev Asked : W → W → MentionExecutionResult → MentionExecutionResult → Type 0
  Asked w w' result r =
      (w3 : W) × (source_branch_is_pushable tools context w ≡ (done true, w3))
      × (head_is_current tools context.mr_snapshot.head_sha w3 ≡ (done true, w'))
      × (r ≡ result)

  abbrev pub Returns : Action W Decision → W → Decision → W → Type 0
  Returns m w d w' = m w ≡ (done d, w')

  -- behind a test that returns, the decision to push is made where the test fails
  test_go :
      (b : Bool) (early r : MentionExecutionResult) (rest : Action W Decision) (w w' : W)
      → Returns (if b then pure (stop early) else rest) w (go r) w'
      → (b ≡ false) × Returns rest w (go r) w'
  test_go true early r rest w w' h = cc
  test_go false early r rest w w' h = (refl, h)

  current_go :
      (current : Bool) (early result r : MentionExecutionResult) (w w' : W)
      → Returns (pure (if current then go result else stop early)) w (go r) w'
      → (current ≡ true) × (w ≡ w') × (r ≡ result)
  current_go true early result r w w' h = (refl, cc, cc)
  current_go false early result r w w' h = cc

  true_of_not : (b : Bool) → not b ≡ false → b ≡ true
  true_of_not b h = ground arith

  as_answer :
      (m : Action W Bool) (w : W) (b c : Bool) (v v' : W)
      → m w ≡ (done b, v)
      → b ≡ c
      → v ≡ v'
      → m w ≡ (done c, v')
  as_answer m w b c v v' h e f = cc

  gitlab-go :
      (result r : MentionExecutionResult) (w w' : W)
      → Returns (ask_gitlab tools context result) w (go r) w'
      → Asked w w' result r
  gitlab-go result r w w' h =
      let (pushable, w3, e, k) =
        bind-done (source_branch_is_pushable tools context) _ w (go r) w' h in
      let (p, k1) = test_go (not pushable) _ r _ w3 w' k in
      let (current, w4, e4, k2) =
        bind-done (head_is_current tools context.mr_snapshot.head_sha) _ w3 (go r) w' k1 in
      let (c, same, made) = current_go current _ result r w4 w' k2 in
      (
        w3,
        as_answer (source_branch_is_pushable tools context) w pushable true w3 w3 e
            (true_of_not pushable p) refl,
        as_answer (head_is_current tools context.mr_snapshot.head_sha) w3 current true w4 w' e4 c
            same,
        made,
      )

  -- Where the decision is to push, every gate was passed.
  pub decide-Passed :
      (r : MentionExecutionResult) (w w' : W)
      → decide tools context response used_subagents review_approved review_rounds allow_push
          degraded_reason w
        ≡ (done (go r), w')
      → Passed w w' r
  unfolding decide
  decide-Passed r w w' h =
      let (changed, w1, e1, k1) = bind-done (working_tree_has_changes tools) _ w (go r) w' h in
      let (c, k2) = test_go (not changed) _ r _ w1 w' k1 in
      let (files, w2, e2, k3) = bind-done (collect_changed_paths tools) _ w1 (go r) w' k2 in
      let (code, k4) = test_go (not (is_code_change response.reply_kind)) _ r _ w2 w' k3 in
      let (few, k5) = test_go (too_many tools files) _ r _ w2 w' k4 in
      let (allowed, k6) = test_go (not allow_push) _ r _ w2 w' k5 in
      let (w3, pushable, current, made) = gitlab-go _ r w2 w' k6 in
      record {
        changes = true_of_not (is_code_change response.reply_kind) code;
        allowed = true_of_not allow_push allowed;
        files = files;
        w1 = w1;
        changed =
            as_answer (working_tree_has_changes tools) w changed true w1 w1 e1
              (true_of_not changed c) refl;
        w2 = w2;
        collected = e2;
        few = few;
        w3 = w3;
        pushable = pushable;
        current = current;
        as_made = made;
      }

  abbrev pub KeepsUnpushed : Action W Decision → Type 0
  KeepsUnpushed m = (d : Decision) (w w' : W) → Returns m w d w' → OnResult d

  pure-Keeps : (d : Decision) → OnResult d → KeepsUnpushed (pure d)
  pure-Keeps d h d' w w' e = subst OnResult (ap (λ o. unwrapped d o) e) h
    where
      unwrapped : Decision → Outcome Decision × W → Decision
      unwrapped other (done x, v) = x
      unwrapped other (fault x, v) = other

  if-Keeps :
      (b : Bool) (m n : Action W Decision)
      → KeepsUnpushed m
      → KeepsUnpushed n
      → KeepsUnpushed (if b then m else n)
  if-Keeps true m n h k = h
  if-Keeps false m n h k = k

  bind-Keeps :
      {A : Type 0} (m : Action W A) (f : A → Action W Decision)
      → ((a : A) → KeepsUnpushed (f a))
      → KeepsUnpushed (m >>= f)
  bind-Keeps m f h d w w' e = let (a, v, e1, k) = bind-done m f w d w' e in h a d v w' k

  current-Keeps :
      (current : Bool) (early result : MentionExecutionResult)
      → IsUnpushed early
      → IsUnpushed result
      → KeepsUnpushed (pure (if current then go result else stop early))
  current-Keeps true early result h k = pure-Keeps (go result) k
  current-Keeps false early result h k = pure-Keeps (stop early) h

  gitlab-Keeps :
      (result : MentionExecutionResult)
      → IsUnpushed result
      → KeepsUnpushed (ask_gitlab tools context result)
  gitlab-Keeps result u = bind-Keeps (source_branch_is_pushable tools context) _ (λ pushable.
      if-Keeps (not pushable) _ _ (pure-Keeps _ u) (
        bind-Keeps (head_is_current tools context.mr_snapshot.head_sha) _
          (λ current. current-Keeps current _ result u u)))

  either-Unpushed :
      (b : Bool) (r s : MentionExecutionResult)
      → IsUnpushed r
      → IsUnpushed s
      → IsUnpushed (if b then r else s)
  either-Unpushed true r s h k = h
  either-Unpushed false r s h k = k

  pub decide-Keeps : KeepsUnpushed (
      decide tools context response used_subagents review_approved review_rounds allow_push
        degraded_reason)
  unfolding decide first_result
  decide-Keeps = bind-Keeps (working_tree_has_changes tools) _ (λ changed.
      if-Keeps (not changed) _ _
        (pure-Keeps _
          (either-Unpushed (is_code_change response.reply_kind) _ first (refl, refl) (refl, refl)))
        (bind-Keeps (collect_changed_paths tools) _ (λ files.
          if-Keeps (not (is_code_change response.reply_kind)) _ _ (pure-Keeps _ (refl, refl)) (
            if-Keeps (too_many tools files) _ _ (pure-Keeps _ (refl, refl)) (
              if-Keeps (not allow_push) _ _ (pure-Keeps _ (refl, refl))
                (gitlab-Keeps (record first { changed_files = files }) (refl, refl)))))))
