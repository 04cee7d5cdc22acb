-- ===== src/Scenes/AutoReview/Finalize/Laws.antt =====
-- What holds of the final review, that of `_finalize_director_decision`.
use open_review.Base.{
  ℕ, ◌+◌, ◌-◌, ◌≤◌, ◌<◌, String, Bool, true, false, not, ◌&&◌, ◌≡◌, ◌≢◌, ◌⊎◌, inl, inr, refl, sym,
  ap, Option, none, some, List, [], ◌∷◌, length, take, map, All, All-weaken, filter-passes,
  take-All, take_whole, length-take-le, Bool-cases, eqb, leb, if◌then◌else◌, arith, eq_iff,
}
use native.Mathlib.Nat.{le_trans, le_refl}
use open_review.Base.StrSet.{has}
use open_review.Base.Sorting.{Distinct, filter-Distinct, take-Distinct}
use open_review.Base.TextTools.{TextTools}
use open_review.Scenes.AutoReview.Models.{
  CandidateFinding, ReviewContext, RankedReview, OpenQuestion, ChiefReviewDecision,
}
use open_review.Scenes.AutoReview.Findings.{key_of}
use open_review.Scenes.AutoReview.Dedupe.{dedupe_findings, dedupe-Distinct}
use open_review.Scenes.AutoReview.Finalize.Fits.{FitsDiff, reliable-FitsDiff}
use open_review.Scenes.AutoReview.Finalize.{
  Halves, cut_findings, is_fresh, fresh_confirmed, fresh_suspicious, finish_review,
  finalize_director_decision, max_published_findings, is_reliable_inline_candidate,
}

-- a text of a list is found in it
has-map :
    (f : CandidateFinding → String) (k : String) (xs : List CandidateFinding)
    → has (map f xs) k ≡ false
    → All (λ x. f x ≢ k) xs
unfolding has
has-map f k [] h = tt
has-map f k (x ∷ xs) h = (λ q. ground (arith, eq_iff (f x) k), has-map f k xs (ground (arith)))

module _ (t : TextTools) (context : ReviewContext) where
  -- a review that may be published: every finding is new, none stands twice, and inline comments
  -- fit the diff
  pub record IsPublishable (r : RankedReview) : Type 0 where
    pub fresh_confirmed :
        All (λ f. is_fresh t context.previous_bot_dedupe_keys f ≡ true) r.confirmed_findings
    pub fresh_suspicious :
        All (λ f. is_fresh t context.previous_bot_dedupe_keys f ≡ true) r.suspicious_findings
    pub distinct_confirmed : Distinct CandidateFinding.dedupe_key r.confirmed_findings
    pub distinct_suspicious : Distinct CandidateFinding.dedupe_key r.suspicious_findings
    pub disjoint :
        All (λ s. All (λ c. key_of t c ≢ key_of t s) r.confirmed_findings) r.suspicious_findings
    pub inline_fits : All (FitsDiff context) r.inline_candidates

module _ (t : TextTools) (context : ReviewContext) where
  -- `cut_findings` keeps what holds of both halves
  cut_All :
      (P Q : CandidateFinding → Type 0) (limit : Option ℕ) (c s : List CandidateFinding)
      → All P c
      → All Q s
      → All P (cut_findings limit c s).0 × All Q (cut_findings limit c s).1
  unfolding cut_findings
  cut_All P Q none c s p q = (p, q)
  cut_All P Q (some m) c s p q = (take-All P m c p, take-All Q (m - length (take m c)) s q)

  cut_Distinct :
      (limit : Option ℕ) (c s : List CandidateFinding)
      → Distinct CandidateFinding.dedupe_key c
      → Distinct CandidateFinding.dedupe_key s
      → Distinct CandidateFinding.dedupe_key (cut_findings limit c s).0
        × Distinct CandidateFinding.dedupe_key (cut_findings limit c s).1
  unfolding cut_findings
  cut_Distinct none c s p q = (p, q)
  cut_Distinct (some m) c s p q = (
    take-Distinct CandidateFinding.dedupe_key m c p,
    take-Distinct CandidateFinding.dedupe_key (m - length (take m c)) s q,
  )

  abbrev IsNew : CandidateFinding → Type 0
  IsNew f = is_fresh t context.previous_bot_dedupe_keys f ≡ true

  abbrev IsApart : List CandidateFinding → CandidateFinding → Type 0
  IsApart c s = All (λ f. key_of t f ≢ key_of t s) c

  confirmed-IsNew : (c : List CandidateFinding) → All IsNew (fresh_confirmed t context c)
  unfolding fresh_confirmed
  confirmed-IsNew c =
      filter-passes (is_fresh t context.previous_bot_dedupe_keys) (dedupe_findings t c)

  both_tests : (a b : Bool) → (a && b) ≡ true → (a ≡ true) × (b ≡ true)
  both_tests a b h = ground arith

  not-true : (b : Bool) → not b ≡ true → b ≡ false
  not-true true h = sym h
  not-true false h = refl

  apart_lem :
      (c : List CandidateFinding) (s : CandidateFinding)
      → is_fresh t (map (key_of t) c) s ≡ true
      → IsApart c s
  apart_lem c s h = has-map (key_of t) (key_of t s) c (not-true _ h)

  suspicious-IsNew :
      (c s : List CandidateFinding)
      → All IsNew (fresh_suspicious t context c s)
        × All (IsApart c) (fresh_suspicious t context c s)
  unfolding fresh_suspicious
  suspicious-IsNew c s =
      let passed =
        filter-passes
          (λ item.
            is_fresh t (map (key_of t) c) item && is_fresh t context.previous_bot_dedupe_keys item)
          (dedupe_findings t s) in
      (
        All-weaken (λ x h. (both_tests _ _ h).1) (fresh_suspicious t context c s) passed,
        All-weaken (λ x h. apart_lem c x (both_tests _ _ h).0) (fresh_suspicious t context c s)
            passed,
      )

  cut-IsApart :
      (limit : Option ℕ) (c s : List CandidateFinding)
      → All (IsApart c) s
      → All (IsApart (cut_findings limit c s).0) (cut_findings limit c s).1
  unfolding cut_findings
  cut-IsApart none c s h = h
  cut-IsApart (some m) c s h =
      take-All (IsApart (take m c)) (m - length (take m c)) s
        (All-weaken (λ x a. take-All (λ f. key_of t f ≢ key_of t x) m c a) s h)

  confirmed-Distinct :
      (c : List CandidateFinding)
      → Distinct CandidateFinding.dedupe_key (fresh_confirmed t context c)
  unfolding fresh_confirmed
  confirmed-Distinct c =
      filter-Distinct CandidateFinding.dedupe_key (is_fresh t context.previous_bot_dedupe_keys)
        (dedupe_findings t c) (dedupe-Distinct t c)

  suspicious-Distinct :
      (c s : List CandidateFinding)
      → Distinct CandidateFinding.dedupe_key (fresh_suspicious t context c s)
  unfolding fresh_suspicious
  suspicious-Distinct c s =
      filter-Distinct CandidateFinding.dedupe_key _ (dedupe_findings t s) (dedupe-Distinct t s)

  finish-IsPublishable :
      (rec : Option String) (summary : String) (qs : List OpenQuestion) (limit : Option ℕ)
      (cs ss : List CandidateFinding)
      → IsPublishable t context (
          finish_review t context rec summary
            (cut_findings limit
              (fresh_confirmed t context cs)
              (fresh_suspicious t context (fresh_confirmed t context cs) ss))
            qs)
  unfolding finish_review
  finish-IsPublishable rec summary qs limit cs ss =
      let c = fresh_confirmed t context cs in
      let s = fresh_suspicious t context c ss in
      let news = cut_All IsNew IsNew limit c s (confirmed-IsNew cs) (suspicious-IsNew c ss).0 in
      let keys = cut_Distinct limit c s (confirmed-Distinct cs) (suspicious-Distinct c ss) in
      record {
        fresh_confirmed = news.0;
        fresh_suspicious = news.1;
        distinct_confirmed = keys.0;
        distinct_suspicious = keys.1;
        disjoint = cut-IsApart limit c s (suspicious-IsNew c ss).1;
        inline_fits =
            All-weaken (reliable-FitsDiff context) _
              (filter-passes (is_reliable_inline_candidate context) (cut_findings limit c s).0);
      }

  -- The review that `_finalize_director_decision` returns, which is the one that is published, has
  -- no finding whose key an earlier comment of the bot carries, no two confirmed and no two
  -- suspicious ones with the same key, and no suspicious one with the key of a confirmed one. Every
  -- inline candidate is of high confidence and names a file and a line, the file being a changed
  -- one that has the line among its added lines, or has none listed.
  pub finalize-IsPublishable :
      (configured : ℕ) (decision : ChiefReviewDecision)
      → IsPublishable t context (finalize_director_decision t configured context decision)
  unfolding finalize_director_decision
  finalize-IsPublishable configured decision =
      finish-IsPublishable decision.recommendation decision.summary _ _ decision.confirmed_findings
        decision.suspicious_findings

  cut_bound :
      (m : ℕ) (c s : List CandidateFinding)
      → length (cut_findings (some m) c s).0 + length (cut_findings (some m) c s).1 ≤ m
  unfolding cut_findings
  cut_bound m c s = omega (arith, length-take-le m c, length-take-le (m - length (take m c)) s)

  cut_whole :
      (m : ℕ) (c s : List CandidateFinding)
      → length c + length s ≤ m
      → cut_findings (some m) c s ≡ (c, s)
  unfolding cut_findings
  cut_whole m c s h =
      rw (take_whole m c (omega arith), take_whole (m - length c) s (omega arith)) refl

  limit_le :
      (configured count : ℕ)
      → 0 < configured
      → (m : ℕ) × (max_published_findings configured (some count) ≡ some m) × (m ≤ configured)
  unfolding max_published_findings
  limit_le configured count h = elim (Bool-cases (eqb configured 0)) [
    | inl e ↦ absurd (ground arith)
    | inr e ↦ (if leb configured count then configured else count, rw e refl, ground arith)
  ]

  limit_covers :
      (configured count : ℕ)
      → (configured ≡ 0) ⊎ (count ≤ configured)
      → max_published_findings configured (some count) ≡ some count
  unfolding max_published_findings
  limit_covers configured count h = ground arith

  -- A positive limit AUTO_REVIEW_MAX_PUBLISHED_FINDINGS bounds the number of findings of the review that `_finalize_director_decision` returns, confirmed and suspicious ones together.
  pub finalize_bound :
      (configured : ℕ) (decision : ChiefReviewDecision)
      → 0 < configured
      → length (finalize_director_decision t configured context decision).confirmed_findings
          + length (finalize_director_decision t configured context decision).suspicious_findings
        ≤ configured
  unfolding finalize_director_decision
  finalize_bound configured decision h =
      let c = fresh_confirmed t context decision.confirmed_findings in
      let s = fresh_suspicious t context c decision.suspicious_findings in
      let (m, e, le) = limit_le configured (length c + length s) h in
      rw e (le_trans (cut_bound m c s) le)

  -- Where the limit is 0 or not exceeded, that review has every confirmed finding that is new and every suspicious one that is new and not confirmed.
  pub finalize_whole :
      (configured : ℕ) (decision : ChiefReviewDecision)
      → (configured ≡ 0)
        ⊎ (length (fresh_confirmed t context decision.confirmed_findings)
              + length (
                  fresh_suspicious t context
                    (fresh_confirmed t context decision.confirmed_findings)
                    decision.suspicious_findings)
            ≤ configured)
      → ((finalize_director_decision t configured context decision).confirmed_findings
          ≡ fresh_confirmed t context decision.confirmed_findings)
        × ((finalize_director_decision t configured context decision).suspicious_findings
            ≡ fresh_suspicious t context
                (fresh_confirmed t context decision.confirmed_findings)
                decision.suspicious_findings)
  unfolding finalize_director_decision
  finalize_whole configured decision h =
      let c = fresh_confirmed t context decision.confirmed_findings in
      let s = fresh_suspicious t context c decision.suspicious_findings in
      let n = length c + length s in
      let whole = cut_whole n c s (le_refl n) in
      rw (limit_covers configured n h)
        (ap (λ (p : Halves). p.0) whole, ap (λ (p : Halves). p.1) whole)
