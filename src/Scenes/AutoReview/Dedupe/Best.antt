-- ===== src/Scenes/AutoReview/Dedupe/Best.antt =====
-- No finding is lost by `_dedupe_findings` to a lesser one.
use open_review.Base.{
  String, true, false, ◌≡◌, inl, inr, refl, ap, Option, none, some, List, [], ◌∷◌, ◌∙◌, ◌==◌, All,
  All-weaken, All-Any_self, Any, arith, Bool-cases, eq_iff,
}
use mathlib.Core.Path.{subst}
use open_review.Base.TextTools.{TextTools}
use open_review.Base.Dict
use open_review.Base.Dict.{Dict}
use open_review.Base.Entries.{values, get-Any, put-All, values-All}
use open_review.Base.Sorting.{Distinct, Descending, sort-Any, sort-All}
use open_review.Scenes.AutoReview.Models.{CandidateFinding}
use open_review.Scenes.AutoReview.Findings.{ranks_below}
use open_review.Scenes.AutoReview.Dedupe.{
  keyed, filed_under, replace_worse, dedupe_into, dedupe_findings, ranks_below_asym,
  ranks_below_trans, IsFiled, into-Filed, dedupe-Distinct, dedupe-Descending,
}

module _ (t : TextTools) where
  -- an entry under the key that is not below the finding
  abbrev Stands : CandidateFinding → Dict CandidateFinding → Type 0
  Stands f d =
      (v : CandidateFinding) × (Dict.get d (filed_under t f) ≡ some v)
      × (ranks_below t v (keyed t f) ≡ false)

  irreflexive : (a : CandidateFinding) → ranks_below t a a ≡ false
  irreflexive a = elim (Bool-cases (ranks_below t a a)) [
    | inl b ↦ ranks_below_asym t a a b
    | inr b ↦ b
  ]

  below-le :
      (a b c : CandidateFinding)
      → ranks_below t a b ≡ true
      → ranks_below t a c ≡ false
      → ranks_below t b c ≡ false
  below-le a b c h k = elim (Bool-cases (ranks_below t b c)) [
    | inl l ↦ absurd (cc (ranks_below_trans t a b c h l))
    | inr l ↦ l
  ]

  replace-Stands_new :
      (d : Dict CandidateFinding) (f : CandidateFinding) (old : Option CandidateFinding)
      → Dict.get d (filed_under t f) ≡ old
      → Stands f (replace_worse t d (filed_under t f) (keyed t f) old)
  unfolding replace_worse
  replace-Stands_new d f none e =
      (keyed t f, Dict.get-put_self d (filed_under t f) (keyed t f), irreflexive (keyed t f))
  replace-Stands_new d f (some old) e = elim (Bool-cases (ranks_below t old (keyed t f))) [
    | inl b ↦
        rw b (keyed t f, Dict.get-put_self d (filed_under t f) (keyed t f), irreflexive (keyed t f))
    | inr b ↦ rw b (old, e, b)
  ]

  put-Stands :
      (d : Dict CandidateFinding) (k : String) (n f : CandidateFinding)
      → Stands f d
      → (k ≡ filed_under t f → ranks_below t n (keyed t f) ≡ false)
      → Stands f (Dict.put d k n)
  put-Stands d k n f (v, g, l) better = elim (Bool-cases (k == filed_under t f)) [
    | inl e ↦ (
      n,
      Dict.get-put d k (filed_under t f) n ∙ rw e refl,
      better ((eq_iff k (filed_under t f)).0 e),
    )
    | inr e ↦ (v, Dict.get-put d k (filed_under t f) n ∙ rw e g, l)
  ]

  replace-Stands :
      (d : Dict CandidateFinding) (k : String) (n f : CandidateFinding)
      (old : Option CandidateFinding)
      → Dict.get d k ≡ old
      → Stands f d
      → Stands f (replace_worse t d k n old)
  unfolding replace_worse
  replace-Stands d k n f none e s = put-Stands d k n f s (λ q. absurd (cc (s.1, ap (Dict.get d) q)))
  replace-Stands d k n f (some old) e s = elim (Bool-cases (ranks_below t old n)) [
    | inl b ↦ rw b (
        put-Stands d k n f s (λ q.
          below-le old n (keyed t f) b
            (subst (λ v. ranks_below t v (keyed t f) ≡ false) (cc (s.1, ap (Dict.get d) q)) s.2)))
    | inr b ↦ rw b s
  ]

  into-Stands :
      (d : Dict CandidateFinding) (f : CandidateFinding) (fs : List CandidateFinding)
      → Stands f d
      → Stands f (dedupe_into t d fs)
  unfolding dedupe_into
  into-Stands d f [] s = s
  into-Stands d f (g ∷ fs) s =
      let k = filed_under t g in
      into-Stands (replace_worse t d k (keyed t g) (Dict.get d k)) f fs
        (replace-Stands d k (keyed t g) f (Dict.get d k) refl s)

  into-AllStand :
      (d : Dict CandidateFinding) (fs : List CandidateFinding)
      → All (λ f. Stands f (dedupe_into t d fs)) fs
  unfolding dedupe_into
  into-AllStand d [] = tt
  into-AllStand d (g ∷ fs) =
      let k = filed_under t g in
      let d' = replace_worse t d k (keyed t g) (Dict.get d k) in
      (into-Stands d' g fs (replace-Stands_new d g (Dict.get d k) refl), into-AllStand d' fs)

  replace-All :
      (P : CandidateFinding → Type 0) (d : Dict CandidateFinding) (k : String)
      (n : CandidateFinding) (old : Option CandidateFinding)
      → All (λ (e : String × CandidateFinding). P e.1) d
      → P n
      → All (λ (e : String × CandidateFinding). P e.1) (replace_worse t d k n old)
  unfolding replace_worse
  replace-All P d k n none h p = put-All (λ (e : String × CandidateFinding). P e.1) d k n p h
  replace-All P d k n (some old) h p = elim (Bool-cases (ranks_below t old n)) [
    | inl b ↦ rw b (put-All (λ (e : String × CandidateFinding). P e.1) d k n p h)
    | inr b ↦ rw b h
  ]

  -- every entry comes from one of the findings
  into-All :
      (P : CandidateFinding → Type 0) (d : Dict CandidateFinding) (fs : List CandidateFinding)
      → All (λ (e : String × CandidateFinding). P e.1) d
      → All (λ f. P (keyed t f)) fs
      → All (λ (e : String × CandidateFinding). P e.1) (dedupe_into t d fs)
  unfolding dedupe_into
  into-All P d [] h k = h
  into-All P d (f ∷ fs) h k =
      let key = filed_under t f in
      into-All P (replace_worse t d key (keyed t f) (Dict.get d key)) fs
        (replace-All P d key (keyed t f) (Dict.get d key) h k.0) k.1

  get-Filed :
      (d : Dict CandidateFinding) (k : String) (v : CandidateFinding)
      → All (IsFiled t) d
      → Dict.get d k ≡ some v
      → v.dedupe_key ≡ some k
  unfolding Dict.get
  get-Filed [] k v h g = cc
  get-Filed ((j, w) ∷ d) k v h g = elim (Bool-cases (j == k)) [
    | inl e ↦ cc (h.0, (eq_iff j k).0 e)
    | inr e ↦ get-Filed d k v h.1 (ground arith)
  ]

  -- the published form of a finding is one that is filed under its key and not below it
  abbrev pub Represents : CandidateFinding → CandidateFinding → Type 0
  Represents f v = (v.dedupe_key ≡ some (filed_under t f)) × (ranks_below t v (keyed t f) ≡ false)

  Stands-Any :
      (d : Dict CandidateFinding) (f : CandidateFinding)
      → All (IsFiled t) d
      → Stands f d
      → Any (Represents f) (values d)
  Stands-Any d f h (v, g, l) =
      get-Any (Represents f) d (filed_under t f) v g (get-Filed d (filed_under t f) v h g, l)

  -- what `_dedupe_findings` promises
  pub record IsDeduped (fs out : List CandidateFinding) : Type 0 where
    pub distinct : Distinct CandidateFinding.dedupe_key out
    pub descending : Descending (ranks_below t) out
    pub drawn : All (λ v. Any (λ f. v ≡ keyed t f) fs) out
    pub represented : All (λ f. Any (Represents f) out) fs

  -- `_dedupe_findings` returns findings with pairwise different keys, none followed by a greater one; each is one of the given findings in normal form, and every given finding has one in the result that is filed under its key and does not rank below it.
  pub dedupe-IsDeduped : (fs : List CandidateFinding) → IsDeduped fs (dedupe_findings t fs)
  unfolding dedupe_findings
  dedupe-IsDeduped fs = record {
    distinct = dedupe-Distinct t fs;
    descending = dedupe-Descending t fs;
    drawn =
        sort-All (ranks_below t) (λ v. Any (λ f. v ≡ keyed t f) fs) (values (dedupe_into t [] fs))
          (values-All (λ v. Any (λ f. v ≡ keyed t f) fs) (dedupe_into t [] fs)
            (into-All (λ v. Any (λ f. v ≡ keyed t f) fs) [] fs tt
              (All-Any_self (λ f g. keyed t f ≡ keyed t g) (λ f. refl) fs)));
    represented =
        All-weaken
          (λ f s.
            sort-Any (ranks_below t) (Represents f) (values (dedupe_into t [] fs))
              (Stands-Any (dedupe_into t [] fs) f (into-Filed t [] fs tt tt).0 s))
          fs (into-AllStand [] fs);
  }
