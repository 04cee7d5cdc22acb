-- ===== src/Scenes/AutoReview/Dedupe.antt =====
-- `_dedupe_findings`: one finding for each key, the greatest, in descending order.
use open_review.Base.{
  ℕ, String, Bool, true, false, ◌&&◌, ◌||◌, ◌≡◌, ◌≢◌, ◌⊎◌, inl, inr, refl, sym, Option, none, some,
  List, [], ◌∷◌, ◌==◌, if◌then◌else◌, eqb, All, Any, arith, Bool-cases, Option-cases, eq_iff, map,
}
use open_review.Base.Codes.{codes}
use open_review.Base.Text.{codes_lt, codes_lt_asym, codes_lt_trans}
use open_review.Base.TextTools.{TextTools}
use open_review.Base.Dict
use open_review.Base.Dict.{Dict}
use open_review.Base.Entries.{values, entry_key, put-All, put-Distinct, get-Any}
use open_review.Base.Sorting.{
  Distinct, Descending, sort_desc, sort-All, sort-Any, sort-Distinct, sort-Descending,
}
pub mod Best
use open_review.Scenes.AutoReview.Models.{CandidateFinding}
use open_review.Scenes.AutoReview.Findings.{
  normalize_finding, key_of, finding_sort_key, ranks_below,
}

module _ (t : TextTools) where
  -- the finding in normal form, with its key
  unfoldable pub keyed : CandidateFinding → CandidateFinding
  unfolding normalize_finding key_of
  keyed finding =
      let normalized = normalize_finding t finding in
      record normalized { dedupe_key = some (key_of t normalized) }

  -- the key under which the finding is filed
  unfoldable pub filed_under : CandidateFinding → String
  unfolding normalize_finding key_of
  filed_under finding = key_of t (normalize_finding t finding)

  unfoldable pub replace_worse :
      Dict CandidateFinding
      → String
      → CandidateFinding
      → Option CandidateFinding
      → Dict CandidateFinding
  unfolding codes_lt Dict.put
  replace_worse deduped k normalized none = Dict.put deduped k normalized
  replace_worse deduped k normalized (some existing) =
      if ranks_below t existing normalized then Dict.put deduped k normalized else deduped

  unfoldable pub dedupe_into : Dict CandidateFinding → List CandidateFinding → Dict CandidateFinding
  unfolding replace_worse Dict.get keyed filed_under
  dedupe_into deduped [] = deduped
  dedupe_into deduped (finding ∷ findings) =
      let k = filed_under finding in
      dedupe_into (replace_worse deduped k (keyed finding) (Dict.get deduped k)) findings

  unfoldable pub dedupe_findings : List CandidateFinding → List CandidateFinding
  unfolding dedupe_into values sort_desc codes_lt
  dedupe_findings findings = sort_desc (ranks_below t) (values (dedupe_into [] findings))

  pub ranks_below_asym :
      (a b : CandidateFinding) → ranks_below t a b ≡ true → ranks_below t b a ≡ false
  ranks_below_asym a b h = codes_lt_asym (finding_sort_key t a) (finding_sort_key t b) h

  pub ranks_below_trans :
      (a b c : CandidateFinding)
      → ranks_below t a b ≡ true
      → ranks_below t b c ≡ true
      → ranks_below t a c ≡ true
  ranks_below_trans a b c h k =
      codes_lt_trans (finding_sort_key t a) (finding_sort_key t b) (finding_sort_key t c) h k

  -- every finding stands under its own key
  abbrev pub IsFiled : String × CandidateFinding → Type 0
  IsFiled e = e.1.dedupe_key ≡ some e.0

  replace-Filed :
      (d : Dict CandidateFinding) (f : CandidateFinding) (old : Option CandidateFinding)
      → All IsFiled d
      → All IsFiled (replace_worse d (filed_under f) (keyed f) old)
  unfolding replace_worse keyed filed_under
  replace-Filed d f none h = put-All IsFiled d (filed_under f) (keyed f) refl h
  replace-Filed d f (some e) h = elim (Bool-cases (ranks_below t e (keyed f))) [
    | inl b ↦ rw b (put-All IsFiled d (filed_under f) (keyed f) refl h)
    | inr b ↦ rw b h
  ]

  replace-Distinct :
      (d : Dict CandidateFinding) (k : String) (f : CandidateFinding)
      (old : Option CandidateFinding)
      → Distinct entry_key d
      → Distinct entry_key (replace_worse d k f old)
  unfolding replace_worse
  replace-Distinct d k f none h = put-Distinct d k f h
  replace-Distinct d k f (some e) h = elim (Bool-cases (ranks_below t e f)) [
    | inl b ↦ rw b (put-Distinct d k f h)
    | inr b ↦ rw b h
  ]

  pub into-Filed :
      (d : Dict CandidateFinding) (fs : List CandidateFinding)
      → All IsFiled d
      → Distinct entry_key d
      → All IsFiled (dedupe_into d fs) × Distinct entry_key (dedupe_into d fs)
  unfolding dedupe_into
  into-Filed d [] h n = (h, n)
  into-Filed d (f ∷ fs) h n =
      let k = filed_under f in
      into-Filed (replace_worse d k (keyed f) (Dict.get d k)) fs
        (replace-Filed d f (Dict.get d k) h) (replace-Distinct d k (keyed f) (Dict.get d k) n)

  filed-All :
      (d : Dict CandidateFinding) → All IsFiled d → All (λ f. f.dedupe_key ≢ none) (values d)
  unfolding values
  filed-All [] h = tt
  filed-All (e ∷ d) h = (λ q. cc, filed-All d h.1)

  values-foreign :
      (d : Dict CandidateFinding) (k : String) (f : CandidateFinding)
      → f.dedupe_key ≡ some k
      → All IsFiled d
      → All (λ e. e.0 ≢ k) d
      → All (λ g. g.dedupe_key ≢ f.dedupe_key) (values d)
  unfolding values
  values-foreign [] k f e h n = tt
  values-foreign ((j, g) ∷ d) k f e h n =
      (λ (q : g.dedupe_key ≡ f.dedupe_key). n.0 (cc h.0), values-foreign d k f e h.1 n.1)

  values-Distinct :
      (d : Dict CandidateFinding)
      → All IsFiled d
      → Distinct entry_key d
      → Distinct CandidateFinding.dedupe_key (values d)
  unfolding values
  values-Distinct [] h n = tt
  values-Distinct ((k, f) ∷ d) h n = (values-foreign d k f h.0 h.1 n.0, values-Distinct d h.1 n.1)

  abbrev pub HasKey : CandidateFinding → Type 0
  HasKey f = f.dedupe_key ≢ none

  pub dedupe-HasKey : (fs : List CandidateFinding) → All HasKey (dedupe_findings fs)
  unfolding dedupe_findings
  dedupe-HasKey fs =
      sort-All (ranks_below t) HasKey (values (dedupe_into [] fs))
        (filed-All (dedupe_into [] fs) (into-Filed [] fs tt tt).0)

  pub dedupe-Distinct :
      (fs : List CandidateFinding) → Distinct CandidateFinding.dedupe_key (dedupe_findings fs)
  unfolding dedupe_findings
  dedupe-Distinct fs =
      let filed = into-Filed [] fs tt tt in
      sort-Distinct (ranks_below t) CandidateFinding.dedupe_key (values (dedupe_into [] fs))
        (values-Distinct (dedupe_into [] fs) filed.0 filed.1)

  pub dedupe-Descending :
      (fs : List CandidateFinding) → Descending (ranks_below t) (dedupe_findings fs)
  unfolding dedupe_findings
  dedupe-Descending fs =
      sort-Descending (ranks_below t) ranks_below_asym (values (dedupe_into [] fs))
