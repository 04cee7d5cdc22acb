-- ===== src/Scenes/AutoReview/Finalize/Fits.antt =====
-- Where an inline comment of a finding may stand, said of the finding and the changed files.
use mathlib.Core.Path.{subst}
use open_review.Base.{
  ℕ, String, true, false, ◌&&◌, ◌≡◌, refl, ◌⊎◌, inl, inr, Option, none, some, List, [], ◌∷◌, ◌==◌,
  ◌||◌, eqb, leb, is_empty, Any, Bool-cases, eq_iff, arith,
}
use open_review.Scenes.AutoReview.Models.{CandidateFinding, ChangedFileContext, ReviewContext}
use open_review.Scenes.AutoReview.Findings.{rank, or_empty}
use open_review.Scenes.AutoReview.Finalize.{
  or_this, last_with_path, has_line, reliable_at, reliable_on, is_reliable_inline_candidate,
}

-- the path is that of a changed file, which has the line among its added lines, or has no added
-- lines listed at all
abbrev pub FitsFile : String → ℕ → ChangedFileContext → Type 0
FitsFile path line changed =
    (changed.file_path ≡ path)
    × ((changed.added_lines ≡ []) ⊎ Any (λ n. n ≡ line) changed.added_lines)

abbrev pub FitsDiff : ReviewContext → CandidateFinding → Type 0
FitsDiff context finding =
    (path : String) × (line : ℕ) × (finding.file_path ≡ some path)
    × (finding.line ≡ some line)
    × (finding.confidence ≡ "high")
    × Any (FitsFile path line) context.changed_files

rank-high : (s : String) → leb 3 (rank s) ≡ true → s ≡ "high"
unfolding rank
rank-high s h = elim (Bool-cases (s == "high")) [
  | inl p ↦ (eq_iff s "high").0 p
  | inr p ↦ absurd (ground arith)
]

has_line-Any : (ns : List ℕ) (line : ℕ) → has_line ns line ≡ true → Any (λ n. n ≡ line) ns
has_line-Any [] line h = cc
has_line-Any (n ∷ ns) line h = elim (Bool-cases (eqb n line)) [
  | inl p ↦ inl (ground arith)
  | inr p ↦ inr (has_line-Any ns line (ground arith))
]

added_or :
    (ns : List ℕ) (line : ℕ)
    → (is_empty ns || has_line ns line) ≡ true
    → (ns ≡ []) ⊎ Any (λ n. n ≡ line) ns
added_or [] line h = inl refl
added_or (n ∷ ns) line h = inr (has_line-Any (n ∷ ns) line h)

abbrev Placed : CandidateFinding → ℕ → String → List ChangedFileContext → Type 0
Placed finding line path files = (finding.confidence ≡ "high") × Any (FitsFile path line) files

later-Placed :
    (finding : CandidateFinding) (line : ℕ) (path : String) (item : ChangedFileContext)
    (items : List ChangedFileContext) (later : Option ChangedFileContext)
    → (reliable_at finding line later ≡ true → Placed finding line path items)
    → reliable_at finding line (or_this item path later) ≡ true
    → Placed finding line path (item ∷ items)
unfolding reliable_at
later-Placed finding line path item items (some l) below h =
    let found = below h in (found.0, inr found.1)
later-Placed finding line path item items none below h =
    elim (Bool-cases (item.file_path == path)) [
      | inl p ↦
          let here : (leb 3 (rank finding.confidence)
                && (is_empty item.added_lines || has_line item.added_lines line))
              ≡ true =
            rw p at h in
          (
            rank-high finding.confidence (ground arith),
            inl ((eq_iff item.file_path path).0 p, added_or item.added_lines line (ground arith)),
          )
      | inr p ↦
          let none_here : reliable_at finding line none ≡ true = rw p at h in absurd (ground arith)
    ]

fits_at :
    (finding : CandidateFinding) (line : ℕ) (path : String) (files : List ChangedFileContext)
    → reliable_at finding line (last_with_path files path) ≡ true
    → Placed finding line path files
unfolding last_with_path reliable_at
fits_at finding line path [] h = absurd (ground arith)
fits_at finding line path (item ∷ items) h =
    later-Placed finding line path item items (last_with_path items path)
      (fits_at finding line path items) h

fits_parts :
    (context : ReviewContext) (finding : CandidateFinding) (fp : Option String) (ln : Option ℕ)
    → finding.file_path ≡ fp
    → finding.line ≡ ln
    → (or_empty fp == "") ≡ false
    → reliable_on context finding ln ≡ true
    → FitsDiff context finding
unfolding reliable_on
fits_parts context finding none ln p q named h = absurd (ground arith)
fits_parts context finding (some path) none p q named h = absurd (ground arith)
fits_parts context finding (some path) (some line) p q named h =
    let at_path =
      subst
        (λ x. reliable_at finding line (last_with_path context.changed_files (or_empty x)) ≡ true) p
        h in
    let placed = fits_at finding line path context.changed_files at_path in
    (path, line, p, q, placed.0, placed.1)

pub reliable-FitsDiff :
    (context : ReviewContext) (finding : CandidateFinding)
    → is_reliable_inline_candidate context finding ≡ true
    → FitsDiff context finding
unfolding is_reliable_inline_candidate
reliable-FitsDiff context finding h = elim (Bool-cases (or_empty finding.file_path == "")) [
  | inl p ↦ let refused = rw p at h in absurd (ground arith)
  | inr p ↦ fits_parts context finding finding.file_path finding.line refl refl p (rw p at h)
]
