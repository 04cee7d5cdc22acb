-- ===== src/Scenes/AutoReview/Finalize.antt =====
-- agent/scenes/auto_review/orchestrator.py: from the candidate findings to the review that is
-- published. `configured` is the setting AUTO_REVIEW_MAX_PUBLISHED_FINDINGS, 0 where it is negative
-- or missing.
use open_review.Base.{
  ℕ, ◌-◌, String, Bool, true, false, not, ◌&&◌, ◌||◌, Option, none, some, List, [], ◌∷◌, ◌++◌, ◌==◌,
  leb, ltb, eqb, ◌+◌, length, take, map, filter, is_empty, if◌then◌else◌,
}
pub mod Fits
pub mod Laws
use open_review.Base.StrSet.{has}
use open_review.Base.TextTools.{TextTools}
use open_review.Runtime.Batch.{same_text}
use open_review.Scenes.AutoReview.Models.{
  CandidateFinding, ChangedFileContext, ReviewContext, OpenQuestion, SpecialistReviewReport,
  LaneReviewResult, RankedReview, ChiefReviewDecision,
}
use open_review.Scenes.AutoReview.Findings.{
  rank, key_of, normalize_text, normalize_finding, text_or, or_empty,
}
use open_review.Scenes.AutoReview.Dedupe.{dedupe_findings}

unfoldable pub max_published_findings : ℕ → Option ℕ → Option ℕ
max_published_findings configured none = if eqb configured 0 then none else some configured
max_published_findings configured (some count) =
    if eqb configured 0
    then some count
    else some (if leb configured count then configured else count)

-- `{item.file_path: item for item in changed_files}.get(path)`: the last one counts
abbrev or_this : ChangedFileContext → String → Option ChangedFileContext → Option ChangedFileContext
or_this item path (some later) = some later
or_this item path none = if item.file_path == path then some item else none

unfoldable last_with_path : List ChangedFileContext → String → Option ChangedFileContext
last_with_path [] path = none
last_with_path (item ∷ items) path = or_this item path (last_with_path items path)

abbrev has_line : List ℕ → ℕ → Bool
has_line [] line = false
has_line (n ∷ ns) line = eqb n line || has_line ns line

abbrev reliable_at : CandidateFinding → ℕ → Option ChangedFileContext → Bool
unfolding rank
reliable_at finding line none = false
reliable_at finding line (some changed) =
    leb 3 (rank finding.confidence)
    && (is_empty changed.added_lines || has_line changed.added_lines line)

abbrev reliable_on : ReviewContext → CandidateFinding → Option ℕ → Bool
unfolding rank last_with_path
reliable_on context finding none = false
reliable_on context finding (some line) =
    reliable_at finding line (last_with_path context.changed_files (or_empty finding.file_path))

unfoldable pub is_reliable_inline_candidate : ReviewContext → CandidateFinding → Bool
unfolding rank last_with_path
is_reliable_inline_candidate context finding =
    if or_empty finding.file_path == "" then false else reliable_on context finding finding.line

unfoldable pub resolve_review_recommendation : Option String → List CandidateFinding → String
resolve_review_recommendation recommendation confirmed =
    if or_empty recommendation == ""
    then if is_empty confirmed then "建议合并" else "建议重新修改"
    else or_empty recommendation

-- the two halves of a review
abbrev pub Halves : Type 0
Halves = List CandidateFinding × List CandidateFinding

-- `confirmed[:max_findings]`, and as many suspicious ones as are then left
unfoldable pub cut_findings : Option ℕ → List CandidateFinding → List CandidateFinding → Halves
cut_findings none confirmed suspicious = (confirmed, suspicious)
cut_findings (some m) confirmed suspicious =
    (take m confirmed, take (m - length (take m confirmed)) suspicious)

unfoldable finalize_report_summary : (t : TextTools) → String → String
finalize_report_summary t summary = text_or (t.strip summary) "已完成问题整理，请优先关注已确认问题。"

module _ (t : TextTools) where
  -- the keys of dictionary entries of `_dedupe_open_questions`, compared
  abbrev pub same_question : OpenQuestion → OpenQuestion → Bool
  unfolding normalize_text
  same_question a b =
      same_text a.source_lane b.source_lane
      && normalize_text t a.summary == normalize_text t b.summary
      && normalize_text t a.details == normalize_text t b.details

  -- The dictionary holds each question under a key that can be read off it: its values are enough.
  unfoldable pub file_question : OpenQuestion → List OpenQuestion → List OpenQuestion
  unfolding normalize_text
  file_question item [] = item ∷ []
  file_question item (existing ∷ rest) =
      if same_question existing item
      then (if ltb (length existing.evidence) (length item.evidence) then item else existing) ∷ rest
      else existing ∷ file_question item rest

  unfoldable file_questions : List OpenQuestion → List OpenQuestion → List OpenQuestion
  unfolding file_question
  file_questions deduped [] = deduped
  file_questions deduped (item ∷ items) = file_questions (file_question item deduped) items

  unfoldable pub dedupe_open_questions : List OpenQuestion → List OpenQuestion
  unfolding file_questions
  dedupe_open_questions items = file_questions [] items

  -- `(item.dedupe_key or _derive_dedupe_key(item)) not in keys`
  abbrev pub is_fresh : List String → CandidateFinding → Bool
  is_fresh keys item = not (has keys (key_of t item))

  unfoldable pub fresh_confirmed : ReviewContext → List CandidateFinding → List CandidateFinding
  unfolding dedupe_findings has key_of filter
  fresh_confirmed context confirmed =
      filter (is_fresh context.previous_bot_dedupe_keys) (dedupe_findings t confirmed)

  unfoldable pub fresh_suspicious :
      ReviewContext → List CandidateFinding → List CandidateFinding → List CandidateFinding
  unfolding dedupe_findings has key_of filter
  fresh_suspicious context confirmed suspicious =
      filter
        (λ item.
          is_fresh (map (key_of t) confirmed) item
          && is_fresh context.previous_bot_dedupe_keys item)
        (dedupe_findings t suspicious)

  unfoldable pub finish_review :
      ReviewContext → Option String → String → Halves → List OpenQuestion → RankedReview
  unfolding resolve_review_recommendation finalize_report_summary dedupe_open_questions filter
      is_reliable_inline_candidate
  finish_review context recommendation summary (confirmed, suspicious) questions = record {
    recommendation = some (resolve_review_recommendation recommendation confirmed);
    summary = finalize_report_summary t summary;
    confirmed_findings = confirmed;
    suspicious_findings = suspicious;
    open_questions = questions;
    inline_candidates = filter (is_reliable_inline_candidate context) confirmed;
  }

  unfoldable pub finalize_ranked_review : ℕ → ReviewContext → RankedReview → RankedReview
  unfolding fresh_confirmed fresh_suspicious cut_findings max_published_findings finish_review
      dedupe_open_questions
  finalize_ranked_review configured context ranked =
      let confirmed = fresh_confirmed context ranked.confirmed_findings in
      let suspicious = fresh_suspicious context confirmed ranked.suspicious_findings in
      let questions = dedupe_open_questions ranked.open_questions in
      let limit = max_published_findings configured (some (length confirmed + length suspicious)) in
      finish_review context ranked.recommendation ranked.summary
        (cut_findings limit confirmed suspicious) questions

  unfoldable pub finalize_director_decision : ℕ → ReviewContext → ChiefReviewDecision → RankedReview
  unfolding fresh_confirmed fresh_suspicious cut_findings max_published_findings finish_review
      dedupe_open_questions
  finalize_director_decision configured context decision =
      let confirmed = fresh_confirmed context decision.confirmed_findings in
      let suspicious = fresh_suspicious context confirmed decision.suspicious_findings in
      let questions = dedupe_open_questions decision.open_questions in
      let limit = max_published_findings configured (some (length confirmed + length suspicious)) in
      finish_review context decision.recommendation decision.summary
        (cut_findings limit confirmed suspicious) questions

  unfoldable pub finalize_chief_review : ℕ → ReviewContext → ChiefReviewDecision → RankedReview
  unfolding finalize_ranked_review
  finalize_chief_review configured context decision =
      finalize_ranked_review configured context (record {
        recommendation = decision.recommendation;
        summary = decision.summary;
        confirmed_findings = decision.confirmed_findings;
        suspicious_findings = decision.suspicious_findings;
        open_questions = decision.open_questions;
        inline_candidates = [];
      })
