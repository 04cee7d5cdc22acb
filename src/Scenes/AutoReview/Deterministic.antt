-- ===== src/Scenes/AutoReview/Deterministic.antt =====
-- agent/scenes/auto_review/orchestrator.py: the decisions that are made without a model, from the
-- reports of the lanes and specialists.
use open_review.Base.{
  ℕ, String, Option, none, some, List, [], ◌∷◌, ◌++◌, ◌==◌, leb, length, is_empty, if◌then◌else◌,
}
use open_review.Base.TextTools.{TextTools}
use open_review.Scenes.AutoReview.Models.{
  CandidateFinding, OpenQuestion, SpecialistReviewReport, LaneReviewResult, RankedReview,
  ChiefReviewDecision,
}
use open_review.Scenes.AutoReview.Findings.{rank, normalize_finding}
use open_review.Scenes.AutoReview.Dedupe.{dedupe_findings}
use open_review.Scenes.AutoReview.Finalize.{
  Halves, cut_findings, resolve_review_recommendation, max_published_findings,
  dedupe_open_questions,
}

module _ (t : TextTools) where
  -- the findings of high confidence, and the others
  abbrev sort_in : CandidateFinding → Halves → Halves
  unfolding rank
  sort_in normalized (confirmed, suspicious) =
      if leb 3 (rank normalized.confidence)
      then (normalized ∷ confirmed, suspicious)
      else (confirmed, normalized ∷ suspicious)

  unfoldable pub split_findings : List CandidateFinding → Halves
  unfolding normalize_finding rank
  split_findings [] = ([], [])
  split_findings (finding ∷ findings) =
      sort_in (normalize_finding t finding) (split_findings findings)

  unfoldable pub deterministic_rank_findings : List CandidateFinding → Option ℕ → RankedReview
  unfolding split_findings cut_findings resolve_review_recommendation
  deterministic_rank_findings findings max_findings =
      let (all_confirmed, all_suspicious) = split_findings findings in
      let (confirmed, suspicious) = cut_findings max_findings all_confirmed all_suspicious in
      record {
        recommendation = some (resolve_review_recommendation none confirmed);
        summary = if is_empty confirmed then "未发现明确问题，以下报告以可疑点和开放问题为主。" else "已完成问题整理，请优先关注已确认问题。";
        confirmed_findings = confirmed;
        suspicious_findings = suspicious;
        open_questions = [];
        inline_candidates = [];
      }

  unfoldable pub deterministic_chief_review : List CandidateFinding → Option ℕ → ChiefReviewDecision
  unfolding deterministic_rank_findings
  deterministic_chief_review findings max_findings =
      let ranked = deterministic_rank_findings findings max_findings in
      record {
        recommendation = none;
        summary = ranked.summary;
        specialist_reports = [];
        confirmed_findings = ranked.confirmed_findings;
        suspicious_findings = ranked.suspicious_findings;
        open_questions = ranked.open_questions;
      }

  abbrev lane_findings : List LaneReviewResult → List CandidateFinding
  lane_findings [] = []
  lane_findings (lane ∷ lanes) = lane.findings ++ lane_findings lanes

  -- `_run_chief_review`, less its tracing span
  unfoldable pub run_chief_review : ℕ → List LaneReviewResult → ChiefReviewDecision
  unfolding deterministic_chief_review max_published_findings
  run_chief_review configured lane_results =
      let findings = lane_findings lane_results in
      deterministic_chief_review findings
        (max_published_findings configured (some (length findings)))

  abbrev report_findings : List SpecialistReviewReport → List CandidateFinding
  report_findings [] = []
  report_findings (report ∷ reports) = report.candidate_findings ++ report_findings reports

  abbrev questions_of : String → List String → List OpenQuestion
  questions_of lane [] = []
  questions_of lane (item ∷ items) =
      let rest = questions_of lane items in
      if t.strip item == ""
      then rest
      else record {
        source_lane = some lane;
        file_path = none;
        line = none;
        summary = item;
        details = "";
        evidence = [];
      }
        ∷ rest

  abbrev report_questions : List SpecialistReviewReport → List OpenQuestion
  report_questions [] = []
  report_questions (report ∷ reports) =
      questions_of report.lane report.open_questions ++ report_questions reports

  unfoldable pub deterministic_director_decision : List SpecialistReviewReport → ChiefReviewDecision
  unfolding split_findings dedupe_findings dedupe_open_questions resolve_review_recommendation
  deterministic_director_decision specialist_reports =
      let (confirmed, suspicious) = split_findings (report_findings specialist_reports) in
      record {
        recommendation = some (resolve_review_recommendation none confirmed);
        summary = "已完成跨 specialist 的调查汇总。";
        specialist_reports = specialist_reports;
        confirmed_findings = dedupe_findings t confirmed;
        suspicious_findings = dedupe_findings t suspicious;
        open_questions = dedupe_open_questions t (report_questions specialist_reports);
      }
