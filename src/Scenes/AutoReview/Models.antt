-- ===== src/Scenes/AutoReview/Models.antt =====
-- agent/scenes/auto_review/models.py, what the ranking of findings reads. Severities and
-- confidences are texts, since `model_copy` does not validate them.
use open_review.Base.{ℕ, String, Bool, Option, List}

pub record CandidateFinding : Type 0 where
  pub source_lane : String
  pub file_path : Option String
  pub line : Option ℕ
  pub symbol : Option String
  pub category : String
  pub severity : String
  pub confidence : String
  pub summary : String
  pub details : String
  pub evidence : List String
  pub recommended_fix : Option String
  pub dedupe_key : Option String

pub record ChangedFileContext : Type 0 where
  pub file_path : String
  pub old_path : String
  pub diff : String
  pub new_file : Bool
  pub deleted_file : Bool
  pub renamed_file : Bool
  pub added_lines : List ℕ

-- `ReviewContext`, the fields that are read here
pub record ReviewContext : Type 0 where
  pub changed_files : List ChangedFileContext
  pub previous_bot_dedupe_keys : List String

pub record OpenQuestion : Type 0 where
  pub source_lane : Option String
  pub file_path : Option String
  pub line : Option ℕ
  pub summary : String
  pub details : String
  pub evidence : List String

-- `SpecialistReviewReport`, the fields that are read here
pub record SpecialistReviewReport : Type 0 where
  pub lane : String
  pub candidate_findings : List CandidateFinding
  pub open_questions : List String

-- `LaneReviewResult`, the fields that are read here
pub record LaneReviewResult : Type 0 where
  pub lane : String
  pub findings : List CandidateFinding

pub record RankedReview : Type 0 where
  pub recommendation : Option String
  pub summary : String
  pub confirmed_findings : List CandidateFinding
  pub suspicious_findings : List CandidateFinding
  pub open_questions : List OpenQuestion
  pub inline_candidates : List CandidateFinding

pub record ChiefReviewDecision : Type 0 where
  pub recommendation : Option String
  pub summary : String
  pub specialist_reports : List SpecialistReviewReport
  pub confirmed_findings : List CandidateFinding
  pub suspicious_findings : List CandidateFinding
  pub open_questions : List OpenQuestion
