-- ===== src/Tests/AutoReview.antt =====
-- Findings of agent/scenes/auto_review, with text functions that stand in for the library's.
use open_review.Base.{◌+◌, ◌≡◌, ◌≤◌, refl, false, String, some, none, [], ◌∷◌, arith, length}
use open_review.Base.TextTools.{TextTools}
use open_review.Scenes.AutoReview.Models.{
  CandidateFinding, ChangedFileContext, ReviewContext, ChiefReviewDecision,
}
use open_review.Scenes.AutoReview.Findings.{finding_sort_key}
use open_review.Scenes.AutoReview.Dedupe.{dedupe_findings}
use open_review.Scenes.AutoReview.Dedupe.Best.{IsDeduped, dedupe-IsDeduped}
use open_review.Scenes.AutoReview.Finalize.{finalize_director_decision}
use open_review.Scenes.AutoReview.Finalize.Laws.{
  IsPublishable, finalize-IsPublishable, finalize_bound,
}

-- texts are in normal form, and a text is its own digest
abbrev pub plain : TextTools
plain = record {
  strip = λ s. s;
  lower = λ s. s;
  single_spaces = λ s. s;
  dashes = λ s. s;
  strip_dashes = λ s. s;
  sha256_hex = λ s. s;
}

abbrev finding : String → String → String → CandidateFinding
finding severity confidence key = record {
  source_lane = "security";
  file_path = some "a.py";
  line = some 4;
  symbol = none;
  category = "security";
  severity = severity;
  confidence = confidence;
  summary = "unchecked input";
  details = "";
  evidence = [];
  recommended_fix = none;
  dedupe_key = some key;
}

abbrev low : CandidateFinding
low = finding "low" "high" "k1"

abbrev high : CandidateFinding
high = finding "high" "high" "k1"

abbrev other : CandidateFinding
other = finding "medium" "high" "k2"

abbrev known : CandidateFinding
known = finding "high" "high" "k3"

abbrev changed : ChangedFileContext
changed = record {
  file_path = "a.py";
  old_path = "a.py";
  diff = "";
  new_file = false;
  deleted_file = false;
  renamed_file = false;
  added_lines = 3 ∷ 4 ∷ [];
}

abbrev context : ReviewContext
context = record { changed_files = changed ∷ []; previous_bot_dedupe_keys = "k3" ∷ [] }

abbrev decision : ChiefReviewDecision
decision = record {
  recommendation = none;
  summary = "";
  specialist_reports = [];
  confirmed_findings = low ∷ known ∷ high ∷ [];
  suspicious_findings = high ∷ other ∷ [];
  open_questions = [];
}

dedupe-IsDeduped_example :
    IsDeduped plain (low ∷ other ∷ high ∷ []) (dedupe_findings plain (low ∷ other ∷ high ∷ []))
dedupe-IsDeduped_example = dedupe-IsDeduped plain (low ∷ other ∷ high ∷ [])

greatest_first : dedupe_findings plain (low ∷ other ∷ high ∷ []) ≡ high ∷ other ∷ []
unfolding dedupe_findings finding_sort_key
greatest_first = refl

finalize-IsPublishable_example :
    IsPublishable plain context (finalize_director_decision plain 1 context decision)
finalize-IsPublishable_example = finalize-IsPublishable plain context 1 decision

finalize_bound_example :
    length (finalize_director_decision plain 1 context decision).confirmed_findings
      + length (finalize_director_decision plain 1 context decision).suspicious_findings
    ≤ 1
finalize_bound_example = finalize_bound plain context 1 decision (omega arith)

-- the known finding is dropped, and the confirmed one goes inline
final_review : (finalize_director_decision plain 0 context decision).inline_candidates ≡ high ∷ []
unfolding finalize_director_decision finding_sort_key
final_review = refl
