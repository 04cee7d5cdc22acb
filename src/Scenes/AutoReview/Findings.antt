-- ===== src/Scenes/AutoReview/Findings.antt =====
-- agent/scenes/auto_review/orchestrator.py: the normal form of a finding, its key and its rank.
use open_review.Base.{
  ℕ, String, Bool, ◌||◌, Option, none, some, List, [], ◌∷◌, ◌==◌, ltb, take, if◌then◌else◌,
}
use open_review.Base.Codes.{Codes, codes}
use open_review.Base.Text.{prefix, join, codes_lt}
use open_review.Base.TextTools.{TextTools}
use open_review.Runtime.Models.{show}
use open_review.Scenes.AutoReview.Models.{CandidateFinding}

-- `_SEVERITY_RANK.get(s, 0)` and `_CONFIDENCE_RANK.get(s, 0)`: the tables are the same
unfoldable pub rank : String → ℕ
rank s = if s == "high" then 3 else if s == "medium" then 2 else if s == "low" then 1 else 0

abbrev is_ranked : String → Bool
unfolding rank
is_ranked s = ltb 0 (rank s)

-- `value or other`, `value or ""` on texts that may be missing
abbrev pub text_or : String → String → String
text_or s other = if s == "" then other else s

abbrev pub or_empty : Option String → String
or_empty none = ""
or_empty (some s) = s

abbrev number_or_zero : Option ℕ → ℕ
number_or_zero none = 0
number_or_zero (some n) = n

-- `f(value) if value else None`
abbrev if_given : (String → String) → Option String → Option String
if_given f none = none
if_given f (some s) = if s == "" then none else some (f s)

abbrev positive_line : Option ℕ → Option ℕ
positive_line none = none
positive_line (some n) = if ltb 0 n then some n else none

module _ (t : TextTools) where
  unfoldable pub normalize_text : String → String
  normalize_text text = t.single_spaces (t.strip text)

  unfoldable pub normalize_slug : String → String
  normalize_slug text = t.strip_dashes (t.dashes (t.lower text))

  -- `_severity_value` and `_confidence_value`
  unfoldable pub level_value : String → String
  unfolding rank
  level_value value =
      let normalized = t.lower (t.strip (text_or value "medium")) in
      if is_ranked normalized then normalized else "medium"

  unfoldable pub derive_dedupe_key : CandidateFinding → String
  unfolding normalize_slug prefix join show
  derive_dedupe_key finding =
      let basis : String = join "|" (
        or_empty finding.file_path
        ∷ show (number_or_zero finding.line)
        ∷ or_empty finding.symbol
        ∷ normalize_slug (text_or (text_or finding.category finding.source_lane) "general")
        ∷ prefix 96 (normalize_slug finding.summary)
        ∷ []) in
      prefix 16 (t.sha256_hex basis)

  -- `[_normalize_text(item) for item in evidence if item and item.strip()]`
  unfoldable clean_evidence : List String → List String
  unfolding normalize_text
  clean_evidence [] = []
  clean_evidence (item ∷ items) =
      let rest = clean_evidence items in
      if item == "" || t.strip item == "" then rest else normalize_text item ∷ rest

  -- the fields of the copy
  unfoldable normalize_fields : CandidateFinding → CandidateFinding
  unfolding clean_evidence level_value normalize_slug normalize_text
  normalize_fields finding = record finding {
    source_lane = t.strip finding.source_lane;
    file_path = if_given t.strip finding.file_path;
    line = positive_line finding.line;
    symbol = if_given t.strip finding.symbol;
    category = normalize_slug (text_or (text_or finding.category finding.source_lane) "general");
    severity = level_value finding.severity;
    confidence = level_value finding.confidence;
    summary = normalize_text finding.summary;
    details = normalize_text finding.details;
    recommended_fix = if_given normalize_text finding.recommended_fix;
    evidence = take 5 (clean_evidence finding.evidence);
  }

  -- `finding.dedupe_key or _derive_dedupe_key(finding)`
  unfoldable pub key_of : CandidateFinding → String
  unfolding derive_dedupe_key
  key_of finding =
      if or_empty finding.dedupe_key == ""
      then derive_dedupe_key finding
      else or_empty finding.dedupe_key

  abbrev with_key : CandidateFinding → CandidateFinding
  unfolding derive_dedupe_key
  with_key normalized =
      if or_empty normalized.dedupe_key == ""
      then record normalized { dedupe_key = some (derive_dedupe_key normalized) }
      else normalized

  unfoldable pub normalize_finding : CandidateFinding → CandidateFinding
  unfolding normalize_fields derive_dedupe_key
  normalize_finding finding = with_key (normalize_fields finding)

  -- `_finding_sort_key`: tuples of two numbers and a text are compared as their sequence is
  unfoldable pub finding_sort_key : CandidateFinding → Codes
  unfolding rank
  finding_sort_key finding =
      rank finding.severity ∷ rank finding.confidence ∷ codes (t.lower finding.summary)

  abbrev pub ranks_below : CandidateFinding → CandidateFinding → Bool
  ranks_below a b = codes_lt (finding_sort_key a) (finding_sort_key b)
