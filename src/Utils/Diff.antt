-- ===== src/Utils/Diff.antt =====
-- agent/utils/diff_parser.py: hunks and line numbers of a unified diff. Texts are lists of code
-- points; the digits of `\d` are the ASCII ones.
use open_review.Base.{
  ℕ, ◌+◌, ◌-◌, Bool, true, false, not, ◌&&◌, ◌||◌, Option, none, some, List, [], ◌∷◌, ◌++◌, String,
  length, drop, eqb, if◌then◌else◌, is_some,
}
use open_review.Base.Options.{◌>>=◌}
use open_review.Base.Codes.{Codes, codes, strip_prefix, starts_with, number, splitlines}
pub mod Reference
pub mod Added
pub mod Resolve
pub mod Hunks

-- the groups of a match of `_HUNK_RE`, a missing count read as 1
pub record Header : Type 0 where
  pub old_start : ℕ
  pub old_count : ℕ
  pub new_start : ℕ
  pub new_count : ℕ

pub record DiffHunk : Type 0 where
  pub file_path : String
  pub header : Header
  pub content : Codes

pub data Kind : Type 0 where
  addition deletion context : Kind

pub record DiffLinePosition : Type 0 where
  pub kind : Kind
  pub old_line : Option ℕ
  pub new_line : Option ℕ
  pub content : Codes

abbrev given_count : Codes → Option (ℕ × Codes) → ℕ × Codes
given_count s none = (1, s)
given_count s (some r) = r

-- `(?:,(\d+))?`
unfoldable optional_count : Codes → ℕ × Codes
unfolding strip_prefix number
optional_count s = given_count s (do digits ← strip_prefix (b',' ∷ []) s; number digits)

-- `_HUNK_RE.match`: the groups, and the text behind the match
unfoldable pub match_header : Codes → Option (Header × Codes)
unfolding strip_prefix number optional_count
match_header s = do
  a ← strip_prefix (codes "@@ -") s
  (old, b) ← number a
  let (olds, c) = optional_count b
  d ← strip_prefix (codes " +") c
  (new, e) ← number d
  let (news, f) = optional_count e
  g ← strip_prefix (codes " @@") f
  some (record { old_start = old; old_count = olds; new_start = new; new_count = news }, g)

-- `line.startswith("+") and not line.startswith("+++")`, and the same with "-"
unfoldable pub marked : ℕ → Codes → Bool
unfolding starts_with
marked sign line = starts_with (sign ∷ []) line && not (starts_with (sign ∷ sign ∷ sign ∷ []) line)

abbrev no_newline : Codes
no_newline = codes "\\ No newline at end of file"

-- the numbers that the next line of either file gets, and whether a hunk has begun
pub record Counter : Type 0 where
  pub old_line : ℕ
  pub new_line : ℕ
  pub in_hunk : Bool

-- one round of the loop of `diff_line_positions`
abbrev step_header : Counter → Option (Header × Codes) → Option Counter
step_header c none = none
step_header c (some (h, rest)) =
    some (record { old_line = h.old_start; new_line = h.new_start; in_hunk = true })

unfoldable line_step : Codes → Counter → Counter × List DiffLinePosition
unfolding marked starts_with
line_step line c =
    if not c.in_hunk || starts_with no_newline line
    then (c, [])
    else if marked b'+' line
    then (
      record c { new_line = c.new_line + 1 },
      record { kind = addition; old_line = none; new_line = some c.new_line; content = drop 1 line }
          ∷ [],
    )
    else if marked b'-' line
    then (
      record c { old_line = c.old_line + 1 },
      record { kind = deletion; old_line = some c.old_line; new_line = none; content = drop 1 line }
          ∷ [],
    )
    else if starts_with (b' ' ∷ []) line
    then (
      record c { old_line = c.old_line + 1; new_line = c.new_line + 1 },
      record {
        kind = context;
        old_line = some c.old_line;
        new_line = some c.new_line;
        content = drop 1 line;
      }
          ∷ [],
    )
    else (c, [])

abbrev round : Codes → Counter → Option Counter → Counter × List DiffLinePosition
round line c (some c') = (c', [])
round line c none = line_step line c

unfoldable pub positions_from : Counter → List Codes → List DiffLinePosition
unfolding match_header line_step
positions_from c [] = []
positions_from c (line ∷ lines) =
    let r = round line c (step_header c (match_header line)) in r.1 ++ positions_from r.0 lines

unfoldable pub diff_line_positions : Codes → List DiffLinePosition
unfolding positions_from splitlines
diff_line_positions diff_text =
    positions_from (record { old_line = 0; new_line = 0; in_hunk = false }) (splitlines diff_text)

-- the loop of `added_lines`
abbrev added_at : ℕ → Codes → Option (Header × Codes) → ℕ × List (ℕ × Codes)
unfolding marked
added_at n line (some (h, rest)) = (h.new_start, [])
added_at n line none =
    if marked b'+' line
    then (n + 1, (n, drop 1 line) ∷ [])
    else if marked b'-' line
    then (n, [])
    else (n + 1, [])

unfoldable pub added_from : ℕ → List Codes → List (ℕ × Codes)
unfolding match_header marked
added_from n [] = []
added_from n (line ∷ lines) =
    let r = added_at n line (match_header line) in r.1 ++ added_from r.0 lines

unfoldable pub added_lines : Codes → List (ℕ × Codes)
unfolding added_from splitlines
added_lines diff_text = added_from 0 (splitlines diff_text)
