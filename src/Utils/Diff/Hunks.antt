-- ===== src/Utils/Diff/Hunks.antt =====
-- `parse_diff_hunks`: the hunks of a diff, each with the text behind its heading.
use open_review.Base.{
  ℕ, ◌-◌, Bool, true, Option, none, some, List, [], ◌∷◌, String, length, drop, eqb, if◌then◌else◌,
}
use open_review.Base.Codes.{Codes}
use open_review.Utils.Diff.{DiffHunk, Header, match_header}

-- A scan of the text, by its characters: the text in front of the first heading, and the hunks.
-- A heading is looked for where `at_start`, that is, behind a line feed; what follows its match
-- up to the next one is its content.
abbrev at_char :
    String → ℕ → Codes → Codes × List DiffHunk → Option (Header × Codes) → Codes × List DiffHunk
at_char file_path c s later none = (c ∷ later.0, later.1)
at_char file_path c s later (some (h, rest)) = (
  [],
  record { file_path = file_path; header = h; content = drop (length s - length rest) later.0 }
      ∷ later.1,
)

unfoldable pub hunks_from : String → Bool → Codes → Codes × List DiffHunk
unfolding match_header
hunks_from file_path at_start [] = ([], [])
hunks_from file_path at_start (c ∷ s) =
    let later = hunks_from file_path (eqb c 10) s in
    at_char file_path c s later (if at_start then match_header (c ∷ s) else none)

unfoldable pub parse_diff_hunks : Codes → String → List DiffHunk
unfolding hunks_from
parse_diff_hunks diff_text file_path = (hunks_from file_path true diff_text).1
