-- ===== src/Utils/Diff/Reference.antt =====
-- What `diff_line_positions` and `added_lines` find in a diff that is put together from hunks of
-- marked lines.
use open_review.Base.{
  ℕ, ◌+◌, ◌≡◌, refl, ◌∙◌, true, false, Option, none, some, List, [], ◌∷◌, ◌++◌, All, arith,
}
use open_review.Base.Codes.{
  Codes, starts_with, strip_prefix, unlines, all_unbroken, splitlines-unlines,
}
use open_review.Utils.Diff.{
  Header, DiffLinePosition, addition, deletion, context, Counter, match_header, no_newline,
  positions_from, diff_line_positions,
}

-- a line of a hunk, without its mark
pub data BodyLine : Type 0 where
  added removed kept : Codes → BodyLine
  -- the notice that the file ends without a line feed
  unended : BodyLine

pub record PlainHunk : Type 0 where
  pub heading : Codes
  pub old_start : ℕ
  pub new_start : ℕ
  pub body : List BodyLine

abbrev pub print_line : BodyLine → Codes
print_line (added t) = b'+' ∷ t
print_line (removed t) = b'-' ∷ t
print_line (kept t) = b' ' ∷ t
print_line unended = no_newline

abbrev pub print_body : List BodyLine → List Codes
print_body [] = []
print_body (l ∷ ls) = print_line l ∷ print_body ls

abbrev pub print_hunks : List PlainHunk → List Codes
print_hunks [] = []
print_hunks (h ∷ hs) = h.heading ∷ print_body h.body ++ print_hunks hs

-- the marks do not run on into the text: a line "+++i" or "---i" would not count
abbrev pub Unambiguous : BodyLine → Type 0
Unambiguous (added t) = starts_with (b'+' ∷ b'+' ∷ []) t ≡ false
Unambiguous (removed t) = starts_with (b'-' ∷ b'-' ∷ []) t ≡ false
Unambiguous (kept t) = Unit
Unambiguous unended = Unit

abbrev starts : Option (Header × Codes) → Option (ℕ × ℕ)
starts none = none
starts (some (h, rest)) = some (h.old_start, h.new_start)

-- the heading announces the numbers of the hunk
pub record IsPlain (h : PlainHunk) : Type 0 where
  pub announced : starts (match_header h.heading) ≡ some (h.old_start, h.new_start)
  pub unambiguous : All Unambiguous h.body

-- the numbering: each file counts its own lines
abbrev pub number_body : ℕ → ℕ → List BodyLine → List DiffLinePosition
number_body o n [] = []
number_body o n (added t ∷ ls) =
    record { kind = addition; old_line = none; new_line = some n; content = t }
    ∷ number_body o (n + 1) ls
number_body o n (removed t ∷ ls) =
    record { kind = deletion; old_line = some o; new_line = none; content = t }
    ∷ number_body (o + 1) n ls
number_body o n (kept t ∷ ls) =
    record { kind = context; old_line = some o; new_line = some n; content = t }
    ∷ number_body (o + 1) (n + 1) ls
number_body o n (unended ∷ ls) = number_body o n ls

abbrev pub number_hunks : List PlainHunk → List DiffLinePosition
number_hunks [] = []
number_hunks (h ∷ hs) = number_body h.old_start h.new_start h.body ++ number_hunks hs

-- a body line is not taken for a heading
body_line_lem : (l : BodyLine) → match_header (print_line l) ≡ none
unfolding match_header strip_prefix
body_line_lem (added t) = refl
body_line_lem (removed t) = refl
body_line_lem (kept t) = refl
body_line_lem unended = refl

-- whether a mark runs on is seen behind it
pub run_on_lem :
    (sign : ℕ) (t : Codes)
    → starts_with (sign ∷ sign ∷ sign ∷ []) (sign ∷ t) ≡ starts_with (sign ∷ sign ∷ []) t
unfolding starts_with strip_prefix
run_on_lem sign t = ground arith

module _ (rest : List Codes) (found : List DiffLinePosition)
    (goes_on : (c : Counter) → positions_from c rest ≡ found) where
  positions-body :
      (o n : ℕ) (ls : List BodyLine)
      → All Unambiguous ls
      → positions_from
          (record { old_line = o; new_line = n; in_hunk = true })
          (print_body ls ++ rest)
        ≡ number_body o n ls ++ found
  unfolding positions_from
  positions-body o n [] u = goes_on (record { old_line = o; new_line = n; in_hunk = true })
  positions-body o n (added t ∷ ls) u =
      ground (arith, run_on_lem b'+' t, positions-body o (n + 1) ls)
  positions-body o n (removed t ∷ ls) u =
      ground (arith, run_on_lem b'-' t, positions-body (o + 1) n ls)
  positions-body o n (kept t ∷ ls) u = ground (arith, positions-body (o + 1) (n + 1) ls)
  positions-body o n (unended ∷ ls) u = positions-body o n ls u.1

-- a heading sets both counters
heading_lem :
    (h : PlainHunk) (c : Counter) (lines : List Codes)
    → IsPlain h
    → positions_from c (h.heading ∷ lines)
      ≡ positions_from
          (record { old_line = h.old_start; new_line = h.new_start; in_hunk = true })
          lines
unfolding positions_from
heading_lem h c lines p = ground (arith, p.announced)

positions-hunks :
    (c : Counter) (hs : List PlainHunk)
    → All IsPlain hs
    → positions_from c (print_hunks hs) ≡ number_hunks hs
unfolding positions_from
positions-hunks c [] p = refl
positions-hunks c (h ∷ hs) p =
    heading_lem h c (print_body h.body ++ print_hunks hs) p.0
    ∙ positions-body (print_hunks hs) (number_hunks hs) (λ c'. positions-hunks c' hs p.1)
        h.old_start h.new_start h.body p.0.unambiguous

-- the lines that git puts in front of the hunks
abbrev pub NotHeading : Codes → Type 0
NotHeading line = match_header line ≡ none

positions-preamble :
    (pre : List Codes) (hs : List PlainHunk)
    → All NotHeading pre
    → All IsPlain hs
    → positions_from
        (record { old_line = 0; new_line = 0; in_hunk = false })
        (pre ++ print_hunks hs)
      ≡ number_hunks hs
unfolding positions_from
positions-preamble [] hs q p = positions-hunks _ hs p
positions-preamble (line ∷ pre) hs q p = rw q.0 (positions-preamble pre hs q.1 p)

-- `diff_line_positions` of a diff, that is a preamble without hunk headings and hunks whose headings announce their numbers and whose texts neither break nor run on the mark in front of them, numbers the lines of every hunk as the two files do: an addition counts in the new file, a deletion in the old one, a context line in both, the notice of a missing line feed in neither.
pub positions-number :
    (pre : List Codes) (hs : List PlainHunk)
    → all_unbroken (pre ++ print_hunks hs) ≡ true
    → All NotHeading pre
    → All IsPlain hs
    → diff_line_positions (unlines (pre ++ print_hunks hs)) ≡ number_hunks hs
unfolding diff_line_positions
positions-number pre hs b q p =
    rw (splitlines-unlines (pre ++ print_hunks hs) b) (positions-preamble pre hs q p)
