-- ===== src/Utils/Diff/Added.antt =====
-- `added_lines` beside `diff_line_positions`: where the two agree and where they do not.
use open_review.Base.{
  ℕ, ◌+◌, ◌≡◌, refl, ◌∙◌, false, true, Option, some, List, [], ◌∷◌, ◌++◌, All, All-weaken, arith,
}
use open_review.Base.Codes.{Codes, unlines, all_unbroken, splitlines-unlines}
use open_review.Utils.Diff.{
  DiffLinePosition, addition, Kind, marked, diff_line_positions, added_from, added_lines,
}
use open_review.Utils.Diff.Reference.{
  BodyLine, added, removed, kept, unended, PlainHunk, IsPlain, NotHeading, Unambiguous, print_body,
  print_hunks, number_body, number_hunks, run_on_lem, positions-number,
}

abbrev addition_of : DiffLinePosition → Kind → Option ℕ → List (ℕ × Codes)
addition_of p addition (some n) = (n, p.content) ∷ []
addition_of p k n = []

-- the additions among positions, as `added_lines` reports them
abbrev pub additions : List DiffLinePosition → List (ℕ × Codes)
additions [] = []
additions (p ∷ ps) = addition_of p p.kind p.new_line ++ additions ps

-- no notice of a missing line feed
abbrev pub Ended : BodyLine → Type 0
Ended (added t) = Unit
Ended (removed t) = Unit
Ended (kept t) = Unit
Ended unended = ⊥

-- a line in front of the hunks that is no heading and is not read as an addition
abbrev pub IsPreamble : Codes → Type 0
IsPreamble line = NotHeading line × (marked b'+' line ≡ false)

module _ (rest : List Codes) (found : List (ℕ × Codes))
    (goes_on : (n : ℕ) → added_from n rest ≡ found) where
  added-body :
      (o n : ℕ) (ls : List BodyLine) (more : List DiffLinePosition)
      → All Unambiguous ls
      → All Ended ls
      → additions more ≡ found
      → added_from n (print_body ls ++ rest) ≡ additions (number_body o n ls ++ more)
  unfolding added_from
  added-body o n [] more u e m = goes_on n ∙ cc
  added-body o n (added t ∷ ls) more u e m =
      ground (arith, run_on_lem b'+' t, added-body o (n + 1) ls more)
  added-body o n (removed t ∷ ls) more u e m =
      ground (arith, run_on_lem b'-' t, added-body (o + 1) n ls more)
  added-body o n (kept t ∷ ls) more u e m = added-body (o + 1) (n + 1) ls more u.1 e.1 m
  added-body o n (unended ∷ ls) more u e m = absurd e.0

added-heading :
    (h : PlainHunk) (n : ℕ) (lines : List Codes)
    → IsPlain h
    → added_from n (h.heading ∷ lines) ≡ added_from h.new_start lines
unfolding added_from
added-heading h n lines p = ground (arith, p.announced)

abbrev pub AllEnded : PlainHunk → Type 0
AllEnded h = All Ended h.body

added-hunks :
    (n : ℕ) (hs : List PlainHunk)
    → All IsPlain hs
    → All AllEnded hs
    → added_from n (print_hunks hs) ≡ additions (number_hunks hs)
unfolding added_from
added-hunks n [] p e = refl
added-hunks n (h ∷ hs) p e =
    added-heading h n (print_body h.body ++ print_hunks hs) p.0
    ∙ added-body (print_hunks hs) (additions (number_hunks hs)) (λ m. added-hunks m hs p.1 e.1)
        h.old_start h.new_start h.body (number_hunks hs) p.0.unambiguous e.0 refl

added-preamble :
    (n : ℕ) (pre : List Codes) (hs : List PlainHunk)
    → All IsPreamble pre
    → All IsPlain hs
    → All AllEnded hs
    → added_from n (pre ++ print_hunks hs) ≡ additions (number_hunks hs)
unfolding added_from
added-preamble n [] hs q p e = added-hunks n hs p e
added-preamble n (line ∷ pre) hs q p e =
    ground (arith, added-preamble n pre hs, added-preamble (n + 1) pre hs)

-- On a diff without the notice of a missing line feed, whose preamble has no line that reads as an addition, `added_lines` gives the additions of `diff_line_positions`, with the same numbers and texts.
pub added-additions :
    (pre : List Codes) (hs : List PlainHunk)
    → all_unbroken (pre ++ print_hunks hs) ≡ true
    → All IsPreamble pre
    → All IsPlain hs
    → All AllEnded hs
    → added_lines (unlines (pre ++ print_hunks hs))
      ≡ additions (diff_line_positions (unlines (pre ++ print_hunks hs)))
unfolding added_lines
added-additions pre hs b q p e =
    rw
      (
        splitlines-unlines (pre ++ print_hunks hs) b,
        positions-number pre hs b (All-weaken (λ _ q. q.0) pre q) p,
      )
      (added-preamble 0 pre hs q p e)

-- a hunk that replaces a last line without a line feed
abbrev pub unended_hunk : Codes → ℕ → ℕ → Codes → Codes → PlainHunk
unended_hunk heading o n t u = record {
  heading = heading;
  old_start = o;
  new_start = n;
  body = removed t ∷ unended ∷ added u ∷ [];
}

added_from-unended :
    (n : ℕ) (t u : Codes)
    → Unambiguous (removed t)
    → Unambiguous (added u)
    → added_from n (print_body (removed t ∷ unended ∷ added u ∷ []) ++ []) ≡ (n + 1, u) ∷ []
unfolding added_from
added_from-unended n t u p q = ground (arith, run_on_lem b'-' t, run_on_lem b'+' u)

-- The notice of a missing line feed, which git writes behind the old last line where that line is replaced, is counted by `added_lines` as a line of the new file: the addition behind it gets a number that is one too high, while `diff_line_positions` gives the right one.
pub added-unended :
    (heading : Codes) (o n : ℕ) (t u : Codes)
    → IsPlain (unended_hunk heading o n t u)
    → all_unbroken (print_hunks (unended_hunk heading o n t u ∷ [])) ≡ true
    → (added_lines (unlines (print_hunks (unended_hunk heading o n t u ∷ []))) ≡ (n + 1, u) ∷ [])
      × (additions (diff_line_positions (unlines (print_hunks (unended_hunk heading o n t u ∷ []))))
          ≡ (n, u) ∷ [])
unfolding added_lines
added-unended heading o n t u p b =
    let h = unended_hunk heading o n t u in
    (
      rw (splitlines-unlines (print_hunks (h ∷ [])) b) (
          added-heading h 0 (print_body h.body ++ []) p
          ∙ added_from-unended n t u p.unambiguous.0 p.unambiguous.1.1.0),
      rw (positions-number [] (h ∷ []) b tt (p, tt)) refl,
    )
