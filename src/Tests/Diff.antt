-- ===== src/Tests/Diff.antt =====
-- Diffs of agent/utils/diff_parser.py.
use open_review.Base.{◌≡◌, refl, some, none, List, [], ◌∷◌, ◌++◌}
use open_review.Base.Codes.{Codes, codes, unlines, starts_with, all_unbroken}
use open_review.Utils.Diff.{
  addition, deletion, context, match_header, marked, diff_line_positions, added_lines,
}
use open_review.Utils.Diff.Reference.{
  PlainHunk, IsPlain, added, removed, kept, print_hunks, positions-number,
}
use open_review.Utils.Diff.Added.{additions, added-additions, unended_hunk, added-unended}
use open_review.Utils.Diff.Resolve.{Side, resolve_diff_line_position, resolve-Locates, Locates}
use open_review.Utils.Diff.Hunks.{parse_diff_hunks}

abbrev preamble : List Codes
preamble = codes "--- a/x.py" ∷ codes "+++ b/x.py" ∷ []

abbrev first_hunk : PlainHunk
first_hunk = record {
  heading = codes "@@ -1,2 +3,3 @@ def f():";
  old_start = 1;
  new_start = 3;
  body = kept (codes "a") ∷ removed (codes "b") ∷ added (codes "+c") ∷ added (codes "d") ∷ [];
}

first_hunk-IsPlain : IsPlain first_hunk
unfolding match_header starts_with
first_hunk-IsPlain = record { announced = refl; unambiguous = (tt, (refl, (refl, (refl, tt)))) }

positions-number_example :
    diff_line_positions (unlines (preamble ++ print_hunks (first_hunk ∷ [])))
    ≡ record { kind = context; old_line = some 1; new_line = some 3; content = codes "a" }
      ∷ record { kind = deletion; old_line = some 2; new_line = none; content = codes "b" }
      ∷ record { kind = addition; old_line = none; new_line = some 4; content = codes "+c" }
      ∷ record { kind = addition; old_line = none; new_line = some 5; content = codes "d" }
      ∷ []
unfolding match_header all_unbroken
positions-number_example =
    positions-number preamble (first_hunk ∷ []) refl (refl, (refl, tt)) (first_hunk-IsPlain, tt)

added-additions_example :
    added_lines (unlines (preamble ++ print_hunks (first_hunk ∷ [])))
    ≡ additions (diff_line_positions (unlines (preamble ++ print_hunks (first_hunk ∷ []))))
unfolding match_header all_unbroken marked
added-additions_example =
    added-additions preamble (first_hunk ∷ []) refl ((refl, refl), ((refl, refl), tt))
      (first_hunk-IsPlain, tt) ((tt, (tt, (tt, (tt, tt)))), tt)

abbrev last_line : PlainHunk
last_line = unended_hunk (codes "@@ -1 +1 @@") 1 1 (codes "b") (codes "c")

last_line-IsPlain : IsPlain last_line
unfolding match_header starts_with
last_line-IsPlain = record { announced = refl; unambiguous = (refl, (tt, (refl, tt))) }

added-unended_example :
    (added_lines (unlines (print_hunks (last_line ∷ []))) ≡ (2, codes "c") ∷ [])
    × (additions (diff_line_positions (unlines (print_hunks (last_line ∷ []))))
        ≡ (1, codes "c") ∷ [])
unfolding all_unbroken
added-unended_example =
    added-unended (codes "@@ -1 +1 @@") 1 1 (codes "b") (codes "c") last_line-IsPlain refl

resolve-Locates_example :
    Locates Side.old 2
      (diff_line_positions (unlines (print_hunks (first_hunk ∷ []))))
      (resolve_diff_line_position (unlines (print_hunks (first_hunk ∷ []))) Side.old 2)
resolve-Locates_example = resolve-Locates (unlines (print_hunks (first_hunk ∷ []))) Side.old 2

deleted_line :
    resolve_diff_line_position (unlines (print_hunks (first_hunk ∷ []))) Side.old 2
    ≡ some (record { kind = deletion; old_line = some 2; new_line = none; content = codes "b" })
unfolding resolve_diff_line_position diff_line_positions unlines
deleted_line = refl

two_hunks :
    parse_diff_hunks (codes "+++ x\n@@ -1 +2,0 @@ f\n a\n@@ -5,2 +6 @@\n-b") "x"
    ≡ record {
      file_path = "x";
      header = record { old_start = 1; old_count = 1; new_start = 2; new_count = 0 };
      content = codes " f\n a\n";
    }
      ∷ record {
        file_path = "x";
        header = record { old_start = 5; old_count = 2; new_start = 6; new_count = 1 };
        content = codes "\n-b";
      }
      ∷ []
unfolding parse_diff_hunks
two_hunks = refl
