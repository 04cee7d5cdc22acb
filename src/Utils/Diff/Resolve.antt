-- ===== src/Utils/Diff/Resolve.antt =====
-- `resolve_diff_line_position`: the first position that answers a request.
use open_review.Base.{
  ℕ, ◌≡◌, refl, ap, Bool, true, false, ◌&&◌, Option, none, some, List, [], ◌∷◌, ◌++◌, All, eqb,
  if◌then◌else◌, Bool-cases, inl, inr, All-weaken, arith,
}
use open_review.Base.Codes.{Codes}
use open_review.Utils.Diff.{DiffLinePosition, Kind, context, diff_line_positions}

pub data Side : Type 0 where
  new old unchanged : Side

abbrev pub is_line : Option ℕ → ℕ → Bool
is_line none line = false
is_line (some n) line = eqb n line

abbrev pub is_context : Kind → Bool
is_context context = true
is_context k = false

-- the tests of one round of the loop
abbrev pub answers : Side → ℕ → DiffLinePosition → Bool
answers new line item = is_line item.new_line line
answers old line item = is_line item.old_line line
answers unchanged line item = is_context item.kind && is_line item.new_line line

unfoldable pub first_answer : Side → ℕ → List DiffLinePosition → Option DiffLinePosition
first_answer side line [] = none
first_answer side line (item ∷ items) =
    if answers side line item then some item else first_answer side line items

unfoldable pub resolve_diff_line_position : Codes → Side → ℕ → Option DiffLinePosition
unfolding first_answer
resolve_diff_line_position diff_text side line =
    first_answer side line (diff_line_positions diff_text)

abbrev pub Unanswered : Side → ℕ → DiffLinePosition → Type 0
Unanswered side line item = answers side line item ≡ false

-- what a result says: the position answers and none before it does, or none answers
abbrev pub Resolves : Side → ℕ → List DiffLinePosition → Option DiffLinePosition → Type 0
Resolves side line items none = All (Unanswered side line) items
Resolves side line items (some item) =
    (before after : List DiffLinePosition) × (items ≡ before ++ item ∷ after)
    × All (Unanswered side line) before
    × (answers side line item ≡ true)

later :
    (side : Side) (line : ℕ) (item : DiffLinePosition) (items : List DiffLinePosition)
    (r : Option DiffLinePosition)
    → answers side line item ≡ false
    → Resolves side line items r
    → Resolves side line (item ∷ items) r
later side line item items none n h = (n, h)
later side line item items (some found) n (before, after, e, b, a) =
    (item ∷ before, after, ap (λ r. item ∷ r) e, (n, b), a)

first_answer-Resolves :
    (side : Side) (line : ℕ) (items : List DiffLinePosition)
    → Resolves side line items (first_answer side line items)
unfolding first_answer
first_answer-Resolves side line [] = tt
first_answer-Resolves side line (item ∷ items) = elim (Bool-cases (answers side line item)) [
  | inl yes_it ↦ rw yes_it ([], items, refl, tt, yes_it)
  | inr not_it ↦
      rw not_it (later side line item items _ not_it (first_answer-Resolves side line items))
]

-- every result of `resolve_diff_line_position` is the first position that passes the loop's tests
pub resolve-Resolves :
    (diff_text : Codes) (side : Side) (line : ℕ)
    → Resolves side line
        (diff_line_positions diff_text)
        (resolve_diff_line_position diff_text side line)
unfolding resolve_diff_line_position
resolve-Resolves diff_text side line =
    first_answer-Resolves side line (diff_line_positions diff_text)

-- a position has a line number on a side; for the unchanged side it is a context line, which has
-- that number in the new file
abbrev pub IsAt : Side → ℕ → DiffLinePosition → Type 0
IsAt new line item = item.new_line ≡ some line
IsAt old line item = item.old_line ≡ some line
IsAt unchanged line item = (item.kind ≡ context) × (item.new_line ≡ some line)

is_line-some : (n : Option ℕ) (line : ℕ) → is_line n line ≡ true → n ≡ some line
is_line-some none line h = cc
is_line-some (some n) line h = let same : n ≡ line = ground arith in ap some same

some-is_line : (n : Option ℕ) (line : ℕ) → n ≡ some line → is_line n line ≡ true
some-is_line n line h = rw h (ground arith)

is_context-context : (k : Kind) → is_context k ≡ true → k ≡ context
is_context-context context h = refl
is_context-context k h = cc

answers-IsAt :
    (side : Side) (line : ℕ) (item : DiffLinePosition)
    → answers side line item ≡ true
    → IsAt side line item
answers-IsAt new line item h = is_line-some item.new_line line h
answers-IsAt old line item h = is_line-some item.old_line line h
answers-IsAt unchanged line item h =
    (is_context-context item.kind (ground arith), is_line-some item.new_line line (ground arith))

IsAt-answers :
    (side : Side) (line : ℕ) (item : DiffLinePosition)
    → IsAt side line item
    → answers side line item ≡ true
IsAt-answers new line item h = some-is_line item.new_line line h
IsAt-answers old line item h = some-is_line item.old_line line h
IsAt-answers unchanged line item h = rw (h.0) (some-is_line item.new_line line h.1)

Unanswered-IsAt :
    (side : Side) (line : ℕ) (item : DiffLinePosition)
    → Unanswered side line item
    → ¬ IsAt side line item
Unanswered-IsAt side line item h at_it = let yes_it = IsAt-answers side line item at_it in cc

-- the first position with the number on the side, or that there is none
abbrev pub Locates : Side → ℕ → List DiffLinePosition → Option DiffLinePosition → Type 0
Locates side line items none = All (λ item. ¬ IsAt side line item) items
Locates side line items (some found) =
    (before after : List DiffLinePosition) × (items ≡ before ++ found ∷ after)
    × All (λ item. ¬ IsAt side line item) before
    × IsAt side line found

Resolves-Locates :
    (side : Side) (line : ℕ) (items : List DiffLinePosition) (r : Option DiffLinePosition)
    → Resolves side line items r
    → Locates side line items r
Resolves-Locates side line items none h = All-weaken (Unanswered-IsAt side line) items h
Resolves-Locates side line items (some found) (before, after, e, b, a) = (
  before,
  after,
  e,
  All-weaken (Unanswered-IsAt side line) before b,
  answers-IsAt side line found a,
)

-- `resolve_diff_line_position` returns the first position of the diff that has the requested number
-- on the requested side (for `unchanged`, a context line with that number in the new file), and
-- None exactly when the diff has no such position.
pub resolve-Locates :
    (diff_text : Codes) (side : Side) (line : ℕ)
    → Locates side line
        (diff_line_positions diff_text)
        (resolve_diff_line_position diff_text side line)
resolve-Locates diff_text side line =
    Resolves-Locates side line (diff_line_positions diff_text) _
      (resolve-Resolves diff_text side line)
