-- ===== src/Gitlab/Markers.antt =====
-- The hidden markers of comments: `_MARKER_RE` and `_extract_markers` of agent/gitlab/comments.py
-- and of agent/scenes/mention/orchestrator.py. The patterns differ in the names they take, and are
-- one definition here. Where `[^\s>]+` runs on to a `>` and ends in two dashes, the regular
-- expression goes back by the two dashes: that is the second case of `close`.
use open_review.Base.{
  ℕ, zero, suc, ◌-◌, Bool, true, false, not, ◌&&◌, ◌||◌, Option, none, some, List, [], ◌∷◌, ◌++◌,
  length, eqb, leb, if◌then◌else◌,
}
use open_review.Base.Options.{◌>>=◌}
use open_review.Base.Codes.{Codes, codes, strip_prefix, is_digit}
use open_review.Base.Spaces.{is_space, skip_spaces, span}
pub mod Scan
pub mod Lines
pub mod Body

-- a name and a value
abbrev pub Marker : Type 0
Marker = Codes × Codes

-- the text that names begin with, and the characters behind it
pub record Pattern : Type 0 where
  pub head : Codes
  pub is_name : ℕ → Bool

abbrev pub is_lower_or_dash : ℕ → Bool
is_lower_or_dash c = leb b'a' c && leb c b'z' || eqb c b'-'

-- `([a-z0-9-]+)`
abbrev pub any_marker : Pattern
any_marker = record { head = []; is_name = λ c. is_lower_or_dash c || is_digit c }

-- `(open-review-[a-z-]+)`
abbrev pub open_review_marker : Pattern
open_review_marker = record { head = codes "open-review-"; is_name = is_lower_or_dash }

-- `[^\s>]`
abbrev pub is_value : ℕ → Bool
is_value c = not (is_space c || eqb c b'>')

abbrev pub nonempty : Codes → Option Codes
nonempty [] = none
nonempty (c ∷ s) = some (c ∷ s)

-- a text less two dashes at its end
unfoldable pub without_dashes : Codes → Option Codes
without_dashes [] = none
without_dashes (c ∷ []) = none
without_dashes (c ∷ d ∷ []) = if eqb c b'-' && eqb d b'-' then some [] else none
without_dashes (c ∷ d ∷ e ∷ s) = do v ← without_dashes (d ∷ e ∷ s); some (c ∷ v)

-- the value and the text behind the match, from the longest value and the text behind that
abbrev pub close_early : Codes → Codes → Option (Codes × Codes)
close_early value rest = do
  behind ← strip_prefix (b'>' ∷ []) rest
  shorter ← without_dashes value
  v ← nonempty shorter
  some (v, behind)

abbrev pub close_at : Codes → Codes → Option Codes → Option (Codes × Codes)
close_at value rest (some behind) = some (value, behind)
close_at value rest none = close_early value rest

abbrev pub close : Codes → Codes → Option (Codes × Codes)
close value rest = close_at value rest (strip_prefix (codes "-->") (skip_spaces rest))

-- a match at the front of a text, and the text behind it
unfoldable pub match_marker : Pattern → Codes → Option (Marker × Codes)
unfolding strip_prefix skip_spaces span without_dashes
match_marker p s = do
  a ← strip_prefix (codes "<!--") s
  b ← strip_prefix p.head (skip_spaces a)
  let name = span p.is_name b
  n ← nonempty name.0
  d ← strip_prefix (b':' ∷ []) name.1
  let value = span is_value (skip_spaces d)
  v ← nonempty value.0
  r ← close v value.1
  some ((p.head ++ n, r.0), r.1)

-- `findall`, which goes on behind a match; the number says how many characters of it are left
unfoldable pub scan : Pattern → ℕ → Codes → List Marker
unfolding match_marker
scan p k [] = []
scan p (suc k) (c ∷ s) = scan p k s
scan p zero (c ∷ s) = elim (match_marker p (c ∷ s)) [
  | none ↦ scan p zero s
  | some (m, rest) ↦ m ∷ scan p (length s - length rest) s
]

unfoldable pub extract_markers : Pattern → Codes → List Marker
unfolding scan
extract_markers p body = scan p zero body

abbrev pub same_codes : Codes → Codes → Bool
same_codes [] [] = true
same_codes [] (d ∷ t) = false
same_codes (c ∷ s) [] = false
same_codes (c ∷ s) (d ∷ t) = eqb c d && same_codes s t

-- `markers.get(name)`: of markers with one name the last counts
abbrev or_else : Option Codes → Option Codes → Option Codes
or_else (some v) o = some v
or_else none o = o

unfoldable pub get : Codes → List Marker → Option Codes
get name [] = none
get name ((n, v) ∷ ms) = or_else (get name ms) (if same_codes n name then some v else none)
