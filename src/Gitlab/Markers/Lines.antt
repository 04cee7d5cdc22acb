-- ===== src/Gitlab/Markers/Lines.antt =====
-- Lines that hold one marker each, and what `findall` makes of them.
use open_review.Base.{◌≡◌, refl, true, Option, some, [], ◌∷◌, ◌++◌, append_assoc, arith}
use open_review.Base.Options.{◌>>=◌}
use open_review.Base.Codes.{Codes, codes, strip_prefix}
use open_review.Base.Spaces.{skip_spaces, span, span_front, some_of, some_of-All}
use open_review.Gitlab.Markers.{
  Marker, open_review_marker, is_value, is_lower_or_dash, nonempty, close, match_marker,
}

-- `f"<!-- {name}: {value} -->"`
abbrev pub marker_line : Marker → Codes
marker_line (name, value) = codes "<!-- " ++ (name ++ (codes ": " ++ (value ++ codes " -->")))

-- a marker that the pattern reads: `n` behind the head of the name, and the value
abbrev pub IsReadable : Marker → Type 0
IsReadable (name, value) =
    (n : Codes) × (name ≡ open_review_marker.head ++ n)
    × (some_of is_lower_or_dash n ≡ true)
    × (some_of is_value value ≡ true)

abbrev ending : Codes → Codes
ending r = b' ' ∷ b'-' ∷ b'-' ∷ b'>' ∷ r

-- the chain of `match_marker` from its fifth step, and from its third
abbrev from_value : Codes → Codes → Option (Marker × Codes)
from_value n d = do
  let value = span is_value d
  v ← nonempty value.0
  r ← close v value.1
  some ((open_review_marker.head ++ n, r.0), r.1)

abbrev from_name : Codes → Option (Marker × Codes)
from_name b = do
  let name = span is_lower_or_dash b
  n ← nonempty name.0
  d ← strip_prefix (b':' ∷ []) name.1
  from_value n (skip_spaces d)

from_value_line :
    (n v r : Codes)
    → some_of is_value v ≡ true
    → from_value n (v ++ ending r) ≡ some ((open_review_marker.head ++ n, v), r)
unfolding strip_prefix skip_spaces
from_value_line n [] r h = cc
from_value_line n (c ∷ v) r h =
    rw
      (span_front is_value (c ∷ v) (b'-' ∷ b'-' ∷ b'>' ∷ r) b' ' (some_of-All is_value (c ∷ v) h)
        refl)
      refl

value_tight : (v r : Codes) → some_of is_value v ≡ true → skip_spaces (b' ' ∷ (v ++ r)) ≡ v ++ r
unfolding skip_spaces
value_tight [] r h = cc
value_tight (c ∷ v) r h = ground arith

from_name_line :
    (n v r : Codes)
    → some_of is_lower_or_dash n ≡ true
    → some_of is_value v ≡ true
    → from_name (n ++ b':' ∷ b' ' ∷ (v ++ ending r)) ≡ some ((open_review_marker.head ++ n, v), r)
unfolding strip_prefix
from_name_line [] v r h k = cc
from_name_line (c ∷ n) v r h k =
    rw
      (
        span_front is_lower_or_dash (c ∷ n) (b' ' ∷ (v ++ ending r)) b':'
            (some_of-All is_lower_or_dash (c ∷ n) h) refl,
        value_tight v (ending r) k,
      )
      (from_value_line (c ∷ n) v r k)

pub match_shape :
    (n v r : Codes)
    → some_of is_lower_or_dash n ≡ true
    → some_of is_value v ≡ true
    → match_marker open_review_marker
        (codes "<!-- open-review-" ++ (n ++ b':' ∷ b' ' ∷ (v ++ ending r)))
      ≡ some ((open_review_marker.head ++ n, v), r)
unfolding match_marker
match_shape n v r h k = from_name_line n v r h k

pub line_shape :
    (n v r : Codes)
    → marker_line (open_review_marker.head ++ n, v) ++ r
      ≡ codes "<!-- open-review-" ++ (n ++ b':' ∷ b' ' ∷ (v ++ ending r))
line_shape n v r = simp append_assoc
