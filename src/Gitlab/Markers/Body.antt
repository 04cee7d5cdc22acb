-- ===== src/Gitlab/Markers/Body.antt =====
-- `_extract_markers` of a text that ends with marker lines: whatever stands in front, the markers
-- of the lines are the last ones found.
use open_review.Base.{
  ℕ, zero, ◌-◌, ◌≡◌, ◌∙◌, refl, sym, ap, true, none, some, List, [], ◌∷◌, ◌++◌, append-nil,
  append_assoc, map, length, length-append, All, arith, Bool-cases, inl, inr,
}
use open_review.Base.Codes.{Codes, codes}
use open_review.Base.Spaces.{
  is_space, skip_spaces, rstrip, strip, rstrip_ended, skip-tight, join_tail,
}
use open_review.Gitlab.Markers.{
  Marker, open_review_marker, match_marker, scan, extract_markers, get,
}
use open_review.Gitlab.Markers.Scan.{scan-tail}
use open_review.Gitlab.Markers.Lines.{marker_line, IsReadable, line_shape, match_shape}

abbrev pub line_feed : Codes
line_feed = 10 ∷ []

-- the lines, each behind a line feed
abbrev pub lines_of : List Marker → Codes
lines_of ms = join_tail line_feed (map marker_line ms)

scan-skip :
    (w r : Codes) → scan open_review_marker (length w) (w ++ r) ≡ scan open_review_marker zero r
unfolding scan
scan-skip [] r = refl
scan-skip (c ∷ w) r = scan-skip w r

skipped : (w r : Codes) → length (w ++ r) - length r ≡ length w
skipped w r = omega (arith, length-append w r)

match-line :
    (m : Marker) (r : Codes)
    → IsReadable m
    → match_marker open_review_marker (marker_line m ++ r) ≡ some (m, r)
match-line (name, value) r (n, e, a, b) =
    rw e (ap (match_marker open_review_marker) (line_shape n value r) ∙ match_shape n value r a b)

scan_unmatched :
    (c : ℕ) (s : Codes)
    → match_marker open_review_marker (c ∷ s) ≡ none
    → scan open_review_marker zero (c ∷ s) ≡ scan open_review_marker zero s
unfolding scan
scan_unmatched c s h = rw (h, scan) refl

scan_matched :
    (c : ℕ) (s rest : Codes) (m : Marker)
    → match_marker open_review_marker (c ∷ s) ≡ some (m, rest)
    → scan open_review_marker zero (c ∷ s) ≡ m ∷ scan open_review_marker (length s - length rest) s
unfolding scan
scan_matched c s rest m h = rw (h, scan) refl

scan-line :
    (m : Marker) (r : Codes)
    → IsReadable m
    → scan open_review_marker zero (marker_line m ++ r) ≡ m ∷ scan open_review_marker zero r
scan-line (name, value) r i =
    let w = codes "!-- " ++ (name ++ (codes ": " ++ (value ++ codes " -->"))) in
    scan_matched b'<' (w ++ r) r (name, value) (match-line (name, value) r i)
    ∙ ap (λ l. (name, value) ∷ l)
        (ap (λ k. scan open_review_marker k (w ++ r)) (skipped w r) ∙ scan-skip w r)

line_feed-scan :
    (s : Codes) → scan open_review_marker zero (10 ∷ s) ≡ scan open_review_marker zero s
unfolding scan match_marker
line_feed-scan s = refl

pub scan-lines :
    (ms : List Marker) → All IsReadable ms → scan open_review_marker zero (lines_of ms) ≡ ms
unfolding join_tail
scan-lines [] h = unfold scan in refl
scan-lines (m ∷ ms) h =
    line_feed-scan (marker_line m ++ lines_of ms)
    ∙ scan-line m (lines_of ms) h.0
    ∙ ap (λ l. m ∷ l) (scan-lines ms h.1)

no_match_at_space :
    (c : ℕ) (s : Codes) → is_space c ≡ true → match_marker open_review_marker (c ∷ s) ≡ none
unfolding match_marker
no_match_at_space c s h = ground arith

pub scan-skip_spaces :
    (s : Codes) → scan open_review_marker zero (skip_spaces s) ≡ scan open_review_marker zero s
unfolding skip_spaces
scan-skip_spaces [] = refl
scan-skip_spaces (c ∷ s) = elim (Bool-cases (is_space c)) [
  | inl e ↦ rw e (scan-skip_spaces s ∙ sym (scan_unmatched c s (no_match_at_space c s e)))
  | inr e ↦ rw e refl
]

-- the lines end with a `>`
abbrev Ended : Codes → Type 0
Ended s = (w : Codes) × (s ≡ w ++ b'>' ∷ [])

append-Ended : (s t : Codes) → Ended t → Ended (s ++ t)
append-Ended s t (w, e) = (s ++ w, rw e (sym (append_assoc s w (b'>' ∷ []))))

line-Ended : (m : Marker) → Ended (marker_line m)
line-Ended (name, value) =
    append-Ended (codes "<!-- ") (name ++ (codes ": " ++ (value ++ codes " -->"))) (
      append-Ended name (codes ": " ++ (value ++ codes " -->")) (
        append-Ended (codes ": ") (value ++ codes " -->")
          (append-Ended value (codes " -->") (codes " --", refl))))

lines-Ended : (m : Marker) (ms : List Marker) → Ended (lines_of (m ∷ ms))
unfolding join_tail
lines-Ended m [] =
    append-Ended line_feed (marker_line m ++ []) (rw (append-nil (marker_line m)) (line-Ended m))
lines-Ended m (m' ∷ ms) =
    append-Ended line_feed (marker_line m ++ lines_of (m' ∷ ms))
      (append-Ended (marker_line m) (lines_of (m' ∷ ms)) (lines-Ended m' ms))

Ended-tight : (s : Codes) → Ended s → rstrip s ≡ s
Ended-tight s (w, e) = rw e (rstrip_ended w b'>' refl)

-- the tail of marker lines as `scan-tail` wants it
lines_opened :
    (m : Marker) (ms : List Marker)
    → IsReadable m
    → (u : Codes) × (lines_of (m ∷ ms) ≡ 10 ∷ (codes "<!-- o" ++ u))
unfolding join_tail
lines_opened (name, value) ms (n, e, a, b) = (
  codes "pen-review-" ++ (n ++ b':' ∷ b' ' ∷ (value ++ (codes " -->" ++ lines_of ms))),
  rw e (ap (λ s. 10 ∷ s) (line_shape n value (lines_of ms))),
)

scan-front :
    (front : Codes) (m : Marker) (ms : List Marker)
    → All IsReadable (m ∷ ms)
    → (before : List Marker) × (scan open_review_marker zero (front ++ lines_of (m ∷ ms))
        ≡ before ++ m ∷ ms)
scan-front front m ms h =
    let (u, e) = lines_opened m ms h.0 in
    let (before, f) = scan-tail u zero front (omega arith) in
    (
      before,
      ap (λ t. scan open_review_marker zero (front ++ t)) e
          ∙ f
          ∙ ap (λ t. before ++ scan open_review_marker zero t) (sym e)
          ∙ ap (λ t. before ++ t) (scan-lines (m ∷ ms) h),
    )

-- The markers of a text that ends with lines of markers, and that is stripped.
pub extract-strip :
    (front : Codes) (m : Marker) (ms : List Marker)
    → All IsReadable (m ∷ ms)
    → (before : List Marker) × (extract_markers open_review_marker
          (strip (front ++ lines_of (m ∷ ms)))
        ≡ before ++ m ∷ ms)
unfolding extract_markers strip
extract-strip front m ms h =
    let body = front ++ lines_of (m ∷ ms) in
    let (before, e) = scan-front front m ms h in
    let tight =
      skip-tight body
        (Ended-tight body (append-Ended front (lines_of (m ∷ ms)) (lines-Ended m ms))) in
    (before, ap (scan open_review_marker zero) tight ∙ scan-skip_spaces body ∙ e)

-- the last marker of a name counts
pub get-append :
    (name : Codes) (before after : List Marker) (v : Codes)
    → get name after ≡ some v
    → get name (before ++ after) ≡ some v
unfolding get
get-append name [] after v h = h
get-append name (m ∷ before) after v h = rw (get-append name before after v h) refl
