-- ===== src/Gitlab/Comments.antt =====
-- agent/gitlab/comments.py: what GitLab is given of a long text. A text is its code points.
use open_review.Base.{ℕ, ◌-◌, ◌≤◌, ◌<◌, ◌≡◌, ◌++◌, length, take, ltb, leb, if◌then◌else◌, arith}
use open_review.Base.Codes.{Codes, codes}

abbrev pub max_comment_chars : ℕ
max_comment_chars = 65000

-- `text[: limit - 100]`, where a negative bound counts from the end
unfoldable pub front : ℕ → Codes → Codes
front limit text =
    if ltb limit 100 then take (length text - (100 - limit)) text else take (limit - 100) text

-- `_truncate`, with its default limit
unfoldable pub truncate_to : ℕ → Codes → Codes
unfolding front
truncate_to limit text =
    if leb (length text) limit then text else front limit text ++ codes "\n\n... (truncated)"

unfoldable pub truncate : Codes → Codes
unfolding truncate_to
truncate text = truncate_to max_comment_chars text

truncate_to-within :
    (limit : ℕ) (text : Codes) → length text ≤ limit → truncate_to limit text ≡ text
unfolding truncate_to
truncate_to-within limit text h = ground arith

pub truncate-within : (text : Codes) → length text ≤ max_comment_chars → truncate text ≡ text
unfolding truncate
truncate-within text h = truncate_to-within max_comment_chars text h

pub truncate_to-beyond :
    (limit : ℕ) (text : Codes)
    → limit < length text
    → truncate_to limit text ≡ front limit text ++ codes "\n\n... (truncated)"
unfolding truncate_to
truncate_to-beyond limit text h = ground arith
