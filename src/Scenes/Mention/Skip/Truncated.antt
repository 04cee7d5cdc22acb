-- ===== src/Scenes/Mention/Skip/Truncated.antt =====
-- A reply that GitLab is given cut off loses its markers, which stand at its end.
use open_review.Base.{
  ℕ, zero, suc, ◌<◌, ◌≡◌, ◌∙◌, refl, ap, false, none, List, [], ◌∷◌, ◌++◌, map, length, All,
  All-append, eqb, arith,
}
use open_review.Base.Codes.{Codes, codes}
use open_review.Gitlab.Comments.{front, truncate_to, truncate_to-beyond}
use open_review.Gitlab.Markers.{
  Pattern, open_review_marker, match_marker, scan, extract_markers, get,
}
use open_review.Scenes.Mention.Models.{MrCommentRecord, MentionContext, MentionExecutionResult}
use open_review.Scenes.Mention.Skip.{
  Bot, digits, markers_of, covering, skip_reason, skip_reason_for_note_ids, format_reply_body,
}

abbrev pub LacksOpening : Codes → Type 0
LacksOpening = All (λ c. eqb c b'<' ≡ false)

no_match : (p : Pattern) (c : ℕ) (s : Codes) → eqb c b'<' ≡ false → match_marker p (c ∷ s) ≡ none
unfolding match_marker
no_match p c s h = ground arith

scan-LacksOpening : (p : Pattern) (k : ℕ) (s : Codes) → LacksOpening s → scan p k s ≡ []
unfolding scan
scan-LacksOpening p k [] h = refl
scan-LacksOpening p (suc k) (c ∷ s) h = scan-LacksOpening p k s h.1
scan-LacksOpening p zero (c ∷ s) h = rw (no_match p c s h.0, scan) (scan-LacksOpening p zero s h.1)

notice : LacksOpening (codes "\n\n... (truncated)")
notice = (
  refl,
  (
    refl,
    (
      refl,
      (
        refl,
        (
          refl,
          (
            refl,
            (
              refl,
              (refl, (refl, (refl, (refl, (refl, (refl, (refl, (refl, (refl, (refl, tt)))))))))),
            ),
          ),
        ),
      ),
    ),
  ),
)

cut-unmarked :
    (limit : ℕ) (text : Codes)
    → limit < length text
    → LacksOpening (front limit text)
    → extract_markers open_review_marker (truncate_to limit text) ≡ []
unfolding extract_markers
cut-unmarked limit text long h =
    ap (scan open_review_marker zero) (truncate_to-beyond limit text long)
    ∙ scan-LacksOpening open_review_marker zero _
        (All-append (λ c. eqb c b'<' ≡ false) (front limit text) _ h notice)

module _ (bot : Bot) (item : MrCommentRecord) (unmarked : markers_of item ≡ []) where
  covering-without :
      (required : List Codes) (head_sha : Codes) (earlier later : List MrCommentRecord)
      → covering bot required head_sha (earlier ++ item ∷ later)
        ≡ covering bot required head_sha (earlier ++ later)
  unfolding covering
  covering-without required head_sha [] later = rw unmarked (unfold get in ground arith)
  covering-without required head_sha (other ∷ earlier) later =
      ground (arith, covering-without required head_sha earlier later)

  skip_reason-without :
      (note_id : ℕ) (head_sha : Codes) (earlier later : List MrCommentRecord)
      → skip_reason bot note_id head_sha (earlier ++ item ∷ later)
        ≡ skip_reason bot note_id head_sha (earlier ++ later)
  unfolding skip_reason
  skip_reason-without note_id head_sha [] later = rw unmarked (unfold get in ground arith)
  skip_reason-without note_id head_sha (other ∷ earlier) later =
      ground (arith, skip_reason-without note_id head_sha earlier later)

  for_notes-without :
      (asked : List ℕ) (head_sha : Codes) (earlier later : List MrCommentRecord)
      → skip_reason_for_note_ids bot asked head_sha (earlier ++ item ∷ later)
        ≡ skip_reason_for_note_ids bot asked head_sha (earlier ++ later)
  unfolding skip_reason_for_note_ids
  for_notes-without asked head_sha earlier later =
      rw (covering-without (map digits asked) head_sha earlier later) refl

-- A reply that is longer than the limit of `_truncate`, whatever the limit is, and in which no `<`
-- stands in what is kept of it, is posted without its markers: the comment makes no difference to whether a run is skipped, so that the notes it answers are answered again.
pub truncated-repeats :
    (limit : ℕ) (bot : Bot) (context : MentionContext) (result : MentionExecutionResult)
    (item : MrCommentRecord) (earlier later : List MrCommentRecord) (asked : List ℕ) (note_id : ℕ)
    (head_sha : Codes)
    → limit < length (format_reply_body context result)
    → LacksOpening (front limit (format_reply_body context result))
    → item.body ≡ truncate_to limit (format_reply_body context result)
    → (skip_reason_for_note_ids bot asked head_sha (earlier ++ item ∷ later)
        ≡ skip_reason_for_note_ids bot asked head_sha (earlier ++ later))
      × (skip_reason bot note_id head_sha (earlier ++ item ∷ later)
          ≡ skip_reason bot note_id head_sha (earlier ++ later))
truncated-repeats limit bot context result item earlier later asked note_id head_sha long plain
      body =
    let unmarked : markers_of item ≡ [] =
      ap (extract_markers open_review_marker) body
      ∙ cut-unmarked limit (format_reply_body context result) long plain in
    (
      for_notes-without bot item unmarked asked head_sha earlier later,
      skip_reason-without bot item unmarked note_id head_sha earlier later,
    )
