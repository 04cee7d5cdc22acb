-- ===== src/Scenes/Mention/Skip/Answered.antt =====
-- A note that was answered is not answered again: what the markers of a reply say to a later run.
use open_review.Base.{
  ℕ, ◌≤◌, ◌≡◌, ◌∙◌, inl, inr, refl, sym, ap, Bool, true, false, Option, none, some, List, [], ◌∷◌,
  ◌++◌, append_assoc, map, length, drop, All, Any, eqb, is_empty, arith, Bool-cases,
}
use mathlib.Core.Path.{subst}
use open_review.Base.Codes.{Codes, codes}
use open_review.Base.Spaces.{strip, join, join_tail, join_tail-append}
use open_review.Gitlab.Comments.{truncate, truncate-within, max_comment_chars}
use open_review.Gitlab.Markers.{Marker, open_review_marker, extract_markers, get, same_codes}
use open_review.Gitlab.Markers.Lines.{marker_line}
use open_review.Gitlab.Markers.Body.{lines_of, line_feed, extract-strip, get-append}
use open_review.Scenes.Mention.Models.{MrCommentRecord, MentionContext, MentionExecutionResult}
use open_review.Scenes.Mention.Skip.{
  Bot, digits, is_bot_author, markers_of, already_processed, has, subset, covered_by, covering,
  skip_reason_for_note_ids, strip_hidden_open_review_markers, ids_or, coverage, optional_markers,
  subagents_marker, approved_marker, rounds_marker, commit_marker, reply_markers, format_reply_body,
  with_primary,
}
use open_review.Scenes.Mention.Skip.Readable.{
  IsPlain, reply-IsReadable, read_ids, same_codes_refl, subset_later,
}

get-none_append :
    (name : Codes) (xs ys : List Marker)
    → get name xs ≡ none
    → get name ys ≡ none
    → get name (xs ++ ys) ≡ none
unfolding get
get-none_append name [] ys h k = k
get-none_append name (m ∷ xs) ys h k = ground (arith, get-none_append name xs ys)

-- a name of none of the optional markers
abbrev IsRequired : Codes → Type 0
IsRequired name =
    (same_codes (codes "open-review-used-subagents") name ≡ false)
    × (same_codes (codes "open-review-review-approved") name ≡ false)
    × (same_codes (codes "open-review-review-rounds") name ≡ false)
    × (same_codes (codes "open-review-commit-sha") name ≡ false)

get_one : (name n v : Codes) → same_codes n name ≡ false → get name ((n, v) ∷ []) ≡ none
unfolding get
get_one name n v h = rw h refl

no_subagents :
    (name : Codes) (names : List Codes) → IsRequired name → get name (subagents_marker names) ≡ none
no_subagents name [] r = unfold get in refl
no_subagents name (s ∷ ss) r = get_one name _ _ r.0

no_approved :
    (name : Codes) (o : Option Bool) → IsRequired name → get name (approved_marker o) ≡ none
no_approved name none r = unfold get in refl
no_approved name (some b) r = get_one name _ _ r.1

no_rounds : (name : Codes) (n : ℕ) → IsRequired name → get name (rounds_marker n) ≡ none
no_rounds name n r = elim (Bool-cases (eqb n 0)) [
  | inl e ↦ rw e (unfold get in refl)
  | inr e ↦ rw e (get_one name _ _ r.2)
]

no_commit : (name : Codes) (o : Option Codes) → IsRequired name → get name (commit_marker o) ≡ none
no_commit name none r = unfold get in refl
no_commit name (some []) r = unfold get in refl
no_commit name (some (c ∷ s)) r = get_one name _ _ r.3

no_optional :
    (name : Codes) (result : MentionExecutionResult)
    → IsRequired name
    → get name (optional_markers result) ≡ none
no_optional name result r =
    get-none_append name (subagents_marker result.used_subagents) _
      (no_subagents name result.used_subagents r)
      (get-none_append name (approved_marker result.review_approved) _
        (no_approved name result.review_approved r)
        (get-none_append name (rounds_marker result.review_rounds) _
          (no_rounds name result.review_rounds r) (no_commit name result.commit_sha r)))

regroup : (a b c d : Codes) → (a ++ (b ++ c)) ++ d ≡ a ++ (b ++ (c ++ d))
regroup a b c d = simp append_assoc

join-lines :
    (text : Codes) (coverage_lines lines : List Codes)
    → join line_feed (text ∷ (coverage_lines ++ ([] ∷ lines)))
      ≡ (text ++ (join_tail line_feed coverage_lines ++ line_feed)) ++ join_tail line_feed lines
unfolding join join_tail
join-lines text coverage_lines lines =
    ap (λ t. text ++ t) (join_tail-append line_feed coverage_lines ([] ∷ lines))
    ∙ sym (regroup text (join_tail line_feed coverage_lines) line_feed (join_tail line_feed lines))

module _ (context : MentionContext) (result : MentionExecutionResult) where
  abbrev covered : List ℕ
  covered = ids_or result.covered_note_ids context.covered_note_ids

  get_head_sha :
      get (codes "open-review-head-sha") (reply_markers context result)
      ≡ some context.mr_snapshot.head_sha
  unfolding get
  get_head_sha =
      rw (no_optional (codes "open-review-head-sha") result (refl, refl, refl, refl)) refl

  get_covered :
      get (codes "open-review-covered-notes") (reply_markers context result)
      ≡ some (join (b',' ∷ []) (map digits covered))
  unfolding get
  get_covered =
      rw (no_optional (codes "open-review-covered-notes") result (refl, refl, refl, refl)) refl

  get_note :
      get (codes "open-review-mention-note") (reply_markers context result)
      ≡ some (digits context.note_id)
  unfolding get
  get_note =
      rw (no_optional (codes "open-review-mention-note") result (refl, refl, refl, refl)) refl

  -- the body is a text and the lines of its markers, stripped
  body_shape :
      (front : Codes) × (format_reply_body context result
        ≡ strip (front ++ lines_of (reply_markers context result)))
  unfolding format_reply_body
  body_shape =
      let text = strip_hidden_open_review_markers result.reply_markdown in
      (
        text ++ (join_tail line_feed (coverage covered) ++ line_feed),
        ap strip
            (join-lines text (coverage covered) (map marker_line (reply_markers context result))),
      )

  abbrev Says : List Marker → Type 0
  Says ms =
      (get (codes "open-review-head-sha") ms ≡ some context.mr_snapshot.head_sha)
      × (get (codes "open-review-covered-notes") ms ≡ some (join (b',' ∷ []) (map digits covered)))
      × (get (codes "open-review-mention-note") ms ≡ some (digits context.note_id))

  -- what a reply says, read back from its body
  body-Says :
      (n : ℕ) (ids : List ℕ)
      → IsPlain context result
      → covered ≡ n ∷ ids
      → Says (extract_markers open_review_marker (format_reply_body context result))
  body-Says n ids p e =
      let (front, shape) = body_shape in
      let ms = reply_markers context result in
      let (before, found) =
        extract-strip front (codes "open-review-mention-run", context.run_id) (drop 1 ms)
          (reply-IsReadable context result n ids p e) in
      rw (shape, found)
        (
          get-append (codes "open-review-head-sha") before ms _ get_head_sha,
          get-append (codes "open-review-covered-notes") before ms _ get_covered,
          get-append (codes "open-review-mention-note") before ms _ get_note,
        )

has_member : (a : ℕ) (ids : List ℕ) → Any (λ n. n ≡ a) ids → has (digits a) (map digits ids) ≡ true
has_member a [] m = absurd m
has_member a (n ∷ ids) (inl e) = rw (e, same_codes_refl (digits a)) refl
has_member a (n ∷ ids) (inr m) = ground (arith, has_member a ids m)

subset_members :
    (asked ids : List ℕ)
    → All (λ a. Any (λ n. n ≡ a) ids) asked
    → subset (map digits asked) (map digits ids) ≡ true
subset_members [] ids h = refl
subset_members (a ∷ asked) ids h = rw (has_member a ids h.0) (subset_members asked ids h.1)

subset_primary :
    (ks : List Codes) (o : Option Codes) (s : List Codes)
    → subset ks s ≡ true
    → subset ks (with_primary o s) ≡ true
subset_primary ks none s h = h
subset_primary ks (some v) s h = elim (Bool-cases (is_empty v)) [
  | inl e ↦ rw e h
  | inr e ↦ rw e (subset_later ks v s h)
]

-- a comment of the bot that says what a reply says covers the notes of the reply
Says-covers :
    (context : MentionContext) (result : MentionExecutionResult) (ms : List Marker) (n : ℕ)
    (ids asked : List ℕ)
    → covered context result ≡ n ∷ ids
    → Says context result ms
    → All (λ a. Any (λ m. m ≡ a) (n ∷ ids)) asked
    → subset (map digits asked) (covered_by ms) ≡ true
unfolding covered_by
Says-covers context result ms n ids asked e says h =
    rw (says.1, e, read_ids n ids)
      (subset_primary (map digits asked) (get (codes "open-review-mention-note") ms)
        (map digits (n ∷ ids)) (subset_members asked (n ∷ ids) h))

covering-append :
    (bot : Bot) (required : List Codes) (head_sha : Codes) (earlier later : List MrCommentRecord)
    → covering bot required head_sha later ≡ some already_processed
    → covering bot required head_sha (earlier ++ later) ≡ some already_processed
unfolding covering
covering-append bot required head_sha [] later h = h
covering-append bot required head_sha (item ∷ earlier) later h =
    ground (arith, covering-append bot required head_sha earlier later)

covering_here :
    (bot : Bot) (required : List Codes) (head_sha : Codes) (item : MrCommentRecord)
    (later : List MrCommentRecord)
    → is_bot_author bot item.author ≡ true
    → get (codes "open-review-head-sha") (markers_of item) ≡ some head_sha
    → subset required (covered_by (markers_of item)) ≡ true
    → covering bot required head_sha (item ∷ later) ≡ some already_processed
unfolding covering
covering_here bot required head_sha item later b g c = rw (b, g, same_codes_refl head_sha, c) refl

-- The notes that a reply answers are answered for every later run on the same head: where the listed activity has, by the bot, the body of a reply that covers at least one note and is no longer than what GitLab is given of a text, and the names in the reply's markers are words without `>`, every batch of notes among the covered ones is skipped, wherever the comment stands and whatever the text of the reply says.
pub answered-skips :
    (bot : Bot) (context : MentionContext) (result : MentionExecutionResult)
    (item : MrCommentRecord) (earlier later : List MrCommentRecord) (n : ℕ) (ids : List ℕ) (a : ℕ)
    (asked : List ℕ)
    → IsPlain context result
    → ids_or result.covered_note_ids context.covered_note_ids ≡ n ∷ ids
    → length (format_reply_body context result) ≤ max_comment_chars
    → is_bot_author bot item.author ≡ true
    → item.body ≡ truncate (format_reply_body context result)
    → All (λ m. Any (λ k. k ≡ m) (n ∷ ids)) (a ∷ asked)
    → skip_reason_for_note_ids bot
        (a ∷ asked)
        context.mr_snapshot.head_sha
        (earlier ++ item ∷ later)
      ≡ some already_processed
unfolding skip_reason_for_note_ids
answered-skips bot context result item earlier later n ids a asked p e short b body h =
    let says =
      subst (λ t. Says context result (extract_markers open_review_marker t))
        (sym (body ∙ truncate-within (format_reply_body context result) short))
        (body-Says context result n ids p e) in
    covering-append bot (map digits (a ∷ asked)) context.mr_snapshot.head_sha earlier (item ∷ later)
      (covering_here bot (map digits (a ∷ asked)) context.mr_snapshot.head_sha item later b says.0
        (Says-covers context result (markers_of item) n ids (a ∷ asked) e says h))
