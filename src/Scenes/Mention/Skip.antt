-- ===== src/Scenes/Mention/Skip.antt =====
-- agent/scenes/mention/orchestrator.py: which notes are answered already, the context of a run, and
-- the body of a reply with its markers. The bot's name is read once for a run, and the author of a
-- note is a text, as GitLab's answers have it.
use open_review.Base.{
  ℕ, ◌≡◌, Bool, true, false, not, ◌&&◌, ◌||◌, Option, none, some, List, [], ◌∷◌, ◌++◌, map, eqb,
  ltb, leb, length, drop, ◌-◌, if◌then◌else◌, is_empty, is_some, filter,
}
use open_review.Base.Options.{◌>>=◌}
use open_review.Base.Codes.{Codes, codes, splitlines, strip_prefix}
use open_review.Base.Spaces.{strip, skip_spaces, span, split, join}
use open_review.Base.Text.{codes_lt}
use open_review.Runtime.Models.{show}
use open_review.Gitlab.Markers.{Marker, open_review_marker, extract_markers, get, same_codes}
use open_review.Gitlab.Markers.Lines.{marker_line}
use open_review.Scenes.Mention.Models.{
  MrCommentRecord, MentionThreadMessage, ReplyKind, reply, follow_up, analysis, code_change,
  ReplyTarget, discussion, mr_comment, MrSnapshot, MentionContext, MentionExecutionResult,
}
pub mod Readable
pub mod Answered
pub mod Truncated

-- `str(n)`
abbrev pub digits : ℕ → Codes
digits n = codes (show n)

-- what is read of the bot's identity, and `str.lower`
pub record Bot : Type 0 where
  pub username : Option Codes
  pub lower : Codes → Codes

abbrev is_named : (Codes → Codes) → Codes → Option Codes → Bool
is_named lower author none = false
is_named lower author (some name) =
    not (is_empty name) && same_codes (lower (strip author)) (lower name)

unfoldable pub is_bot_author : Bot → Codes → Bool
is_bot_author bot author = is_named bot.lower author bot.username

-- what a comment of the bot says
abbrev pub markers_of : MrCommentRecord → List Marker
markers_of item = extract_markers open_review_marker item.body

abbrev pub is_value_of : Codes → Option Codes → Bool
is_value_of v none = false
is_value_of v (some w) = same_codes w v

abbrev pub already_processed : Codes
already_processed = codes "note_already_processed"

unfoldable pub skip_reason : Bot → ℕ → Codes → List MrCommentRecord → Option Codes
unfolding is_bot_author
skip_reason bot note_id head_sha [] = none
skip_reason bot note_id head_sha (item ∷ activity) =
    let rest = skip_reason bot note_id head_sha activity in
    let markers = markers_of item in
    if not (is_bot_author bot item.author)
    then rest
    else if is_value_of (digits note_id) (get (codes "open-review-mention-note") markers)
        && is_value_of head_sha (get (codes "open-review-head-sha") markers)
    then some already_processed
    else rest

-- sets of texts
abbrev pub has : Codes → List Codes → Bool
has k [] = false
has k (j ∷ s) = same_codes j k || has k s

abbrev pub subset : List Codes → List Codes → Bool
subset [] covered = true
subset (k ∷ ks) covered = has k covered && subset ks covered

abbrev pub or_empty : Option Codes → Codes
or_empty none = []
or_empty (some s) = s

abbrev pub with_primary : Option Codes → List Codes → List Codes
with_primary none covered = covered
with_primary (some v) covered = if is_empty v then covered else v ∷ covered

-- the notes that a comment says it covers
unfoldable pub covered_by : List Marker → List Codes
covered_by markers = with_primary (get (codes "open-review-mention-note") markers) (
    filter (λ s. not (is_empty s))
      (map strip (split b',' (or_empty (get (codes "open-review-covered-notes") markers)))))

unfoldable pub covering : Bot → List Codes → Codes → List MrCommentRecord → Option Codes
unfolding is_bot_author covered_by
covering bot required head_sha [] = none
covering bot required head_sha (item ∷ activity) =
    let rest = covering bot required head_sha activity in
    let markers = markers_of item in
    if not (is_bot_author bot item.author)
    then rest
    else if not (is_value_of head_sha (get (codes "open-review-head-sha") markers))
    then rest
    else if subset required (covered_by markers)
    then some already_processed
    else rest

unfoldable pub skip_reason_for_note_ids : Bot → List ℕ → Codes → List MrCommentRecord → Option Codes
unfolding covering
skip_reason_for_note_ids bot note_ids head_sha activity =
    if is_empty note_ids then none else covering bot (map digits note_ids) head_sha activity

abbrev pub intent_name : ReplyKind → Codes
intent_name reply = codes "reply"
intent_name follow_up = codes "follow_up"
intent_name analysis = codes "analysis"
intent_name code_change = codes "code_change"

abbrev ends_in_dashes : Codes → Bool
ends_in_dashes [] = false
ends_in_dashes (c ∷ []) = false
ends_in_dashes (c ∷ d ∷ []) = eqb c b'-' && eqb d b'-'
ends_in_dashes (c ∷ d ∷ e ∷ s) = ends_in_dashes (d ∷ e ∷ s)

abbrev closes : Codes × Codes → Bool
closes (inside, []) = false
closes (inside, c ∷ behind) = ends_in_dashes inside && is_empty (skip_spaces behind)

abbrev opens_hidden : Option Codes → Bool
opens_hidden none = false
opens_hidden (some s) = closes (span (λ c. not (eqb c b'>')) s)

-- `_HIDDEN_OPEN_REVIEW_MARKER_RE.match(line)`: the line is one hidden marker
unfoldable pub is_hidden_marker : Codes → Bool
unfolding strip_prefix skip_spaces span
is_hidden_marker line = opens_hidden (do
  a ← strip_prefix (codes "<!--") (skip_spaces line)
  strip_prefix (codes "open-review-") (skip_spaces a))

unfoldable pub strip_hidden_open_review_markers : Codes → Codes
unfolding strip splitlines is_hidden_marker
strip_hidden_open_review_markers text =
    if is_empty (strip text)
    then []
    else strip (join (10 ∷ []) (filter (λ line. not (is_hidden_marker line)) (splitlines text)))

abbrev pub ids_or : List ℕ → List ℕ → List ℕ
ids_or [] others = others
ids_or (n ∷ ids) others = n ∷ ids

abbrev coverage_line : List ℕ → Codes
coverage_line ids =
    codes "本次回复覆盖 note：" ++ (join (codes ", ") (map (λ n. b'#' ∷ digits n) ids) ++ codes "。")

abbrev pub coverage : List ℕ → List Codes
coverage [] = []
coverage (n ∷ ids) = [] ∷ coverage_line (n ∷ ids) ∷ []

abbrev pub bool_name : Bool → Codes
bool_name true = codes "true"
bool_name false = codes "false"

abbrev pub subagents_marker : List Codes → List Marker
subagents_marker [] = []
subagents_marker (s ∷ ss) = (codes "open-review-used-subagents", join (b',' ∷ []) (s ∷ ss)) ∷ []

abbrev pub approved_marker : Option Bool → List Marker
approved_marker none = []
approved_marker (some b) = (codes "open-review-review-approved", bool_name b) ∷ []

abbrev pub rounds_marker : ℕ → List Marker
rounds_marker n = if eqb n 0 then [] else (codes "open-review-review-rounds", digits n) ∷ []

abbrev pub commit_marker : Option Codes → List Marker
commit_marker none = []
commit_marker (some []) = []
commit_marker (some (c ∷ s)) = (codes "open-review-commit-sha", c ∷ s) ∷ []

abbrev pub optional_markers : MentionExecutionResult → List Marker
optional_markers result =
    subagents_marker result.used_subagents
    ++ (approved_marker result.review_approved
        ++ (rounds_marker result.review_rounds ++ commit_marker result.commit_sha))

-- the markers of a reply, in order
abbrev pub reply_markers : MentionContext → MentionExecutionResult → List Marker
reply_markers context result =
    (codes "open-review-mention-run", context.run_id)
    ∷ (codes "open-review-mention-note", digits context.note_id)
    ∷ (
      codes "open-review-covered-notes",
      join (b',' ∷ []) (map digits (ids_or result.covered_note_ids context.covered_note_ids)),
    )
    ∷ (codes "open-review-mention-intent", intent_name result.intent)
    ∷ (codes "open-review-head-sha", context.mr_snapshot.head_sha)
    ∷ optional_markers result

unfoldable pub format_reply_body : MentionContext → MentionExecutionResult → Codes
unfolding strip join strip_hidden_open_review_markers
format_reply_body context result = strip (
    join (10 ∷ []) (
      strip_hidden_open_review_markers result.reply_markdown
      ∷ (coverage (ids_or result.covered_note_ids context.covered_note_ids)
          ++ ([] ∷ map marker_line (reply_markers context result)))))
