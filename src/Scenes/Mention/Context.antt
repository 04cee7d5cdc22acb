-- ===== src/Scenes/Mention/Context.antt =====
-- `build_mention_context` of agent/scenes/mention/orchestrator.py: what a run is told of its note.
-- The merge request and the texts of git come in as a snapshot, the activity as GitLab lists it.
-- Of a batched event, a dictionary, a key may be missing or null; where a text is null the model's
-- validation, or the test of the author, raises: `none`.
use open_review.Base.{
  ℕ, zero, suc, ◌≤◌, ◌≡◌, Bool, true, false, not, ◌&&◌, ◌||◌, Option, none, some, List, [], ◌∷◌,
  ◌++◌, eqb, ltb, if◌then◌else◌, is_empty, filter, last_n, map,
}
use open_review.Base.Options.{◌>>=◌}
use open_review.Base.Codes.{Codes, codes}
use open_review.Base.Text.{codes_lt}
use open_review.Base.Sorting.{sort_desc}
use open_review.Gitlab.Markers.{same_codes}
use open_review.Scenes.Mention.Models.{
  MrCommentRecord, MentionThreadMessage, ReplyTarget, discussion, mr_comment, MrSnapshot,
  MentionContext,
}
use open_review.Scenes.Mention.Skip.{Bot, is_bot_author, skip_reason, skip_reason_for_note_ids}
pub mod Skipped

-- what `get` finds under a key
pub data Field (A : Type 0) : Type 0 where
  missing null : Field A
  value : A → Field A

pub record BatchedEvent : Type 0 where
  pub note_id : Field ℕ
  pub discussion_id : Field Codes
  pub note_author : Field Codes
  pub note_body : Field Codes
  pub created_at : Field Codes

abbrev text_field : Codes → Field Codes → Option Codes
text_field default missing = some default
text_field default null = none
text_field default (value s) = some s

abbrev or_default : Option Codes → Field Codes → Option Codes
or_default default missing = default
or_default default null = none
or_default default (value s) = some s

-- `bool(item.get("note_id"))`, and the identifier
abbrev given_id : Field ℕ → Option ℕ
given_id missing = none
given_id null = none
given_id (value n) = some n

abbrev is_given : Field ℕ → Bool
is_given missing = false
is_given null = false
is_given (value n) = not (eqb n 0)

abbrev pub names_one : Option Codes → Bool
names_one none = false
names_one (some s) = not (is_empty s)

abbrev kind_of : Option Codes → Codes
kind_of d = if names_one d then codes "discussion" else codes "note"

unfoldable pub batched_note : Bot → Option Codes → BatchedEvent → Option MentionThreadMessage
unfolding is_bot_author
batched_note bot default_discussion_id note = do
  author ← text_field (codes "unknown") note.note_author
  body ← text_field [] note.note_body
  created_at ← text_field [] note.created_at
  let discussion_id = or_default default_discussion_id note.discussion_id
  some (record {
    note_id = given_id note.note_id;
    discussion_id = discussion_id;
    author = author;
    body = body;
    created_at = created_at;
    file_path = none;
    line = none;
    is_bot = is_bot_author bot author;
    kind = kind_of discussion_id;
  })

unfoldable pub batched_notes_of :
    Bot → Option Codes → List BatchedEvent → Option (List MentionThreadMessage)
unfolding batched_note
batched_notes_of bot d [] = some []
batched_notes_of bot d (note ∷ notes) =
    let rest = batched_notes_of bot d notes in
    if is_given note.note_id
    then batched_note bot d note >>= (λ m. rest >>= λ ms. some (m ∷ ms))
    else rest

unfoldable pub record_to_thread_message : Bot → MrCommentRecord → MentionThreadMessage
unfolding is_bot_author
record_to_thread_message bot item = record {
  note_id = item.note_id;
  discussion_id = item.discussion_id;
  author = item.author;
  body = item.body;
  created_at = item.created_at;
  file_path = item.file_path;
  line = item.line;
  is_bot = is_bot_author bot item.author;
  kind = item.kind;
}

abbrev id_or_zero : Option ℕ → ℕ
id_or_zero none = 0
id_or_zero (some n) = n

-- the order of `sorted(..., key=lambda item: (item.created_at or "", item.note_id or 0))`
abbrev pub comes_before : MrCommentRecord → MrCommentRecord → Bool
comes_before a b =
    codes_lt a.created_at b.created_at
    || same_codes a.created_at b.created_at && ltb (id_or_zero a.note_id) (id_or_zero b.note_id)

abbrev pub in_order : List MrCommentRecord → List MrCommentRecord
in_order activity = sort_desc (λ a b. comes_before b a) activity

abbrev has_id : ℕ → Option ℕ → Bool
has_id n none = false
has_id n (some m) = eqb m n

abbrev is_that : Codes → Option Codes → Bool
is_that s none = false
is_that s (some t) = same_codes t s

-- `_trigger_note`: the listed note, or what the webhook said of it
unfoldable pub trigger_note :
    Bot → ℕ → Option Codes → Codes → Codes → List MrCommentRecord → MentionThreadMessage
unfolding is_bot_author record_to_thread_message
trigger_note bot note_id discussion_id note_body note_author [] = record {
  note_id = some note_id;
  discussion_id = discussion_id;
  author = note_author;
  body = note_body;
  created_at = [];
  file_path = none;
  line = none;
  is_bot = is_bot_author bot note_author;
  kind = kind_of discussion_id;
}
trigger_note bot note_id discussion_id note_body note_author (item ∷ activity) =
    let rest = trigger_note bot note_id discussion_id note_body note_author activity in
    if has_id note_id item.note_id then record_to_thread_message bot item else rest

-- `sorted({...})` of numbers
unfoldable pub insert_id : ℕ → List ℕ → List ℕ
insert_id n [] = n ∷ []
insert_id n (m ∷ ms) =
    let rest = insert_id n ms in
    if ltb n m then n ∷ m ∷ ms else if eqb n m then m ∷ ms else m ∷ rest

abbrev pub covered_at : Option ℕ → List ℕ → List ℕ
unfolding insert_id
covered_at none ids = ids
covered_at (some n) ids = insert_id n ids

unfoldable pub covered_ids : List MentionThreadMessage → List ℕ
unfolding insert_id
covered_ids [] = []
covered_ids (note ∷ notes) = covered_at note.note_id (covered_ids notes)

-- `a or b`, where an empty text counts as none
abbrev pub text_or_else : Option Codes → Option Codes → Option Codes
text_or_else none other = other
text_or_else (some s) other = if is_empty s then other else some s

abbrev pub notes_or_trigger :
    MentionThreadMessage → List MentionThreadMessage → List MentionThreadMessage
notes_or_trigger trigger [] = trigger ∷ []
notes_or_trigger trigger (m ∷ ms) = m ∷ ms

abbrev same_discussion : Option Codes → MrCommentRecord → Bool
same_discussion none item = false
same_discussion (some []) item = false
same_discussion (some (c ∷ d)) item = is_that (c ∷ d) item.discussion_id

abbrev target_of : Option Codes → ReplyTarget
target_of d = if names_one d then discussion else mr_comment

-- what is known of the note from the webhook
pub record Trigger : Type 0 where
  pub note_id : ℕ
  pub discussion_id : Option Codes
  pub note_body : Codes
  pub note_author : Codes

-- the context, with the notes of the batch at hand
abbrev pub context_with :
    Bot
    → MrSnapshot
    → Codes
    → Trigger
    → List MrCommentRecord
    → MentionThreadMessage
    → Option Codes
    → List MentionThreadMessage
    → MentionContext
context_with bot snapshot run_id trigger activity note d notes =
    let covered = covered_ids notes in
    record {
      note_id = trigger.note_id;
      discussion_id = d;
      note_body = trigger.note_body;
      note_author = trigger.note_author;
      trigger_note = note;
      batched_notes = notes;
      covered_note_ids = covered;
      discussion_messages =
          map (record_to_thread_message bot) (filter (same_discussion d) activity);
      recent_mr_activity = map (record_to_thread_message bot) (last_n 20 activity);
      reply_target = target_of d;
      run_id = run_id;
      mr_snapshot = snapshot;
      skip_reason =
          text_or_else (skip_reason_for_note_ids bot covered snapshot.head_sha activity)
            (skip_reason bot trigger.note_id snapshot.head_sha activity);
    }

unfoldable pub build_mention_context :
    Bot
    → MrSnapshot
    → Codes
    → Trigger
    → List BatchedEvent
    → List MrCommentRecord
    → Option MentionContext
unfolding batched_notes_of covered_ids
build_mention_context bot snapshot run_id trigger events listed =
    let activity = in_order listed in
    let note =
      trigger_note bot trigger.note_id trigger.discussion_id trigger.note_body trigger.note_author
        activity in
    let d = text_or_else trigger.discussion_id note.discussion_id in
    batched_notes_of bot d events >>= λ batched.
    some (context_with bot snapshot run_id trigger activity note d (notes_or_trigger note batched))
