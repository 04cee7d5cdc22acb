-- ===== src/Tests/MentionContext.antt =====
-- A later note of the merge request, which was answered together with an earlier one.
use open_review.Base.{none, some, [], ◌∷◌}
use open_review.Base.Codes.{codes}
use open_review.Gitlab.Comments.{truncate}
use open_review.Scenes.Mention.Models.{MrCommentRecord, MentionContext}
use open_review.Scenes.Mention.Skip.{format_reply_body}
use open_review.Scenes.Mention.Context.{
  Trigger, BatchedEvent, value, missing, build_mention_context,
}
use open_review.Tests.Mention.{context, result, bot, comment}

abbrev answer : MrCommentRecord
answer = comment (truncate (format_reply_body context result))

abbrev trigger : Trigger
trigger = record {
  note_id = 9;
  discussion_id = some (codes "d1");
  note_body = codes "and this";
  note_author = codes "ann";
}

abbrev event : BatchedEvent
event = record {
  note_id = value 9;
  discussion_id = value (codes "d1");
  note_author = value (codes "ann");
  note_body = value (codes "and this");
  created_at = missing;
}

abbrev later : MentionContext
later =
    elim (build_mention_context bot context.mr_snapshot (codes "r2") trigger (event ∷ [])
      (answer ∷ [])) [ none ↦ context | some c ↦ c ]
