-- ===== src/Scenes/Mention/Publish.antt =====
-- How a result is published, of agent/scenes/mention/orchestrator.py: the inline snippets, each at
-- its place in the diff or in the text of the reply, and the reply. A post goes through the publish
-- service under its operation key, or to GitLab where there is no service: that is the parameter
-- `post`, which says whether GitLab gave the post an identifier, and may raise.
use open_review.Base.{
  ℕ, ◌≡◌, Bool, true, false, not, ◌&&◌, ◌||◌, Option, none, some, List, [], ◌∷◌, ◌++◌, map, take,
  eqb, if◌then◌else◌, is_empty,
}
use open_review.Base.Codes.{Codes, codes}
use open_review.Base.Spaces.{strip, join}
use open_review.Gitlab.Markers.{same_codes}
use open_review.Utils.Diff.{DiffLinePosition}
use open_review.Utils.Diff.Resolve.{Side, new, old, unchanged, resolve_diff_line_position}
use open_review.Scenes.Mention.Models.{
  ReplyTarget, discussion, mr_comment, ChangedFileContext, MentionContext, MentionInlineSnippet,
  MentionExecutionResult,
}
use open_review.Scenes.Mention.Skip.{digits, ids_or, format_reply_body}
use open_review.Scenes.Mention.Effects.{Action, Outcome, done, fault, ◌>>=◌, pure, except}
use open_review.Scenes.Mention.Materialize.{append_reply_note}
pub mod Placed

-- `post_diff_discussion`'s arguments
pub record Place : Type 0 where
  pub new_path : Codes
  pub old_path : Codes
  pub new_line : Option ℕ
  pub old_line : Option ℕ

pub data Post : Type 0 where
  inline_comment : Codes → Place → Post
  discussion_reply : Codes → Codes → Post
  mr_note : Codes → Post

unfoldable pub find_changed_file : Codes → List ChangedFileContext → Option ChangedFileContext
find_changed_file file_path [] = none
find_changed_file file_path (item ∷ items) =
    if same_codes item.file_path file_path || same_codes item.old_path file_path
    then some item
    else find_changed_file file_path items

abbrev pub place : ChangedFileContext → Option ℕ → Option ℕ → Option Place
place file new_line old_line = some (record {
  new_path = file.file_path;
  old_path = file.old_path;
  new_line = new_line;
  old_line = old_line;
})

abbrev pub both_lines : ChangedFileContext → Option ℕ → Option ℕ → Option Place
both_lines file none o = none
both_lines file (some n) none = none
both_lines file (some n) (some o) = place file (some n) (some o)

abbrev pub only_new : ChangedFileContext → Option ℕ → Option Place
only_new file none = none
only_new file (some n) = place file (some n) none

abbrev pub only_old : ChangedFileContext → Option ℕ → Option Place
only_old file none = none
only_old file (some n) = place file none (some n)

abbrev pub place_at : ChangedFileContext → Side → Option DiffLinePosition → Option Place
place_at file side none = none
place_at file new (some position) = only_new file position.new_line
place_at file old (some position) = only_old file position.old_line
place_at file unchanged (some position) = both_lines file position.new_line position.old_line

abbrev pub place_in : MentionInlineSnippet → Option ChangedFileContext → Option Place
place_in snippet none = none
place_in snippet (some file) =
    place_at file snippet.side (resolve_diff_line_position file.diff snippet.side snippet.line)

unfoldable pub resolve_snippet_position : MentionContext → MentionInlineSnippet → Option Place
resolve_snippet_position context snippet =
    place_in snippet (find_changed_file snippet.path context.mr_snapshot.changed_files)

unfoldable pub format_inline_snippet_body : MentionInlineSnippet → Codes
format_inline_snippet_body snippet =
    codes "```" ++ (snippet.lang ++ (codes "\n" ++ (snippet.code ++ codes "\n```")))

unfoldable pub format_inline_snippet_fallback : MentionInlineSnippet → Codes
unfolding format_inline_snippet_body
format_inline_snippet_fallback snippet =
    codes "相关代码：`"
    ++ (snippet.path
        ++ (codes ":"
            ++ (digits snippet.line ++ (codes "`\n\n" ++ format_inline_snippet_body snippet))))

abbrev same_side : Side → Side → Bool
same_side new new = true
same_side old old = true
same_side unchanged unchanged = true
same_side new old = false
same_side new unchanged = false
same_side old new = false
same_side old unchanged = false
same_side unchanged new = false
same_side unchanged old = false

-- the same `dedupe_key`
abbrev pub same_snippet : MentionInlineSnippet → MentionInlineSnippet → Bool
same_snippet a b =
    same_codes a.path b.path
    && eqb a.line b.line
    && same_side a.side b.side
    && same_codes a.lang b.lang
    && same_codes a.code b.code

abbrev pub seen_before : MentionInlineSnippet → List MentionInlineSnippet → Bool
seen_before snippet [] = false
seen_before snippet (s ∷ seen) = same_snippet s snippet || seen_before snippet seen

abbrev side_name : Side → Codes
side_name new = codes "new"
side_name old = codes "old"
side_name unchanged = codes "unchanged"

abbrev joined_ids : List ℕ → Codes
joined_ids ids = join (codes ",") (map digits ids)

-- `sha256_hex` is `hashlib.sha256(code.encode("utf-8")).hexdigest()`
unfoldable pub inline_op_key : (Codes → Codes) → MentionContext → MentionInlineSnippet → Codes
unfolding join
inline_op_key sha256_hex context snippet = join (codes ":") (
    codes "mention-inline"
    ∷ context.mr_snapshot.head_sha
    ∷ joined_ids context.covered_note_ids
    ∷ snippet.path
    ∷ side_name snippet.side
    ∷ digits snippet.line
    ∷ take 12 (sha256_hex snippet.code)
    ∷ [])

unfoldable pub reply_op_key : MentionContext → MentionExecutionResult → Codes
unfolding join
reply_op_key context result = join (codes ":") (
    codes "mention-reply"
    ∷ context.mr_snapshot.head_sha
    ∷ joined_ids (ids_or result.covered_note_ids context.covered_note_ids)
    ∷ [])

module _ {W : Type 0} (sha256_hex : Codes → Codes) (post : Codes → Post → Action W Bool) where
  -- what becomes of one snippet: is it posted?
  abbrev pub offer : MentionContext → MentionInlineSnippet → Option Place → Action W Bool
  offer context snippet none = pure false
  offer context snippet (some at) =
      post (inline_op_key sha256_hex context snippet)
        (inline_comment (format_inline_snippet_body snippet) at)

  -- the loop over the snippets, with the text and the snippets seen so far
  unfoldable pub publish_each :
      MentionContext
      → Codes
      → List MentionInlineSnippet
      → List MentionInlineSnippet
      → Action W Codes
  unfolding resolve_snippet_position append_reply_note format_inline_snippet_fallback
  publish_each context rewritten seen [] = pure rewritten
  publish_each context rewritten seen (snippet ∷ snippets) = elim (seen_before snippet seen) [
    | true ↦ publish_each context rewritten seen snippets
    | false ↦ offer context snippet (resolve_snippet_position context snippet) >>= λ published.
        publish_each context
          (if published
            then rewritten
            else append_reply_note rewritten (format_inline_snippet_fallback snippet))
          (snippet ∷ seen) snippets
  ]

  unfoldable pub publish_inline_snippets :
      MentionContext → Codes → List MentionInlineSnippet → Action W Codes
  unfolding publish_each strip
  publish_inline_snippets context reply_markdown snippets = do
    text ← publish_each context (strip reply_markdown) [] snippets
    pure (strip text)

  abbrev pub publish_note : Codes → Codes → Action W Bool
  publish_note op_key body = post op_key (mr_note body)

  -- a reply in the discussion, with a note of the merge request where it fails
  abbrev pub publish_reply : ReplyTarget → Option Codes → Codes → Codes → Action W Bool
  publish_reply mr_comment d op_key body = publish_note op_key body
  publish_reply discussion none op_key body = publish_note op_key body
  publish_reply discussion (some []) op_key body = publish_note op_key body
  publish_reply discussion (some (c ∷ d)) op_key body =
      except (post op_key (discussion_reply (c ∷ d) body))
        (λ text. publish_note (op_key ++ codes ":fallback") body)

  -- the result comes back with the text that was published
  unfoldable pub publish_mention_result :
      MentionContext → MentionExecutionResult → Action W MentionExecutionResult
  unfolding publish_inline_snippets format_reply_body reply_op_key
  publish_mention_result context result = do
    text ← publish_inline_snippets context result.reply_markdown result.inline_snippets
    let rewritten = record result { reply_markdown = text }
    identifier ←
        publish_reply context.reply_target context.discussion_id (reply_op_key context rewritten)
          (format_reply_body context rewritten)
    pure rewritten
