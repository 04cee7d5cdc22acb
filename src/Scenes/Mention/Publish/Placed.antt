-- ===== src/Scenes/Mention/Publish/Placed.antt =====
-- Where an inline snippet is posted.
use mathlib.Core.Path.{subst}
use open_review.Base.{
  ℕ, ◌≡◌, ◌⊎◌, inl, inr, refl, Bool, true, ◌&&◌, ◌||◌, Option, none, some, List, [], ◌∷◌, Any,
  arith, Bool-cases,
}
use open_review.Base.Codes.{Codes}
use open_review.Gitlab.Markers.{same_codes}
use open_review.Utils.Diff.{DiffLinePosition, diff_line_positions}
use open_review.Utils.Diff.Resolve.{
  Side, new, old, unchanged, is_line, is_context, answers, Resolves, resolve_diff_line_position,
  resolve-Resolves,
}
use open_review.Scenes.Mention.Models.{ChangedFileContext, MentionContext, MentionInlineSnippet}
use open_review.Scenes.Mention.Publish.{
  Place, find_changed_file, place_at, only_new, only_old, both_lines, place_in,
  resolve_snippet_position,
}

same_codes-eq : (s t : Codes) → same_codes s t ≡ true → s ≡ t
same_codes-eq [] [] h = refl
same_codes-eq [] (d ∷ t) h = cc
same_codes-eq (c ∷ s) [] h = cc
same_codes-eq (c ∷ s) (d ∷ t) h = ground (arith, same_codes-eq s t)

-- the file is that of the path, before or after the change
abbrev pub IsFileOf : Codes → List ChangedFileContext → ChangedFileContext → Type 0
IsFileOf path files file =
    Any (λ f. f ≡ file) files × ((file.file_path ≡ path) ⊎ (file.old_path ≡ path))

either_same :
    (a b path : Codes) → same_codes a path || same_codes b path ≡ true → (a ≡ path) ⊎ (b ≡ path)
either_same a b path h = elim (Bool-cases (same_codes a path)) [
  | inl e ↦ inl (same_codes-eq a path e)
  | inr e ↦ inr (same_codes-eq b path (rw e at h))
]

some_inj : {A : Type 0} (a b : A) → some a ≡ some b → a ≡ b
some_inj a b h = cc

find-IsFileOf :
    (path : Codes) (files : List ChangedFileContext) (file : ChangedFileContext)
    → find_changed_file path files ≡ some file
    → IsFileOf path files file
unfolding find_changed_file
find-IsFileOf path [] file h = cc
find-IsFileOf path (item ∷ items) file h =
    elim (Bool-cases (same_codes item.file_path path || same_codes item.old_path path)) [
      | inl e ↦
          let same : item ≡ file = some_inj item file (rw e at h) in
          (
            inl same,
            subst (λ (f : ChangedFileContext). (f.file_path ≡ path) ⊎ (f.old_path ≡ path)) same
                (either_same item.file_path item.old_path path e),
          )
      | inr e ↦ let (m, p) = find-IsFileOf path items file (rw e at h) in (inr m, p)
    ]

-- the lines of a place, as the side asks for them
abbrev pub LinesAt : Side → ℕ → DiffLinePosition → Place → Type 0
LinesAt new line position at = (at.new_line ≡ some line) × (at.old_line ≡ none)
LinesAt old line position at = (at.new_line ≡ none) × (at.old_line ≡ some line)
LinesAt unchanged line position at =
    (at.new_line ≡ some line)
    × (at.old_line ≡ position.old_line)
    × ((n : ℕ) × (at.old_line ≡ some n))

abbrev Spot : ChangedFileContext → Side → ℕ → DiffLinePosition → Place → Type 0
Spot file side line position at =
    LinesAt side line position at × (at.new_path ≡ file.file_path) × (at.old_path ≡ file.old_path)

numbered : (o : Option ℕ) (line : ℕ) → is_line o line ≡ true → o ≡ some line
numbered none line h = cc
numbered (some n) line h = ground arith

new-Spot :
    (file : ChangedFileContext) (line : ℕ) (position : DiffLinePosition) (o : Option ℕ) (at : Place)
    → o ≡ some line
    → only_new file o ≡ some at
    → Spot file new line position at
new-Spot file line position none at e h = cc
new-Spot file line position (some n) at e h = ((cc, cc), cc, cc)

old-Spot :
    (file : ChangedFileContext) (line : ℕ) (position : DiffLinePosition) (o : Option ℕ) (at : Place)
    → o ≡ some line
    → only_old file o ≡ some at
    → Spot file old line position at
old-Spot file line position none at e h = cc
old-Spot file line position (some n) at e h = ((cc, cc), cc, cc)

both-Spot :
    (file : ChangedFileContext) (line : ℕ) (position : DiffLinePosition) (n o : Option ℕ)
    (at : Place)
    → n ≡ some line
    → o ≡ position.old_line
    → both_lines file n o ≡ some at
    → Spot file unchanged line position at
both-Spot file line position none o at e f h = cc
both-Spot file line position (some n) none at e f h = cc
both-Spot file line position (some n) (some o) at e f h = ((cc, cc, (o, cc)), cc, cc)

and_right : (a b : Bool) → a && b ≡ true → b ≡ true
and_right a b h = ground arith

place-Spot :
    (file : ChangedFileContext) (side : Side) (line : ℕ) (position : DiffLinePosition) (at : Place)
    → answers side line position ≡ true
    → place_at file side (some position) ≡ some at
    → Spot file side line position at
place-Spot file new line position at a h =
    new-Spot file line position position.new_line at (numbered position.new_line line a) h
place-Spot file old line position at a h =
    old-Spot file line position position.old_line at (numbered position.old_line line a) h
place-Spot file unchanged line position at a h =
    both-Spot file line position position.new_line position.old_line at
      (numbered position.new_line line (and_right (is_context position.kind) _ a)) refl h

-- the position that a place is of: the first one of the file's diff that answers
abbrev pub PlacedIn : ChangedFileContext → MentionInlineSnippet → Place → Type 0
PlacedIn file snippet at =
    (position : DiffLinePosition) × Resolves snippet.side snippet.line
      (diff_line_positions file.diff) (some position)
    × Spot file snippet.side snippet.line position at

file-PlacedIn :
    (file : ChangedFileContext) (snippet : MentionInlineSnippet) (at : Place)
    (o : Option DiffLinePosition)
    → Resolves snippet.side snippet.line (diff_line_positions file.diff) o
    → place_at file snippet.side o ≡ some at
    → PlacedIn file snippet at
file-PlacedIn file snippet at none r h = cc
file-PlacedIn file snippet at (some position) r h =
    (position, r, place-Spot file snippet.side snippet.line position at (r.4) h)

found-PlacedIn :
    (snippet : MentionInlineSnippet) (files : List ChangedFileContext) (at : Place)
    (o : Option ChangedFileContext)
    → find_changed_file snippet.path files ≡ o
    → place_in snippet o ≡ some at
    → (file : ChangedFileContext) × IsFileOf snippet.path files file × PlacedIn file snippet at
found-PlacedIn snippet files at none e h = cc
found-PlacedIn snippet files at (some file) e h = (
  file,
  find-IsFileOf snippet.path files file e,
  file-PlacedIn file snippet at (resolve_diff_line_position file.diff snippet.side snippet.line)
      (resolve-Resolves file.diff snippet.side snippet.line) h,
)

-- Where a snippet gets a place, a changed file has its path, before or after the change; the place names both paths of that file, and the lines are those of the first position of the file's diff that answers: for the new or the old side the requested line alone, for an unchanged line the requested line and the line's number in the old file.
pub position-PlacedIn :
    (context : MentionContext) (snippet : MentionInlineSnippet) (at : Place)
    → resolve_snippet_position context snippet ≡ some at
    → (file : ChangedFileContext) × IsFileOf snippet.path context.mr_snapshot.changed_files file
      × PlacedIn file snippet at
unfolding resolve_snippet_position
position-PlacedIn context snippet at h =
    found-PlacedIn snippet context.mr_snapshot.changed_files at
      (find_changed_file snippet.path context.mr_snapshot.changed_files) refl h
