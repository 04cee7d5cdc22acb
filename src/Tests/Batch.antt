-- ===== src/Tests/Batch.antt =====
use open_review.Base.{◌≡◌, refl, [], ◌∷◌, ◌++◌, List}
use open_review.Runtime.Models.{EventEnvelope}
use open_review.Runtime.Batch.{next_batch}
use open_review.Runtime.Batch.Split.{next_batch-append}
use open_review.Tests.{program, world, review, review2, note, note2, cleanup}

abbrev behind_note : List EventEnvelope
behind_note = note2 ∷ cleanup ∷ []

abbrev behind_review : List EventEnvelope
behind_review = review2 ∷ note ∷ review ∷ []

next_batch-append_example :
    (next_batch world note behind_note).batch ++ (next_batch world note behind_note).queue
    ≡ note ∷ behind_note
next_batch-append_example = next_batch-append world note behind_note

-- the two mentions come within fifteen seconds
two_mentions : (next_batch world note behind_note).batch ≡ note ∷ note2 ∷ []
unfolding program
two_mentions = refl
