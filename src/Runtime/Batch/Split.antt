-- ===== src/Runtime/Batch/Split.antt =====
-- A cut loses nothing: the batch and what is left of the queue make up the queue that was there.
use open_review.Base.{
  is_empty, ◌≡◌, refl, ◌∙◌, ◌⊎◌, inl, inr, Bool, true, false, none, List, [], ◌∷◌, ◌++◌, All,
  All-append, cons-append_snoc, arith, Bool-cases,
}
use open_review.Base.Result.{Result, ok, err}
use open_review.Runtime.Models.{EventEnvelope, EventType, auto_review, is_auto_review, is_mention}
use open_review.Runtime.World.{World}
use open_review.Runtime.Batch.{
  take_auto_reviews, take_mentions, next_batch, should_batch_mentions, truthy, same_text,
}

auto_append :
    (b q : List EventEnvelope)
    → (take_auto_reviews b q).batch ++ (take_auto_reviews b q).queue ≡ b ++ q
unfolding take_auto_reviews
auto_append b [] = refl
auto_append b (e ∷ q) = elim (Bool-cases (is_auto_review e.event_type)) [
  | inl h ↦ rw h (auto_append (b ++ e ∷ []) q ∙ cons-append_snoc b e q)
  | inr h ↦ rw h refl
]

pub Result-cases : (r : Result Bool) → (r ≡ ok true) ⊎ (r ≡ ok false) ⊎ ((x : _) × (r ≡ err x))
Result-cases (ok true) = inl refl
Result-cases (ok false) = inr (inl refl)
Result-cases (err x) = inr (inr (x, refl))

mention_append :
    (w : World) (b q : List EventEnvelope)
    → (take_mentions w b q).batch ++ (take_mentions w b q).queue ≡ b ++ q
unfolding take_mentions
mention_append w b [] = refl
mention_append w b (e ∷ q) = elim (Result-cases (should_batch_mentions w b e)) [
  | inl h ↦ rw (h, take_mentions) (mention_append w (b ++ e ∷ []) q ∙ cons-append_snoc b e q)
  | inr (inl h) ↦ rw (h, take_mentions) refl
  | inr (inr (x, h)) ↦ rw (h, take_mentions) refl
]

-- The batch that is cut off a queue, followed by what is left of the queue, is the queue, for every
-- queue that is not empty, and also where the loop over it raises.
pub next_batch-append :
    (w : World) (e : EventEnvelope) (q : List EventEnvelope)
    → (next_batch w e q).batch ++ (next_batch w e q).queue ≡ e ∷ q
unfolding next_batch
next_batch-append w e q = ground (arith, auto_append (e ∷ []) q, mention_append w (e ∷ []) q)

-- the first event of what is left is of another type
abbrev pub StopsAtOther : List EventEnvelope → Type 0
StopsAtOther [] = Unit
StopsAtOther (e ∷ q) = is_auto_review e.event_type ≡ false

abbrev pub IsAutoReview : EventEnvelope → Type 0
IsAutoReview e = is_auto_review e.event_type ≡ true

auto-All :
    (b q : List EventEnvelope)
    → All IsAutoReview b
    → All IsAutoReview (take_auto_reviews b q).batch
      × StopsAtOther (take_auto_reviews b q).queue
      × ((take_auto_reviews b q).raised ≡ none)
unfolding take_auto_reviews
auto-All b [] h = (h, tt, refl)
auto-All b (e ∷ q) h = elim (Bool-cases (is_auto_review e.event_type)) [
  | inl p ↦ rw p (auto-All (b ++ e ∷ []) q (All-append IsAutoReview b (e ∷ []) h (p, tt)))
  | inr p ↦ rw p (h, p, refl)
]

-- If the first event is an auto review: the batch holds auto reviews only, the queue that is left
-- is empty or starts with another type, and the loop does not raise.
pub next_batch-auto :
    (w : World) (e : EventEnvelope) (q : List EventEnvelope)
    → IsAutoReview e
    → All IsAutoReview (next_batch w e q).batch
      × StopsAtOther (next_batch w e q).queue
      × ((next_batch w e q).raised ≡ none)
unfolding next_batch
next_batch-auto w e q h = rw h (auto-All (e ∷ []) q (h, tt))

-- `e` may stand behind `first` in one batch of mentions
abbrev pub JoinsThread : EventEnvelope → EventEnvelope → Type 0
JoinsThread first e =
    (is_mention e.event_type ≡ true)
    × (truthy first.discussion_id ≡ true)
    × (same_text e.discussion_id first.discussion_id ≡ true)

batched_JoinsThread :
    (w : World) (first : EventEnvelope) (rest : List EventEnvelope) (e : EventEnvelope)
    → should_batch_mentions w (first ∷ rest) e ≡ ok true
    → JoinsThread first e
unfolding should_batch_mentions
batched_JoinsThread w first rest e h = ground arith

mention-All :
    (w : World) (first : EventEnvelope) (rest q : List EventEnvelope)
    → All (JoinsThread first) rest
    → (more : List EventEnvelope) × ((take_mentions w (first ∷ rest) q).batch ≡ first ∷ more)
      × All (JoinsThread first) more
unfolding take_mentions
mention-All w first rest [] h = (rest, refl, h)
mention-All w first rest (e ∷ q) h =
    elim (Result-cases (should_batch_mentions w (first ∷ rest) e)) [
      | inl p ↦
          rw (p, take_mentions)
            (mention-All w first (rest ++ e ∷ []) q (
              All-append (JoinsThread first) rest (e ∷ []) h
                (batched_JoinsThread w first rest e p, tt)))
      | inr (inl p) ↦ rw (p, take_mentions) (rest, refl, h)
      | inr (inr (x, p)) ↦ rw (p, take_mentions) (rest, refl, h)
    ]

mention_not_auto : (t : EventType) → is_mention t ≡ true → is_auto_review t ≡ false
mention_not_auto auto_review h = cc
mention_not_auto _ h = refl

-- If the first event is a mention: the batch starts with it, and every other event in the batch is a
-- mention of the same discussion, which has a name that is not empty.
pub next_batch-mention :
    (w : World) (e : EventEnvelope) (q : List EventEnvelope)
    → is_mention e.event_type ≡ true
    → (more : List EventEnvelope) × ((next_batch w e q).batch ≡ e ∷ more) × All (JoinsThread e) more
unfolding next_batch
next_batch-mention w e q h = rw (mention_not_auto e.event_type h, h) (mention-All w e [] q tt)

snoc_nonempty : (b : List EventEnvelope) (e : EventEnvelope) → is_empty (b ++ e ∷ []) ≡ false
snoc_nonempty [] e = refl
snoc_nonempty (x ∷ b) e = refl

auto_nonempty :
    (b q : List EventEnvelope) → is_empty b ≡ false → is_empty (take_auto_reviews b q).batch ≡ false
unfolding take_auto_reviews
auto_nonempty b [] h = h
auto_nonempty b (e ∷ q) h = elim (Bool-cases (is_auto_review e.event_type)) [
  | inl p ↦ rw p (auto_nonempty (b ++ e ∷ []) q (snoc_nonempty b e))
  | inr p ↦ rw p h
]

mention_nonempty :
    (w : World) (b q : List EventEnvelope)
    → is_empty b ≡ false
    → is_empty (take_mentions w b q).batch ≡ false
unfolding take_mentions
mention_nonempty w b [] h = h
mention_nonempty w b (e ∷ q) h = elim (Result-cases (should_batch_mentions w b e)) [
  | inl p ↦ rw (p, take_mentions) (mention_nonempty w (b ++ e ∷ []) q (snoc_nonempty b e))
  | inr (inl p) ↦ rw (p, take_mentions) h
  | inr (inr (x, p)) ↦ rw (p, take_mentions) h
]

pub next_batch_nonempty :
    (w : World) (e : EventEnvelope) (q : List EventEnvelope)
    → is_empty (next_batch w e q).batch ≡ false
unfolding next_batch
next_batch_nonempty w e q = ground (arith, auto_nonempty (e ∷ []) q, mention_nonempty w (e ∷ []) q)
