-- ===== src/Runtime/Batch.antt =====
-- How `pop_next_batch` cuts a batch off a queue: `_should_batch_mentions` and the two loops that
-- both stores of agent/runtime/store.py share.
pub mod Split
use open_review.Base.{
  ℕ, zero, suc, ◌+◌, String, Bool, true, false, not, ◌&&◌, Option, none, some, List, [], ◌∷◌, ◌++◌,
  ◌==◌, leb, eqb, if◌then◌else◌,
}
use open_review.Base.Result.{Result, PyError, ok, err, value_error, type_error, ◌>>=◌}
use open_review.Runtime.Json.{Json, int_or_zero}
use open_review.Runtime.Models.{EventEnvelope, auto_review, mention, is_auto_review, is_mention}
use open_review.Runtime.World.{World, Stamp, seconds}

parse_received_at : World → String → Result Stamp
parse_received_at w value = elim (w.fromisoformat value) [ none ↦ err value_error | some t ↦ ok t ]

-- the value that the first `try` ends with
window_value : World → Option Json → Json
window_value w none = w.default_window
window_value w (some value) = value

window_or_15 : Result ℕ → ℕ
window_or_15 (ok n) = n
window_or_15 (err e) = 15

unfoldable pub mention_batch_window_seconds : World → String → ℕ
unfolding window_value window_or_15
mention_batch_window_seconds w project_id =
    window_or_15 (int_or_zero w.int_of_text (window_value w (w.project_window project_id)))

abbrev pub truthy : Option String → Bool
truthy none = false
truthy (some s) = not (s == "")

abbrev pub same_text : Option String → Option String → Bool
same_text none none = true
same_text (some s) (some t) = s == t
same_text _ _ = false

abbrev pub same_bool : Bool → Bool → Bool
same_bool true c = c
same_bool false c = not c

-- `(a - b).total_seconds() <= window`; a naive and an aware time cannot be subtracted
delta_le : Stamp → Stamp → ℕ → Result Bool
delta_le a b window =
    if same_bool a.aware b.aware
    then ok (leb a.micros (b.micros + seconds window))
    else err type_error

abbrev pub last : EventEnvelope → List EventEnvelope → EventEnvelope
last first [] = first
last first (e ∷ rest) = last e rest

-- the test on the times, when the two mentions stand in one discussion
within_window : World → EventEnvelope → EventEnvelope → EventEnvelope → Result Bool
unfolding mention_batch_window_seconds parse_received_at delta_le
within_window w first previous next =
    let window = mention_batch_window_seconds w first.project_id in
    if eqb window 0 then ok true else do
      later ← parse_received_at w next.received_at
      earlier ← parse_received_at w previous.received_at
      delta_le later earlier window

unfoldable pub should_batch_mentions : World → List EventEnvelope → EventEnvelope → Result Bool
unfolding within_window
should_batch_mentions w [] next = ok false
should_batch_mentions w (first ∷ rest) next =
    if not (is_mention first.event_type && truthy first.discussion_id)
    then ok false
    else if not (is_mention next.event_type && same_text next.discussion_id first.discussion_id)
    then ok false
    else within_window w first (last first rest) next

-- The local variables when a loop ends: by its test, or by an exception that its test raised.
pub record Cut : Type 0 where
  pub batch : List EventEnvelope
  pub queue : List EventEnvelope
  pub raised : Option PyError

unfoldable pub take_auto_reviews : List EventEnvelope → List EventEnvelope → Cut
take_auto_reviews batch [] = record { batch = batch; queue = []; raised = none }
take_auto_reviews batch (e ∷ queue) =
    let more = take_auto_reviews (batch ++ e ∷ []) queue in
    if is_auto_review e.event_type
    then more
    else record { batch = batch; queue = e ∷ queue; raised = none }

unfoldable pub take_mentions : World → List EventEnvelope → List EventEnvelope → Cut
take_mentions w batch [] = record { batch = batch; queue = []; raised = none }
take_mentions w batch (e ∷ queue) =
    let more = take_mentions w (batch ++ e ∷ []) queue in
    elim (should_batch_mentions w batch e) [
      | ok true ↦ more
      | ok false ↦ record { batch = batch; queue = e ∷ queue; raised = none }
      | err x ↦ record { batch = batch; queue = e ∷ queue; raised = some x }
    ]

-- the batch that starts with the popped event `e`
cut_by_type : World → EventEnvelope → List EventEnvelope → Cut
cut_by_type w e queue =
    if is_auto_review e.event_type
    then take_auto_reviews (e ∷ []) queue
    else if is_mention e.event_type
    then take_mentions w (e ∷ []) queue
    else record { batch = e ∷ []; queue = queue; raised = none }

unfoldable pub next_batch : World → EventEnvelope → List EventEnvelope → Cut
unfolding cut_by_type take_auto_reviews take_mentions
next_batch w e queue = cut_by_type w e queue
