-- ===== src/Runtime/Store/Sqlite/Retry.antt =====
-- The retry budget of the SQLite store.
use Prim.Native.Nat.{max}
use mathlib.Core.Path.{subst}
use open_review.Base.{
  ℕ, ◌+◌, String, Bool, true, false, ◌≡◌, refl, sym, ap, ◌∙◌, List, [], ◌∷◌, map, All, arith, ltb,
  if◌then◌else◌, is_empty,
}
use open_review.Base.Dict.{get-put}
use open_review.Base.Result.{Result, ok}
use open_review.Runtime.Json.{int_or_zero}
use open_review.Runtime.Models.{EventEnvelope}
use open_review.Runtime.World.{World}
use open_review.Runtime.Attempts.{
  attempts_of, max_attempts_of, max_attempts_from, note_failure, same_ids,
}
use open_review.Runtime.Store.Actor
use open_review.Runtime.Store.Actor.{Actor}
use open_review.Runtime.Store.Contract.{Implements-self}
use open_review.Runtime.Store.Sqlite.{SqliteStore, mark_inflight_failed}
use open_review.Runtime.Store.Sqlite.Refines.{view, fail-Implements}

-- every event of a batch has failed `n` times
abbrev pub FailedTimes : World → ℕ → List EventEnvelope → Type 0
FailedTimes w n = All (λ e. attempts_of w e ≡ ok n)

attempts-note_failure :
    (w : World) (n : ℕ) (error : String) (e : EventEnvelope)
    → attempts_of w (note_failure n error e) ≡ ok n
unfolding attempts_of note_failure int_or_zero
attempts-note_failure w n error e = simp get-put

pub map-FailedTimes :
    (w : World) (n : ℕ) (error : String) (b : List EventEnvelope)
    → FailedTimes w n (map (note_failure n error) b)
map-FailedTimes w n error [] = tt
map-FailedTimes w n error (e ∷ b) = (attempts-note_failure w n error e, map-FailedTimes w n error b)

max_from-FailedTimes :
    (w : World) (n : ℕ) (b : List EventEnvelope)
    → FailedTimes w n b
    → max_attempts_from w n b ≡ ok n
unfolding max_attempts_from
max_from-FailedTimes w n [] h = refl
max_from-FailedTimes w n (e ∷ b) h =
    let m : max n n ≡ n = omega arith in rw (h.0, m) (max_from-FailedTimes w n b h.1)

max-FailedTimes :
    (w : World) (n : ℕ) (b : List EventEnvelope)
    → is_empty b ≡ false
    → FailedTimes w n b
    → max_attempts_of w b ≡ ok n
unfolding max_attempts_of
max-FailedTimes w n [] e h = cc
max-FailedTimes w n (x ∷ b) e h = rw (h.0) (max_from-FailedTimes w n b h.1)

-- an event without its payload
abbrev pub blank : EventEnvelope → EventEnvelope
blank e = record e { payload = [] }

-- the events of `b` are those of `a`, in order, but for their payloads
abbrev pub SameEvents : List EventEnvelope → List EventEnvelope → Type 0
SameEvents a b = map blank b ≡ map blank a

noted-SameEvents :
    (n : ℕ) (error : String) (b : List EventEnvelope) → SameEvents b (map (note_failure n error) b)
unfolding note_failure
noted-SameEvents n error [] = refl
noted-SameEvents n error (e ∷ b) = ap (λ l. blank e ∷ l) (noted-SameEvents n error b)

-- `again`: whether the batch is kept; `r`: what is returned, and the actor afterwards
abbrev pub Budget : World → ℕ → Actor → Bool → Result Bool × Actor → Type 0
Budget w n before again r =
    (r.0 ≡ ok again)
    × (if again
        then SameEvents before.inflight r.1.inflight × FailedTimes w (n + 1) r.1.inflight
        else r.1.inflight ≡ [])
    × (r.1.events ≡ before.events)

failed_with-Budget :
    (w : World) (n max_attempts : ℕ) (error : String) (a : Actor) (again : Bool)
    → ltb (n + 1) (max max_attempts 1) ≡ again
    → Budget w n a again (Actor.failed_with (n + 1) error max_attempts a)
failed_with-Budget w n m error a true p = rw p (
  refl,
  (noted-SameEvents (n + 1) error a.inflight, map-FailedTimes w (n + 1) error a.inflight),
  refl,
)
failed_with-Budget w n m error a false p = rw p (refl, refl, refl)

-- If the batch in flight is not empty, its events have all failed `n` times, and the batch that is
-- reported as failed has their identifiers: the batch is kept, and `true` returned, exactly when
-- `n + 1` is below the limit (at least 1). Kept, it has the same events in the same order, apart
-- from their payloads, and they have all failed `n + 1` times; else no event is in flight. What is queued behind it stays.
pub fail-Budget :
    (w : World) (key error : String) (n max_attempts : ℕ) (s : SqliteStore) (b : List EventEnvelope)
    → is_empty (view s key).inflight ≡ false
    → FailedTimes w n (view s key).inflight
    → same_ids (view s key).inflight b ≡ true
    → let r = mark_inflight_failed w key b error max_attempts s in
      Budget w n (view s key) (ltb (n + 1) (max max_attempts 1)) (r.0, view r.1 key)
fail-Budget w key error n max_attempts s b busy failed same =
    let h = fail-Implements w key s b error max_attempts in
    let spec : Actor.fail w b error max_attempts (view s key)
        ≡ Actor.failed_with (n + 1) error max_attempts (view s key) =
      rw (same, max-FailedTimes w n (view s key).inflight busy failed) refl in
    let out = h.0 ∙ ap (λ r. r.0) spec in
    let left =
      Implements-self view key (mark_inflight_failed w key b error max_attempts)
        (Actor.fail w b error max_attempts) s h
      ∙ ap (λ r. r.1) spec in
    subst (Budget w n (view s key) (ltb (n + 1) (max max_attempts 1)))
      (λ i. (sym out i, sym left i)) (failed_with-Budget w n max_attempts error (view s key) _ refl)
