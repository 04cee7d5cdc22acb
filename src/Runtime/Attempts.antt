-- ===== src/Runtime/Attempts.antt =====
-- The retry counter that `mark_inflight_failed` of agent/runtime/store.py keeps in the payload of
-- a failed event.
use Prim.Native.Nat.{max}
use open_review.Base.{ℕ, String, Bool, List, [], ◌∷◌, ◌==◌, ltb, false, ◌&&◌}
use open_review.Base.Dict
use open_review.Base.Result.{Result, ok, err, value_error, ◌>>=◌}
use open_review.Runtime.Json.{num, str, or_null, int_or_zero}
use open_review.Runtime.Models.{EventEnvelope}
use open_review.Runtime.World.{World}

-- `int(item.payload.get("_runtime_attempts") or 0)`
unfoldable pub attempts_of : World → EventEnvelope → Result ℕ
attempts_of w e = int_or_zero w.int_of_text (or_null (Dict.get e.payload "_runtime_attempts"))

unfoldable pub max_attempts_from : World → ℕ → List EventEnvelope → Result ℕ
max_attempts_from w n [] = ok n
max_attempts_from w n (e ∷ es) = do m ← attempts_of w e; max_attempts_from w (max n m) es

-- `max(... for item in inflight)`, which raises on an empty list
unfoldable pub max_attempts_of : World → List EventEnvelope → Result ℕ
unfolding max_attempts_from
max_attempts_of w [] = err value_error
max_attempts_of w (e ∷ es) = do m ← attempts_of w e; max_attempts_from w m es

-- the copy of an event that is put back after a failure
unfoldable pub note_failure : ℕ → String → EventEnvelope → EventEnvelope
note_failure attempts error e = record e {
  payload =
      Dict.put (Dict.put e.payload "_runtime_attempts" (num attempts)) "_runtime_last_error"
        (str error);
}

-- `attempts < max(max_attempts, 1)`
abbrev pub retryable : ℕ → ℕ → Bool
retryable attempts max_attempts = ltb attempts (max max_attempts 1)

-- `[item.event_id for item in xs] == [item.event_id for item in ys]`
unfoldable pub same_ids : List EventEnvelope → List EventEnvelope → Bool
same_ids [] [] = Bool.true
same_ids (x ∷ xs) (y ∷ ys) = x.event_id == y.event_id && same_ids xs ys
same_ids _ _ = false
