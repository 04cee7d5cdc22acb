-- ===== src/Runtime/Store/Sqlite/Statuses.antt =====
-- `list_actor_statuses` of `SQLiteRuntimeStore`, agent/runtime/store.py.
use Prim.Native.String.{compare}
use Prim.Native.Nat.{Ordering}
use open_review.Base.{
  ℕ, ◌-◌, ◌/◌, String, Bool, true, false, not, ◌&&◌, ◌≡◌, refl, ◌∙◌, Option, none, some, List, [],
  ◌∷◌, map, arith, length, is_empty, if◌then◌else◌,
}
use open_review.Base.Dict
use open_review.Base.Dict.{Dict}
use open_review.Runtime.Models.{ActorRuntimeStatus}
use open_review.Runtime.RuntimeStore.{lists}
use open_review.Runtime.Store.Sqlite.{SqliteStore, ActorRow, load_actor_state, or_empty_row}

-- `max(int(lease_expires_at - now), 0)`, in seconds
ttl_of : ℕ → Option ℕ → Option ℕ
ttl_of now none = none
ttl_of now (some t) = some ((t - now) / 1000000)

unfoldable pub status_of : ℕ → String × ActorRow → ActorRuntimeStatus
unfolding ttl_of
status_of now (key, row) = record {
  actor_key = key;
  pending_count = length row.events;
  inflight_count = length row.inflight;
  lease_owner = row.lease_owner;
  lease_ttl_seconds = ttl_of now row.lease_expires_at;
  scheduled = row.scheduled;
}

before : String → String → Bool
before a b = elim (compare a b) [ Ordering.gt ↦ false | _ ↦ true ]

-- `ORDER BY actor_key ASC`
insert_key : String × ActorRow → Dict ActorRow → Dict ActorRow
unfolding before
insert_key row [] = row ∷ []
insert_key row (x ∷ xs) =
    let rest = insert_key row xs in if before (row.0) (x.0) then row ∷ x ∷ xs else x ∷ rest

by_key : Dict ActorRow → Dict ActorRow
unfolding insert_key
by_key [] = []
by_key (row ∷ rows) = insert_key row (by_key rows)

unfoldable pub list_actor_statuses : ℕ → SqliteStore → List ActorRuntimeStatus
unfolding status_of by_key
list_actor_statuses now s = map (status_of now) (by_key s.actor_state)

module _ (now : ℕ) (key : String) where
  abbrev listed : Dict ActorRow → Bool
  listed rows = lists key (map (status_of now) rows)

  insert-listed :
      (row : String × ActorRow) (rows : Dict ActorRow)
      → listed (insert_key row rows) ≡ listed (row ∷ rows)
  unfolding insert_key lists
  insert-listed row [] = refl
  insert-listed row (x ∷ xs) = ground (arith, insert-listed row xs)

  by_key-listed : (rows : Dict ActorRow) → listed (by_key rows) ≡ listed rows
  unfolding by_key lists
  by_key-listed [] = refl
  by_key-listed (row ∷ rows) = insert-listed row (by_key rows) ∙ (rw (by_key-listed rows) refl)

  found-listed :
      (rows : Dict ActorRow)
      → not (
          is_empty (or_empty_row (Dict.get rows key)).events
          && is_empty (or_empty_row (Dict.get rows key)).inflight)
        ≡ true
      → listed rows ≡ true
  unfolding lists Dict.get status_of
  found-listed [] h = h
  found-listed ((j, row) ∷ rows) h = ground (arith, found-listed rows)

  -- an actor that has events is in the list
  pub statuses_lem :
      (s : SqliteStore)
      → not (is_empty (load_actor_state key s).events && is_empty (load_actor_state key s).inflight)
        ≡ true
      → lists key (list_actor_statuses now s) ≡ true
  unfolding list_actor_statuses load_actor_state
  statuses_lem s h = by_key-listed s.actor_state ∙ found-listed s.actor_state h
