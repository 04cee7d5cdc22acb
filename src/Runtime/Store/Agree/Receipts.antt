-- ===== src/Runtime/Store/Agree/Receipts.antt =====
-- The two stores keep publish receipts alike.
use open_review.Base.{
  ℕ, String, Bool, false, ◌≡◌, refl, sym, ap, ◌∙◌, Option, none, some, List, [], ◌∷◌, eq_iff, arith,
  Bool-cases, inl, inr, if◌then◌else◌,
}
use open_review.Base.Dict
use open_review.Base.Dict.{Dict, get-put}
use open_review.Base.Result.{Result}
use open_review.Runtime.Models.{PublishReceipt}
use open_review.Runtime.World.{World}
use open_review.Runtime.Batch.Split.{Result-cases}
use open_review.Runtime.Receipts.{can_be_reclaimed}
use open_review.Runtime.ReceiptStore.{stored, verdict, claimed_by, ReceiptStore}
use open_review.Runtime.Store.Memory.{MemoryStore}
use open_review.Runtime.Store.Memory.Records as Memory
use open_review.Runtime.Store.Sqlite.{SqliteStore, ReceiptRow}
use open_review.Runtime.Store.Sqlite.Records as Sqlite
use open_review.Runtime.Store.Sqlite.Records.{find_receipt, upsert_receipt}

find-upsert :
    (stamp : ℕ → ℕ) (now : ℕ) (r : PublishReceipt) (key op : String) (rows : List ReceiptRow)
    → find_receipt key op (upsert_receipt stamp now r rows)
      ≡ stored r key op (find_receipt key op rows)
unfolding find_receipt upsert_receipt
find-upsert stamp now r key op [] = refl
find-upsert stamp now r key op (row ∷ rows) = ground (
  arith,
  find-upsert stamp now r key op rows,
  eq_iff row.actor_key key,
  eq_iff row.op_key op,
  eq_iff r.actor_key key,
  eq_iff r.op_key op,
  eq_iff row.actor_key r.actor_key,
  eq_iff row.op_key r.op_key,
)

-- `record_publish_receipt` of the SQLite store
pub sqlite-record :
    (now : ℕ) (r : PublishReceipt) (key op : String) (d : SqliteStore)
    → Sqlite.get_publish_receipt key op (Sqlite.record_publish_receipt now r d)
      ≡ stored r key op (Sqlite.get_publish_receipt key op d)
unfolding Sqlite.get_publish_receipt Sqlite.record_publish_receipt
sqlite-record now r key op d = find-upsert (λ old. old) now r key op d.publish_receipts

-- `record_publish_receipt` of the in-memory store
pub memory-record :
    (r : PublishReceipt) (key op : String) (m : MemoryStore)
    → Memory.get_publish_receipt key op (Memory.record_publish_receipt r m)
      ≡ stored r key op (Memory.get_publish_receipt key op m)
unfolding Memory.get_publish_receipt Memory.record_publish_receipt
memory-record r key op m = ground (
  arith,
  get-put m.publish_receipts r.actor_key key
      (Dict.put (Memory.receipts_of (Dict.get m.publish_receipts r.actor_key)) r.op_key r),
  get-put (Memory.receipts_of (Dict.get m.publish_receipts r.actor_key)) r.op_key op r,
  eq_iff r.actor_key key,
  eq_iff r.op_key op,
)

abbrev pub SameReceipts : MemoryStore → SqliteStore → Type 0
SameReceipts m d =
    (key op : String) → Memory.get_publish_receipt key op m ≡ Sqlite.get_publish_receipt key op d

sqlite-claim_write :
    (now : ℕ) (r : PublishReceipt) (key op : String) (d : SqliteStore)
    → Sqlite.get_publish_receipt key op (Sqlite.claim_write now r d)
      ≡ stored r key op (Sqlite.get_publish_receipt key op d)
unfolding Sqlite.get_publish_receipt Sqlite.claim_write
sqlite-claim_write now r key op d = find-upsert (λ old. now) now r key op d.publish_receipts

module _ (w : World) (now : ℕ) (r : PublishReceipt) (stale_after : Option ℕ) (m : MemoryStore)
    (d : SqliteStore) (same : SameReceipts m d) where
  abbrev Agrees : Type 0
  Agrees =
      ((Memory.claim_publish_receipt w now r stale_after m).0
        ≡ (Sqlite.claim_publish_receipt w now r stale_after d).0)
      × SameReceipts (Memory.claim_publish_receipt w now r stale_after m).1
          (Sqlite.claim_publish_receipt w now r stale_after d).1

  both_store : SameReceipts (Memory.record_publish_receipt r m) (Sqlite.claim_write now r d)
  both_store key op = cc (memory-record r key op m, sqlite-claim_write now r key op d, same key op)

  claim_case :
      (old : Option PublishReceipt)
      → Memory.get_publish_receipt r.actor_key r.op_key m ≡ old
      → Sqlite.get_publish_receipt r.actor_key r.op_key d ≡ old
      → Agrees
  unfolding Memory.claim_publish_receipt Sqlite.claim_publish_receipt
  claim_case none a b = rw (a, b) (refl, both_store)
  claim_case (some e) a b =
      rw (a, b)
        (elim (Result-cases (can_be_reclaimed w now e stale_after)) [
          | inl p ↦ rw p (refl, both_store)
          | inr (inl p) ↦ rw p (refl, same)
          | inr (inr (x, p)) ↦ rw p (refl, same)
        ])

  -- If the stores show the same receipts, `claim_publish_receipt` gives the same answer in both (a
  -- new claim, the receipt that is there, or the same exception), and they show the same receipts
  -- again.
  pub claim-agrees : Agrees
  claim-agrees =
      claim_case (Memory.get_publish_receipt r.actor_key r.op_key m) refl
        (sym (same r.actor_key r.op_key))

module _ (w : World) (now : ℕ) (r : PublishReceipt) (stale_after : Option ℕ) where
  -- what each store makes of a claim, by the receipt that is there
  pub memory_case :
      (m : MemoryStore) (old : Option PublishReceipt)
      → Memory.get_publish_receipt r.actor_key r.op_key m ≡ old
      → Memory.claim_publish_receipt w now r stale_after m ≡ (
        verdict w now r stale_after old,
        if claimed_by (verdict w now r stale_after old)
            then Memory.record_publish_receipt r m
            else m,
      )
  unfolding Memory.claim_publish_receipt
  memory_case m none a = rw a refl
  memory_case m (some e) a = rw a (elim (Result-cases (can_be_reclaimed w now e stale_after)) [
    | inl p ↦ rw p refl
    | inr (inl p) ↦ rw p refl
    | inr (inr (x, p)) ↦ rw p refl
  ])

  pub sqlite_case :
      (d : SqliteStore) (old : Option PublishReceipt)
      → Sqlite.get_publish_receipt r.actor_key r.op_key d ≡ old
      → Sqlite.claim_publish_receipt w now r stale_after d ≡ (
        verdict w now r stale_after old,
        if claimed_by (verdict w now r stale_after old) then Sqlite.claim_write now r d else d,
      )
  unfolding Sqlite.claim_publish_receipt
  sqlite_case d none a = rw a refl
  sqlite_case d (some e) a = rw a (elim (Result-cases (can_be_reclaimed w now e stale_after)) [
    | inl p ↦ rw p refl
    | inr (inl p) ↦ rw p refl
    | inr (inr (x, p)) ↦ rw p refl
  ])

pub memory_get-claim :
    (w : World) (now : ℕ) (r : PublishReceipt) (stale_after : Option ℕ) (key op : String)
    (m : MemoryStore)
    → Memory.get_publish_receipt key op (Memory.claim_publish_receipt w now r stale_after m).1 ≡ (
        if claimed_by (Memory.claim_publish_receipt w now r stale_after m).0
        then stored r key op (Memory.get_publish_receipt key op m)
        else Memory.get_publish_receipt key op m)
memory_get-claim w now r stale_after key op m =
    let old = Memory.get_publish_receipt r.actor_key r.op_key m in
    rw (memory_case w now r stale_after m old refl)
      (elim (Bool-cases (claimed_by (verdict w now r stale_after old))) [
        | inl p ↦ rw p (memory-record r key op m)
        | inr p ↦ rw p refl
      ])

pub sqlite_get-claim :
    (w : World) (now : ℕ) (r : PublishReceipt) (stale_after : Option ℕ) (key op : String)
    (d : SqliteStore)
    → Sqlite.get_publish_receipt key op (Sqlite.claim_publish_receipt w now r stale_after d).1 ≡ (
        if claimed_by (Sqlite.claim_publish_receipt w now r stale_after d).0
        then stored r key op (Sqlite.get_publish_receipt key op d)
        else Sqlite.get_publish_receipt key op d)
sqlite_get-claim w now r stale_after key op d =
    let old = Sqlite.get_publish_receipt r.actor_key r.op_key d in
    rw (sqlite_case w now r stale_after d old refl)
      (elim (Bool-cases (claimed_by (verdict w now r stale_after old))) [
        | inl p ↦ rw p (sqlite-claim_write now r key op d)
        | inr p ↦ rw p refl
      ])

-- an operation that stores only what it claims
pub refused_lem :
    {S : Type 0} (s s' : S) (v : Result (PublishReceipt × Bool))
    (r : Result (PublishReceipt × Bool) × S)
    → r ≡ (v, if claimed_by v then s' else s)
    → claimed_by r.0 ≡ false
    → r.1 ≡ s
refused_lem s s' v r e h =
    let no_claim : claimed_by v ≡ false = sym (ap (λ x. claimed_by x.0) e) ∙ h in
    ap (λ x. x.1) e ∙ rw no_claim refl

-- The in-memory store as a store of receipts; it stamps nothing.
abbrev pub memory_receipts : (w : World) → ReceiptStore w
memory_receipts w = record {
  State = MemoryStore;
  get = Memory.get_publish_receipt;
  put = λ now. Memory.record_publish_receipt;
  claim = Memory.claim_publish_receipt w;
  get-put = λ now. memory-record;
  claim-verdict = λ now r stale m. ap (λ x. x.0) (memory_case w now r stale m _ refl);
  get-claim = memory_get-claim w;
  refused_unchanged = λ now r stale m. refused_lem m _ _ _ (memory_case w now r stale m _ refl);
}

abbrev pub sqlite_receipts : (w : World) → ReceiptStore w
sqlite_receipts w = record {
  State = SqliteStore;
  get = Sqlite.get_publish_receipt;
  put = Sqlite.record_publish_receipt;
  claim = Sqlite.claim_publish_receipt w;
  get-put = sqlite-record;
  claim-verdict = λ now r stale d. ap (λ x. x.0) (sqlite_case w now r stale d _ refl);
  get-claim = sqlite_get-claim w;
  refused_unchanged = λ now r stale d. refused_lem d _ _ _ (sqlite_case w now r stale d _ refl);
}
