-- ===== src/Runtime/Store/Contract.antt =====
-- What it means that an operation of a store does, for the actor that it is called for, what the
-- specification says, and leaves every other actor alone.
use open_review.Base.{
  ap, Bool-cases, inl, inr, eq_iff, String, ◌≡◌, refl, ◌∙◌, ◌==◌, eq_refl, if◌then◌else◌,
}
use open_review.Runtime.Store.Actor.{Actor}

module _ {S : Type 0} (view : S → String → Actor) (key : String) where
  abbrev pub Becomes : S → Actor → S → Type 0
  Becomes s a s' = (j : String) → view s' j ≡ (if key == j then a else view s j)

  abbrev pub Implements {ℓ} : {R : Type ℓ} → (S → R × S) → (Actor → R × Actor) → S → Type ℓ
  Implements op spec s =
      ((op s).0 ≡ (spec (view s key)).0) × Becomes s (spec (view s key)).1 (op s).1

-- Two stores that show the same actors, and two operations with one specification: the operations
-- return the same, and the stores show the same actors again.
module _ {S T : Type 0} (left : S → String → Actor) (right : T → String → Actor)
    (key : String) where
  abbrev pub SameActors : S → T → Type 0
  SameActors s t = (j : String) → left s j ≡ right t j

  pub Becomes-SameActors :
      (s s' : S) (t t' : T) (f : Actor → Actor)
      → SameActors s t
      → Becomes left key s (f (left s key)) s'
      → Becomes right key t (f (right t key)) t'
      → SameActors s' t'
  Becomes-SameActors s s' t t' f same a b j = cc (same key, same j, a j, b j)

-- what an operation that meets its specification makes of its actor
pub Implements-self {ℓ} :
    {S : Type 0} (view : S → String → Actor) {R : Type ℓ} (key : String) (op : S → R × S)
    (spec : Actor → R × Actor) (s : S)
    → Implements view key op spec s
    → view (op s).1 key ≡ (spec (view s key)).1
Implements-self view key op spec s h = h.1 key ∙ rw (eq_refl key) refl

-- A change that leaves a part of an actor alone leaves that part of every actor alone.
pub Becomes-part {κ} :
    {S : Type 0} (view : S → String → Actor) {P : Type κ} (part : Actor → P) (key : String)
    (s s' : S) (f : Actor → Actor)
    → Becomes view key s (f (view s key)) s'
    → ((a : Actor) → part (f a) ≡ part a)
    → (j : String) → part (view s' j) ≡ part (view s j)
Becomes-part view part key s s' f h same j = elim (Bool-cases (key == j)) [
  | inl e ↦
      ap part (h j ∙ rw e refl) ∙ same (view s key) ∙ ap (λ k. part (view s k)) ((eq_iff key j).0 e)
  | inr e ↦ ap part (h j ∙ rw e refl)
]
