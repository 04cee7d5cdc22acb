-- ===== src/Base/Sorting.antt =====
-- `sorted(items, key=..., reverse=True)`: the greatest first, equals in their old order.
use open_review.Base.Tests.{if◌then◌else◌, Bool-cases}
use open_review.Base.Lists.{All, Any, filter, filter-All, take, take-All}
use Prim.Native.Nat.{ℕ, zero, suc}
use mathlib.Core.Path.{◌≡◌, sym}
use mathlib.Core.Logic.{◌≢◌, inl, inr}
use mathlib.Core.Bool.{Bool, true, false}
use mathlib.Core.List.{List, [], ◌∷◌}

-- no two members have the same key
abbrev pub Distinct {ℓ κ} : {A : Type ℓ} {K : Type κ} → (A → K) → List A → Type (ℓ ⊔ κ)
Distinct key [] = Unit
Distinct key (x ∷ xs) = All (λ y. key y ≢ key x) xs × Distinct key xs

-- no member is less than the next one
abbrev pub NotLess {ℓ} : {A : Type ℓ} → (A → A → Bool) → A → List A → Type 0
NotLess lt x [] = Unit {0}
NotLess lt x (y ∷ ys) = lt x y ≡ false

abbrev pub Descending {ℓ} : {A : Type ℓ} → (A → A → Bool) → List A → Type 0
Descending lt [] = Unit {0}
Descending lt (x ∷ xs) = NotLess lt x xs × Descending lt xs

module _ {ℓ} {A : Type ℓ} (lt : A → A → Bool) where
  unfoldable pub insert_desc : A → List A → List A
  insert_desc x [] = x ∷ []
  insert_desc x (y ∷ ys) = if lt x y then y ∷ insert_desc x ys else x ∷ y ∷ ys

  unfoldable pub sort_desc : List A → List A
  unfolding insert_desc
  sort_desc [] = []
  sort_desc (x ∷ xs) = insert_desc x (sort_desc xs)

  insert-All {κ} :
      (P : A → Type κ) (x : A) (xs : List A) → P x → All P xs → All P (insert_desc x xs)
  unfolding insert_desc
  insert-All P x [] p h = (p, h)
  insert-All P x (y ∷ ys) p h = elim (Bool-cases (lt x y)) [
    | inl e ↦ rw e (h.0, insert-All P x ys p h.1)
    | inr e ↦ rw e (p, h)
  ]

  pub sort-All {κ} : (P : A → Type κ) (xs : List A) → All P xs → All P (sort_desc xs)
  unfolding sort_desc
  sort-All P [] h = tt
  sort-All P (x ∷ xs) h = insert-All P x (sort_desc xs) h.0 (sort-All P xs h.1)

  insert-Any_new : (P : A → Type 0) (x : A) (xs : List A) → P x → Any P (insert_desc x xs)
  unfolding insert_desc
  insert-Any_new P x [] p = inl p
  insert-Any_new P x (y ∷ ys) p = elim (Bool-cases (lt x y)) [
    | inl e ↦ rw e (inr (insert-Any_new P x ys p))
    | inr e ↦ rw e (inl p)
  ]

  insert-Any_old : (P : A → Type 0) (x : A) (xs : List A) → Any P xs → Any P (insert_desc x xs)
  unfolding insert_desc
  insert-Any_old P x (y ∷ ys) (inl p) = elim (Bool-cases (lt x y)) [
    | inl e ↦ rw e (inl p)
    | inr e ↦ rw e (inr (inl p))
  ]
  insert-Any_old P x (y ∷ ys) (inr a) = elim (Bool-cases (lt x y)) [
    | inl e ↦ rw e (inr (insert-Any_old P x ys a))
    | inr e ↦ rw e (inr (inr a))
  ]
  insert-Any_old P x [] a = absurd a

  pub sort-Any : (P : A → Type 0) (xs : List A) → Any P xs → Any P (sort_desc xs)
  unfolding sort_desc
  sort-Any P [] a = absurd a
  sort-Any P (x ∷ xs) (inl p) = insert-Any_new P x (sort_desc xs) p
  sort-Any P (x ∷ xs) (inr a) = insert-Any_old P x (sort_desc xs) (sort-Any P xs a)

  insert-Distinct {κ} :
      {K : Type κ} (key : A → K) (x : A) (xs : List A)
      → All (λ y. key y ≢ key x) xs
      → Distinct key xs
      → Distinct key (insert_desc x xs)
  unfolding insert_desc
  insert-Distinct key x [] n d = (tt, tt)
  insert-Distinct key x (y ∷ ys) n d = elim (Bool-cases (lt x y)) [
    | inl e ↦ rw e (
      insert-All (λ z. key z ≢ key y) x ys (λ s. n.0 (sym s)) d.0,
      insert-Distinct key x ys n.1 d.1,
    )
    | inr e ↦ rw e (n, d)
  ]

  pub sort-Distinct {κ} :
      {K : Type κ} (key : A → K) (xs : List A) → Distinct key xs → Distinct key (sort_desc xs)
  unfolding sort_desc
  sort-Distinct key [] d = tt
  sort-Distinct key (x ∷ xs) d =
      insert-Distinct key x (sort_desc xs) (sort-All (λ y. key y ≢ key x) xs d.0)
        (sort-Distinct key xs d.1)

  module _ (asym : (x y : A) → lt x y ≡ true → lt y x ≡ false) where
    insert-NotLess :
        (x y : A) (ys : List A) → lt y x ≡ false → NotLess lt y ys → NotLess lt y (insert_desc x ys)
    unfolding insert_desc
    insert-NotLess x y [] e h = e
    insert-NotLess x y (z ∷ zs) e h = elim (Bool-cases (lt x z)) [ inl l ↦ rw l h | inr l ↦ rw l e ]

    insert-Descending : (x : A) (xs : List A) → Descending lt xs → Descending lt (insert_desc x xs)
    unfolding insert_desc
    insert-Descending x [] d = (tt, tt)
    insert-Descending x (y ∷ ys) d = elim (Bool-cases (lt x y)) [
      | inl e ↦ rw e (insert-NotLess x y ys (asym x y e) d.0, insert-Descending x ys d.1)
      | inr e ↦ rw e (e, d)
    ]

    pub sort-Descending : (xs : List A) → Descending lt (sort_desc xs)
    unfolding sort_desc
    sort-Descending [] = tt
    sort-Descending (x ∷ xs) = insert-Descending x (sort_desc xs) (sort-Descending xs)

module _ {ℓ κ} {A : Type ℓ} {K : Type κ} (key : A → K) where
  pub filter-Distinct : (p : A → Bool) (xs : List A) → Distinct key xs → Distinct key (filter p xs)
  unfolding filter
  filter-Distinct p [] d = tt
  filter-Distinct p (x ∷ xs) d = elim (Bool-cases (p x)) [
    | inl e ↦ rw e (filter-All (λ y. key y ≢ key x) p xs d.0, filter-Distinct p xs d.1)
    | inr e ↦ rw e (filter-Distinct p xs d.1)
  ]

  pub take-Distinct : (n : ℕ) (xs : List A) → Distinct key xs → Distinct key (take n xs)
  take-Distinct zero xs d = tt
  take-Distinct (suc n) [] d = tt
  take-Distinct (suc n) (x ∷ xs) d =
      (take-All (λ y. key y ≢ key x) n xs d.0, take-Distinct n xs d.1)
