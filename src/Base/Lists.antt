-- ===== src/Base/Lists.antt =====
-- Lists measured by native numbers, and predicates on all members.
use Prim.Native.Nat.{ℕ, zero, suc, ◌+◌, ◌≤◌}
use open_review.Base.Tests.{ltb, if◌then◌else◌, Bool-cases}
use mathlib.Core.Logic.{◌⊎◌, inl, inr}
use mathlib.Core.Path.{◌≡◌, refl, ap}
use mathlib.Core.Bool.{Bool, true, false}
use mathlib.Core.List.{
  List, [], ◌∷◌, ◌++◌, append-nil, append_assoc, map, reverse, reverse-append, reverse-reverse,
}
use native.Mathlib.Omega.{arith}

module _ {ℓ} {A : Type ℓ} where
  abbrev pub length : List A → ℕ
  length [] = 0
  length (x ∷ xs) = suc (length xs)

  abbrev pub take : ℕ → List A → List A
  take zero xs = []
  take (suc n) [] = []
  take (suc n) (x ∷ xs) = x ∷ take n xs

  abbrev pub drop : ℕ → List A → List A
  drop zero xs = xs
  drop (suc n) [] = []
  drop (suc n) (x ∷ xs) = drop n xs

  abbrev pub is_empty : List A → Bool
  is_empty [] = true
  is_empty (x ∷ xs) = false

  abbrev pub All {κ} : (A → Type κ) → List A → Type κ
  All P [] = Unit
  All P (x ∷ xs) = P x × All P xs

  abbrev pub Any : (A → Type 0) → List A → Type 0
  Any P [] = ⊥
  Any P (x ∷ xs) = P x ⊎ Any P xs

module _ {ℓ} {A : Type ℓ} where
  pub length-append : (xs ys : List A) → length (xs ++ ys) ≡ length xs + length ys
  length-append [] ys = omega arith
  length-append (x ∷ xs) ys = omega (arith, length-append xs ys)

  pub length-take-le : (n : ℕ) (xs : List A) → length (take n xs) ≤ n
  length-take-le zero xs = omega arith
  length-take-le (suc n) [] = omega arith
  length-take-le (suc n) (x ∷ xs) = omega (arith, length-take-le n xs)

  pub All-append {κ} : (P : A → Type κ) (xs ys : List A) → All P xs → All P ys → All P (xs ++ ys)
  All-append P [] ys hx hy = hy
  All-append P (x ∷ xs) ys hx hy = (hx.0, All-append P xs ys hx.1 hy)

  pub All-weaken {κ μ} :
      {P : A → Type κ} {Q : A → Type μ}
      → ((x : A) → P x → Q x)
      → (xs : List A) → All P xs
      → All Q xs
  All-weaken f [] h = tt
  All-weaken f (x ∷ xs) h = (f x h.0, All-weaken f xs h.1)

  -- what every member shares with itself, it shares with some member
  All-Any_from :
      (Q : A → A → Type 0)
      → ((x : A) → Q x x)
      → (xs ys : List A) → ((x : A) → Any (Q x) xs → Any (Q x) ys)
      → All (λ x. Any (Q x) ys) xs
  All-Any_from Q r [] ys f = tt
  All-Any_from Q r (x ∷ xs) ys f = (f x (inl (r x)), All-Any_from Q r xs ys (λ y a. f y (inr a)))

  pub All-Any_self :
      (Q : A → A → Type 0) → ((x : A) → Q x x) → (xs : List A) → All (λ x. Any (Q x) xs) xs
  All-Any_self Q r xs = All-Any_from Q r xs xs (λ x a. a)

  -- the members that pass the test, as a comprehension with an `if` gives them
  unfoldable pub filter : (A → Bool) → List A → List A
  filter p [] = []
  filter p (x ∷ xs) = let rest = filter p xs in if p x then x ∷ rest else rest

  pub filter-passes : (p : A → Bool) (xs : List A) → All (λ x. p x ≡ true) (filter p xs)
  unfolding filter
  filter-passes p [] = tt
  filter-passes p (x ∷ xs) = elim (Bool-cases (p x)) [
    | inl e ↦ rw e (e, filter-passes p xs)
    | inr e ↦ rw e (filter-passes p xs)
  ]

  pub filter-All {κ} :
      (P : A → Type κ) (p : A → Bool) (xs : List A) → All P xs → All P (filter p xs)
  unfolding filter
  filter-All P p [] h = tt
  filter-All P p (x ∷ xs) h = elim (Bool-cases (p x)) [
    | inl e ↦ rw e (h.0, filter-All P p xs h.1)
    | inr e ↦ rw e (filter-All P p xs h.1)
  ]

  pub take-All {κ} : (P : A → Type κ) (n : ℕ) (xs : List A) → All P xs → All P (take n xs)
  take-All P zero xs h = tt
  take-All P (suc n) [] h = tt
  take-All P (suc n) (x ∷ xs) h = (h.0, take-All P n xs h.1)

  pub take_whole : (n : ℕ) (xs : List A) → length xs ≤ n → take n xs ≡ xs
  take_whole zero [] h = refl
  take_whole zero (x ∷ xs) h = absurd (omega arith)
  take_whole (suc n) [] h = refl
  take_whole (suc n) (x ∷ xs) h = ap (λ r. x ∷ r) (take_whole n xs (omega arith))

  pub cons-append_snoc : (xs : List A) (y : A) (zs : List A) → (xs ++ y ∷ []) ++ zs ≡ xs ++ (y ∷ zs)
  cons-append_snoc xs y zs = append_assoc xs (y ∷ []) zs

pub ruleset list_laws = (append-nil, append_assoc)

module _ {ℓ} {A : Type ℓ} where
  pub is_empty→nil : (xs : List A) → is_empty xs ≡ true → xs ≡ []
  is_empty→nil [] h = refl
  is_empty→nil (x ∷ xs) h = cc

module _ {ℓ} {A : Type ℓ} where
  -- the last `n` members
  abbrev pub last_n : ℕ → List A → List A
  last_n n [] = []
  last_n n (x ∷ xs) = let rest = last_n n xs in if ltb (length xs) n then x ∷ xs else rest

  take-nil : (n : ℕ) → take {A = A} n [] ≡ []
  take-nil zero = refl
  take-nil (suc n) = refl

  pub length-reverse : (xs : List A) → length (reverse xs) ≡ length xs
  length-reverse [] = refl
  length-reverse (x ∷ xs) =
      rw (reverse-append (x ∷ []) xs)
        (omega (arith, length-append (reverse xs) (x ∷ []), length-reverse xs))

  take-snoc :
      (n : ℕ) (xs : List A) (x : A)
      → take n (xs ++ x ∷ []) ≡ (if ltb (length xs) n then xs ++ x ∷ [] else take n xs)
  take-snoc zero xs x = ground arith
  take-snoc (suc n) [] x = rw (take-nil n) (ground arith)
  take-snoc (suc n) (y ∷ xs) x = ground (arith, take-snoc n xs x)

  pub last_n-reverse : (n : ℕ) (xs : List A) → last_n n xs ≡ reverse (take n (reverse xs))
  last_n-reverse zero [] = refl
  last_n-reverse (suc n) [] = refl
  last_n-reverse n (x ∷ xs) = elim (Bool-cases (ltb (length xs) n)) [
    | inl p ↦
        rw
          (
            reverse-append (x ∷ []) xs,
            take-snoc n (reverse xs) x,
            length-reverse xs,
            p,
            reverse-append (reverse xs) (x ∷ []),
            reverse-reverse xs,
          )
          refl
    | inr p ↦
        rw (reverse-append (x ∷ []) xs, take-snoc n (reverse xs) x, length-reverse xs, p)
          (last_n-reverse n xs)
  ]

  pub length-map {κ} : {B : Type κ} (xs : List A) (f : A → B) → length (map f xs) ≡ length xs
  length-map [] f = refl
  length-map (x ∷ xs) f = ap suc (length-map xs f)
