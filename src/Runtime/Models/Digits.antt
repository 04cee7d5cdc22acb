-- ===== src/Runtime/Models/Digits.antt =====
-- A number in an f-string is a text of one digit or more.
use Prim.Native.String.{String, ◌++◌ as str_append}
use Prim.Native.Char.{code}
use text.Mathlib.TextLemmas.{nil-append, cons-append}
use open_review.Base.{
  ℕ, zero, suc, ◌/◌, ◌%◌, ◌≡◌, refl, ap, ◌∙◌, Bool, true, [], ◌∷◌, ◌++◌, ltb, Bool-cases, inl, inr,
}
use open_review.Base.Codes.{Codes, codes, is_digit}
use open_review.Base.Spaces.{all_of, some_of, all_of-append}
use open_review.Runtime.Models.{digit, show_from, show}

codes-append : (a b : String) → codes (str_append a b) ≡ codes a ++ codes b
codes-append String.[] b = ap codes (nil-append b)
codes-append (String.◌∷◌ c a) b =
    ap codes (cons-append c a b) ∙ ap (λ s. code c ∷ s) (codes-append a b)

digit-digits : (n : ℕ) → some_of is_digit (codes (digit n)) ≡ true
unfolding digit
digit-digits zero = refl
digit-digits (suc zero) = refl
digit-digits (suc (suc zero)) = refl
digit-digits (suc (suc (suc zero))) = refl
digit-digits (suc (suc (suc (suc zero)))) = refl
digit-digits (suc (suc (suc (suc (suc zero))))) = refl
digit-digits (suc (suc (suc (suc (suc (suc zero)))))) = refl
digit-digits (suc (suc (suc (suc (suc (suc (suc zero))))))) = refl
digit-digits (suc (suc (suc (suc (suc (suc (suc (suc zero)))))))) = refl
digit-digits (suc (suc (suc (suc (suc (suc (suc (suc (suc n))))))))) = refl

all_of_some : (p : ℕ → Bool) (s : Codes) → some_of p s ≡ true → all_of p s ≡ true
all_of_some p [] h = cc
all_of_some p (c ∷ s) h = h

some_of-append :
    (p : ℕ → Bool) (s t : Codes)
    → all_of p s ≡ true
    → some_of p t ≡ true
    → some_of p (s ++ t) ≡ true
some_of-append p [] t h k = k
some_of-append p (c ∷ s) t h k = all_of-append p (c ∷ s) t h (all_of_some p t k)

show_from-digits : (fuel n : ℕ) → all_of is_digit (codes (show_from fuel n)) ≡ true
unfolding show_from
show_from-digits zero n = refl
show_from-digits (suc fuel) n = elim (Bool-cases (ltb n 10)) [
  | inl e ↦ rw e (all_of_some is_digit (codes (digit n)) (digit-digits n))
  | inr e ↦
      rw (e, codes-append (show_from fuel (n / 10)) (digit (n % 10)))
        (all_of-append is_digit (codes (show_from fuel (n / 10))) (codes (digit (n % 10)))
          (show_from-digits fuel (n / 10))
          (all_of_some is_digit (codes (digit (n % 10))) (digit-digits (n % 10))))
]

pub show-digits : (n : ℕ) → some_of is_digit (codes (show n)) ≡ true
unfolding show show_from
show-digits n = elim (Bool-cases (ltb n 10)) [
  | inl e ↦ rw e (digit-digits n)
  | inr e ↦
      rw (e, codes-append (show_from n (n / 10)) (digit (n % 10)))
        (some_of-append is_digit (codes (show_from n (n / 10))) (codes (digit (n % 10)))
          (show_from-digits n (n / 10)) (digit-digits (n % 10)))
]
