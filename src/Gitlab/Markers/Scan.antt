-- ===== src/Gitlab/Markers/Scan.antt =====
-- What `findall` sees in a text that ends with lines of one marker each, whatever stands in front
-- of them.
use open_review.Base.{
  ℕ, zero, suc, ◌-◌, ◌≤◌, ◌≡◌, ◌⊎◌, inl, inr, refl, ap, Bool, false, Option, none, some, List, [],
  ◌∷◌, ◌++◌, length, length-append, All, eqb, arith, Bool-cases,
}
use open_review.Base.Options.{◌>>=◌}
use open_review.Base.Codes.{Codes, codes, strip_prefix}
use open_review.Base.Spaces.{is_space, skip_spaces, span}
use open_review.Gitlab.Markers.{
  Marker, open_review_marker, is_value, is_lower_or_dash, close, close_at, close_early, nonempty,
  without_dashes, match_marker, scan,
}

-- a predicate on what an optional value holds, and its rule for a chain
abbrev pub Post : {A : Type 0} → (A → Type 0) → Option A → Type 0
Post Q none = Unit
Post Q (some a) = Q a

bind-Post :
    {A B : Type 0} (P : A → Type 0) (Q : B → Type 0) (o : Option A) (f : A → Option B)
    → Post P o
    → ((a : A) → P a → Post Q (f a))
    → Post Q (o >>= f)
bind-Post P Q none f h g = tt
bind-Post P Q (some a) f h g = g a h

bind-Post_any :
    {A B : Type 0} (Q : B → Type 0) (o : Option A) (f : A → Option B)
    → ((a : A) → Post Q (f a))
    → Post Q (o >>= f)
bind-Post_any Q none f g = tt
bind-Post_any Q (some a) f g = g a

head_unbroken : All (λ c. eqb c 10 ≡ false) open_review_marker.head
head_unbroken = (
  refl,
  (refl, (refl, (refl, (refl, (refl, (refl, (refl, (refl, (refl, (refl, (refl, tt))))))))))),
)

-- The lines of markers begin with a line feed and `<!-- o`; what is matched in front of them ends
-- in front of them.
module _ (u : Codes) where
  abbrev opened : Codes
  opened = codes "<!-- o" ++ u

  abbrev tail : Codes
  tail = 10 ∷ opened

  abbrev Inside : Codes → Type 0
  Inside r = (front : Codes) × (r ≡ front ++ tail)

  strip_prefix-Inside :
      (p front : Codes)
      → All (λ c. eqb c 10 ≡ false) p
      → Post Inside (strip_prefix p (front ++ tail))
  unfolding strip_prefix
  strip_prefix-Inside [] front n = (front, refl)
  strip_prefix-Inside (c ∷ p) [] n = rw (n.0) tt
  strip_prefix-Inside (c ∷ p) (d ∷ front) n = elim (Bool-cases (eqb c d)) [
    | inl e ↦ rw e (strip_prefix-Inside p front n.1)
    | inr e ↦ rw e tt
  ]

  skip-Inside :
      (front : Codes)
      → Inside (skip_spaces (front ++ tail)) ⊎ (skip_spaces (front ++ tail) ≡ opened)
  unfolding skip_spaces
  skip-Inside [] = inr refl
  skip-Inside (c ∷ front) = elim (Bool-cases (is_space c)) [
    | inl e ↦ rw e (skip-Inside front)
    | inr e ↦ rw e (inl (c ∷ front, refl))
  ]

  span-Inside : (p : ℕ → Bool) (front : Codes) → p 10 ≡ false → Inside (span p (front ++ tail)).1
  unfolding span
  span-Inside p [] n = rw n ([], refl)
  span-Inside p (c ∷ front) n = elim (Bool-cases (p c)) [
    | inl e ↦ rw e (span-Inside p front n)
    | inr e ↦ rw e (c ∷ front, refl)
  ]

  abbrev Behind : {A : Type 0} → A × Codes → Type 0
  Behind r = Inside r.1

  close_early-Inside : (v front : Codes) → Post Behind (close_early v (front ++ tail))
  unfolding without_dashes
  close_early-Inside v front =
      bind-Post Inside Behind (strip_prefix (b'>' ∷ []) (front ++ tail)) _
        (strip_prefix-Inside (b'>' ∷ []) front (refl, tt))
        (λ behind i.
          bind-Post_any Behind (without_dashes v) _
            (λ shorter. bind-Post_any Behind (nonempty shorter) _ (λ w. i)))

  close_at-Inside :
      (v front : Codes) (o : Option Codes)
      → Post Inside o
      → Post Behind (close_at v (front ++ tail) o)
  close_at-Inside v front none h = close_early-Inside v front
  close_at-Inside v front (some r) h = h

  close-Inside : (v front : Codes) → Post Behind (close v (front ++ tail))
  close-Inside v front =
      close_at-Inside v front (strip_prefix (codes "-->") (skip_spaces (front ++ tail)))
        (elim (skip-Inside front) [
          | inl (f, s) ↦ rw s (strip_prefix-Inside (codes "-->") f (refl, (refl, (refl, tt))))
          | inr s ↦ rw s (unfold strip_prefix in tt)
        ])

  -- the chain of `match_marker` from its third step
  abbrev from_name : Codes → Option (Marker × Codes)
  from_name b = do
    let name = span is_lower_or_dash b
    n ← nonempty name.0
    d ← strip_prefix (b':' ∷ []) name.1
    let value = span is_value (skip_spaces d)
    v ← nonempty value.0
    r ← close v value.1
    some ((open_review_marker.head ++ n, r.0), r.1)

  -- and from its fifth step
  abbrev from_value : Codes → Codes → Option (Marker × Codes)
  from_value n d = do
    let value = span is_value d
    v ← nonempty value.0
    r ← close v value.1
    some ((open_review_marker.head ++ n, r.0), r.1)

  after_value-Inside :
      (n w : Codes) (rest : Codes)
      → Inside rest
      → Post
          (Behind {A = Marker})
          (do v ← nonempty w; r ← close v rest; some ((open_review_marker.head ++ n, r.0), r.1))
  after_value-Inside n w rest (front, e) = bind-Post_any Behind (nonempty w) _ (λ v.
      bind-Post (Behind {A = Codes}) Behind (close v rest) _ (rw e (close-Inside v front))
        (λ r i. i))

  from_value-Inside : (n front : Codes) → Post Behind (from_value n (skip_spaces (front ++ tail)))
  from_value-Inside n front = elim (skip-Inside front) [
    | inl (f, s) ↦ rw s (
        after_value-Inside n (span is_value (f ++ tail)).0 (span is_value (f ++ tail)).1
          (span-Inside is_value f refl))
    | inr s ↦ rw s (unfold span strip_prefix skip_spaces in tt)
  ]

  from_name-Inside : (front : Codes) → Post Behind (from_name (front ++ tail))
  from_name-Inside front =
      let name = span is_lower_or_dash (front ++ tail) in
      bind-Post_any Behind (nonempty name.0) _ (λ n.
        let (f, e) = span-Inside is_lower_or_dash front refl in
        bind-Post Inside Behind (strip_prefix (b':' ∷ []) name.1) _
          (rw e (strip_prefix-Inside (b':' ∷ []) f (refl, tt)))
          (λ d (g, i). rw i (from_value-Inside n g)))

  head-Inside :
      (front : Codes)
      → Post Behind
          (strip_prefix open_review_marker.head (skip_spaces (front ++ tail)) >>= from_name)
  head-Inside front = elim (skip-Inside front) [
    | inl (f, s) ↦ rw s (
        bind-Post Inside Behind (strip_prefix open_review_marker.head (f ++ tail)) _
          (strip_prefix-Inside open_review_marker.head f head_unbroken)
          (λ b (g, i). rw i (from_name-Inside g)))
    | inr s ↦ rw s (unfold strip_prefix in tt)
  ]

  match-Inside : (front : Codes) → Post Behind (match_marker open_review_marker (front ++ tail))
  unfolding match_marker
  match-Inside front =
      bind-Post Inside Behind (strip_prefix (codes "<!--") (front ++ tail)) _
        (strip_prefix-Inside (codes "<!--") front (refl, (refl, (refl, (refl, tt)))))
        (λ a (f, e). rw e (head-Inside f))

  abbrev Found : ℕ → Codes → Type 0
  Found k front =
      (ms : List Marker) × (scan open_review_marker k (front ++ tail)
        ≡ ms ++ scan open_review_marker zero tail)

  -- one step of `findall`, by the match at its place
  abbrev stepped : Codes → Option (Marker × Codes) → List Marker
  stepped s none = scan open_review_marker zero s
  stepped s (some (m, rest)) = m ∷ scan open_review_marker (length s - length rest) s

  left-Inside :
      (front rest : Codes) → Inside rest → length (front ++ tail) - length rest ≤ length front
  left-Inside front rest (g, e) =
      rw e (omega (arith, length-append front tail, length-append g tail))

  scan_on-tail :
      (front : Codes) (o : Option (Marker × Codes))
      → Post Behind o
      → ((k : ℕ) → k ≤ length front → Found k front)
      → (ms : List Marker) × (stepped (front ++ tail) o ≡ ms ++ scan open_review_marker zero tail)
  scan_on-tail front none i go = go 0 (omega arith)
  scan_on-tail front (some (m, rest)) i go =
      let (ms, e) = go (length (front ++ tail) - length rest) (left-Inside front rest i) in
      (m ∷ ms, ap (λ r. m ∷ r) e)

  -- What is found in a text before the tail does not hang on the tail.
  pub scan-tail :
      (k : ℕ) (front : Codes)
      → k ≤ length front
      → (ms : List Marker) × (scan open_review_marker k (front ++ tail)
          ≡ ms ++ scan open_review_marker zero tail)
  unfolding scan
  scan-tail zero [] h = ([], refl)
  scan-tail (suc k) [] h = absurd (omega arith)
  scan-tail (suc k) (c ∷ front) h = scan-tail k front (omega arith)
  scan-tail zero (c ∷ front) h =
      scan_on-tail front (match_marker open_review_marker ((c ∷ front) ++ tail))
        (match-Inside (c ∷ front)) (λ k le. scan-tail k front le)
