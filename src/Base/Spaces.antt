-- ===== src/Base/Spaces.antt =====
-- White space in texts: `str.isspace`, `str.strip`, and cuts of a text at characters of a class.
use Prim.Native.Nat.{ℕ}
use mathlib.Core.Path.{◌≡◌, refl, ap}
use mathlib.Core.Bool.{Bool, true, false, ◌&&◌, ◌||◌}
use mathlib.Core.List.{List, [], ◌∷◌, ◌++◌, append-nil, append_assoc}
use native.Mathlib.Omega.{arith}
use open_review.Base.Tests.{eqb, leb, if◌then◌else◌, Bool-cases}
use mathlib.Core.Logic.{inl, inr}
use open_review.Base.Lists.{is_empty, All}
use open_review.Base.Codes.{Codes, cons_line}

-- the code points for which `str.isspace` holds, which are those of `\s`
abbrev pub is_space : ℕ → Bool
is_space c =
    leb 9 c && leb c 13
    || leb 28 c && leb c 32
    || eqb c 133
    || eqb c 160
    || eqb c 5760
    || leb 8192 c && leb c 8202
    || eqb c 8232
    || eqb c 8233
    || eqb c 8239
    || eqb c 8287
    || eqb c 12288

-- `s.lstrip()`
unfoldable pub skip_spaces : Codes → Codes
skip_spaces [] = []
skip_spaces (c ∷ s) = if is_space c then skip_spaces s else c ∷ s

-- `s.rstrip()`
unfoldable pub rstrip : Codes → Codes
rstrip [] = []
rstrip (c ∷ s) = let rest = rstrip s in if is_space c && is_empty rest then [] else c ∷ rest

-- `s.strip()`
unfoldable pub strip : Codes → Codes
unfolding skip_spaces rstrip
strip s = rstrip (skip_spaces s)

-- the longest front of characters in a class, and what is behind it
abbrev pub push : ℕ → Codes × Codes → Codes × Codes
push c (s, rest) = (c ∷ s, rest)

unfoldable pub span : (ℕ → Bool) → Codes → Codes × Codes
span p [] = ([], [])
span p (c ∷ s) = let more = push c (span p s) in if p c then more else ([], c ∷ s)

-- `sep.join(items)`
unfoldable pub join_tail : Codes → List Codes → Codes
join_tail sep [] = []
join_tail sep (s ∷ rest) = sep ++ (s ++ join_tail sep rest)

unfoldable pub join : Codes → List Codes → Codes
unfolding join_tail
join sep [] = []
join sep (s ∷ rest) = s ++ join_tail sep rest

-- `s.split(sep)`, for a separator of one character
unfoldable pub split : ℕ → Codes → List Codes
split sep [] = [] ∷ []
split sep (c ∷ s) = let rest = split sep s in if eqb c sep then [] ∷ rest else cons_line c rest

pub join_tail-append :
    (sep : Codes) (xs ys : List Codes)
    → join_tail sep (xs ++ ys) ≡ join_tail sep xs ++ join_tail sep ys
unfolding join_tail
join_tail-append sep [] ys = refl
join_tail-append sep (x ∷ xs) ys = simp (join_tail-append sep xs ys, append_assoc)

-- a word: a text without white space
abbrev pub IsWord : Codes → Type 0
IsWord = All (λ c. is_space c ≡ false)

pub rstrip-IsWord : (s : Codes) → IsWord s → rstrip s ≡ s
unfolding rstrip
rstrip-IsWord [] h = refl
rstrip-IsWord (c ∷ s) h = rw (h.0) (ap (λ r. c ∷ r) (rstrip-IsWord s h.1))

pub strip-IsWord : (s : Codes) → IsWord s → strip s ≡ s
unfolding strip skip_spaces
strip-IsWord [] h = refl
strip-IsWord (c ∷ s) h = rw (h.0) (rstrip-IsWord (c ∷ s) h)

-- A text that ends with a character that is no space.
pub rstrip_ended : (s : Codes) (c : ℕ) → is_space c ≡ false → rstrip (s ++ c ∷ []) ≡ s ++ c ∷ []
unfolding rstrip
rstrip_ended [] c h = rw h refl
rstrip_ended (d ∷ []) c h = rw h (ground arith)
rstrip_ended (d ∷ e ∷ s) c h = rw (rstrip_ended (e ∷ s) c h) (ground arith)

rest_tight : (c : ℕ) (s : Codes) → rstrip (c ∷ s) ≡ c ∷ s → rstrip s ≡ s
unfolding rstrip
rest_tight c s h = ground arith

pub skip-tight : (s : Codes) → rstrip s ≡ s → rstrip (skip_spaces s) ≡ skip_spaces s
unfolding skip_spaces
skip-tight [] h = h
skip-tight (c ∷ s) h = elim (Bool-cases (is_space c)) [
  | inl e ↦ rw e (skip-tight s (rest_tight c s h))
  | inr e ↦ rw e h
]

-- A front of a class, with a character behind it that is not in the class.
pub span_front :
    (p : ℕ → Bool) (w s : Codes) (c : ℕ)
    → All (λ d. p d ≡ true) w
    → p c ≡ false
    → span p (w ++ c ∷ s) ≡ (w, c ∷ s)
unfolding span
span_front p [] s c h n = rw n refl
span_front p (d ∷ w) s c h n = rw (h.0, span_front p w s c h.1 n) refl

abbrev pub Lacks : ℕ → Codes → Type 0
Lacks sep = All (λ c. eqb c sep ≡ false)

split-word : (sep : ℕ) (w : Codes) → Lacks sep w → split sep w ≡ w ∷ []
unfolding split
split-word sep [] h = refl
split-word sep (c ∷ w) h = rw (h.0, split-word sep w h.1) refl

split_front : (sep : ℕ) (w s : Codes) → Lacks sep w → split sep (w ++ sep ∷ s) ≡ w ∷ split sep s
unfolding split
split_front sep [] s h = ground arith
split_front sep (c ∷ w) s h = rw (h.0, split_front sep w s h.1) refl

-- Words that are joined by a separator they lack are what the text splits into.
pub split-join :
    (sep : ℕ) (w : Codes) (ws : List Codes)
    → All (Lacks sep) (w ∷ ws)
    → split sep (join (sep ∷ []) (w ∷ ws)) ≡ w ∷ ws
unfolding join join_tail
split-join sep w [] h = rw (append-nil w) (split-word sep w h.0)
split-join sep w (v ∷ ws) h =
    rw (split_front sep w (v ++ join_tail (sep ∷ []) ws) h.0)
      (ap (λ r. w ∷ r) (split-join sep v ws h.1))

abbrev pub all_of : (ℕ → Bool) → Codes → Bool
all_of p [] = true
all_of p (c ∷ s) = p c && all_of p s

-- the text is not empty, and its characters pass the test
abbrev pub some_of : (ℕ → Bool) → Codes → Bool
some_of p [] = false
some_of p (c ∷ s) = p c && all_of p s

and_both : (a b : Bool) → a && b ≡ true → (a ≡ true) × (b ≡ true)
and_both a b h = ground arith

pub all_of-All : (p : ℕ → Bool) (s : Codes) → all_of p s ≡ true → All (λ c. p c ≡ true) s
all_of-All p [] h = tt
all_of-All p (c ∷ s) h = let (a, b) = and_both (p c) (all_of p s) h in (a, all_of-All p s b)

pub some_of-All : (p : ℕ → Bool) (s : Codes) → some_of p s ≡ true → All (λ c. p c ≡ true) s
some_of-All p [] h = tt
some_of-All p (c ∷ s) h = all_of-All p (c ∷ s) h

pub all_of-append :
    (p : ℕ → Bool) (s t : Codes) → all_of p s ≡ true → all_of p t ≡ true → all_of p (s ++ t) ≡ true
all_of-append p [] t h k = k
all_of-append p (c ∷ s) t h k =
    let (a, b) = and_both (p c) (all_of p s) h in rw a (all_of-append p s t b k)

pub all_of-weaken :
    (p q : ℕ → Bool)
    → ((c : ℕ) → p c ≡ true → q c ≡ true)
    → (s : Codes) → all_of p s ≡ true
    → all_of q s ≡ true
all_of-weaken p q f [] h = refl
all_of-weaken p q f (c ∷ s) h =
    let (a, b) = and_both (p c) (all_of p s) h in rw (f c a) (all_of-weaken p q f s b)

pub some_of-weaken :
    (p q : ℕ → Bool)
    → ((c : ℕ) → p c ≡ true → q c ≡ true)
    → (s : Codes) → some_of p s ≡ true
    → some_of q s ≡ true
some_of-weaken p q f [] h = h
some_of-weaken p q f (c ∷ s) h = all_of-weaken p q f (c ∷ s) h
