-- ===== src/Base/Codes.antt =====
-- Text as a list of code points, for code that walks it.
use Prim.Native.Nat.{ℕ, ◌+◌, ◌-◌, ◌*◌}
use Prim.Native.Char.{code}
use Prim.Native.String.{String}
use mathlib.Core.Path.{◌≡◌}
use mathlib.Core.Bool.{Bool, true, false, ◌&&◌, ◌||◌}
use mathlib.Core.Option.{Option, none, some}
use mathlib.Core.List.{List, [], ◌∷◌, ◌++◌}
use native.Mathlib.Omega.{arith}
use open_review.Base.Tests.{eqb, leb, if◌then◌else◌}

abbrev pub Codes : Type 0
Codes = List ℕ

abbrev pub codes : String → Codes
codes String.[] = []
codes (String.◌∷◌ c s) = code c ∷ codes s

-- what is left of a text behind a prefix
unfoldable pub strip_prefix : Codes → Codes → Option Codes
strip_prefix [] s = some s
strip_prefix (p ∷ ps) [] = none
strip_prefix (p ∷ ps) (c ∷ s) = let rest = strip_prefix ps s in if eqb p c then rest else none

abbrev some_rest : Option Codes → Bool
some_rest none = false
some_rest (some s) = true

-- `s.startswith(p)`, with `p` first
unfoldable pub starts_with : Codes → Codes → Bool
unfolding strip_prefix
starts_with p s = some_rest (strip_prefix p s)

-- `p in s`
unfoldable pub contains : Codes → Codes → Bool
unfolding starts_with
contains p [] = starts_with p []
contains p (c ∷ s) = starts_with p (c ∷ s) || contains p s

abbrev pub is_digit : ℕ → Bool
is_digit c = leb b'0' c && leb c b'9'

-- the value of the digits at the front, after `n`, and the text behind them
unfoldable pub digits_from : ℕ → Codes → ℕ × Codes
digits_from n [] = (n, [])
digits_from n (c ∷ s) =
    let rest = digits_from (n * 10 + (c - b'0')) s in if is_digit c then rest else (n, c ∷ s)

-- `(\d+)`: at least one digit
unfoldable pub number : Codes → Option (ℕ × Codes)
unfolding digits_from
number [] = none
number (c ∷ s) = let r = digits_from 0 (c ∷ s) in if is_digit c then some r else none

-- the characters at which `str.splitlines` ends a line
abbrev pub is_line_break : ℕ → Bool
is_line_break c =
    leb 10 c && leb c 13 || leb 28 c && leb c 30 || eqb c 133 || eqb c 8232 || eqb c 8233

abbrev pub cons_line : ℕ → List Codes → List Codes
cons_line c [] = (c ∷ []) ∷ []
cons_line c (l ∷ ls) = (c ∷ l) ∷ ls

-- The text behind a line break; `cr`: the break is a carriage return, which takes a line feed
-- with it.
unfoldable pub splitlines_from : Bool → Codes → List Codes
splitlines_from cr [] = []
splitlines_from cr (c ∷ s) =
    let rest = splitlines_from (eqb c 13) s in
    let skip = splitlines_from false s in
    if cr && eqb c 10 then skip else if is_line_break c then [] ∷ rest else cons_line c skip

-- `s.splitlines()`
unfoldable pub splitlines : Codes → List Codes
unfolding splitlines_from
splitlines s = splitlines_from false s

-- the lines, each with a line feed behind it
unfoldable pub unlines : List Codes → Codes
unlines [] = []
unlines (l ∷ ls) = l ++ 10 ∷ unlines ls

-- no character of the line ends it
unfoldable pub unbroken : Codes → Bool
unbroken [] = true
unbroken (c ∷ s) = if is_line_break c then false else unbroken s

unfoldable pub all_unbroken : List Codes → Bool
unfolding unbroken
all_unbroken [] = true
all_unbroken (l ∷ ls) = unbroken l && all_unbroken ls

splitlines-line :
    (l s : Codes)
    → unbroken l ≡ true
    → splitlines_from false (l ++ 10 ∷ s) ≡ l ∷ splitlines_from false s
unfolding splitlines_from unbroken
splitlines-line [] s h = ground arith
splitlines-line (c ∷ l) s h = ground (arith, splitlines-line l s)

-- Lines without breaks are what a text that is made of them splits into.
pub splitlines-unlines : (ls : List Codes) → all_unbroken ls ≡ true → splitlines (unlines ls) ≡ ls
unfolding splitlines unlines all_unbroken
splitlines-unlines [] h = ground arith
splitlines-unlines (l ∷ ls) h =
    ground (arith, splitlines-line l (unlines ls), splitlines-unlines ls)
