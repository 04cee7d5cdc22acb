-- ===== src/Base/Text.antt =====
-- Slices, joins and the order of texts.
use Prim.Native.Nat.{ℕ, suc, zero}
use Prim.Native.String.{String, ◌++◌ as str_append}
use mathlib.Core.Path.{◌≡◌, refl}
use mathlib.Core.Bool.{Bool, true, false, ◌&&◌, ◌||◌}
use mathlib.Core.List.{List, [], ◌∷◌}
use native.Mathlib.Omega.{arith}
use open_review.Base.Tests.{ltb, eqb}
use open_review.Base.Codes.{Codes}

-- `s[:n]`
unfoldable pub prefix : ℕ → String → String
prefix zero s = ""
prefix (suc n) String.[] = ""
prefix (suc n) (String.◌∷◌ c s) = String.◌∷◌ c (prefix n s)

-- `sep.join(items)`
unfoldable pub join : String → List String → String
join sep [] = ""
join sep (s ∷ []) = s
join sep (s ∷ t ∷ rest) = str_append s (str_append sep (join sep (t ∷ rest)))

-- `a < b` on texts, by their code points
unfoldable pub codes_lt : Codes → Codes → Bool
codes_lt s [] = false
codes_lt [] (d ∷ t) = true
codes_lt (c ∷ s) (d ∷ t) = ltb c d || eqb c d && codes_lt s t

pub codes_lt_asym : (s t : Codes) → codes_lt s t ≡ true → codes_lt t s ≡ false
unfolding codes_lt
codes_lt_asym s [] h = ground arith
codes_lt_asym [] (d ∷ t) h = ground arith
codes_lt_asym (c ∷ s) (d ∷ t) h = ground (arith, codes_lt_asym s t)

pub codes_lt_trans :
    (s t u : Codes) → codes_lt s t ≡ true → codes_lt t u ≡ true → codes_lt s u ≡ true
unfolding codes_lt
codes_lt_trans s t [] h k = ground arith
codes_lt_trans s [] (e ∷ u) h k = ground arith
codes_lt_trans [] (d ∷ t) (e ∷ u) h k = refl
codes_lt_trans (c ∷ s) (d ∷ t) (e ∷ u) h k = ground (arith, codes_lt_trans s t u)
