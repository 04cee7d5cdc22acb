-- ===== src/Base/StrSet.antt =====
-- A Python set of texts.
use text.Mathlib.Text.{◌==◌}
use text.Mathlib.TextEquality.{eq_iff}
use Prim.Native.String.{String}
use mathlib.Core.Path.{◌≡◌}
use mathlib.Core.Bool.{Bool, true, false}
use mathlib.Core.List.{List, [], ◌∷◌}
use native.Mathlib.Omega.{arith}
use open_review.Base.Tests.{if◌then◌else◌}

abbrev pub StrSet : Type 0
StrSet = List String

unfoldable pub has : StrSet → String → Bool
has [] k = false
has (j ∷ s) k = if j == k then true else has s k

unfoldable pub add : StrSet → String → StrSet
add s k = if has s k then s else k ∷ s

unfoldable pub discard : StrSet → String → StrSet
discard [] k = []
discard (j ∷ s) k = let rest = discard s k in if j == k then rest else j ∷ rest

pub has-add : (s : StrSet) (k j : String) → has (add s k) j ≡ (if k == j then true else has s j)
unfolding has add
has-add s k j = ground (arith, eq_iff k j)

pub has-discard :
    (s : StrSet) (k j : String) → has (discard s k) j ≡ (if k == j then false else has s j)
unfolding has discard
has-discard [] k j = ground arith
has-discard (i ∷ s) k j = ground (arith, eq_iff k j, eq_iff i k, eq_iff i j, has-discard s k j)

pub ruleset set_laws = (has-add, has-discard)
