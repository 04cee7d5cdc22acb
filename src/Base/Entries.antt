-- ===== src/Base/Entries.antt =====
-- The entries of a dictionary, and its keys, of which none stands twice.
use text.Mathlib.Text.{◌==◌}
use text.Mathlib.TextEquality.{eq_iff}
use Prim.Native.String.{String}
use mathlib.Core.Path.{◌≡◌, sym, subst}
use mathlib.Core.Logic.{◌≢◌, inl, inr}
use mathlib.Core.Option.{some}
use mathlib.Core.List.{List, [], ◌∷◌}
use native.Mathlib.Omega.{arith}
use open_review.Base.Tests.{Bool-cases}
use open_review.Base.Lists.{All, Any}
use open_review.Base.Sorting.{Distinct}
use open_review.Base.Dict.{Dict, get, put}

module _ {ℓ} {V : Type ℓ} where
  -- `d.values()`
  unfoldable pub values : Dict V → List V
  values [] = []
  values ((k, v) ∷ d) = v ∷ values d

  abbrev pub entry_key : String × V → String
  entry_key e = e.0

  pub put-All {κ} :
      (P : String × V → Type κ) (d : Dict V) (k : String) (v : V)
      → P (k, v)
      → All P d
      → All P (put d k v)
  unfolding put
  put-All P [] k v p h = (p, tt)
  put-All P ((j, w) ∷ d) k v p h = elim (Bool-cases (j == k)) [
    | inl e ↦ rw e (subst (λ i. P (i, v)) (sym ((eq_iff j k).0 e)) p, h.1)
    | inr e ↦ rw e (h.0, put-All P d k v p h.1)
  ]

  pub put-Distinct :
      (d : Dict V) (k : String) (v : V) → Distinct entry_key d → Distinct entry_key (put d k v)
  unfolding put
  put-Distinct [] k v h = (tt, tt)
  put-Distinct ((j, w) ∷ d) k v h = elim (Bool-cases (j == k)) [
    | inl e ↦ rw e h
    | inr e ↦ rw e (
      put-All (λ (i : String × V). i.0 ≢ j) d k v (λ (q : k ≡ j). cc ((eq_iff j k).1 (sym q))) h.0,
      put-Distinct d k v h.1,
    )
  ]

  pub get-Any :
      (P : V → Type 0) (d : Dict V) (k : String) (v : V) → get d k ≡ some v → P v → Any P (values d)
  unfolding get values
  get-Any P [] k v g p = cc
  get-Any P ((j, w) ∷ d) k v g p = elim (Bool-cases (j == k)) [
    | inl e ↦ inl (subst P (ground (arith)) p)
    | inr e ↦ inr (get-Any P d k v (ground arith) p)
  ]

  pub values-All {κ} :
      (P : V → Type κ) (d : Dict V) → All (λ (e : String × V). P e.1) d → All P (values d)
  unfolding values
  values-All P [] h = tt
  values-All P ((k, v) ∷ d) h = (h.0, values-All P d h.1)
