-- ===== src/Common/Dict/Keys.antt =====
-- Maps in which a key stands once.
use mathlib.Core.Path.{◌≡◌, refl}
use mathlib.Core.Logic.{inl, inr}
use mathlib.Core.Option.{none}
use mathlib.Core.List.{[], ◌∷◌}
use native.Mathlib.Omega.{arith}
use ot_sim.Common.Tests.{if◌then◌else◌, Comparable, ◌==◌, Bool-cases}
use ot_sim.Common.Dict.{Dict, lookup, insert, erase, lookup-insert}

module _ {ℓ κ} {K : Type ℓ} {V : Type κ} ⦃c : Comparable K⦄ where
  -- a key stands once
  abbrev pub IsMap : Dict K V → Type (ℓ ⊔ κ)
  IsMap [] = Unit
  IsMap ((k, v) ∷ m) = (lookup k m ≡ none) × IsMap m

  pub lookup-erase :
      (k j : K) (m : Dict K V)
      → IsMap m
      → lookup j (erase k m) ≡ (if k == j then none else lookup j m)
  unfolding lookup erase
  lookup-erase k j [] h = elim (Bool-cases (k == j)) [ inl p ↦ rw p | inr p ↦ rw p ]
  lookup-erase k j ((i, v) ∷ m) h =
      ground (arith, lookup-erase k j m h.1, c.same_iff k j, c.same_iff i j, c.same_iff i k)

  pub IsMap-insert : (k : K) (v : V) (m : Dict K V) → IsMap m → IsMap (insert k v m)
  unfolding insert lookup
  IsMap-insert k v [] h = (refl, tt)
  IsMap-insert k v ((i, u) ∷ m) h = elim (Bool-cases (i == k)) [
    | inl same ↦ rw same (ground (arith, c.same_iff i k), h.1)
    | inr differ ↦ rw differ (
      ground (arith, lookup-insert k i v m, c.same_iff i k, c.same_iff k i),
      IsMap-insert k v m h.1,
    )
  ]

  pub IsMap-erase : (k : K) (m : Dict K V) → IsMap m → IsMap (erase k m)
  unfolding erase
  IsMap-erase k [] h = tt
  IsMap-erase k ((i, u) ∷ m) h = elim (Bool-cases (i == k)) [
    | inl same ↦ rw same h.1
    | inr differ ↦ rw differ (
      ground (arith, lookup-erase k i m h.1, c.same_iff i k, c.same_iff k i),
      IsMap-erase k m h.1,
    )
  ]
