-- ===== src/Common/Dict.antt =====
-- A Go `map` as an association list in which a key stands once. The list's order stands for the
-- order in which `range` visits the map.
pub mod Keys
use mathlib.Core.Path.{◌≡◌, refl}
use mathlib.Core.Logic.{inl, inr}
use mathlib.Core.Bool.{true}
use mathlib.Core.Option.{Option, none, some}
use mathlib.Core.List.{List, [], ◌∷◌}
use native.Mathlib.Omega.{arith}
use ot_sim.Common.Tests.{if◌then◌else◌, Comparable, ◌==◌, eq_refl, or_else, is_some, Bool-cases}

abbrev pub Dict {ℓ κ} : Type ℓ → Type κ → Type (ℓ ⊔ κ)
Dict K V = List (K × V)

module _ {ℓ κ} {K : Type ℓ} {V : Type κ} ⦃c : Comparable K⦄ where
  -- `v, ok := m[k]`
  unfoldable pub lookup : K → Dict K V → Option V
  lookup get [] = none
  lookup get ((first, u) ∷ rest) = if first == get then some u else lookup get rest

  -- `m[k]`, which is the zero value where the key is missing
  unfoldable pub index : V → K → Dict K V → V
  index zero_value k m = or_else (lookup k m) zero_value

  -- `m[k] = v`
  unfoldable pub insert : K → V → Dict K V → Dict K V
  insert put w [] = (put, w) ∷ []
  insert put w ((first, u) ∷ rest) =
      if first == put then (put, w) ∷ rest else (first, u) ∷ insert put w rest

  -- `delete(m, k)`
  unfoldable pub erase : K → Dict K V → Dict K V
  erase k [] = []
  erase k ((j, w) ∷ m) = if j == k then m else (j, w) ∷ erase k m

  -- a key finds what was put last under it
  pub lookup-insert :
      (put get : K) (w : V) (m : Dict K V)
      → lookup get (insert put w m) ≡ (if put == get then some w else lookup get m)
  unfolding insert lookup
  lookup-insert put get w [] = refl
  lookup-insert put get w ((first, u) ∷ rest) = ground (
    arith,
    c.same_iff first put,
    c.same_iff first get,
    c.same_iff put get,
    lookup-insert put get w rest,
  )

  pub lookup-insert_self : (k : K) (v : V) (m : Dict K V) → lookup k (insert k v m) ≡ some v
  lookup-insert_self k v m = rw (lookup-insert k k v m) (rw (eq_refl k))

  pub index-insert :
      (z : V) (k j : K) (v : V) (m : Dict K V)
      → index z j (insert k v m) ≡ (if k == j then v else index z j m)
  unfolding index
  index-insert z k j v m =
      rw (lookup-insert k j v m, index) (elim (Bool-cases (k == j)) [ inl p ↦ rw p | inr p ↦ rw p ])

  pub index-insert_self : (z : V) (k : K) (v : V) (m : Dict K V) → index z k (insert k v m) ≡ v
  index-insert_self z k v m = rw (index-insert z k k v m) (rw (eq_refl k))

  -- a key that was there stays, and one that was put is there
  pub is_some-insert :
      (put get : K) (v : V) (m : Dict K V)
      → is_some (lookup get m) ≡ true
      → is_some (lookup get (insert put v m)) ≡ true
  is_some-insert put get v m h =
      rw (lookup-insert put get v m)
        (elim (Bool-cases (put == get)) [ inl p ↦ rw p refl | inr p ↦ rw p h ])

  pub is_some-insert_self :
      (k : K) (v : V) (m : Dict K V) → is_some (lookup k (insert k v m)) ≡ true
  is_some-insert_self k v m = rw (lookup-insert_self k v m) refl
