-- ===== src/Common/Lists.antt =====
-- Lists measured and indexed by the native numbers, and Go's slice expression.
use Prim.Native.Nat.{ℕ, zero, suc, ◌+◌, ◌-◌, ◌≤◌}
use mathlib.Core.Path.{◌≡◌, refl, ap}
use mathlib.Core.Bool.{◌&&◌}
use mathlib.Core.List.{List, [], ◌∷◌, ◌++◌}
use mathlib.Core.Option.{Option, none, some, some-injective}
use mathlib.Core.Logic.{◌⊎◌, inl, inr}
use native.Mathlib.Omega.{arith}
use ot_sim.Common.Tests.{leb, le→leb, if◌then◌else◌}

module _ {ℓ} {A : Type ℓ} where
  abbrev pub length : List A → ℕ
  length [] = 0
  length (x ∷ xs) = suc (length xs)

  abbrev pub get_elem? : List A → ℕ → Option A
  get_elem? [] i = none
  get_elem? (x ∷ xs) zero = some x
  get_elem? (x ∷ xs) (suc i) = get_elem? xs i

  abbrev pub get_or : List A → ℕ → A → A
  get_or [] i d = d
  get_or (x ∷ xs) zero d = x
  get_or (x ∷ xs) (suc i) d = get_or xs i d

  abbrev pub set : List A → ℕ → A → List A
  set [] i v = []
  set (x ∷ xs) zero v = v ∷ xs
  set (x ∷ xs) (suc i) v = x ∷ set xs i v

  abbrev pub take : ℕ → List A → List A
  take zero xs = []
  take (suc n) [] = []
  take (suc n) (x ∷ xs) = x ∷ take n xs

  abbrev pub drop : ℕ → List A → List A
  drop zero xs = xs
  drop (suc n) [] = []
  drop (suc n) (x ∷ xs) = drop n xs

  abbrev pub replicate : ℕ → A → List A
  replicate zero a = []
  replicate (suc n) a = a ∷ replicate n a

module _ {ℓ} {A : Type ℓ} where
  -- `xs[lo:hi]`, where `none` is the run-time panic; a slice's capacity is taken for its length.
  unfoldable pub slice : ℕ → ℕ → List A → Option (List A)
  slice lo hi xs =
      if leb lo hi && leb hi (length xs) then some (take (hi - lo) (drop lo xs)) else none

  pub length-append : (xs ys : List A) → length (xs ++ ys) ≡ length xs + length ys
  length-append [] ys = omega arith
  length-append (x ∷ xs) ys = omega (arith, length-append xs ys)

  pub length-replicate : (n : ℕ) (a : A) → length (replicate n a) ≡ n
  length-replicate zero a = refl
  length-replicate (suc n) a = ap suc (length-replicate n a)

  pub take-append : (xs ys : List A) → take (length xs) (xs ++ ys) ≡ xs
  take-append [] ys = refl
  take-append (x ∷ xs) ys = ap (λ t. x ∷ t) (take-append xs ys)

  length-take : (n : ℕ) (xs : List A) → n ≤ length xs → length (take n xs) ≡ n
  length-take zero xs h = refl
  length-take (suc n) [] h = elim h [ ]
  length-take (suc n) (x ∷ xs) h = ap suc (length-take n xs (omega arith))

  length-drop : (n : ℕ) (xs : List A) → length (drop n xs) ≡ length xs - n
  length-drop zero xs = omega arith
  length-drop (suc n) [] = omega arith
  length-drop (suc n) (x ∷ xs) = omega (arith, length-drop n xs)

  pub slice-some :
      (lo hi : ℕ) (xs : List A)
      → lo ≤ hi
      → hi ≤ length xs
      → (ys : List A) × (slice lo hi xs ≡ some ys) × (length ys ≡ hi - lo)
  unfolding slice
  slice-some lo hi xs h k = (
    take (hi - lo) (drop lo xs),
    rw (le→leb lo hi h) (rw (le→leb hi (length xs) k)),
    length-take (hi - lo) (drop lo xs) (omega (arith, length-drop lo xs)),
  )

-- an element after one was put at the end
pub get_elem-snoc {ℓ} :
    {A : Type ℓ} (os : List A) (o q : A) (i : ℕ)
    → get_elem? (os ++ o ∷ []) i ≡ some q
    → (get_elem? os i ≡ some q) ⊎ ((i ≡ length os) × (o ≡ q))
get_elem-snoc [] o q zero e = inr (refl, some-injective _ _ e)
get_elem-snoc [] o q (suc i) e = cc
get_elem-snoc (p ∷ os) o q zero e = inl e
get_elem-snoc (p ∷ os) o q (suc i) e = elim (get_elem-snoc os o q i e) [
  | inl f ↦ inl f
  | inr (f, g) ↦ inr (ap suc f, g)
]

-- an element after one was replaced
pub get_elem-set {ℓ} :
    {A : Type ℓ} (xs : List A) (i j : ℕ) (a q : A)
    → get_elem? (set xs i a) j ≡ some q
    → (a ≡ q) ⊎ (get_elem? xs j ≡ some q)
get_elem-set [] i j a q e = inr e
get_elem-set (x ∷ xs) zero zero a q e = inl (some-injective _ _ e)
get_elem-set (x ∷ xs) zero (suc j) a q e = inr e
get_elem-set (x ∷ xs) (suc i) zero a q e = inr e
get_elem-set (x ∷ xs) (suc i) (suc j) a q e = get_elem-set xs i j a q e
