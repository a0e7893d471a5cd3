-- ===== src/Common/Tests.antt =====
-- Boolean tests on the native numbers, the conditional, and case splits that keep an equation.
use Prim.Native.Nat.{ℕ, zero, suc, ◌≤◌, ◌<◌, compare, Ordering}
use Prim.Native.String.{String}
use mathlib.Core.Path.{◌≡◌, refl, subst}
use mathlib.Core.Option.{some-injective}
use mathlib.Core.Logic.{◌↔◌, ◌⊎◌, inl, inr}
use mathlib.Core.Bool.{Bool, true, false, ◌&&◌}
use mathlib.Core.Option.{Option, none, some}
use native.Mathlib.Omega.{arith}
use text.Mathlib.Text.{◌==◌ as str_eq}
use text.Mathlib.TextEquality.{eq_iff}

abbrev pub ltb : ℕ → ℕ → Bool
ltb a b = elim (compare a b) [ Ordering.lt ↦ true | _ ↦ false ]

abbrev pub leb : ℕ → ℕ → Bool
leb a b = elim (compare a b) [ Ordering.gt ↦ false | _ ↦ true ]

pub le→leb : (a b : ℕ) → a ≤ b → leb a b ≡ true
le→leb a b h = ground arith

abbrev pub nat_beq : ℕ → ℕ → Bool
nat_beq a b = elim (compare a b) [ Ordering.eq ↦ true | _ ↦ false ]

infix 1 if◌then◌else◌
abbrev pub if◌then◌else◌ {ℓ} : {A : Type ℓ} → Bool → A → A → A
if true then x else y = x
if false then x else y = y

pub nat_beq_iff : (a b : ℕ) → (nat_beq a b ≡ true) ↔ (a ≡ b)
nat_beq_iff a b = ground arith

-- Go's `comparable`: the keys of a map, with the test `==` that the language gives them.
pub record Comparable {ℓ} (K : Type ℓ) : Type ℓ where
  pub same : K → K → Bool
  pub same_iff : (j k : K) → (same j k ≡ true) ↔ (j ≡ k)

infix 50 ◌==◌
abbrev pub ◌==◌ {ℓ} : {K : Type ℓ} ⦃c : Comparable K⦄ → K → K → Bool
◌==◌ ⦃c = c⦄ j k = c.same j k

pub eq_refl {ℓ} : {K : Type ℓ} ⦃c : Comparable K⦄ (k : K) → (k == k) ≡ true
eq_refl ⦃c⦄ k = (c.same_iff k k).1 refl

instance abbrev pub string_eq : Comparable String
string_eq = record { same = str_eq; same_iff = eq_iff }

instance abbrev pub nat_eq : Comparable ℕ
nat_eq = record { same = nat_beq; same_iff = nat_beq_iff }

pub Bool-cases : (b : Bool) → (b ≡ true) ⊎ (b ≡ false)
Bool-cases true = inl refl
Bool-cases false = inr refl

pub Option-cases {ℓ} : {A : Type ℓ} (o : Option A) → (o ≡ none) ⊎ ((a : A) × (o ≡ some a))
Option-cases none = inl refl
Option-cases (some a) = inr (a, refl)

pub ltb-cases : (a b : ℕ) → ((a < b) × (ltb a b ≡ true)) ⊎ ((b ≤ a) × (ltb a b ≡ false))
ltb-cases a b = elim (Bool-cases (ltb a b)) [
  | inl h ↦ inl (ground arith, h)
  | inr h ↦ inr (ground arith, h)
]

abbrev pub is_some {ℓ} : {A : Type ℓ} → Option A → Bool
is_some none = false
is_some (some _) = true

abbrev pub or_else {ℓ} : {A : Type ℓ} → Option A → A → A
or_else none d = d
or_else (some a) d = a

pub and_left : (a b : Bool) → (a && b) ≡ true → a ≡ true
and_left true b h = refl
and_left false b h = h

pub and_right : (a b : Bool) → (a && b) ≡ true → b ≡ true
and_right true b h = h
and_right false b h = cc

-- A test of every number below a bound, for what is settled by evaluation.
unfoldable pub holds_below : ℕ → (ℕ → Bool) → Bool
holds_below zero test = true
holds_below (suc m) test = holds_below m test && test m

pub holds_below-at :
    (m : ℕ) (test : ℕ → Bool) (i : ℕ) → holds_below m test ≡ true → i < m → test i ≡ true
unfolding holds_below
holds_below-at zero test i all below = elim below [ ]
holds_below-at (suc m) test i all below = elim (Bool-cases (nat_beq i m)) [
  | inl top ↦ rw ((nat_beq_iff i m).0 top) (and_right (holds_below m test) (test m) all)
  | inr lower ↦ holds_below-at m test i (and_left (holds_below m test) (test m) all) (ground arith)
]

-- What holds of every end of a chain of lookups holds of the chain.
pub every_option :
    {A B : Type 0} (P : B → Type 0) (o : Option A) {n : B} {f : A → B}
    → P n
    → ((a : A) → P (f a))
    → P (elim o [ none ↦ n | some a ↦ f a ])
every_option P none p q = p
every_option P (some a) p q = q a

pub every_if :
    {B : Type 0} (P : B → Type 0) (b : Bool) {c d : B} → P c → P d → P (if b then c else d)
every_if P true p q = p
every_if P false p q = q

-- A computation that may panic ends, if it does not, in a value of which `P` holds.
pub data After {A : Type 0} (P : A → Type 0) : Option A → Type 0 where
  never : After P none
  ends : {a : A} → P a → After P (some a)

pub After-at : {A : Type 0} {P : A → Type 0} {o : Option A} (a : A) → After P o → o ≡ some a → P a
After-at a never e = cc
After-at {P} a (ends p) e = subst P (some-injective _ _ e) p
