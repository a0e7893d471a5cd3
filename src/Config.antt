-- ===== src/Config.antt =====
-- What the modules' `Configure` methods use of other libraries: the XML tree of
-- github.com/beevik/etree and the conversions of Go's standard library, as parameters.
use ot_sim.Common.{
  Bool, true, false, if◌then◌else◌, Option, List, [], ◌∷◌, String, ◌≡◌, refl, ◌⊎◌, inl, inr, arith,
}
use mathlib.Core.Path.{subst}
use ot_sim.Common.Int.{ℤ}

-- An element: `Tag`, `Text()`, `ChildElements()`, `SelectAttr` with its value, `SelectElement`.
pub record Xml (E : Type 0) : Type 0 where
  pub tag : E → String
  pub text : E → String
  pub child_elements : E → List E
  pub select_attr : String → E → Option String
  pub select_element : String → E → Option E

-- `strconv.Atoi` gives a number also where it fails, with whether it did; the others are `none` for
-- an error. `equal_fold` is `strings.EqualFold`, a duration is in nanoseconds.
pub record Conversions (F : Type 0) : Type 0 where
  pub atoi : String → ℤ × Bool
  pub parse_duration : String → Option ℤ
  pub parse_float : String → Option F
  pub parse_bool : String → Option Bool
  pub equal_fold : String → String → Bool

-- the ways in which a `Configure` fails
pub data ConfigError : Type 0 where
  invalid_unit_id invalid_baud_rate invalid_data_bits invalid_stop_bits : ConfigError
  invalid_parity invalid_timeout invalid_period : ConfigError
  missing_type missing_address missing_tag invalid_address invalid_register : ConfigError
  missing_id invalid_id missing_schema unknown_scaling missing_point missing_model : ConfigError
  invalid_program invalid_variable invalid_process_updates missing_client_id : ConfigError
  invalid_endpoint missing_scheme missing_key_pair invalid_key_pair : ConfigError
  missing_authority invalid_authority invalid_template : ConfigError

-- Go's `(A, error)`, of which only one is read
pub data Configured (A : Type 0) : Type 0 where
  done : A → Configured A
  failed : ConfigError → Configured A

infixl 5 ◌>>=◌
abbrev pub ◌>>=◌ : {A B : Type 0} → Configured A → (A → Configured B) → Configured B
done a >>= f = f a
failed e >>= f = failed e

pub Configured-cases :
    {A : Type 0} (c : Configured A)
    → ((e : ConfigError) × (c ≡ failed e)) ⊎ ((a : A) × (c ≡ done a))
Configured-cases (failed e) = inl (e, refl)
Configured-cases (done a) = inr (a, refl)

-- A chain that gives a value gives one of which `P` holds.
pub data Ensures {A : Type 0} (P : A → Type 0) : Configured A → Type 0 where
  succeeds : {a : A} → P a → Ensures P (done a)
  fails : {e : ConfigError} → Ensures P (failed e)

pub Ensures-bind :
    {A B : Type 0} (P : B → Type 0) (m : Configured A) (f : A → Configured B)
    → ((a : A) → m ≡ done a → Ensures P (f a))
    → Ensures P (m >>= f)
Ensures-bind P (done a) f h = h a refl
Ensures-bind P (failed e) f h = fails

pub Ensures-done :
    {A : Type 0} (P : A → Type 0) (m : Configured A) → ((a : A) → m ≡ done a → P a) → Ensures P m
Ensures-done P (done a) h = succeeds (h a refl)
Ensures-done P (failed e) h = fails

pub Ensures-if :
    {A : Type 0} (P : A → Type 0) (b : Bool) {c d : Configured A}
    → Ensures P c
    → Ensures P d
    → Ensures P (if b then c else d)
Ensures-if P true p q = p
Ensures-if P false p q = q

pub Ensures-at :
    {A : Type 0} {P : A → Type 0} {m : Configured A} (a : A) → Ensures P m → m ≡ done a → P a
Ensures-at {P} a (succeeds p) e = subst P (ground arith) p
Ensures-at a fails e = cc

-- the loops over child elements
unfoldable pub fold_all : {A E : Type 0} → (E → A → Configured A) → List E → A → Configured A
fold_all step [] a = done a
fold_all step (e ∷ es) a = elim (step e a) [ failed x ↦ failed x | done b ↦ fold_all step es b ]

-- What every step keeps, the loop keeps.
pub Ensures-fold_all :
    {A E : Type 0} (P : A → Type 0) (step : E → A → Configured A)
    → ((e : E) (a : A) → P a → Ensures P (step e a))
    → (es : List E) (a : A) → P a
    → Ensures P (fold_all step es a)
unfolding fold_all
Ensures-fold_all P step keep [] a p = succeeds p
Ensures-fold_all P step keep (e ∷ es) a p = elim (Configured-cases (step e a)) [
  | inl (x, stop) ↦ rw (stop, fold_all) fails
  | inr (c, go) ↦
      rw (go, fold_all) (Ensures-fold_all P step keep es c (Ensures-at c (keep e a p) go))
]
