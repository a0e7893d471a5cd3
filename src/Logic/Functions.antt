-- ===== src/Logic/Functions.antt =====
-- The functions that `initEnv` of src/go/logic/logic.go gives to programs: `values`, `sum`, `avg`.
use ot_sim.Common.{
  ℕ, ◌+◌, ◌≡◌, refl, sym, ap, ◌∙◌, inl, inr, arith, length, foldl, append_assoc, append-nil,
  Option-cases, List, [], ◌∷◌, ◌++◌, String, Option, none, some, string_eq,
}
use ot_sim.Common.Int.{pos}
use ot_sim.Common.Dict.{index, insert}
use ot_sim.Float.{FloatOps}
use ot_sim.Logic.{Value, nil, boolean, integer, number, text, other, Env, Language, Logic}

abbrev push_value : {F : Type 0} → Option F → List F → List F
push_value none vs = vs
push_value (some v) vs = vs ++ v ∷ []

abbrev add_value : {F : Type 0} → FloatOps F → Option F → F → F
add_value fl none total = total
add_value fl (some v) total = fl.add total v

abbrev count_value : {F : Type 0} → Option F → ℕ → ℕ
count_value none n = n
count_value (some v) n = n + 1

module _ {F X : Type 0} (fl : FloatOps F) where
  -- the `switch` over a value in the environment
  abbrev pub of_variable : Value F X → Option F
  of_variable (integer n) = some (fl.from_int n)
  of_variable (number v) = some v
  of_variable nil = none
  of_variable (boolean b) = none
  of_variable (text s) = none
  of_variable (other x) = none

  -- the `switch` over an argument: a string names a variable
  abbrev pub of_argument : Env F X → Value F X → Option F
  unfolding index
  of_argument env (text s) = of_variable (index nil s env)
  of_argument env (integer n) = some (fl.from_int n)
  of_argument env (number v) = some v
  of_argument env nil = none
  of_argument env (boolean b) = none
  of_argument env (other x) = none

  -- the loop of `values`
  unfoldable pub values : Env F X → List (Value F X) → List F → List F
  values env [] vs = vs
  values env (e ∷ es) vs = values env es (push_value (of_argument env e) vs)

  -- the loop of `sum`
  unfoldable pub sum : Env F X → List (Value F X) → F → F
  sum env [] total = total
  sum env (e ∷ es) total = sum env es (add_value fl (of_argument env e) total)

  -- the loop of `avg`: the sum and the count
  unfoldable pub totals : Env F X → List (Value F X) → F → ℕ → F × ℕ
  totals env [] total n = (total, n)
  totals env (e ∷ es) total n =
      totals env es (add_value fl (of_argument env e) total) (count_value (of_argument env e) n)

module _ {F P X : Type 0} (fl : FloatOps F) (lang : Language F P X) where
  unfoldable pub avg : Env F X → List (Value F X) → F
  avg env es =
      let (total, n) = totals fl env es (fl.from_int (pos 0)) 0 in
      lang.divide total (fl.from_int (pos n))

-- The values that `initEnv` puts into the environment: a closure, and a slice of strings.
pub record Builtins (X : Type 0) : Type 0 where
  pub closure : String → X
  pub slice : List String → X

unfoldable pub init_env : {F P X Raw : Type 0} → Builtins X → Logic F P X Raw → Logic F P X Raw
init_env b l =
    let env =
      foldl (λ env name. insert name (other (b.closure name)) env) l.env
        ("randInt" ∷ "randFloat" ∷ "randBool" ∷ "values" ∷ "sum" ∷ "avg" ∷ "sprintf" ∷ []) in
    record l { env = insert "variables" (other (b.slice l.variables)) env }

module _ {F X : Type 0} (fl : FloatOps F) (env : Env F X) where
  values-append :
      (es : List (Value F X)) (vs : List F) → values fl env es vs ≡ vs ++ values fl env es []
  unfolding values
  values-append [] vs = sym (append-nil vs)
  values-append (e ∷ es) vs = elim (Option-cases (of_argument fl env e)) [
    | inl out ↦ rw (out, values) (values-append es vs)
    | inr (v, at) ↦
        rw (at, values)
          (values-append es (vs ++ v ∷ [])
            ∙ append_assoc vs (v ∷ []) (values fl env es [])
            ∙ ap (λ ws. vs ++ ws) (sym (values-append es (v ∷ []))))
  ]

  sum-values :
      (es : List (Value F X)) (total : F)
      → sum fl env es total ≡ foldl fl.add total (values fl env es [])
  unfolding values sum
  sum-values [] total = refl
  sum-values (e ∷ es) total = elim (Option-cases (of_argument fl env e)) [
    | inl out ↦ rw (out, values, sum) (sum-values es total)
    | inr (v, at) ↦
        rw (at, values, sum)
          (sum-values es (fl.add total v)
            ∙ ap (λ ws. foldl fl.add total ws) (sym (values-append es (v ∷ []))))
  ]

  totals-values :
      (es : List (Value F X)) (total : F) (n : ℕ)
      → totals fl env es total n
        ≡ (foldl fl.add total (values fl env es []), n + length (values fl env es []))
  unfolding values totals
  totals-values [] total n = ap (λ (k : ℕ). (total, k)) (omega arith)
  totals-values (e ∷ es) total n = elim (Option-cases (of_argument fl env e)) [
    | inl out ↦ rw (out, values, totals) (totals-values es total n)
    | inr (v, at) ↦
        let split : values fl env es (v ∷ []) ≡ v ∷ values fl env es [] =
          values-append es (v ∷ []) in
        rw (at, values, totals)
          (totals-values es (fl.add total v) (n + 1)
            ∙ ap (λ (k : ℕ). (foldl fl.add (fl.add total v) (values fl env es []), k)) (omega arith)
            ∙ ap (λ ws. (foldl fl.add total ws, n + length ws)) (sym split))
  ]

-- Of the same arguments, `sum` is the sum of what `values` gives, added in order from 0, and `avg`
-- is that sum divided by their number, so by 0 where no argument has a value.
pub avg-values :
    {F P X : Type 0} (fl : FloatOps F) (lang : Language F P X) (env : Env F X)
    (es : List (Value F X))
    → (sum fl env es (fl.from_int (pos 0))
        ≡ foldl fl.add (fl.from_int (pos 0)) (values fl env es []))
      × (avg fl lang env es
          ≡ lang.divide
              (sum fl env es (fl.from_int (pos 0)))
              (fl.from_int (pos (length (values fl env es [])))))
unfolding avg
avg-values fl lang env es =
    let zero_sum = fl.from_int (pos 0) in
    (
      sum-values fl env es zero_sum,
      ap (λ t. lang.divide t.0 (fl.from_int (pos t.1))) (totals-values fl env es zero_sum 0)
          ∙ ap
              (λ (n : ℕ).
                lang.divide (foldl fl.add zero_sum (values fl env es [])) (fl.from_int (pos n)))
              (omega arith)
          ∙ ap (λ t. lang.divide t (fl.from_int (pos (length (values fl env es [])))))
              (sym (sum-values fl env es zero_sum)),
    )
