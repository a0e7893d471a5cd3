-- ===== src/Logic/Run/Reports.antt =====
-- What `execute` of src/go/logic/logic.go reports as updated, and what it leaves alone.
use ot_sim.Common.{
  every_option, every_if, After, never, ends, After-at, ℕ, ◌+◌, ◌≡◌, refl, sym, ◌∙◌, Bool, true,
  false, ◌||◌, none, some, List, [], ◌∷◌, ◌++◌, String, ◌==◌, string_eq, nat_eq, starts_with, ◌⊎◌,
  inl, inr, arith, Option-cases, Bool-cases, eq_refl, is_some,
}
use mathlib.Core.Path.{subst}
use ot_sim.Common.Int.{int_eq}
use ot_sim.Common.Dict.{Dict, lookup, insert, index, lookup-insert, index-insert}
use ot_sim.Logic.{Value, nil, Env, Language, Logic}
use ot_sim.Logic.Run.{same_value, Progress, assign, run_line, run_lines, execute}

abbrev pub mem : String → List String → Bool
mem v [] = false
mem v (o ∷ os) = o == v || mem v os

or_true : (a : Bool) → (a || true) ≡ true
or_true true = refl
or_true false = refl

mem-append : (v o : String) (os : List String) → mem v (os ++ o ∷ []) ≡ (mem v os || o == v)
mem-append v o [] = ground arith
mem-append v o (p ∷ os) = ground (arith, mem-append v o os)

module _ {F P X : Type 0} (lang : Language F P X) where
  -- Equal values stay equal over a third, in the language and in float64, as in IEEE 754.
  pub record EqualLaws : Type 0 where
    pub equal_trans :
        (a b c : F) → lang.equal b a ≡ true → lang.equal c b ≡ true → lang.equal c a ≡ true
    pub same_trans :
        (a b c : X)
        → lang.same_other b a ≡ some true
        → lang.same_other c b ≡ some true
        → lang.same_other c a ≡ some true

  same_value_trans :
      (x y z : Value F X)
      → EqualLaws
      → same_value lang y x ≡ some true
      → same_value lang z y ≡ some true
      → same_value lang z x ≡ some true
  unfolding same_value
  same_value_trans x y z laws e0 e1 =
      grind (arith, laws.equal_trans, laws.same_trans, string_eq.same_iff, int_eq.same_iff)

  -- What one line keeps where it assigns, all lines keep.
  run_lines-After :
      (P' : Progress lang → Type 0) (program : Dict ℕ P) (tags : Dict String String) (i : ℕ)
      (os : List String) (now : Progress lang)
      → ((o : String) (result : Value F X) (now : Progress lang)
          → mem o os ≡ true
          → P' now
          → After P' (assign lang tags o result now))
      → P' now
      → After P' (run_lines lang program tags i os now)
  unfolding run_lines
  run_lines-After P' program tags i [] now step p = ends p
  run_lines-After P' program tags i (o ∷ os) (env, updated) step p =
      let here : After P' (run_line lang program tags i o (env, updated)) =
        every_if (After P') (o == "") (ends p) (
          every_option (After P') (lang.run (lookup i program) env) (ends p) λ result.
            every_if (After P') (starts_with o "sprintf") (ends p)
              (step o result (env, updated) (rw (eq_refl o) refl) p)) in
      elim (Option-cases (run_line lang program tags i o (env, updated))) [
        | inl stop ↦ rw (stop, run_lines) never
        | inr (next, go) ↦
            rw (go, run_lines)
              (run_lines-After P' program tags (i + 1) os next
                (λ q result now' m. step q result now' (ground arith)) (After-at next here go))
      ]

  -- the value is the same, or Go's `==` says so
  abbrev pub Alike : Value F X → Value F X → Type 0
  Alike old new = (old ≡ new) ⊎ (same_value lang new old ≡ some true)

  Alike-trans :
      (x y z : Value F X) → EqualLaws → Alike x y → same_value lang z y ≡ some true → Alike x z
  Alike-trans x y z laws (inl e) same =
      inr (subst (λ w. same_value lang z w ≡ some true) (sym e) same)
  Alike-trans x y z laws (inr e) same = inr (same_value_trans x y z laws e same)

  -- the variable is reported, or its value is as it was
  abbrev Reported : String → Env F X → Progress lang → Type 0
  Reported v env now = (mem v now.1 ≡ true) ⊎ Alike (index nil v env) (index nil v now.0)

  -- The end of an assignment to a variable with a tag.
  assign_tagged :
      (P' : Progress lang → Type 0) (tags : Dict String String) (o tag : String)
      (result : Value F X) (env : Env F X) (updated : List String)
      → lookup o tags ≡ some tag
      → (same_value lang result (index nil o env) ≡ some true → P' (insert o result env, updated))
      → P' (insert o result env, updated ++ o ∷ [])
      → After P' (assign lang tags o result (env, updated))
  assign_tagged P' tags o tag result env updated e p q =
      elim (Option-cases (same_value lang result (index nil o env))) [
        | inl stop ↦ rw (e, stop, assign) never
        | inr (true, same) ↦ rw (e, same, assign) (ends (p same))
        | inr (false, differ) ↦ rw (e, differ, assign) (ends q)
      ]

  assign_untagged :
      (P' : Progress lang → Type 0) (tags : Dict String String) (o : String) (result : Value F X)
      (env : Env F X) (updated : List String)
      → lookup o tags ≡ none
      → P' (insert o result env, updated)
      → After P' (assign lang tags o result (env, updated))
  assign_untagged P' tags o result env updated e p = rw (e, assign) (ends p)

  assign-Reported :
      (v tag : String) (start : Env F X) (tags : Dict String String) (o : String)
      (result : Value F X) (env : Env F X) (updated : List String)
      → EqualLaws
      → lookup v tags ≡ some tag
      → Reported v start (env, updated)
      → After (Reported v start) (assign lang tags o result (env, updated))
  assign-Reported v tag start tags o result env updated laws known p = elim (Bool-cases (o == v)) [
    | inl here ↦
        let e : o ≡ v = (string_eq.same_iff o v).0 here in
        assign_tagged (Reported v start) tags o tag result env updated (rw e known)
          (λ same. elim p [
            | inl m ↦ inl m
            | inr alike ↦ inr (
                subst (Alike (index nil v start))
                  (sym (index-insert nil o v result env ∙ rw here refl))
                  (Alike-trans _ _ result laws alike
                    (subst (λ w. same_value lang result (index nil w env) ≡ some true) e same)))
          ])
          (inl (mem-append v o updated ∙ rw here (or_true (mem v updated))))
    | inr differ ↦
        let same_there : index nil v (insert o result env) ≡ index nil v env =
          index-insert nil o v result env ∙ rw differ refl in
        elim p [
          | inl m ↦ kept differ (inl m) (inl (mem-append v o updated ∙ rw m refl))
          | inr alike ↦
              let q = subst (Alike (index nil v start)) (sym same_there) alike in
              kept differ (inr q) (inr q)
        ]
  ]
    where
      kept :
          (o == v) ≡ false
          → Reported v start (insert o result env, updated)
          → Reported v start (insert o result env, updated ++ o ∷ [])
          → After (Reported v start) (assign lang tags o result (env, updated))
      kept differ q r = elim (Option-cases (lookup o tags)) [
        | inl bare ↦ assign_untagged (Reported v start) tags o result env updated bare q
        | inr (t, e) ↦ assign_tagged (Reported v start) tags o t result env updated e (λ _. q) r
      ]

  -- Every variable with a tag whose value `execute` changes, by Go's `==`, is among those that it
  -- reports as updated, where equality in float64 and in the language of the programs is
  -- transitive.
  pub execute-Reported :
      {Raw : Type 0} (l : Logic F P X Raw) (v tag : String) (env : Env F X) (updated : List String)
      → EqualLaws
      → execute lang l ≡ some (env, updated)
      → lookup v l.var_to_tag ≡ some tag
      → (mem v updated ≡ true) ⊎ Alike (index nil v l.env) (index nil v env)
  unfolding execute
  execute-Reported l v tag env updated laws ran known =
      After-at (env, updated)
        (run_lines-After (Reported v l.env) l.program l.var_to_tag 0 l.order (l.env, [])
          (λ o result now _ p.
            assign-Reported v tag l.env l.var_to_tag o result now.0 now.1 laws known p)
          (inr (inl refl)))
        ran

  abbrev Framed : String → List String → Dict String String → Env F X → Progress lang → Type 0
  Framed v os tags env now =
      (mem v os ≡ false → lookup v now.0 ≡ lookup v env)
      × (mem v now.1 ≡ true → (mem v os ≡ true) × (is_some (lookup v tags) ≡ true))

  assign-Framed :
      (v : String) (os : List String) (tags : Dict String String) (start : Env F X) (o : String)
      (result : Value F X) (now : Progress lang)
      → mem o os ≡ true
      → Framed v os tags start now
      → After (Framed v os tags start) (assign lang tags o result now)
  assign-Framed v os tags start o result (env, updated) listed (frame, sound) =
      let frame' : mem v os ≡ false → lookup v (insert o result env) ≡ lookup v start =
        λ out. lookup-insert o v result env ∙ rw (elsewhere out) (frame out) in
      elim (Option-cases (lookup o tags)) [
        | inl bare ↦
            assign_untagged (Framed v os tags start) tags o result env updated bare (frame', sound)
        | inr (tag, known) ↦
            assign_tagged (Framed v os tags start) tags o tag result env updated known
              (λ _. (frame', sound))
              (
                frame',
                λ m. elim (Bool-cases (o == v)) [
                  | inl here ↦
                      let e = (string_eq.same_iff o v).0 here in
                      (subst (λ w. mem w os ≡ true) e listed, rw⁻¹ e (rw known refl))
                  | inr differ ↦ sound (ground (arith, mem-append v o updated))
                ],
              )
      ]
    where
      elsewhere : mem v os ≡ false → (o == v) ≡ false
      elsewhere out = ground (arith, string_eq.same_iff o v, listed)

  execute-Framed :
      {Raw : Type 0} (l : Logic F P X Raw) (v : String) (env : Env F X) (updated : List String)
      → execute lang l ≡ some (env, updated)
      → Framed v l.order l.var_to_tag l.env (env, updated)
  unfolding execute
  execute-Framed l v env updated ran =
      After-at (env, updated)
        (run_lines-After (Framed v l.order l.var_to_tag l.env) l.program l.var_to_tag 0 l.order
          (l.env, [])
          (λ o result now listed p.
            assign-Framed v l.order l.var_to_tag l.env o result now listed p)
          (λ _. refl, λ m. cc))
        ran

  -- `execute` leaves every variable that no line of the program assigns as it was.
  pub execute_unassigned :
      {Raw : Type 0} (l : Logic F P X Raw) (v : String) (env : Env F X) (updated : List String)
      → execute lang l ≡ some (env, updated)
      → mem v l.order ≡ false
      → lookup v env ≡ lookup v l.env
  execute_unassigned l v env updated ran = (execute-Framed l v env updated ran).0

  -- `execute` reports as updated only variables that a line assigns and that have a tag.
  pub execute_updated :
      {Raw : Type 0} (l : Logic F P X Raw) (v : String) (env : Env F X) (updated : List String)
      → execute lang l ≡ some (env, updated)
      → mem v updated ≡ true
      → (mem v l.order ≡ true) × (is_some (lookup v l.var_to_tag) ≡ true)
  execute_updated l v env updated ran = (execute-Framed l v env updated ran).1
