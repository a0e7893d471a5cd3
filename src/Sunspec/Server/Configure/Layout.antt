-- ===== src/Sunspec/Server/Configure/Layout.antt =====
-- Where `Configure` of src/go/sunspec/server/server.go puts the registers of a model.
use ot_sim.Common.{
  ℕ, zero, suc, ◌+◌, ◌<◌, ◌≤◌, ◌≡◌, refl, sym, ap, ◌∙◌, true, false, some, List, [], ◌∷◌, ◌++◌,
  ◌==◌, string_eq, length, get_elem?, ltb, arith, ◌⊎◌, inl, inr, Option-cases, Bool-cases,
}
use mathlib.Core.Path.{subst}
use ot_sim.Common.Int.{ℤ, pos, int_eq}
use ot_sim.Common.Dict.{lookup, lookup-insert, lookup-insert_self}
use ot_sim.Config.{
  Configured-cases, done, Ensures, succeeds, fails, Ensures-bind, Ensures-done, Ensures-at,
}
use ot_sim.Float.{FloatOps}
use ot_sim.Sunspec.Model.{
  ScaleFactor, nil, int, float64, string, unknown, SchemaPoint, Schema, get_model_length,
  length_from,
}
use ot_sim.Sunspec.Register.{Register, init}
use ot_sim.Sunspec.Server.Configure.{
  Progress, scaled, fresh, initialized, value_of, make_register, add_register, add_points,
}

-- the words of the points
abbrev pub sizes : {F : Type 0} → Schema F → ℕ
sizes [] = 0
sizes (p ∷ ps) = p.size + sizes ps

length_from-sizes :
    {F : Type 0} (idx : ℕ) (ps : Schema F) (acc : ℕ)
    → 2 ≤ idx
    → length_from idx ps acc ≡ acc + sizes ps
unfolding length_from
length_from-sizes idx [] acc h = omega arith
length_from-sizes idx (p ∷ ps) acc h =
    let more : ltb idx 2 ≡ false = ground arith in
    rw (more, length_from)
      (length_from-sizes (idx + 1) ps (acc + p.size) (omega (arith, h)) ∙ omega arith)

get_elem-append :
    {A : Type 0} (xs : List A) (y x : A) (i : ℕ)
    → get_elem? xs i ≡ some x
    → get_elem? (xs ++ y ∷ []) i ≡ some x
get_elem-append [] y x i e = cc
get_elem-append (z ∷ xs) y x zero e = e
get_elem-append (z ∷ xs) y x (suc i) e = get_elem-append xs y x i e

get_elem-last : {A : Type 0} (xs : List A) (y : A) → get_elem? (xs ++ y ∷ []) (length xs) ≡ some y
get_elem-last [] y = refl
get_elem-last (x ∷ xs) y = get_elem-last xs y

module _ {F Raw : Type 0} where
  -- The address below the next one holds a register whose value is `v`.
  abbrev pub Holds : ℕ → F → Progress F Raw → Type 0
  Holds a v now =
      (ptr : ℕ) × (r : Register F) × (a < now.addr)
      × (lookup (pos a) now.server.registers ≡ some ptr)
      × (get_elem? now.server.heap ptr ≡ some r)
      × (r.internal_value ≡ v)

  Holds-add_register :
      (a : ℕ) (v : F) (p : SchemaPoint F) (q : Register F) (now : Progress F Raw)
      → Holds a v now
      → Holds a v (add_register p q now)
  Holds-add_register a v p q now (ptr, r, below, at, there, is) = (
    ptr,
    r,
    omega (arith, below),
    lookup-insert (pos now.addr) (pos a) (length now.server.heap) now.server.registers
        ∙ rw (apart (Bool-cases (pos now.addr == pos a))) at,
    get_elem-append now.server.heap q r ptr there,
    is,
  )
    where
      apart :
          ((pos now.addr == pos a) ≡ true) ⊎ ((pos now.addr == pos a) ≡ false)
          → (pos now.addr == pos a) ≡ false
      apart (inl same) = ground (arith, int_eq.same_iff (pos now.addr) (pos a), below)
      apart (inr differ) = differ

  -- what `add_points` adds to the address, and keeps
  abbrev Extends : ℕ → F → ℕ → Progress F Raw → Type 0
  Extends a v stop next = (next.addr ≡ stop) × Holds a v next

module _ {F Raw : Type 0} (fl : FloatOps F) where
  add_points-Extends :
      (id : ℤ) (model ps : Schema F) (now : Progress F Raw) (a : ℕ) (v : F)
      → Holds a v now
      → Ensures (Extends a v (now.addr + sizes ps)) (add_points fl id model ps now)
  unfolding add_points
  add_points-Extends id model [] now a v holds = succeeds (omega arith, holds)
  add_points-Extends id model (p ∷ ps) now a v holds =
      elim (Configured-cases (make_register fl id model p)) [
        | inl (x, stop) ↦ rw (stop, add_points) fails
        | inr (r, go) ↦
            rw (go, add_points)
              (subst
                (λ stop.
                  Ensures (Extends a v stop) (add_points fl id model ps (add_register p r now)))
                (omega arith)
                (add_points-Extends id model ps (add_register p r now) a v
                  (Holds-add_register a v p r now holds)))
      ]

module _ {F : Type 0} (fl : FloatOps F) where
  scaled-value :
      (sf : ScaleFactor F) (r : Register F)
      → Ensures (λ (q : Register F). q.internal_value ≡ r.internal_value) (scaled fl sf r)
  scaled-value nil r = succeeds refl
  scaled-value (int n) r = succeeds refl
  scaled-value (float64 v) r = succeeds refl
  scaled-value (string s) r = succeeds refl
  scaled-value unknown r = fails

  init-value : (r r' : Register F) → init fl r ≡ some r' → r'.internal_value ≡ r.internal_value
  unfolding init
  init-value r r' e = ground arith

  make_register-value :
      (id : ℤ) (model : Schema F) (p : SchemaPoint F)
      → Ensures
          (λ (q : Register F). q.internal_value ≡ value_of fl id model p)
          (make_register fl id model p)
  unfolding make_register
  make_register-value id model p =
      let HasValue : Register F → Type 0 = λ q. q.internal_value ≡ value_of fl id model p in
      Ensures-bind HasValue (scaled fl p.sf (fresh fl id model p)) _ (λ r e.
        elim (Option-cases (init fl r)) [
          | inl stop ↦ rw (stop, initialized) fails
          | inr (q, go) ↦
              rw (go, initialized)
                (succeeds
                  (init-value r q go ∙ Ensures-at r (scaled-value p.sf (fresh fl id model p)) e))
        ])

module _ {F Raw : Type 0} (fl : FloatOps F) where
  abbrev Spans : ℕ → Schema F → Progress F Raw → Type 0
  Spans addr model next =
      (next.addr ≡ addr + 2 + get_model_length model)
      × Holds (addr + 1) (fl.from_int (pos (get_model_length model))) next

  -- after the first two points
  rest-Spans :
      (id : ℤ) (p0 p1 : SchemaPoint F) (ps : Schema F) (now : Progress F Raw) (r0 r1 : Register F)
      → p0.size ≡ 1
      → p1.size ≡ 1
      → r1.internal_value ≡ fl.from_int (pos (get_model_length (p0 ∷ p1 ∷ ps)))
      → Ensures
          (Spans now.addr (p0 ∷ p1 ∷ ps))
          (add_points fl id (p0 ∷ p1 ∷ ps) ps (add_register p1 r1 (add_register p0 r0 now)))
  unfolding get_model_length length_from
  rest-Spans id p0 p1 ps now r0 r1 one two is =
      let model = p0 ∷ p1 ∷ ps in
      let first = add_register p0 r0 now in
      let second = add_register p1 r1 first in
      let v = fl.from_int (pos (get_model_length model)) in
      let size : get_model_length model ≡ sizes ps =
        length_from-sizes 2 ps 0 (omega arith) ∙ omega arith in
      let holds : Holds (now.addr + 1) v second = (
        length first.server.heap,
        r1,
        omega (arith, one, two),
        ap (λ (a : ℕ). lookup (pos a) second.server.registers) (omega (arith, one))
            ∙ lookup-insert_self (pos first.addr) (length first.server.heap) first.server.registers,
        get_elem-last first.server.heap r1,
        is,
      ) in
      Ensures-done (Spans now.addr model) (add_points fl id model ps second) (λ next made.
        let (stop, kept) =
          Ensures-at next (add_points-Extends fl id model ps second (now.addr + 1) v holds) made in
        (omega (arith, stop, one, two, size), kept))

  -- The points of a model whose first two have one word each, the second named "L" as in every
  -- SunSpec model, take the two words and as many as `GetModelLength` says; the register behind the
  -- first word holds that length, so that the length read from there leads to the next model.
  pub add_points-Spans :
      (id : ℤ) (p0 p1 : SchemaPoint F) (ps : Schema F) (now next : Progress F Raw)
      → p0.size ≡ 1
      → p1.size ≡ 1
      → (p1.name == "L") ≡ true
      → add_points fl id (p0 ∷ p1 ∷ ps) (p0 ∷ p1 ∷ ps) now ≡ done next
      → Spans now.addr (p0 ∷ p1 ∷ ps) next
  unfolding add_points
  add_points-Spans id p0 p1 ps now next one two named made =
      let model = p0 ∷ p1 ∷ ps in
      elim (Configured-cases (make_register fl id model p0)) [
        | inl (x, stop) ↦ cc
        | inr (r0, go0) ↦ elim (Configured-cases (make_register fl id model p1)) [
          | inl (x, stop) ↦ cc
          | inr (r1, go1) ↦
              Ensures-at next
                (rest-Spans id p0 p1 ps now r0 r1 one two
                  (Ensures-at r1 (make_register-value fl id model p1) go1 ∙ rw named refl))
                (sym (rw (go0, add_points) (rw (go1, add_points) refl)) ∙ made)
        ]
      ]
