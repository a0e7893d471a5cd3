-- ===== src/Sunspec/Client/Data.antt =====
-- The registers that `modelData` of src/go/sunspec/client/util.go makes, and what is looked up in
-- them.
use ot_sim.Common.{
  ℕ, zero, suc, ◌+◌, ◌*◌, ◌≡◌, refl, sym, ap, ◌∙◌, Option, none, some, List, [], ◌∷◌, String, ◌==◌,
  string_eq, if◌then◌else◌, take, drop, slice, get_elem?, arith, ◌⊎◌, inl, inr, Option-cases,
  Bool-cases,
}
use mathlib.Core.Path.{subst}
use mathlib.Core.Option.{some-injective}
use ot_sim.Common.Int.{ℤ, pos, int_eq, ◌+ℤ◌}
use ot_sim.Common.Dict.{Dict, lookup, insert}
use ot_sim.Float.{FloatOps}
use ot_sim.Sunspec.Model.{ScaleFactor, nil, int, float64, string, unknown, SchemaPoint, Schema}
use ot_sim.Sunspec.Register.{Register, Result, ok, err, panics, init, words}
use ot_sim.Sunspec.Server.Configure.Layout.{sizes}
use ot_sim.Sunspec.Client.{
  and_then, or_err, or_panics, blank, with_scale, model_register, model_registers, model_data,
  scaling_for,
}

-- A result, if there is one, of which `P` holds.
data Given {A : Type 0} (P : A → Type 0) : Result A → Type 0 where
  gives : {a : A} → P a → Given P (ok a)
  errs : Given P err
  dies : Given P panics

abbrev result : {A : Type 0} → A → Result A → A
result a (ok b) = b
result a err = a
result a panics = a

Given-at : {A : Type 0} {P : A → Type 0} {o : Result A} (a : A) → Given P o → o ≡ ok a → P a
Given-at {P} a (gives {a = b} p) e = subst P (ap (result b) e) p
Given-at a errs e = cc
Given-at a dies e = cc

Given-and_then :
    {A B : Type 0} (P : B → Type 0) (o : Result A) (f : A → Result B)
    → ((a : A) → o ≡ ok a → Given P (f a))
    → Given P (and_then o f)
Given-and_then P (ok a) f h = h a refl
Given-and_then P err f h = errs
Given-and_then P panics f h = dies

pub Result-cases : {A : Type 0} (o : Result A) → ((a : A) × (o ≡ ok a)) ⊎ ((o ≡ err) ⊎ (o ≡ panics))
Result-cases (ok a) = inl (a, refl)
Result-cases err = inr (inl refl)
Result-cases panics = inr (inr refl)

or_err-ok : {A : Type 0} (o : Option A) (a : A) → or_err o ≡ ok a → o ≡ some a
or_err-ok none a e = cc
or_err-ok (some b) a e = ap some (ap (result b) e)

or_panics-ok : {A : Type 0} (o : Option A) (a : A) → or_panics o ≡ ok a → o ≡ some a
or_panics-ok none a e = cc
or_panics-ok (some b) a e = ap some (ap (result b) e)

module _ {F : Type 0} (Q : String → Register F → Type 0) where
  -- Each entry of the map has `Q`, of its key and its register.
  abbrev pub All : Dict String (Register F) → Type 0
  All [] = Unit
  All ((name, r) ∷ regs) = Q name r × All regs

  pub All-insert :
      (name : String) (r : Register F) (regs : Dict String (Register F))
      → Q name r
      → All regs
      → All (insert name r regs)
  unfolding insert
  All-insert name r [] here all = (here, tt)
  All-insert name r ((first, q) ∷ regs) here (one, all) = elim (Bool-cases (first == name)) [
    | inl same ↦ rw (same, insert) (here, all)
    | inr differ ↦ rw (differ, insert) (one, All-insert name r regs here all)
  ]

  pub All-lookup :
      (name : String) (r : Register F) (regs : Dict String (Register F))
      → All regs
      → lookup name regs ≡ some r
      → Q name r
  unfolding lookup
  All-lookup name r [] all e = cc
  All-lookup name r ((first, q) ∷ regs) (one, all) e = elim (Bool-cases (first == name)) [
    | inl same ↦
        let at : first ≡ name = (string_eq.same_iff first name).0 same in
        let is : q ≡ r = some-injective _ _ (sym (rw (same, lookup) refl) ∙ e) in
        subst (λ k. Q k r) at (subst (Q first) is one)
    | inr differ ↦ All-lookup name r regs all (sym (rw (differ, lookup) refl) ∙ e)
  ]

module _ {F : Type 0} (fl : FloatOps F) where
  -- What a scale factor makes of a register before `Init`: the point that it names, and a scaling of
  -- its own. There is no register of a point with any other factor.
  abbrev pub IsScaled : ScaleFactor F → String → F → Type 0
  IsScaled nil scale_register own = (scale_register ≡ "") × (own ≡ fl.from_int (pos 0))
  IsScaled (int n) scale_register own = (scale_register ≡ "") × (own ≡ fl.from_int n)
  IsScaled (string s) scale_register own = (scale_register ≡ s) × (own ≡ fl.from_int (pos 0))
  IsScaled (float64 v) scale_register own = ⊥
  IsScaled unknown scale_register own = ⊥

  -- What the register of a point of model `m` has, whose data begin at the offset `at`.
  abbrev pub HasData : ℤ → ℤ → List ℕ → ℕ → SchemaPoint F → Register F → Type 0
  HasData m a d at p r =
      (r.name ≡ p.name)
      × (r.data_kind ≡ p.kind)
      × (words p.kind ≡ some r.count)
      × (r.model ≡ m)
      × (r.raw ≡ slice at (at + p.size * 2) d)
      × (r.addr ≡ (if p.writable then a +ℤ pos at else pos 0))
      × (r.internal_value ≡ fl.from_int (pos 0))
      × ((own : F) × IsScaled p.sf r.scale_register own × (r.scaling ≡ fl.abs own))

  -- the same of a register that `Init` has not seen
  abbrev IsBegun : ℤ → ℤ → ℕ → SchemaPoint F → ScaleFactor F → Register F → Type 0
  IsBegun m a at p sf r =
      (r.name ≡ p.name)
      × (r.data_kind ≡ p.kind)
      × (r.model ≡ m)
      × (r.addr ≡ (if p.writable then a +ℤ pos at else pos 0))
      × (r.internal_value ≡ fl.from_int (pos 0))
      × IsScaled sf r.scale_register r.scaling

  with_scale-IsBegun :
      (m a : ℤ) (at : ℕ) (p : SchemaPoint F) (sf : ScaleFactor F)
      → Given (IsBegun m a at p sf) (with_scale fl sf (blank fl m a at p))
  with_scale-IsBegun m a at p nil = gives (refl, refl, refl, refl, refl, (refl, refl))
  with_scale-IsBegun m a at p (int n) = gives (refl, refl, refl, refl, refl, (refl, refl))
  with_scale-IsBegun m a at p (float64 v) = errs
  with_scale-IsBegun m a at p (string s) = gives (refl, refl, refl, refl, refl, (refl, refl))
  with_scale-IsBegun m a at p unknown = errs

  -- What `Init` makes of a register.
  abbrev IsInit : Register F → Register F → Type 0
  IsInit r q =
      (n : ℕ) × (words r.data_kind ≡ some n)
      × (q ≡ record r { count = n; scaling = fl.abs r.scaling })

  init-IsInit : (r q : Register F) → init fl r ≡ some q → IsInit r q
  unfolding init
  init-IsInit r q e = elim (Option-cases (words r.data_kind)) [
    | inl none_of ↦ ground arith
    | inr (n, has) ↦ (n, has, some-injective _ _ (sym e ∙ rw (has, init) refl))
  ]

  with_raw :
      (m a : ℤ) (d : List ℕ) (at : ℕ) (p : SchemaPoint F) (r q : Register F) (raw : List ℕ)
      → IsBegun m a at p p.sf r
      → IsInit r q
      → slice at (at + p.size * 2) d ≡ some raw
      → HasData m a d at p (record q { raw = some raw })
  with_raw m a d at p r q raw (name, kind, model, addr, zero_value, scaled) (n, has, is) cut = (
    ap (λ (x : Register F). x.name) is ∙ name,
    ap (λ (x : Register F). x.data_kind) is ∙ kind,
    sym (ap words kind) ∙ has ∙ ap (λ (x : Register F). some x.count) (sym is),
    ap (λ (x : Register F). x.model) is ∙ model,
    sym cut,
    ap (λ (x : Register F). x.addr) is ∙ addr,
    ap (λ (x : Register F). x.internal_value) is ∙ zero_value,
    (
      r.scaling,
      subst (λ s. IsScaled p.sf s r.scaling) (sym (ap (λ (x : Register F). x.scale_register) is))
          scaled,
      ap (λ (x : Register F). x.scaling) is,
    ),
  )

  model_register-HasData :
      (m a : ℤ) (d : List ℕ) (at : ℕ) (p : SchemaPoint F)
      → Given (HasData m a d at p) (model_register fl m a d at p)
  unfolding model_register
  model_register-HasData m a d at p =
      Given-and_then (HasData m a d at p) (with_scale fl p.sf (blank fl m a at p)) _ (λ r scaled.
        Given-and_then (HasData m a d at p) (or_err (init fl r)) _ (λ q ready.
          Given-and_then (HasData m a d at p) (or_panics (slice at (at + p.size * 2) d)) _
            (λ raw cut. gives (
              with_raw m a d at p r q raw (Given-at r (with_scale-IsBegun m a at p p.sf) scaled)
                (init-IsInit r q (or_err-ok (init fl r) q ready))
                (or_panics-ok (slice at (at + p.size * 2) d) raw cut)))))

  model_registers-All :
      (Q : String → Register F → Type 0) (m a : ℤ) (d : List ℕ) (at : ℕ) (ps : Schema F)
      (regs : Dict String (Register F))
      → ((k : ℕ) (p : SchemaPoint F) (r : Register F)
          → get_elem? ps k ≡ some p
          → HasData m a d (at + sizes (take k ps) * 2) p r
          → Q r.name r)
      → All Q regs
      → Given (All Q) (model_registers fl m a d at ps regs)
  unfolding model_registers
  model_registers-All Q m a d at [] regs step all = gives all
  model_registers-All Q m a d at (p ∷ ps) regs step all =
      elim (Result-cases (model_register fl m a d at p)) [
        | inl (r, go) ↦
            let has = Given-at r (model_register-HasData m a d at p) go in
            rw (go, model_registers)
              (model_registers-All Q m a d (at + p.size * 2) ps (insert r.name r regs)
                (λ k q s found h.
                  step (suc k) q s found (subst (λ (n : ℕ). HasData m a d n q s) (omega arith) h))
                (All-insert Q r.name r regs
                  (step zero p r refl (subst (λ (n : ℕ). HasData m a d n p r) (omega arith) has))
                  all))
        | inr (inl stop) ↦ rw (stop, model_registers) errs
        | inr (inr stop) ↦ rw (stop, model_registers) dies
      ]

  model_data-All :
      (Q : String → Register F → Type 0) (schema : ℤ → Option (Schema F)) (body : Option (List ℕ))
      (m a : ℤ)
      → ((d : List ℕ) (s : Schema F) (k : ℕ) (p : SchemaPoint F) (r : Register F)
          → body ≡ some d
          → schema m ≡ some s
          → get_elem? (drop 2 s) k ≡ some p
          → HasData m a d (sizes (take k (drop 2 s)) * 2) p r
          → Q r.name r)
      → Given (All Q) (model_data fl schema body m a)
  unfolding model_data
  model_data-All Q schema body m a step = Given-and_then (All Q) (or_err body) _ (λ d read.
      Given-and_then (All Q) (or_err (schema m)) _ (λ s known.
        model_registers-All Q m a d 0 (drop 2 s) []
          (λ k p r found h.
            step d s k p r (or_err-ok body d read) (or_err-ok (schema m) s known) found
              (subst (λ (n : ℕ). HasData m a d n p r) (omega arith) h))
          tt))

  -- Every register that `modelData` makes stands under its own name and is that of a point of the
  -- schema behind the first two: it has the name and the data type of the point, the count of words
  -- of this type, and the number of the model. It holds as many bytes as the point has, from behind
  -- those of the points before it. Its address is 0 where the point cannot be written; where it can,
  -- it is the start and the number of the bytes before it, two for each word. A scale factor that is
  -- a string is the name of its scale register, and its own scaling is that of 0; one that is a whole
  -- number is its own scaling, without the sign. Its internal value is 0.
  pub model_data-HasData :
      (schema : ℤ → Option (Schema F)) (m a : ℤ) (d : List ℕ) (s : Schema F)
      (regs : Dict String (Register F)) (name : String) (r : Register F)
      → schema m ≡ some s
      → model_data fl schema (some d) m a ≡ ok regs
      → lookup name regs ≡ some r
      → (name ≡ r.name)
        × (k : ℕ) × (p : SchemaPoint F) × (get_elem? (drop 2 s) k ≡ some p)
        × HasData m a d (sizes (take k (drop 2 s)) * 2) p r
  model_data-HasData schema m a d s regs name r known made found =
      let Q : String → Register F → Type 0 = λ key q.
        (key ≡ q.name)
        × (k : ℕ) × (p : SchemaPoint F) × (get_elem? (drop 2 s) k ≡ some p)
        × HasData m a d (sizes (take k (drop 2 s)) * 2) p q in
      All-lookup Q name r regs
        (Given-at regs
          (model_data-All Q schema (some d) m a (λ d' s' k p q read known' at has.
            let same_data : d' ≡ d = sym (some-injective _ _ read) in
            let same_schema : s' ≡ s = some-injective _ _ (sym known' ∙ known) in
            (
              refl,
              k,
              p,
              subst (λ t. get_elem? (drop 2 t) k ≡ some p) same_schema at,
              subst (λ t. HasData m a t (sizes (take k (drop 2 s)) * 2) p q) same_data
                  (subst (λ t. HasData m a d' (sizes (take k (drop 2 t)) * 2) p q) same_schema has),
            )))
          made)
        found

  -- A register whose value is 0, and whose own scaling is that of 0 if it has a scale register.
  abbrev pub IsZero : String → Register F → Type 0
  IsZero name r =
      (r.internal_value ≡ fl.from_int (pos 0))
      × ((r.scale_register ≡ "") ⊎ (r.scaling ≡ fl.abs (fl.from_int (pos 0))))

  IsScaled-IsZero :
      (sf : ScaleFactor F) (scale_register : String) (own : F)
      → IsScaled sf scale_register own
      → (scale_register ≡ "") ⊎ (own ≡ fl.from_int (pos 0))
  IsScaled-IsZero nil name own (plain, zeroed) = inl plain
  IsScaled-IsZero (int n) name own (plain, same) = inl plain
  IsScaled-IsZero (string s) name own (same, zeroed) = inr zeroed
  IsScaled-IsZero (float64 v) name own never = elim never [ ]
  IsScaled-IsZero unknown name own never = elim never [ ]

  HasData-IsZero :
      (m a : ℤ) (d : List ℕ) (at : ℕ) (p : SchemaPoint F) (r : Register F)
      → HasData m a d at p r
      → IsZero r.name r
  HasData-IsZero m a d at p r (_, _, _, _, _, _, zero_value, (own, scaled, is)) = (
    zero_value,
    elim (IsScaled-IsZero p.sf r.scale_register own scaled) [
      | inl plain ↦ inl plain
      | inr zeroed ↦ inr (is ∙ ap fl.abs zeroed)
    ],
  )

  pub model_data-IsZero :
      (schema : ℤ → Option (Schema F)) (body : Option (List ℕ)) (m a : ℤ)
      (regs : Dict String (Register F))
      → model_data fl schema body m a ≡ ok regs
      → All IsZero regs
  model_data-IsZero schema body m a regs made =
      Given-at regs
        (model_data-All IsZero schema body m a
          (λ d s k p r _ _ _ has. HasData-IsZero m a d (sizes (take k (drop 2 s)) * 2) p r has))
        made

  pub scaling_for-IsZero :
      (points : Dict String (Register F)) (r : Register F)
      → All IsZero points
      → (scaling_for fl points r ≡ none) ⊎ (scaling_for fl points r ≡ some (fl.from_int (pos 0)))
  scaling_for-IsZero points r all = elim (Bool-cases (r.scale_register == "")) [
    | inl plain ↦ rw plain (inr refl)
    | inr scaled ↦ elim (Option-cases (lookup r.scale_register points)) [
      | inl missing ↦ rw (scaled, missing) (inl refl)
      | inr (q, known) ↦
          rw (scaled, known)
            (inr (ap some (All-lookup IsZero r.scale_register q points all known).0))
    ]
  ]
