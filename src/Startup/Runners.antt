-- ===== src/Startup/Runners.antt =====
-- Which modules `ParseConfigFile` of src/go/ot-sim.go registers to be run.
use ot_sim.Common.{
  ◌≡◌, refl, sym, ap, ◌∙◌, Bool, true, false, Option, none, some, List, [], ◌∷◌, ◌++◌, String, ◌==◌,
  string_eq, if◌then◌else◌, Option-cases, Bool-cases, every_if, inl, inr, append_assoc, append-nil,
}
use mathlib.Core.Option.{some-injective}
use ot_sim.Common.Dict.{Dict, lookup}
use ot_sim.Config.{Xml}
use ot_sim.Startup.{
  Module, Registry, bus_option, bus_options, with_bus, add_module, make_module, add_modules,
  parse_config,
}

module _ {E M W : Type 0} (xml : Xml E) (modules : Module E M W) where
  -- The module of an element, where it has one that is a runner.
  abbrev pub runner_of : Dict String (E → Option M) → E → List M
  runner_of factories child = elim (lookup (xml.tag child) factories) [
    | none ↦ []
    | some factory ↦ elim (factory child) [
      | none ↦ []
      | some m ↦
          let m' = (modules.configure m child).1 in if modules.is_runner m' then m' ∷ [] else []
    ]
  ]

  abbrev pub runners_of : Dict String (E → Option M) → List E → List M
  runners_of factories [] = []
  runners_of factories (child ∷ cs) = runner_of factories child ++ runners_of factories cs

  -- what a list of elements adds, if it adds anything
  abbrev Adds : Registry E M → List E → Registry E M → Type 0
  Adds r cs r' =
      (r'.factories ≡ r.factories) × (r'.runners ≡ r.runners ++ runners_of r.factories cs)

  add_module-Adds :
      (child : E) (factory : E → Option M) (m : M) (r r' : Registry E M)
      → lookup (xml.tag child) r.factories ≡ some factory
      → factory child ≡ some m
      → add_module xml modules (modules.configure m child) r ≡ some r'
      → (r'.factories ≡ r.factories) × (r'.runners ≡ r.runners ++ runner_of r.factories child)
  add_module-Adds child factory m r r' known made added = ended (modules.configure m child) refl
    where
      ended :
          (c : Bool × M)
          → modules.configure m child ≡ c
          → (r'.factories ≡ r.factories) × (r'.runners ≡ r.runners ++ runner_of r.factories child)
      ended (false, m') e = cc
      ended (true, m') e = elim (Bool-cases (modules.is_runner m')) [
        | inl runs ↦
            let is : record r { runners = r.runners ++ m' ∷ [] } ≡ r' =
              some-injective _ _ (sym (rw (e, add_module) (rw runs refl)) ∙ added) in
            let one : runner_of r.factories child ≡ m' ∷ [] =
              rw (known, runner_of) (rw (made, runner_of) (rw e (rw runs refl))) in
            (
              sym (ap (λ q. q.factories) is),
              sym (ap (λ q. q.runners) is) ∙ ap (λ ms. r.runners ++ ms) (sym one),
            )
        | inr idle ↦
            let is : r ≡ r' =
              some-injective _ _ (sym (rw (e, add_module) (rw idle refl)) ∙ added) in
            let nothing : runner_of r.factories child ≡ [] =
              rw (known, runner_of) (rw (made, runner_of) (rw e (rw idle refl))) in
            (
              sym (ap (λ q. q.factories) is),
              sym (ap (λ q. q.runners) is)
                  ∙ sym (append-nil r.runners)
                  ∙ ap (λ ms. r.runners ++ ms) (sym nothing),
            )
      ]

  make_module-Adds :
      (child : E) (factory : E → Option M) (r r' : Registry E M)
      → lookup (xml.tag child) r.factories ≡ some factory
      → make_module xml modules child factory r ≡ some r'
      → (r'.factories ≡ r.factories) × (r'.runners ≡ r.runners ++ runner_of r.factories child)
  make_module-Adds child factory r r' known added = elim (Option-cases (factory child)) [
    | inl stop ↦ cc
    | inr (m, made) ↦
        add_module-Adds child factory m r r' known made (sym (rw (made, make_module) refl) ∙ added)
  ]

  add_modules-Adds :
      (cs : List E) (r r' : Registry E M) → add_modules xml modules cs r ≡ some r' → Adds r cs r'
  unfolding add_modules
  add_modules-Adds [] r r' e =
      let is : r ≡ r' = some-injective _ _ e in
      (sym (ap (λ q. q.factories) is), sym (ap (λ q. q.runners) is) ∙ sym (append-nil r.runners))
  add_modules-Adds (child ∷ cs) r r' e = elim (Option-cases (lookup (xml.tag child) r.factories)) [
    | inl none_for ↦
        let (same, runners) =
          add_modules-Adds cs r r' (sym (rw (none_for, add_modules) refl) ∙ e) in
        let nothing : runner_of r.factories child ≡ [] = rw (none_for, runner_of) refl in
        (same, runners ∙ ap (λ ms. r.runners ++ (ms ++ runners_of r.factories cs)) (sym nothing))
    | inr (factory, known) ↦ elim (Option-cases (make_module xml modules child factory r)) [
      | inl stop ↦ cc
      | inr (q, made) ↦
          let (same, first) = make_module-Adds child factory r q known made in
          let (same', rest) =
            add_modules-Adds cs q r'
              (sym (rw (known, add_modules) (rw (made, add_modules) refl)) ∙ e) in
          (
            same' ∙ same,
            rest
                ∙ ap (λ ms. ms ++ runners_of q.factories cs) first
                ∙ ap (λ fs. (r.runners ++ runner_of r.factories child) ++ runners_of fs cs) same
                ∙ append_assoc r.runners (runner_of r.factories child) (runners_of r.factories cs),
          )
    ]
  ]

  bus_options-same :
      (cs : List E) (r : Registry E M)
      → ((bus_options xml modules cs r).factories ≡ r.factories)
        × ((bus_options xml modules cs r).runners ≡ r.runners)
  unfolding bus_options
  bus_options-same [] r = (refl, refl)
  bus_options-same (c ∷ cs) r =
      let (a, b) = bus_options-same cs (bus_option xml modules c r) in
      let Same : Registry E M → Type 0 =
        λ q. (q.factories ≡ r.factories) × (q.runners ≡ r.runners) in
      let (x, y) : Same (bus_option xml modules c r) =
        every_if Same (xml.tag c == "pub-endpoint") (refl, refl)
          (every_if Same (xml.tag c == "pull-endpoint") (refl, refl) (refl, refl)) in
      (a ∙ x, b ∙ y)

  with_bus-same :
      (o : Option E) (r : Registry E M)
      → ((with_bus xml modules o r).factories ≡ r.factories)
        × ((with_bus xml modules o r).runners ≡ r.runners)
  with_bus-same none r = (refl, refl)
  with_bus-same (some bus) r = bus_options-same (xml.child_elements bus) r

  -- A configuration that is read without an error adds to the runners, in the order of the elements
  -- below the root, the configured module of each element that has a factory and whose module is a
  -- runner, and nothing else.
  pub parse_config-runners :
      (find : String → E → Option E) (root : E) (r r' : Registry E M)
      → parse_config xml modules find (some root) r ≡ some r'
      → r'.runners ≡ r.runners ++ runners_of r.factories (xml.child_elements root)
  unfolding parse_config
  parse_config-runners find root r r' e =
      let (same, kept) = with_bus-same (find "message-bus" root) r in
      let (_, added) =
        add_modules-Adds (xml.child_elements root)
          (with_bus xml modules (find "message-bus" root) r) r' e in
      added
      ∙ ap
          (λ ms.
            ms
            ++ runners_of (with_bus xml modules (find "message-bus" root) r).factories
                (xml.child_elements root))
          kept
      ∙ ap (λ fs. r.runners ++ runners_of fs (xml.child_elements root)) same
