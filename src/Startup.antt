-- ===== src/Startup.antt =====
-- The registry of modules and their start: src/go/ot-sim.go. A module's own code is the parameter
-- `Module`; the configuration file is read by the library.
pub mod Runners
use ot_sim.Common.{
  ◌≡◌, refl, sym, ap, ◌∙◌, Bool, true, false, Option, none, some, List, [], ◌∷◌, ◌++◌, map, String,
  ◌==◌, string_eq, if◌then◌else◌, Option-cases, Bool-cases, every_if, inl, inr, ◌⊎◌, append_assoc,
  append-nil,
}
use mathlib.Core.Option.{some-injective}
use ot_sim.Common.Dict.{Dict, lookup, insert}
use ot_sim.Config.{Xml}

-- `M` is a module, and its world `W`. `configure` and `run` tell whether they were without an
-- error; `is_runner` is the assertion that the module is a `Runner`.
pub record Module (E M W : Type 0) : Type 0 where
  pub configure : M → E → Bool × M
  pub is_runner : M → Bool
  pub run : M → String → String → W → Bool × W

-- The package's variables. A factory makes a module of an element; `none` is its error.
pub record Registry (E M : Type 0) : Type 0 where
  pub factories : Dict String (E → Option M)
  pub runners : List M
  pub pub_endpoint : String
  pub pull_endpoint : String

unfoldable pub add_module_factory :
    {E M : Type 0} → String → (E → Option M) → Registry E M → Registry E M
add_module_factory tag factory r = record r { factories = insert tag factory r.factories }

module _ {E M W : Type 0} (xml : Xml E) (modules : Module E M W) where
  -- a child of the element `message-bus`
  abbrev pub bus_option : E → Registry E M → Registry E M
  bus_option child r =
      if xml.tag child == "pub-endpoint"
      then record r { pub_endpoint = xml.text child }
      else if xml.tag child == "pull-endpoint"
      then record r { pull_endpoint = xml.text child }
      else r

  unfoldable pub bus_options : List E → Registry E M → Registry E M
  bus_options [] r = r
  bus_options (child ∷ cs) r = bus_options cs (bus_option child r)

  abbrev pub with_bus : Option E → Registry E M → Registry E M
  with_bus none r = r
  with_bus (some bus) r = bus_options (xml.child_elements bus) r

  -- a module that was made, after `Configure`; `none` is an error
  abbrev pub add_module : Bool × M → Registry E M → Option (Registry E M)
  add_module (false, m) r = none
  add_module (true, m) r =
      some (if modules.is_runner m then record r { runners = r.runners ++ m ∷ [] } else r)

  -- an element that has a factory
  abbrev pub make_module : E → (E → Option M) → Registry E M → Option (Registry E M)
  make_module child factory r = elim (factory child) [
    | none ↦ none
    | some m ↦ add_module (modules.configure m child) r
  ]

  -- the loop over the elements; those without a factory are passed over
  unfoldable pub add_modules : List E → Registry E M → Option (Registry E M)
  add_modules [] r = some r
  add_modules (child ∷ cs) r = elim (lookup (xml.tag child) r.factories) [
    | none ↦ add_modules cs r
    | some factory ↦ elim (make_module child factory r) [
      | none ↦ none
      | some r' ↦ add_modules cs r'
    ]
  ]

  -- `ParseConfigFile` on the root element; `find` is the search for the first element below the
  -- root with a name.
  unfoldable pub parse_config :
      (String → E → Option E) → Option E → Registry E M → Option (Registry E M)
  parse_config find none r = none
  parse_config find (some root) r =
      add_modules (xml.child_elements root) (with_bus (find "message-bus" root) r)

  -- the loop of `Start`: whether all were started, and the world
  unfoldable pub run_all : Registry E M → List M → W → Bool × W
  run_all r [] w = (true, w)
  run_all r (m ∷ ms) w =
      let started = modules.run m r.pub_endpoint r.pull_endpoint w in
      elim started.0 [ false ↦ (false, started.1) | true ↦ run_all r ms started.1 ]

  abbrev pub start_runners : Registry E M → List M → W → Bool × W
  start_runners r [] w = (false, w)
  start_runners r (m ∷ ms) w = run_all r (m ∷ ms) w

  unfoldable pub start : Registry E M → W → Bool × W
  start r w = start_runners r r.runners w
