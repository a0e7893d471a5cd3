-- ===== src/Tests/Start.antt =====
-- The start of a device from its configuration.
use ot_sim.Common.{◌≡◌, refl, true, some, List, [], ◌∷◌, ◌++◌, String, ◌==◌, string_eq, not}
use ot_sim.Common.Dict.{lookup}
use ot_sim.Startup.{Module, Registry, bus_options, add_modules, parse_config}
use ot_sim.Startup.Runners.{runners_of, parse_config-runners}
use ot_sim.Tests.Document.{Tree, node, leaf, branch, documents, first, children_of}

-- A module is its name, and the module "backplane" runs nothing.
abbrev named_modules : Module Tree String (List String)
named_modules = record {
  configure = λ m e. (true, m);
  is_runner = λ m. not (m == "backplane");
  run = λ m pub_endpoint pull_endpoint w. (true, w ++ m ∷ []);
}

abbrev registry : Registry Tree String
registry = record {
  factories =
      ("modbus", λ e. some "modbus")
      ∷ ("backplane", λ e. some "backplane")
      ∷ ("logic", λ e. some "logic")
      ∷ [];
  runners = [];
  pub_endpoint = "";
  pull_endpoint = "";
}

abbrev device : Tree
device = node "ot-sim" "" [] (
    branch (node "message-bus" "" [] (branch (node "pub-endpoint" "ipc:///tmp/pub" [] leaf) leaf)) (
      branch (node "modbus" "" [] leaf)
        (branch (node "backplane" "" [] leaf) (branch (node "logic" "" [] leaf) leaf))))

abbrev started : Registry Tree String
started = record registry { runners = "modbus" ∷ "logic" ∷ []; pub_endpoint = "ipc:///tmp/pub" }

parse_config-runners_example :
    started.runners
    ≡ [] ++ runners_of documents named_modules registry.factories (children_of device)
unfolding parse_config add_modules bus_options lookup
parse_config-runners_example =
    parse_config-runners documents named_modules (λ name e. first name (children_of e)) device
      registry started refl
