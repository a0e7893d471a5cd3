-- ===== src/Tests/Cpu.antt =====
-- Runs of the CPU module's metrics.
use ot_sim.Common.{
  if◌then◌else◌, ◌==◌, nat_eq, ◌≡◌, refl, true, false, none, some, str_append, List, [], ◌∷◌,
  string_eq,
}
use ot_sim.Common.Int.{pos}
use ot_sim.Common.Dict.{lookup, insert}
use ot_sim.Float.Decimal.{Decimal, integer, decimal_ops, decimal_add}
use ot_sim.Msgbus.Types.{MetricKind, Metric, Kind}
use ot_sim.Msgbus.Envelope.{new_metric_envelope, parse_envelope, get_metrics}
use ot_sim.Cpu.Metrics.{Prometheus, Collected, metrics_handler, collect, collect_all}
use ot_sim.Cpu.Metrics.Totals.{IsTotal, metrics_handler-IsTotal}
use ot_sim.Msgbus.Types.{ModuleControl}
use ot_sim.Cpu.Control.{
  Module, Modules, System, Control, control_modules, enable_all, enable, start_module, disable_all,
  disable, waits, clears, run_goroutines,
}
use ot_sim.Cpu.Control.Answers.{IsKeyed, IsKeyed-insert, AllAnswered, control_modules-AllAnswered}
use ot_sim.Cpu.Control.Twice.{disable_all-twice}
use ot_sim.Tests.Wire.{Wire, wire_json, wire_laws, metrics, envelope}

abbrev registry : Prometheus Decimal
registry = record { safe_name = λ s. s; registers = λ names name help. true; adds = λ v. true }

abbrev writes : List (Metric Decimal)
writes =
    record {
      kind = MetricKind.counter;
      name = "modbus_writes";
      desc = "writes";
      value = integer (pos 3);
    }
    ∷ []

abbrev pushed : Wire
pushed =
    envelope "v1" Kind.metric (some (("sender", "modbus") ∷ []))
      (metrics (record { updates = writes }))

abbrev collected : Decimal → Collected Decimal
collected v = record {
  counters = ("modbus_writes", v) ∷ [];
  gauges = [];
  registered = "modbus_writes" ∷ [];
}

-- The module pushes its total at each turn, and the total is added each time: after two turns with
-- three writes in all, the counter stands at six.
pushed_twice :
    (metrics_handler decimal_ops registry wire_json pushed (collected (integer (pos 3)))).0
    ≡ some (collected (integer (pos 6)))
unfolding metrics_handler parse_envelope get_metrics collect collect_all lookup insert decimal_add
pushed_twice = refl

metrics_handler-IsTotal_example :
    ((metrics_handler decimal_ops registry wire_json pushed (collected (integer (pos 3)))).1
      ≡ false)
    × IsTotal decimal_ops registry "modbus_writes" writes
        (collected (integer (pos 3)))
        (collected (integer (pos 6)))
metrics_handler-IsTotal_example =
    metrics_handler-IsTotal decimal_ops registry wire_json "modbus" writes pushed
      (collected (integer (pos 3))) (collected (integer (pos 6))) "modbus_writes" wire_laws
      (unfold new_metric_envelope in (_, refl, refl)) pushed_twice

abbrev logic : Module
logic = record {
  name = "logic";
  path = "ot-sim-logic-module";
  canceler = some false;
  initialized = true;
  goroutines = 1;
}

abbrev modbus : Module
modbus = record {
  name = "modbus";
  path = "ot-sim-modbus-module {{config_file}}";
  canceler = none;
  initialized = false;
  goroutines = 0;
}

abbrev modules : Modules
modules = insert modbus.name modbus (insert logic.name logic [])

abbrev system : System
system = record {
  enabling = λ k name. waits;
  disabling = λ k name. if k == 0 then waits else clears;
  program = λ path. "ot-sim-modbus-module";
  look_path = λ path. true;
  missing = λ path. str_append "module executable does not exist at " path;
}

modules-IsKeyed : IsKeyed modules
modules-IsKeyed =
    IsKeyed-insert modbus (insert logic.name logic [])
      (IsKeyed-insert logic [] (λ k m e. unfold lookup in cc))

abbrev swap : ModuleControl
swap = record {
  list = false;
  enable = "modbus" ∷ "dnp3" ∷ [];
  disable = "logic" ∷ "logic" ∷ [];
  recipient = "CPU";
  confirm = "id";
}

swapped : control_modules system swap modules ≡ record {
  modules =
      ("logic", record logic { canceler = none })
      ∷ (
        "modbus",
        record modbus { path = "ot-sim-modbus-module"; initialized = true; goroutines = 1 },
      )
      ∷ [];
  results = ("modbus", "enabled") ∷ ("logic", "disabled") ∷ [];
  errors = ("dnp3", "does not exist") ∷ ("logic", "already disabled") ∷ [];
  panicked = false;
}
unfolding control_modules enable_all enable start_module disable_all disable run_goroutines lookup
    insert
swapped = refl

-- the names, over a schedule that never runs a goroutine
abbrev asked : Control
asked = record { modules = modules; results = []; errors = []; panicked = false }

disable_all-twice_example :
    (disable_all (λ k name. waits) ("modbus" ∷ "logic" ∷ "dnp3" ∷ "logic" ∷ []) asked).panicked
    ≡ true
unfolding lookup insert
disable_all-twice_example =
    disable_all-twice (λ k name. waits) "logic" ("modbus" ∷ "logic" ∷ "dnp3" ∷ "logic" ∷ []) asked
      logic modules-IsKeyed refl refl (λ k. refl) refl

control_modules-AllAnswered_example :
    AllAnswered (control_modules system swap modules) ("modbus" ∷ "dnp3" ∷ [])
    × AllAnswered (control_modules system swap modules) ("logic" ∷ "logic" ∷ [])
    × IsKeyed (control_modules system swap modules).modules
control_modules-AllAnswered_example =
    control_modules-AllAnswered system swap modules modules-IsKeyed (rw swapped refl)
