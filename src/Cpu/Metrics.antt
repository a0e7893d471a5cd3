-- ===== src/Cpu/Metrics.antt =====
-- The metrics that the CPU module collects for Prometheus: src/go/cpu/metrics.go.
pub mod Totals
use ot_sim.Common.{
  Bool, true, false, Option, none, some, List, [], ◌∷◌, String, string_eq, if◌then◌else◌,
}
use ot_sim.Common.Int.{pos}
use ot_sim.Common.Dict.{Dict, lookup, insert}
use ot_sim.Float.{FloatOps}
use ot_sim.Msgbus.Types.MetricKind.{counter, gauge}
use ot_sim.Msgbus.Types.{MetricKind, Metric, Metrics, Envelope, Json}
use ot_sim.Msgbus.Envelope.{FetchError, not_kind, unmarshaling, parse_envelope, get_metrics}

-- What the Prometheus client does for the handler: the name that the regular expression makes,
-- whether the registry takes a new metric after the names it has (else it panics), and whether a
-- counter takes an increment (it panics on a negative one).
pub record Prometheus (F : Type 0) : Type 0 where
  pub safe_name : String → String
  pub registers : List String → String → String → Bool
  pub adds : F → Bool

-- the maps `counters` and `gauges` with their values, and the names that are registered
pub record Collected (F : Type 0) : Type 0 where
  pub counters : Dict String F
  pub gauges : Dict String F
  pub registered : List String

-- `none` is a panic
module _ {F : Type 0} (fl : FloatOps F) (prom : Prometheus F) where
  -- `promauto.NewCounter` and `promauto.NewGauge`
  abbrev registering : Metric F → Collected F → Option (Collected F)
  registering m c =
      let name = prom.safe_name m.name in
      if prom.registers c.registered name m.desc
      then some record c { registered = name ∷ c.registered }
      else none

  -- `counter.Add`, on a counter with the value `v`
  abbrev add_to : Metric F → F → Collected F → Option (Collected F)
  add_to m v c =
      if prom.adds m.value
      then some record c { counters = insert m.name (fl.add v m.value) c.counters }
      else none

  -- `gauge.Set`
  abbrev set_gauge : Metric F → Collected F → Option (Collected F)
  set_gauge m c = some record c { gauges = insert m.name m.value c.gauges }

  -- the `switch` in the loop of `metricsHandler`
  unfoldable pub collect : MetricKind → Metric F → Collected F → Option (Collected F)
  collect counter m c = elim (lookup m.name c.counters) [
    | some v ↦ add_to m v c
    | none ↦ elim (registering m c) [ none ↦ none | some d ↦ add_to m (fl.from_int (pos 0)) d ]
  ]
  collect gauge m c = elim (lookup m.name c.gauges) [
    | some v ↦ set_gauge m c
    | none ↦ elim (registering m c) [ none ↦ none | some d ↦ set_gauge m d ]
  ]
  collect (MetricKind.other s) m c = some c

  unfoldable pub collect_all : List (Metric F) → Collected F → Option (Collected F)
  collect_all [] c = some c
  collect_all (m ∷ ms) c = elim (collect m.kind m c) [ none ↦ none | some d ↦ collect_all ms d ]

  module _ {Raw : Type 0} (json : Json F Raw) where
    abbrev on_metrics : Metrics F × Option FetchError → Collected F → Option (Collected F) × Bool
    on_metrics (metrics, none) c = (collect_all metrics.updates c, false)
    on_metrics (metrics, some (not_kind k)) c = (some c, false)
    on_metrics (metrics, some unmarshaling) c = (some c, true)

    -- the new state, or a panic, and whether the handler returned an error
    unfoldable pub metrics_handler : Raw → Collected F → Option (Collected F) × Bool
    metrics_handler msg c = elim (parse_envelope json msg) [
      | none ↦ (some c, true)
      | some env ↦ on_metrics (get_metrics json env) c
    ]
