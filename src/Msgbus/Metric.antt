-- ===== src/Msgbus/Metric.antt =====
-- The metrics that a module keeps and pushes: src/go/msgbus/metric.go. One call of `tick` is one
-- turn of the loop in `Start`, which holds the read lock while it copies the map.
pub mod Counts
use ot_sim.Common.{
  Bool, Option, none, some, List, [], ◌∷◌, String, if◌then◌else◌, map, str_append, starts_with,
  string_eq,
}
use ot_sim.Common.Int.{ℤ, pos}
use ot_sim.Common.Dict.{Dict, lookup, insert}
use ot_sim.Float.{FloatOps}
use ot_sim.Msgbus.Types.{MetricKind, Metric, Metrics}
use ot_sim.Msgbus.Envelope.{new_metric_envelope}
use ot_sim.Msgbus.Pusher.{Bus, Sent, PushError, push, push_string}

-- the field `metrics`
abbrev pub MetricsPusher : Type 0 → Type 0
MetricsPusher F = Dict String (Metric F)

unfoldable pub new_metrics_pusher : {F : Type 0} → MetricsPusher F
new_metrics_pusher = []

module _ {F : Type 0} (fl : FloatOps F) where
  unfoldable pub new_metric : MetricKind → String → String → MetricsPusher F → MetricsPusher F
  new_metric kind name desc metrics =
      insert name (record { kind = kind; name = name; desc = desc; value = fl.from_int (pos 0) })
        metrics

  -- the body of the three methods below: a metric that was never made is left out
  abbrev with_metric : (F → F) → String → MetricsPusher F → MetricsPusher F
  with_metric change name metrics = elim (lookup name metrics) [
    | none ↦ metrics
    | some metric ↦ insert name (record metric { value = change metric.value }) metrics
  ]

  unfoldable pub incr_metric : String → MetricsPusher F → MetricsPusher F
  incr_metric = with_metric (λ v. fl.add v (fl.from_int (pos 1)))

  unfoldable pub incr_metric_by : String → ℤ → MetricsPusher F → MetricsPusher F
  incr_metric_by name val = with_metric (λ v. fl.add v (fl.from_int val)) name

  unfoldable pub set_metric : String → F → MetricsPusher F → MetricsPusher F
  set_metric name val = with_metric (λ _. val) name

-- the copy of one metric, its name behind the module's
abbrev pub prefixed : {F : Type 0} → String → Metric F → Metric F
prefixed prefix metric =
    if starts_with metric.name prefix
    then metric
    else record metric { name = str_append prefix metric.name }

unfoldable pub updates_of : {F : Type 0} → String → MetricsPusher F → List (Metric F)
updates_of name metrics = map (λ e. prefixed (str_append name "_") e.1) metrics

module _ {F Raw : Type 0} (bus : Bus F Raw) where
  abbrev log_error : String → PushError → Sent Raw → Sent Raw
  log_error name err sent =
      (push_string bus "LOG"
        (str_append "[" (str_append name (str_append "] [ERROR] " (bus.describe err)))) sent).1

  abbrev after_push : String → Option PushError × Sent Raw → Sent Raw
  after_push name (none, sent) = sent
  after_push name (some err, sent) = log_error name err sent

  abbrev push_updates : String → List (Metric F) → Sent Raw → Sent Raw
  push_updates name [] sent = sent
  push_updates name (u ∷ us) sent =
      elim (new_metric_envelope bus.json name (record { updates = u ∷ us })) [
        | none ↦ log_error name PushError.marshaling sent
        | some env ↦ after_push name (push bus "HEALTH" env sent)
      ]

  unfoldable pub tick : String → MetricsPusher F → Sent Raw → Sent Raw
  unfolding updates_of
  tick name metrics sent = push_updates name (updates_of name metrics) sent
