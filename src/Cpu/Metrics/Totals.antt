-- ===== src/Cpu/Metrics/Totals.antt =====
-- What the CPU module has collected after a run of updates.
use ot_sim.Common.{
  ◌≡◌, refl, ◌==◌, ◌&&◌, Bool, true, false, some, List, [], ◌∷◌, String, string_eq, if◌then◌else◌,
  arith, Option-cases, inl, inr,
}
use ot_sim.Common.Int.{pos}
use ot_sim.Common.Dict.{lookup, insert, index, index-insert}
use ot_sim.Float.{FloatOps}
use ot_sim.Msgbus.Types.{MetricKind, Metric, Json, JsonLaws, Envelope}
use ot_sim.Msgbus.Envelope.{new_metric_envelope, parse_envelope, get_metrics}
use ot_sim.Cpu.Metrics.{Prometheus, Collected, collect, collect_all, metrics_handler}

abbrev is_counter : MetricKind → Bool
is_counter MetricKind.counter = true
is_counter _ = false

abbrev is_gauge : MetricKind → Bool
is_gauge MetricKind.gauge = true
is_gauge _ = false

module _ {F : Type 0} (fl : FloatOps F) where
  -- the sum that the counter updates of the name make, onto `v`
  abbrev pub total : String → List (Metric F) → F → F
  total name [] v = v
  total name (m ∷ ms) v =
      total name ms (if is_counter m.kind && m.name == name then fl.add v m.value else v)

  -- the last value of the gauge updates of the name, or `v`
  abbrev pub latest : String → List (Metric F) → F → F
  latest name [] v = v
  latest name (m ∷ ms) v = latest name ms (if is_gauge m.kind && m.name == name then m.value else v)

  abbrev zero_value : F
  zero_value = fl.from_int (pos 0)

  module _ (prom : Prometheus F) where
    counter-shape :
        (m : Metric F) (c d : Collected F)
        → collect fl prom MetricKind.counter m c ≡ some d
        → (d.counters
            ≡ insert m.name (fl.add (index zero_value m.name c.counters) m.value) c.counters)
          × (d.gauges ≡ c.gauges)
    unfolding collect index
    counter-shape m c d h = elim (Option-cases (lookup m.name c.counters)) [
      | inl new ↦ (ground arith, ground arith)
      | inr (v, old) ↦ (ground arith, ground arith)
    ]

    gauge-shape :
        (m : Metric F) (c d : Collected F)
        → collect fl prom MetricKind.gauge m c ≡ some d
        → (d.counters ≡ c.counters) × (d.gauges ≡ insert m.name m.value c.gauges)
    unfolding collect
    gauge-shape m c d h = elim (Option-cases (lookup m.name c.gauges)) [
      | inl new ↦ (ground arith, ground arith)
      | inr (v, old) ↦ (ground arith, ground arith)
    ]

    module _ (name : String) where
      -- what one update leaves under the name, in both maps
      abbrev pub IsTotal : List (Metric F) → Collected F → Collected F → Type 0
      IsTotal ms c d =
          (index zero_value name d.counters ≡ total name ms (index zero_value name c.counters))
          × (index zero_value name d.gauges ≡ latest name ms (index zero_value name c.gauges))

      collect-IsTotal :
          (k : MetricKind) (m : Metric F) (c d : Collected F)
          → m.kind ≡ k
          → collect fl prom k m c ≡ some d
          → IsTotal (m ∷ []) c d
      collect-IsTotal MetricKind.counter m c d e h =
          let (up, same) = counter-shape m c d h in
          (
            ground (
              arith,
              string_eq.same_iff m.name name,
              index-insert zero_value m.name name
                  (fl.add (index zero_value m.name c.counters) m.value) c.counters,
            ),
            ground arith,
          )
      collect-IsTotal MetricKind.gauge m c d e h =
          let (same, up) = gauge-shape m c d h in
          (
            ground arith,
            ground (
              arith,
              string_eq.same_iff m.name name,
              index-insert zero_value m.name name m.value c.gauges,
            ),
          )
      collect-IsTotal (MetricKind.other s) m c d e h =
          unfold collect in (ground arith, ground arith)

      collect_all-IsTotal :
          (ms : List (Metric F)) (c d : Collected F)
          → collect_all fl prom ms c ≡ some d
          → IsTotal ms c d
      unfolding collect_all
      collect_all-IsTotal [] c d h = (ground arith, ground arith)
      collect_all-IsTotal (m ∷ ms) c d h = elim (Option-cases (collect fl prom m.kind m c)) [
        | inl stop ↦ cc
        | inr (b, go) ↦
            let (counted, gauged) = collect-IsTotal m.kind m c b refl go in
            let (counters, gauges) = collect_all-IsTotal ms b d (ground arith) in
            (ground arith, ground arith)
      ]

module _ {F Raw : Type 0} (fl : FloatOps F) (prom : Prometheus F) (json : Json F Raw) where
  -- what `Push` and the other end make of a module's updates
  abbrev pub Carries : String → List (Metric F) → Raw → Type 0
  Carries from updates msg =
      (env : Envelope Raw) × (new_metric_envelope json from (record { updates = updates })
        ≡ some env)
      × (json.envelope.marshal env ≡ some msg)

  parse-Carries :
      (from : String) (updates : List (Metric F)) (msg : Raw)
      → JsonLaws json
      → Carries from updates msg
      → (c : Collected F)
      → metrics_handler fl prom json msg c ≡ (collect_all fl prom updates c, false)
  unfolding metrics_handler parse_envelope get_metrics new_metric_envelope
  parse-Carries from updates msg laws (env, sealed, sent) c =
      elim (Option-cases (json.metrics.marshal (record { updates = updates }))) [
        | inl failed ↦ cc
        | inr (raw, ok) ↦ ground (
          arith,
          laws.metrics_round (record { updates = updates }) raw,
          laws.envelope_round env msg,
        )
      ]

  -- A message with a module's updates, where the JSON codecs give back what they were given and
  -- nothing panics, is handled without an error. It adds to the counter of each name the values of
  -- all counter updates of that name, in order, and sets each gauge to the last value given.
  pub metrics_handler-IsTotal :
      (from : String) (updates : List (Metric F)) (msg : Raw) (c d : Collected F) (name : String)
      → JsonLaws json
      → Carries from updates msg
      → (metrics_handler fl prom json msg c).0 ≡ some d
      → ((metrics_handler fl prom json msg c).1 ≡ false) × IsTotal fl prom name updates c d
  metrics_handler-IsTotal from updates msg c d name laws carried h =
      let e = parse-Carries from updates msg laws carried c in
      (ground arith, collect_all-IsTotal fl prom name updates c d (ground arith))
