-- ===== src/Msgbus/Metric/Counts.antt =====
-- What a sequence of counting calls leaves in each metric.
use ot_sim.Common.{
  ◌≡◌, refl, ◌==◌, eq_refl, some, List, [], ◌∷◌, String, string_eq, if◌then◌else◌, arith,
  Option-cases, inl, inr, ◌∙◌, nat_eq,
}
use ot_sim.Common.Int.{ℤ, pos}
use ot_sim.Common.Dict.{lookup, lookup-insert}
use ot_sim.Float.{FloatOps}
use ot_sim.Msgbus.Types.{MetricKind, Metric}
use ot_sim.Msgbus.Metric.{MetricsPusher, new_metric, incr_metric_by}

module _ {F : Type 0} (fl : FloatOps F) where
  -- a sequence of calls of `IncrMetricBy`
  abbrev pub incr_all : List (String × ℤ) → MetricsPusher F → MetricsPusher F
  incr_all [] ms = ms
  incr_all ((name, val) ∷ calls) ms = incr_all calls (incr_metric_by fl name val ms)

  -- the additions that the calls make to the metric `name`
  abbrev pub tally : String → List (String × ℤ) → F → F
  tally name [] v = v
  tally name ((k, val) ∷ calls) v =
      tally name calls (if k == name then fl.add v (fl.from_int val) else v)

  abbrev pub with_value : F → Metric F → Metric F
  with_value v m = record m { value = v }

  lookup-incr_metric_by :
      (k name : String) (val : ℤ) (ms : MetricsPusher F) (m : Metric F)
      → lookup name ms ≡ some m
      → lookup name (incr_metric_by fl k val ms)
        ≡ some (with_value (if k == name then fl.add m.value (fl.from_int val) else m.value) m)
  unfolding incr_metric_by
  lookup-incr_metric_by k name val ms m h = elim (Option-cases (lookup k ms)) [
    | inl missing ↦ ground (arith, string_eq.same_iff k name)
    | inr (w, found) ↦ ground (
      arith,
      string_eq.same_iff k name,
      lookup-insert k name (with_value (fl.add w.value (fl.from_int val)) w) ms,
    )
  ]

  lookup-incr_all :
      (calls : List (String × ℤ)) (name : String) (ms : MetricsPusher F) (m : Metric F)
      → lookup name ms ≡ some m
      → lookup name (incr_all calls ms) ≡ some (with_value (tally name calls m.value) m)
  lookup-incr_all [] name ms m h = h
  lookup-incr_all ((k, val) ∷ calls) name ms m h =
      lookup-incr_all calls name (incr_metric_by fl k val ms)
        (with_value (if k == name then fl.add m.value (fl.from_int val) else m.value) m)
        (lookup-incr_metric_by k name val ms m h)

  -- A metric that was made and then counted by any calls of `IncrMetricBy`, for it and for others,
  -- keeps its kind, name and description and holds 0 plus the increments given for its name, added
  -- in order.
  pub incr_all-new_metric :
      (calls : List (String × ℤ)) (kind : MetricKind) (name desc : String) (ms : MetricsPusher F)
      → lookup name (incr_all calls (new_metric fl kind name desc ms))
        ≡ some (record {
          kind = kind;
          name = name;
          desc = desc;
          value = tally name calls (fl.from_int (pos 0));
        })
  unfolding new_metric
  incr_all-new_metric calls kind name desc ms =
      lookup-incr_all calls name (new_metric fl kind name desc ms) _
        (lookup-insert name name _ ms ∙ rw (eq_refl name) refl)
