-- ===== src/Tests/Messages.antt =====
-- Runs of the message bus library.
use ot_sim.Common.{◌≡◌, refl, some, [], ◌∷◌, string_eq}
use ot_sim.Common.Int.{pos}
use ot_sim.Common.Dict.{lookup}
use ot_sim.Float.Decimal.{integer, decimal_ops, decimal_add}
use ot_sim.Msgbus.Types.{Kind, Status, Envelope, MetricKind}
use ot_sim.Msgbus.Envelope.{status, sender, new_envelope}
use ot_sim.Msgbus.Envelope.Laws.{ReadsBack, ReadsBack-new_envelope}
use ot_sim.Msgbus.Metric.{new_metric}
use ot_sim.Msgbus.Metric.Counts.{incr_all, incr_all-new_metric}
use ot_sim.Tests.Wire.{Wire, wire_json, wire_laws}
use ot_sim.Float.Decimal.{Decimal}

abbrev reading : Status Decimal
reading = record {
  measurements = record { tag = "bus-692.voltage"; value = integer (pos 4160); tstamp = 0 } ∷ [];
}

abbrev reading_envelope : Envelope Wire
reading_envelope = record {
  version = "v1";
  kind = Kind.status;
  metadata = some (("sender", "field-device") ∷ []);
  contents = Wire.status reading;
}

ReadsBack-new_envelope_example :
    (sender reading_envelope ≡ "field-device")
    × ReadsBack wire_json (status reading) reading_envelope
unfolding new_envelope
ReadsBack-new_envelope_example =
    ReadsBack-new_envelope wire_json "field-device" (status reading) {e = reading_envelope}
      wire_laws refl

incr_all-new_metric_example :
    lookup "coil_writes_count" (
      incr_all decimal_ops
        (("coil_writes_count", pos 3) ∷ ("status_count", pos 1) ∷ ("coil_writes_count", pos 2) ∷ [])
        (new_metric decimal_ops MetricKind.counter "coil_writes_count" "writes" []))
    ≡ some (record {
      kind = MetricKind.counter;
      name = "coil_writes_count";
      desc = "writes";
      value = integer (pos 5);
    })
unfolding decimal_add
incr_all-new_metric_example =
    incr_all-new_metric decimal_ops
      (("coil_writes_count", pos 3) ∷ ("status_count", pos 1) ∷ ("coil_writes_count", pos 2) ∷ [])
      MetricKind.counter "coil_writes_count" "writes" []
