-- ===== src/Modbus/Server/Bus.antt =====
-- Status messages from the bus, and the function codes: `handleMsgBusStatus` and the handlers that
-- `Run` registers in src/go/modbus/server/server.go.
use ot_sim.Common.{
  ℕ, Option, none, some, List, [], ◌∷◌, String, ◌==◌, nat_eq, string_eq, if◌then◌else◌,
}
use ot_sim.Common.Dict.{Dict, insert}
use ot_sim.Float.{FloatOps}
use ot_sim.Msgbus.Types.{Point, Status, Envelope, MetricKind}
use ot_sim.Msgbus.Envelope.{sender, get_status, FetchError, not_kind, unmarshaling}
use ot_sim.Msgbus.Pusher.{Bus}
use ot_sim.Msgbus.Metric.{MetricsPusher, new_metric, incr_metric}
use ot_sim.Modbus.Server.State.{Server, Response}
use ot_sim.Modbus.Server.Read.{
  read_coil_registers, read_discrete_registers, read_holding_registers, read_input_registers,
}
use ot_sim.Modbus.Server.Write.{
  write_coil_register, write_holding_register, write_coil_registers, write_holding_registers,
}

-- the loop over the measurements
unfoldable pub set_tags : {F : Type 0} → List (Point F) → Dict String F → Dict String F
set_tags [] tags = tags
set_tags (p ∷ ps) tags = set_tags ps (insert p.tag p.value tags)

module _ {F Raw : Type 0} (fl : FloatOps F) (bus : Bus F Raw) where
  -- A decoding error is logged and what was decoded is used all the same.
  abbrev pub after_fetch : Status F → Option FetchError → Server F Raw → Server F Raw
  after_fetch status (some (not_kind k)) s = s
  after_fetch status (some unmarshaling) s = record s { tags = set_tags status.measurements s.tags }
  after_fetch status none s = record s { tags = set_tags status.measurements s.tags }

  unfoldable pub handle_msg_bus_status : Envelope Raw → Server F Raw → Server F Raw
  handle_msg_bus_status env s =
      let (status, err) = get_status bus.json env in
      if sender env == s.name
      then s
      else after_fetch status err (record s { metrics = incr_metric fl "status_count" s.metrics })

  -- the metrics that `Run` makes
  unfoldable pub start_metrics : MetricsPusher F → MetricsPusher F
  start_metrics ms =
      new_metric fl MetricKind.counter "holding_writes_count" "number of holding writes processed" (
        new_metric fl MetricKind.counter "coil_writes_count" "number of coil writes processed" (
          new_metric fl MetricKind.counter "status_count" "number of status messages processed" ms))

  -- The handler for a function code; `none` where the server has none and answers by itself.
  unfoldable pub handle : ℕ → Server F Raw → List ℕ → Option (Server F Raw × Response)
  handle code s bytes =
      if code == 1
      then some (s, read_coil_registers fl s bytes)
      else if code == 2
      then some (s, read_discrete_registers fl s bytes)
      else if code == 3
      then some (s, read_holding_registers fl s bytes)
      else if code == 4
      then some (s, read_input_registers fl s bytes)
      else if code == 5
      then some (write_coil_register fl bus s bytes)
      else if code == 6
      then some (write_holding_register fl bus s bytes)
      else if code == 15
      then some (write_coil_registers fl bus s bytes)
      else if code == 16
      then some (write_holding_registers fl bus s bytes)
      else none
