-- ===== src/Tests/Sunspec.antt =====
-- Runs of the SunSpec registers and server, after the server of src/configs.
use ot_sim.Common.{ℕ, ◌≡◌, refl, List, [], ◌∷◌, arith, slice, string_eq, zero, suc}
use ot_sim.Common.Int.{pos, int_eq}
use mathlib.Core.Path.{subst}
use mathlib.Core.Option.{some-injective}
use ot_sim.Common.Dict.{lookup}
use ot_sim.Modbus.Register.{to_bytes}
use ot_sim.Float.Decimal.{Decimal, integer, decimal_ops, to_pattern, decimal_mul}
use ot_sim.Modbus.Server.State.{uint16_at, success, diverges}
use ot_sim.Sunspec.Register.{Register, int16, sunssf, string8, named, bytes}
use ot_sim.Sunspec.Server.{
  Server, scaling_for, read_words, read_holding_registers, write_holding_registers,
}
use ot_sim.Sunspec.Server.Reply.{
  PointReply, IsReadyServer, read_holding_registers-PointReply, IsReady,
}
use ot_sim.Sunspec.Server.Stuck.{write_holding_registers-diverges}
use ot_sim.Sunspec.Server.Known.{renewed, handle_msg_bus_status-renewed}
use ot_sim.Msgbus.Types.{Kind, Status, Envelope}
use ot_sim.Msgbus.Envelope.{new_envelope}
use ot_sim.Sunspec.Server.{handle_msg_bus_status}
use ot_sim.Common.{some}
use ot_sim.Tests.Wire.{Wire, wire_laws, open_bus}

-- watts in steps of 10, the scale factor, and a name
abbrev watts : Register Decimal
watts = record (named decimal_ops int16 "W" (integer (pos 0))) {
  count = 1;
  tag = "inverter.w";
  scale_register = "W_SF";
}

abbrev watts_scale : Register Decimal
watts_scale = record (named decimal_ops sunssf "W_SF" (integer (pos 1))) { count = 1 }

abbrev manufacturer : Register Decimal
manufacturer = record (named decimal_ops string8 "Mn" (integer (pos 0))) {
  count = 8;
  internal_string = 65 ∷ 67 ∷ [];
}

abbrev inverter : Server Decimal Wire
inverter = record {
  pull_endpoint = "";
  pub_endpoint = "";
  name = "inverter";
  endpoint = "";
  heap = watts ∷ watts_scale ∷ manufacturer ∷ [];
  registers = (pos 40000, 0) ∷ (pos 40001, 1) ∷ (pos 40002, 2) ∷ [];
  points = ("W", 0) ∷ ("W_SF", 1) ∷ ("Mn", 2) ∷ [];
  tags = ("inverter.w", integer (pos 1230)) ∷ [];
  sent = [];
}

abbrev first_ten : List ℕ
first_ten = 0x9c ∷ 0x40 ∷ 0 ∷ 10 ∷ []

inverter_read :
    read_holding_registers decimal_ops inverter first_ten
    ≡ success (
        20 ∷ 0 ∷ 123 ∷ 0 ∷ 1 ∷ 65 ∷ 67 ∷ 0 ∷ 0 ∷ 0 ∷ 0 ∷ 0 ∷ 0 ∷ 0 ∷ 0 ∷ 0 ∷ 0 ∷ 0 ∷ 0 ∷ 0 ∷ 0 ∷ [])
unfolding read_holding_registers read_words lookup uint16_at bytes scaling_for to_bytes to_pattern
    decimal_mul slice
inverter_read = refl

inverter-IsReadyServer : IsReadyServer decimal_ops inverter
unfolding lookup
inverter-IsReadyServer zero r h =
    subst (λ r. IsReady decimal_ops inverter r) (some-injective _ _ h) (refl, omega arith, λ k. cc)
inverter-IsReadyServer (suc zero) r h =
    subst (λ r. IsReady decimal_ops inverter r) (some-injective _ _ h) (refl, omega arith, λ k. cc)
inverter-IsReadyServer (suc (suc zero)) r h =
    subst (λ r. IsReady decimal_ops inverter r) (some-injective _ _ h)
      (refl, omega arith, λ k. refl)
inverter-IsReadyServer (suc (suc (suc i))) r h = cc

read_holding_registers-PointReply_example :
    PointReply decimal_ops inverter 10 (read_holding_registers decimal_ops inverter first_ten)
unfolding uint16_at lookup slice
read_holding_registers-PointReply_example =
    read_holding_registers-PointReply decimal_ops inverter first_ten 40000 10 inverter-IsReadyServer
      refl refl

write_holding_registers-diverges_example :
    (write_holding_registers decimal_ops open_bus 1000 inverter
      (0x9c ∷ 0x40 ∷ 0 ∷ 1 ∷ 2 ∷ 0 ∷ 5 ∷ [])).1
    ≡ diverges
unfolding uint16_at lookup slice scaling_for
write_holding_registers-diverges_example =
    write_holding_registers-diverges decimal_ops open_bus 1000 inverter
      (0x9c ∷ 0x40 ∷ 0 ∷ 1 ∷ 2 ∷ 0 ∷ 5 ∷ []) 40000 1 0 watts refl refl (omega arith)
      (refl, refl, refl) refl refl (omega arith)

abbrev solar : Status Decimal
solar = record {
  measurements =
      record { tag = "inverter.w"; value = integer (pos 900); tstamp = 0 }
      ∷ record { tag = "pump.on"; value = integer (pos 1); tstamp = 0 }
      ∷ [];
}

abbrev solar_envelope : Envelope Wire
solar_envelope = record {
  version = "v1";
  kind = Kind.status;
  metadata = some (("sender", "io") ∷ []);
  contents = Wire.status solar;
}

handle_msg_bus_status-renewed_example :
    (lookup "pump.on" (handle_msg_bus_status decimal_ops open_bus solar_envelope inverter).tags
      ≡ renewed "pump.on" solar.measurements (lookup "pump.on" inverter.tags))
    × ((handle_msg_bus_status decimal_ops open_bus solar_envelope inverter).heap ≡ inverter.heap)
    × ((handle_msg_bus_status decimal_ops open_bus solar_envelope inverter).registers
        ≡ inverter.registers)
    × ((handle_msg_bus_status decimal_ops open_bus solar_envelope inverter).points
        ≡ inverter.points)
handle_msg_bus_status-renewed_example =
    handle_msg_bus_status-renewed decimal_ops open_bus inverter "io" solar solar_envelope "pump.on"
      wire_laws (unfold new_envelope in refl) refl
