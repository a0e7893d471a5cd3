-- ===== src/Tests/Registers.antt =====
-- Runs of the registers, after src/go/modbus/util/register_test.go, and of the Modbus server.
use ot_sim.Common.{
  ℕ, sym, ◌∙◌, Bool-cases, inl, inr, some, ◌≡◌, refl, ◌<◌, ◌≤◌, true, none, List, [], ◌∷◌,
  string_eq, arith, slice, length, get_or, if◌then◌else◌, ◌==◌, nat_eq, ◌+◌, ◌-◌, ◌^◌,
}
use mathlib.Core.Path.{subst}
use mathlib.Core.Option.{some-injective}
use ot_sim.Common.Int.{pos, negsuc, int_eq}
use ot_sim.Common.Dict.{lookup}
use ot_sim.Float.Decimal.{Decimal, integer, decimal_ops, decimal_laws, decimal_mul, to_pattern}
use ot_sim.Modbus.Bits.{bytes_to_bits, bits_to_bytes}
use ot_sim.Modbus.Bits.Conversions.{bytes_to_bits-bits_to_bytes}
use ot_sim.Modbus.Register.{
  Register, DataType, float_abs, nearest, coil, discrete, input, holding, uint32, int16, init,
  bytes, value, ok, to_bytes, type_eq, is_word_register, is_valid_data_type, register_type,
  data_type,
}
use ot_sim.Modbus.Register.Shape.{IsReady, init_lem, Writes, bytes-Writes}
use ot_sim.Modbus.Register.Codec.{RoundTrip, value-RoundTrip}
use ot_sim.Modbus.Server.State.{Server, Table, success, exception, illegal_data_value, uint16_at}
use ot_sim.Modbus.Server.Read.{read_coil_registers, read_discrete_registers, read_holding_registers}
use ot_sim.Modbus.Server.Write.{write_holding_register, write_coil_register, write_coil_registers}
use ot_sim.Modbus.Server.Bulk.{BulkEnd, write_coil_registers-BulkEnd}
use ot_sim.Modbus.Server.Coils.{
  BitReply, read_coil_registers-BitReply, read_coil_registers-read_discrete_registers,
}
use ot_sim.Modbus.Server.Words.{IsWordTable, WordReply, read_holding_registers-WordReply}
use ot_sim.Modbus.Server.Single.{
  write_holding_register_wide, SingleEnd, write_coil_register-SingleEnd,
}
use ot_sim.Modbus.Server.Echo.{write_holding_register-read}
use ot_sim.Tests.Wire.{Wire, open_bus}

-- what the configuration gives, before `Init`
abbrev raw_register : Register
raw_register = record {
  kind = input;
  data_kind = uint32;
  addr = pos 30000;
  count = 0;
  scaling = negsuc 1;
  tag = "bus-692.voltage";
}

abbrev voltage : Register
voltage = record raw_register { count = 2; scaling = pos 2 }

names : (register_type "holding" ≡ holding) × (data_type "uint32" ≡ uint32)
unfolding register_type data_type
names = (refl, refl)

raw_register-init : init raw_register ≡ ok voltage
unfolding init float_abs nearest
raw_register-init = refl

-- numbers that a float64 rounds, and the greatest `int`
rounded :
    (float_abs (negsuc (2 ^ 53)) ≡ pos (2 ^ 53))
    × (float_abs (pos (2 ^ 53 + 3)) ≡ pos (2 ^ 53 + 4))
    × (float_abs (pos (2 ^ 63 - 1)) ≡ negsuc (2 ^ 63 - 1))
unfolding float_abs nearest
rounded = (refl, refl, refl)

voltage-bytes : bytes decimal_ops voltage (integer (pos 480)) ≡ ok (0x00 ∷ 0x00 ∷ 0xbb ∷ 0x80 ∷ [])
unfolding bytes to_bytes to_pattern decimal_mul
voltage-bytes = refl

init_lem_example :
    (init voltage ≡ ok (record voltage { scaling = float_abs voltage.scaling }))
    × (voltage.kind ≡ input)
    × (voltage.data_kind ≡ uint32)
    × (voltage.addr ≡ pos 30000)
    × (voltage.tag ≡ "bus-692.voltage")
    × (2 < 2 ^ 53 → voltage.scaling ≡ pos 2)
    × (is_word_register input ≡ true
        → (is_valid_data_type uint32 ≡ true) × (0 < voltage.count) × (voltage.count ≤ 4))
init_lem_example = init_lem raw_register voltage raw_register-init

bytes-Writes_example : Writes decimal_ops 4 (bytes decimal_ops voltage (integer (pos 480)))
unfolding init float_abs nearest
bytes-Writes_example =
    bytes-Writes decimal_ops voltage (integer (pos 480)) (raw_register, refl) refl

bytes_to_bits-bits_to_bytes_example :
    let bits : List ℕ = 1 ∷ 0 ∷ 1 ∷ [] in
    ((i : ℕ)
      → get_or (bytes_to_bits (bits_to_bytes bits)) i 0 ≡ (if get_or bits i 0 == 0 then 0 else 1))
    × (length bits ≤ length (bytes_to_bits (bits_to_bytes bits)))
    × (length (bytes_to_bits (bits_to_bytes bits)) < length bits + 8)
bytes_to_bits-bits_to_bytes_example = bytes_to_bits-bits_to_bytes (1 ∷ 0 ∷ 1 ∷ [])

abbrev level : Register
level = record {
  kind = holding;
  data_kind = int16;
  addr = pos 40000;
  count = 1;
  scaling = pos 0;
  tag = "tank.level";
}

-- -2 as two bytes, and back
value-RoundTrip_example :
    RoundTrip decimal_ops decimal_laws
      (value decimal_ops level)
      (bytes decimal_ops level)
      (0xff ∷ 0xfe ∷ [])
unfolding init float_abs nearest
value-RoundTrip_example =
    value-RoundTrip decimal_ops decimal_laws level (0xff ∷ 0xfe ∷ []) (level, refl) refl refl
      (omega arith) refl

abbrev flow : Register
flow = record level { data_kind = uint32; count = 2; tag = "pipe.flow"; addr = pos 40001 }

abbrev holdings : Table
holdings = (pos 40000, level) ∷ (pos 40001, flow) ∷ []

abbrev pump : Register
pump = record level { kind = coil; data_kind = DataType.unknown ""; count = 0; tag = "pump.on" }

abbrev coils : Table
coils = (pos 7, pump) ∷ []

abbrev device : Server Decimal Wire
device = record {
  pull_endpoint = "";
  pub_endpoint = "";
  name = "modbus-server";
  id = pos 1;
  endpoint = "127.0.0.1:502";
  serial = none;
  registers = (holding, holdings) ∷ (coil, coils) ∷ (discrete, coils) ∷ [];
  tags = ("tank.level", integer (pos 12)) ∷ ("pump.on", integer (pos 1)) ∷ [];
  metrics = [];
  sent = [];
}

-- read 1 coil at 7
abbrev one_coil : List ℕ
one_coil = 0 ∷ 7 ∷ 0 ∷ 1 ∷ []

read_coil_registers-BitReply_example :
    BitReply decimal_ops coils device.tags 7 1 (read_coil_registers decimal_ops device one_coil)
unfolding lookup uint16_at
read_coil_registers-BitReply_example =
    read_coil_registers-BitReply decimal_ops device one_coil {table = coils} {start = 7} {count = 1}
      refl refl refl

read_coil_registers-read_discrete_registers_example :
    read_discrete_registers decimal_ops device one_coil
    ≡ read_coil_registers decimal_ops device one_coil
unfolding lookup
read_coil_registers-read_discrete_registers_example =
    read_coil_registers-read_discrete_registers decimal_ops device one_coil refl

abbrev IsWord : Register → Type 0
IsWord reg = IsReady reg × (is_word_register reg.kind ≡ true)

level-IsWord : IsWord level
unfolding init float_abs nearest
level-IsWord = ((level, refl), refl)

flow-IsWord : IsWord flow
unfolding init float_abs nearest
flow-IsWord = ((flow, refl), refl)

holdings-IsWordTable : IsWordTable holdings
unfolding lookup
holdings-IsWordTable addr reg h = elim (Bool-cases (pos 40000 == addr)) [
  | inl first ↦
      subst IsWord (some-injective level reg (sym (rw (first, lookup) refl) ∙ h)) level-IsWord
  | inr other ↦ elim (Bool-cases (pos 40001 == addr)) [
    | inl second ↦
        subst IsWord (some-injective flow reg (sym (rw (other, second, lookup) refl) ∙ h))
          flow-IsWord
    | inr neither ↦ let e : none ≡ some reg = sym (rw (other, neither, lookup) refl) ∙ h in cc
  ]
]

-- read 3 words at 40000
abbrev three_words : List ℕ
three_words = 0x9c ∷ 0x40 ∷ 0 ∷ 3 ∷ []

read_holding_registers-WordReply_example :
    WordReply decimal_ops holdings device.tags 40003 40000
      (read_holding_registers decimal_ops device three_words)
unfolding lookup uint16_at
read_holding_registers-WordReply_example =
    read_holding_registers-WordReply decimal_ops device three_words {table = holdings}
      {start = 40000} {count = 3} refl holdings-IsWordTable refl refl

write_coil_register-SingleEnd_example :
    SingleEnd decimal_ops open_bus coil device
      (0 ∷ 7 ∷ 0xff ∷ 0 ∷ [])
      (write_coil_register decimal_ops open_bus device (0 ∷ 7 ∷ 0xff ∷ 0 ∷ []))
write_coil_register-SingleEnd_example =
    write_coil_register-SingleEnd decimal_ops open_bus device (0 ∷ 7 ∷ 0xff ∷ 0 ∷ [])

write_holding_register_wide_example :
    write_holding_register decimal_ops open_bus device (0x9c ∷ 0x41 ∷ 0 ∷ 5 ∷ [])
    ≡ (device, exception illegal_data_value)
unfolding lookup uint16_at init float_abs nearest
write_holding_register_wide_example =
    write_holding_register_wide decimal_ops open_bus device (0x9c ∷ 0x41 ∷ 0 ∷ 5 ∷ [])
      {table = holdings} {addr = 40001} {reg = flow} refl refl refl flow-IsWord.0 refl (omega arith)
      (omega arith)

write_holding_register-read_example :
    read_holding_registers decimal_ops
      (write_holding_register decimal_ops open_bus device (0x9c ∷ 0x40 ∷ 0xff ∷ 0xfe ∷ [])).0
      (0x9c ∷ 0x40 ∷ 0 ∷ 1 ∷ [])
    ≡ success (2 ∷ 0xff ∷ 0xfe ∷ [])
unfolding lookup uint16_at init float_abs nearest slice
write_holding_register-read_example =
    write_holding_register-read decimal_ops decimal_laws open_bus device
      (0x9c ∷ 0x40 ∷ 0xff ∷ 0xfe ∷ []) (0x9c ∷ 0x40 ∷ 0 ∷ 1 ∷ []) (0xff ∷ 0xfe ∷ [])
      {table = holdings} {addr = 40000} {reg = level} refl refl refl level-IsWord.0 refl refl refl
      refl (omega arith) refl refl refl

-- two coils from 7 on, of which 8 has no register
abbrev two_coils : List ℕ
two_coils = 0 ∷ 7 ∷ 0 ∷ 2 ∷ 1 ∷ 3 ∷ []

write_coil_registers-BulkEnd_example :
    BulkEnd decimal_ops open_bus coils
      (bytes_to_bits (3 ∷ []))
      7
      2
      device
      two_coils
      (write_coil_registers decimal_ops open_bus device two_coils)
unfolding lookup uint16_at slice
write_coil_registers-BulkEnd_example =
    write_coil_registers-BulkEnd decimal_ops open_bus device two_coils (3 ∷ []) {table = coils}
      {start = 7} {count = 2} refl refl refl refl
