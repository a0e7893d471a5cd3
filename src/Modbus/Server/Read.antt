-- ===== src/Modbus/Server/Read.antt =====
-- The four read handlers: src/go/modbus/server/{coil, discrete, holding, input}.go.
use ot_sim.Common.{
  ℕ, zero, suc, ◌+◌, ◌*◌, ◌%◌, true, false, Option, none, some, List, [], ◌∷◌, ◌++◌, String, length,
  ltb, if◌then◌else◌, replicate,
}
use ot_sim.Common.Int.{pos, int_eq}
use ot_sim.Common.Dict.{Dict, lookup}
use ot_sim.Float.{FloatOps}
use ot_sim.Modbus.Bits.{bits_to_bytes, byte_count, or_bit}
use ot_sim.Modbus.Register.{
  RegisterType, coil, discrete, input, holding, type_eq, Register, ok, err, panics, bytes,
}
use ot_sim.Modbus.Server.State.{
  Table, Server, Response, success, exception, panic, diverges, illegal_data_address,
  slave_device_failure, with_range, tag_value,
}

abbrev pub coil_reply : Option (List ℕ) → Response
coil_reply none = exception illegal_data_address
coil_reply (some bits) =
    let payload = bits_to_bytes bits in success (length payload % 256 ∷ payload)

abbrev pub discrete_reply : ℕ → Option (List ℕ) → Response
discrete_reply size none = exception illegal_data_address
discrete_reply size (some payload) = success (size % 256 ∷ payload)

module _ {F : Type 0} (fl : FloatOps F) where
  abbrev pub bit_of : Dict String F → Register → ℕ
  bit_of tags reg = if fl.is_zero (tag_value fl tags reg) then 0 else 1

  -- The loop of `readCoilRegisters` by the addresses left: the bits, or `none` at an address that
  -- has no register.
  unfoldable pub read_bits : Table → Dict String F → ℕ → ℕ → Option (List ℕ)
  read_bits table tags zero addr = some []
  read_bits table tags (suc n) addr =
      let rest = read_bits table tags n (addr + 1) in
      elim (lookup (pos addr) table) [
        | none ↦ none
        | some reg ↦ elim rest [ none ↦ none | some bits ↦ some (bit_of tags reg ∷ bits) ]
      ]

  -- The loop of `readDiscreteRegisters`, which sets the bits in place.
  unfoldable pub read_into : Table → Dict String F → ℕ → ℕ → ℕ → List ℕ → Option (List ℕ)
  read_into table tags zero addr idx bytes = some bytes
  read_into table tags (suc n) addr idx bytes = elim (lookup (pos addr) table) [
    | none ↦ none
    | some reg ↦
        read_into table tags n (addr + 1) (idx + 1)
          (if fl.is_zero (tag_value fl tags reg) then bytes else or_bit idx bytes)
  ]

  -- The loop of `readHoldingRegisters` and of `readInputRegisters` up to the address `stop`, with
  -- the size and the data so far.
  unfoldable pub read_words : ℕ → Table → Dict String F → ℕ → ℕ → ℕ → List ℕ → Response
  read_words zero table tags addr stop size payload = diverges
  read_words (suc fuel) table tags addr stop size payload = elim (ltb addr stop) [
    | false ↦ success (size % 256 ∷ payload)
    | true ↦ elim (lookup (pos addr) table) [
      | none ↦ exception illegal_data_address
      | some reg ↦ elim (bytes fl reg (tag_value fl tags reg)) [
        | ok buf ↦
            read_words fuel table tags (addr + reg.count) stop (size + reg.count * 2)
              (payload ++ buf)
        | err e ↦ exception slave_device_failure
        | panics ↦ panic
      ]
    ]
  ]

  module _ {Raw : Type 0} where
    abbrev pub reading :
        RegisterType → Server F Raw → List ℕ → (Table → ℕ → ℕ → Response) → Response
    reading kind s bytes body =
        with_range (lookup kind s.registers) bytes (exception illegal_data_address) panic body

    unfoldable pub read_coil_registers : Server F Raw → List ℕ → Response
    read_coil_registers s bytes =
        reading coil s bytes (λ table start count. coil_reply (read_bits table s.tags count start))

    unfoldable pub read_discrete_registers : Server F Raw → List ℕ → Response
    read_discrete_registers s bytes = reading discrete s bytes (λ table start count.
        discrete_reply (byte_count count)
          (read_into table s.tags count start 0 (replicate (byte_count count) 0)))

    -- one turn of the loop for each address and one for the test at the end are enough
    unfoldable pub read_holding_registers : Server F Raw → List ℕ → Response
    read_holding_registers s bytes =
        reading holding s bytes
          (λ table start count. read_words (suc count) table s.tags start (start + count) 0 [])

    unfoldable pub read_input_registers : Server F Raw → List ℕ → Response
    read_input_registers s bytes =
        reading input s bytes
          (λ table start count. read_words (suc count) table s.tags start (start + count) 0 [])
