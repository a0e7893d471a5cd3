-- ===== src/Modbus/Server/Write.antt =====
-- The four write handlers: src/go/modbus/server/{coil, holding}.go. Each returns the new state with
-- its answer: what was written before an error stays written.
use ot_sim.Common.{
  ℕ, zero, suc, ◌+◌, ◌*◌, Bool, true, false, none, some, List, [], ◌∷◌, ◌++◌, String, length, ltb,
  take, get_elem?, slice, string_eq,
}
use ot_sim.Common.Int.{pos, int_eq}
use ot_sim.Common.Dict.{Dict, lookup, insert}
use ot_sim.Float.{FloatOps}
use ot_sim.Msgbus.Types.{Point}
use ot_sim.Msgbus.Pusher.{Bus}
use ot_sim.Msgbus.Metric.{MetricsPusher, incr_metric, incr_metric_by}
use ot_sim.Modbus.Bits.{bytes_to_bits}
use ot_sim.Modbus.Register.{RegisterType, coil, holding, type_eq, Register, ok, err, panics, value}
use ot_sim.Modbus.Server.State.{
  Table, Server, Response, success, exception, panic, diverges, illegal_data_address,
  illegal_data_value, slave_device_failure, uint16_at, with_range, publish,
}

-- How a loop over the written addresses ends: the tags, and the updates if it came to the end.
pub data Written (F : Type 0) : Type 0 where
  finished : Dict String F → List (Point F) → Written F
  stopped : Dict String F → Response → Written F

abbrev pub point : {F : Type 0} → String → F → Point F
point tag v = record { tag = tag; value = v; tstamp = 0 }

module _ {F : Type 0} (fl : FloatOps F) where
  -- The loop of `writeCoilRegisters` by the addresses left.
  unfoldable pub write_bits :
      Table → List ℕ → ℕ → ℕ → ℕ → Dict String F → List (Point F) → Written F
  write_bits table bits zero addr idx tags updates = finished tags updates
  write_bits table bits (suc n) addr idx tags updates = elim (lookup (pos addr) table) [
    | none ↦ stopped tags (exception illegal_data_address)
    | some reg ↦ elim (get_elem? bits idx) [
      | none ↦ stopped tags panic
      | some bit ↦
          let val = fl.from_int (pos bit) in
          write_bits table bits n (addr + 1) (idx + 1) (insert reg.tag val tags)
            (updates ++ point reg.tag val ∷ [])
    ]
  ]

  -- The loop of `writeHoldingRegisters` up to the address `stop`.
  unfoldable pub write_words :
      ℕ → Table → List ℕ → ℕ → ℕ → ℕ → Dict String F → List (Point F) → Written F
  write_words zero table bytes addr stop begin tags updates = stopped tags diverges
  write_words (suc fuel) table bytes addr stop begin tags updates = elim (ltb addr stop) [
    | false ↦ finished tags updates
    | true ↦ elim (lookup (pos addr) table) [
      | none ↦ stopped tags (exception illegal_data_address)
      | some reg ↦ elim (slice begin (begin + reg.count * 2) bytes) [
        | none ↦ stopped tags panic
        | some bs ↦ elim (value fl reg bs) [
          | ok v ↦
              write_words fuel table bytes (addr + reg.count) stop (begin + reg.count * 2)
                (insert reg.tag v tags) (updates ++ point reg.tag v ∷ [])
          | err e ↦ stopped tags (exception illegal_data_value)
          | panics ↦ stopped tags panic
        ]
      ]
    ]
  ]

module _ {F Raw : Type 0} (fl : FloatOps F) (bus : Bus F Raw) where
  abbrev pub Handled : Type 0
  Handled = Server F Raw × Response

  -- what follows the attempt to send an update
  abbrev pub after_publish :
      (MetricsPusher F → MetricsPusher F) → List ℕ → Server F Raw × Bool → Handled
  after_publish count bytes (s, false) = (s, exception slave_device_failure)
  after_publish count bytes (s, true) =
      (record s { metrics = count s.metrics }, success (take 4 bytes))

  -- the end of the single writes: the tag, the update and the metric
  abbrev pub store : String → Register → List ℕ → F → Server F Raw → Handled
  store metric reg bytes v s =
      after_publish (incr_metric fl metric) bytes
        (publish bus (point reg.tag v ∷ []) (record s { tags = insert reg.tag v s.tags }))

  -- The body of `writeCoilRegister` and of `writeHoldingRegister`.
  abbrev pub write_single : RegisterType → String → Server F Raw → List ℕ → Handled
  write_single kind metric s bytes = elim (lookup kind s.registers) [
    | none ↦ (s, exception illegal_data_address)
    | some table ↦ elim (uint16_at 0 bytes) [
      | none ↦ (s, panic)
      | some addr ↦ elim (lookup (pos addr) table) [
        | none ↦ (s, exception illegal_data_address)
        | some reg ↦ elim (slice 2 4 bytes) [
          | none ↦ (s, panic)
          | some bs ↦ elim (value fl reg bs) [
            | ok v ↦ store metric reg bytes v s
            | err e ↦ (s, exception illegal_data_value)
            | panics ↦ (s, panic)
          ]
        ]
      ]
    ]
  ]

  unfoldable pub write_coil_register : Server F Raw → List ℕ → Handled
  write_coil_register = write_single coil "coil_writes_count"

  unfoldable pub write_holding_register : Server F Raw → List ℕ → Handled
  write_holding_register = write_single holding "holding_writes_count"

  abbrev pub announce : List (Point F) → Server F Raw → Server F Raw × Bool
  announce [] s = (s, true)
  announce (p ∷ ps) s = publish bus (p ∷ ps) s

  -- what follows the loops: the update, if there is one, and the metric
  abbrev pub conclude : String → ℕ → List ℕ → Server F Raw → Written F → Handled
  conclude metric count bytes s (stopped tags answer) = (record s { tags = tags }, answer)
  conclude metric count bytes s (finished tags updates) =
      after_publish (incr_metric_by fl metric (pos count)) bytes
        (announce updates (record s { tags = tags }))

  unfoldable pub write_coil_registers : Server F Raw → List ℕ → Handled
  write_coil_registers s bytes =
      with_range (lookup coil s.registers) bytes (s, exception illegal_data_address) (s, panic)
        (λ table start count. elim (slice 5 (length bytes) bytes) [
          | none ↦ (s, panic)
          | some rest ↦
              conclude "coil_writes_count" count bytes s
                (write_bits fl table (bytes_to_bits rest) count start 0 s.tags [])
        ])

  unfoldable pub write_holding_registers : Server F Raw → List ℕ → Handled
  write_holding_registers s bytes =
      with_range (lookup holding s.registers) bytes (s, exception illegal_data_address) (s, panic)
        (λ table start count.
          conclude "holding_writes_count" count bytes s
            (write_words fl (suc count) table bytes start (start + count) 5 s.tags []))
