-- ===== src/Sunspec/Client/Poll.antt =====
-- `process`, the discovery of the models, the poll and the update handler of
-- src/go/sunspec/client/client.go.
use ot_sim.Common.{
  ℕ, zero, suc, ◌%◌, Bool, true, false, ◌||◌, not, Option, none, some, List, [], ◌∷◌, ◌++◌, String,
  ◌==◌, string_eq, if◌then◌else◌, is_some,
}
use ot_sim.Common.Int.{ℤ, pos, int_eq, ◌+ℤ◌}
use ot_sim.Common.Dict.{Dict, lookup, insert}
use ot_sim.Float.{FloatOps}
use ot_sim.Modbus.Client.{Device, uint16_of, with_connected}
use ot_sim.Msgbus.Types.{Point, Update, Envelope}
use ot_sim.Msgbus.Envelope.{FetchError, status, new_envelope, sender, get_update}
use ot_sim.Msgbus.Pusher.{Bus, push}
use ot_sim.Sunspec.Model.{Schema}
use ot_sim.Sunspec.Register.{
  DataType, pad, sunssf, Register, number, Result, ok, err, panics, bytes, value,
}
use ot_sim.Sunspec.Server.Configure.{is_string}
use ot_sim.Sunspec.Client.{
  Settings, Client, confirm_identifier, next_model, model_data, scaling_for,
}

-- what is published of a register: text, padding and scale factors are not
abbrev pub is_measured : DataType → Bool
is_measured pad = false
is_measured sunssf = false
is_measured d = not (is_string d)

abbrev pub measurement : {F : Type 0} → String → Result F → List (Point F) → Option (List (Point F))
measurement name (ok v) points = some (points ++ record { tag = name; value = v; tstamp = 0 } ∷ [])
measurement name err points = some points
measurement name panics points = none

module _ {F : Type 0} (fl : FloatOps F) where
  abbrev scaled_value : String → Register F → Option F → List (Point F) → Option (List (Point F))
  scaled_value name r none points = some points
  scaled_value name r (some scaling) points = measurement name (value fl r r.raw scaling) points

  abbrev pub measure :
      String → Register F → Dict String (Register F) → List (Point F) → Option (List (Point F))
  measure name r registers points =
      if is_measured r.data_kind
      then scaled_value name r (scaling_for fl registers r) points
      else some points

  -- the loop of `process`; `none` is a panic
  unfoldable pub take_registers :
      Dict String (Register F)
      → Dict String (Register F)
      → List (Point F)
      → Option (Dict String (Register F) × List (Point F))
  take_registers [] registers points = some (registers, points)
  take_registers ((name, r) ∷ rs) registers points =
      elim (measure name r (insert name r registers) points) [
        | none ↦ none
        | some points' ↦ take_registers rs (insert name r registers) points'
      ]

module _ {F Raw : Type 0} (fl : FloatOps F) (bus : Bus F Raw) where
  -- the status, with whether it was sent
  abbrev pub announce : List (Point F) → Client F Raw → Client F Raw × Bool
  announce points c =
      elim (new_envelope bus.json c.name (status (record { measurements = points }))) [
        | none ↦ (c, false)
        | some env ↦
            let (failure, sent) = push bus "RUNTIME" env c.sent in
            (record c { sent = sent }, not (is_some failure))
      ]

  abbrev pub processed :
      Client F Raw
      → Option (Dict String (Register F) × List (Point F))
      → Option (Client F Raw × Bool)
  processed c none = none
  processed c (some (registers, points)) =
      some (announce (with_connected fl c.name points) (record c { points = registers }))

  unfoldable pub process : Dict String (Register F) → Client F Raw → Option (Client F Raw × Bool)
  process regs c = processed c (take_registers fl regs c.points [])

-- How the start or a turn ends.
pub data Outcome (A D : Type 0) : Type 0 where
  going : A → D → Outcome A D
  failing panicking : D → Outcome A D
  unfinished : Outcome A D

module _ {F Raw D : Type 0} (fl : FloatOps F) (bus : Bus F Raw) (device : Device D)
    (schema : ℤ → Option (Schema F)) where
  abbrev pub add_model : ℤ → ℤ → ℤ → Client F Raw → Client F Raw
  add_model id addr length c = record c {
    order = c.order ++ id ∷ [];
    settings = insert id (record { start_addr = addr; length = length }) c.settings;
  }

  abbrev pub went : D → Option (Client F Raw × Bool) → Outcome (Client F Raw) D
  went d none = panicking d
  went d (some (c, true)) = going c d
  went d (some (c, false)) = failing d

  abbrev pub use_data :
      D → Result (Dict String (Register F)) → Client F Raw → Outcome (Client F Raw) D
  use_data d (ok regs) c = went d (process fl bus regs c)
  use_data d err c = failing d
  use_data d panics c = panicking d

  -- a model that was found, before the next
  abbrev pub found : ℤ → ℤ → ℤ → Client F Raw → D → Outcome (Client F Raw) D
  found id addr length c d =
      let (body, d') =
        device.read_holding_registers (uint16_of (addr +ℤ pos 2)) (uint16_of length) d in
      use_data d' (model_data fl schema body id (addr +ℤ pos 2))
        (add_model id (addr +ℤ pos 2) length c)

  -- The loop of `Run` over the models, on fuel, from an address on; `model1` is whether model 1
  -- was found.
  unfoldable pub discover : ℕ → ℤ → Bool → Client F Raw → D → Outcome (Client F Raw) D
  discover zero addr model1 c d = unfinished
  discover (suc fuel) addr model1 c d =
      let (body, d') = device.read_holding_registers (uint16_of addr) 2 d in
      elim (next_model fl body) [
        | err ↦ failing d'
        | panics ↦ panicking d'
        | ok next ↦ elim (model1 || next.0 == pos 1) [
          | false ↦ failing d'
          | true ↦ elim (next.0 == pos 65535) [
            | true ↦ going c d'
            | false ↦ elim (found next.0 addr next.1 c d') [
              | going c' d'' ↦ discover fuel (addr +ℤ pos 2 +ℤ next.1) true c' d''
              | failing d'' ↦ failing d''
              | panicking d'' ↦ panicking d''
              | unfinished ↦ unfinished
            ]
          ]
        ]
      ]

  -- What `Run` does before its loops: the identifier, then the models.
  unfoldable pub start : ℕ → (F → F → Bool) → Client F Raw → D → Outcome (Client F Raw) D
  start fuel equal c d =
      let (body, d') = device.read_holding_registers 40000 2 d in
      elim (confirm_identifier fl equal body) [
        | err ↦ failing d'
        | panics ↦ panicking d'
        | ok _ ↦ discover fuel (pos 40002) false c d'
      ]

  -- The data of an error are nil, and are processed all the same.
  abbrev pub data_of : Result (Dict String (Register F)) → Option (Dict String (Register F))
  data_of (ok regs) = some regs
  data_of err = some []
  data_of panics = none

  abbrev pub poll_data :
      D → Option (Dict String (Register F)) → Client F Raw → Option (Client F Raw) × D
  poll_data d none c = (none, d)
  poll_data d (some regs) c = elim (process fl bus regs c) [
    | none ↦ (none, d)
    | some (c', pushed) ↦ (some c', d)
  ]

  abbrev pub settings_of : Option Settings → Settings
  settings_of none = record { start_addr = pos 0; length = pos 0 }
  settings_of (some s) = s

  abbrev pub poll_model : ℤ → Client F Raw → D → Option (Client F Raw) × D
  poll_model id c d =
      let at = settings_of (lookup id c.settings) in
      let (body, d') =
        device.read_holding_registers (uint16_of at.start_addr) (uint16_of at.length) d in
      poll_data d' (data_of (model_data fl schema body id at.start_addr)) c

  -- the loop over the models in a turn of `Run`; `none` is a panic
  unfoldable pub poll_models : List ℤ → Client F Raw → D → Option (Client F Raw) × D
  poll_models [] c d = (some c, d)
  poll_models (id ∷ ids) c d =
      let polled = poll_model id c d in
      elim polled.0 [ none ↦ (none, polled.1) | some c' ↦ poll_models ids c' polled.1 ]

  abbrev write_bytes : Register F → Result (List ℕ) → D → Option D
  write_bytes r (ok bs) d =
      some (device.write_multiple_registers (uint16_of r.addr) (r.count % 65536) bs d).1
  write_bytes r err d = some d
  write_bytes r panics d = none

  abbrev write_scaled : Register F → F → Option F → D → Option D
  write_scaled r v none d = some d
  write_scaled r v (some scaling) d = write_bytes r (bytes fl r (number v) scaling) d

  abbrev write_point : Dict String (Register F) → F → Option (Register F) → D → Option D
  write_point registers v none d = some d
  write_point registers v (some r) d =
      if r.addr == pos 0 then some d else write_scaled r v (scaling_for fl registers r) d

  -- the loop of `handleMsgBusUpdate`; `none` is a panic
  unfoldable pub write_all : Dict String (Register F) → List (Point F) → D → Option D
  write_all registers [] d = some d
  write_all registers (p ∷ ps) d = elim (write_point registers p.value (lookup p.tag registers) d) [
    | none ↦ none
    | some d' ↦ write_all registers ps d'
  ]

  abbrev obey : Client F Raw → Update F × Option FetchError → D → Option D
  obey c (update, none) d = write_all c.points update.updates d
  obey c (update, some e) d = some d

  unfoldable pub handle_msg_bus_update : Client F Raw → Envelope Raw → D → Option D
  handle_msg_bus_update c env d =
      if sender env == c.name then some d else obey c (get_update bus.json env) d
