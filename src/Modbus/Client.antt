-- ===== src/Modbus/Client.antt =====
-- The Modbus client: src/go/modbus/client/client.go. The Modbus library that talks to the device
-- is a parameter, `Device`, over the state `D` of what it talks to.
pub mod Loopback
use ot_sim.Common.{
  ℕ, ◌-◌, ◌%◌, Bool, true, false, Option, none, some, List, [], ◌∷◌, ◌++◌, String, ◌==◌, string_eq,
  str_append, if◌then◌else◌,
}
use ot_sim.Common.Int.{ℤ, pos, negsuc}
use ot_sim.Common.Dict.{Dict, lookup, insert}
use ot_sim.Config.{
  Xml, Conversions, invalid_unit_id, invalid_period, Configured, done, failed, ◌>>=◌, fold_all,
}
use ot_sim.Float.{FloatOps}
use ot_sim.Modbus.Config.{number, duration, serial_config, read_register}
use ot_sim.Modbus.Register.{
  RegisterType, coil, discrete, input, holding, unknown, Register, Result, ok, err, panics, value,
  bytes,
}
use ot_sim.Modbus.Server.State.{Serial}
use ot_sim.Msgbus.Types.{Point, Update, Envelope}
use ot_sim.Msgbus.Envelope.{FetchError, Contents, status, new_envelope, sender, get_update}
use ot_sim.Msgbus.Pusher.{Bus, Sent, PushError, push}

pub record Client (Raw : Type 0) : Type 0 where
  pub pull_endpoint : String
  pub pub_endpoint : String
  pub name : String
  pub id : ℤ
  pub endpoint : String
  pub serial : Option Serial
  pub period : ℤ
  pub registers : Dict String Register
  pub sent : Sent Raw

unfoldable pub new : {Raw : Type 0} → String → Client Raw
new name = record {
  pull_endpoint = "";
  pub_endpoint = "";
  name = name;
  id = pos 1;
  endpoint = "";
  serial = none;
  period = pos 5000000000;
  registers = [];
  sent = [];
}

-- The calls of the library: the bytes read, or an error, and whether a write was taken.
pub record Device (D : Type 0) : Type 0 where
  pub read_coils : ℕ → ℕ → D → Option (List ℕ) × D
  pub read_discrete_inputs : ℕ → ℕ → D → Option (List ℕ) × D
  pub read_input_registers : ℕ → ℕ → D → Option (List ℕ) × D
  pub read_holding_registers : ℕ → ℕ → D → Option (List ℕ) × D
  pub write_single_coil : ℕ → ℕ → D → Bool × D
  pub write_multiple_registers : ℕ → ℕ → List ℕ → D → Bool × D

-- `uint16(n)`
abbrev pub uint16_of : ℤ → ℕ
uint16_of (pos n) = n % 65536
uint16_of (negsuc n) = 65535 - n % 65536

module _ {F Raw E : Type 0} (xml : Xml E) (conv : Conversions F) where
  unfoldable pub configure_child : E → Client Raw → Configured (Client Raw)
  configure_child child c =
      let name = xml.tag child in
      let text = xml.text child in
      if name == "pull-endpoint"
      then done (record c { pull_endpoint = text })
      else if name == "pub-endpoint"
      then done (record c { pub_endpoint = text })
      else if name == "unit-id"
      then number xml conv text invalid_unit_id >>= (λ n. done (record c { id = n }))
      else if name == "endpoint"
      then done (record c { endpoint = text })
      else if name == "serial"
      then serial_config xml conv (pos 5000000000) child
        >>= (λ s. done (record c { serial = some s }))
      else if name == "period"
      then duration xml conv text invalid_period >>= (λ d. done (record c { period = d }))
      else if name == "register"
      then read_register xml conv child
        >>= (λ r. done (record c { registers = insert r.tag r c.registers }))
      else done c

  unfoldable pub configure : E → Client Raw → Configured (Client Raw)
  configure e c = fold_all configure_child (xml.child_elements e) c

-- `none` is either error: no endpoint, or two
abbrev endpoint_of : String → Option Serial → Option String
endpoint_of endpoint (some s) = if endpoint == "" then some s.address else none
endpoint_of endpoint none = if endpoint == "" then none else some endpoint

unfoldable pub get_endpoint : {Raw : Type 0} → Client Raw → Option String
get_endpoint c = endpoint_of c.endpoint c.serial

-- Where a poll stands: a panic ends the module.
pub data Polled (F D : Type 0) : Type 0 where
  polled : List (Point F) → D → Polled F D
  stopped : D → Polled F D

-- the `switch` over the register's type: for another one nothing is read
abbrev pub read_data : {D : Type 0} → Device D → RegisterType → Register → D → Option (List ℕ) × D
read_data device coil r d = device.read_coils (uint16_of r.addr) 1 d
read_data device discrete r d = device.read_discrete_inputs (uint16_of r.addr) 1 d
read_data device input r d = device.read_input_registers (uint16_of r.addr) (r.count % 65536) d
read_data device holding r d = device.read_holding_registers (uint16_of r.addr) (r.count % 65536) d
read_data device (unknown s) r d = (some [], d)

-- the point of a register that was decoded, after those before it
abbrev pub point_of : {F D : Type 0} → String → Result F → List (Point F) → D → Polled F D
point_of tag (ok v) points d = polled (points ++ record { tag = tag; value = v; tstamp = 0 } ∷ []) d
point_of tag (err e) points d = polled points d
point_of tag panics points d = stopped d

module _ {F : Type 0} (fl : FloatOps F) where
  -- the last point: whether anything was read
  unfoldable pub with_connected : String → List (Point F) → List (Point F)
  with_connected name [] =
      record { tag = str_append name ".connected"; value = fl.from_int (pos 0); tstamp = 0 } ∷ []
  with_connected name (p ∷ ps) =
      (p ∷ ps)
      ++ record { tag = str_append name ".connected"; value = fl.from_int (pos 1); tstamp = 0 } ∷ []

unfoldable pub send_status :
    {F Raw : Type 0} → Bus F Raw → String → List (Point F) → Sent Raw → Sent Raw
send_status bus name points sent =
    elim (new_envelope bus.json name (status (record { measurements = points }))) [
      | none ↦ sent
      | some env ↦ (push bus "RUNTIME" env sent).1
    ]

module _ {F D : Type 0} (fl : FloatOps F) (device : Device D) where
  abbrev pub read_one : String → Register → Option (List ℕ) × D → List (Point F) → Polled F D
  read_one tag r (none, d) points = polled points d
  read_one tag r (some bytes, d) points = point_of tag (value fl r bytes) points d

  -- the loop over the registers
  unfoldable pub read_all : Dict String Register → List (Point F) → D → Polled F D
  read_all [] points d = polled points d
  read_all ((tag, r) ∷ rs) points d = elim (read_one tag r (read_data device r.kind r d) points) [
    | stopped d' ↦ stopped d'
    | polled points' d' ↦ read_all rs points' d'
  ]

  -- the `switch` in the loop of `handleMsgBusUpdate`; `none` is a panic
  abbrev pub write_holding : Register → Result (List ℕ) → D → Option D
  write_holding r (ok bs) d =
      some (device.write_multiple_registers (uint16_of r.addr) (r.count % 65536) bs d).1
  write_holding r (err e) d = some d
  write_holding r panics d = none

  abbrev pub write_point : RegisterType → Register → F → D → Option D
  write_point coil r v d =
      let written = if fl.is_zero v then v else fl.from_int (pos 65280) in
      some (device.write_single_coil (uint16_of r.addr) (fl.to_word false 16 written) d).1
  write_point holding r v d = write_holding r (bytes fl r v) d
  write_point discrete r v d = some d
  write_point input r v d = some d
  write_point (unknown s) r v d = some d

  unfoldable pub write_all : Dict String Register → List (Point F) → D → Option D
  write_all registers [] d = some d
  write_all registers (p ∷ ps) d = elim (lookup p.tag registers) [
    | none ↦ write_all registers ps d
    | some r ↦ elim (write_point r.kind r p.value d) [
      | none ↦ none
      | some d' ↦ write_all registers ps d'
    ]
  ]

module _ {F Raw D : Type 0} (fl : FloatOps F) (bus : Bus F Raw) (device : Device D) where
  -- one turn of the loop in `Run`; `none` is a panic
  unfoldable pub poll : Client Raw → D → Option (Client Raw) × D
  poll c d = elim (read_all fl device c.registers [] d) [
    | stopped d' ↦ (none, d')
    | polled points d' ↦ (
      some record c { sent = send_status bus c.name (with_connected fl c.name points) c.sent },
      d',
    )
  ]

  abbrev obey : Client Raw → Update F × Option FetchError → D → Option D
  obey c (update, none) d = write_all fl device c.registers update.updates d
  obey c (update, some e) d = some d

  unfoldable pub handle_msg_bus_update : Client Raw → Envelope Raw → D → Option D
  handle_msg_bus_update c env d =
      if sender env == c.name then some d else obey c (get_update bus.json env) d
