-- ===== src/Mqtt/Run.antt =====
-- What the MQTT module does while it runs: connecting, publishing, and the status handler of
-- src/go/mqtt/mqtt.go. Which endpoints answer is the parameter `answers`.

pub mod Rotation
pub mod Deliveries
use ot_sim.Common.{
  ℕ, zero, suc, ◌+◌, Bool, true, false, Option, none, some, List, [], ◌∷◌, ◌++◌, String, ◌==◌,
  string_eq, nat_eq, if◌then◌else◌, or_else, is_some, length, get_elem?,
}
use ot_sim.Common.Int.{ℤ, pos, int_eq}
use ot_sim.Common.Dict.{Dict, lookup, insert, index}
use ot_sim.Mqtt.{Host, Endpoint, MqttClient}
use ot_sim.Msgbus.Types.{Point, Status, Envelope}
use ot_sim.Msgbus.Envelope.{FetchError, sender, get_status}
use ot_sim.Msgbus.Pusher.{Bus}

-- How an attempt to connect ends: the index is out of range, the endpoint refuses, or it answers.
pub data Attempt (M V : Type 0) : Type 0 where
  panicked : Attempt M V
  refused : M → Attempt M V
  connected : V → M → Attempt M V

module _ {F U C R T : Type 0} (answers : Endpoint U C R → Bool) where
  abbrev attempt :
      Option (Endpoint U C R)
      → MqttClient F U C R T
      → Attempt (MqttClient F U C R T) (Endpoint U C R)
  attempt none m = panicked
  attempt (some e) m = if answers e then connected e m else refused m

  unfoldable pub connect : MqttClient F U C R T → Attempt (MqttClient F U C R T) (Endpoint U C R)
  connect m =
      let at = if m.endpoint == length m.endpoints then 0 else m.endpoint in
      attempt (get_elem? m.endpoints at) (record m { endpoint = at + 1 })

  -- The loop of `connectAndRun`, on fuel; `none` where the fuel runs out.
  unfoldable pub connect_and_run :
      ℕ → MqttClient F U C R T → Option (Attempt (MqttClient F U C R T) (Endpoint U C R))
  connect_and_run zero m = none
  connect_and_run (suc fuel) m = elim (connect m) [
    | panicked ↦ some panicked
    | connected e m' ↦ some (connected e m')
    | refused m' ↦ connect_and_run fuel m'
  ]

-- How the body of a goroutine ends: the template cannot be executed; there is no client yet, which
-- is a panic; or the client is given a topic and a payload, and reports whether it could publish.
pub data Published : Type 0 where
  unmade crashed : Published
  given : String → String → Bool → Published

-- what the MQTT library makes of a topic and a payload; `none` while the field `client` is nil
abbrev pub Broker : Type 0
Broker = Option (String → String → Bool)

abbrev pub give : Broker → String → String → Published
give none topic payload = crashed
give (some takes) topic payload = given topic payload (takes topic payload)

module _ {F U C R T : Type 0} (host : Host F U C R T) (now : String → String) where
  -- `now` gives the time in the format of the module.
  unfoldable pub publish : Broker → String → F → MqttClient F U C R T → Published
  publish broker tag v m =
      let topic = or_else (lookup tag m.topics) "" in
      elim (host.execute m.payload_template (now m.timestamp_template) m.id topic v) [
        | none ↦ unmade
        | some payload ↦ give broker topic payload
      ]

module _ {F U C R T : Type 0} where
  -- `go this.publish(tag, value)`: when the goroutine runs, and in which order with others, is open.
  abbrev pub begin : String → F → MqttClient F U C R T → MqttClient F U C R T
  begin tag v m = record m { started = m.started ++ (tag, v) ∷ [] }

  -- The loop over the values, in the order of the association list.
  unfoldable pub publish_all : Dict String F → MqttClient F U C R T → MqttClient F U C R T
  publish_all [] m = m
  publish_all ((tag, v) ∷ vs) m = publish_all vs (begin tag v m)

  -- a turn of the loop in `run`
  unfoldable pub tick : MqttClient F U C R T → MqttClient F U C R T
  tick m = publish_all m.values m

  -- the body of the loop over the measurements
  abbrev pub take_point : Point F → MqttClient F U C R T → MqttClient F U C R T
  take_point p m =
      if is_some (lookup p.tag m.values)
      then (let m' = record m { values = insert p.tag p.value m.values } in
          if m.period == pos 0 then begin p.tag p.value m' else m')
      else m

  unfoldable pub take_points : List (Point F) → MqttClient F U C R T → MqttClient F U C R T
  take_points [] m = m
  take_points (p ∷ ps) m = take_points ps (take_point p m)

module _ {F U C R T Raw : Type 0} (bus : Bus F Raw) where
  abbrev obey : Status F → Option FetchError → MqttClient F U C R T → MqttClient F U C R T
  obey status (some e) m = m
  obey status none m = take_points status.measurements m

  unfoldable pub handle_msg_bus_status : Envelope Raw → MqttClient F U C R T → MqttClient F U C R T
  handle_msg_bus_status env m =
      let (status, err) = get_status bus.json env in
      if sender env == m.name then m else obey status err m
