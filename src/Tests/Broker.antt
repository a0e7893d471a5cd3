-- ===== src/Tests/Broker.antt =====
-- Runs of the MQTT module.
use ot_sim.Common.{
  true, ℕ, ◌≡◌, refl, Bool, false, Option, none, some, [], ◌∷◌, String, ◌==◌, string_eq,
  if◌then◌else◌, arith,
}
use ot_sim.Common.Int.{pos, int_eq}
use ot_sim.Common.Dict.{lookup, insert}
use ot_sim.Config.{Configured, done, fold_all}
use ot_sim.Float.Decimal.{Decimal, integer, decimal_ops}
use ot_sim.Mqtt.{Host, Endpoint, MqttClient}
use ot_sim.Mqtt.Configure.{
  endpoint_option, read_endpoint, validate, validate_all, configure_child, configure,
}
use ot_sim.Mqtt.Configure.Valid.{AllValid, configure-AllValid}
use ot_sim.Mqtt.Run.{publish, given, connect_and_run, handle_msg_bus_status}
use ot_sim.Mqtt.Run.Rotation.{Connects, connect_and_run-Connects}
use ot_sim.Mqtt.Run.Deliveries.{deliveries, handle_msg_bus_status-deliveries}
use ot_sim.Msgbus.Types.{Kind, Status, Envelope}
use ot_sim.Msgbus.Envelope.{new_envelope}
use ot_sim.Tests.Document.{Tree, node, leaf, branch, documents, conversions, attr_of, known}
use ot_sim.Tests.Wire.{Wire, wire_laws, open_bus}

-- A URL is its scheme, a template its text.
abbrev scheme_of : String → Option String
scheme_of url =
    if url == "ssl://broker-1:8883"
    then some "ssl"
    else if url == "tcp://broker-2:1883"
    then some "tcp"
    else none

abbrev machine : Host Decimal String ℕ ℕ String
machine = record {
  parse_url = scheme_of;
  scheme = λ uri. uri;
  load_key_pair = λ cert key. some 1;
  read_file = λ path. none;
  append_certs = λ bytes. none;
  parse_template = λ text. some text;
  default_template = "{{ .Value }}";
  execute = λ template time client topic v. some topic;
  trim_space = λ text. text;
  dots_to_slashes = λ tag. "tank/level";
}

abbrev mqtt_element : Tree
mqtt_element = node "mqtt" "" [] (
    branch
      (node "endpoint" "" [] (
        branch (node "url" "ssl://broker-1:8883" [] leaf) (
          branch
            (node "tls" "" [] (
              branch (node "key" "client.key" [] leaf)
                (branch (node "certificate" "client.crt" [] leaf) leaf)))
            leaf)))
      (branch (node "endpoint" "tcp://broker-2:1883" [] leaf) (
        branch (node "client-id" "plant" [] leaf) (branch (node "tag" "tank.level" [] leaf) leaf))))

abbrev blank : MqttClient Decimal String ℕ ℕ String
blank = record {
  pub_endpoint = "";
  endpoints = [];
  period = pos 0;
  name = "mqtt";
  id = "";
  topics = [];
  values = [];
  endpoint = 0;
  payload_template = "{{ .Value }}";
  timestamp_template = "";
  started = [];
}

abbrev outcome : {A : Type 0} → A → Configured A → A
outcome a (done b) = b
outcome a (Configured.failed e) = a

abbrev reporter : MqttClient Decimal String ℕ ℕ String
reporter = outcome blank (configure decimal_ops machine documents conversions mqtt_element blank)

configure-AllValid_example : ((reporter.id == "") ≡ false) × AllValid machine reporter.endpoints
unfolding configure configure_child read_endpoint endpoint_option validate_all validate fold_all
    attr_of known lookup insert
configure-AllValid_example =
    configure-AllValid decimal_ops machine documents conversions mqtt_element blank reporter refl

abbrev broker : String → Endpoint String ℕ ℕ
broker url = record {
  url = url;
  ca_path = "";
  key_path = "";
  cert_path = "";
  uri = some "tcp";
  cert = none;
  roots = none;
  insecure = false;
}

-- the first broker is down, and is tried again after the second
abbrev two_brokers : MqttClient Decimal String ℕ ℕ String
two_brokers = record blank {
  endpoints = broker "one" ∷ broker "two" ∷ [];
  endpoint = 2;
  id = "plant";
  topics = ("tank.level", "tank/level") ∷ [];
  values = ("tank.level", integer (pos 0)) ∷ [];
}

abbrev is_up : Endpoint String ℕ ℕ → Bool
is_up e = e.url == "two"

connect_and_run-Connects_example : Connects is_up two_brokers (connect_and_run is_up 2 two_brokers)
connect_and_run-Connects_example =
    connect_and_run-Connects is_up two_brokers 1 (broker "two") (omega arith, omega arith)
      (omega arith) refl refl

abbrev told : Status Decimal
told = record {
  measurements =
      record { tag = "other"; value = integer (pos 4); tstamp = 0 }
      ∷ record { tag = "tank.level"; value = integer (pos 3); tstamp = 0 }
      ∷ [];
}

abbrev message : Envelope Wire
message = record {
  version = "v1";
  kind = Kind.status;
  metadata = some (("sender", "modbus") ∷ []);
  contents = Wire.status told;
}

abbrev takes_all : String → String → Bool
takes_all topic payload = true

-- what the goroutine of the level gives to the broker
level_given :
    publish machine (λ format. "now") (some takes_all) "tank.level" (integer (pos 3)) two_brokers
    ≡ given "tank/level" "tank/level" true
unfolding publish lookup
level_given = refl

handle_msg_bus_status-deliveries_example :
    ((handle_msg_bus_status open_bus message two_brokers).started
      ≡ deliveries two_brokers told.measurements)
    × (publish machine
          (λ format. "now")
          (some takes_all)
          "tank.level"
          (integer (pos 3))
          (handle_msg_bus_status open_bus message two_brokers)
        ≡ publish machine
            (λ format. "now")
            (some takes_all)
            "tank.level"
            (integer (pos 3))
            two_brokers)
unfolding new_envelope
handle_msg_bus_status-deliveries_example =
    handle_msg_bus_status-deliveries open_bus machine (λ format. "now") (some takes_all)
      "tank.level" (integer (pos 3)) two_brokers "modbus" told message wire_laws refl refl refl
