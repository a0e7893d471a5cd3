-- ===== src/Mqtt.antt =====
-- The MQTT module: src/go/mqtt/mqtt.go and src/go/mqtt/types.go. What it uses of net/url, crypto,
-- text/template and of the operating system is the parameter `Host`.
pub mod Configure
pub mod Run
use ot_sim.Common.{ℕ, Bool, Option, none, List, [], String, string_eq}
use ot_sim.Common.Int.{ℤ, pos}
use ot_sim.Common.Dict.{Dict}

-- `U` is a parsed URL, `C` a certificate with its key, `R` a pool of authorities, `T` a template.
-- `execute` gives a payload from the data of a publication, at some time; `none` is an error.
pub record Host (F U C R T : Type 0) : Type 0 where
  pub parse_url : String → Option U
  pub scheme : U → String
  pub load_key_pair : String → String → Option C
  pub read_file : String → Option (List ℕ)
  pub append_certs : List ℕ → Option R
  pub parse_template : String → Option T
  pub default_template : T
  pub execute : T → String → String → String → F → Option String
  pub trim_space : String → String
  pub dots_to_slashes : String → String

pub record Endpoint (U C R : Type 0) : Type 0 where
  pub url : String
  pub ca_path : String
  pub key_path : String
  pub cert_path : String
  pub uri : Option U
  pub cert : Option C
  pub roots : Option R
  pub insecure : Bool

-- `endpoint` is the index of the endpoint to try next, `started` the goroutines of
-- `publish` that were begun, with their tags and values.
pub record MqttClient (F U C R T : Type 0) : Type 0 where
  pub pub_endpoint : String
  pub endpoints : List (Endpoint U C R)
  pub period : ℤ
  pub name : String
  pub id : String
  pub topics : Dict String String
  pub values : Dict String F
  pub endpoint : ℕ
  pub payload_template : T
  pub timestamp_template : String
  pub started : List (String × F)

unfoldable pub new : {F U C R T : Type 0} → Host F U C R T → String → MqttClient F U C R T
new host name = record {
  pub_endpoint = "";
  endpoints = [];
  period = pos 0;
  name = name;
  id = "";
  topics = [];
  values = [];
  endpoint = 0;
  payload_template = host.default_template;
  timestamp_template = "2006-01-02T15:04:05Z07:00";
  started = [];
}
