-- ===== src/Mqtt/Configure.antt =====
-- `Configure` of src/go/mqtt/mqtt.go and `validate` of src/go/mqtt/types.go.

pub mod Valid
use ot_sim.Common.{
  ℕ, Bool, true, false, ◌||◌, Option, none, some, List, [], ◌∷◌, ◌++◌, String, ◌==◌, string_eq,
  if◌then◌else◌, or_else,
}
use ot_sim.Common.Int.{pos}
use ot_sim.Common.Dict.{Dict, insert}
use ot_sim.Config.{
  Xml, Conversions, invalid_period, missing_client_id, invalid_endpoint, missing_scheme,
  missing_key_pair, invalid_key_pair, missing_authority, invalid_authority, invalid_template,
  ConfigError, Configured, done, failed, ◌>>=◌, fold_all,
}
use ot_sim.Float.{FloatOps}
use ot_sim.Mqtt.{Host, Endpoint, MqttClient}

-- a result whose absence is an error
abbrev pub required : {A : Type 0} → ConfigError → Option A → Configured A
required e none = failed e
required e (some a) = done a

module _ {F U C R T : Type 0} (host : Host F U C R T) where
  abbrev pub is_secure : U → Bool
  is_secure uri = host.scheme uri == "ssl" || host.scheme uri == "tls"

  -- the authorities, where a file of them is given
  abbrev pub with_roots : Endpoint U C R → Configured (Endpoint U C R)
  with_roots e =
      if e.ca_path == ""
      then done e
      else required missing_authority (host.read_file e.ca_path) >>= (λ bytes.
        required invalid_authority (host.append_certs bytes)
        >>= (λ roots. done (record e { roots = some roots })))

  abbrev pub secured : Endpoint U C R → Configured (Endpoint U C R)
  secured e =
      if e.cert_path == "" || e.key_path == ""
      then failed missing_key_pair
      else required invalid_key_pair (host.load_key_pair e.cert_path e.key_path)
        >>= (λ cert. with_roots (record e { cert = some cert }))

  abbrev pub with_uri : U → Endpoint U C R → Configured (Endpoint U C R)
  with_uri uri e =
      if host.scheme uri == ""
      then failed missing_scheme
      else if is_secure uri
      then secured (record e { uri = some uri })
      else done (record e { uri = some uri })

  unfoldable pub validate : Endpoint U C R → Configured (Endpoint U C R)
  validate e = required invalid_endpoint (host.parse_url e.url) >>= (λ uri. with_uri uri e)

  -- the loop at the end of `Configure`
  unfoldable pub validate_all : List (Endpoint U C R) → Configured (List (Endpoint U C R))
  validate_all [] = done []
  validate_all (e ∷ es) = elim (validate e) [
    | failed x ↦ failed x
    | done e' ↦ validate_all es >>= (λ es'. done (e' ∷ es'))
  ]

abbrev is_insecure : {F E : Type 0} → Xml E → Conversions F → E → Bool
is_insecure xml conv child =
    or_else (conv.parse_bool (or_else (xml.select_attr "insecure" child) "false")) false

module _ {F U C R E : Type 0} (xml : Xml E) (conv : Conversions F) where
  -- a child of the element `tls`
  abbrev set_path : E → Endpoint U C R → Configured (Endpoint U C R)
  set_path child e =
      if xml.tag child == "ca"
      then done (record e { ca_path = xml.text child })
      else if xml.tag child == "key"
      then done (record e { key_path = xml.text child })
      else if xml.tag child == "certificate"
      then done (record e { cert_path = xml.text child })
      else done e

  -- a child of the element `endpoint`
  unfoldable pub endpoint_option : E → Endpoint U C R → Configured (Endpoint U C R)
  endpoint_option child e =
      if xml.tag child == "url"
      then done (record e { url = xml.text child })
      else if xml.tag child == "tls"
      then fold_all set_path (xml.child_elements child)
          (record e { insecure = is_insecure xml conv child })
      else done e

  abbrev bare : String → Endpoint U C R
  bare url = record {
    url = url;
    ca_path = "";
    key_path = "";
    cert_path = "";
    uri = none;
    cert = none;
    roots = none;
    insecure = false;
  }

  abbrev read_children : E → List E → Configured (Endpoint U C R)
  read_children child [] = done (bare (xml.text child))
  read_children child (c ∷ cs) = fold_all endpoint_option (c ∷ cs) (bare "")

  -- the element `endpoint`
  unfoldable pub read_endpoint : E → Configured (Endpoint U C R)
  read_endpoint child = read_children child (xml.child_elements child)

module _ {F U C R T E : Type 0} (fl : FloatOps F) (host : Host F U C R T) (xml : Xml E)
    (conv : Conversions F) where
  abbrev pub add_tag : String → String → MqttClient F U C R T → MqttClient F U C R T
  add_tag tag topic m = record m {
    topics = insert tag topic m.topics;
    values = insert tag (fl.from_int (pos 0)) m.values;
  }

  unfoldable pub configure_child : E → MqttClient F U C R T → Configured (MqttClient F U C R T)
  configure_child child m =
      let name = xml.tag child in
      let text = xml.text child in
      if name == "pub-endpoint"
      then done (record m { pub_endpoint = text })
      else if name == "endpoint"
      then read_endpoint xml conv child
        >>= (λ e. done (record m { endpoints = m.endpoints ++ e ∷ [] }))
      else if name == "client-id"
      then done (record m { id = text })
      else if name == "period"
      then required invalid_period (conv.parse_duration text)
        >>= (λ d. done (record m { period = d }))
      else if name == "tag"
      then done
          (add_tag text (or_else (xml.select_attr "topic" child) (host.dots_to_slashes text)) m)
      else if name == "payload-template"
      then required invalid_template (host.parse_template (host.trim_space text)) >>= (λ t.
        done (record m {
          payload_template = t;
          timestamp_template = or_else (xml.select_attr "timestamp" child) m.timestamp_template;
        }))
      else done m

  abbrev pub checked : MqttClient F U C R T → Configured (MqttClient F U C R T)
  checked m =
      if m.id == ""
      then failed missing_client_id
      else validate_all host m.endpoints >>= (λ es. done (record m { endpoints = es }))

  unfoldable pub configure : E → MqttClient F U C R T → Configured (MqttClient F U C R T)
  configure e m = fold_all configure_child (xml.child_elements e) m >>= (λ n. checked n)
