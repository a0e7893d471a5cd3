-- ===== src/Msgbus/Envelope.antt =====
-- Building an envelope and reading it: src/go/msgbus/{envelope, runtime, module, health, metric}.go.
-- The accessors return the zero value where the kind is wrong, and what was decoded so far where
-- the decoding failed.
pub mod Laws
use ot_sim.Common.{
  Bool, true, false, Option, none, some, List, [], ◌∷◌, String, if◌then◌else◌, string_eq,
}
use ot_sim.Common.Dict.{Dict, lookup}
use ot_sim.Msgbus.Types.{
  Kind, kind_beq, Status, Update, Confirmation, ModuleControl, HealthCheck, Metrics, Envelope,
  Codec, Json,
}

-- The contents that `NewEnvelope` takes: the union `IEnvelope`.
pub data Contents (F : Type 0) : Type 0 where
  status : Status F → Contents F
  update : Update F → Contents F
  module_control : ModuleControl → Contents F
  confirmation : Confirmation → Contents F

-- the methods `Kind`
abbrev pub kind : {F : Type 0} → Contents F → Kind
kind (status s) = Kind.status
kind (update u) = Kind.update
kind (module_control c) = Kind.module_control
kind (confirmation c) = Kind.confirmation

pub data FetchError : Type 0 where
  not_kind : Kind → FetchError  -- ErrKindNotStatus and its like
  unmarshaling : FetchError

unfoldable pub sender : {Raw : Type 0} → Envelope Raw → String
unfolding lookup
sender e = elim e.metadata [
  | none ↦ ""
  | some metadata ↦ elim (lookup "sender" metadata) [ none ↦ "" | some s ↦ s ]
]

-- the envelope that all constructors of envelopes build
abbrev sealed : {Raw : Type 0} → String → Kind → Option Raw → Option (Envelope Raw)
sealed sender k none = none
sealed sender k (some raw) =
    some
      record { version = "v1"; kind = k; metadata = some (("sender", sender) ∷ []); contents = raw }

-- the check of the kind and the decoding that all accessors make
abbrev fetch : {Raw A : Type 0} → Kind → Codec Raw A → A → Envelope Raw → A × Option FetchError
fetch k codec zero_value e =
    let decoded = codec.unmarshal e.contents in
    if kind_beq e.kind k
    then (decoded.value, if decoded.failed then some unmarshaling else none)
    else (zero_value, some (not_kind k))

module _ {F Raw : Type 0} (json : Json F Raw) where
  abbrev marshal_contents : Contents F → Option Raw
  marshal_contents (status s) = json.status.marshal s
  marshal_contents (update u) = json.update.marshal u
  marshal_contents (module_control c) = json.module_control.marshal c
  marshal_contents (confirmation c) = json.confirmation.marshal c

  unfoldable pub new_envelope : String → Contents F → Option (Envelope Raw)
  new_envelope sender contents = sealed sender (kind contents) (marshal_contents contents)

  unfoldable pub new_health_check_envelope : String → HealthCheck → Option (Envelope Raw)
  new_health_check_envelope sender hc =
      sealed sender Kind.health_check (json.health_check.marshal hc)

  unfoldable pub new_metric_envelope : String → Metrics F → Option (Envelope Raw)
  new_metric_envelope sender metrics = sealed sender Kind.metric (json.metrics.marshal metrics)

  -- `none` is the error
  unfoldable pub parse_envelope : Raw → Option (Envelope Raw)
  parse_envelope raw =
      let decoded = json.envelope.unmarshal raw in
      if decoded.failed then none else some decoded.value

  unfoldable pub get_status : Envelope Raw → Status F × Option FetchError
  get_status = fetch Kind.status json.status (record { measurements = [] })

  unfoldable pub get_update : Envelope Raw → Update F × Option FetchError
  get_update = fetch Kind.update json.update (record { updates = []; recipient = ""; confirm = "" })

  unfoldable pub get_confirmation : Envelope Raw → Confirmation × Option FetchError
  get_confirmation =
      fetch Kind.confirmation json.confirmation (record { confirm = ""; results = []; errors = [] })

  unfoldable pub get_module_control : Envelope Raw → ModuleControl × Option FetchError
  get_module_control =
      fetch Kind.module_control json.module_control
        (record { list = false; enable = []; disable = []; recipient = ""; confirm = "" })

  unfoldable pub get_health_check : Envelope Raw → HealthCheck × Option FetchError
  get_health_check = fetch Kind.health_check json.health_check (record { state = "" })

  unfoldable pub get_metrics : Envelope Raw → Metrics F × Option FetchError
  get_metrics = fetch Kind.metric json.metrics (record { updates = [] })
