-- ===== src/Tests/Wire.antt =====
-- A concrete bus: messages that are never refused, encoded as themselves.
use ot_sim.Common.{Option, none, some, true, false, String, [], ◌≡◌, refl}
use mathlib.Core.Path.{subst}
use mathlib.Core.Option.{some-injective}
use ot_sim.Common.Dict.{Dict}
use ot_sim.Float.Decimal.{Decimal}
use ot_sim.Msgbus.Types.{
  Kind, Status, Update, Confirmation, ModuleControl, HealthCheck, Metrics, Envelope, Decoded, Json,
  JsonLaws,
}
use ot_sim.Msgbus.Pusher.{Bus}

pub data Wire : Type 0 where
  status : Status Decimal → Wire
  update : Update Decimal → Wire
  confirmation : Confirmation → Wire
  module_control : ModuleControl → Wire
  health_check : HealthCheck → Wire
  metrics : Metrics Decimal → Wire
  envelope : String → Kind → Option (Dict String String) → Wire → Wire

abbrev decoded : {A : Type 0} → A → Decoded A
decoded a = record { value = a; failed = false }

abbrev garbled : {A : Type 0} → A → Decoded A
garbled a = record { value = a; failed = true }

abbrev pub read_status : Wire → Decoded (Status Decimal)
read_status (status s) = decoded s
read_status _ = garbled (record { measurements = [] })

abbrev read_update : Wire → Decoded (Update Decimal)
read_update (update s) = decoded s
read_update _ = garbled (record { updates = []; recipient = ""; confirm = "" })

abbrev read_confirmation : Wire → Decoded Confirmation
read_confirmation (confirmation s) = decoded s
read_confirmation _ = garbled (record { confirm = ""; results = []; errors = [] })

abbrev read_module_control : Wire → Decoded ModuleControl
read_module_control (module_control s) = decoded s
read_module_control _ =
    garbled (record { list = false; enable = []; disable = []; recipient = ""; confirm = "" })

abbrev read_health_check : Wire → Decoded HealthCheck
read_health_check (health_check s) = decoded s
read_health_check _ = garbled (record { state = "" })

abbrev read_metrics : Wire → Decoded (Metrics Decimal)
read_metrics (metrics s) = decoded s
read_metrics _ = garbled (record { updates = [] })

abbrev read_envelope : Wire → Decoded (Envelope Wire)
read_envelope (envelope v k m c) =
    decoded (record { version = v; kind = k; metadata = m; contents = c })
read_envelope w =
    garbled (record { version = ""; kind = Kind.other ""; metadata = none; contents = w })

abbrev pub wire_json : Json Decimal Wire
wire_json = record {
  status = record { marshal = λ a. some (status a); unmarshal = read_status };
  update = record { marshal = λ a. some (update a); unmarshal = read_update };
  confirmation = record { marshal = λ a. some (confirmation a); unmarshal = read_confirmation };
  module_control = record {
    marshal = λ a. some (module_control a);
    unmarshal = read_module_control;
  };
  health_check = record { marshal = λ a. some (health_check a); unmarshal = read_health_check };
  metrics = record { marshal = λ a. some (metrics a); unmarshal = read_metrics };
  envelope = record {
    marshal = λ e. some (envelope e.version e.kind e.metadata e.contents);
    unmarshal = read_envelope;
  };
}

pub wire_laws : JsonLaws wire_json
wire_laws = record {
  status_round = λ a raw h. subst (λ r. read_status r ≡ decoded a) (some-injective _ _ h) refl;
  update_round = λ a raw h. subst (λ r. read_update r ≡ decoded a) (some-injective _ _ h) refl;
  confirmation_round =
      λ a raw h. subst (λ r. read_confirmation r ≡ decoded a) (some-injective _ _ h) refl;
  module_control_round =
      λ a raw h. subst (λ r. read_module_control r ≡ decoded a) (some-injective _ _ h) refl;
  metrics_round = λ a raw h. subst (λ r. read_metrics r ≡ decoded a) (some-injective _ _ h) refl;
  envelope_round = λ a raw h. subst (λ r. read_envelope r ≡ decoded a) (some-injective _ _ h) refl;
}

abbrev pub open_bus : Bus Decimal Wire
open_bus = record { json = wire_json; accepts = λ sent topic body. true; describe = λ e. "error" }
