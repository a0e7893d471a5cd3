-- ===== src/Msgbus/Types.antt =====
-- The messages on the bus and their envelope: the types of src/go/msgbus/{envelope, runtime,
-- module, health, metric}.go. `encoding/json` is a parameter, `Json`, over a type of raw bytes.
use ot_sim.Common.{ℕ, ◌≡◌, Bool, true, false, Option, some, List, String}
use ot_sim.Common.Dict.{Dict}

-- EnvelopeKind; `other` is any string that is none of the constants.
pub data Kind : Type 0 where
  status update confirmation module_control health_check metric : Kind
  other : String → Kind

abbrev pub kind_beq : Kind → Kind → Bool
kind_beq status status = true
kind_beq update update = true
kind_beq confirmation confirmation = true
kind_beq module_control module_control = true
kind_beq health_check health_check = true
kind_beq metric metric = true
kind_beq _ _ = false

pub record Point (F : Type 0) : Type 0 where
  pub tag : String
  pub value : F
  pub tstamp : ℕ  -- uint64

pub record Status (F : Type 0) : Type 0 where
  pub measurements : List (Point F)

pub record Update (F : Type 0) : Type 0 where
  pub updates : List (Point F)
  pub recipient : String
  pub confirm : String

-- `Results` is a map to `any`; every sender puts strings there.
pub record Confirmation : Type 0 where
  pub confirm : String
  pub results : Dict String String
  pub errors : Dict String String

pub record ModuleControl : Type 0 where
  pub list : Bool
  pub enable : List String
  pub disable : List String
  pub recipient : String
  pub confirm : String

pub record HealthCheck : Type 0 where
  pub state : String

pub data MetricKind : Type 0 where
  counter gauge : MetricKind
  other : String → MetricKind

pub record Metric (F : Type 0) : Type 0 where
  pub kind : MetricKind
  pub name : String
  pub desc : String
  pub value : F

pub record Metrics (F : Type 0) : Type 0 where
  pub updates : List (Metric F)

-- `metadata` is `none` for a nil map, which is what a message without the field decodes to.
pub record Envelope (Raw : Type 0) : Type 0 where
  pub version : String
  pub kind : Kind
  pub metadata : Option (Dict String String)
  pub contents : Raw

-- What `json.Unmarshal` leaves: the value, filled in as far as the decoding went, and whether it
-- returned an error.
pub record Decoded (A : Type 0) : Type 0 where
  pub value : A
  pub failed : Bool

-- `json.Marshal`, where `none` is its error, and `json.Unmarshal`.
pub record Codec (Raw A : Type 0) : Type 0 where
  pub marshal : A → Option Raw
  pub unmarshal : Raw → Decoded A

-- What was marshalled is unmarshalled without an error and unchanged.
abbrev pub RoundTrips : {Raw A : Type 0} → Codec Raw A → Type 0
RoundTrips {Raw} {A} c =
    (a : A) (raw : Raw)
    → c.marshal a ≡ some raw
    → c.unmarshal raw ≡ record { value = a; failed = false }

pub record Json (F Raw : Type 0) : Type 0 where
  pub status : Codec Raw (Status F)
  pub update : Codec Raw (Update F)
  pub confirmation : Codec Raw Confirmation
  pub module_control : Codec Raw ModuleControl
  pub health_check : Codec Raw HealthCheck
  pub metrics : Codec Raw (Metrics F)
  pub envelope : Codec Raw (Envelope Raw)

-- The codecs give back what they were given.
pub record JsonLaws {F Raw : Type 0} (json : Json F Raw) : Type 0 where
  pub status_round : RoundTrips json.status
  pub update_round : RoundTrips json.update
  pub confirmation_round : RoundTrips json.confirmation
  pub module_control_round : RoundTrips json.module_control
  pub metrics_round : RoundTrips json.metrics
  pub envelope_round : RoundTrips json.envelope
