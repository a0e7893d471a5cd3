-- ===== src/Msgbus/Subscriber.antt =====
-- The SUB socket and its loop: src/go/msgbus/subscriber.go. A handler is a function of the state
-- `S` of its module; a channel is a number. `run` has its receiver by value: a loop keeps the flag
-- and the handlers that were there when `Start` was called, and shares the map of channels.
pub mod Loops
use ot_sim.Common.{
  ℕ, ◌+◌, Bool, true, false, Option, none, some, List, [], ◌∷◌, ◌++◌, String, ◌==◌, string_eq,
  foldl, if◌then◌else◌,
}
use ot_sim.Common.Dict.{Dict, lookup, insert, erase}
use ot_sim.Msgbus.Types.{Kind, Envelope, Json, Confirmation}
use ot_sim.Msgbus.Envelope.{FetchError, parse_envelope, get_confirmation}

abbrev pub Handler : Type 0 → Type 0 → Type 0
Handler S Raw = Envelope Raw → S → S

pub record Handlers (S Raw : Type 0) : Type 0 where
  pub status_handlers : List (Handler S Raw)
  pub update_handlers : List (Handler S Raw)
  pub health_check_handlers : List (Handler S Raw)

-- one goroutine in `run`
pub record Loop (S Raw : Type 0) : Type 0 where
  pub running : Bool
  pub topic : String
  pub handlers : Handlers S Raw

-- `made` counts the channels, and `loops` are the goroutines that were started.
pub record Subscriber (S Raw : Type 0) : Type 0 where
  pub running : Bool
  pub handlers : Handlers S Raw
  pub confirmation_handlers : Dict String ℕ
  pub made : ℕ
  pub loops : List (Loop S Raw)

module _ {S Raw : Type 0} where
  unfoldable pub new_subscriber : Subscriber S Raw
  new_subscriber = record {
    running = false;
    handlers = record { status_handlers = []; update_handlers = []; health_check_handlers = [] };
    confirmation_handlers = [];
    made = 0;
    loops = [];
  }

  unfoldable pub add_status_handler : Handler S Raw → Subscriber S Raw → Subscriber S Raw
  add_status_handler h s =
      let hs : Handlers S Raw = s.handlers in
      record s { handlers = record hs { status_handlers = hs.status_handlers ++ h ∷ [] } }

  unfoldable pub add_update_handler : Handler S Raw → Subscriber S Raw → Subscriber S Raw
  add_update_handler h s =
      let hs : Handlers S Raw = s.handlers in
      record s { handlers = record hs { update_handlers = hs.update_handlers ++ h ∷ [] } }

  unfoldable pub add_health_check_handler : Handler S Raw → Subscriber S Raw → Subscriber S Raw
  add_health_check_handler h s =
      let hs : Handlers S Raw = s.handlers in
      record s {
        handlers = record hs { health_check_handlers = hs.health_check_handlers ++ h ∷ [] };
      }

  unfoldable pub register_confirmation_handler : String → Subscriber S Raw → ℕ × Subscriber S Raw
  register_confirmation_handler confirmation s = (
    s.made,
    record s {
      confirmation_handlers = insert confirmation s.made s.confirmation_handlers;
      made = s.made + 1;
    },
  )

  unfoldable pub start : String → Subscriber S Raw → Subscriber S Raw
  start topic s =
      let on : Subscriber S Raw = record s { running = true } in
      record on {
        loops = record { running = on.running; topic = topic; handlers = on.handlers } ∷ on.loops;
      }

  -- less the closing of the socket
  unfoldable pub stop : Subscriber S Raw → Subscriber S Raw
  stop s = record s { running = false }

-- What `RecvMessage` gives: an error, or the frames of a message, the first of which is the topic.
pub data Received (Raw : Type 0) : Type 0 where
  failed : Received Raw
  message : String → List Raw → Received Raw

-- What becomes of the loop: it goes round again, it has returned, or it has panicked, which ends the
-- process.
pub data Fate : Type 0 where
  going returned panicked : Fate

-- What a turn of the loop does: the module's state after it, the channels, and the confirmation
-- that it sends on a channel. There the loop waits for a receiver: it is going once there is one.
pub record Turn (S : Type 0) : Type 0 where
  pub fate : Fate
  pub world : S
  pub channels : Dict String ℕ
  pub delivers : Option (ℕ × Confirmation)

module _ {F S Raw : Type 0} (json : Json F Raw) where
  abbrev run_all : List (Handler S Raw) → Envelope Raw → S → S
  run_all hs env world = foldl (λ w h. h env w) world hs

  abbrev quiet : S → Dict String ℕ → Turn S
  quiet world channels = record {
    fate = going;
    world = world;
    channels = channels;
    delivers = none;
  }

  abbrev pub ended : Fate → S → Dict String ℕ → Turn S
  ended fate world channels = record (quiet world channels) { fate = fate }

  abbrev pub confirm : Confirmation × Option FetchError → S → Dict String ℕ → Turn S
  confirm (c, some e) world channels = quiet world channels
  confirm (c, none) world channels = elim (lookup c.confirm channels) [
    | none ↦ quiet world channels
    | some conf ↦ record {
      fate = going;
      world = world;
      channels = erase c.confirm channels;
      delivers = some (conf, c);
    }
  ]

  -- the `switch` over the kind of the envelope
  unfoldable pub dispatch : Kind → Handlers S Raw → Envelope Raw → S → Dict String ℕ → Turn S
  dispatch Kind.status hs env world channels = quiet (run_all hs.status_handlers env world) channels
  dispatch Kind.update hs env world channels = quiet (run_all hs.update_handlers env world) channels
  dispatch Kind.health_check hs env world channels =
      quiet (run_all hs.health_check_handlers env world) channels
  dispatch Kind.confirmation hs env world channels =
      confirm (get_confirmation json env) world channels
  dispatch Kind.module_control hs env world channels = quiet world channels
  dispatch Kind.metric hs env world channels = quiet world channels
  dispatch (Kind.other s) hs env world channels = quiet world channels

  -- `msg[1]` and what follows; there may be no second frame
  abbrev pub read_body : Loop S Raw → List Raw → S → Dict String ℕ → Turn S
  read_body l [] world channels = ended panicked world channels
  read_body l (body ∷ more) world channels = elim (parse_envelope json body) [
    | none ↦ quiet world channels
    | some env ↦ dispatch env.kind l.handlers env world channels
  ]

  abbrev pub take_message : Loop S Raw → Received Raw → S → Dict String ℕ → Turn S
  take_message l failed world channels = quiet world channels
  take_message l (message topic bodies) world channels =
      if topic == l.topic then read_body l bodies world channels else quiet world channels

  -- one turn of the loop in `run`, from its condition on
  unfoldable pub turn : Loop S Raw → Received Raw → S → Dict String ℕ → Turn S
  turn l received world channels =
      if l.running then take_message l received world channels else ended returned world channels
