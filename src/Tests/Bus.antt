-- ===== src/Tests/Bus.antt =====
-- A run of the subscriber: a confirmation is waited for, and comes twice.
use ot_sim.Common.{ℕ, ◌≡◌, refl, true, false, none, some, [], ◌∷◌, string_eq}
use ot_sim.Common.Dict.{lookup, erase}
use ot_sim.Msgbus.Types.{Kind, Confirmation}
use ot_sim.Msgbus.Envelope.{parse_envelope, get_confirmation}
use ot_sim.Msgbus.Subscriber.{
  Subscriber, Loop, new_subscriber, register_confirmation_handler, start, turn, dispatch, message,
  going, returned, panicked,
}
use ot_sim.Msgbus.Subscriber.Loops.{begins, registers, starts, Delivers, Reaches-Delivers}
use ot_sim.Tests.Wire.{Wire, wire_json, confirmation, envelope}

abbrev fresh : Subscriber ℕ Wire
fresh = new_subscriber

abbrev waiting : Subscriber ℕ Wire
waiting = (register_confirmation_handler "id" (start "RUNTIME" fresh)).1

abbrev loop : Loop ℕ Wire
loop = record {
  running = true;
  topic = "RUNTIME";
  handlers = record { status_handlers = []; update_handlers = []; health_check_handlers = [] };
}

abbrev reply : Confirmation
reply = record { confirm = "id"; results = []; errors = [] }

abbrev incoming : Wire
incoming = envelope "v1" Kind.confirmation none (confirmation reply)

first_turn :
    turn wire_json loop (message "RUNTIME" (incoming ∷ [])) 5 (("id", 0) ∷ [])
    ≡ record { fate = going; world = 5; channels = []; delivers = some (0, reply) }
unfolding turn lookup parse_envelope dispatch get_confirmation erase
first_turn = refl

second_turn :
    turn wire_json loop (message "RUNTIME" (incoming ∷ [])) 5 []
    ≡ record { fate = going; world = 5; channels = []; delivers = none }
unfolding turn lookup parse_envelope dispatch get_confirmation
second_turn = refl

-- a topic without a body, and a message to a loop whose flag is down
no_body : (turn wire_json loop (message "RUNTIME" []) 5 []).fate ≡ panicked
unfolding turn
no_body = refl

flag_down :
    (turn wire_json (record loop { running = false }) (message "RUNTIME" []) 5 []).fate ≡ returned
unfolding turn
flag_down = refl

Reaches-Delivers_example :
    Delivers waiting.confirmation_handlers
      (turn wire_json loop (message "RUNTIME" (incoming ∷ [])) 5 waiting.confirmation_handlers)
Reaches-Delivers_example =
    Reaches-Delivers wire_json {s = waiting} loop (message "RUNTIME" (incoming ∷ [])) 5
      (registers "id" (starts "RUNTIME" begins))
