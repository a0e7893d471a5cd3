-- ===== src/Logic/Run/Told.antt =====
-- What messages from the bus change in a logic module: `handleMsgBusStatus` of
-- src/go/logic/logic.go.
use ot_sim.Common.{
  ◌≡◌, refl, ap, ◌∙◌, Bool, false, Option, none, some, List, [], ◌∷◌, String, ◌==◌, string_eq,
  if◌then◌else◌, Option-cases, inl, inr,
}
use ot_sim.Common.Dict.{Dict, lookup, insert, lookup-insert}
use ot_sim.Logic.{Value, number, Env, Logic}
use ot_sim.Logic.Run.{set_env, done, locked_set, handle_msg_bus_status}
use ot_sim.Msgbus.Types.{Point, Status, Envelope, JsonLaws}
use ot_sim.Msgbus.Envelope.{new_envelope, status}
use ot_sim.Msgbus.Envelope.Laws.{ReadsBack-new_envelope}
use ot_sim.Msgbus.Pusher.{Bus}

-- whether the tag stands for the variable
abbrev names : String → Option String → Bool
names v none = false
names v (some w) = w == v

-- the last value that the points give the variable by its tags, or what it was
abbrev pub latest_of :
    {F X : Type 0}
    → Dict String String
    → String
    → List (Point F)
    → Option (Value F X)
    → Option (Value F X)
latest_of vars v [] old = old
latest_of vars v (p ∷ ps) old =
    latest_of vars v ps (if names v (lookup p.tag vars) then some (number p.value) else old)

lookup-set_env :
    {F X : Type 0} (vars : Dict String String) (v : String) (ps : List (Point F)) (env : Env F X)
    → lookup v (set_env vars ps env) ≡ latest_of vars v ps (lookup v env)
unfolding set_env
lookup-set_env vars v [] env = refl
lookup-set_env vars v (p ∷ ps) env = elim (Option-cases (lookup p.tag vars)) [
  | inl gone ↦ rw (gone, set_env, latest_of) (lookup-set_env vars v ps env)
  | inr (w, known) ↦
      rw (known, set_env, latest_of)
        (lookup-set_env vars v ps (insert w (number p.value) env)
          ∙ ap (latest_of vars v ps) (lookup-insert w v (number p.value) env))
]

module _ {F P X Raw : Type 0} (bus : Bus F Raw) where
  -- A status message from another module, where the JSON codecs give back what they were given and
  -- the lock is free, sets each variable to the last number that the message has for a tag of the
  -- variable, if any, and changes nothing but the environment.
  pub handle_msg_bus_status-latest :
      (l : Logic F P X Raw) (from : String) (st : Status F) (env : Envelope Raw) (v : String)
      → JsonLaws bus.json
      → new_envelope bus.json from (status st) ≡ some env
      → (from == l.name) ≡ false
      → l.locked ≡ false
      → (new : Env F X) × (handle_msg_bus_status bus env l ≡ done (record l { env = new }))
        × (lookup v new ≡ latest_of l.tag_to_var v st.measurements (lookup v l.env))
  unfolding handle_msg_bus_status
  handle_msg_bus_status-latest l from st env v laws sealed other free =
      let (sent_by, (read, _, _, _)) =
        ReadsBack-new_envelope bus.json from (status st) laws sealed in
      (
        set_env l.tag_to_var st.measurements l.env,
        rw (sent_by, read, other) (rw (free, locked_set) refl),
        lookup-set_env l.tag_to_var v st.measurements l.env,
      )
