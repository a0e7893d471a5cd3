-- ===== src/Mqtt/Run/Deliveries.antt =====
-- What the MQTT module of src/go/mqtt/mqtt.go begins to publish when a status message comes.
use ot_sim.Common.{
  ◌≡◌, refl, sym, ap, ◌∙◌, true, false, some, List, [], ◌∷◌, ◌++◌, String, ◌==◌, string_eq,
  if◌then◌else◌, is_some, append_assoc, append-nil, Bool-cases, every_if, inl, inr,
}
use mathlib.Core.Path.{subst}
use ot_sim.Common.Int.{pos, int_eq}
use ot_sim.Common.Dict.{Dict, lookup, insert, lookup-insert}
use ot_sim.Mqtt.{Host, MqttClient}
use ot_sim.Mqtt.Run.{Broker, publish, take_point, take_points, handle_msg_bus_status}
use ot_sim.Msgbus.Types.{Point, Status, Envelope, JsonLaws}
use ot_sim.Msgbus.Envelope.{new_envelope, status}
use ot_sim.Msgbus.Envelope.Laws.{ReadsBack-new_envelope}
use ot_sim.Msgbus.Pusher.{Bus}

module _ {F : Type 0} where
  -- a known tag stays known, and no other becomes known
  known-insert :
      (tag key : String) (v : F) (values : Dict String F)
      → is_some (lookup key values) ≡ true
      → is_some (lookup tag (insert key v values)) ≡ is_some (lookup tag values)
  known-insert tag key v values known = elim (Bool-cases (key == tag)) [
    | inl same ↦
        let put : lookup tag (insert key v values) ≡ some v =
          lookup-insert key tag v values ∙ rw same refl in
        let there : is_some (lookup tag values) ≡ true =
          subst (λ t. is_some (lookup t values) ≡ true) ((string_eq.same_iff key tag).0 same)
            known in
        rw (put, there) refl
    | inr differ ↦
        let apart : lookup tag (insert key v values) ≡ lookup tag values =
          lookup-insert key tag v values ∙ rw differ refl in
        ap is_some apart
  ]

module _ {F U C R T : Type 0} where
  -- The tags and values of the points whose tags the module has, in order.
  abbrev pub deliveries : MqttClient F U C R T → List (Point F) → List (String × F)
  deliveries m [] = []
  deliveries m (p ∷ ps) =
      if is_some (lookup p.tag m.values)
      then (p.tag, p.value) ∷ deliveries m ps
      else deliveries m ps

  -- the module after a point with a known tag
  abbrev after_point : Point F → MqttClient F U C R T → MqttClient F U C R T
  after_point p m = record m {
    values = insert p.tag p.value m.values;
    started = m.started ++ (p.tag, p.value) ∷ [];
  }

  deliveries-after_point :
      (p : Point F) (m : MqttClient F U C R T) (ps : List (Point F))
      → is_some (lookup p.tag m.values) ≡ true
      → deliveries (after_point p m) ps ≡ deliveries m ps
  deliveries-after_point p m [] known = refl
  deliveries-after_point p m (q ∷ qs) known = rw (known-insert q.tag p.tag p.value m.values known) (
      ap (λ rest. if is_some (lookup q.tag m.values) then (q.tag, q.value) ∷ rest else rest)
        (deliveries-after_point p m qs known))

  take_points-deliveries :
      (ps : List (Point F)) (m : MqttClient F U C R T)
      → (m.period == pos 0) ≡ true
      → (take_points ps m).started ≡ m.started ++ deliveries m ps
  unfolding take_points
  take_points-deliveries [] m at_once = sym (append-nil m.started)
  take_points-deliveries (p ∷ ps) m at_once = elim (Bool-cases (is_some (lookup p.tag m.values))) [
    | inl known ↦
        rw (known, take_points, take_point)
          (rw (at_once, take_point)
            (take_points-deliveries ps (after_point p m) at_once
              ∙ ap (λ rest. (m.started ++ (p.tag, p.value) ∷ []) ++ rest)
                  (deliveries-after_point p m ps known)
              ∙ append_assoc m.started ((p.tag, p.value) ∷ []) (deliveries m ps)))
    | inr other ↦ rw (other, take_points, take_point) (take_points-deliveries ps m at_once)
  ]

  -- what the body of a goroutine reads of the module
  abbrev IsLike : MqttClient F U C R T → MqttClient F U C R T → Type 0
  IsLike m n =
      (n.topics ≡ m.topics)
      × (n.payload_template ≡ m.payload_template)
      × (n.timestamp_template ≡ m.timestamp_template)
      × (n.id ≡ m.id)

  take_points-IsLike :
      (ps : List (Point F)) (m : MqttClient F U C R T) → IsLike m (take_points ps m)
  unfolding take_points
  take_points-IsLike [] m = (refl, refl, refl, refl)
  take_points-IsLike (p ∷ ps) m =
      let renewed : MqttClient F U C R T = record m { values = insert p.tag p.value m.values } in
      every_if (λ (k : MqttClient F U C R T). IsLike m (take_points ps k))
        (is_some (lookup p.tag m.values))
        (every_if (λ (k : MqttClient F U C R T). IsLike m (take_points ps k)) (m.period == pos 0)
          (take_points-IsLike ps (after_point p m)) (take_points-IsLike ps renewed))
        (take_points-IsLike ps m)

  publish-IsLike :
      (host : Host F U C R T) (now : String → String) (broker : Broker) (tag : String) (v : F)
      (m n : MqttClient F U C R T)
      → IsLike m n
      → publish host now broker tag v n ≡ publish host now broker tag v m
  unfolding publish
  publish-IsLike host now broker tag v m n (topics, payload, timestamp, id) =
      rw (topics, payload, timestamp, id) refl

module _ {F U C R T Raw : Type 0} (bus : Bus F Raw) where
  pub handle_msg_bus_status-deliveries :
      (host : Host F U C R T) (now : String → String) (broker : Broker) (tag : String) (v : F)
      (m : MqttClient F U C R T) (from : String) (st : Status F) (env : Envelope Raw)
      → JsonLaws bus.json
      → new_envelope bus.json from (status st) ≡ some env
      → (from == m.name) ≡ false
      → (m.period == pos 0) ≡ true
      → ((handle_msg_bus_status bus env m).started ≡ m.started ++ deliveries m st.measurements)
        × (publish host now broker tag v (handle_msg_bus_status bus env m)
            ≡ publish host now broker tag v m)
  unfolding handle_msg_bus_status
  handle_msg_bus_status-deliveries host now broker tag v m from st env laws sealed other at_once =
      let (sent_by, (read, _, _, _)) =
        ReadsBack-new_envelope bus.json from (status st) laws sealed in
      let e : handle_msg_bus_status bus env m ≡ take_points st.measurements m =
        rw (sent_by, read, other) refl in
      (
        ap (λ (k : MqttClient F U C R T). k.started) e
            ∙ take_points-deliveries st.measurements m at_once,
        ap (publish host now broker tag v) e
            ∙ publish-IsLike host now broker tag v m (take_points st.measurements m)
                (take_points-IsLike st.measurements m),
      )
