-- ===== src/Sunspec/Server/Known.antt =====
-- What a status message changes in a SunSpec server.
use ot_sim.Common.{
  ◌≡◌, refl, false, Option, none, some, List, [], ◌∷◌, String, ◌==◌, string_eq, if◌then◌else◌,
  arith, Option-cases, inl, inr,
}
use ot_sim.Common.Dict.{Dict, lookup, insert, lookup-insert}
use ot_sim.Float.{FloatOps}
use ot_sim.Msgbus.Types.{Point, Status, Envelope, JsonLaws}
use ot_sim.Msgbus.Envelope.{new_envelope, status}
use ot_sim.Msgbus.Envelope.Laws.{ReadsBack-new_envelope}
use ot_sim.Msgbus.Pusher.{Bus}
use ot_sim.Sunspec.Server.{Server, set_tags, handle_msg_bus_status}

-- the last value that the points give the tag, or `v`
abbrev pub latest : {F : Type 0} → String → List (Point F) → F → F
latest tag [] v = v
latest tag (p ∷ ps) v = latest tag ps (if p.tag == tag then p.value else v)

module _ {F : Type 0} where
  -- the tag at its last value if it was known, and else unknown still
  abbrev pub renewed : String → List (Point F) → Option F → Option F
  renewed tag ps none = none
  renewed tag ps (some v) = some (latest tag ps v)

  lookup-set_tags :
      (ps : List (Point F)) (tags : Dict String F) (tag : String)
      → lookup tag (set_tags ps tags) ≡ renewed tag ps (lookup tag tags)
  unfolding set_tags
  lookup-set_tags [] tags tag = elim (Option-cases (lookup tag tags)) [
    | inl gone ↦ ground arith
    | inr (v, there) ↦ ground arith
  ]
  lookup-set_tags (p ∷ ps) tags tag = elim (Option-cases (lookup p.tag tags)) [
    | inl gone ↦ elim (Option-cases (lookup tag tags)) [
      | inl none_there ↦ ground (arith, lookup-set_tags ps tags tag)
      | inr (v, known) ↦ ground (arith, lookup-set_tags ps tags tag, string_eq.same_iff p.tag tag)
    ]
    | inr (w, there) ↦ elim (Option-cases (lookup tag tags)) [
      | inl none_there ↦ ground (
        arith,
        lookup-set_tags ps (insert p.tag p.value tags) tag,
        lookup-insert p.tag tag p.value tags,
        string_eq.same_iff p.tag tag,
      )
      | inr (v, known) ↦ ground (
        arith,
        lookup-set_tags ps (insert p.tag p.value tags) tag,
        lookup-insert p.tag tag p.value tags,
        string_eq.same_iff p.tag tag,
      )
    ]
  ]

module _ {F Raw : Type 0} (fl : FloatOps F) (bus : Bus F Raw) where
  -- A status message from another module, where the JSON codecs give back what they were given,
  -- sets each tag that the server knows to the last value that the message has for it, if any, adds
  -- no tag, and keeps the registers and the map of points.
  pub handle_msg_bus_status-renewed :
      (s : Server F Raw) (from : String) (st : Status F) (env : Envelope Raw) (tag : String)
      → JsonLaws bus.json
      → new_envelope bus.json from (status st) ≡ some env
      → (from == s.name) ≡ false
      → (lookup tag (handle_msg_bus_status fl bus env s).tags
          ≡ renewed tag st.measurements (lookup tag s.tags))
        × ((handle_msg_bus_status fl bus env s).heap ≡ s.heap)
        × ((handle_msg_bus_status fl bus env s).registers ≡ s.registers)
        × ((handle_msg_bus_status fl bus env s).points ≡ s.points)
  unfolding handle_msg_bus_status
  handle_msg_bus_status-renewed s from st env tag laws sealed other =
      let (sent_by, (read, _, _, _)) =
        ReadsBack-new_envelope bus.json from (status st) laws sealed in
      let e : handle_msg_bus_status fl bus env s
          ≡ record s { tags = set_tags st.measurements s.tags } =
        rw (sent_by, read, other) refl in
      rw e (lookup-set_tags st.measurements s.tags tag, refl, refl, refl)
