-- ===== src/Msgbus/Envelope/Laws.antt =====
-- What a receiver reads of an envelope that a sender built.
use ot_sim.Common.{◌≡◌, none, some, String, arith, Option-cases, inl, inr}
use ot_sim.Msgbus.Types.{Kind, Json, JsonLaws, Envelope}
use ot_sim.Msgbus.Envelope.{
  Contents, status, update, module_control, confirmation, sender, new_envelope, get_status,
  get_update, get_module_control, get_confirmation, not_kind,
}

module _ {F Raw : Type 0} (json : Json F Raw) where
  -- A reader finds contents of its own kind as they were sent, and refuses those of the others.
  abbrev pub ReadsBack : Contents F → Envelope Raw → Type 0
  ReadsBack (status s) e =
      (get_status json e ≡ (s, none))
      × ((get_update json e).1 ≡ some (not_kind Kind.update))
      × ((get_module_control json e).1 ≡ some (not_kind Kind.module_control))
      × ((get_confirmation json e).1 ≡ some (not_kind Kind.confirmation))
  ReadsBack (update u) e =
      (get_update json e ≡ (u, none))
      × ((get_status json e).1 ≡ some (not_kind Kind.status))
      × ((get_module_control json e).1 ≡ some (not_kind Kind.module_control))
      × ((get_confirmation json e).1 ≡ some (not_kind Kind.confirmation))
  ReadsBack (module_control c) e =
      (get_module_control json e ≡ (c, none))
      × ((get_status json e).1 ≡ some (not_kind Kind.status))
      × ((get_update json e).1 ≡ some (not_kind Kind.update))
      × ((get_confirmation json e).1 ≡ some (not_kind Kind.confirmation))
  ReadsBack (confirmation c) e =
      (get_confirmation json e ≡ (c, none))
      × ((get_status json e).1 ≡ some (not_kind Kind.status))
      × ((get_update json e).1 ≡ some (not_kind Kind.update))
      × ((get_module_control json e).1 ≡ some (not_kind Kind.module_control))

  pub ReadsBack-new_envelope :
      (from : String) (c : Contents F) {e : Envelope Raw}
      → JsonLaws json
      → new_envelope json from c ≡ some e
      → (sender e ≡ from) × ReadsBack c e
  unfolding new_envelope get_status get_update get_module_control get_confirmation sender
  ReadsBack-new_envelope from (status s) {e} l h = elim (Option-cases (json.status.marshal s)) [
    | inl failed ↦ ground arith
    | inr (raw, ok) ↦ ground (arith, l.status_round s raw)
  ]
  ReadsBack-new_envelope from (update u) {e} l h = elim (Option-cases (json.update.marshal u)) [
    | inl failed ↦ ground arith
    | inr (raw, ok) ↦ ground (arith, l.update_round u raw)
  ]
  ReadsBack-new_envelope from (module_control c) {e} l h =
      elim (Option-cases (json.module_control.marshal c)) [
        | inl failed ↦ ground arith
        | inr (raw, ok) ↦ ground (arith, l.module_control_round c raw)
      ]
  ReadsBack-new_envelope from (confirmation c) {e} l h =
      elim (Option-cases (json.confirmation.marshal c)) [
        | inl failed ↦ ground arith
        | inr (raw, ok) ↦ ground (arith, l.confirmation_round c raw)
      ]
