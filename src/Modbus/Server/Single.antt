-- ===== src/Modbus/Server/Single.antt =====
-- Writes of one coil or of one holding register.
use ot_sim.Common.{
  ℕ, ◌≤◌, ◌≡◌, refl, ◌⊎◌, inl, inr, Bool, true, false, some, List, [], ◌∷◌, length, take, slice,
  slice-some, arith, Option-cases, ap, ◌∙◌, String, string_eq,
}
use mathlib.Core.Path.{subst}
use ot_sim.Common.Int.{pos, int_eq}
use ot_sim.Common.Dict.{lookup, insert}
use ot_sim.Float.{FloatOps}
use ot_sim.Msgbus.Pusher.{Bus, Sent}
use ot_sim.Msgbus.Metric.{incr_metric}
use ot_sim.Modbus.Register.{
  RegisterType, holding, coil, type_eq, Register, Result, ok, err, panics, Result-cases, reading,
  is_word_register, value,
}
use ot_sim.Modbus.Register.Shape.{IsReady, value_short}
use ot_sim.Modbus.Server.State.{
  Table, Server, success, exception, panic, illegal_data_address, illegal_data_value,
  slave_device_failure, uint16_at, publish_lem, IsAnnounced, publish-IsAnnounced,
}
use ot_sim.Modbus.Server.Write.{
  store, after_publish, write_single, write_coil_register, write_holding_register, point, Handled,
}

-- A request to write a register that the server has, with a value that the register takes.
pub IsRequested :
    {F Raw : Type 0} → FloatOps F → RegisterType → Server F Raw → List ℕ → Register → F → Type 0
IsRequested fl kind s request reg v =
    (table : Table) × (addr : ℕ) × (bs : List ℕ) × (lookup kind s.registers ≡ some table)
    × (uint16_at 0 request ≡ some addr)
    × (lookup (pos addr) table ≡ some reg)
    × (slice 2 4 request ≡ some bs)
    × (value fl reg bs ≡ ok v)

requested :
    {F Raw : Type 0} (fl : FloatOps F) (kind : RegisterType) (s : Server F Raw) (request : List ℕ)
    (table : Table) (addr : ℕ) (bs : List ℕ) (reg : Register) (v : F)
    → lookup kind s.registers ≡ some table
    → uint16_at 0 request ≡ some addr
    → lookup (pos addr) table ≡ some reg
    → slice 2 4 request ≡ some bs
    → value fl reg bs ≡ ok v
    → IsRequested fl kind s request reg v
unfolding IsRequested
requested fl kind s request table addr bs reg v e e1 e2 e3 e4 = (table, addr, bs, e, e1, e2, e3, e4)

module _ {F Raw : Type 0} (fl : FloatOps F) (bus : Bus F Raw) where
  -- What a write of one register of type `kind` leaves: nothing changed, behind an exception about
  -- the address or the value, or a panic; or the tag of the register at the address of the request
  -- at the value of its next two bytes, announced and answered by the first four bytes, or neither
  -- announced nor answered so.
  abbrev pub SingleEnd : RegisterType → Server F Raw → List ℕ → Handled fl bus → Type 0
  SingleEnd kind s request (s', answer) =
      ((s' ≡ s)
        × ((answer ≡ exception illegal_data_address)
            ⊎ (answer ≡ exception illegal_data_value)
            ⊎ (answer ≡ panic)))
      ⊎ ((reg : Register) × (v : F) × IsRequested fl kind s request reg v
          × (s'.tags ≡ insert reg.tag v s.tags)
          × (s'.registers ≡ s.registers)
          × (((answer ≡ success (take 4 request))
                × IsAnnounced bus (point reg.tag v ∷ []) s s'.sent)
              ⊎ ((answer ≡ exception slave_device_failure)
                  × (s'.sent ≡ s.sent)
                  × (s'.metrics ≡ s.metrics))))

  store-SingleEnd :
      (kind : RegisterType) (metric : String) (s : Server F Raw) (request : List ℕ) (reg : Register)
      (v : F)
      → IsRequested fl kind s request reg v
      → SingleEnd kind s request (store fl bus metric reg request v s)
  store-SingleEnd kind metric s request reg v asked =
      let t : Server F Raw = record s { tags = insert reg.tag v s.tags } in
      let (sent, pushed, e, same) = publish_lem bus (point reg.tag v ∷ []) t in
      rw (ap (after_publish fl bus (incr_metric fl metric) request) e) (
        ended sent pushed same (λ on.
          subst (IsAnnounced bus (point reg.tag v ∷ []) s) (ap (λ r. r.0.sent) e)
            (publish-IsAnnounced bus (point reg.tag v ∷ []) t (ap (λ r. r.1) e ∙ on))))
    where
      ended :
          (sent : Sent Raw) (pushed : Bool)
          → (pushed ≡ false → sent ≡ s.sent)
          → (pushed ≡ true → IsAnnounced bus (point reg.tag v ∷ []) s sent)
          → SingleEnd kind s request (
              after_publish fl bus
                (incr_metric fl metric)
                request
                (record s { tags = insert reg.tag v s.tags; sent = sent }, pushed))
      ended sent true same told = inr (reg, v, asked, refl, refl, inl (refl, told refl))
      ended sent false same told = inr (reg, v, asked, refl, refl, inr (refl, same refl, refl))

  -- A stored value is in the tags, whether it could be announced or not.
  pub store_fields :
      (metric : String) (s : Server F Raw) (request : List ℕ) (reg : Register) (v : F)
      → ((store fl bus metric reg request v s).0.tags ≡ insert reg.tag v s.tags)
        × ((store fl bus metric reg request v s).0.registers ≡ s.registers)
  store_fields metric s request reg v =
      let (sent, pushed, e, same) =
        publish_lem bus (point reg.tag v ∷ []) (record s { tags = insert reg.tag v s.tags }) in
      rw (ap (after_publish fl bus (incr_metric fl metric) request) e) (kept sent pushed)
    where
      kept :
          (sent : Sent Raw) (pushed : Bool)
          → let t =
              (after_publish fl bus
                (incr_metric fl metric)
                request
                (record s { tags = insert reg.tag v s.tags; sent = sent }, pushed)).0 in
            (t.tags ≡ insert reg.tag v s.tags) × (t.registers ≡ s.registers)
      kept sent true = (refl, refl)
      kept sent false = (refl, refl)

  write_single-SingleEnd :
      (kind : RegisterType) (metric : String) (s : Server F Raw) (request : List ℕ)
      → SingleEnd kind s request (write_single fl bus kind metric s request)
  write_single-SingleEnd kind metric s request = elim (Option-cases (lookup kind s.registers)) [
    | inl e ↦ rw (e, write_single) (inl (refl, inl refl))
    | inr (table, e) ↦
        rw (e, write_single)
          (elim (Option-cases (uint16_at 0 request)) [
            | inl e1 ↦ rw (e1, write_single) (inl (refl, inr (inr refl)))
            | inr (addr, e1) ↦
                rw (e1, write_single)
                  (elim (Option-cases (lookup (pos addr) table)) [
                    | inl e2 ↦ rw (e2, write_single) (inl (refl, inl refl))
                    | inr (reg, e2) ↦
                        rw (e2, write_single)
                          (elim (Option-cases (slice 2 4 request)) [
                            | inl e3 ↦ rw (e3, write_single) (inl (refl, inr (inr refl)))
                            | inr (bs, e3) ↦
                                rw (e3, write_single)
                                  (elim (Result-cases (value fl reg bs)) [
                                    | inl (v, e4) ↦
                                        rw (e4, write_single)
                                          (store-SingleEnd kind metric s request reg v (
                                            requested fl kind s request table addr bs reg v e e1 e2
                                              e3 e4))
                                    | inr (inl (x, e4)) ↦
                                        rw (e4, write_single) (inl (refl, inr (inl refl)))
                                    | inr (inr e4) ↦
                                        rw (e4, write_single) (inl (refl, inr (inr refl)))
                                  ])
                          ])
                  ])
          ])
  ]

  -- A write of one coil that is refused for its address or value, or panics, changes nothing; any
  -- other sets the tag of the coil at the address of the request to the value that this coil makes
  -- of the two bytes behind it, and keeps the registers. Then it either sends the update of that tag
  -- and answers with the first four bytes of the request or, where the update is not sent, answers
  -- with the exception for a device failure.
  pub write_coil_register-SingleEnd :
      (s : Server F Raw) (request : List ℕ)
      → SingleEnd coil s request (write_coil_register fl bus s request)
  unfolding write_coil_register
  write_coil_register-SingleEnd s request = write_single-SingleEnd coil _ s request

  -- The step that a valid single write takes.
  pub write_single_step :
      (kind : RegisterType) (metric : String) (s : Server F Raw) (request bs : List ℕ)
      (table : Table) (addr : ℕ) (reg : Register) (r : Result F)
      → lookup kind s.registers ≡ some table
      → uint16_at 0 request ≡ some addr
      → lookup (pos addr) table ≡ some reg
      → slice 2 4 request ≡ some bs
      → value fl reg bs ≡ r
      → write_single fl bus kind metric s request ≡ elim r [
        | ok v ↦ store fl bus metric reg request v s
        | err e ↦ (s, exception illegal_data_value)
        | panics ↦ (s, panic)
      ]
  write_single_step kind metric s request bs table addr reg r e e1 e2 e3 e4 =
      rw (e, write_single)
        (rw (e1, write_single)
          (rw (e2, write_single) (rw (e3, write_single) (rw (e4, write_single)))))

  -- A single write to a holding register of two or four words is refused, whatever its value: the
  -- request carries two bytes.
  pub write_holding_register_wide :
      (s : Server F Raw) (request : List ℕ) {table : Table} {addr : ℕ} {reg : Register}
      → lookup holding s.registers ≡ some table
      → uint16_at 0 request ≡ some addr
      → lookup (pos addr) table ≡ some reg
      → IsReady reg
      → is_word_register reg.kind ≡ true
      → 2 ≤ reg.count
      → 4 ≤ length request
      → write_holding_register fl bus s request ≡ (s, exception illegal_data_value)
  unfolding write_holding_register
  write_holding_register_wide s request {table} {addr} {reg} e e1 e2 ready word wide long =
      let (bs, e3, size) = slice-some 2 4 request (omega arith) long in
      write_single_step holding "holding_writes_count" s request bs table addr reg (err reading) e
        e1 e2 e3 (value_short fl reg bs ready word (omega (arith, size)))
