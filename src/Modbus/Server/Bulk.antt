-- ===== src/Modbus/Server/Bulk.antt =====
-- Writes of several coils.
use ot_sim.Common.{
  ℕ, zero, suc, ◌+◌, ◌<◌, ◌≡◌, refl, ◌⊎◌, inl, inr, Bool, true, false, none, some, List, [], ◌∷◌,
  ◌++◌, length, get_elem?, take, slice, arith, Option-cases, append_assoc, append-nil, ap, sym,
  String, string_eq, ◌∙◌,
}
use mathlib.Core.Path.{subst}
use ot_sim.Common.Int.{pos, int_eq}
use ot_sim.Common.Dict.{Dict, lookup, insert}
use ot_sim.Float.{FloatOps}
use ot_sim.Msgbus.Types.{Point}
use ot_sim.Msgbus.Pusher.{Bus, Sent}
use ot_sim.Msgbus.Metric.{incr_metric_by}
use ot_sim.Modbus.Bits.{bytes_to_bits}
use ot_sim.Modbus.Register.{coil, type_eq, Register}
use ot_sim.Modbus.Server.State.{
  Table, Server, Response, success, exception, panic, illegal_data_address, slave_device_failure,
  uint16_at, with_range-some, publish_lem,
}
use ot_sim.Modbus.Server.Write.{
  Written, finished, stopped, point, announce, conclude, after_publish, write_bits,
  write_coil_registers, Handled,
}
use ot_sim.Modbus.Server.Bus.{set_tags}

module _ {F : Type 0} (fl : FloatOps F) (table : Table) (bits : List ℕ) where
  -- The points are those of the registers from the address on, with the bits from the index on.
  abbrev pub Points : ℕ → ℕ → List (Point F) → Type 0
  Points addr idx [] = Unit
  Points addr idx (p ∷ ps) =
      ((reg : Register) × (bit : ℕ) × (lookup (pos addr) table ≡ some reg)
        × (get_elem? bits idx ≡ some bit)
        × (p ≡ point reg.tag (fl.from_int (pos bit))))
      × Points (addr + 1) (idx + 1) ps

  -- Why a loop of `n` turns stops after `k`: the register or the bit that is missing.
  abbrev pub Gap : ℕ → ℕ → ℕ → Response → Type 0
  Gap addr idx k answer =
      ((lookup (pos (addr + k)) table ≡ none) × (answer ≡ exception illegal_data_address))
      ⊎ ((get_elem? bits (idx + k) ≡ none) × (answer ≡ panic))

  Gap-suc :
      (addr idx k : ℕ) (answer : Response)
      → Gap (addr + 1) (idx + 1) k answer
      → Gap addr idx (suc k) answer
  Gap-suc addr idx k answer (inl (gone, e)) =
      inl (rw (let p : addr + suc k ≡ addr + 1 + k = omega arith in p) gone, e)
  Gap-suc addr idx k answer (inr (gone, e)) =
      inr (rw (let p : idx + suc k ≡ idx + 1 + k = omega arith in p) gone, e)

  abbrev Progress : ℕ → ℕ → ℕ → Dict String F → List (Point F) → Written F → Type 0
  Progress n addr idx tags updates w =
      (points : List (Point F)) × Points addr idx points
      × (((length points ≡ n) × (w ≡ finished (set_tags points tags) (updates ++ points)))
          ⊎ ((answer : Response) × (length points < n)
              × (w ≡ stopped (set_tags points tags) answer)
              × Gap addr idx (length points) answer))

  Progress-cons :
      (n addr idx : ℕ) (tags : Dict String F) (updates : List (Point F)) (w : Written F)
      (reg : Register) (bit : ℕ)
      → lookup (pos addr) table ≡ some reg
      → get_elem? bits idx ≡ some bit
      → let p : Point F = point reg.tag (fl.from_int (pos bit)) in
        Progress n (addr + 1) (idx + 1) (insert p.tag p.value tags) (updates ++ p ∷ []) w
        → Progress (suc n) addr idx tags updates w
  unfolding set_tags
  Progress-cons n addr idx tags updates w reg bit at set (ps, shape, inl (size, e)) = (
    point reg.tag (fl.from_int (pos bit)) ∷ ps,
    ((reg, bit, at, set, refl), shape),
    inl (
      omega (arith, size),
      e
          ∙ ap (λ u. finished (set_tags ps (insert reg.tag (fl.from_int (pos bit)) tags)) u)
              (append_assoc updates (point reg.tag (fl.from_int (pos bit)) ∷ []) ps),
    ),
  )
  Progress-cons n addr idx tags updates w reg bit at set (ps, shape, inr (answer, lt, e, gap)) = (
    point reg.tag (fl.from_int (pos bit)) ∷ ps,
    ((reg, bit, at, set, refl), shape),
    inr (answer, omega arith, e, Gap-suc addr idx (length ps) answer gap),
  )

  write_bits-Progress :
      (n addr idx : ℕ) (tags : Dict String F) (updates : List (Point F))
      → Progress n addr idx tags updates (write_bits fl table bits n addr idx tags updates)
  unfolding write_bits set_tags
  write_bits-Progress zero addr idx tags updates =
      ([], tt, inl (refl, ap (finished tags) (sym (append-nil updates))))
  write_bits-Progress (suc n) addr idx tags updates =
      elim (Option-cases (lookup (pos addr) table)) [
        | inl gone ↦ (
          [],
          tt,
          inr (
            exception illegal_data_address,
            omega arith,
            rw (gone, write_bits) refl,
            inl (rw (let p : addr + 0 ≡ addr = omega arith in p) gone, refl),
          ),
        )
        | inr (reg, at) ↦ elim (Option-cases (get_elem? bits idx)) [
          | inl short ↦ (
            [],
            tt,
            inr (
              panic,
              omega arith,
              rw (at, short, write_bits) refl,
              inr (rw (let p : idx + 0 ≡ idx = omega arith in p) short, refl),
            ),
          )
          | inr (bit, set) ↦
              let v = fl.from_int (pos bit) in
              let e : write_bits fl table bits n (addr + 1) (idx + 1) (insert reg.tag v tags)
                    (updates ++ point reg.tag v ∷ [])
                  ≡ write_bits fl table bits (suc n) addr idx tags updates =
                rw (at, set, write_bits) refl in
              subst (λ w. Progress (suc n) addr idx tags updates w) e
                (Progress-cons n addr idx tags updates _ reg bit at set (
                  write_bits-Progress n (addr + 1) (idx + 1)
                    (insert reg.tag (fl.from_int (pos bit)) tags)
                    (updates ++ point reg.tag (fl.from_int (pos bit)) ∷ [])))
        ]
      ]

module _ {F Raw : Type 0} (fl : FloatOps F) (bus : Bus F Raw) where
  -- What a write of `count` coils from `start` on leaves, with the request's bits: tags set from
  -- the bits, for all addresses of the range or for those before a gap.
  abbrev pub BulkEnd : Table → List ℕ → ℕ → ℕ → Server F Raw → List ℕ → Handled fl bus → Type 0
  BulkEnd table bits start count s request (s', answer) =
      (points : List (Point F)) × Points fl table bits start 0 points
      × (s'.tags ≡ set_tags points s.tags)
      × (s'.registers ≡ s.registers)
      × (((length points ≡ count)
            × ((answer ≡ success (take 4 request))
                ⊎ ((answer ≡ exception slave_device_failure)
                    × (s'.sent ≡ s.sent)
                    × (s'.metrics ≡ s.metrics))))
          ⊎ ((length points < count)
              × (s'.sent ≡ s.sent)
              × (s'.metrics ≡ s.metrics)
              × Gap fl table bits start 0 (length points) answer))

  announce_lem :
      (points : List (Point F)) (s : Server F Raw)
      → (sent : Sent Raw) × (pushed : Bool) × (announce fl bus points s
          ≡ (record s { sent = sent }, pushed))
        × (pushed ≡ false → sent ≡ s.sent)
  announce_lem [] s = (s.sent, true, refl, λ h. refl)
  announce_lem (p ∷ ps) s = publish_lem bus (p ∷ ps) s

  conclude-BulkEnd :
      (table : Table) (bits : List ℕ) (start count : ℕ) (s : Server F Raw) (request : List ℕ)
      (w : Written F)
      → Progress fl table bits count start 0 s.tags [] w
      → BulkEnd table bits start count s request
          (conclude fl bus "coil_writes_count" count request s w)
  conclude-BulkEnd table bits start count s request w (points, shape, inl (size, e)) =
      let (sent, pushed, told, same) =
        announce_lem points (record s { tags = set_tags points s.tags }) in
      rw (e, conclude) (rw told (ended sent pushed same))
    where
      ended :
          (sent : Sent Raw) (pushed : Bool)
          → (pushed ≡ false → sent ≡ s.sent)
          → BulkEnd table bits start count s request (
              after_publish fl bus
                (incr_metric_by fl "coil_writes_count" (pos count))
                request
                (record s { tags = set_tags points s.tags; sent = sent }, pushed))
      ended sent true same = (points, shape, refl, refl, inl (size, inl refl))
      ended sent false same = (points, shape, refl, refl, inl (size, inr (refl, same refl, refl)))
  conclude-BulkEnd table bits start count s request w (points, shape, inr (answer, lt, e, gap)) =
      rw (e, conclude) (points, shape, refl, refl, inr (lt, refl, refl, gap))

  -- A write of several coils, on a server with coils, of a request with a start, a count and the
  -- data, sets the tags of the coils from the start on, in order, from the bits of the data, and
  -- keeps the registers. Either it sets one for each address of the range, and answers with the
  -- first four bytes of the request or, where the update is not sent, with the exception for a
  -- device failure. Or it stops at an address that has no register, with the exception for an
  -- illegal address, or at a bit that the data lack, with a panic: then the tags before it stay
  -- set, nothing is sent and no metric is counted.
  pub write_coil_registers-BulkEnd :
      (s : Server F Raw) (request rest : List ℕ) {table : Table} {start count : ℕ}
      → lookup coil s.registers ≡ some table
      → uint16_at 0 request ≡ some start
      → uint16_at 2 request ≡ some count
      → slice 5 (length request) request ≡ some rest
      → BulkEnd table
          (bytes_to_bits rest)
          start
          count
          s
          request
          (write_coil_registers fl bus s request)
  unfolding write_coil_registers
  write_coil_registers-BulkEnd s request rest {table} {start} {count} e0 e1 e2 e3 =
      rw (with_range-some request _ _ _ _ e0 e1 e2, e3)
        (conclude-BulkEnd table (bytes_to_bits rest) start count s request _
          (write_bits-Progress fl table (bytes_to_bits rest) count start 0 s.tags []))
