-- ===== src/Sunspec/Server/Stuck.antt =====
-- The loop of `writeHoldingRegisters` in src/go/sunspec/server/server.go, which never moves on.
use ot_sim.Common.{
  ℕ, zero, suc, ◌+◌, ◌*◌, ◌<◌, ◌≤◌, ◌≡◌, refl, true, false, is_some, Option, none, some, List, [],
  ◌∷◌, ◌==◌, string_eq, if◌then◌else◌, length, get_elem?, set, slice-some, arith, Option-cases,
  Bool-cases, ◌∙◌, inl, inr,
}
use ot_sim.Common.Int.{pos, int_eq}
use ot_sim.Common.Dict.{lookup}
use ot_sim.Float.{FloatOps}
use ot_sim.Msgbus.Types.{Point}
use ot_sim.Msgbus.Pusher.{Bus}
use ot_sim.Modbus.Server.State.{diverges, uint16_at}
use ot_sim.Sunspec.Register.{Register, value, words, scaling_of}
use ot_sim.Sunspec.Register.Shape.{is_text, decode-ok}
use ot_sim.Sunspec.Server.{
  Server, stopped, scaling_for, write_words, write_holding_registers, put, announced, deref,
}

module _ {F : Type 0} (fl : FloatOps F) where
  -- The heap before and after a turn of the loop has scale registers in the same places.
  get_elem?-set :
      {A : Type 0} (xs : List A) (i : ℕ) (x y : A)
      → get_elem? xs i ≡ some x
      → get_elem? (set xs i y) i ≡ some y
  get_elem?-set [] i x y h = cc
  get_elem?-set (z ∷ xs) zero x y h = refl
  get_elem?-set (z ∷ xs) (suc i) x y h = get_elem?-set xs i x y h

  is_some-set :
      {A : Type 0} (xs : List A) (i j : ℕ) (y : A)
      → is_some (get_elem? (set xs i y) j) ≡ is_some (get_elem? xs j)
  is_some-set [] i j y = refl
  is_some-set (z ∷ xs) zero zero y = refl
  is_some-set (z ∷ xs) zero (suc j) y = refl
  is_some-set (z ∷ xs) (suc i) zero y = refl
  is_some-set (z ∷ xs) (suc i) (suc j) y = is_some-set xs i j y

  is_some-deref :
      (heap : List (Register F)) (ptr : ℕ) (r : Register F) (o : Option ℕ)
      → is_some (deref (set heap ptr r) o) ≡ is_some (deref heap o)
  is_some-deref heap ptr r none = refl
  is_some-deref heap ptr r (some q) = is_some-set heap ptr q r

  module _ {Raw : Type 0} where
    -- The server and the register of one turn: the place, and what makes the turn succeed.
    abbrev pub IsStuck : Server F Raw → ℕ → ℕ → Register F → Type 0
    IsStuck s addr ptr r =
        (lookup (pos addr) s.registers ≡ some ptr)
        × (get_elem? s.heap ptr ≡ some r)
        × (is_some (scaling_for fl s r) ≡ true)

    is_some-scaling_for :
        (s : Server F Raw) (r : Register F)
        → is_some (scaling_for fl s r) ≡ (
            if r.scale_register == ""
            then true
            else is_some (deref s.heap (lookup r.scale_register s.points)))
    unfolding scaling_for
    is_some-scaling_for s r = ground arith

    scaling_for-set :
        (s : Server F Raw) (ptr : ℕ) (r : Register F) (v : F)
        → let r' : Register F = record r { internal_value = v } in
          let s' : Server F Raw = record s { heap = set s.heap ptr r' } in
          is_some (scaling_for fl s' r') ≡ is_some (scaling_for fl s r)
    scaling_for-set s ptr r v = rw (
      is_some-scaling_for s r,
      is_some-scaling_for (record s { heap = set s.heap ptr (record r { internal_value = v }) })
          (record r { internal_value = v }),
      is_some-deref s.heap ptr (record r { internal_value = v }) (lookup r.scale_register s.points),
    )

    IsStuck-put :
        (s : Server F Raw) (addr ptr : ℕ) (r : Register F) (v : F)
        → IsStuck s addr ptr r
        → (r' : Register F) × IsStuck (put ptr r v s) addr ptr r'
          × (r'.count ≡ r.count)
          × (r'.data_kind ≡ r.data_kind)
    IsStuck-put s addr ptr r v (at, here, scaled) = elim (Bool-cases (r.tag == "")) [
      | inl bare ↦ (
        record r { internal_value = v },
        rw bare (at, get_elem?-set s.heap ptr r _ here, scaling_for-set s ptr r v ∙ scaled),
        refl,
        refl,
      )
      | inr named ↦ (r, rw named (at, here, scaled), refl, refl)
    ]

    -- One turn of the loop gives a value to put, and ends at the address it started from.
    turn :
        (fuel : ℕ) (s : Server F Raw) (request : List ℕ) (addr stop ptr : ℕ) (r : Register F)
        (updates : List (Point F))
        → addr < stop
        → IsStuck s addr ptr r
        → is_text r.data_kind ≡ false
        → words r.data_kind ≡ some r.count
        → 5 + r.count * 2 ≤ length request
        → (v : F) × (write_words fl (suc fuel) s request addr stop 5 updates
            ≡ write_words fl fuel (put ptr r v s) request addr stop 5 (announced r v updates))
    unfolding write_words value
    turn fuel s request addr stop ptr r updates lt (at, here, scaled) num size room =
        elim (Option-cases (scaling_for fl s r)) [
          | inl gone ↦ cc
          | inr (sc, e) ↦
              let (d, cut, wide) = slice-some 5 (5 + r.count * 2) request (omega arith) room in
              let (v, read) =
                decode-ok fl r.data_kind (fl.pow10 (scaling_of fl r sc)) d num (rw size)
                  (rw size (omega (arith, wide))) in
              (v, ground arith)
        ]

    write_words-diverges :
        (fuel : ℕ) (s : Server F Raw) (request : List ℕ) (addr stop ptr : ℕ) (r : Register F)
        (updates : List (Point F))
        → addr < stop
        → IsStuck s addr ptr r
        → is_text r.data_kind ≡ false
        → words r.data_kind ≡ some r.count
        → 5 + r.count * 2 ≤ length request
        → (s' : Server F Raw) × (write_words fl fuel s request addr stop 5 updates
            ≡ stopped s' diverges)
    unfolding write_words
    write_words-diverges zero s request addr stop ptr r updates lt stuck num size room = (s, refl)
    write_words-diverges (suc fuel) s request addr stop ptr r updates lt stuck num size room =
        let (v, e) = turn fuel s request addr stop ptr r updates lt stuck num size room in
        let (r', again, count, kind) = IsStuck-put s addr ptr r v stuck in
        let (s', rest) =
          write_words-diverges fuel (put ptr r v s) request addr stop ptr r' (announced r v updates)
            lt again (rw kind num) (rw (kind, count) size) (rw count room) in
        (s', e ∙ rest)

    -- A write of at least one register never comes back. The request carries a start and a count
    -- over 0; the start has a register, at a place of the heap, whose scaling is known, whose type
    -- is numeric and whose number of words is the one that `Init` gives; and the request has the
    -- bytes of that register from the sixth on. Then the loop has not ended after any number of
    -- turns.
    pub write_holding_registers-diverges :
        (bus : Bus F Raw) (fuel : ℕ) (s : Server F Raw) (request : List ℕ) (start count ptr : ℕ)
        (r : Register F)
        → uint16_at 0 request ≡ some start
        → uint16_at 2 request ≡ some count
        → 0 < count
        → IsStuck s start ptr r
        → is_text r.data_kind ≡ false
        → words r.data_kind ≡ some r.count
        → 5 + r.count * 2 ≤ length request
        → (write_holding_registers fl bus fuel s request).1 ≡ diverges
    unfolding write_holding_registers
    write_holding_registers-diverges bus fuel s request start count ptr r e0 e2 more stuck num size
          room =
        let (s', e) =
          write_words-diverges fuel s request start (start + count) ptr r [] (omega arith) stuck num
            size room in
        ground arith
