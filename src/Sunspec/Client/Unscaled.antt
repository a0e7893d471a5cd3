-- ===== src/Sunspec/Client/Unscaled.antt =====
-- The scalings that the SunSpec client of src/go/sunspec/client/client.go looks up.
use ot_sim.Common.{
  ℕ, zero, suc, ◌≡◌, refl, sym, ap, Bool, true, false, ◌||◌, Option, none, some, List, [], ◌∷◌,
  String, ◌==◌, string_eq, ◌⊎◌, inl, inr, Option-cases, Bool-cases, After, never, ends, After-at,
  every_option,
}
use mathlib.Core.Path.{subst}
use ot_sim.Common.Int.{ℤ, pos, int_eq, ◌+ℤ◌}
use ot_sim.Common.Dict.{Dict, lookup, insert}
use ot_sim.Float.{FloatOps}
use ot_sim.Modbus.Client.{Device, uint16_of, with_connected}
use ot_sim.Msgbus.Types.{Point}
use ot_sim.Msgbus.Envelope.{new_envelope, status}
use ot_sim.Msgbus.Pusher.{Bus}
use ot_sim.Sunspec.Model.{Schema}
use ot_sim.Sunspec.Register.{Register}
use ot_sim.Sunspec.Client.{Client, new, next_model, model_data, scaling_for}
use ot_sim.Sunspec.Client.Poll.{
  measure, take_registers, announce, processed, process, Outcome, going, failing, panicking,
  unfinished, went, use_data, found, discover, data_of, poll_data, poll_model, poll_models,
}
use ot_sim.Sunspec.Client.Data.{
  All, All-insert, All-lookup, IsZero, model_data-IsZero, scaling_for-IsZero, Result-cases,
}

module _ {F : Type 0} (fl : FloatOps F) where
  take_registers-IsZero :
      (rs registers : Dict String (Register F)) (points : List (Point F))
      → All (IsZero fl) rs
      → All (IsZero fl) registers
      → After
          (λ (out : Dict String (Register F) × List (Point F)). All (IsZero fl) out.0)
          (take_registers fl rs registers points)
  unfolding take_registers
  take_registers-IsZero [] registers points all had = ends had
  take_registers-IsZero ((name, r) ∷ rs) registers points (one, all) had =
      every_option
        (After (λ (out : Dict String (Register F) × List (Point F)). All (IsZero fl) out.0))
        (measure fl name r (insert name r registers) points) never
        (λ points'.
          take_registers-IsZero rs (insert name r registers) points' all
            (All-insert (IsZero fl) name r registers one had))

module _ {F Raw : Type 0} (fl : FloatOps F) (bus : Bus F Raw) where
  abbrev AllZero : Client F Raw → Type 0
  AllZero c = All (IsZero fl) c.points

  announce-points :
      (points : List (Point F)) (c : Client F Raw) → (announce fl bus points c).0.points ≡ c.points
  announce-points points c =
      elim (Option-cases
        (new_envelope bus.json c.name (status (record { measurements = points })))) [
          | inl stop ↦ rw (stop, announce) refl
          | inr (env, go) ↦ rw (go, announce) refl
        ]

  process-AllZero :
      (regs : Dict String (Register F)) (c : Client F Raw)
      → All (IsZero fl) regs
      → AllZero c
      → After (λ (out : Client F Raw × Bool). AllZero out.0) (process fl bus regs c)
  unfolding process
  process-AllZero regs c all had = elim (Option-cases (take_registers fl regs c.points [])) [
    | inl stop ↦ rw (stop, processed) never
    | inr ((registers, points), go) ↦
        rw (go, processed)
          (ends (
            subst (All (IsZero fl))
              (sym (
                announce-points (with_connected fl c.name points)
                  (record c { points = registers })))
              (After-at (registers, points) (take_registers-IsZero fl regs c.points [] all had)
                go)))
  ]

-- What a start or a turn that goes on leaves.
data Leaves {A D : Type 0} (P : A → Type 0) : Outcome A D → Type 0 where
  goes : {a : A} {d : D} → P a → Leaves P (going a d)
  fails : {d : D} → Leaves P (failing d)
  dies : {d : D} → Leaves P (panicking d)
  waits : Leaves P unfinished

abbrev result : {A D : Type 0} → A → Outcome A D → A
result a (going b d) = b
result a (failing d) = a
result a (panicking d) = a
result a unfinished = a

Leaves-at :
    {A D : Type 0} {P : A → Type 0} {o : Outcome A D} (a : A) (d : D)
    → Leaves P o
    → o ≡ going a d
    → P a
Leaves-at {P} a d (goes {a = b} p) e = subst P (ap (result b) e) p
Leaves-at a d fails e = cc
Leaves-at a d dies e = cc
Leaves-at a d waits e = cc

module _ {F Raw D : Type 0} (fl : FloatOps F) (bus : Bus F Raw) (device : Device D)
    (schema : ℤ → Option (Schema F)) where
  went-AllZero :
      (d : D) (o : Option (Client F Raw × Bool))
      → After (λ (out : Client F Raw × Bool). AllZero fl bus out.0) o
      → Leaves (AllZero fl bus) (went fl bus device schema d o)
  went-AllZero d none never = dies
  went-AllZero d (some (c, true)) (ends p) = goes p
  went-AllZero d (some (c, false)) (ends p) = fails

  use_data-AllZero :
      (d : D) (body : Option (List ℕ)) (m a : ℤ) (c : Client F Raw)
      → AllZero fl bus c
      → Leaves (AllZero fl bus) (use_data fl bus device schema d (model_data fl schema body m a) c)
  use_data-AllZero d body m a c had = elim (Result-cases (model_data fl schema body m a)) [
    | inl (regs, made) ↦
        rw (made, use_data)
          (went-AllZero d (process fl bus regs c)
            (process-AllZero fl bus regs c (model_data-IsZero fl schema body m a regs made) had))
    | inr (inl stop) ↦ rw (stop, use_data) fails
    | inr (inr stop) ↦ rw (stop, use_data) dies
  ]

  Outcome-cases :
      {A : Type 0} (o : Outcome A D)
      → ((a : A) × (d : D) × (o ≡ going a d))
        ⊎ (((d : D) × (o ≡ failing d)) ⊎ (((d : D) × (o ≡ panicking d)) ⊎ (o ≡ unfinished)))
  Outcome-cases (going a d) = inl (a, d, refl)
  Outcome-cases (failing d) = inr (inl (d, refl))
  Outcome-cases (panicking d) = inr (inr (inl (d, refl)))
  Outcome-cases unfinished = inr (inr (inr refl))

  discover-AllZero :
      (fuel : ℕ) (addr : ℤ) (model1 : Bool) (c : Client F Raw) (d : D)
      → AllZero fl bus c
      → Leaves (AllZero fl bus) (discover fl bus device schema fuel addr model1 c d)
  unfolding discover
  discover-AllZero zero addr model1 c d had = waits
  discover-AllZero (suc fuel) addr model1 c d had =
      let read = device.read_holding_registers (uint16_of addr) 2 d in
      elim (Result-cases (next_model fl read.0)) [
        | inr (inl stop) ↦ rw (stop, discover) fails
        | inr (inr stop) ↦ rw (stop, discover) dies
        | inl (next, go) ↦ elim (Bool-cases (model1 || next.0 == pos 1)) [
          | inr first ↦ rw (go, discover) (rw (first, discover) fails)
          | inl fine ↦ elim (Bool-cases (next.0 == pos 65535)) [
            | inl last ↦ rw (go, discover) (rw (fine, discover) (rw (last, discover) (goes had)))
            | inr more ↦
                elim (Outcome-cases (found fl bus device schema next.0 addr next.1 c read.1)) [
                  | inl (c', d'', on) ↦
                      rw (go, discover)
                        (rw (fine, discover)
                          (rw (more, discover)
                            (rw (on, discover)
                              (discover-AllZero fuel (addr +ℤ pos 2 +ℤ next.1) true c' d'' (
                                Leaves-at c' d'' (use_data-AllZero _ _ next.0 (addr +ℤ pos 2) _ had)
                                  on)))))
                  | inr (inl (d'', stop)) ↦
                      rw (go, discover)
                        (rw (fine, discover) (rw (more, discover) (rw (stop, discover) fails)))
                  | inr (inr (inl (d'', stop))) ↦
                      rw (go, discover)
                        (rw (fine, discover) (rw (more, discover) (rw (stop, discover) dies)))
                  | inr (inr (inr stop)) ↦
                      rw (go, discover)
                        (rw (fine, discover) (rw (more, discover) (rw (stop, discover) waits)))
                ]
          ]
        ]
      ]

  poll_data-AllZero :
      (d : D) (body : Option (List ℕ)) (m a : ℤ) (c : Client F Raw)
      → AllZero fl bus c
      → After
          (AllZero fl bus)
          (poll_data fl bus device schema d
            (data_of fl bus device schema (model_data fl schema body m a))
            c).0
  poll_data-AllZero d body m a c had = elim (Result-cases (model_data fl schema body m a)) [
    | inl (regs, made) ↦
        rw (made, data_of)
          (after_process regs
            (process-AllZero fl bus regs c (model_data-IsZero fl schema body m a regs made) had))
    | inr (inl stop) ↦ rw (stop, data_of) (after_process [] (process-AllZero fl bus [] c tt had))
    | inr (inr stop) ↦ rw (stop, data_of) never
  ]
    where
      after_process :
          (regs : Dict String (Register F))
          → After (λ (out : Client F Raw × Bool). AllZero fl bus out.0) (process fl bus regs c)
          → After (AllZero fl bus) (poll_data fl bus device schema d (some regs) c).0
      after_process regs p = elim (Option-cases (process fl bus regs c)) [
        | inl stop ↦ rw (stop, poll_data) never
        | inr ((c', pushed), go) ↦ rw (go, poll_data) (ends (After-at (c', pushed) p go))
      ]

  poll_models-AllZero :
      (ids : List ℤ) (c : Client F Raw) (d : D)
      → AllZero fl bus c
      → After (AllZero fl bus) (poll_models fl bus device schema ids c d).0
  unfolding poll_models
  poll_models-AllZero [] c d had = ends had
  poll_models-AllZero (id ∷ ids) c d had =
      let one : After (AllZero fl bus) (poll_model fl bus device schema id c d).0 =
        poll_data-AllZero _ _ id _ c had in
      elim (Option-cases (poll_model fl bus device schema id c d).0) [
        | inl stop ↦ rw (stop, poll_models) never
        | inr (c', go) ↦ rw (go, poll_models) (poll_models-AllZero ids c' _ (After-at c' one go))
      ]

  -- A register with a scale register, in a map of which every register is zero.
  unscaled :
      (points : Dict String (Register F)) (key : String) (r : Register F)
      → All (IsZero fl) points
      → lookup key points ≡ some r
      → (r.scale_register ≡ "")
        ⊎ (scaling_for fl points r ≡ none)
        ⊎ ((scaling_for fl points r ≡ some (fl.from_int (pos 0)))
            × (r.scaling ≡ fl.abs (fl.from_int (pos 0))))
  unscaled points key r all found = elim (All-lookup (IsZero fl) key r points all found).1 [
    | inl plain ↦ inl plain
    | inr own ↦ elim (scaling_for-IsZero fl points r all) [
      | inl missing ↦ inr (inl missing)
      | inr zeroed ↦ inr (inr (zeroed, own))
    ]
  ]

  -- A client that has discovered the models of a device, and has then polled any of them, scales
  -- none of its registers that have a scale register: either the scale register is missing, or the
  -- scaling that is looked up in it is 0, and so, up to the sign, is the register's own scaling,
  -- which `Value` and `Bytes` take in place of 0.
  pub poll_models-unscaled :
      (fuel : ℕ) (ids : List ℤ) (name key : String) (c c' : Client F Raw) (d d' e : D)
      (r : Register F)
      → discover fl bus device schema fuel (pos 40002) false (new name) d ≡ going c d'
      → (poll_models fl bus device schema ids c e).0 ≡ some c'
      → lookup key c'.points ≡ some r
      → (r.scale_register ≡ "")
        ⊎ (scaling_for fl c'.points r ≡ none)
        ⊎ ((scaling_for fl c'.points r ≡ some (fl.from_int (pos 0)))
            × (r.scaling ≡ fl.abs (fl.from_int (pos 0))))
  unfolding new
  poll_models-unscaled fuel ids name key c c' d d' e r found_all polled known =
      unscaled c'.points key r
        (After-at c'
          (poll_models-AllZero ids c e
            (Leaves-at c d' (discover-AllZero fuel (pos 40002) false (new name) d tt) found_all))
          polled)
        known
