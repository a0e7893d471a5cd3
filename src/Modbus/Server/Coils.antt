-- ===== src/Modbus/Server/Coils.antt =====
-- What the reads of coils and of discrete inputs answer.
use ot_sim.Common.{
  ℕ, zero, suc, ◌+◌, ◌%◌, ◌≤◌, ◌<◌, ◌≡◌, refl, ◌⊎◌, inl, inr, Option, none, some, List, [], ◌∷◌,
  length, get_or, replicate, if◌then◌else◌, arith, Option-cases, nat_eq, ap, ◌∙◌, sym,
}
use mathlib.Core.Option
use ot_sim.Common.Int.{pos, int_eq}
use ot_sim.Common.Dict.{Dict, lookup}
use ot_sim.Common.{String}
use ot_sim.Float.{FloatOps}
use ot_sim.Modbus.Bits.{bits_to_bytes, byte_count, or_bits, or_bit}
use ot_sim.Modbus.Bits.Positions.{bit_at}
use ot_sim.Modbus.Bits.Conversions.{bit_at-bits_to_bytes, length-bits_to_bytes}
use ot_sim.Modbus.Register.{coil, discrete, type_eq, Register}
use ot_sim.Modbus.Server.State.{
  Table, Server, Response, success, exception, illegal_data_address, uint16_at, with_range-some,
  with_range_eq, tag_value, panic,
}
use ot_sim.Modbus.Server.Read.{
  bit_of, read_bits, read_into, coil_reply, discrete_reply, read_coil_registers,
  read_discrete_registers,
}

module _ {F : Type 0} (fl : FloatOps F) (table : Table) (tags : Dict String F) where
  -- the bit that is due for the address, where it has a register
  abbrev pub IsBit : ℕ → ℕ → Type 0
  IsBit addr b = (reg : Register) × (lookup (pos addr) table ≡ some reg) × (b ≡ bit_of fl tags reg)

  abbrev pub Missing : ℕ → ℕ → Type 0
  Missing start n = (i : ℕ) × (i < n) × (lookup (pos (start + i)) table ≡ none)

  abbrev Bits : ℕ → ℕ → Option (List ℕ) → Type 0
  Bits n addr o =
      ((bits : List ℕ) × (o ≡ some bits)
        × (length bits ≡ n)
        × ((i : ℕ) → i < n → IsBit (addr + i) (get_or bits i 0)))
      ⊎ (Missing addr n × (o ≡ none))

  Bits-cons :
      (n addr : ℕ) (reg : Register) (o : Option (List ℕ))
      → lookup (pos addr) table ≡ some reg
      → Bits n (addr + 1) o
      → Bits (suc n) addr (elim o [ none ↦ none | some bits ↦ some (bit_of fl tags reg ∷ bits) ])
  Bits-cons n addr reg o e (inl (bits, found, size, each)) =
      inl (bit_of fl tags reg ∷ bits, ground arith, omega (arith, size), at)
    where
      at : (i : ℕ) → i < suc n → IsBit (addr + i) (get_or (bit_of fl tags reg ∷ bits) i 0)
      at zero h = (reg, rw (let p : addr + 0 ≡ addr = omega arith in p) e, refl)
      at (suc i) h =
          rw (let p : addr + suc i ≡ addr + 1 + i = omega arith in p) (each i (omega arith))
  Bits-cons n addr reg o e (inr ((i, lt, gone), empty)) = inr (
    (suc i, omega arith, rw (let p : addr + suc i ≡ addr + 1 + i = omega arith in p) gone),
    ground arith,
  )

  read_bits-Bits : (n addr : ℕ) → Bits n addr (read_bits fl table tags n addr)
  unfolding read_bits
  read_bits-Bits zero addr = inl ([], refl, refl, λ i h. elim h [ ])
  read_bits-Bits (suc n) addr = elim (Option-cases (lookup (pos addr) table)) [
    | inl gone ↦
        inr ((0, omega arith, rw (let p : addr + 0 ≡ addr = omega arith in p) gone), ground arith)
    | inr (reg, found) ↦
        rw (found, read_bits)
          (Bits-cons n addr reg (read_bits fl table tags n (addr + 1)) found
            (read_bits-Bits n (addr + 1)))
  ]

  -- The bytes that are due for `n` addresses from `start` on.
  abbrev pub IsPayload : ℕ → ℕ → List ℕ → Type 0
  IsPayload start n payload =
      (length payload ≡ byte_count n)
      × ((i : ℕ) → i < n → IsBit (start + i) (bit_at payload i))
      × ((i : ℕ) → n ≤ i → bit_at payload i ≡ 0)

  -- the two answers of a read of `n` bits
  abbrev pub BitReply : ℕ → ℕ → Response → Type 0
  BitReply start n answer =
      ((payload : List ℕ) × (answer ≡ success (byte_count n % 256 ∷ payload))
        × IsPayload start n payload)
      ⊎ (Missing start n × (answer ≡ exception illegal_data_address))

  get_or_past : (xs : List ℕ) (i : ℕ) → length xs ≤ i → get_or xs i 0 ≡ 0
  get_or_past [] i h = refl
  get_or_past (x ∷ xs) zero h = elim h [ ]
  get_or_past (x ∷ xs) (suc i) h = get_or_past xs i (omega arith)

  packed-IsBit :
      (bits : List ℕ) (addr i : ℕ)
      → IsBit addr (get_or bits i 0)
      → IsBit addr (bit_at (bits_to_bytes bits) i)
  packed-IsBit bits addr i (reg, found, e) =
      (reg, found, ground (arith, bit_at-bits_to_bytes bits i))

  packed :
      (n addr : ℕ) (bits : List ℕ)
      → length bits ≡ n
      → ((i : ℕ) → i < n → IsBit (addr + i) (get_or bits i 0))
      → IsPayload addr n (bits_to_bytes bits)
  packed n addr bits size each = (
    length-bits_to_bytes bits ∙ ap byte_count size,
    (λ i h. packed-IsBit bits (addr + i) i (each i h)),
    (λ i h. ground (arith, bit_at-bits_to_bytes bits i, get_or_past bits i (omega (arith, size)))),
  )

  coil_reply-Bits :
      (n addr : ℕ) (o : Option (List ℕ)) → Bits n addr o → BitReply addr n (coil_reply o)
  coil_reply-Bits n addr o (inl (bits, found, size, each)) = inl (
    bits_to_bytes bits,
    rw found (ap (λ k. success (k % 256 ∷ bits_to_bytes bits)) (packed n addr bits size each).0),
    packed n addr bits size each,
  )
  coil_reply-Bits n addr o (inr (gone, empty)) = inr (gone, rw empty)

  -- Setting the bits in place gives what collecting and packing them does.
  read_into-read_bits :
      (n addr idx : ℕ) (bytes : List ℕ)
      → read_into fl table tags n addr idx bytes
        ≡ Option.map (λ bits. or_bits bits idx bytes) (read_bits fl table tags n addr)
  unfolding read_into read_bits or_bits
  read_into-read_bits zero addr idx bytes = refl
  read_into-read_bits (suc n) addr idx bytes = elim (Option-cases (lookup (pos addr) table)) [
    | inl gone ↦ ground arith
    | inr (reg, found) ↦ elim (Option-cases (read_bits fl table tags n (addr + 1))) [
      | inl stop ↦ ground (
        arith,
        read_into-read_bits n (addr + 1) (idx + 1)
            (if fl.is_zero (tag_value fl tags reg) then bytes else or_bit idx bytes),
      )
      | inr (bits, more) ↦ ground (
        arith,
        read_into-read_bits n (addr + 1) (idx + 1)
            (if fl.is_zero (tag_value fl tags reg) then bytes else or_bit idx bytes),
      )
    ]
  ]

  packed_reply :
      (n addr : ℕ) (o : Option (List ℕ))
      → Bits n addr o
      → discrete_reply
          (byte_count n)
          (Option.map (λ bits. or_bits bits 0 (replicate (byte_count n) 0)) o)
        ≡ coil_reply o
  unfolding bits_to_bytes
  packed_reply n addr o (inl (bits, found, size, each)) = rw found (
      ap (λ k. success (k % 256 ∷ or_bits bits 0 (replicate k 0))) (ap byte_count (sym size))
      ∙ ap (λ k. success (k % 256 ∷ bits_to_bytes bits)) (sym (length-bits_to_bytes bits)))
  packed_reply n addr o (inr (gone, empty)) = rw empty

  discrete_reply-coil_reply :
      (n addr : ℕ)
      → discrete_reply
          (byte_count n)
          (read_into fl table tags n addr 0 (replicate (byte_count n) 0))
        ≡ coil_reply (read_bits fl table tags n addr)
  discrete_reply-coil_reply n addr =
      rw (read_into-read_bits n addr 0 (replicate (byte_count n) 0))
        (packed_reply n addr _ (read_bits-Bits n addr))

module _ {F Raw : Type 0} (fl : FloatOps F) (s : Server F Raw) (bytes : List ℕ) where
  -- A read of coils whose request carries a start and a count, on a server with coils, answers in
  -- one of two ways. Every address of the range has a register, and the answer holds the number of
  -- the data bytes, and in the data one bit for each address, 0 where the value of the register's
  -- tag is 0 and else 1, then zeros. Or some address has none, and the answer is the exception for
  -- an illegal address.
  pub read_coil_registers-BitReply :
      {table : Table} {start count : ℕ}
      → lookup coil s.registers ≡ some table
      → uint16_at 0 bytes ≡ some start
      → uint16_at 2 bytes ≡ some count
      → BitReply fl table s.tags start count (read_coil_registers fl s bytes)
  unfolding read_coil_registers
  read_coil_registers-BitReply {table} {start} {count} e0 e1 e2 =
      rw (with_range-some bytes _ _ _ _ e0 e1 e2)
        (coil_reply-Bits fl table s.tags count start _ (read_bits-Bits fl table s.tags count start))

  -- Coils and discrete inputs are read alike: over equal tables the handlers of function codes 1
  -- and 2, one packing collected bits and one setting bits in place, give every request the same
  -- answer.
  pub read_coil_registers-read_discrete_registers :
      lookup coil s.registers ≡ lookup discrete s.registers
      → read_discrete_registers fl s bytes ≡ read_coil_registers fl s bytes
  unfolding read_coil_registers read_discrete_registers
  read_coil_registers-read_discrete_registers e = rw e (
      with_range_eq bytes (exception illegal_data_address) panic (lookup discrete s.registers) _ _
        (λ table start count. discrete_reply-coil_reply fl table s.tags count start))
