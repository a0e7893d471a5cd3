-- ===== src/Modbus/Bits/Conversions.antt =====
-- The two conversions of bytes.go undo one another.
use ot_sim.Common.{
  ℕ, zero, suc, ◌+◌, ◌-◌, ◌*◌, ◌/◌, ◌%◌, ◌^◌, ◌<◌, ◌≤◌, ◌≡◌, refl, ◌&&◌, not, List, [], ◌∷◌, ◌==◌,
  leb, nat_eq, if◌then◌else◌, length, get_or, replicate, length-replicate, arith, Bool-cases, inl,
  inr, ◌∙◌, ap, ltb,
}
use ot_sim.Modbus.Bits.{bytes_to_bits, bits_to_bytes, byte_count, or_bit, or_bits}
use ot_sim.Modbus.Bits.Positions.{
  bit_at, AllBytes, get_or-bytes_to_bits, length-bytes_to_bits, bit_at-or_bit, AllBytes-or_bit,
  length-or_bit, zero-div-mod,
}

get_or-cons : (b : ℕ) (bs : List ℕ) (n : ℕ) → 0 < n → get_or (b ∷ bs) n 0 ≡ get_or bs (n - 1) 0
get_or-cons b bs zero h = elim h [ ]
get_or-cons b bs (suc n) h = ap (λ k. get_or bs k 0) (omega arith)

-- one turn of the loop
abbrev step : ℕ → ℕ → List ℕ → List ℕ
step b idx bytes = if b == 0 then bytes else or_bit idx bytes

AllBytes-step : (b idx : ℕ) (bytes : List ℕ) → AllBytes bytes → AllBytes (step b idx bytes)
AllBytes-step b idx bytes h = elim (Bool-cases (b == 0)) [
  | inl z ↦ rw z h
  | inr nz ↦ rw nz (AllBytes-or_bit idx bytes h)
]

length-step : (b idx : ℕ) (bytes : List ℕ) → length (step b idx bytes) ≡ length bytes
length-step b idx bytes = elim (Bool-cases (b == 0)) [
  | inl z ↦ rw z
  | inr nz ↦ rw nz (length-or_bit idx bytes)
]

bit_at-step :
    (b idx i : ℕ) (bytes : List ℕ)
    → AllBytes bytes
    → idx / 8 < length bytes
    → bit_at (step b idx bytes) i ≡ (if idx == i && not (b == 0) then 1 else bit_at bytes i)
bit_at-step b idx i bytes all h = elim (Bool-cases (b == 0)) [
  | inl z ↦ rw z (ground arith)
  | inr nz ↦ rw nz (bit_at-or_bit idx i bytes all h ∙ ground arith)
]

pub AllBytes-or_bits :
    (bits : List ℕ) (idx : ℕ) (bytes : List ℕ) → AllBytes bytes → AllBytes (or_bits bits idx bytes)
unfolding or_bits
AllBytes-or_bits [] idx bytes h = h
AllBytes-or_bits (b ∷ bits) idx bytes h =
    AllBytes-or_bits bits (idx + 1) (step b idx bytes) (AllBytes-step b idx bytes h)

pub length-or_bits :
    (bits : List ℕ) (idx : ℕ) (bytes : List ℕ) → length (or_bits bits idx bytes) ≡ length bytes
unfolding or_bits
length-or_bits [] idx bytes = refl
length-or_bits (b ∷ bits) idx bytes =
    length-or_bits bits (idx + 1) (step b idx bytes) ∙ length-step b idx bytes

this_or_later :
    (b : ℕ) (bits : List ℕ) (idx i old : ℕ)
    → (if leb (idx + 1) i && not (get_or bits (i - (idx + 1)) 0 == 0)
        then 1
        else if idx == i && not (b == 0)
        then 1
        else old)
      ≡ (if leb idx i && not (get_or (b ∷ bits) (i - idx) 0 == 0) then 1 else old)
this_or_later b bits idx i old = elim (Bool-cases (ltb idx i)) [
  | inl later ↦ ground (
    arith,
    get_or-cons b bits (i - idx),
    ap (λ k. get_or bits k 0) (let e : i - idx - 1 ≡ i - (idx + 1) = omega arith in e),
  )
  | inr now ↦ elim (Bool-cases (idx == i)) [
    | inl same ↦
        ground (arith, ap (λ k. get_or (b ∷ bits) k 0) (let e : i - idx ≡ 0 = ground arith in e))
    | inr before ↦ ground arith
  ]
]

-- The loop sets the bits that are not 0, from position `idx` on, and keeps the others.
pub bit_at-or_bits :
    (bits : List ℕ) (idx i : ℕ) (bytes : List ℕ)
    → AllBytes bytes
    → idx + length bits ≤ 8 * length bytes
    → bit_at (or_bits bits idx bytes) i
      ≡ (if leb idx i && not (get_or bits (i - idx) 0 == 0) then 1 else bit_at bytes i)
unfolding or_bits
bit_at-or_bits [] idx i bytes all h = ground arith
bit_at-or_bits (b ∷ bits) idx i bytes all h =
    bit_at-or_bits bits (idx + 1) i (step b idx bytes) (AllBytes-step b idx bytes all)
      (omega (arith, length-step b idx bytes))
    ∙ (rw (bit_at-step b idx i bytes all (omega arith))
        (this_or_later b bits idx i (bit_at bytes i)))

get_or-zeros : (n i : ℕ) → get_or {A = ℕ} (replicate n 0) i 0 ≡ 0
get_or-zeros zero i = refl
get_or-zeros (suc n) zero = refl
get_or-zeros (suc n) (suc i) = get_or-zeros n i

bit_at-zeros : (n i : ℕ) → bit_at (replicate n 0) i ≡ 0
bit_at-zeros n i = rw (get_or-zeros n (i / 8)) (zero-div-mod (2 ^ (i % 8)))

AllBytes-zeros : (n : ℕ) → AllBytes (replicate n 0)
AllBytes-zeros zero = tt
AllBytes-zeros (suc n) = (omega arith, AllBytes-zeros n)

pub byte_count_bounds : (n : ℕ) → (n ≤ 8 * byte_count n) × (8 * byte_count n < n + 8)
unfolding byte_count
byte_count_bounds n = ground arith

pub length-bits_to_bytes : (bits : List ℕ) → length (bits_to_bytes bits) ≡ byte_count (length bits)
unfolding bits_to_bytes
length-bits_to_bytes bits =
    length-or_bits bits 0 (replicate (byte_count (length bits)) 0)
    ∙ length-replicate (byte_count (length bits)) 0

pub AllBytes-bits_to_bytes : (bits : List ℕ) → AllBytes (bits_to_bytes bits)
unfolding bits_to_bytes
AllBytes-bits_to_bytes bits = AllBytes-or_bits bits 0 _ (AllBytes-zeros (byte_count (length bits)))

pub bit_at-bits_to_bytes :
    (bits : List ℕ) (i : ℕ)
    → bit_at (bits_to_bytes bits) i ≡ (if get_or bits i 0 == 0 then 0 else 1)
unfolding bits_to_bytes
bit_at-bits_to_bytes bits i =
    let n = byte_count (length bits) in
    bit_at-or_bits bits 0 i (replicate n 0) (AllBytes-zeros n)
      (omega (arith, length-replicate {A = ℕ} n 0, byte_count_bounds (length bits)))
    ∙ ground
        (arith, bit_at-zeros n i, ap (λ k. get_or bits k 0) (let e : i - 0 ≡ i = omega arith in e))

-- Packing bits into bytes and unpacking them gives every bit back as 0 or 1, in its place, and
-- pads with zeros up to a whole number of bytes, the least one that holds the bits.
pub bytes_to_bits-bits_to_bytes :
    (bits : List ℕ)
    → ((i : ℕ)
        → get_or (bytes_to_bits (bits_to_bytes bits)) i 0 ≡ (if get_or bits i 0 == 0 then 0 else 1))
      × (length bits ≤ length (bytes_to_bits (bits_to_bytes bits)))
      × (length (bytes_to_bits (bits_to_bytes bits)) < length bits + 8)
bytes_to_bits-bits_to_bytes bits = (
  (λ i.
      get_or-bytes_to_bits (bits_to_bytes bits) i (AllBytes-bits_to_bytes bits)
      ∙ bit_at-bits_to_bytes bits i),
  omega (
    arith,
    length-bytes_to_bits (bits_to_bytes bits),
    length-bits_to_bytes bits,
    byte_count_bounds (length bits),
  ),
  omega (
    arith,
    length-bytes_to_bits (bits_to_bytes bits),
    length-bits_to_bytes bits,
    byte_count_bounds (length bits),
  ),
)
