-- ===== src/Modbus/Bits.antt =====
-- Coil bits and their bytes: src/go/modbus/util/bytes.go, with the two functions of Go's
-- `math/bits` that it calls. A bit is an `int` of which only `!= 0` is read.
pub mod Positions
pub mod Conversions
use ot_sim.Common.{
  ℕ, zero, suc, ◌+◌, ◌*◌, ◌/◌, ◌%◌, ◌^◌, bit_or, List, [], ◌∷◌, ◌++◌, ◌==◌, leb, nat_eq,
  if◌then◌else◌, length, get_or, set, replicate,
}

-- bits.Reverse8
unfoldable pub reverse8 : ℕ → ℕ
reverse8 d =
    d % 2 * 128
    + d / 2 % 2 * 64
    + d / 4 % 2 * 32
    + d / 8 % 2 * 16
    + d / 16 % 2 * 8
    + d / 32 % 2 * 4
    + d / 64 % 2 * 2
    + d / 128 % 2

-- bits.LeadingZeros8
unfoldable pub leading_zeros8 : ℕ → ℕ
leading_zeros8 d =
    if leb 128 d
    then 0
    else if leb 64 d
    then 1
    else if leb 32 d
    then 2
    else if leb 16 d
    then 3
    else if leb 8 d
    then 4
    else if leb 4 d
    then 5
    else if leb 2 d
    then 6
    else if leb 1 d
    then 7
    else 8

-- The inner loop of `BytesToBits`, by the rounds left: the top bit, then `d << 1`.
unfoldable pub byte_bits : ℕ → ℕ → List ℕ
unfolding leading_zeros8
byte_bits zero d = []
byte_bits (suc rounds) d = (if leading_zeros8 d == 0 then 1 else 0) ∷ byte_bits rounds (d * 2 % 256)

unfoldable pub bytes_to_bits : List ℕ → List ℕ
bytes_to_bits [] = []
bytes_to_bits (d ∷ ds) = byte_bits 8 (reverse8 d) ++ bytes_to_bits ds

-- count / 8, and one more for a remainder
unfoldable pub byte_count : ℕ → ℕ
byte_count count = if count % 8 == 0 then count / 8 else count / 8 + 1

-- `data[idx/8] |= byte(1 << shift)`
unfoldable pub or_bit : ℕ → List ℕ → List ℕ
or_bit idx bytes = set bytes (idx / 8) (bit_or (get_or bytes (idx / 8) 0) (2 ^ (idx % 8) % 256))

-- the loop of `BitsToBytes`
unfoldable pub or_bits : List ℕ → ℕ → List ℕ → List ℕ
or_bits [] idx bytes = bytes
or_bits (b ∷ bits) idx bytes = or_bits bits (idx + 1) (if b == 0 then bytes else or_bit idx bytes)

unfoldable pub bits_to_bytes : List ℕ → List ℕ
bits_to_bytes bits = or_bits bits 0 (replicate (byte_count (length bits)) 0)
