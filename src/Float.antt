-- ===== src/Float.antt =====
-- Go's `float64`, which the language gives no definition of here: the operations that the modules
-- use, as a parameter, and what the Go specification and IEEE 754 say of them, as named laws.
pub mod Decimal
use ot_sim.Common.{
  ℕ, ◌+◌, ◌-◌, ◌/◌, ◌%◌, ◌^◌, ◌≤◌, ◌<◌, ◌≡◌, ◌≢◌, Bool, true, ◌&&◌, leb, nat_beq, not,
  if◌then◌else◌,
}
use ot_sim.Common.Int.{ℤ, pos, negsuc, int_beq}

pub record FloatOps (F : Type 0) : Type 0 where
  pub from_int : ℤ → F  -- float64(n)
  pub is_zero : F → Bool  -- v == 0
  pub add : F → F → F
  pub mul : F → F → F
  pub negate : F → F
  pub abs : F → F  -- math.Abs(v)
  pub pow10 : F → F  -- math.Pow(10, v)
  pub to_word : Bool → ℕ → F → ℕ  -- the bits of intW(v) or uintW(v), for W bits
  pub float32_bits : F → ℕ  -- math.Float32bits(float32(v))
  pub float64_bits : F → ℕ  -- math.Float64bits(v)
  pub of_float32_bits : ℕ → F  -- float64(math.Float32frombits(b))
  pub of_float64_bits : ℕ → F  -- math.Float64frombits(b)

-- The integer that a word of `w` bits stands for, read as `intW` or `uintW`.
unfoldable pub word_int : Bool → ℕ → ℕ → ℤ
word_int signed w p = if signed && leb (2 ^ (w - 1)) p then negsuc (2 ^ w - p - 1) else pos p

-- The single-precision bit patterns that are NaN: their payload need not survive a conversion.
abbrev pub is_nan32 : ℕ → Bool
is_nan32 p = nat_beq (p / 8388608 % 256) 255 && not (nat_beq (p % 8388608) 0)

-- Integers of at most 32 bits are exact in a float64, and so are the conversions to a float64 and
-- back; a product with 10 ^ 0 = 1 is exact.
pub record FloatLaws {F : Type 0} (fl : FloatOps F) : Type 0 where
  pub mul-pow10_zero : (v : F) → fl.mul v (fl.pow10 (fl.from_int (pos 0))) ≡ v
  pub mul-pow10-negate_zero : (v : F) → fl.mul v (fl.pow10 (fl.negate (fl.from_int (pos 0)))) ≡ v
  pub is_zero-from_int : (n : ℤ) → fl.is_zero (fl.from_int n) ≡ int_beq n (pos 0)
  pub to_word-lt : (signed : Bool) (w : ℕ) (v : F) → fl.to_word signed w v < 2 ^ w
  pub to_word-from_int :
      (signed : Bool) (w p : ℕ)
      → 0 < w
      → w ≤ 32
      → p < 2 ^ w
      → fl.to_word signed w (fl.from_int (word_int signed w p)) ≡ p
  pub float32_bits-lt : (v : F) → fl.float32_bits v < 2 ^ 32
  pub float64_bits-lt : (v : F) → fl.float64_bits v < 2 ^ 64
  pub float32_bits-of_float32_bits :
      (p : ℕ) → p < 2 ^ 32 → is_nan32 p ≢ true → fl.float32_bits (fl.of_float32_bits p) ≡ p
  pub float64_bits-of_float64_bits :
      (p : ℕ) → p < 2 ^ 64 → fl.float64_bits (fl.of_float64_bits p) ≡ p
