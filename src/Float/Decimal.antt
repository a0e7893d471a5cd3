-- ===== src/Float/Decimal.antt =====
-- Decimal numbers, mantissa times a power of ten: a concrete `FloatOps` that meets the laws, on
-- which the tests and the examples run.
use ot_sim.Common.{
  ℕ, zero, suc, ◌-◌, ◌*◌, ◌/◌, ◌%◌, ◌^◌, ◌<◌, ◌≡◌, refl, Bool, true, false, arith, ltb, leb,
  if◌then◌else◌, Bool-cases, inl, inr, ap, ◌∙◌,
}
use ot_sim.Common.Int.{ℤ, pos, negsuc, neg, pos_part, neg_part, abs, ◌+ℤ◌, ◌*ℤ◌, int_beq}
use native.Mathlib.Nat.{mod-lt, mod-eq_of_lt, pow-suc}
use ot_sim.Float.{FloatOps, FloatLaws, word_int}

pub record Decimal : Type 0 where
  pub mant : ℤ
  pub exp : ℤ

-- The number of tenths shifted in, and those cut off.
abbrev trunc : Decimal → ℤ
trunc d =
    let up = 10 ^ pos_part d.exp in
    let down = 10 ^ neg_part d.exp in
    elim d.mant [ pos n ↦ pos (n * up / down) | negsuc n ↦ neg (pos (suc n * up / down)) ]

-- two's complement
abbrev pub pattern_of : ℕ → ℤ → ℕ
pattern_of w (pos n) = n % 2 ^ w
pattern_of w (negsuc n) = (2 ^ w - suc n % 2 ^ w) % 2 ^ w

unfoldable pub to_pattern : ℕ → Decimal → ℕ
unfolding ◌*ℤ◌
to_pattern w d = pattern_of w (trunc d)

unfoldable pub decimal_mul : Decimal → Decimal → Decimal
unfolding ◌*ℤ◌ ◌+ℤ◌
decimal_mul a b = record { mant = a.mant *ℤ b.mant; exp = a.exp +ℤ b.exp }

unfoldable pub decimal_add : Decimal → Decimal → Decimal
unfolding ◌*ℤ◌ ◌+ℤ◌
decimal_add a b =
    if ltb (neg_part a.exp) (neg_part b.exp)
    then record {
      mant = a.mant *ℤ pos (10 ^ (neg_part b.exp - neg_part a.exp)) +ℤ b.mant;
      exp = b.exp;
    }
    else record {
      mant = a.mant +ℤ b.mant *ℤ pos (10 ^ (neg_part a.exp - neg_part b.exp));
      exp = a.exp;
    }

abbrev pub integer : ℤ → Decimal
integer n = record { mant = n; exp = pos 0 }

abbrev pub decimal_ops : FloatOps Decimal
decimal_ops = record {
  from_int = integer;
  is_zero = λ d. int_beq d.mant (pos 0);
  add = decimal_add;
  mul = decimal_mul;
  negate = λ d. record { mant = neg d.mant; exp = d.exp };
  abs = λ d. record { mant = pos (abs d.mant); exp = d.exp };
  pow10 = λ d. record { mant = pos 1; exp = trunc d };
  to_word = λ signed w d. to_pattern w d;
  float32_bits = to_pattern 32;
  float64_bits = to_pattern 64;
  of_float32_bits = λ b. integer (pos b);
  of_float64_bits = λ b. integer (pos b);
}

pow2_pos : (w : ℕ) → 0 < 2 ^ w
pow2_pos zero = omega arith
pow2_pos (suc w) = rw pow-suc (omega (arith, pow2_pos w))

pattern_of-lt : (w : ℕ) (n : ℤ) → pattern_of w n < 2 ^ w
pattern_of-lt w (pos n) = mod-lt n (pow2_pos w)
pattern_of-lt w (negsuc n) = mod-lt _ (pow2_pos w)

to_pattern-lt : (w : ℕ) (d : Decimal) → to_pattern w d < 2 ^ w
unfolding to_pattern
to_pattern-lt w d = pattern_of-lt w (trunc d)

neg-suc : (n : ℕ) → neg (pos (suc n)) ≡ negsuc n
neg-suc n = ground arith

to_pattern-integer : (w : ℕ) (n : ℤ) → to_pattern w (integer n) ≡ pattern_of w n
unfolding to_pattern
to_pattern-integer w (pos n) = ap (λ m. m % 2 ^ w) (omega arith)
to_pattern-integer w (negsuc n) =
    ap (pattern_of w) (ap (λ m. neg (pos m)) (omega arith) ∙ neg-suc n)

-- Each law over a bound `M` in place of `2 ^ w`.
wrap_negative : (M p : ℕ) → 0 < p → p < M → (M - suc (M - p - 1) % M) % M ≡ p
wrap_negative M p h k =
    rw (mod-eq_of_lt (let e : suc (M - p - 1) < M = omega arith in e))
      (rw (let e : M - suc (M - p - 1) ≡ p = omega arith in e) (mod-eq_of_lt k))

pattern_of-word_int :
    (signed : Bool) (w p : ℕ) → 0 < w → p < 2 ^ w → pattern_of w (word_int signed w p) ≡ p
unfolding word_int
pattern_of-word_int false w p pw h = mod-eq_of_lt h
pattern_of-word_int true w p pw h = elim (Bool-cases (leb (2 ^ (w - 1)) p)) [
  | inl big ↦ rw (big, word_int) (wrap_negative (2 ^ w) p (ground (arith, pow2_pos (w - 1))) h)
  | inr small ↦ rw (small, word_int) (mod-eq_of_lt h)
]

decimal_mul_one : (d : Decimal) → decimal_mul d (record { mant = pos 1; exp = pos 0 }) ≡ d
unfolding decimal_mul
decimal_mul_one d = ground arith

pub decimal_laws : FloatLaws decimal_ops
decimal_laws = record {
  mul-pow10_zero = decimal_mul_one;
  mul-pow10-negate_zero = decimal_mul_one;
  is_zero-from_int = λ n. refl;
  to_word-lt = λ signed w d. to_pattern-lt w d;
  to_word-from_int = λ signed w p pw small h.
      to_pattern-integer w (word_int signed w p) ∙ pattern_of-word_int signed w p pw h;
  float32_bits-lt = to_pattern-lt 32;
  float64_bits-lt = to_pattern-lt 64;
  float32_bits-of_float32_bits = λ p h finite. to_pattern-integer 32 (pos p) ∙ mod-eq_of_lt h;
  float64_bits-of_float64_bits = λ p h. to_pattern-integer 64 (pos p) ∙ mod-eq_of_lt h;
}
