-- ===== src/Modbus/Bits/Positions.antt =====
-- The bit at a position of a byte string, least significant bit of the first byte first, and what
-- the writing of one bit does to it.
use ot_sim.Common.{
  ℕ, zero, suc, ◌-◌, ◌*◌, ◌/◌, ◌%◌, ◌^◌, ◌<◌, ◌≤◌, bit_or, ◌≡◌, refl, Bool, true, ◌&&◌, List, [],
  ◌∷◌, ◌++◌, ◌==◌, ltb, nat_eq, if◌then◌else◌, length, get_or, set, arith, sym, holds_below,
  holds_below-at, nat_beq_iff, length-append, and_left, and_right, Bool-cases, inl, inr, ◌∙◌, ap,
}
use native.Mathlib.Nat.{zero-div}
use ot_sim.Modbus.Bits.{reverse8, byte_bits, bytes_to_bits, or_bit}

abbrev pub bit_at : List ℕ → ℕ → ℕ
bit_at bytes i = get_or bytes (i / 8) 0 / 2 ^ (i % 8) % 2

abbrev pub AllBytes : List ℕ → Type 0
AllBytes [] = Unit {0}
AllBytes (b ∷ bs) = (b < 256) × AllBytes bs

-- one byte with one bit set, checked over all bytes and positions
or_case : ℕ → ℕ → ℕ → Bool
or_case x s t =
    (bit_or x (2 ^ s % 256) / 2 ^ t % 2 == (if s == t then 1 else x / 2 ^ t % 2))
    && ltb (bit_or x (2 ^ s % 256)) 256

or_table : holds_below 256 (λ x. holds_below 8 (λ s. holds_below 8 (λ t. or_case x s t))) ≡ true
unfolding holds_below or_case
or_table = refl

or_case_holds : (x s t : ℕ) → x < 256 → s < 8 → t < 8 → or_case x s t ≡ true
or_case_holds x s t hx hs ht =
    holds_below-at 8 (λ t. or_case x s t) t
      (holds_below-at 8 (λ s. holds_below 8 (λ t. or_case x s t)) s
        (holds_below-at 256 (λ x. holds_below 8 (λ s. holds_below 8 (λ t. or_case x s t))) x
          or_table hx)
        hs)
      ht

or_value :
    (x s t : ℕ)
    → x < 256
    → s < 8
    → t < 8
    → bit_or x (2 ^ s % 256) / 2 ^ t % 2 ≡ (if s == t then 1 else x / 2 ^ t % 2)
unfolding or_case
or_value x s t hx hs ht = (nat_beq_iff _ _).0 (and_left _ _ (or_case_holds x s t hx hs ht))

or_lt : (x s : ℕ) → x < 256 → s < 8 → bit_or x (2 ^ s % 256) < 256
unfolding or_case
or_lt x s hx hs =
    let h : ltb (bit_or x (2 ^ s % 256)) 256 ≡ true =
      and_right (bit_or x (2 ^ s % 256) / 2 ^ 0 % 2 == (if s == 0 then 1 else x / 2 ^ 0 % 2)) _
        (or_case_holds x s 0 hx hs (omega arith)) in
    ground arith

-- the bits of one byte, checked over all bytes
bits_table :
    holds_below 256
      (λ x. holds_below 8 (λ t. get_or (byte_bits 8 (reverse8 x)) t 0 == x / 2 ^ t % 2))
    ≡ true
unfolding holds_below byte_bits reverse8
bits_table = refl

get_or-set :
    (xs : List ℕ) (i j v : ℕ)
    → i < length xs
    → get_or (set xs i v) j 0 ≡ (if i == j then v else get_or xs j 0)
get_or-set [] i j v h = elim h [ ]
get_or-set (x ∷ xs) zero zero v h = refl
get_or-set (x ∷ xs) zero (suc j) v h = ground arith
get_or-set (x ∷ xs) (suc i) zero v h = ground arith
get_or-set (x ∷ xs) (suc i) (suc j) v h = ground (arith, get_or-set xs i j v)

byte_bits-at : (x t : ℕ) → x < 256 → t < 8 → get_or (byte_bits 8 (reverse8 x)) t 0 ≡ x / 2 ^ t % 2
byte_bits-at x t hx ht =
    (nat_beq_iff _ _).0 (holds_below-at 8 _ t (holds_below-at 256 _ x bits_table hx) ht)

length-byte_bits : (n d : ℕ) → length (byte_bits n d) ≡ n
unfolding byte_bits
length-byte_bits zero d = refl
length-byte_bits (suc n) d = omega (arith, length-byte_bits n (d * 2 % 256))

get_or-append_left :
    (xs ys : List ℕ) (i : ℕ) → i < length xs → get_or (xs ++ ys) i 0 ≡ get_or xs i 0
get_or-append_left [] ys i h = elim h [ ]
get_or-append_left (x ∷ xs) ys zero h = refl
get_or-append_left (x ∷ xs) ys (suc i) h = get_or-append_left xs ys i (omega arith)

get_or-append_right :
    (xs ys : List ℕ) (i : ℕ) → length xs ≤ i → get_or (xs ++ ys) i 0 ≡ get_or ys (i - length xs) 0
get_or-append_right [] ys i h = ap (λ k. get_or ys k 0) (omega arith)
get_or-append_right (x ∷ xs) ys zero h = elim h [ ]
get_or-append_right (x ∷ xs) ys (suc i) h =
    get_or-append_right xs ys i (omega arith) ∙ ap (λ k. get_or ys k 0) (omega arith)

bit_at-tail : (b : ℕ) (bs : List ℕ) (i : ℕ) → 8 ≤ i → bit_at (b ∷ bs) i ≡ bit_at bs (i - 8)
bit_at-tail b bs i h =
    let e : i / 8 ≡ suc ((i - 8) / 8) = omega arith in
    let r : i % 8 ≡ (i - 8) % 8 = omega arith in rw (e, r)

bit_at-head : (b : ℕ) (bs : List ℕ) (i : ℕ) → i < 8 → bit_at (b ∷ bs) i ≡ b / 2 ^ i % 2
bit_at-head b bs i h =
    let e : i / 8 ≡ 0 = omega arith in let r : i % 8 ≡ i = omega arith in rw (e, r)

pub zero-div-mod : (m : ℕ) → 0 / m % 2 ≡ 0
zero-div-mod m = ap (λ n. n % 2) (zero-div m)

-- The bits of a byte string, read off one by one.
pub get_or-bytes_to_bits :
    (bytes : List ℕ) (i : ℕ) → AllBytes bytes → get_or (bytes_to_bits bytes) i 0 ≡ bit_at bytes i
unfolding bytes_to_bits
get_or-bytes_to_bits [] i h = sym (zero-div-mod (2 ^ (i % 8)))
get_or-bytes_to_bits (b ∷ bs) i h = elim (Bool-cases (ltb i 8)) [
  | inl low ↦
      let lt : i < 8 = ground arith in
      get_or-append_left (byte_bits 8 (reverse8 b)) (bytes_to_bits bs) i
        (omega (arith, length-byte_bits 8 (reverse8 b)))
      ∙ (byte_bits-at b i h.0 lt ∙ sym (bit_at-head b bs i lt))
  | inr high ↦
      let le : 8 ≤ i = ground arith in
      get_or-append_right (byte_bits 8 (reverse8 b)) (bytes_to_bits bs) i
        (omega (arith, length-byte_bits 8 (reverse8 b)))
      ∙ (ap (λ n. get_or (bytes_to_bits bs) (i - n) 0) (length-byte_bits 8 (reverse8 b))
          ∙ (get_or-bytes_to_bits bs (i - 8) h.1 ∙ sym (bit_at-tail b bs i le)))
]

pub length-bytes_to_bits : (bytes : List ℕ) → length (bytes_to_bits bytes) ≡ 8 * length bytes
unfolding bytes_to_bits
length-bytes_to_bits [] = omega arith
length-bytes_to_bits (b ∷ bs) = omega (
  arith,
  length-append (byte_bits 8 (reverse8 b)) (bytes_to_bits bs),
  length-byte_bits 8 (reverse8 b),
  length-bytes_to_bits bs,
)

get_or-lt : (bytes : List ℕ) (i : ℕ) → AllBytes bytes → get_or bytes i 0 < 256
get_or-lt [] i h = omega arith
get_or-lt (b ∷ bs) zero h = h.0
get_or-lt (b ∷ bs) (suc i) h = get_or-lt bs i h.1

AllBytes-set : (bytes : List ℕ) (i v : ℕ) → AllBytes bytes → v < 256 → AllBytes (set bytes i v)
AllBytes-set [] i v h k = tt
AllBytes-set (b ∷ bs) zero v h k = (k, h.1)
AllBytes-set (b ∷ bs) (suc i) v h k = (h.0, AllBytes-set bs i v h.1 k)

length-set : (xs : List ℕ) (i v : ℕ) → length (set xs i v) ≡ length xs
length-set [] i v = refl
length-set (x ∷ xs) zero v = refl
length-set (x ∷ xs) (suc i) v = ap suc (length-set xs i v)

pub AllBytes-or_bit : (idx : ℕ) (bytes : List ℕ) → AllBytes bytes → AllBytes (or_bit idx bytes)
unfolding or_bit
AllBytes-or_bit idx bytes h =
    AllBytes-set bytes (idx / 8) _ h
      (or_lt (get_or bytes (idx / 8) 0) (idx % 8) (get_or-lt bytes (idx / 8) h) (omega arith))

pub length-or_bit : (idx : ℕ) (bytes : List ℕ) → length (or_bit idx bytes) ≡ length bytes
unfolding or_bit
length-or_bit idx bytes = length-set bytes (idx / 8) _

-- Setting one bit sets that one and keeps the others.
pub bit_at-or_bit :
    (idx i : ℕ) (bytes : List ℕ)
    → AllBytes bytes
    → idx / 8 < length bytes
    → bit_at (or_bit idx bytes) i ≡ (if idx == i then 1 else bit_at bytes i)
unfolding or_bit
bit_at-or_bit idx i bytes all h =
    rw (get_or-set bytes (idx / 8) (i / 8) _ h) (elim (Bool-cases (idx / 8 == i / 8)) [
      | inl same ↦ rw same (
          let e : idx / 8 ≡ i / 8 = ground arith in
          ground (
            arith,
            ap (λ k. get_or bytes k 0) e,
            or_value (get_or bytes (idx / 8) 0) (idx % 8) (i % 8) (get_or-lt bytes (idx / 8) all),
          ))
      | inr other ↦ rw other (ground arith)
    ])
