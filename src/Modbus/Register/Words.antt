-- ===== src/Modbus/Register/Words.antt =====
-- Big-endian words and their bytes.
use ot_sim.Common.{
  ℕ, zero, suc, ◌+◌, ◌*◌, ◌/◌, ◌%◌, ◌^◌, ◌<◌, ◌≡◌, refl, List, [], ◌∷◌, ◌++◌, length, arith, ap,
  length-append,
}
use native.Mathlib.Nat.{pow-suc}
use ot_sim.Modbus.Bits.Positions.{AllBytes}
use ot_sim.Modbus.Register.{to_bytes, of_bytes}

pub length-to_bytes : (n p : ℕ) → length (to_bytes n p) ≡ n
unfolding to_bytes
length-to_bytes zero p = refl
length-to_bytes (suc n) p =
    omega (arith, length-append (to_bytes n (p / 256)) (p % 256 ∷ []), length-to_bytes n (p / 256))

AllBytes-append : (xs ys : List ℕ) → AllBytes xs → AllBytes ys → AllBytes (xs ++ ys)
AllBytes-append [] ys h k = k
AllBytes-append (x ∷ xs) ys h k = (h.0, AllBytes-append xs ys h.1 k)

pub AllBytes-to_bytes : (n p : ℕ) → AllBytes (to_bytes n p)
unfolding to_bytes
AllBytes-to_bytes zero p = tt
AllBytes-to_bytes (suc n) p =
    AllBytes-append (to_bytes n (p / 256)) _ (AllBytes-to_bytes n (p / 256)) (omega arith, tt)

of_bytes-snoc :
    (acc : ℕ) (xs : List ℕ) (b : ℕ) → of_bytes acc (xs ++ b ∷ []) ≡ of_bytes acc xs * 256 + b
unfolding of_bytes
of_bytes-snoc acc [] b = refl
of_bytes-snoc acc (x ∷ xs) b = of_bytes-snoc (acc * 256 + x) xs b

-- a non-empty list of bytes, split before its last
record Snoc (n : ℕ) (xs : List ℕ) : Type 0 where
  front : List ℕ
  last : ℕ
  whole : xs ≡ front ++ last ∷ []
  size : length front ≡ n
  front_bytes : AllBytes front
  last_byte : last < 256

Snoc-of : (n : ℕ) (xs : List ℕ) → length xs ≡ suc n → AllBytes xs → Snoc n xs
Snoc-of n [] h all = absurd (omega arith)
Snoc-of zero (x ∷ []) h all = record {
  front = [];
  last = x;
  whole = refl;
  size = refl;
  front_bytes = tt;
  last_byte = all.0;
}
Snoc-of zero (x ∷ y ∷ xs) h all = absurd (omega arith)
Snoc-of (suc n) (x ∷ xs) h all =
    let s = Snoc-of n xs (omega arith) all.1 in
    record {
      front = x ∷ s.front;
      last = s.last;
      whole = ap (λ t. x ∷ t) s.whole;
      size = omega (arith, s.size);
      front_bytes = (all.0, s.front_bytes);
      last_byte = s.last_byte;
    }

pub to_bytes-of_bytes :
    (n : ℕ) (xs : List ℕ) → length xs ≡ n → AllBytes xs → to_bytes n (of_bytes 0 xs) ≡ xs
unfolding to_bytes
to_bytes-of_bytes zero [] h all = refl
to_bytes-of_bytes zero (x ∷ xs) h all = absurd (omega arith)
to_bytes-of_bytes (suc n) xs h all =
    let s = Snoc-of n xs h all in
    let v = of_bytes 0 s.front in
    rw (s.whole, of_bytes-snoc 0 s.front s.last)
      (rw (let e : (v * 256 + s.last) / 256 ≡ v = omega (arith, s.last_byte) in e) (
        rw (let e : (v * 256 + s.last) % 256 ≡ s.last = omega (arith, s.last_byte) in e)
          (rw (to_bytes-of_bytes n s.front s.size s.front_bytes))))

pub of_bytes-to_bytes : (n p : ℕ) → p < 256 ^ n → of_bytes 0 (to_bytes n p) ≡ p
unfolding to_bytes
of_bytes-to_bytes zero p h = unfold of_bytes in ground arith
of_bytes-to_bytes (suc n) p h =
    rw (of_bytes-snoc 0 (to_bytes n (p / 256)) (p % 256))
      (rw (of_bytes-to_bytes n (p / 256) (omega (arith, pow-suc 256 n))) (omega arith))

pub of_bytes-lt : (n : ℕ) (xs : List ℕ) → length xs ≡ n → AllBytes xs → of_bytes 0 xs < 256 ^ n
of_bytes-lt zero [] h all = unfold of_bytes in omega arith
of_bytes-lt zero (x ∷ xs) h all = absurd (omega arith)
of_bytes-lt (suc n) xs h all =
    let s = Snoc-of n xs h all in
    rw (s.whole, of_bytes-snoc 0 s.front s.last)
      (omega (arith, pow-suc 256 n, of_bytes-lt n s.front s.size s.front_bytes, s.last_byte))
