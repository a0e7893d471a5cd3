-- ===== src/Modbus/Register/Codec.antt =====
-- Decoding the bytes of a register and encoding the value gives the bytes back.
use ot_sim.Common.{
  ℕ, suc, ◌*◌, ◌^◌, ◌<◌, ◌≤◌, ◌≡◌, refl, ◌≢◌, true, false, Bool, some, List, [], ◌∷◌, length, arith,
  ap, take, ◌∙◌,
}
use ot_sim.Common.Int.{ℤ, pos}
use ot_sim.Float.{FloatOps, FloatLaws, is_nan32, word_int}
use ot_sim.Modbus.Bits.Positions.{AllBytes}
use ot_sim.Modbus.Register.{
  RegisterType, coil, discrete, input, holding, DataType, int16, uint16, int32, uint32, int64,
  uint64, float, double, Register, Result, ok, is_word_register, words, bytes, word_bytes,
  type_bytes, value, word_value, type_value, read_word, read_as, of_bytes, to_bytes, scaled_up,
  scaled_down,
}
use ot_sim.Modbus.Register.Words.{to_bytes-of_bytes, of_bytes-lt}
use ot_sim.Modbus.Register.Shape.{IsReady, word_count}

take_all {ℓ} : {A : Type ℓ} (xs : List A) → take (length xs) xs ≡ xs
take_all [] = refl
take_all (x ∷ xs) = ap (λ t. x ∷ t) (take_all xs)

read_word_all :
    (n : ℕ) (bs : List ℕ) → length bs ≡ suc n → read_word (suc n) bs ≡ some (of_bytes 0 bs)
unfolding read_word
read_word_all n bs h =
    let e : take (suc n) bs ≡ bs = rw (← h) (take_all bs) in ground (arith, ap (of_bytes 0) e)

module _ {F : Type 0} (fl : FloatOps F) (laws : FloatLaws fl) where
  -- Where no digit is lost: 16- and 32-bit integers without scaling, single-precision numbers that
  -- are not NaN, and all double-precision numbers. A 64-bit integer may exceed what a float64 holds.
  abbrev pub IsExact : DataType → ℤ → List ℕ → Type 0
  IsExact int16 s bs = s ≡ pos 0
  IsExact uint16 s bs = s ≡ pos 0
  IsExact int32 s bs = s ≡ pos 0
  IsExact uint32 s bs = s ≡ pos 0
  IsExact float s bs = is_nan32 (of_bytes 0 bs) ≢ true
  IsExact double s bs = Unit {0}
  IsExact _ s bs = ⊥

  -- the two directions in a row
  abbrev pub RoundTrip : (List ℕ → Result F) → (F → Result (List ℕ)) → List ℕ → Type 0
  RoundTrip decode encode bs = (v : F) × (decode bs ≡ ok v) × (encode v ≡ ok bs)

  word_RoundTrip :
      (n : ℕ) (of : ℕ → F) (to : F → ℕ) (bs : List ℕ)
      → length bs ≡ suc n
      → AllBytes bs
      → to (of (of_bytes 0 bs)) ≡ of_bytes 0 bs
      → RoundTrip (read_as fl (suc n) of) (λ v. ok (to_bytes (suc n) (to v))) bs
  word_RoundTrip n of to bs size all e = (
    of (of_bytes 0 bs),
    ground (arith, read_word_all n bs size),
    ap ok (ap (to_bytes (suc n)) e ∙ to_bytes-of_bytes (suc n) bs size all),
  )

  unscaled : (r : Register) (v : F) → r.scaling ≡ pos 0 → scaled_up fl r (scaled_down fl r v) ≡ v
  unscaled r v e =
      ap
        (λ (s : ℤ).
          fl.mul (fl.mul v (fl.pow10 (fl.negate (fl.from_int s)))) (fl.pow10 (fl.from_int s)))
        e
      ∙ (ap (λ x. fl.mul x (fl.pow10 (fl.from_int (pos 0)))) (laws.mul-pow10-negate_zero v)
          ∙ laws.mul-pow10_zero v)

  integer_exact :
      (signed : Bool) (w p : ℕ) (r : Register)
      → 0 < w
      → w ≤ 32
      → p < 2 ^ w
      → r.scaling ≡ pos 0
      → fl.to_word signed w (scaled_up fl r (scaled_down fl r (fl.from_int (word_int signed w p))))
        ≡ p
  integer_exact signed w p r hw small h e =
      ap (fl.to_word signed w) (unscaled r _ e) ∙ laws.to_word-from_int signed w p hw small h

  word_value-RoundTrip :
      (d : DataType) (r : Register) (bs : List ℕ)
      → length bs ≡ 2 * words d 0
      → AllBytes bs
      → IsExact d r.scaling bs
      → RoundTrip (word_value fl d r) (word_bytes fl d r) bs
  word_value-RoundTrip int16 r bs size all e =
      word_RoundTrip 1 _ _ bs size all
        (integer_exact true 16 _ r (omega arith) (omega arith) (of_bytes-lt 2 bs size all) e)
  word_value-RoundTrip uint16 r bs size all e =
      word_RoundTrip 1 _ _ bs size all
        (integer_exact false 16 _ r (omega arith) (omega arith) (of_bytes-lt 2 bs size all) e)
  word_value-RoundTrip int32 r bs size all e =
      word_RoundTrip 3 _ _ bs size all
        (integer_exact true 32 _ r (omega arith) (omega arith) (of_bytes-lt 4 bs size all) e)
  word_value-RoundTrip uint32 r bs size all e =
      word_RoundTrip 3 _ _ bs size all
        (integer_exact false 32 _ r (omega arith) (omega arith) (of_bytes-lt 4 bs size all) e)
  word_value-RoundTrip float r bs size all e =
      word_RoundTrip 3 _ _ bs size all
        (laws.float32_bits-of_float32_bits _ (of_bytes-lt 4 bs size all) e)
  word_value-RoundTrip double r bs size all e =
      word_RoundTrip 7 _ _ bs size all
        (laws.float64_bits-of_float64_bits _ (of_bytes-lt 8 bs size all))
  word_value-RoundTrip int64 r bs size all e = absurd e
  word_value-RoundTrip uint64 r bs size all e = absurd e
  word_value-RoundTrip (DataType.unknown s) r bs size all e = absurd e

  type_value-RoundTrip :
      (k : RegisterType) (r : Register) (bs : List ℕ)
      → is_word_register k ≡ true
      → length bs ≡ 2 * words r.data_kind 0
      → AllBytes bs
      → IsExact r.data_kind r.scaling bs
      → RoundTrip (type_value fl k r) (type_bytes fl k r) bs
  type_value-RoundTrip input r bs h = word_value-RoundTrip r.data_kind r bs
  type_value-RoundTrip holding r bs h = word_value-RoundTrip r.data_kind r bs
  type_value-RoundTrip coil r bs h = λ size all e. cc
  type_value-RoundTrip discrete r bs h = λ size all e. cc
  type_value-RoundTrip (RegisterType.unknown s) r bs h = λ size all e. cc

  -- A ready input or holding register decodes data of its size to a value that it encodes to the
  -- same data, where its data type is exact on them.
  pub value-RoundTrip :
      (r : Register) (bs : List ℕ)
      → IsReady r
      → is_word_register r.kind ≡ true
      → length bs ≡ 2 * r.count
      → AllBytes bs
      → IsExact r.data_kind r.scaling bs
      → RoundTrip (value fl r) (bytes fl r) bs
  unfolding value bytes
  value-RoundTrip r bs ready word size all e =
      let w = word_count r ready word in
      type_value-RoundTrip r.kind r bs word (omega (arith, size, w.1)) all e
