-- ===== src/Sunspec/Register/Shape.antt =====
-- The sizes of what `Bytes` in src/go/sunspec/common/register.go writes, and of what `Value` reads.
use ot_sim.Common.{
  ℕ, zero, suc, ◌-◌, ◌*◌, ◌≤◌, ◌≡◌, refl, Bool, true, false, is_some, or_else, some, List, [], ◌∷◌,
  ap, length, take, arith, length-replicate,
}
use mathlib.Core.Path.{subst}
use ot_sim.Float.{FloatOps}
use ot_sim.Modbus.Register.{to_bytes, read_word, of_bytes}
use ot_sim.Modbus.Register.Words.{length-to_bytes}
use ot_sim.Sunspec.Register.{
  DataType, acc16, acc32, acc64, bitfield16, bitfield32, enum16, enum32, float32, int16, int32,
  uint16, uint32, pad, sunssf, string8, string16, Register, nil, number, string, Result, ok, words,
  encode, decode, read_as, copied, bytes, internal,
}

abbrev pub is_text : DataType → Bool
is_text string8 = true
is_text string16 = true
is_text _ = false

read_word-some : (n : ℕ) (bs : List ℕ) → n ≤ length bs → (w : ℕ) × (read_word n bs ≡ some w)
unfolding read_word
read_word-some zero bs h = (0, refl)
read_word-some (suc n) bs h = (of_bytes 0 (take (suc n) bs), ground arith)

abbrev no_byte : ℕ
no_byte = 0

length-copied : (n : ℕ) (s : List ℕ) → length (copied n s) ≡ n
length-copied zero [] = refl
length-copied zero (b ∷ s) = omega (arith, length-replicate (0 - suc (length s)) no_byte)
length-copied (suc n) [] =
    rw (let p : suc n - 0 ≡ suc n = omega arith in p) (length-replicate (suc n) no_byte)
length-copied (suc n) (b ∷ s) =
    rw (let p : suc n - suc (length s) ≡ n - length s = omega arith in p)
      (ap suc (length-copied n s))

module _ {F : Type 0} (fl : FloatOps F) where
  -- the outcome of an encoding to `n` bytes
  abbrev pub Writes : ℕ → Result (List ℕ) → Type 0
  Writes n result = (bs : List ℕ) × (result ≡ ok bs) × (length bs ≡ n)

  Writes-word : (n p : ℕ) → Writes n (ok (to_bytes n p))
  Writes-word n p = (to_bytes n p, refl, length-to_bytes n p)

  -- A number is encoded to the words of its type.
  encode-Writes :
      (d : DataType) (p x : F)
      → is_text d ≡ false
      → is_some (words d) ≡ true
      → Writes (or_else (words d) 0 * 2) (encode fl d p (number x))
  encode-Writes acc16 p x h k = Writes-word 2 _
  encode-Writes bitfield16 p x h k = Writes-word 2 _
  encode-Writes enum16 p x h k = Writes-word 2 _
  encode-Writes int16 p x h k = Writes-word 2 _
  encode-Writes pad p x h k = Writes-word 2 _
  encode-Writes sunssf p x h k = Writes-word 2 _
  encode-Writes uint16 p x h k = Writes-word 2 _
  encode-Writes acc32 p x h k = Writes-word 4 _
  encode-Writes bitfield32 p x h k = Writes-word 4 _
  encode-Writes enum32 p x h k = Writes-word 4 _
  encode-Writes float32 p x h k = Writes-word 4 _
  encode-Writes int32 p x h k = Writes-word 4 _
  encode-Writes uint32 p x h k = Writes-word 4 _
  encode-Writes acc64 p x h k = Writes-word 8 _
  encode-Writes string8 p x h k = cc
  encode-Writes string16 p x h k = cc
  encode-Writes (DataType.other s) p x h k = cc

  encode-string :
      (d : DataType) (p : F) (s : List ℕ)
      → is_text d ≡ true
      → Writes (or_else (words d) 0 * 2) (encode fl d p (string s))
  encode-string string8 p s h = (copied 16 s, refl, length-copied 16 s)
  encode-string string16 p s h = (copied 32 s, refl, length-copied 32 s)
  encode-string acc16 p s h = cc
  encode-string bitfield16 p s h = cc
  encode-string enum16 p s h = cc
  encode-string int16 p s h = cc
  encode-string pad p s h = cc
  encode-string sunssf p s h = cc
  encode-string uint16 p s h = cc
  encode-string acc32 p s h = cc
  encode-string bitfield32 p s h = cc
  encode-string enum32 p s h = cc
  encode-string float32 p s h = cc
  encode-string int32 p s h = cc
  encode-string uint32 p s h = cc
  encode-string acc64 p s h = cc
  encode-string (DataType.other t) p s h = cc

  read_as-ok :
      (n : ℕ) (f : ℕ → F) (bs : List ℕ) → n ≤ length bs → (v : F) × (read_as fl n f bs ≡ ok v)
  read_as-ok n f bs h = let (w, e) = read_word-some n bs h in (f w, rw (e, read_as))

  -- A numeric register's data decode, whatever the power of ten.
  pub decode-ok :
      (d : DataType) (p : F) (bs : List ℕ)
      → is_text d ≡ false
      → is_some (words d) ≡ true
      → or_else (words d) 0 * 2 ≤ length bs
      → (v : F) × (decode fl d p bs ≡ ok v)
  decode-ok acc16 p bs h k size = read_as-ok 2 _ bs size
  decode-ok bitfield16 p bs h k size = read_as-ok 2 _ bs size
  decode-ok enum16 p bs h k size = read_as-ok 2 _ bs size
  decode-ok int16 p bs h k size = read_as-ok 2 _ bs size
  decode-ok pad p bs h k size = read_as-ok 2 _ bs size
  decode-ok sunssf p bs h k size = read_as-ok 2 _ bs size
  decode-ok uint16 p bs h k size = read_as-ok 2 _ bs size
  decode-ok acc32 p bs h k size = read_as-ok 4 _ bs size
  decode-ok bitfield32 p bs h k size = read_as-ok 4 _ bs size
  decode-ok enum32 p bs h k size = read_as-ok 4 _ bs size
  decode-ok float32 p bs h k size = read_as-ok 4 _ bs size
  decode-ok int32 p bs h k size = read_as-ok 4 _ bs size
  decode-ok uint32 p bs h k size = read_as-ok 4 _ bs size
  decode-ok acc64 p bs h k size = read_as-ok 8 _ bs size
  decode-ok string8 p bs h k size = cc
  decode-ok string16 p bs h k size = cc
  decode-ok (DataType.other s) p bs h k size = cc

  encode-internal :
      (d : DataType) (p : F) (r : Register F)
      → is_some (words d) ≡ true
      → Writes (or_else (words d) 0 * 2) (encode fl d p (internal fl d r))
  encode-internal acc16 p r h = encode-Writes acc16 p _ refl refl
  encode-internal bitfield16 p r h = encode-Writes bitfield16 p _ refl refl
  encode-internal enum16 p r h = encode-Writes enum16 p _ refl refl
  encode-internal int16 p r h = encode-Writes int16 p _ refl refl
  encode-internal pad p r h = encode-Writes pad p _ refl refl
  encode-internal sunssf p r h = encode-Writes sunssf p _ refl refl
  encode-internal uint16 p r h = encode-Writes uint16 p _ refl refl
  encode-internal acc32 p r h = encode-Writes acc32 p _ refl refl
  encode-internal bitfield32 p r h = encode-Writes bitfield32 p _ refl refl
  encode-internal enum32 p r h = encode-Writes enum32 p _ refl refl
  encode-internal float32 p r h = encode-Writes float32 p _ refl refl
  encode-internal int32 p r h = encode-Writes int32 p _ refl refl
  encode-internal uint32 p r h = encode-Writes uint32 p _ refl refl
  encode-internal acc64 p r h = encode-Writes acc64 p _ refl refl
  encode-internal string8 p r h = encode-string string8 p r.internal_string refl
  encode-internal string16 p r h = encode-string string16 p r.internal_string refl
  encode-internal (DataType.other s) p r h = cc

  words-count :
      (r : Register F) → words r.data_kind ≡ some r.count → or_else (words r.data_kind) 0 ≡ r.count
  words-count r h = rw h refl

  -- A number, or nil for the register's own value, fills the register's words.
  pub bytes-nil :
      (r : Register F) (sc : F)
      → words r.data_kind ≡ some r.count
      → Writes (r.count * 2) (bytes fl r nil sc)
  unfolding bytes
  bytes-nil r sc h =
      subst (λ n. Writes (n * 2) (bytes fl r nil sc)) (words-count r h)
        (encode-internal r.data_kind _ r (rw h refl))

  pub bytes-number :
      (r : Register F) (sc v : F)
      → words r.data_kind ≡ some r.count
      → is_text r.data_kind ≡ false
      → Writes (r.count * 2) (bytes fl r (number v) sc)
  unfolding bytes
  bytes-number r sc v h plain =
      subst (λ n. Writes (n * 2) (bytes fl r (number v) sc)) (words-count r h)
        (encode-Writes r.data_kind _ v plain (rw h refl))
