-- ===== src/Modbus/Register/Shape.antt =====
-- What `Init` establishes, and the size of what `Bytes` writes and `Value` reads after it.
use ot_sim.Common.{ℕ, zero, suc, ◌^◌, ◌*◌, ◌<◌, ◌≤◌, ◌≡◌, refl, true, none, List, length, arith}
use ot_sim.Common.Int.{ℤ, pos, abs}
use ot_sim.Float.{FloatOps}
use ot_sim.Modbus.Bits.Positions.{AllBytes}
use ot_sim.Modbus.Register.{
  RegisterType, coil, discrete, input, holding, DataType, int16, uint16, int32, uint32, int64,
  uint64, float, double, Register, Result, ok, err, reading, init, float_abs, nearest,
  is_word_register, is_valid_data_type, words, bytes, type_bytes, type_value, read_as, word_bytes,
  value, word_value, read_word, to_bytes,
}
use ot_sim.Modbus.Register.Words.{length-to_bytes, AllBytes-to_bytes}

-- `Init` has made the register.
abbrev pub IsReady : Register → Type 0
IsReady r = (q : Register) × (init q ≡ ok r)

-- A scaling whose digits a float64 holds is rounded to itself, and loses its sign.
pub float_abs_exact : (n : ℤ) → abs n < 2 ^ 53 → float_abs n ≡ pos (abs n)
unfolding float_abs nearest
float_abs_exact n small = ground arith

pub init_lem :
    (r r' : Register)
    → init r ≡ ok r'
    → (init r' ≡ ok (record r' { scaling = float_abs r'.scaling }))
      × (r'.kind ≡ r.kind)
      × (r'.data_kind ≡ r.data_kind)
      × (r'.addr ≡ r.addr)
      × (r'.tag ≡ r.tag)
      × (abs r.scaling < 2 ^ 53 → r'.scaling ≡ pos (abs r.scaling))
      × (is_word_register r.kind ≡ true
          → (is_valid_data_type r.data_kind ≡ true) × (0 < r'.count) × (r'.count ≤ 4))
unfolding init
init_lem r r' h = ground (arith, float_abs_exact r.scaling)

pub word_count :
    (r : Register)
    → IsReady r
    → is_word_register r.kind ≡ true
    → (is_valid_data_type r.data_kind ≡ true) × (r.count ≡ words r.data_kind 0) × (0 < r.count)
unfolding init
word_count r (q, made) word = ground arith

pub word_count_few : (r : Register) → IsReady r → is_word_register r.kind ≡ true → r.count ≤ 4
unfolding init
word_count_few r (q, made) word = ground arith

module _ {F : Type 0} (fl : FloatOps F) where
  -- the outcome of an encoding to `n` bytes
  abbrev pub Writes : ℕ → Result (List ℕ) → Type 0
  Writes n result = (bs : List ℕ) × (result ≡ ok bs) × (length bs ≡ n) × AllBytes bs

  Writes-to_bytes : (n p : ℕ) → Writes n (ok (to_bytes n p))
  Writes-to_bytes n p = (to_bytes n p, refl, length-to_bytes n p, AllBytes-to_bytes n p)

  word_bytes-Writes :
      (d : DataType) (r : Register) (v : F)
      → is_valid_data_type d ≡ true
      → Writes (2 * words d 0) (word_bytes fl d r v)
  word_bytes-Writes int16 r v h = Writes-to_bytes 2 _
  word_bytes-Writes uint16 r v h = Writes-to_bytes 2 _
  word_bytes-Writes int32 r v h = Writes-to_bytes 4 _
  word_bytes-Writes uint32 r v h = Writes-to_bytes 4 _
  word_bytes-Writes int64 r v h = Writes-to_bytes 8 _
  word_bytes-Writes uint64 r v h = Writes-to_bytes 8 _
  word_bytes-Writes float r v h = Writes-to_bytes 4 _
  word_bytes-Writes double r v h = Writes-to_bytes 8 _
  word_bytes-Writes (DataType.unknown s) r v h = cc

  type_bytes-Writes :
      (k : RegisterType) (r : Register) (v : F)
      → is_word_register k ≡ true
      → is_valid_data_type r.data_kind ≡ true
      → Writes (2 * words r.data_kind 0) (type_bytes fl k r v)
  type_bytes-Writes input r v h d = word_bytes-Writes r.data_kind r v d
  type_bytes-Writes holding r v h d = word_bytes-Writes r.data_kind r v d
  type_bytes-Writes coil r v h d = cc
  type_bytes-Writes discrete r v h d = cc
  type_bytes-Writes (RegisterType.unknown s) r v h d = cc

  -- A ready input or holding register encodes every value, to two bytes for each of its words.
  pub bytes-Writes :
      (r : Register) (v : F)
      → IsReady r
      → is_word_register r.kind ≡ true
      → Writes (2 * r.count) (bytes fl r v)
  unfolding bytes
  bytes-Writes r v ready word =
      let w = word_count r ready word in
      let (bs, e, size, all) = type_bytes-Writes r.kind r v word w.0 in
      (bs, e, omega (arith, size, w.1), all)

  short_read : (n : ℕ) (bs : List ℕ) → length bs < n → read_word n bs ≡ none
  unfolding read_word
  short_read zero bs h = elim h [ ]
  short_read (suc n) bs h = ground arith

  read_as_short :
      (n : ℕ) (f : ℕ → F) (bs : List ℕ) → length bs < n → read_as fl n f bs ≡ err reading
  read_as_short n f bs h = ground (arith, short_read n bs h)

  word_value_short :
      (d : DataType) (r : Register) (bs : List ℕ)
      → is_valid_data_type d ≡ true
      → length bs < 2 * words d 0
      → word_value fl d r bs ≡ err reading
  word_value_short int16 r bs h lt = read_as_short 2 _ bs lt
  word_value_short uint16 r bs h lt = read_as_short 2 _ bs lt
  word_value_short int32 r bs h lt = read_as_short 4 _ bs lt
  word_value_short uint32 r bs h lt = read_as_short 4 _ bs lt
  word_value_short int64 r bs h lt = read_as_short 8 _ bs lt
  word_value_short uint64 r bs h lt = read_as_short 8 _ bs lt
  word_value_short float r bs h lt = read_as_short 4 _ bs lt
  word_value_short double r bs h lt = read_as_short 8 _ bs lt
  word_value_short (DataType.unknown s) r bs h lt = cc

  type_value_short :
      (k : RegisterType) (r : Register) (bs : List ℕ)
      → is_word_register k ≡ true
      → is_valid_data_type r.data_kind ≡ true
      → length bs < 2 * words r.data_kind 0
      → type_value fl k r bs ≡ err reading
  type_value_short input r bs h d lt = word_value_short r.data_kind r bs d lt
  type_value_short holding r bs h d lt = word_value_short r.data_kind r bs d lt
  type_value_short coil r bs h d lt = cc
  type_value_short discrete r bs h d lt = cc
  type_value_short (RegisterType.unknown s) r bs h d lt = cc

  -- A ready input or holding register refuses data of fewer bytes than its words hold.
  pub value_short :
      (r : Register) (bs : List ℕ)
      → IsReady r
      → is_word_register r.kind ≡ true
      → length bs < 2 * r.count
      → value fl r bs ≡ err reading
  unfolding value
  value_short r bs ready word lt =
      let w = word_count r ready word in type_value_short r.kind r bs word w.0 (omega (arith, w.1))
