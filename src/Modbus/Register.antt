-- ===== src/Modbus/Register.antt =====
-- One Modbus register and its encoding: src/go/modbus/util/register.go. `binary.Write` and
-- `binary.Read` are big-endian words written out; float64 is the parameter `FloatOps`.
pub mod Words
pub mod Shape
pub mod Codec
use ot_sim.Common.{
  Comparable, ◌⊎◌, inl, inr, refl, arith, ◌≡◌, ◌↔◌, ℕ, zero, suc, ◌+◌, ◌-◌, ◌*◌, ◌/◌, nat_eq, ◌%◌,
  ◌^◌, Bool, true, false, ◌||◌, Option, none, some, List, [], ◌∷◌, ◌++◌, String, ◌==◌, ltb,
  string_eq, if◌then◌else◌, length, get_elem?, take,
}
use ot_sim.Common.Int.{ℤ, pos, negsuc, neg, abs}
use ot_sim.Float.{FloatOps, word_int}
use ot_sim.Modbus.Bits.{bytes_to_bits}

-- The field `Type`: the valid register types, or any other string.
pub data RegisterType : Type 0 where
  coil discrete input holding : RegisterType
  unknown : String → RegisterType

abbrev pub type_beq : RegisterType → RegisterType → Bool
type_beq coil coil = true
type_beq discrete discrete = true
type_beq input input = true
type_beq holding holding = true
type_beq (unknown s) (unknown t) = s == t
type_beq _ _ = false

pub type_beq_iff : (a b : RegisterType) → (type_beq a b ≡ true) ↔ (a ≡ b)
type_beq_iff (unknown s) (unknown t) = ground (arith, string_eq.same_iff s t)
type_beq_iff coil b = ground arith
type_beq_iff discrete b = ground arith
type_beq_iff input b = ground arith
type_beq_iff holding b = ground arith
type_beq_iff (unknown s) b = ground arith

instance abbrev pub type_eq : Comparable RegisterType
type_eq = record { same = type_beq; same_iff = type_beq_iff }

-- The field `DataType`; a coil's is the empty string, an `unknown`.
pub data DataType : Type 0 where
  int16 uint16 int32 uint32 int64 uint64 float double : DataType
  unknown : String → DataType

unfoldable pub register_type : String → RegisterType
register_type s =
    if s == "coil"
    then coil
    else if s == "discrete"
    then discrete
    else if s == "input"
    then input
    else if s == "holding"
    then holding
    else RegisterType.unknown s

unfoldable pub data_type : String → DataType
data_type s =
    if s == "int16"
    then int16
    else if s == "uint16"
    then uint16
    else if s == "int32"
    then int32
    else if s == "uint32"
    then uint32
    else if s == "int64"
    then int64
    else if s == "uint64"
    then uint64
    else if s == "float"
    then float
    else if s == "double"
    then double
    else DataType.unknown s

pub record Register : Type 0 where
  pub kind : RegisterType  -- Type
  pub data_kind : DataType  -- DataType
  pub addr : ℤ
  pub count : ℕ
  pub scaling : ℤ
  pub tag : String

pub data RegisterError : Type 0 where
  invalid_register_type invalid_data_type reading : RegisterError

-- Go's `(T, error)`, of which only one is read, or a run-time panic
pub data Result (A : Type 0) : Type 0 where
  ok : A → Result A
  err : RegisterError → Result A
  panics : Result A

pub Result-cases :
    {A : Type 0} (r : Result A)
    → ((a : A) × (r ≡ ok a)) ⊎ ((e : RegisterError) × (r ≡ err e)) ⊎ (r ≡ panics)
Result-cases (ok a) = inl (a, refl)
Result-cases (err e) = inr (inl (e, refl))
Result-cases panics = inr (inr refl)

abbrev pub is_word_register : RegisterType → Bool
is_word_register input = true
is_word_register holding = true
is_word_register _ = false

abbrev is_valid_type : RegisterType → Bool
is_valid_type (unknown s) = false
is_valid_type _ = true

abbrev pub is_valid_data_type : DataType → Bool
is_valid_data_type (unknown s) = false
is_valid_data_type _ = true

-- the `switch` that sets `Count`; for another data type it keeps what it was
abbrev pub words : DataType → ℕ → ℕ
words int16 _ = 1
words uint16 _ = 1
words int32 _ = 2
words uint32 _ = 2
words int64 _ = 4
words uint64 _ = 4
words float _ = 2
words double _ = 4
words (unknown _) count = count

-- A multiple of `u` that is nearest to `m`, the even one of two.
abbrev round_even : ℕ → ℕ → ℕ
round_even u m =
    let odd = 2 * (m % u) in
    m / u * u + (if ltb odd u then 0 else if ltb u odd then u else if m / u % 2 == 0 then 0 else u)

-- The float64 that is nearest to `m`: a multiple of the first unit, of `u`, 2 `u` and so on, of which
-- 2 ^ 53 are more than `m`; the search tries `k` units.
unfoldable pub nearest : ℕ → ℕ → ℕ → ℕ
nearest zero u m = m
nearest (suc k) u m =
    let rest = nearest k (2 * u) m in if ltb m (2 ^ 53 * u) then round_even u m else rest

-- `int(math.Abs(float64(n)))` of an `int` of 64 bits, on amd64: what is 2 ^ 63 or more as a float64
-- becomes the least `int`.
unfoldable pub float_abs : ℤ → ℤ
float_abs n = let m = nearest 11 1 (abs n) in if ltb m (2 ^ 63) then pos m else negsuc (2 ^ 63 - 1)

unfoldable pub init : Register → Result Register
init r =
    if is_valid_type r.kind
    then if is_word_register r.kind
      then if is_valid_data_type r.data_kind
        then ok (record r { count = words r.data_kind r.count; scaling = float_abs r.scaling })
        else err invalid_data_type
      else ok (record r { count = words r.data_kind r.count; scaling = float_abs r.scaling })
    else err invalid_register_type

-- A word of `n` bytes, most significant byte first.
unfoldable pub to_bytes : ℕ → ℕ → List ℕ
to_bytes zero p = []
to_bytes (suc n) p = to_bytes n (p / 256) ++ p % 256 ∷ []

unfoldable pub of_bytes : ℕ → List ℕ → ℕ
of_bytes acc [] = acc
of_bytes acc (b ∷ bs) = of_bytes (acc * 256 + b) bs

-- `binary.Read` of `n` bytes: an error where there are fewer, and what follows them is not read.
unfoldable pub read_word : ℕ → List ℕ → Option ℕ
unfolding of_bytes
read_word zero bs = some 0
read_word (suc n) bs = if ltb (length bs) (suc n) then none else some (of_bytes 0 (take (suc n) bs))

module _ {F : Type 0} (fl : FloatOps F) where
  -- value * math.Pow(10, float64(scaling))
  abbrev pub scaled_up : Register → F → F
  scaled_up r v = fl.mul v (fl.pow10 (fl.from_int r.scaling))

  -- float64(val) * math.Pow(10, -float64(scaling))
  abbrev pub scaled_down : Register → F → F
  scaled_down r v = fl.mul v (fl.pow10 (fl.negate (fl.from_int r.scaling)))

  abbrev scaled_word : DataType → Register → F → F
  scaled_word (unknown s) r v = v
  scaled_word float r v = v
  scaled_word double r v = v
  scaled_word _ r v = scaled_up r v

  -- the method `Scaled`
  unfoldable pub scaled : Register → F → F
  scaled r v = if is_word_register r.kind then scaled_word r.data_kind r v else v

  -- the `switch` of `Bytes` on the data type
  abbrev word_bytes : DataType → Register → F → Result (List ℕ)
  word_bytes int16 r v = ok (to_bytes 2 (fl.to_word true 16 (scaled_up r v)))
  word_bytes uint16 r v = ok (to_bytes 2 (fl.to_word false 16 (scaled_up r v)))
  word_bytes int32 r v = ok (to_bytes 4 (fl.to_word true 32 (scaled_up r v)))
  word_bytes uint32 r v = ok (to_bytes 4 (fl.to_word false 32 (scaled_up r v)))
  word_bytes int64 r v = ok (to_bytes 8 (fl.to_word true 64 (scaled_up r v)))
  word_bytes uint64 r v = ok (to_bytes 8 (fl.to_word false 64 (scaled_up r v)))
  word_bytes float r v = ok (to_bytes 4 (fl.float32_bits v))
  word_bytes double r v = ok (to_bytes 8 (fl.float64_bits v))
  word_bytes (unknown s) r v = err invalid_data_type

  abbrev type_bytes : RegisterType → Register → F → Result (List ℕ)
  type_bytes coil r v = ok (to_bytes 2 (if fl.is_zero v then 0 else 65280))
  type_bytes discrete r v = ok (to_bytes 2 (if fl.is_zero v then 0 else 65280))
  type_bytes input r v = word_bytes r.data_kind r v
  type_bytes holding r v = word_bytes r.data_kind r v
  type_bytes (unknown s) r v = err invalid_register_type

  unfoldable pub bytes : Register → F → Result (List ℕ)
  bytes r v = type_bytes r.kind r v

  abbrev read_as : ℕ → (ℕ → F) → List ℕ → Result F
  read_as n f bs = elim (read_word n bs) [ none ↦ err reading | some p ↦ ok (f p) ]

  -- a word read as an integer and scaled
  abbrev integer_as : Bool → ℕ → Register → ℕ → F
  integer_as signed w r p = scaled_down r (fl.from_int (word_int signed w p))

  abbrev word_value : DataType → Register → List ℕ → Result F
  word_value int16 r = read_as 2 (integer_as true 16 r)
  word_value uint16 r = read_as 2 (integer_as false 16 r)
  word_value int32 r = read_as 4 (integer_as true 32 r)
  word_value uint32 r = read_as 4 (integer_as false 32 r)
  word_value int64 r = read_as 8 (integer_as true 64 r)
  word_value uint64 r = read_as 8 (integer_as false 64 r)
  word_value float r = read_as 4 fl.of_float32_bits
  word_value double r = read_as 8 fl.of_float64_bits
  word_value (unknown s) r = λ _. err invalid_data_type

  -- `bits[0]`
  abbrev first_bit : List ℕ → Result F
  first_bit bs = elim (get_elem? (bytes_to_bits bs) 0) [
    | none ↦ panics
    | some b ↦ ok (fl.from_int (pos b))
  ]

  abbrev type_value : RegisterType → Register → List ℕ → Result F
  type_value coil r bs = first_bit bs
  type_value discrete r bs = first_bit bs
  type_value input r bs = word_value r.data_kind r bs
  type_value holding r bs = word_value r.data_kind r bs
  type_value (unknown s) r bs = err invalid_register_type

  unfoldable pub value : Register → List ℕ → Result F
  value r bs = type_value r.kind r bs
