-- ===== src/Sunspec/Register.antt =====
-- One SunSpec register and its encoding: src/go/sunspec/common/register.go, and the well-known
-- registers of src/go/sunspec/common/common.go. A Go string that is only copied or sliced is its
-- list of bytes.
pub mod Shape
use ot_sim.Common.{
  ℕ, zero, suc, ◌+◌, ◌-◌, Bool, true, false, Option, none, some, List, [], ◌∷◌, ◌++◌, String, ◌==◌,
  string_eq, if◌then◌else◌, length, take, replicate,
}
use ot_sim.Common.Int.{ℤ, pos}
use ot_sim.Float.{FloatOps, word_int}
use ot_sim.Modbus.Register.{to_bytes, read_word}

-- The field `DataType`; what is no case of a `switch` is `other`.
pub data DataType : Type 0 where
  acc16 acc32 acc64 bitfield16 bitfield32 enum16 enum32 float32 int16 int32 uint16 uint32 : DataType
  pad sunssf string8 string16 : DataType
  other : String → DataType

pub record Register (F : Type 0) : Type 0 where
  pub data_kind : DataType  -- DataType
  pub name : String
  pub model : ℤ
  pub count : ℕ
  pub scaling : F
  pub tag : String
  pub scale_register : String
  pub internal_value : F
  pub internal_string : List ℕ
  pub raw : Option (List ℕ)
  pub addr : ℤ

-- A value of Go's `any`, as far as the callers go.
pub data Any (F : Type 0) : Type 0 where
  nil : Any F
  number : F → Any F
  string : List ℕ → Any F

-- `(T, error)`, or a run-time panic
pub data Result (A : Type 0) : Type 0 where
  ok : A → Result A
  err panics : Result A

-- the `switch` of `Init`
abbrev pub words : DataType → Option ℕ
words acc16 = some 1
words bitfield16 = some 1
words enum16 = some 1
words int16 = some 1
words pad = some 1
words sunssf = some 1
words uint16 = some 1
words acc32 = some 2
words bitfield32 = some 2
words enum32 = some 2
words float32 = some 2
words int32 = some 2
words uint32 = some 2
words acc64 = some 4
words string8 = some 8
words string16 = some 16
words (other s) = none

-- `copy` of a string into a buffer of `n` zero bytes
abbrev pub copied : ℕ → List ℕ → List ℕ
copied n s = take n s ++ replicate (n - length s) 0

module _ {F : Type 0} (fl : FloatOps F) where
  unfoldable pub init : Register F → Option (Register F)
  init r = elim (words r.data_kind) [
    | none ↦ none
    | some n ↦ some record r { count = n; scaling = fl.abs r.scaling }
  ]

  -- `scaling`, or the register's own where it is 0
  abbrev pub scaling_of : Register F → F → F
  scaling_of r scaling = if fl.is_zero scaling then r.scaling else scaling

  abbrev pub internal : DataType → Register F → Any F
  internal string8 r = string r.internal_string
  internal string16 r = string r.internal_string
  internal _ r = number r.internal_value

  -- `value.(float64)` and `value.(string)`
  abbrev on_number : Any F → (F → List ℕ) → Result (List ℕ)
  on_number (number v) f = ok (f v)
  on_number _ f = panics

  abbrev on_string : Any F → ℕ → Result (List ℕ)
  on_string (string s) n = ok (copied n s)
  on_string _ n = panics

  -- the `switch` of `Bytes`, on a value that is not nil, with the power of ten
  abbrev pub encode : DataType → F → Any F → Result (List ℕ)
  encode acc16 p v = on_number v (λ x. to_bytes 2 (fl.to_word false 16 (fl.mul x p)))
  encode uint16 p v = on_number v (λ x. to_bytes 2 (fl.to_word false 16 (fl.mul x p)))
  encode acc32 p v = on_number v (λ x. to_bytes 4 (fl.to_word false 32 (fl.mul x p)))
  encode uint32 p v = on_number v (λ x. to_bytes 4 (fl.to_word false 32 (fl.mul x p)))
  encode acc64 p v = on_number v (λ x. to_bytes 8 (fl.to_word false 64 (fl.mul x p)))
  encode bitfield16 p v = on_number v (λ x. to_bytes 2 (fl.to_word false 16 x))
  encode enum16 p v = on_number v (λ x. to_bytes 2 (fl.to_word false 16 x))
  encode bitfield32 p v = on_number v (λ x. to_bytes 4 (fl.to_word false 32 x))
  encode enum32 p v = on_number v (λ x. to_bytes 4 (fl.to_word false 32 x))
  encode float32 p v = on_number v (λ x. to_bytes 4 (fl.float32_bits x))
  encode int16 p v = on_number v (λ x. to_bytes 2 (fl.to_word true 16 (fl.mul x p)))
  encode int32 p v = on_number v (λ x. to_bytes 4 (fl.to_word true 32 (fl.mul x p)))
  encode string8 p v = on_string v 16
  encode string16 p v = on_string v 32
  encode pad p v = on_number v (λ x. to_bytes 2 (fl.to_word true 16 x))
  encode sunssf p v = on_number v (λ x. to_bytes 2 (fl.to_word true 16 x))
  encode (other s) p v = err  -- `binary.Write` of nil

  abbrev pub not_nil : Any F → Any F → Any F
  not_nil nil d = d
  not_nil v d = v

  unfoldable pub bytes : Register F → Any F → F → Result (List ℕ)
  bytes r v scaling =
      encode r.data_kind (fl.pow10 (fl.negate (scaling_of r scaling)))
        (not_nil v (internal r.data_kind r))

  abbrev pub read_as : ℕ → (ℕ → F) → List ℕ → Result F
  read_as n f bs = elim (read_word n bs) [ none ↦ err | some p ↦ ok (f p) ]

  abbrev as_int : Bool → ℕ → ℕ → F
  as_int signed w p = fl.from_int (word_int signed w p)

  -- the `switch` of `Value`, with the power of ten
  abbrev pub decode : DataType → F → List ℕ → Result F
  decode acc16 p = read_as 2 (λ w. fl.mul (as_int false 16 w) p)
  decode uint16 p = read_as 2 (λ w. fl.mul (as_int false 16 w) p)
  decode acc32 p = read_as 4 (λ w. fl.mul (as_int false 32 w) p)
  decode uint32 p = read_as 4 (λ w. fl.mul (as_int false 32 w) p)
  decode acc64 p = read_as 8 (λ w. fl.mul (as_int false 64 w) p)
  decode bitfield16 p = read_as 2 (as_int false 16)
  decode enum16 p = read_as 2 (as_int false 16)
  decode bitfield32 p = read_as 4 (as_int false 32)
  decode enum32 p = read_as 4 (as_int false 32)
  decode float32 p = read_as 4 fl.of_float32_bits
  decode int16 p = read_as 2 (λ w. fl.mul (as_int true 16 w) p)
  decode int32 p = read_as 4 (λ w. fl.mul (as_int true 32 w) p)
  decode pad p = read_as 2 (as_int true 16)
  decode sunssf p = read_as 2 (as_int true 16)
  decode string8 p = λ _. err
  decode string16 p = λ _. err
  decode (other s) p = λ _. err

  -- `data` is `none` for nil.
  unfoldable pub value : Register F → Option (List ℕ) → F → Result F
  value r none scaling = ok r.internal_value
  value r (some bs) scaling = decode r.data_kind (fl.pow10 (scaling_of r scaling)) bs

  -- the method `String`
  abbrev text_of : DataType → List ℕ → Result (List ℕ)
  text_of string8 bs = ok bs
  text_of string16 bs = ok bs
  text_of _ bs = err

  unfoldable pub text : Register F → Option (List ℕ) → Result (List ℕ)
  text r none = ok r.internal_string
  text r (some bs) = text_of r.data_kind bs

  abbrev pub named : DataType → String → F → Register F
  named d name v = record {
    data_kind = d;
    name = name;
    model = pos 0;
    count = 0;
    scaling = fl.from_int (pos 0);
    tag = "";
    scale_register = "";
    internal_value = v;
    internal_string = [];
    raw = none;
    addr = pos 0;
  }

  -- The three well-known registers, before the `Init` in `init`.
  unfoldable pub identifier_register : Register F
  identifier_register = named uint32 "SunSpec_Identifier" (fl.from_int (pos 1400204883))

  unfoldable pub end_register : Register F
  end_register = named uint16 "SunSpec_EndRegister" (fl.from_int (pos 65535))

  unfoldable pub end_register_length : Register F
  end_register_length = named uint16 "SunSpec_EndRegister_Length" (fl.from_int (pos 0))
