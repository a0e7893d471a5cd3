-- ===== src/Tests/Models.antt =====
-- The data of a model that a SunSpec client reads.
use ot_sim.Common.{
  ℕ, ◌*◌, ◌≡◌, refl, true, false, Option, none, some, List, [], ◌∷◌, String, string_eq, slice, drop,
  take, get_elem?,
}
use ot_sim.Common.Int.{ℤ, pos, ◌+ℤ◌}
use ot_sim.Common.Dict.{Dict, lookup, insert}
use ot_sim.Float.Decimal.{Decimal, decimal_ops}
use ot_sim.Sunspec.Model.{ScaleFactor, SchemaPoint, Schema}
use ot_sim.Sunspec.Register.{DataType, Register, Result, ok, init}
use ot_sim.Sunspec.Server.Configure.Layout.{sizes}
use ot_sim.Sunspec.Client.{generic, model_register, model_registers, model_data}
use ot_sim.Sunspec.Client.Data.{HasData, model_data-HasData}

abbrev point : String → DataType → ℕ → SchemaPoint Decimal
point name kind size = record {
  name = name;
  kind = kind;
  size = size;
  sf = ScaleFactor.nil;
  writable = false;
}

abbrev got : {A : Type 0} → A → Option A → A
got a none = a
got a (some b) = b

abbrev writable_model : Schema Decimal
writable_model =
    point "ID" DataType.uint16 1
    ∷ point "L" DataType.uint16 1
    ∷ point "A" DataType.uint16 1
    ∷ record (point "B" DataType.uint16 1) { writable = true }
    ∷ []

abbrev one_model : ℤ → Option (Schema Decimal)
one_model id = some writable_model

abbrev model_bytes : List ℕ
model_bytes = 0 ∷ 5 ∷ 0 ∷ 6 ∷ []

abbrev data_of : Result (Dict String (Register Decimal)) → Dict String (Register Decimal)
data_of (ok regs) = regs
data_of Result.err = []
data_of Result.panics = []

abbrev registers : Dict String (Register Decimal)
registers = data_of (model_data decimal_ops one_model (some model_bytes) (pos 9) (pos 100))

abbrev second : Register Decimal
second = got (generic decimal_ops) (lookup "B" registers)

model_data-HasData_example :
    ("B" ≡ second.name)
    × (k : ℕ) × (p : SchemaPoint Decimal) × (get_elem? (drop 2 writable_model) k ≡ some p)
    × HasData decimal_ops
        (pos 9)
        (pos 100)
        model_bytes
        (sizes (take k (drop 2 writable_model)) * 2)
        p
        second
unfolding model_data model_registers model_register init slice lookup insert ◌+ℤ◌
model_data-HasData_example =
    model_data-HasData decimal_ops one_model (pos 9) (pos 100) model_bytes writable_model registers
      "B" second refl refl refl
