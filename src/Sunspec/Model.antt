-- ===== src/Sunspec/Model.antt =====
-- A model's schema, as far as the modules read it, and its length: src/go/sunspec/common/schema.go.
-- The embedded JSON files are a parameter of the server.
use ot_sim.Common.{ℕ, ◌+◌, List, [], ◌∷◌, String, Bool, ltb, nat_eq, if◌then◌else◌}
use ot_sim.Common.Int.{ℤ}
use ot_sim.Sunspec.Register.{DataType}

-- the field `Sf`, of type `any`
pub data ScaleFactor (F : Type 0) : Type 0 where
  nil : ScaleFactor F
  int : ℤ → ScaleFactor F
  float64 : F → ScaleFactor F
  string : String → ScaleFactor F
  unknown : ScaleFactor F

-- `kind` is the point's type, a string type already with its size behind it, as both modules build
-- it.
pub record SchemaPoint (F : Type 0) : Type 0 where
  pub name : String
  pub kind : DataType
  pub size : ℕ
  pub sf : ScaleFactor F
  pub writable : Bool

abbrev pub Schema : Type 0 → Type 0
Schema F = List (SchemaPoint F)

-- the loop of `GetModelLength` from the index `idx`
unfoldable pub length_from : {F : Type 0} → ℕ → Schema F → ℕ → ℕ
length_from idx [] acc = acc
length_from idx (p ∷ ps) acc = length_from (idx + 1) ps (if ltb idx 2 then acc else acc + p.size)

unfoldable pub get_model_length : {F : Type 0} → Schema F → ℕ
unfolding length_from
get_model_length model = length_from 0 model 0
