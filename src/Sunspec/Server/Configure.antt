-- ===== src/Sunspec/Server/Configure.antt =====
-- `New` and `Configure` of src/go/sunspec/server/server.go: the layout of the models in the address space.
-- The embedded schemas are the parameter `schema`, and `bytes_of` gives the bytes of a string.

pub mod Ready
pub mod Layout
use ot_sim.Common.{
  ℕ, ◌+◌, Bool, true, false, Option, none, some, List, [], ◌∷◌, ◌++◌, String, ◌==◌, string_eq,
  if◌then◌else◌, or_else, length, get_elem?, set, starts_with,
}
use ot_sim.Common.Int.{ℤ, pos, int_eq}
use ot_sim.Common.Dict.{Dict, lookup, insert}
use ot_sim.Config.{
  Xml, Conversions, missing_id, invalid_id, missing_schema, unknown_scaling, invalid_register,
  missing_point, missing_model, Configured, done, failed, ◌>>=◌, fold_all,
}
use ot_sim.Float.{FloatOps}
use ot_sim.Sunspec.Model.{
  ScaleFactor, nil, int, float64, string, unknown, SchemaPoint, Schema, get_model_length,
}
use ot_sim.Sunspec.Register.{
  DataType, other, Register, init, identifier_register, end_register, end_register_length,
}
use ot_sim.Sunspec.Register.Shape.{is_text}
use ot_sim.Sunspec.Server.{Server}

-- what `Configure` has laid out: the next address, and whether model 1 was among the models
pub record Progress (F Raw : Type 0) : Type 0 where
  pub server : Server F Raw
  pub addr : ℕ
  pub model1 : Bool

-- `strings.HasPrefix(r.DataType, "string")`
abbrev pub is_string : DataType → Bool
is_string (other s) = starts_with s "string"
is_string d = is_text d

module _ {F : Type 0} (fl : FloatOps F) where
  -- the `switch` over a scale factor
  abbrev pub scaled : ScaleFactor F → Register F → Configured (Register F)
  scaled nil r = done r
  scaled (int n) r = done (record r { scaling = fl.from_int n })
  scaled (float64 v) r = done (record r { scaling = v })
  scaled (string s) r = done (record r { scale_register = s })
  scaled unknown r = failed unknown_scaling

  abbrev value_of : ℤ → Schema F → SchemaPoint F → F
  value_of id model p =
      if p.name == "L"
      then fl.from_int (pos (get_model_length model))
      else if p.name == "ID"
      then fl.from_int id
      else fl.from_int (pos 0)

  abbrev pub fresh : ℤ → Schema F → SchemaPoint F → Register F
  fresh id model p = record {
    data_kind = p.kind;
    name = p.name;
    model = id;
    count = 0;
    scaling = fl.from_int (pos 0);
    tag = "";
    scale_register = "";
    internal_value = value_of id model p;
    internal_string = [];
    raw = none;
    addr = pos 0;
  }

  abbrev initialized : Register F → Configured (Register F)
  initialized r = elim (init fl r) [ none ↦ failed invalid_register | some r' ↦ done r' ]

  -- the register of a point of the schema
  unfoldable pub make_register : ℤ → Schema F → SchemaPoint F → Configured (Register F)
  make_register id model p = scaled p.sf (fresh id model p) >>= (λ r. initialized r)

module _ {F Raw : Type 0} where
  -- `this.registers[addr] = &r` for a register that is new
  abbrev pub place : ℕ → Register F → Server F Raw → Server F Raw
  place addr r s = record s {
    heap = s.heap ++ r ∷ [];
    registers = insert (pos addr) (length s.heap) s.registers;
  }

  abbrev pub add_register : SchemaPoint F → Register F → Progress F Raw → Progress F Raw
  add_register p r now =
      let s = now.server in
      record now {
        server = record (place now.addr r s) { points = insert p.name (length s.heap) s.points };
        addr = now.addr + p.size;
      }

module _ {F Raw : Type 0} (fl : FloatOps F) where
  -- the loop over the points of a schema
  unfoldable pub add_points : ℤ → Schema F → Schema F → Progress F Raw → Configured (Progress F Raw)
  add_points id model [] now = done now
  add_points id model (p ∷ ps) now = elim (make_register fl id model p) [
    | failed e ↦ failed e
    | done r ↦ add_points id model ps (add_register p r now)
  ]

-- the register after its setting was read, with `bytes_of` for the bytes of a string
abbrev pub set_register :
    {F : Type 0} → (String → List ℕ) → String → Register F → Option F → Register F
set_register bytes_of text r number =
    if is_string r.data_kind
    then record r { internal_string = bytes_of text }
    else elim number [ some v ↦ record r { internal_value = v } | none ↦ record r { tag = text } ]

abbrev pub set_tag :
    {F : Type 0} → FloatOps F → String → Register F → Option F → Dict String F → Dict String F
set_tag fl text r number tags =
    if is_string r.data_kind
    then tags
    else elim number [ some v ↦ tags | none ↦ insert text (fl.from_int (pos 0)) tags ]

abbrev pub model_id : {F : Type 0} → Conversions F → Option String → Configured ℤ
model_id conv none = failed missing_id
model_id conv (some text) =
    let (n, wrong) = conv.atoi text in if wrong then failed invalid_id else done n

abbrev pub found : {F : Type 0} → Option (Schema F) → Configured (Schema F)
found none = failed missing_schema
found (some model) = done model

-- a well-known register, after the `Init` in `init`
abbrev pub well_known : {F : Type 0} → FloatOps F → Register F → Register F
well_known fl r = or_else (init fl r) r

module _ {F Raw E : Type 0} (fl : FloatOps F) (xml : Xml E) (conv : Conversions F)
    (schema : ℤ → Option (Schema F)) (bytes_of : String → List ℕ) where
  abbrev pub set_point : ℕ → E → ℕ → Register F → Server F Raw → Server F Raw
  set_point addr child ptr r s =
      let text = xml.text child in
      record s {
        heap = set s.heap ptr (set_register bytes_of text r (conv.parse_float text));
        tags = set_tag fl text r (conv.parse_float text) s.tags;
        registers = insert (pos addr) ptr s.registers;
      }

  -- one of the model's child elements; no pointer of `points` dangles
  unfoldable pub add_setting : ℕ → E → Server F Raw → Configured (Server F Raw)
  add_setting addr child s = elim (lookup (xml.tag child) s.points) [
    | none ↦ failed missing_point
    | some ptr ↦ elim (get_elem? s.heap ptr) [
      | none ↦ failed missing_point
      | some r ↦ done (set_point addr child ptr r s)
    ]
  ]

  abbrev marked : ℤ → Progress F Raw → Progress F Raw
  marked id now = if id == pos 1 then record now { model1 = true } else now

  abbrev add_settings : E → Progress F Raw → Configured (Progress F Raw)
  add_settings child now =
      fold_all (add_setting now.addr) (xml.child_elements child) now.server
      >>= (λ s. done (record now { server = s }))

  -- the element `model`
  unfoldable pub add_model : E → Progress F Raw → Configured (Progress F Raw)
  add_model child now = model_id conv (xml.select_attr "id" child) >>= (λ id.
      found (schema id) >>= (λ model.
        add_points fl id model model now
        >>= (λ next. add_settings child next >>= (λ last. done (marked id last)))))

  unfoldable pub configure_child : E → Progress F Raw → Configured (Progress F Raw)
  configure_child child now =
      let name = xml.tag child in
      let text = xml.text child in
      if name == "pull-endpoint"
      then done (record now { server = record now.server { pull_endpoint = text } })
      else if name == "pub-endpoint"
      then done (record now { server = record now.server { pub_endpoint = text } })
      else if name == "endpoint"
      then done (record now { server = record now.server { endpoint = text } })
      else if name == "model"
      then add_model child now
      else done now

  -- the end registers, and the check for model 1
  abbrev pub closed : Progress F Raw → Configured (Server F Raw)
  closed now =
      if now.model1
      then done (
          place (now.addr + 1) (well_known fl (end_register_length fl))
            (place now.addr (well_known fl (end_register fl)) now.server))
      else failed missing_model

  abbrev pub opened : Server F Raw → Progress F Raw
  opened s = record {
    server = place 40000 (well_known fl (identifier_register fl)) s;
    addr = 40002;
    model1 = false;
  }

  unfoldable pub configure : E → Server F Raw → Configured (Server F Raw)
  configure e s = fold_all configure_child (xml.child_elements e) (opened s) >>= (λ now. closed now)

unfoldable pub new : {F Raw : Type 0} → String → Server F Raw
new name = record {
  pull_endpoint = "";
  pub_endpoint = "";
  name = name;
  endpoint = "";
  heap = [];
  registers = [];
  points = [];
  tags = [];
  sent = [];
}
