-- ===== src/Modbus/Server/Configure.antt =====
-- `Configure` of src/go/modbus/server/server.go.
pub mod Ready
pub mod Serves
use ot_sim.Common.{
  Bool, Option, none, some, List, [], ◌∷◌, String, ◌==◌, string_eq, if◌then◌else◌, or_else,
}
use ot_sim.Common.Int.{ℤ, pos, int_eq}
use ot_sim.Common.Dict.{Dict, lookup, insert}
use ot_sim.Config.{Xml, Conversions, invalid_unit_id, Configured, done, failed, ◌>>=◌, fold_all}
use ot_sim.Float.{FloatOps}
use ot_sim.Modbus.Config.{number, serial_config, read_register}
use ot_sim.Modbus.Register.{RegisterType, Register, type_eq}
use ot_sim.Modbus.Server.State.{Table, Server}

module _ {F Raw : Type 0} (fl : FloatOps F) where
  -- the end of the case "register"
  unfoldable pub add_register : Register → Server F Raw → Server F Raw
  add_register r s = record s {
    registers =
        insert r.kind (insert r.addr r (or_else (lookup r.kind s.registers) [])) s.registers;
    tags = insert r.tag (fl.from_int (pos 0)) s.tags;
  }

module _ {F Raw E : Type 0} (fl : FloatOps F) (xml : Xml E) (conv : Conversions F) where
  -- the `switch` over the name of a child element
  unfoldable pub configure_child : E → Server F Raw → Configured (Server F Raw)
  configure_child child s =
      let name = xml.tag child in
      let text = xml.text child in
      if name == "pull-endpoint"
      then done (record s { pull_endpoint = text })
      else if name == "pub-endpoint"
      then done (record s { pub_endpoint = text })
      else if name == "id"
      then number xml conv text invalid_unit_id >>= (λ n. done (record s { id = n }))
      else if name == "endpoint"
      then done (record s { endpoint = text })
      else if name == "serial"
      then serial_config xml conv (pos 0) child >>= (λ c. done (record s { serial = some c }))
      else if name == "register"
      then read_register xml conv child >>= (λ r. done (add_register fl r s))
      else done s

  unfoldable pub configure : E → Server F Raw → Configured (Server F Raw)
  configure e s = fold_all configure_child (xml.child_elements e) s
