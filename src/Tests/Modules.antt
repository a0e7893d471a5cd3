-- ===== src/Tests/Modules.antt =====
-- Configurations of the Modbus modules, and a client that polls a server.
use ot_sim.Common.{ℕ, ◌≡◌, refl, ap, false, none, some, List, [], ◌∷◌, string_eq, nat_eq, arith}
use mathlib.Core.Path.{subst}
use ot_sim.Common.Int.{pos, int_eq}
use ot_sim.Common.Dict.{lookup, insert, index}
use ot_sim.Config.{done, fold_all}
use ot_sim.Float.Decimal.{Decimal, integer, decimal_ops, to_pattern, decimal_mul}
use ot_sim.Msgbus.Metric.{new_metrics_pusher}
use ot_sim.Msgbus.Envelope.{new_envelope}
use ot_sim.Msgbus.Pusher.{push}
use ot_sim.Modbus.Config.{read_register}
use ot_sim.Modbus.Register.{
  Register, holding, uint16, init, float_abs, nearest, register_type, data_type, type_eq, value,
  bytes, to_bytes, read_word, Result, ok, err, panics,
}
use ot_sim.Modbus.Server.State.{Table, Server, Response, new, publish, uint16_at, tag_value}
use ot_sim.Modbus.Server.Read.{read_holding_registers}
use ot_sim.Modbus.Server.Write.{write_holding_register}
use ot_sim.Modbus.Client.{Client, Device, poll, send_status, with_connected}
use ot_sim.Modbus.Client.Loopback.{frame, unframe, poll-AllMirrored}
use ot_sim.Float.{word_int}
use ot_sim.Msgbus.Types.{Point}
use ot_sim.Modbus.Server.Bus.{handle}
use ot_sim.Modbus.Server.Words.{WordReply}
use ot_sim.Modbus.Server.Configure.{add_register, configure, configure_child}
use ot_sim.Modbus.Server.Configure.Ready.{IsConfigured, configure-IsConfigured}
use ot_sim.Modbus.Server.Configure.Serves.{here, asked, configure-WordReply}
use ot_sim.Tests.Document.{Tree, node, leaf, branch, documents, conversions, attr_of, known}
use ot_sim.Tests.Wire.{Wire, open_bus}

abbrev register_element : Tree
register_element =
    node "register" "" (("type", "holding") ∷ [])
      (branch (node "address" "40000" [] leaf) (branch (node "tag" "tank.level" [] leaf) leaf))

abbrev server_element : Tree
server_element = node "modbus" "" [] (
    branch (node "endpoint" "127.0.0.1:502" [] leaf)
      (branch (node "id" "7" [] leaf) (branch register_element leaf)))

abbrev level : Register
level = record {
  kind = holding;
  data_kind = uint16;
  addr = pos 40000;
  count = 1;
  scaling = pos 0;
  tag = "tank.level";
}

abbrev holdings : Table
holdings = (pos 40000, level) ∷ []

abbrev configured : Server Decimal Wire
configured = record {
  pull_endpoint = "";
  pub_endpoint = "";
  name = "plant";
  id = pos 7;
  endpoint = "127.0.0.1:502";
  serial = none;
  registers = (holding, holdings) ∷ [];
  tags = ("tank.level", integer (pos 0)) ∷ [];
  metrics = [];
  sent = [];
}

configured-configure :
    configure decimal_ops documents conversions server_element (new "plant") ≡ done configured
unfolding new new_metrics_pusher add_register configure configure_child fold_all read_register
    attr_of known init float_abs nearest register_type data_type lookup insert
configured-configure = refl

configure-IsConfigured_example : IsConfigured configured
configure-IsConfigured_example =
    configure-IsConfigured decimal_ops documents conversions server_element "plant" configured
      configured-configure

-- a write of 12 to the register, and a read of it
abbrev write_request : List ℕ
write_request = 0x9c ∷ 0x40 ∷ 0 ∷ 12 ∷ []

abbrev read_request : List ℕ
read_request = 0x9c ∷ 0x40 ∷ 0 ∷ 1 ∷ []

abbrev written : Server Decimal Wire × Response
written = write_holding_register decimal_ops open_bus configured write_request

configure-WordReply_example :
    WordReply decimal_ops holdings written.0.tags 40001 40000
      (read_holding_registers decimal_ops written.0 read_request)
unfolding handle lookup uint16_at write_holding_register value read_word publish new_envelope push
configure-WordReply_example =
    configure-WordReply decimal_ops documents conversions open_bus server_element "plant" configured
      written.0 holdings read_request 40000 1 configured-configure
      (asked 6 write_request here refl refl) refl refl refl

-- a client of that server, over a network that loses nothing
abbrev wired : Device (Server Decimal Wire)
wired = record {
  read_coils = λ addr count s. (none, s);
  read_discrete_inputs = λ addr count s. (none, s);
  read_input_registers = λ addr count s. (none, s);
  read_holding_registers =
      λ addr count s. (unframe (read_holding_registers decimal_ops s (frame addr count)), s);
  write_single_coil = λ addr v s. (false, s);
  write_multiple_registers = λ addr count bs s. (false, s);
}

abbrev client : Client Wire
client = record {
  pull_endpoint = "";
  pub_endpoint = "";
  name = "poller";
  id = pos 7;
  endpoint = "127.0.0.1:502";
  serial = none;
  period = pos 1000;
  registers = ("tank.level", level) ∷ [];
  sent = [];
}

abbrev polled_points : List (Point Decimal)
polled_points = record { tag = "tank.level"; value = integer (pos 0); tstamp = 0 } ∷ []

abbrev payload : Result (List ℕ) → List ℕ
payload (ok bs) = bs
payload (err e) = []
payload panics = []

exact :
    (bs : List ℕ)
    → bytes decimal_ops level (integer (pos 0)) ≡ ok bs
    → value decimal_ops level bs ≡ ok (integer (pos 0))
unfolding bytes value to_bytes to_pattern decimal_mul read_word word_int
exact bs e = subst (λ bs. value decimal_ops level bs ≡ ok (integer (pos 0))) (ap payload e) refl

poll-AllMirrored_example : poll decimal_ops open_bus wired client configured ≡ (
  some (record client {
    sent = send_status open_bus "poller" (with_connected decimal_ops "poller" polled_points) [];
  }),
  configured,
)
unfolding lookup tag_value index init float_abs nearest
poll-AllMirrored_example =
    poll-AllMirrored decimal_ops wired open_bus client configured holdings
      (λ addr count s _ _ _. refl) refl
      ((40000, refl, omega arith, refl, refl, (level, refl), exact), tt)
