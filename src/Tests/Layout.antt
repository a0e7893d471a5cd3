-- ===== src/Tests/Layout.antt =====
-- A SunSpec server from its configuration, with model 1.
use ot_sim.Common.{
  ℕ, ◌+◌, ◌≡◌, refl, false, Option, none, some, List, [], ◌∷◌, String, ◌==◌, string_eq,
  if◌then◌else◌,
}
use ot_sim.Common.Int.{ℤ, pos, int_eq}
use ot_sim.Common.Dict.{lookup, insert}
use ot_sim.Config.{Configured, done, failed, fold_all}
use ot_sim.Float.Decimal.{Decimal, integer, decimal_ops}
use ot_sim.Modbus.Server.State.{uint16_at}
use ot_sim.Sunspec.Model.{ScaleFactor, SchemaPoint, Schema, get_model_length}
use ot_sim.Sunspec.Register.{DataType, init, identifier_register, end_register, end_register_length}
use ot_sim.Sunspec.Server.{Server, read_holding_registers, read_words, scaling_for}
use ot_sim.Sunspec.Server.Reply.{PointReply}
use ot_sim.Sunspec.Server.Configure.{
  Progress, make_register, add_points, add_setting, add_model, configure_child, configure, new,
}
use ot_sim.Sunspec.Server.Configure.Ready.{configure-PointReply}
use ot_sim.Sunspec.Server.Configure.Layout.{Holds, add_points-Spans}
use ot_sim.Tests.Document.{Tree, node, leaf, branch, documents, conversions, attr_of, known}
use ot_sim.Sunspec.Client as Client
use ot_sim.Sunspec.Client.{Client}
use ot_sim.Sunspec.Client.Poll.{Outcome, discover, poll_models, process, take_registers}
use ot_sim.Modbus.Client.{Device, with_connected}
use ot_sim.Common.{slice, drop, ◌⊎◌}
use ot_sim.Sunspec.Client.Unscaled.{poll_models-unscaled}
use ot_sim.Common.Int.{◌+ℤ◌}
use ot_sim.Float.{word_int}
use ot_sim.Float.Decimal.{to_pattern, decimal_mul}
use ot_sim.Modbus.Register.{of_bytes, to_bytes, read_word}
use ot_sim.Msgbus.Envelope.{new_envelope}
use ot_sim.Msgbus.Pusher.{push}
use ot_sim.Sunspec.Register.{Register, bytes, value}
use ot_sim.Sunspec.Client.{next_model, model_data, model_register, model_registers}
use ot_sim.Modbus.Client.Loopback.{frame, unframe}
use ot_sim.Tests.Wire.{Wire, open_bus}

abbrev point : String → DataType → ℕ → SchemaPoint Decimal
point name kind size = record {
  name = name;
  kind = kind;
  size = size;
  sf = ScaleFactor.nil;
  writable = false;
}

abbrev model_1 : Schema Decimal
model_1 =
    point "ID" DataType.uint16 1
    ∷ point "L" DataType.uint16 1
    ∷ point "Mn" DataType.string16 16
    ∷ record (point "DA" DataType.uint16 1) { sf = ScaleFactor.string "DA_SF" }
    ∷ point "DA_SF" DataType.sunssf 1
    ∷ []

abbrev schemas : ℤ → Option (Schema Decimal)
schemas id = if id == pos 1 then some model_1 else none

abbrev letters : String → List ℕ
letters text = if text == "Acme" then 65 ∷ 99 ∷ 109 ∷ 101 ∷ [] else []

abbrev sunspec_element : Tree
sunspec_element = node "sunspec" "" [] (
    branch (node "endpoint" "127.0.0.1:502" [] leaf) (
      branch
        (node "model" "" (("id", "1") ∷ []) (
          branch (node "Mn" "Acme" [] leaf) (
            branch (node "DA" "plant.address" [] leaf)
              (branch (node "DA_SF" "plant.scale" [] leaf) leaf))))
        leaf))

abbrev outcome : {A : Type 0} → A → Configured A → A
outcome a (done b) = b
outcome a (failed e) = a

abbrev blank : Server Decimal Wire
blank = record {
  pull_endpoint = "";
  pub_endpoint = "";
  name = "sunspec";
  endpoint = "";
  heap = [];
  registers = [];
  points = [];
  tags = [];
  sent = [];
}

abbrev plant : Server Decimal Wire
plant =
    outcome blank
      (configure decimal_ops documents conversions schemas letters sunspec_element blank)

abbrev read_model : List ℕ
read_model = 0x9c ∷ 0x40 ∷ 0 ∷ 4 ∷ []

configure-PointReply_example :
    PointReply decimal_ops plant 4 (read_holding_registers decimal_ops plant read_model)
unfolding new configure configure_child add_model add_points add_setting make_register fold_all init
    identifier_register end_register end_register_length attr_of known lookup insert uint16_at
    get_model_length
configure-PointReply_example =
    configure-PointReply decimal_ops documents conversions schemas letters sunspec_element "sunspec"
      plant read_model 40000 4 refl refl refl refl

abbrev begun : Progress Decimal Wire
begun = record { server = blank; addr = 40002; model1 = false }

abbrev laid : Progress Decimal Wire
laid = outcome begun (add_points decimal_ops (pos 1) model_1 model_1 begun)

add_points-Spans_example :
    (laid.addr ≡ 40004 + get_model_length model_1)
    × Holds 40003 (integer (pos (get_model_length model_1))) laid
unfolding add_points make_register init insert
add_points-Spans_example =
    add_points-Spans decimal_ops (pos 1) (point "ID" DataType.uint16 1)
      (point "L" DataType.uint16 1) (drop 2 model_1) begun laid refl refl refl refl

-- a client of that server, over a network that loses nothing
abbrev wired : Device (Server Decimal Wire)
wired = record {
  read_coils = λ addr count s. (none, s);
  read_discrete_inputs = λ addr count s. (none, s);
  read_input_registers = λ addr count s. (none, s);
  read_holding_registers =
      λ addr count s. (unframe (read_holding_registers decimal_ops s (frame addr count)), s);
  write_single_coil = λ addr v s. (false, s);
  write_multiple_registers = λ addr count bs s. (false, s);
}

abbrev reached : {A D : Type 0} → A → Outcome A D → A
reached a (Outcome.going b d) = b
reached a (Outcome.failing d) = a
reached a (Outcome.panicking d) = a
reached a Outcome.unfinished = a

abbrev got : {A : Type 0} → A → Option A → A
got a none = a
got a (some b) = b

abbrev nobody : Client Decimal Wire
nobody = record {
  pull_endpoint = "";
  pub_endpoint = "";
  name = "client";
  id = pos 0;
  endpoint = "";
  period = pos 5000000000;
  order = [];
  settings = [];
  points = [];
  sent = [];
}

abbrev discovered : Client Decimal Wire
discovered =
    reached nobody (discover decimal_ops open_bus wired schemas 3 (pos 40002) false nobody plant)

plant-discover :
    discover decimal_ops open_bus wired schemas 3 (pos 40002) false (Client.new "client") plant
    ≡ Outcome.going discovered plant
unfolding new configure configure_child add_model add_points add_setting make_register fold_all init
    identifier_register end_register end_register_length attr_of known lookup insert uint16_at
    get_model_length Client.new discover read_holding_registers read_words scaling_for bytes slice
    of_bytes to_bytes to_pattern decimal_mul next_model value read_word word_int model_data
    model_registers model_register process take_registers with_connected new_envelope push ◌+ℤ◌
plant-discover = refl

abbrev polled : Client Decimal Wire
polled = got nobody (poll_models decimal_ops open_bus wired schemas (pos 1 ∷ []) discovered plant).0

-- a point with a scale register, as it is read
abbrev volts : Register Decimal
volts = record {
  data_kind = DataType.uint16;
  name = "DA";
  model = pos 1;
  count = 1;
  scaling = integer (pos 0);
  tag = "";
  scale_register = "DA_SF";
  internal_value = integer (pos 0);
  internal_string = [];
  raw = some (0 ∷ 0 ∷ []);
  addr = pos 0;
}

plant-poll_models :
    (poll_models decimal_ops open_bus wired schemas (pos 1 ∷ []) discovered plant).0 ≡ some polled
unfolding new configure configure_child add_model add_points add_setting make_register fold_all init
    identifier_register end_register end_register_length attr_of known lookup insert uint16_at
    get_model_length discover read_holding_registers read_words scaling_for bytes slice of_bytes
    to_bytes to_pattern decimal_mul next_model value read_word word_int model_data model_registers
    model_register process take_registers with_connected new_envelope push ◌+ℤ◌ poll_models
plant-poll_models = refl

volts-lookup : lookup "DA" polled.points ≡ some volts
unfolding new configure configure_child add_model add_points add_setting make_register fold_all init
    identifier_register end_register end_register_length attr_of known lookup insert uint16_at
    get_model_length discover read_holding_registers read_words scaling_for bytes slice of_bytes
    to_bytes to_pattern decimal_mul next_model value read_word word_int model_data model_registers
    model_register process take_registers with_connected new_envelope push ◌+ℤ◌ poll_models
volts-lookup = refl

poll_models-unscaled_example :
    (volts.scale_register ≡ "")
    ⊎ (Client.scaling_for decimal_ops polled.points volts ≡ none)
    ⊎ ((Client.scaling_for decimal_ops polled.points volts ≡ some (integer (pos 0)))
        × (volts.scaling ≡ integer (pos 0)))
poll_models-unscaled_example =
    poll_models-unscaled decimal_ops open_bus wired schemas 3 (pos 1 ∷ []) "client" "DA" discovered
      polled plant plant plant volts plant-discover plant-poll_models volts-lookup
