-- ===== src/Tests/Programs.antt =====
-- Runs of the logic module.
use ot_sim.Common.{
  map, Bool-cases, sym, ◌∙◌, inl, inr, ◌≡◌, refl, Bool, true, false, ◌&&◌, not, Option, none, some,
  List, [], ◌∷◌, String, ◌==◌, string_eq, nat_eq, ℕ, ◌⊎◌, foldl, length, if◌then◌else◌, arith,
  is_some,
}
use ot_sim.Common.Int.{pos, int_eq}
use ot_sim.Common.Dict.{Dict, lookup, insert, index}
use ot_sim.Config.{done, fold_all}
use ot_sim.Float.Decimal.{Decimal, integer, decimal_ops}
use ot_sim.Logic.{
  Value, nil, boolean, integer as whole, text, number, Env, Language, Strings, Logic, new,
}
use ot_sim.Logic.Configure.{configure, configure_child, add_lines, add_line, add_variable}
use ot_sim.Logic.Configure.Sound.{IsSound, configure-IsSound}
use ot_sim.Logic.Run.{
  same_value, execute, run_lines, points_of, Outcome, blocked, tick, publish_all,
  handle_msg_bus_status,
}
use ot_sim.Logic.Run.Reports.{
  mem, EqualLaws, Alike, execute-Reported, execute_unassigned, execute_updated,
}
use ot_sim.Logic.Functions.{values, sum, avg, avg-values}
use ot_sim.Logic.Run.Told.{latest_of, handle_msg_bus_status-latest}
use ot_sim.Logic.Run.Lock.{here, tick-Wedged, starts, turns, Calm-free, Encodes, all_finite}
use ot_sim.Msgbus.Types.{Kind, Point, Status, Envelope}
use ot_sim.Msgbus.Envelope.{new_envelope}
use ot_sim.Msgbus.Pusher.{Bus}
use ot_sim.Tests.Document.{Tree, node, leaf, branch, documents, conversions, attr_of, known}
use ot_sim.Tests.Wire.{Wire, open_bus, wire_json, wire_laws, read_status}

-- A program is its value, equal numbers have equal parts, and 0 with the exponent 999 is NaN.
abbrev not_a_number : Decimal
not_a_number = record { mant = pos 0; exp = pos 999 }

abbrev compile_constant : String → Option (Value Decimal ℕ)
compile_constant code =
    if code == "12"
    then some (number (integer (pos 12)))
    else if code == "avg([])"
    then some (number not_a_number)
    else none

abbrev constants : Language Decimal (Value Decimal ℕ) ℕ
constants = record {
  compile = compile_constant;
  run = λ p env. p;
  same_other = λ a b. some (a == b);
  equal = λ a b. (a.mant == b.mant) && (a.exp == b.exp);
  divide = λ a b. not_a_number;
}

constants-EqualLaws : EqualLaws constants
constants-EqualLaws = record {
  equal_trans = λ a b c p q. ground (
    arith,
    int_eq.same_iff b.mant a.mant,
    int_eq.same_iff c.mant b.mant,
    int_eq.same_iff c.mant a.mant,
    int_eq.same_iff b.exp a.exp,
    int_eq.same_iff c.exp b.exp,
    int_eq.same_iff c.exp a.exp,
  );
  same_trans =
      λ a b c p q. ground (arith, nat_eq.same_iff b a, nat_eq.same_iff c b, nat_eq.same_iff c a);
}

abbrev cut_line : String → Option (String × String)
cut_line line =
    if line == "level = 12"
    then some ("level", "12")
    else if line == "mean = avg([])"
    then some ("mean", "avg([])")
    else none

abbrev two_lines : Strings
two_lines = record {
  lines = λ text. "level = 12" ∷ "mean = avg([])" ∷ [];
  cut = cut_line;
  trim_space = λ text. text;
  sprintf_name = λ i. "sprintf";
}

abbrev logic_element : Tree
logic_element = node "logic" "" [] (
    branch
      (node "variables" "" [] (branch (node "level" "7" (("tag", "tank.level") ∷ []) leaf) leaf))
      (branch (node "program" "two lines" [] leaf) leaf))

abbrev controller : Logic Decimal (Value Decimal ℕ) ℕ Wire
controller = record {
  pull_endpoint = "";
  pub_endpoint = "";
  name = "logic";
  period = pos 1000000000;
  program = (0, number (integer (pos 12))) ∷ (1, number not_a_number) ∷ [];
  order = "level" ∷ "mean" ∷ [];
  env = ("level", number (integer (pos 7))) ∷ ("mean", number (integer (pos 0))) ∷ [];
  variables = "level" ∷ [];
  tag_to_var = ("tank.level", "level") ∷ [];
  var_to_tag = ("level", "tank.level") ∷ [];
  process_updates = false;
  locked = false;
  sent = [];
}

controller-configure :
    configure decimal_ops constants two_lines documents conversions logic_element (new "logic")
    ≡ done controller
unfolding new configure configure_child fold_all add_lines add_line add_variable attr_of known
    lookup insert
controller-configure = refl

configure-IsSound_example : IsSound controller
configure-IsSound_example =
    configure-IsSound decimal_ops constants two_lines documents conversions logic_element "logic"
      controller controller-configure

abbrev new_env : Env Decimal ℕ
new_env = ("level", number (integer (pos 12))) ∷ ("mean", number not_a_number) ∷ []

controller-execute : execute constants controller ≡ some (new_env, "level" ∷ [])
unfolding execute run_lines same_value lookup insert index
controller-execute = refl

execute-Reported_example :
    (mem "level" ("level" ∷ []) ≡ true)
    ⊎ Alike constants (index nil "level" controller.env) (index nil "level" new_env)
unfolding lookup
execute-Reported_example =
    execute-Reported constants controller "level" "tank.level" new_env ("level" ∷ [])
      constants-EqualLaws controller-execute refl

execute_unassigned_example : lookup "sum" new_env ≡ lookup "sum" controller.env
execute_unassigned_example =
    execute_unassigned constants controller "sum" new_env ("level" ∷ []) controller-execute refl

execute_updated_example :
    (mem "level" controller.order ≡ true) × (is_some (lookup "level" controller.var_to_tag) ≡ true)
execute_updated_example =
    execute_updated constants controller "level" new_env ("level" ∷ []) controller-execute refl

-- a module with a tag for the mean too, and a bus whose encoder refuses NaN
abbrev averager : Logic Decimal (Value Decimal ℕ) ℕ Wire
averager = record controller { var_to_tag = ("mean", "tank.mean") ∷ [] }

abbrev all_numbers : List (Point Decimal) → Bool
all_numbers [] = true
all_numbers (p ∷ ps) = not (p.value.exp == pos 999) && all_numbers ps

abbrev marshal_numbers : Status Decimal → Option Wire
marshal_numbers s = if all_numbers s.measurements then some (Wire.status s) else none

abbrev strict_bus : Bus Decimal Wire
strict_bus = record open_bus {
  json = record wire_json {
    status = record { marshal = marshal_numbers; unmarshal = read_status };
  };
}

averager-execute : execute constants averager ≡ some (new_env, "mean" ∷ [])
unfolding execute run_lines same_value lookup insert index
averager-execute = refl

abbrev stuck : Logic Decimal (Value Decimal ℕ) ℕ Wire
stuck = record averager { env = new_env; locked = true }

averager-tick : tick decimal_ops constants strict_bus averager ≡ Outcome.done stuck
unfolding tick publish_all points_of new_envelope execute run_lines same_value lookup insert index
averager-tick = refl

tick-Wedged_example :
    (tick decimal_ops constants strict_bus stuck ≡ blocked)
    × (stuck.env ≡ new_env)
    × (stuck.sent ≡ [])
unfolding points_of lookup insert index new_envelope
tick-Wedged_example =
    tick-Wedged decimal_ops constants strict_bus averager stuck stuck new_env ("mean" ∷ []) refl
      averager-execute refl averager-tick here

abbrev is_number : Decimal → Bool
is_number v = not (v.exp == pos 999)

all_numbers_lem :
    (points : Dict String (Point Decimal))
    → all_finite decimal_ops constants strict_bus is_number points ≡ true
    → all_numbers (map (λ e. e.1) points) ≡ true
all_numbers_lem [] h = refl
all_numbers_lem (p ∷ ps) h = elim (Bool-cases (is_number p.1.value)) [
  | inl fine ↦ rw fine (all_numbers_lem ps (sym (rw fine refl) ∙ h))
  | inr odd ↦ let e : false ≡ true = sym (rw odd refl) ∙ h in cc
]

strict_bus-Encodes : Encodes decimal_ops constants strict_bus is_number
unfolding new_envelope
strict_bus-Encodes name points h = (
  (
    record {
      version = "v1";
      kind = Kind.status;
      metadata = some (("sender", name) ∷ []);
      contents = Wire.status (record { measurements = map (λ e. e.1) points });
    },
    rw (all_numbers_lem points h) refl,
  ),
  (_, refl),
)

abbrev published : Logic Decimal (Value Decimal ℕ) ℕ Wire
published = publish_all decimal_ops strict_bus (record controller { env = new_env }) ("level" ∷ [])

controller-tick : tick decimal_ops constants strict_bus controller ≡ Outcome.done published
unfolding tick execute run_lines same_value lookup insert index
controller-tick = refl

Calm-free_example : published.locked ≡ false
unfolding points_of lookup insert index
Calm-free_example =
    Calm-free decimal_ops constants strict_bus is_number controller published strict_bus-Encodes
      refl (turns new_env ("level" ∷ []) starts controller-execute refl refl controller-tick)

abbrev arguments : List (Value Decimal ℕ)
arguments = text "level" ∷ boolean true ∷ whole (pos 2) ∷ []

avg-values_example :
    (sum decimal_ops new_env arguments (integer (pos 0))
      ≡ foldl decimal_ops.add (integer (pos 0)) (values decimal_ops new_env arguments []))
    × (avg decimal_ops constants new_env arguments
        ≡ constants.divide
            (sum decimal_ops new_env arguments (integer (pos 0)))
            (integer (pos (length (values decimal_ops new_env arguments [])))))
avg-values_example = avg-values decimal_ops constants new_env arguments

abbrev told : Status Decimal
told = record {
  measurements =
      record { tag = "tank.level"; value = integer (pos 3); tstamp = 0 }
      ∷ record { tag = "other"; value = integer (pos 4); tstamp = 0 }
      ∷ [];
}

abbrev message : Envelope Wire
message = record {
  version = "v1";
  kind = Kind.status;
  metadata = some (("sender", "modbus") ∷ []);
  contents = Wire.status told;
}

handle_msg_bus_status-latest_example :
    (new : Env Decimal ℕ) × (handle_msg_bus_status open_bus message controller
      ≡ Outcome.done (record controller { env = new }))
    × (lookup "level" new
        ≡ latest_of controller.tag_to_var "level" told.measurements (lookup "level" controller.env))
unfolding new_envelope
handle_msg_bus_status-latest_example =
    handle_msg_bus_status-latest open_bus controller "modbus" told message "level" wire_laws refl
      refl refl
