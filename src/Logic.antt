-- ===== src/Logic.antt =====
-- The logic module: src/go/logic/logic.go. The language of its programs, github.com/antonmedv/expr,
-- is a parameter, `Language`: `P` is a compiled expression and `X` a value of the language that is
-- none of those that the module looks into.
pub mod Configure
pub mod Run
pub mod Functions
use ot_sim.Common.{
  ℕ, Bool, true, false, Option, none, some, List, [], String, ◌==◌, nat_eq, string_eq, ◌≡◌,
}
use ot_sim.Common.Int.{ℤ, pos, int_eq}
use ot_sim.Common.Dict.{Dict}
use ot_sim.Msgbus.Pusher.{Sent}

-- Go's `any` in the environment
pub data Value (F X : Type 0) : Type 0 where
  nil : Value F X
  boolean : Bool → Value F X
  integer : ℤ → Value F X
  number : F → Value F X
  text : String → Value F X
  other : X → Value F X

abbrev pub Env : Type 0 → Type 0 → Type 0
Env F X = Dict String (Value F X)

-- `none` of `compile` and of `run` is an error, and the program `none` is `nil`. `same_other` is Go's `==`, and `none` its panic on
-- values that do not compare, such as slices. `equal` and `divide` are `==` and `/` of float64.
pub record Language (F P X : Type 0) : Type 0 where
  pub compile : String → Option P
  pub run : Option P → Env F X → Option (Value F X)
  pub same_other : X → X → Option Bool
  pub equal : F → F → Bool
  pub divide : F → F → F

-- `strings.Split` by lines, `SplitN` by the first "=" (`none` where there is no "="), `TrimSpace`,
-- and the format "sprintf%d".
pub record Strings : Type 0 where
  pub lines : String → List String
  pub cut : String → Option (String × String)
  pub trim_space : String → String
  pub sprintf_name : ℕ → String

-- `locked` is `envMu`, `sent` what `pusher` has sent.
pub record Logic (F P X Raw : Type 0) : Type 0 where
  pub pull_endpoint : String
  pub pub_endpoint : String
  pub name : String
  pub period : ℤ
  pub program : Dict ℕ P
  pub order : List String
  pub env : Env F X
  pub variables : List String
  pub tag_to_var : Dict String String
  pub var_to_tag : Dict String String
  pub process_updates : Bool
  pub locked : Bool
  pub sent : Sent Raw

unfoldable pub new : {F P X Raw : Type 0} → String → Logic F P X Raw
new name = record {
  pull_endpoint = "";
  pub_endpoint = "";
  name = name;
  period = pos 1000000000;
  program = [];
  order = [];
  env = [];
  variables = [];
  tag_to_var = [];
  var_to_tag = [];
  process_updates = false;
  locked = false;
  sent = [];
}
