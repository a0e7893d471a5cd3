-- ===== src/Logic/Configure.antt =====
-- `Configure` of src/go/logic/logic.go.
pub mod Sound
use ot_sim.Common.{
  ℕ, ◌+◌, Bool, true, false, Option, none, some, List, [], ◌∷◌, ◌++◌, String, ◌==◌, string_eq,
  nat_eq, if◌then◌else◌, or_else, is_some, starts_with,
}
use ot_sim.Common.Int.{pos}
use ot_sim.Common.Dict.{Dict, lookup, insert}
use ot_sim.Config.{
  Xml, Conversions, invalid_period, invalid_program, invalid_variable, invalid_process_updates,
  Configured, done, failed, ◌>>=◌, fold_all,
}
use ot_sim.Float.{FloatOps}
use ot_sim.Logic.{Value, boolean, number, Env, Language, Strings, Logic}

abbrev pub compiled : {F P X : Type 0} → Language F P X → String → Configured P
compiled lang right = elim (lang.compile right) [ none ↦ failed invalid_program | some p ↦ done p ]

module _ {F P X Raw : Type 0} (fl : FloatOps F) (lang : Language F P X) (str : Strings) where
  -- a line that leaves nothing in `order`
  abbrev pub skipped : Logic F P X Raw → Logic F P X Raw
  skipped l = record l { order = l.order ++ "" ∷ [] }

  abbrev pub add_code : ℕ → String → P → Logic F P X Raw → Logic F P X Raw
  add_code i left p l = record l { program = insert i p l.program; order = l.order ++ left ∷ [] }

  -- the variable, unless it is in the environment
  abbrev pub start_variable : String → Logic F P X Raw → Logic F P X Raw
  start_variable left l =
      if is_some (lookup left l.env)
      then l
      else record l { env = insert left (number (fl.from_int (pos 0))) l.env }

  -- a line by its sides
  abbrev pub add_sides :
      ℕ → String → Option (String × String) → Logic F P X Raw → Configured (Logic F P X Raw)
  add_sides i line none l =
      let right = str.trim_space line in
      if starts_with right "sprintf"
      then compiled lang right >>= (λ p. done (add_code i (str.sprintf_name i) p l))
      else done (skipped l)
  add_sides i line (some (before, after)) l =
      let left = str.trim_space before in
      compiled lang (str.trim_space after)
      >>= (λ p. done (start_variable left (add_code i left p l)))

  -- the body of the loop over the lines
  unfoldable pub add_line : ℕ → String → Logic F P X Raw → Configured (Logic F P X Raw)
  add_line i line l =
      if starts_with line "#" then done (skipped l) else add_sides i line (str.cut line) l

  unfoldable pub add_lines : ℕ → List String → Logic F P X Raw → Configured (Logic F P X Raw)
  add_lines i [] l = done l
  add_lines i (line ∷ lines) l = elim (add_line i line l) [
    | failed e ↦ failed e
    | done l' ↦ add_lines (i + 1) lines l'
  ]

-- a number, else a Boolean
abbrev pub variable_value : {F X : Type 0} → Conversions F → String → Configured (Value F X)
variable_value conv text = elim (conv.parse_float text) [
  | some v ↦ done (number v)
  | none ↦ elim (conv.parse_bool text) [
    | some b ↦ done (boolean b)
    | none ↦ failed invalid_variable
  ]
]

module _ {F P X Raw E : Type 0} (xml : Xml E) (conv : Conversions F) where
  -- the body of the loop over the variables
  unfoldable pub add_variable : E → Logic F P X Raw → Configured (Logic F P X Raw)
  add_variable v l =
      let name = xml.tag v in
      let tag = or_else (xml.select_attr "tag" v) name in
      variable_value conv (xml.text v) >>= (λ value. done (record l {
        var_to_tag = insert name tag l.var_to_tag;
        tag_to_var = insert tag name l.tag_to_var;
        variables = l.variables ++ name ∷ [];
        env = insert name value l.env;
      }))

module _ {F P X Raw E : Type 0} (fl : FloatOps F) (lang : Language F P X) (str : Strings)
    (xml : Xml E) (conv : Conversions F) where
  unfoldable pub configure_child : E → Logic F P X Raw → Configured (Logic F P X Raw)
  configure_child child l =
      let name = xml.tag child in
      let text = xml.text child in
      if name == "pull-endpoint"
      then done (record l { pull_endpoint = text })
      else if name == "pub-endpoint"
      then done (record l { pub_endpoint = text })
      else if name == "period"
      then elim (conv.parse_duration text) [
        | none ↦ failed invalid_period
        | some d ↦ done (record l { period = d })
      ]
      else if name == "program"
      then add_lines fl lang str 0 (str.lines text) (record l { order = [] })
      else if name == "variables"
      then fold_all (add_variable xml conv) (xml.child_elements child) l
      else if name == "process-updates"
      then elim (conv.parse_bool text) [
        | none ↦ failed invalid_process_updates
        | some b ↦ done (record l { process_updates = b })
      ]
      else done l

  unfoldable pub configure : E → Logic F P X Raw → Configured (Logic F P X Raw)
  configure e l = fold_all configure_child (xml.child_elements e) l
