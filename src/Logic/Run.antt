-- ===== src/Logic/Run.antt =====
-- What the logic module does while it runs: `execute`, the two handlers, and the turn of the loop
-- in `Run`, in src/go/logic/logic.go.
pub mod Reports
pub mod Lock
pub mod Told
use ot_sim.Common.{
  ℕ, ◌+◌, Bool, true, false, not, Option, none, some, List, [], ◌∷◌, ◌++◌, map, String, ◌==◌,
  string_eq, nat_eq, if◌then◌else◌, starts_with,
}
use ot_sim.Common.Int.{ℤ, pos, int_eq}
use ot_sim.Common.Dict.{Dict, lookup, insert, index}
use ot_sim.Float.{FloatOps}
use ot_sim.Logic.{Value, nil, boolean, integer, number, text, other, Env, Language, Logic}
use ot_sim.Msgbus.Types.{Point, Status, Update, Envelope}
use ot_sim.Msgbus.Envelope.{
  FetchError, Contents, status, update, new_envelope, sender, get_status, get_update,
}
use ot_sim.Msgbus.Pusher.{Bus, Sent, push}

module _ {F P X : Type 0} (lang : Language F P X) where
  -- `==` on `any`: `none` is the panic where two values of one type do not compare
  unfoldable pub same_value : Value F X → Value F X → Option Bool
  same_value nil nil = some true
  same_value (boolean a) (boolean b) = some (if a then b else not b)
  same_value (integer a) (integer b) = some (a == b)
  same_value (number a) (number b) = some (lang.equal a b)
  same_value (text a) (text b) = some (a == b)
  same_value (other a) (other b) = lang.same_other a b
  same_value _ _ = some false

  -- what `execute` has so far: the environment, and the variables that are updated
  abbrev pub Progress : Type 0
  Progress = Env F X × List String

  -- the tests and the assignment after a line gave a result; `none` is a panic
  abbrev pub assign : Dict String String → String → Value F X → Progress → Option Progress
  assign tags o result (env, updated) = elim (lookup o tags) [
    | none ↦ some (insert o result env, updated)
    | some tag ↦ elim (same_value result (index nil o env)) [
      | none ↦ none
      | some true ↦ some (insert o result env, updated)
      | some false ↦ some (insert o result env, updated ++ o ∷ [])
    ]
  ]

  module _ (program : Dict ℕ P) (tags : Dict String String) where
    -- the body of the loop of `execute`
    abbrev pub run_line : ℕ → String → Progress → Option Progress
    run_line i o (env, updated) =
        if o == "" then some (env, updated) else elim (lang.run (lookup i program) env) [
          | none ↦ some (env, updated)
          | some result ↦
              if starts_with o "sprintf"
              then some (env, updated)
              else assign tags o result (env, updated)
        ]

    unfoldable pub run_lines : ℕ → List String → Progress → Option Progress
    run_lines i [] now = some now
    run_lines i (o ∷ os) now = elim (run_line i o now) [
      | none ↦ none
      | some next ↦ run_lines (i + 1) os next
    ]

  unfoldable pub execute : {Raw : Type 0} → Logic F P X Raw → Option Progress
  execute l = run_lines l.program l.var_to_tag 0 l.order (l.env, [])

-- the loop of both handlers
unfoldable pub set_env : {F X : Type 0} → Dict String String → List (Point F) → Env F X → Env F X
set_env vars [] env = env
set_env vars (p ∷ ps) env = elim (lookup p.tag vars) [
  | none ↦ set_env vars ps env
  | some v ↦ set_env vars ps (insert v (number p.value) env)
]

module _ {F : Type 0} (fl : FloatOps F) where
  -- the `switch` over the type of a value
  abbrev pub point_value : {X : Type 0} → Value F X → F
  point_value (boolean true) = fl.from_int (pos 1)
  point_value (boolean false) = fl.from_int (pos 0)
  point_value (integer n) = fl.from_int n
  point_value (number v) = v
  point_value nil = fl.from_int (pos 0)
  point_value (text s) = fl.from_int (pos 0)
  point_value (other x) = fl.from_int (pos 0)

  -- the points of the named variables that have a tag, as the map `tags`
  unfoldable pub points_of :
      {X : Type 0}
      → Dict String String
      → Env F X
      → List String
      → Dict String (Point F)
      → Dict String (Point F)
  points_of tags env [] points = points
  points_of tags env (o ∷ os) points = elim (lookup o tags) [
    | none ↦ points_of tags env os points
    | some tag ↦ points_of tags env os (
        insert tag (record { tag = tag; value = point_value (index nil o env); tstamp = 0 }) points)
  ]

-- the names in `order` that the loop does not skip
abbrev pub named : List String → List String
named [] = []
named (o ∷ os) = if o == "" then named os else o ∷ named os

module _ {F Raw : Type 0} (bus : Bus F Raw) where
  -- `NewEnvelope` and `Push`, where there are points; `none` is an error of `NewEnvelope`
  abbrev pub publish :
      String → (List (Point F) → Contents F) → Dict String (Point F) → Sent Raw → Option (Sent Raw)
  publish name contents [] sent = some sent
  publish name contents (p ∷ ps) sent =
      elim (new_envelope bus.json name (contents (map (λ e. e.1) (p ∷ ps)))) [
        | none ↦ none
        | some env ↦ some (push bus "RUNTIME" env sent).1
      ]

abbrev pub measured : {F : Type 0} → List (Point F) → Contents F
measured points = status (record { measurements = points })

abbrev pub changed : {F : Type 0} → List (Point F) → Contents F
changed points = update (record { updates = points; recipient = ""; confirm = "" })

module _ {F P X Raw : Type 0} (fl : FloatOps F) (bus : Bus F Raw) where
  -- What follows `execute`. Each `continue` after an error leaves the lock taken.
  unfoldable pub publish_all : Logic F P X Raw → List String → Logic F P X Raw
  publish_all l updated =
      elim (publish bus l.name measured (points_of fl l.var_to_tag l.env (named l.order) [])
        l.sent) [
          | none ↦ record l { locked = true }
          | some sent ↦
              elim (publish bus l.name changed (points_of fl l.var_to_tag l.env updated []) sent) [
                | none ↦ record l { locked = true; sent = sent }
                | some sent' ↦ record l { locked = false; sent = sent' }
              ]
        ]

-- How a step ends: it waits for the lock for ever, it panics, or it is done.
pub data Outcome (A : Type 0) : Type 0 where
  blocked panicked : Outcome A
  done : A → Outcome A

module _ {F P X Raw : Type 0} (fl : FloatOps F) (lang : Language F P X) (bus : Bus F Raw) where
  abbrev after_execute : Logic F P X Raw → Option (Progress lang) → Outcome (Logic F P X Raw)
  after_execute l none = panicked
  after_execute l (some (env, updated)) = done (publish_all fl bus (record l { env = env }) updated)

  -- a turn of the loop in `Run`
  unfoldable pub tick : Logic F P X Raw → Outcome (Logic F P X Raw)
  tick l = if l.locked then blocked else after_execute l (execute lang l)

module _ {F P X Raw : Type 0} (bus : Bus F Raw) where
  abbrev locked_set :
      List (Point F) → Option FetchError → Logic F P X Raw → Outcome (Logic F P X Raw)
  locked_set points (some e) l = done l
  locked_set points none l =
      if l.locked then blocked else done (record l { env = set_env l.tag_to_var points l.env })

  unfoldable pub handle_msg_bus_status : Envelope Raw → Logic F P X Raw → Outcome (Logic F P X Raw)
  handle_msg_bus_status env l =
      let (read, err) = get_status bus.json env in
      if sender env == l.name then done l else locked_set read.measurements err l

  unfoldable pub handle_msg_bus_update : Envelope Raw → Logic F P X Raw → Outcome (Logic F P X Raw)
  handle_msg_bus_update env l =
      let (read, err) = get_update bus.json env in
      if sender env == l.name then done l else locked_set read.updates err l
