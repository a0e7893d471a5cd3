-- ===== src/Cpu/Control.antt =====
-- The module control of the CPU module: src/go/cpu/internal.go, with `module` and the synchronous
-- part of `StartModule` in src/go/cpu/execute.go. A module's goroutine sets its channel `canceler`
-- when the process runs and clears it when it has seen it closed: a schedule, a parameter, says which
-- goroutines do so before each name of a message. What is done for one name is one step.
pub mod Answers
pub mod Twice
use ot_sim.Common.{
  ℕ, suc, ◌+◌, nat_eq, Bool, true, false, Option, none, some, List, [], ◌∷◌, String, ◌==◌, ◌&&◌,
  not, string_eq, if◌then◌else◌,
}
use ot_sim.Common.Dict.{Dict, lookup, insert}
use ot_sim.Msgbus.Types.{Kind, Confirmation, ModuleControl, Envelope}
use ot_sim.Msgbus.Envelope.{
  FetchError, not_kind, unmarshaling, parse_envelope, get_module_control, new_envelope,
  confirmation,
}
use ot_sim.Msgbus.Pusher.{Bus, Sent, PushError, push}

-- `canceler` is `none` for a nil channel, and else whether the channel is closed; `goroutines`
-- counts those that `StartModule` began.
pub record Module : Type 0 where
  pub name : String
  pub path : String
  pub canceler : Option Bool
  pub initialized : Bool
  pub goroutines : ℕ

-- The global map of pointers. Only `StartModule` adds to it, each module under its own name.
abbrev pub Modules : Type 0
Modules = Dict String Module

-- What the goroutine of a module does before a step of the handler: nothing that it sees; it has a
-- process run, and makes a channel; or it sees the channel closed, and sets it to nil.
pub data Act : Type 0 where
  waits makes clears : Act

abbrev pub act : Act → Module → Module
act waits m = m
act makes m = if m.goroutines == 0 then m else record m { canceler = some false }
act clears m = elim m.canceler [
  | none ↦ m
  | some true ↦ record m { canceler = none }
  | some false ↦ m
]

-- what each module's goroutine does before the first name, the second and so on
abbrev pub Schedule : Type 0
Schedule = ℕ → String → Act

abbrev pub later : Schedule → Schedule
later schedule k = schedule (suc k)

unfoldable pub run_goroutines : (String → Act) → Modules → Modules
run_goroutines acts [] = []
run_goroutines acts ((k, m) ∷ ms) = (k, act (acts k) m) ∷ run_goroutines acts ms

-- What the system does for `StartModule`: the program's path in the configured command line, and
-- `exec.LookPath` with the text of its error; and when it runs the goroutines of the modules, between
-- the names to enable and between those to disable.
pub record System : Type 0 where
  pub enabling : Schedule
  pub disabling : Schedule
  pub program : String → String
  pub look_path : String → Bool
  pub missing : String → String

-- the answers of one message so far, where `panicked` ends the process
pub record Control : Type 0 where
  pub modules : Modules
  pub results : Dict String String
  pub errors : Dict String String
  pub panicked : Bool

unfoldable pub list_all : List (String × Module) → Dict String String → Dict String String
list_all [] results = results
list_all ((k, m) ∷ ms) results =
    list_all ms
      (insert m.name (elim m.canceler [ none ↦ "disabled" | some closed ↦ "enabled" ]) results)

abbrev pub answer_result : String → String → Control → Control
answer_result name text c = record c { results = insert name text c.results }

abbrev pub answer_error : String → String → Control → Control
answer_error name text c = record c { errors = insert name text c.errors }

-- one name of `Disable`: closing a closed channel panics
unfoldable pub disable : String → Control → Control
disable name c = elim (lookup name c.modules) [
  | none ↦ answer_error name "does not exist" c
  | some m ↦ elim m.canceler [
    | none ↦ answer_error m.name "already disabled" c
    | some true ↦ record c { panicked = true }
    | some false ↦
        answer_result m.name "disabled"
          (record c { modules = insert m.name (record m { canceler = some true }) c.modules })
  ]
]

-- the goroutines that run before a name
abbrev pub interleave : (String → Act) → Control → Control
interleave acts c = record c { modules = run_goroutines acts c.modules }

unfoldable pub disable_all : Schedule → List String → Control → Control
disable_all schedule [] c = c
disable_all schedule (n ∷ ns) c =
    let next = disable n (interleave (schedule 0) c) in
    if next.panicked then next else disable_all (later schedule) ns next

module _ (sys : System) where
  -- the method `init`, less the context
  abbrev pub init : Module → Module
  init m = if m.initialized then m else record m { path = sys.program m.path; initialized = true }

  -- `StartModule` up to the goroutine: the map and whether it returned an error
  unfoldable pub start_module : Module → Modules → Modules × Bool
  start_module m ms =
      let started = init m in
      if sys.look_path started.path
      then (insert started.name (record started { goroutines = started.goroutines + 1 }) ms, false)
      else (insert started.name started ms, true)

  abbrev pub after_start : Module → Modules × Bool → Control → Control
  after_start m (ms, false) c = answer_result m.name "enabled" (record c { modules = ms })
  after_start m (ms, true) c =
      answer_error m.name (sys.missing (init m).path) (record c { modules = ms })

  -- one name of `Enable`
  unfoldable pub enable : String → Control → Control
  enable name c = elim (lookup name c.modules) [
    | none ↦ answer_error name "does not exist" c
    | some m ↦ elim m.canceler [
      | some closed ↦ answer_error m.name "already enabled" c
      | none ↦ after_start m (start_module m c.modules) c
    ]
  ]

  unfoldable pub enable_all : Schedule → List String → Control → Control
  enable_all schedule [] c = c
  enable_all schedule (n ∷ ns) c =
      enable_all (later schedule) ns (enable n (interleave (schedule 0) c))

  unfoldable pub control_modules : ModuleControl → Modules → Control
  control_modules control ms = disable_all sys.disabling control.disable (
      enable_all sys.enabling control.enable (record {
        modules = ms;
        results = if control.list then list_all ms [] else [];
        errors = [];
        panicked = false;
      }))

-- how `internalHandler` leaves things
pub record Handled (Raw : Type 0) : Type 0 where
  pub modules : Modules
  pub sent : Sent Raw
  pub failed : Bool
  pub panicked : Bool

module _ {F Raw : Type 0} (sys : System) (bus : Bus F Raw) where
  abbrev left : Modules → Sent Raw → Bool → Handled Raw
  left ms sent failed = record { modules = ms; sent = sent; failed = failed; panicked = false }

  abbrev after_push : Modules → Option PushError × Sent Raw → Handled Raw
  after_push ms (none, sent) = left ms sent false
  after_push ms (some e, sent) = left ms sent true

  abbrev confirm : String → Control → Sent Raw → Handled Raw
  confirm key c sent =
      if c.panicked
      then record { modules = c.modules; sent = sent; failed = false; panicked = true }
      else if key == ""
      then left c.modules sent false
      else elim (new_envelope bus.json "CPU"
          (confirmation (record { confirm = key; results = c.results; errors = c.errors }))) [
            | none ↦ left c.modules sent true
            | some env ↦ after_push c.modules (push bus "INTERNAL" env sent)
          ]

  abbrev obey : ModuleControl × Option FetchError → Modules → Sent Raw → Handled Raw
  obey (control, some (not_kind k)) ms sent = left ms sent false
  obey (control, some unmarshaling) ms sent = left ms sent true
  obey (control, none) ms sent =
      if not (control.recipient == "") && not (control.recipient == "CPU")
      then left ms sent false
      else confirm control.confirm (control_modules sys control ms) sent

  abbrev by_kind : Kind → Envelope Raw → Modules → Sent Raw → Handled Raw
  by_kind Kind.module_control env ms sent = obey (get_module_control bus.json env) ms sent
  by_kind _ env ms sent = left ms sent false

  unfoldable pub internal_handler : Raw → Modules → Sent Raw → Handled Raw
  internal_handler msg ms sent = elim (parse_envelope bus.json msg) [
    | none ↦ left ms sent true
    | some env ↦ by_kind env.kind env ms sent
  ]
