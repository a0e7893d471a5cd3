-- ===== src/Cpu/Control/Answers.antt =====
-- Every module that a control message names is answered for.
use ot_sim.Common.{
  ◌+◌, ◌≡◌, refl, ◌⊎◌, inl, inr, true, false, is_some, some, List, [], ◌∷◌, String, string_eq,
  if◌then◌else◌, arith, Option-cases, Bool-cases, sym, ap, ◌∙◌, every_if, ◌==◌, nat_eq,
}
use mathlib.Core.Path.{subst}
use mathlib.Core.Option.{some-injective}
use ot_sim.Common.Dict.{lookup, insert, lookup-insert, is_some-insert, is_some-insert_self}
use ot_sim.Msgbus.Types.{ModuleControl}
use ot_sim.Cpu.Control.{
  Module, Modules, System, Control, init, start_module, after_start, answer_result, answer_error,
  Act, waits, makes, clears, act, Schedule, later, run_goroutines, interleave, enable, disable,
  enable_all, disable_all, control_modules, list_all,
}

-- every module stands under its own name
abbrev pub IsKeyed : Modules → Type 0
IsKeyed ms = (k : String) (m : Module) → lookup k ms ≡ some m → m.name ≡ k

-- the name has a result or an error
abbrev pub IsAnswered : Control → String → Type 0
IsAnswered c name =
    (is_some (lookup name c.results) ≡ true) ⊎ (is_some (lookup name c.errors) ≡ true)

abbrev pub AllAnswered : Control → List String → Type 0
AllAnswered c [] = Unit
AllAnswered c (n ∷ ns) = IsAnswered c n × AllAnswered c ns

-- what handling one name does: it is answered for, and those before it still are
pub record Step (n : String) (c d : Control) : Type 0 where
  pub keyed : IsKeyed d.modules
  answered : IsAnswered d n
  kept : (j : String) → IsAnswered c j → IsAnswered d j

pub IsKeyed-insert : (m : Module) (ms : Modules) → IsKeyed ms → IsKeyed (insert m.name m ms)
IsKeyed-insert m ms h k n e =
    ground (arith, lookup-insert m.name k m ms, string_eq.same_iff m.name k, h k n)

act-name : (a : Act) (m : Module) → (act a m).name ≡ m.name
act-name waits m = refl
act-name makes m = every_if (λ (x : Module). x.name ≡ m.name) (m.goroutines == 0) refl refl
act-name clears m = elim (Option-cases m.canceler) [
  | inl off ↦ rw (off, act) refl
  | inr (true, closed) ↦ rw (closed, act) refl
  | inr (false, opened) ↦ rw (opened, act) refl
]

-- What the goroutines leave of a module, and of its entry.
lookup-run_goroutines :
    (acts : String → Act) (k : String) (ms : Modules) (m : Module)
    → lookup k (run_goroutines acts ms) ≡ some m
    → (q : Module) × (lookup k ms ≡ some q) × (m.name ≡ q.name)
unfolding lookup run_goroutines
lookup-run_goroutines acts k [] m e = cc
lookup-run_goroutines acts k ((j, q) ∷ ms) m e = elim (Bool-cases (j == k)) [
  | inl same ↦ (
    q,
    rw (same, lookup) refl,
    ap (λ (x : Module). x.name) (some-injective m (act (acts j) q) (sym e ∙ rw (same, lookup) refl))
        ∙ act-name (acts j) q,
  )
  | inr differ ↦
      let (p, found, own) =
        lookup-run_goroutines acts k ms m (sym (rw (differ, lookup) refl) ∙ e) in
      (p, rw (differ, lookup) refl ∙ found, own)
]

pub run_goroutines-IsKeyed :
    (acts : String → Act) (ms : Modules) → IsKeyed ms → IsKeyed (run_goroutines acts ms)
run_goroutines-IsKeyed acts ms keyed k m e =
    let (q, found, own) = lookup-run_goroutines acts k ms m e in own ∙ keyed k q found

answer_result-Step :
    (name text : String) (ms : Modules) (c : Control)
    → IsKeyed ms
    → Step name c (answer_result name text (record c { modules = ms }))
answer_result-Step name text ms c keyed = record {
  keyed = keyed;
  answered = inl (is_some-insert_self name text c.results);
  kept = λ j h. elim h [ inl r ↦ inl (is_some-insert name j text c.results r) | inr e ↦ inr e ];
}

answer_error-Step :
    (name text : String) (ms : Modules) (c : Control)
    → IsKeyed ms
    → Step name c (answer_error name text (record c { modules = ms }))
answer_error-Step name text ms c keyed = record {
  keyed = keyed;
  answered = inr (is_some-insert_self name text c.errors);
  kept = λ j h. elim h [ inl r ↦ inl r | inr e ↦ inr (is_some-insert name j text c.errors e) ];
}

pub disable-Step :
    (n : String) (c : Control)
    → IsKeyed c.modules
    → (disable n c).panicked ≡ false
    → Step n c (disable n c)
unfolding disable
disable-Step n c keyed h = elim (Option-cases (lookup n c.modules)) [
  | inl gone ↦ rw (gone, disable) (answer_error-Step n "does not exist" c.modules c keyed)
  | inr (m, found) ↦
      subst (λ k. Step k c (disable n c)) (keyed n m found)
        (elim (Option-cases m.canceler) [
          | inl off ↦
              rw (found, off, disable)
                (answer_error-Step m.name "already disabled" c.modules c keyed)
          | inr (true, closed) ↦
              let e : (disable n c).panicked ≡ true = rw (found, closed, disable) refl in cc
          | inr (false, opened) ↦
              rw (found, opened, disable)
                (answer_result-Step m.name "disabled" _ c
                  (IsKeyed-insert (record m { canceler = some true }) c.modules keyed))
        ])
]

-- what handling several names does
record Steps (ns : List String) (c d : Control) : Type 0 where
  keyed : IsKeyed d.modules
  answered : AllAnswered d ns
  kept : (j : String) → IsAnswered c j → IsAnswered d j

Steps-cons :
    (n : String) (ns : List String) (a b c : Control)
    → Step n a b
    → Steps ns b c
    → Steps (n ∷ ns) a c
Steps-cons n ns a b c s r = record {
  keyed = r.keyed;
  answered = (r.kept n s.answered, r.answered);
  kept = λ j h. r.kept j (s.kept j h);
}

-- A step behind goroutines is a step: they answer nothing.
interleaved :
    (acts : String → Act) (n : String) (c d : Control) → Step n (interleave acts c) d → Step n c d
interleaved acts n c d s = record { keyed = s.keyed; answered = s.answered; kept = s.kept }

disable_all-Steps :
    (schedule : Schedule) (ns : List String) (c : Control)
    → IsKeyed c.modules
    → (disable_all schedule ns c).panicked ≡ false
    → Steps ns c (disable_all schedule ns c)
unfolding disable_all
disable_all-Steps schedule [] c keyed h = record { keyed = keyed; answered = tt; kept = λ j a. a }
disable_all-Steps schedule (n ∷ ns) c keyed h =
    let before = interleave (schedule 0) c in
    elim (Bool-cases (disable n before).panicked) [
      | inl bad ↦ cc
      | inr good ↦
          let s =
            disable-Step n before (run_goroutines-IsKeyed (schedule 0) c.modules keyed) good in
          let e : disable_all schedule (n ∷ ns) c
              ≡ disable_all (later schedule) ns (disable n before) =
            ground arith in
          subst (λ d. Steps (n ∷ ns) c d) (sym e)
            (Steps-cons n ns c (disable n before) _ (interleaved (schedule 0) n c _ s)
              (disable_all-Steps (later schedule) ns (disable n before) s.keyed (ground arith)))
    ]

AllAnswered-kept :
    (ns : List String) (c d : Control)
    → ((j : String) → IsAnswered c j → IsAnswered d j)
    → AllAnswered c ns
    → AllAnswered d ns
AllAnswered-kept [] c d f h = tt
AllAnswered-kept (n ∷ ns) c d f h = (f n h.0, AllAnswered-kept ns c d f h.1)

module _ (sys : System) where
  after_start-Step :
      (m : Module) (c : Control)
      → IsKeyed c.modules
      → Step m.name c (after_start sys m (start_module sys m c.modules) c)
  unfolding start_module
  after_start-Step m c keyed = elim (Bool-cases (sys.look_path (init sys m).path)) [
    | inl there ↦ rw there (
        answer_result-Step m.name "enabled" _ c (
          IsKeyed-insert (record (init sys m) { goroutines = (init sys m).goroutines + 1 })
            c.modules keyed))
    | inr gone ↦ rw gone (
        answer_error-Step m.name (sys.missing (init sys m).path) _ c
          (IsKeyed-insert (init sys m) c.modules keyed))
  ]

  enable-Step : (n : String) (c : Control) → IsKeyed c.modules → Step n c (enable sys n c)
  unfolding enable
  enable-Step n c keyed = elim (Option-cases (lookup n c.modules)) [
    | inl gone ↦ rw (gone, enable) (answer_error-Step n "does not exist" c.modules c keyed)
    | inr (m, found) ↦
        subst (λ k. Step k c (enable sys n c)) (keyed n m found)
          (elim (Option-cases m.canceler) [
            | inr (closed, on) ↦
                rw (found, on, enable)
                  (answer_error-Step m.name "already enabled" c.modules c keyed)
            | inl off ↦ rw (found, off, enable) (after_start-Step m c keyed)
          ])
  ]

  enable_all-Steps :
      (schedule : Schedule) (ns : List String) (c : Control)
      → IsKeyed c.modules
      → Steps ns c (enable_all sys schedule ns c)
  unfolding enable_all
  enable_all-Steps schedule [] c keyed = record { keyed = keyed; answered = tt; kept = λ j a. a }
  enable_all-Steps schedule (n ∷ ns) c keyed =
      let before = interleave (schedule 0) c in
      let s = enable-Step n before (run_goroutines-IsKeyed (schedule 0) c.modules keyed) in
      Steps-cons n ns c (enable sys n before) _ (interleaved (schedule 0) n c _ s)
        (enable_all-Steps (later schedule) ns (enable sys n before) s.keyed)

  -- A control message that does not panic, over modules that stand under their own names, leaves a
  -- result or an error for every name that it asks to enable or to disable, and keeps the modules
  -- under their own names.
  pub control_modules-AllAnswered :
      (control : ModuleControl) (ms : Modules)
      → IsKeyed ms
      → (control_modules sys control ms).panicked ≡ false
      → AllAnswered (control_modules sys control ms) control.enable
        × AllAnswered (control_modules sys control ms) control.disable
        × IsKeyed (control_modules sys control ms).modules
  unfolding control_modules
  control_modules-AllAnswered control ms keyed h =
      let asked : Control = record {
        modules = ms;
        results = if control.list then list_all ms [] else [];
        errors = [];
        panicked = false;
      } in
      let on = enable_all-Steps sys.enabling control.enable asked keyed in
      let middle = enable_all sys sys.enabling control.enable asked in
      let off = disable_all-Steps sys.disabling control.disable middle on.keyed h in
      (
        AllAnswered-kept control.enable middle (disable_all sys.disabling control.disable middle)
            off.kept on.answered,
        off.answered,
        off.keyed,
      )
