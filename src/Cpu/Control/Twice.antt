-- ===== src/Cpu/Control/Twice.antt =====
-- A module that one control message names twice among those to disable: src/go/cpu/internal.go.
use ot_sim.Common.{
  ℕ, suc, ◌≡◌, refl, sym, ap, ◌∙◌, inl, inr, Bool, true, false, some, List, [], ◌∷◌, String, ◌==◌,
  string_eq, if◌then◌else◌, arith, Option-cases, Bool-cases,
}
use mathlib.Core.Path.{subst}
use mathlib.Core.Option.{some-injective}
use ot_sim.Common.Dict.{lookup, lookup-insert}
use ot_sim.Cpu.Control.{
  Module, Modules, Control, Act, waits, act, Schedule, later, run_goroutines, interleave, disable,
  disable_all,
}
use ot_sim.Cpu.Control.Answers.{IsKeyed, run_goroutines-IsKeyed, disable-Step}

abbrev has : String → List String → Bool
has n [] = false
has n (k ∷ ks) = if k == n then true else has n ks

abbrev pub twice : String → List String → Bool
twice n [] = false
twice n (k ∷ ks) = if k == n then has n ks else twice n ks

-- A goroutine that waits leaves its module.
waits-lookup :
    (acts : String → Act) (n : String) (ms : Modules) (m : Module)
    → acts n ≡ waits
    → lookup n ms ≡ some m
    → lookup n (run_goroutines acts ms) ≡ some m
unfolding lookup run_goroutines
waits-lookup acts n [] m quiet e = cc
waits-lookup acts n ((j, q) ∷ ms) m quiet e = elim (Bool-cases (j == n)) [
  | inl same ↦
      let is : q ≡ m = some-injective _ _ (sym (rw (same, lookup) refl) ∙ e) in
      let idle : acts j ≡ waits = ap acts ((string_eq.same_iff j n).0 same) ∙ quiet in
      rw (same, lookup) (rw (idle, act) (ap some is))
  | inr differ ↦
      rw (differ, lookup) (waits-lookup acts n ms m quiet (sym (rw (differ, lookup) refl) ∙ e))
]

-- Disabling one module leaves the others.
disable-lookup :
    (k n : String) (c : Control) (m : Module)
    → IsKeyed c.modules
    → (k == n) ≡ false
    → lookup n c.modules ≡ some m
    → lookup n (disable k c).modules ≡ some m
unfolding disable
disable-lookup k n c m keyed differ e = elim (Option-cases (lookup k c.modules)) [
  | inl gone ↦ rw (gone, disable) e
  | inr (q, found) ↦ elim (Option-cases q.canceler) [
    | inl off ↦ rw (found, off, disable) e
    | inr (true, closed) ↦ rw (found, closed, disable) e
    | inr (false, opened) ↦
        let own : (q.name == n) ≡ false = ap (λ j. j == n) (keyed k q found) ∙ differ in
        rw (found, opened, disable)
          (ground (arith, lookup-insert q.name n (record q { canceler = some true }) c.modules))
  ]
]

-- A closed channel is closed again.
closed-panics :
    (n : String) (c : Control) (m : Module)
    → lookup n c.modules ≡ some m
    → m.canceler ≡ some true
    → (disable n c).panicked ≡ true
unfolding disable
closed-panics n c m found closed = rw (found, closed, disable) refl

-- An open channel is closed.
open-closes :
    (n : String) (c : Control) (m : Module)
    → IsKeyed c.modules
    → lookup n c.modules ≡ some m
    → m.canceler ≡ some false
    → lookup n (disable n c).modules ≡ some (record m { canceler = some true })
unfolding disable
open-closes n c m keyed found opened =
    rw (found, opened, disable)
      (ground (
        arith,
        lookup-insert m.name n (record m { canceler = some true }) c.modules,
        keyed n m found,
        string_eq.same_iff m.name n,
      ))

-- One name of several: the process ends there, or goes on.
disable_all-ends :
    (schedule : Schedule) (j : String) (ns : List String) (c : Control)
    → (disable j (interleave (schedule 0) c)).panicked ≡ true
    → (disable_all schedule (j ∷ ns) c).panicked ≡ true
unfolding disable_all
disable_all-ends schedule j ns c bad = ground arith

disable_all-goes_on :
    (schedule : Schedule) (j : String) (ns : List String) (c : Control)
    → (disable j (interleave (schedule 0) c)).panicked ≡ false
    → disable_all schedule (j ∷ ns) c
      ≡ disable_all (later schedule) ns (disable j (interleave (schedule 0) c))
unfolding disable_all
disable_all-goes_on schedule j ns c good = ground arith

disable_all_closed :
    (schedule : Schedule) (n : String) (ns : List String) (c : Control) (m : Module)
    → IsKeyed c.modules
    → lookup n c.modules ≡ some m
    → m.canceler ≡ some true
    → ((k : ℕ) → schedule k n ≡ waits)
    → has n ns ≡ true
    → (disable_all schedule ns c).panicked ≡ true
unfolding disable_all
disable_all_closed schedule n [] c m keyed found closed quiet h = cc
disable_all_closed schedule n (j ∷ ns) c m keyed found closed quiet h =
    let before = interleave (schedule 0) c in
    let keyed' = run_goroutines-IsKeyed (schedule 0) c.modules keyed in
    let found' = waits-lookup (schedule 0) n c.modules m (quiet 0) found in
    elim (Bool-cases (disable j before).panicked) [
      | inl bad ↦ disable_all-ends schedule j ns c bad
      | inr good ↦ elim (Bool-cases (j == n)) [
        | inl same ↦
            let at : j ≡ n = (string_eq.same_iff j n).0 same in
            let bad : (disable j before).panicked ≡ true =
              ap (λ k. (disable k before).panicked) at ∙ closed-panics n before m found' closed in
            cc
        | inr differ ↦
            ap (λ (d : Control). d.panicked) (disable_all-goes_on schedule j ns c good)
            ∙ (disable_all_closed (later schedule) n ns (disable j before) m
                (disable-Step j before keyed' good).keyed
                (disable-lookup j n before m keyed' differ found') closed (λ k. quiet (suc k))
                (sym (rw differ refl) ∙ h))
      ]
    ]

-- A message that names an enabled module at least twice among those to disable, over modules that
-- stand under their own names, panics, whatever else it names and whatever the goroutines of other
-- modules do, if the goroutine of this one does not run while the names are gone through: its channel
-- is closed a second time.
pub disable_all-twice :
    (schedule : Schedule) (n : String) (ns : List String) (c : Control) (m : Module)
    → IsKeyed c.modules
    → lookup n c.modules ≡ some m
    → m.canceler ≡ some false
    → ((k : ℕ) → schedule k n ≡ waits)
    → twice n ns ≡ true
    → (disable_all schedule ns c).panicked ≡ true
unfolding disable_all
disable_all-twice schedule n [] c m keyed found opened quiet h = cc
disable_all-twice schedule n (j ∷ ns) c m keyed found opened quiet h =
    let before = interleave (schedule 0) c in
    let keyed' = run_goroutines-IsKeyed (schedule 0) c.modules keyed in
    let found' = waits-lookup (schedule 0) n c.modules m (quiet 0) found in
    elim (Bool-cases (disable j before).panicked) [
      | inl bad ↦ disable_all-ends schedule j ns c bad
      | inr good ↦
          let keyed'' = (disable-Step j before keyed' good).keyed in
          ap (λ (d : Control). d.panicked) (disable_all-goes_on schedule j ns c good)
          ∙ (elim (Bool-cases (j == n)) [
            | inl same ↦
                let at : j ≡ n = (string_eq.same_iff j n).0 same in
                disable_all_closed (later schedule) n ns (disable j before)
                  (record m { canceler = some true }) keyed''
                  (subst
                    (λ i.
                      lookup n (disable i before).modules
                      ≡ some (record m { canceler = some true }))
                    (sym at) (open-closes n before m keyed' found' opened))
                  refl (λ k. quiet (suc k)) (sym (rw same refl) ∙ h)
            | inr differ ↦
                disable_all-twice (later schedule) n ns (disable j before) m keyed''
                  (disable-lookup j n before m keyed' differ found') opened (λ k. quiet (suc k))
                  (sym (rw differ refl) ∙ h)
          ])
    ]
