-- ===== src/Logic/Configure/Sound.antt =====
-- What `Configure` of src/go/logic/logic.go makes of a new logic module.
use ot_sim.Common.{
  get_elem-snoc, ℕ, ◌+◌, ◌≡◌, refl, sym, ap, ◌∙◌, Bool, true, false, Option, none, some, List, [],
  ◌∷◌, ◌++◌, String, ◌==◌, string_eq, nat_eq, or_else, is_some, length, length-append, get_elem?,
  starts_with, Bool-cases, inl, inr, every_if, every_option,
}
use mathlib.Core.Path.{subst}
use mathlib.Core.Option.{some-injective}
use ot_sim.Common.Int.{ℤ}
use ot_sim.Common.Dict.{lookup, insert, lookup-insert, is_some-insert, is_some-insert_self}
use ot_sim.Config.{
  Xml, Conversions, Configured-cases, done, Ensures, succeeds, fails, Ensures-bind, Ensures-at,
  Ensures-if, Ensures-fold_all,
}
use ot_sim.Float.{FloatOps}
use ot_sim.Logic.{Value, Language, Strings, Logic, new}
use ot_sim.Logic.Configure.{
  compiled, skipped, add_code, start_variable, add_sides, add_line, add_lines, variable_value,
  add_variable, configure_child, configure,
}

module _ {F P X Raw : Type 0} where
  -- Every line of the program that is not skipped has its code, and every variable of a tag is in
  -- the environment, under its own tag's name and back.
  pub record IsSound (l : Logic F P X Raw) : Type 0 where
    pub programmed :
        (i : ℕ) (o : String)
        → get_elem? l.order i ≡ some o
        → (o == "") ≡ false
        → is_some (lookup i l.program) ≡ true
    pub started :
        (tag v : String) → lookup tag l.tag_to_var ≡ some v → is_some (lookup v l.env) ≡ true
    pub tagged :
        (v tag : String)
        → lookup v l.var_to_tag ≡ some tag
        → (is_some (lookup tag l.tag_to_var) ≡ true) × (is_some (lookup v l.env) ≡ true)

module _ {F P X Raw : Type 0} (fl : FloatOps F) (lang : Language F P X) (str : Strings) where
  -- what holds before line `i`
  abbrev At : ℕ → Logic F P X Raw → Type 0
  At i l = IsSound l × (length l.order ≡ i)

  skipped-At : (i : ℕ) (l : Logic F P X Raw) → At i l → At (i + 1) (skipped fl lang str l)
  skipped-At i l (sound, long) = (
    record {
      programmed = λ k o e named. elim (get_elem-snoc l.order "" o k e) [
        | inl f ↦ sound.programmed k o f named
        | inr (f, g) ↦ cc
      ];
      started = sound.started;
      tagged = sound.tagged;
    },
    length-append l.order _ ∙ ap (λ n. n + 1) long,
  )

  add_code-At :
      (i : ℕ) (left : String) (p : P) (l : Logic F P X Raw)
      → At i l
      → At (i + 1) (add_code fl lang str i left p l)
  add_code-At i left p l (sound, long) = (
    record {
      programmed = λ k o e named. elim (get_elem-snoc l.order left o k e) [
        | inl f ↦ is_some-insert i k p l.program (sound.programmed k o f named)
        | inr (f, g) ↦
            subst (λ j. is_some (lookup j (insert i p l.program)) ≡ true) (sym (f ∙ long))
              (is_some-insert_self i p l.program)
      ];
      started = sound.started;
      tagged = sound.tagged;
    },
    length-append l.order _ ∙ ap (λ n. n + 1) long,
  )

  start_variable-At :
      (i : ℕ) (left : String) (l : Logic F P X Raw)
      → At i l
      → At i (start_variable fl lang str left l)
  start_variable-At i left l (sound, long) =
      every_if (At i) (is_some (lookup left l.env)) (sound, long)
        (
          record {
            programmed = sound.programmed;
            started = λ tag v e. is_some-insert left v _ l.env (sound.started tag v e);
            tagged = λ v tag e.
                let (known, there) = sound.tagged v tag e in
                (known, is_some-insert left v _ l.env there);
          },
          long,
        )

  add_sides-At :
      (i : ℕ) (line : String) (sides : Option (String × String)) (l : Logic F P X Raw)
      → At i l
      → Ensures (At (i + 1)) (add_sides fl lang str i line sides l)
  add_sides-At i line none l at =
      Ensures-if (At (i + 1)) (starts_with (str.trim_space line) "sprintf")
        (Ensures-bind (At (i + 1)) (compiled lang (str.trim_space line)) _
          (λ p _. succeeds (add_code-At i (str.sprintf_name i) p l at)))
        (succeeds (skipped-At i l at))
  add_sides-At i line (some (before, after)) l at =
      Ensures-bind (At (i + 1)) (compiled lang (str.trim_space after)) _ (λ p _.
        succeeds (start_variable-At (i + 1) _ _ (add_code-At i (str.trim_space before) p l at)))

  add_lines-Ensures :
      (i : ℕ) (lines : List String) (l : Logic F P X Raw)
      → At i l
      → Ensures IsSound (add_lines fl lang str i lines l)
  unfolding add_lines add_line
  add_lines-Ensures i [] l at = succeeds at.0
  add_lines-Ensures i (line ∷ lines) l at =
      let first : Ensures (At (i + 1)) (add_line fl lang str i line l) =
        Ensures-if (At (i + 1)) (starts_with line "#") (succeeds (skipped-At i l at))
          (add_sides-At i line (str.cut line) l at) in
      elim (Configured-cases (add_line fl lang str i line l)) [
        | inl (x, stop) ↦ rw (stop, add_lines) fails
        | inr (m, go) ↦
            rw (go, add_lines) (add_lines-Ensures (i + 1) lines m (Ensures-at m first go))
      ]

module _ {F P X Raw E : Type 0} (xml : Xml E) (conv : Conversions F) where
  named_variable :
      (l : Logic F P X Raw) (name tag : String) (value : Value F X)
      → IsSound l
      → IsSound (record l {
        var_to_tag = insert name tag l.var_to_tag;
        tag_to_var = insert tag name l.tag_to_var;
        variables = l.variables ++ name ∷ [];
        env = insert name value l.env;
      })
  named_variable l name tag value sound = record {
    programmed = sound.programmed;
    started = λ t v e. elim (Bool-cases (tag == t)) [
      | inl here ↦
          let same : name ≡ v =
            some-injective _ _ (sym (lookup-insert tag t name l.tag_to_var ∙ rw here refl) ∙ e) in
          subst (λ w. is_some (lookup w (insert name value l.env)) ≡ true) same
            (is_some-insert_self name value l.env)
      | inr differ ↦
          is_some-insert name v value l.env
            (sound.started t v (sym (lookup-insert tag t name l.tag_to_var ∙ rw differ refl) ∙ e))
    ];
    tagged = λ v t e. elim (Bool-cases (name == v)) [
      | inl here ↦
          let same : tag ≡ t =
            some-injective _ _ (sym (lookup-insert name v tag l.var_to_tag ∙ rw here refl) ∙ e) in
          (
            subst (λ w. is_some (lookup w (insert tag name l.tag_to_var)) ≡ true) same
                (is_some-insert_self tag name l.tag_to_var),
            subst (λ w. is_some (lookup w (insert name value l.env)) ≡ true)
                ((string_eq.same_iff name v).0 here) (is_some-insert_self name value l.env),
          )
      | inr differ ↦
          let (known, there) =
            sound.tagged v t (sym (lookup-insert name v tag l.var_to_tag ∙ rw differ refl) ∙ e) in
          (is_some-insert tag t name l.tag_to_var known, is_some-insert name v value l.env there)
    ];
  }

  add_variable-Ensures :
      (v : E) (l : Logic F P X Raw) → IsSound l → Ensures IsSound (add_variable xml conv v l)
  unfolding add_variable
  add_variable-Ensures v l sound =
      Ensures-bind IsSound (variable_value conv (xml.text v)) _ (λ value _.
        succeeds (
          named_variable l (xml.tag v) (or_else (xml.select_attr "tag" v) (xml.tag v)) value sound))

module _ {F P X Raw E : Type 0} (fl : FloatOps F) (lang : Language F P X) (str : Strings)
    (xml : Xml E) (conv : Conversions F) where
  restarted : (l : Logic F P X Raw) → IsSound l → IsSound (record l { order = [] })
  restarted l sound = record {
    programmed = λ i o e named. cc;
    started = sound.started;
    tagged = sound.tagged;
  }

  same_program :
      (l : Logic F P X Raw) (pull_endpoint pub_endpoint : String) (period : ℤ)
      (process_updates : Bool)
      → IsSound l
      → IsSound (record l {
        pull_endpoint = pull_endpoint;
        pub_endpoint = pub_endpoint;
        period = period;
        process_updates = process_updates;
      })
  same_program l pull_endpoint pub_endpoint period process_updates sound = record {
    programmed = sound.programmed;
    started = sound.started;
    tagged = sound.tagged;
  }

  configure_child-Ensures :
      (child : E) (l : Logic F P X Raw)
      → IsSound l
      → Ensures IsSound (configure_child fl lang str xml conv child l)
  unfolding configure_child
  configure_child-Ensures child l sound =
      Ensures-if IsSound (xml.tag child == "pull-endpoint")
        (succeeds (same_program l (xml.text child) l.pub_endpoint l.period l.process_updates sound))
        (Ensures-if IsSound (xml.tag child == "pub-endpoint")
          (succeeds
            (same_program l l.pull_endpoint (xml.text child) l.period l.process_updates sound))
          (Ensures-if IsSound (xml.tag child == "period")
            (every_option (Ensures IsSound) (conv.parse_duration (xml.text child)) fails (λ d.
              succeeds (same_program l l.pull_endpoint l.pub_endpoint d l.process_updates sound)))
            (Ensures-if IsSound (xml.tag child == "program")
              (add_lines-Ensures fl lang str 0 (str.lines (xml.text child))
                (record l { order = [] }) (restarted l sound, refl))
              (Ensures-if IsSound (xml.tag child == "variables")
                (Ensures-fold_all IsSound (add_variable xml conv) (add_variable-Ensures xml conv)
                  (xml.child_elements child) l sound)
                (Ensures-if IsSound (xml.tag child == "process-updates")
                  (every_option (Ensures IsSound) (conv.parse_bool (xml.text child)) fails (λ b.
                    succeeds (same_program l l.pull_endpoint l.pub_endpoint l.period b sound)))
                  (succeeds sound))))))

  -- Every logic module that `Configure` makes of a new one is sound: each line of the program that
  -- is not skipped has its code, the variable of each tag is in the environment, and each variable
  -- that has a tag is in the environment and its tag stands for a variable.
  pub configure-IsSound :
      (e : E) (name : String) (l : Logic F P X Raw)
      → configure fl lang str xml conv e (new name) ≡ done l
      → IsSound l
  unfolding configure new
  configure-IsSound e name l h =
      Ensures-at l
        (Ensures-fold_all IsSound (configure_child fl lang str xml conv) configure_child-Ensures
          (xml.child_elements e) (new name)
          (record {
            programmed = λ i o e named. cc;
            started = λ t v e. unfold lookup in cc;
            tagged = λ v t e. unfold lookup in cc;
          }))
        h
