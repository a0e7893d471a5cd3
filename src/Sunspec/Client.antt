-- ===== src/Sunspec/Client.antt =====
-- The SunSpec client: src/go/sunspec/client/client.go and src/go/sunspec/client/util.go. The Modbus
-- library is the parameter `Device` that the Modbus client has too, and `equal` is `==` of float64.
pub mod Poll
pub mod Data
pub mod Unscaled
use ot_sim.Common.{
  ℕ, zero, suc, ◌+◌, ◌*◌, ◌%◌, Bool, true, false, not, Option, none, some, List, [], ◌∷◌, ◌++◌,
  String, ◌==◌, string_eq, if◌then◌else◌, drop, slice, is_some,
}
use ot_sim.Common.Int.{ℤ, pos, int_eq, ◌+ℤ◌}
use ot_sim.Common.Dict.{Dict, lookup, insert}
use ot_sim.Config.{Xml, Conversions, invalid_period, Configured, done, failed, fold_all}
use ot_sim.Float.{FloatOps, word_int}
use ot_sim.Modbus.Client.{Device, uint16_of}
use ot_sim.Msgbus.Pusher.{Sent}
use ot_sim.Sunspec.Model.{ScaleFactor, nil, int, float64, string, unknown, SchemaPoint, Schema}
use ot_sim.Sunspec.Register.{
  DataType, uint16, Register, Result, ok, err, panics, init, value, identifier_register,
}
use ot_sim.Sunspec.Server.Configure.{well_known}

pub record Settings : Type 0 where
  pub start_addr : ℤ
  pub length : ℤ

-- `order` and `settings` are the field `models`.
pub record Client (F Raw : Type 0) : Type 0 where
  pub pull_endpoint : String
  pub pub_endpoint : String
  pub name : String
  pub id : ℤ
  pub endpoint : String
  pub period : ℤ
  pub order : List ℤ
  pub settings : Dict ℤ Settings
  pub points : Dict String (Register F)
  pub sent : Sent Raw

unfoldable pub new : {F Raw : Type 0} → String → Client F Raw
new name = record {
  pull_endpoint = "";
  pub_endpoint = "";
  name = name;
  id = pos 0;
  endpoint = "";
  period = pos 5000000000;
  order = [];
  settings = [];
  points = [];
  sent = [];
}

module _ {F Raw E : Type 0} (xml : Xml E) (conv : Conversions F) where
  unfoldable pub configure_child : E → Client F Raw → Configured (Client F Raw)
  configure_child child c =
      let name = xml.tag child in
      let text = xml.text child in
      if name == "pull-endpoint"
      then done (record c { pull_endpoint = text })
      else if name == "pub-endpoint"
      then done (record c { pub_endpoint = text })
      else if name == "endpoint"
      then done (record c { endpoint = text })
      else if name == "period"
      then elim (conv.parse_duration text) [
        | none ↦ failed invalid_period
        | some d ↦ done (record c { period = d })
      ]
      else done c

  unfoldable pub configure : E → Client F Raw → Configured (Client F Raw)
  configure e c = fold_all configure_child (xml.child_elements e) c

abbrev pub and_then : {A B : Type 0} → Result A → (A → Result B) → Result B
and_then (ok a) f = f a
and_then err f = err
and_then panics f = panics

-- an error, and a slice out of range
abbrev pub or_err : {A : Type 0} → Option A → Result A
or_err none = err
or_err (some a) = ok a

abbrev pub or_panics : {A : Type 0} → Option A → Result A
or_panics none = panics
or_panics (some a) = ok a

module _ {F : Type 0} (fl : FloatOps F) where
  -- `int(v)`
  abbrev pub int_of : F → ℤ
  int_of v = word_int true 64 (fl.to_word true 64 v)

  abbrev pub generic : Register F
  generic = record {
    data_kind = uint16;
    name = "";
    model = pos 0;
    count = 0;
    scaling = fl.from_int (pos 0);
    tag = "";
    scale_register = "";
    internal_value = fl.from_int (pos 0);
    internal_string = [];
    raw = none;
    addr = pos 0;
  }

  unfoldable pub confirm_identifier : (F → F → Bool) → Option (List ℕ) → Result Unit
  confirm_identifier equal body = and_then (or_err body) (λ bytes.
      and_then
        (value fl (well_known fl (identifier_register fl)) (some bytes) (fl.from_int (pos 0)))
        (λ v. if equal v (fl.from_int (pos 1400204883)) then ok tt else err))

  -- the model and its length, from the data read at an address
  unfoldable pub next_model : Option (List ℕ) → Result (ℤ × ℤ)
  next_model body = and_then (or_err (init fl generic)) (λ r. and_then (or_err body) (λ d.
      and_then (or_panics (slice 0 2 d)) (λ m_bytes.
        and_then (value fl r (some m_bytes) (fl.from_int (pos 0))) (λ m.
          and_then (or_panics (slice 2 4 d)) (λ l_bytes.
            and_then (value fl r (some l_bytes) (fl.from_int (pos 0)))
              (λ l. ok (int_of m, int_of l)))))))

  -- the `switch` over a scale factor; a number of a JSON file is a float64
  abbrev pub with_scale : ScaleFactor F → Register F → Result (Register F)
  with_scale nil r = ok r
  with_scale (int n) r = ok (record r { scaling = fl.from_int n })
  with_scale (string s) r = ok (record r { scale_register = s })
  with_scale (float64 v) r = err
  with_scale unknown r = err

  abbrev pub blank : ℤ → ℤ → ℕ → SchemaPoint F → Register F
  blank m a at p = record generic {
    data_kind = p.kind;
    name = p.name;
    model = m;
    addr = if p.writable then a +ℤ pos at else pos 0;
  }

  -- the register of a point whose data begin at the offset `at` of `d`
  unfoldable pub model_register : ℤ → ℤ → List ℕ → ℕ → SchemaPoint F → Result (Register F)
  model_register m a d at p = and_then (with_scale p.sf (blank m a at p)) (λ r.
      and_then (or_err (init fl r)) (λ q.
        and_then (or_panics (slice at (at + p.size * 2) d))
          (λ raw. ok (record q { raw = some raw }))))

  -- the loop over the points behind the first two
  unfoldable pub model_registers :
      ℤ → ℤ → List ℕ → ℕ → Schema F → Dict String (Register F) → Result (Dict String (Register F))
  model_registers m a d at [] regs = ok regs
  model_registers m a d at (p ∷ ps) regs = elim (model_register m a d at p) [
    | ok r ↦ model_registers m a d (at + p.size * 2) ps (insert r.name r regs)
    | err ↦ err
    | panics ↦ panics
  ]

  unfoldable pub model_data :
      (ℤ → Option (Schema F)) → Option (List ℕ) → ℤ → ℤ → Result (Dict String (Register F))
  model_data schema body m a =
      and_then (or_err body)
        (λ d. and_then (or_err (schema m)) (λ s. model_registers m a d 0 (drop 2 s) []))

-- the scaling that a register is read or written with; `none` where its scale factor is missing
abbrev pub scaling_for :
    {F : Type 0} → FloatOps F → Dict String (Register F) → Register F → Option F
scaling_for fl points r =
    if r.scale_register == ""
    then some (fl.from_int (pos 0))
    else elim (lookup r.scale_register points) [ none ↦ none | some p ↦ some p.internal_value ]
