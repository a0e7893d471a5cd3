-- ===== src/Modbus/Server/Configure/Ready.antt =====
-- What `Configure` makes of a new server.
use ot_sim.Common.{
  true, none, some, [], String, ◌==◌, string_eq, or_else, is_some, ◌≡◌, refl, sym, arith, ◌⊎◌,
  Option-cases, Bool-cases, inl, inr,
}
use mathlib.Core.Path.{subst}
use ot_sim.Common.Int.{ℤ, pos, int_eq}
use ot_sim.Common.Dict.{Dict, lookup, insert, lookup-insert, is_some-insert, is_some-insert_self}
use ot_sim.Config.{
  Xml, Conversions, invalid_unit_id, done, Ensures, succeeds, Ensures-bind, Ensures-at, Ensures-if,
  Ensures-fold_all,
}
use ot_sim.Float.{FloatOps}
use ot_sim.Modbus.Config.{number, serial_config, read_register, read_register-IsReady}
use ot_sim.Modbus.Register.{RegisterType, Register, type_eq}
use ot_sim.Modbus.Register.Shape.{IsReady}
use ot_sim.Modbus.Server.State.{Table, Server, new}
use ot_sim.Modbus.Server.Configure.{add_register, configure_child, configure}

-- the table that `r` is put into, after that
abbrev changed : Register → Dict RegisterType Table → Table
changed r tables = insert r.addr r (or_else (lookup r.kind tables) [])

-- a place of the tables after `r` was put there
placed_by :
    (kind : RegisterType) (addr : ℤ) (r q : Register) (table : Table)
    (tables : Dict RegisterType Table)
    → lookup kind (insert r.kind (changed r tables) tables) ≡ some table
    → lookup addr table ≡ some q
    → ((r ≡ q) × (r.kind ≡ kind) × (r.addr ≡ addr))
      ⊎ ((t : Table) × (lookup kind tables ≡ some t) × (lookup addr t ≡ some q))
placed_by kind addr r q table tables e0 e1 = elim (Bool-cases (r.kind == kind)) [
  | inl same ↦ placed_in same
  | inr differ ↦
      inr (table, ground (arith, lookup-insert r.kind kind (changed r tables) tables), e1)
]
  where
    placed_in :
        (r.kind == kind) ≡ true
        → ((r ≡ q) × (r.kind ≡ kind) × (r.addr ≡ addr))
          ⊎ ((t : Table) × (lookup kind tables ≡ some t) × (lookup addr t ≡ some q))
    placed_in same =
        let e2 : changed r tables ≡ table =
          ground (arith, lookup-insert r.kind kind (changed r tables) tables) in
        let e3 : lookup addr (changed r tables) ≡ some q =
          subst (λ t. lookup addr t ≡ some q) (sym e2) e1 in
        let old = or_else (lookup r.kind tables) [] in
        elim (Bool-cases (r.addr == addr)) [
          | inl here ↦ inl (
            ground (arith, lookup-insert r.addr addr r old),
            (type_eq.same_iff r.kind kind).0 same,
            (int_eq.same_iff r.addr addr).0 here,
          )
          | inr elsewhere ↦ elim (Option-cases (lookup r.kind tables)) [
            | inl empty ↦
                let nothing : lookup addr old ≡ none = unfold lookup in rw empty refl in
                ground (arith, lookup-insert r.addr addr r old)
            | inr (t, there) ↦ inr (
              t,
              subst (λ k. lookup k tables ≡ some t) ((type_eq.same_iff r.kind kind).0 same) there,
              ground (arith, lookup-insert r.addr addr r old),
            )
          ]
        ]

module _ {F Raw : Type 0} where
  -- The register is of the type and address that it stands under, is ready, and has its tag.
  abbrev pub IsPlaced : Server F Raw → RegisterType → ℤ → Register → Type 0
  IsPlaced s kind addr r =
      (r.kind ≡ kind) × (r.addr ≡ addr) × IsReady r × (is_some (lookup r.tag s.tags) ≡ true)

  abbrev pub IsConfigured : Server F Raw → Type 0
  IsConfigured s =
      (kind : RegisterType) (table : Table) (addr : ℤ) (r : Register)
      → lookup kind s.registers ≡ some table
      → lookup addr table ≡ some r
      → IsPlaced s kind addr r

module _ {F Raw : Type 0} (fl : FloatOps F) where
  add_register-IsConfigured :
      (r : Register) (s : Server F Raw)
      → IsReady r
      → IsConfigured s
      → IsConfigured (add_register fl r s)
  unfolding add_register
  add_register-IsConfigured r s ready all kind table addr q e0 e1 =
      elim (placed_by kind addr r q table s.registers e0 e1) [
        | inl (e, k, a) ↦
            subst (λ q. IsPlaced (add_register fl r s) kind addr q) e
              (k, a, ready, is_some-insert_self r.tag _ s.tags)
        | inr (t, f, g) ↦
            let (k, a, good, known) = all kind t addr q f g in
            (k, a, good, is_some-insert r.tag q.tag _ s.tags known)
      ]

module _ {F Raw E : Type 0} (fl : FloatOps F) (xml : Xml E) (conv : Conversions F) where
  configure_child-Ensures :
      (child : E) (s : Server F Raw)
      → IsConfigured s
      → Ensures IsConfigured (configure_child fl xml conv child s)
  unfolding configure_child
  configure_child-Ensures child s all =
      Ensures-if IsConfigured (xml.tag child == "pull-endpoint") (succeeds all) (
        Ensures-if IsConfigured (xml.tag child == "pub-endpoint") (succeeds all) (
          Ensures-if IsConfigured (xml.tag child == "id")
            (Ensures-bind IsConfigured (number xml conv (xml.text child) invalid_unit_id) _
              (λ n _. succeeds all))
            (Ensures-if IsConfigured (xml.tag child == "endpoint") (succeeds all) (
              Ensures-if IsConfigured (xml.tag child == "serial")
                (Ensures-bind IsConfigured (serial_config xml conv (pos 0) child) _
                  (λ c _. succeeds all))
                (Ensures-if IsConfigured (xml.tag child == "register")
                  (Ensures-bind IsConfigured (read_register xml conv child) _ (λ r h. succeeds (
                    add_register-IsConfigured fl r s (read_register-IsReady xml conv child r h)
                      all)))
                  (succeeds all))))))

  -- Every server that `Configure` makes of a new one is configured: each register stands under its
  -- own type and address, has been through `Init`, and its tag has a value.
  pub configure-IsConfigured :
      (e : E) (name : String) (s : Server F Raw)
      → configure fl xml conv e (new name) ≡ done s
      → IsConfigured s
  unfolding configure new
  configure-IsConfigured e name s h =
      Ensures-at s
        (Ensures-fold_all IsConfigured (configure_child fl xml conv) (configure_child-Ensures)
          (xml.child_elements e) (new name) (λ kind table addr r e0 e1. unfold lookup in cc))
        h
