-- ===== src/Modbus/Server/State.antt =====
-- The state of the Modbus server and the answers of its handlers: `ModbusServer` of
-- src/go/modbus/server/server.go. A handler runs as one step: the locks that the source takes
-- around each access of `tags` are left out, and so are its log lines.
use ot_sim.Common.{
  ℕ, ◌≡◌, ap, refl, Option-cases, inl, inr, arith, ◌+◌, Bool, false, not, is_some, Option, none,
  some, List, [], ◌∷◌, ◌++◌, true, String, slice, string_eq,
}
use mathlib.Core.Path.{fun_ext}
use ot_sim.Common.Int.{ℤ, pos, int_eq}
use ot_sim.Common.Dict.{Dict, lookup, index}
use ot_sim.Float.{FloatOps}
use ot_sim.Msgbus.Types.{Envelope, Point}
use ot_sim.Msgbus.Envelope.{new_envelope, update}
use ot_sim.Msgbus.Pusher.{Bus, Sent, encoded, push, push_failed, push_sent}
use ot_sim.Msgbus.Metric.{MetricsPusher, new_metrics_pusher}
use ot_sim.Modbus.Register.{RegisterType, type_eq, Register, of_bytes}

-- `serial.Config`, of which only the presence matters to the handlers
pub record Serial : Type 0 where
  pub address : String
  pub baud_rate : ℤ
  pub data_bits : ℤ
  pub stop_bits : ℤ
  pub parity : String
  pub timeout : ℤ

abbrev pub Table : Type 0
Table = Dict ℤ Register

-- `sent` is what `pusher` has sent.
pub record Server (F Raw : Type 0) : Type 0 where
  pub pull_endpoint : String
  pub pub_endpoint : String
  pub name : String
  pub id : ℤ
  pub endpoint : String
  pub serial : Option Serial
  pub registers : Dict RegisterType Table
  pub tags : Dict String F
  pub metrics : MetricsPusher F
  pub sent : Sent Raw

unfoldable pub new : {F Raw : Type 0} → String → Server F Raw
unfolding new_metrics_pusher
new name = record {
  pull_endpoint = "";
  pub_endpoint = "";
  name = name;
  id = pos 1;
  endpoint = "";
  serial = none;
  registers = [];
  tags = [];
  metrics = new_metrics_pusher;
  sent = [];
}

pub data Exception : Type 0 where
  illegal_data_address illegal_data_value slave_device_failure : Exception

-- What a handler returns: a reply with `Success`, an exception, a run-time panic, or nothing, where
-- its loop does not end.
pub data Response : Type 0 where
  success : List ℕ → Response
  exception : Exception → Response
  panic diverges : Response

-- `binary.BigEndian.Uint16(data[lo:lo+2])`, where `none` is the panic of the slice
unfoldable pub uint16_at : ℕ → List ℕ → Option ℕ
unfolding slice of_bytes
uint16_at lo bytes = elim (slice lo (lo + 2) bytes) [ none ↦ none | some bs ↦ some (of_bytes 0 bs) ]

-- what the handlers of a range begin with: the table, then the start address and the count
abbrev pub with_range : {A : Type 0} → Option Table → List ℕ → A → A → (Table → ℕ → ℕ → A) → A
with_range none bytes missing short body = missing
with_range (some table) bytes missing short body = elim (uint16_at 0 bytes) [
  | none ↦ short
  | some start ↦ elim (uint16_at 2 bytes) [ none ↦ short | some count ↦ body table start count ]
]

module _ {A : Type 0} (bytes : List ℕ) (missing short : A) where
  pub with_range-some :
      (o : Option Table) (f : Table → ℕ → ℕ → A) {table : Table} {start count : ℕ}
      → o ≡ some table
      → uint16_at 0 bytes ≡ some start
      → uint16_at 2 bytes ≡ some count
      → with_range o bytes missing short f ≡ f table start count
  with_range-some o f e0 e1 e2 = rw (e0, e1, with_range) (rw (e2, with_range))

  pub with_range_eq :
      (o : Option Table) (f g : Table → ℕ → ℕ → A)
      → ((table : Table) (start count : ℕ) → f table start count ≡ g table start count)
      → with_range o bytes missing short f ≡ with_range o bytes missing short g
  with_range_eq o f g h =
      ap (with_range o bytes missing short)
        (fun_ext λ table. fun_ext λ start. fun_ext λ count. h table start count)

module _ {F : Type 0} (fl : FloatOps F) where
  -- `this.tags[reg.Tag]`
  unfoldable pub tag_value : Dict String F → Register → F
  unfolding index lookup
  tag_value tags reg = index (fl.from_int (pos 0)) reg.tag tags

module _ {F Raw : Type 0} (bus : Bus F Raw) where
  -- `NewEnvelope` and `Push` of an update on RUNTIME; false is an error of either
  unfoldable pub publish : List (Point F) → Server F Raw → Server F Raw × Bool
  publish points s =
      elim (new_envelope bus.json s.name
        (update (record { updates = points; recipient = ""; confirm = "" }))) [
          | none ↦ (s, false)
          | some env ↦
              let (err, sent) = push bus "RUNTIME" env s.sent in
              (record s { sent = sent }, not (is_some err))
        ]

  -- The update of the points, encoded, is what was sent last.
  abbrev pub IsAnnounced : List (Point F) → Server F Raw → Sent Raw → Type 0
  IsAnnounced points s sent =
      (env : Envelope Raw) × (body : Raw) × (new_envelope bus.json s.name
          (update (record { updates = points; recipient = ""; confirm = "" }))
        ≡ some env)
      × (bus.json.envelope.marshal env ≡ some body)
      × (sent ≡ s.sent ++ ("RUNTIME", encoded body) ∷ [])

  pub publish-IsAnnounced :
      (points : List (Point F)) (s : Server F Raw)
      → (publish points s).1 ≡ true
      → IsAnnounced points s (publish points s).0.sent
  unfolding publish
  publish-IsAnnounced points s h =
      elim (Option-cases (
        new_envelope bus.json s.name
          (update (record { updates = points; recipient = ""; confirm = "" })))) [
            | inl e ↦ ground arith
            | inr (env, e) ↦
                let (body, encodes, last) = push_sent bus "RUNTIME" env s.sent (ground arith) in
                (env, body, e, encodes, rw (e, publish) last)
          ]

  -- Publishing changes nothing but what was sent, and not that either where it fails.
  pub publish_lem :
      (points : List (Point F)) (s : Server F Raw)
      → (sent : Sent Raw) × (pushed : Bool) × (publish points s
          ≡ (record s { sent = sent }, pushed))
        × (pushed ≡ false → sent ≡ s.sent)
  unfolding publish
  publish_lem points s =
      elim (Option-cases (
        new_envelope bus.json s.name
          (update (record { updates = points; recipient = ""; confirm = "" })))) [
            | inl e ↦ (s.sent, false, rw (e, publish), λ h. refl)
            | inr (env, e) ↦ (
              (push bus "RUNTIME" env s.sent).1,
              not (is_some (push bus "RUNTIME" env s.sent).0),
              rw (e, publish),
              λ h. push_failed bus "RUNTIME" env s.sent (ground arith),
            )
          ]
