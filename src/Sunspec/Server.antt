-- ===== src/Sunspec/Server.antt =====
-- The SunSpec server: src/go/sunspec/server/server.go. The maps `registers` and `points` hold
-- pointers to registers, and share them: a register is a place in `heap`.
pub mod Stuck
pub mod Configure
pub mod Known
pub mod Reply
use ot_sim.Common.{
  ℕ, zero, suc, ◌+◌, ◌*◌, ◌%◌, Bool, true, false, not, is_some, Option, none, some, List, [], ◌∷◌,
  ◌++◌, String, ◌==◌, string_eq, if◌then◌else◌, length, take, get_elem?, set, slice, ltb,
}
use ot_sim.Common.Int.{ℤ, pos, int_eq}
use ot_sim.Common.Dict.{Dict, lookup, insert}
use ot_sim.Float.{FloatOps}
use ot_sim.Msgbus.Types.{Point, Status, Envelope}
use ot_sim.Msgbus.Envelope.{
  new_envelope, update, sender, get_status, FetchError, not_kind, unmarshaling,
}
use ot_sim.Msgbus.Pusher.{Bus, Sent, push, PushError}
use ot_sim.Modbus.Server.State.{
  Exception, illegal_data_address, slave_device_failure, Response, success, exception, panic,
  diverges, uint16_at,
}
use ot_sim.Sunspec.Register.{Register, Any, nil, number, Result, ok, err, panics, bytes, value}

pub record Server (F Raw : Type 0) : Type 0 where
  pub pull_endpoint : String
  pub pub_endpoint : String
  pub name : String
  pub endpoint : String
  pub heap : List (Register F)
  pub registers : Dict ℤ ℕ
  pub points : Dict String ℕ
  pub tags : Dict String F
  pub sent : Sent Raw

-- the register that a key of a map points to
abbrev pub deref : {F : Type 0} → List (Register F) → Option ℕ → Option (Register F)
deref heap none = none
deref heap (some ptr) = get_elem? heap ptr

-- the value of a tag, nil where there is none
abbrev pub tag_any : {F : Type 0} → Option F → Any F
tag_any none = nil
tag_any (some v) = number v

-- how the loop of `writeHoldingRegisters` ends
pub data Written (F Raw : Type 0) : Type 0 where
  finished : Server F Raw → List (Point F) → Written F Raw
  stopped : Server F Raw → Response → Written F Raw

-- A decoded value goes to the register itself, where it has no tag, else into the updates.
abbrev pub put : {F Raw : Type 0} → ℕ → Register F → F → Server F Raw → Server F Raw
put ptr r v s =
    if r.tag == "" then record s { heap = set s.heap ptr (record r { internal_value = v }) } else s

abbrev pub announced : {F : Type 0} → Register F → F → List (Point F) → List (Point F)
announced r v updates =
    if r.tag == "" then updates else updates ++ record { tag = r.tag; value = v; tstamp = 0 } ∷ []

-- Only tags that the configuration made are kept.
unfoldable pub set_tags : {F : Type 0} → List (Point F) → Dict String F → Dict String F
set_tags [] tags = tags
set_tags (p ∷ ps) tags =
    set_tags ps (if is_some (lookup p.tag tags) then insert p.tag p.value tags else tags)

module _ {F Raw : Type 0} (fl : FloatOps F) where
  -- The scaling that both handlers look up: 0 with no scale register, `none` with one that does not
  -- exist.
  unfoldable pub scaling_for : Server F Raw → Register F → Option F
  scaling_for s r =
      if r.scale_register == ""
      then some (fl.from_int (pos 0))
      else elim (deref s.heap (lookup r.scale_register s.points)) [
        | none ↦ none
        | some p ↦ some p.internal_value
      ]

  -- The loop of `readHoldingRegisters` up to the address `stop`.
  unfoldable pub read_words : ℕ → Server F Raw → ℕ → ℕ → ℕ → List ℕ → Response
  read_words zero s addr stop size payload = diverges
  read_words (suc fuel) s addr stop size payload = elim (ltb addr stop) [
    | false ↦ success (size % 256 ∷ payload)
    | true ↦ elim (deref s.heap (lookup (pos addr) s.registers)) [
      | none ↦ exception illegal_data_address
      | some r ↦ elim (scaling_for s r) [
        | none ↦ exception slave_device_failure
        | some scaling ↦ elim (bytes fl r (tag_any (lookup r.tag s.tags)) scaling) [
          | ok buf ↦ read_words fuel s (addr + r.count) stop (size + r.count * 2) (payload ++ buf)
          | err ↦ exception slave_device_failure
          | panics ↦ panic
        ]
      ]
    ]
  ]

  unfoldable pub read_holding_registers : Server F Raw → List ℕ → Response
  read_holding_registers s request = elim (uint16_at 0 request) [
    | none ↦ panic
    | some start ↦ elim (uint16_at 2 request) [
      | none ↦ panic
      | some count ↦ read_words (suc count) s start (start + count) 0 []
    ]
  ]

  -- The loop of `writeHoldingRegisters`, on fuel: neither the address nor the offset `b` moves.
  unfoldable pub write_words :
      ℕ → Server F Raw → List ℕ → ℕ → ℕ → ℕ → List (Point F) → Written F Raw
  write_words zero s request addr stop b updates = stopped s diverges
  write_words (suc fuel) s request addr stop b updates = elim (ltb addr stop) [
    | false ↦ finished s updates
    | true ↦ elim (lookup (pos addr) s.registers) [
      | none ↦ stopped s (exception illegal_data_address)
      | some ptr ↦ elim (get_elem? s.heap ptr) [
        | none ↦ stopped s panic
        | some r ↦ elim (scaling_for s r) [
          | none ↦ stopped s (exception slave_device_failure)
          | some scaling ↦ elim (slice b (b + r.count * 2) request) [
            | none ↦ stopped s panic
            | some d ↦ elim (value fl r (some d) scaling) [
              | ok v ↦ write_words fuel (put ptr r v s) request addr stop b (announced r v updates)
              | err ↦ stopped s (exception slave_device_failure)
              | panics ↦ stopped s panic
            ]
          ]
        ]
      ]
    ]
  ]

module _ {F Raw : Type 0} (fl : FloatOps F) (bus : Bus F Raw) where
  abbrev after_push : Server F Raw → List ℕ → Option PushError × Sent Raw → Server F Raw × Response
  after_push s request (some e, sent) = (record s { sent = sent }, exception slave_device_failure)
  after_push s request (none, sent) = (record s { sent = sent }, success (take 4 request))

  abbrev announce : Server F Raw → List ℕ → List (Point F) → Server F Raw × Response
  announce s request [] = (s, success (take 4 request))
  announce s request (p ∷ ps) =
      elim (new_envelope bus.json s.name
        (update (record { updates = p ∷ ps; recipient = ""; confirm = "" }))) [
          | none ↦ (s, exception slave_device_failure)
          | some env ↦ after_push s request (push bus "RUNTIME" env s.sent)
        ]

  abbrev conclude : List ℕ → Written F Raw → Server F Raw × Response
  conclude request (stopped s answer) = (s, answer)
  conclude request (finished s updates) = announce s request updates

  -- with the fuel that the loop is given
  unfoldable pub write_holding_registers : ℕ → Server F Raw → List ℕ → Server F Raw × Response
  write_holding_registers fuel s request = elim (uint16_at 0 request) [
    | none ↦ (s, panic)
    | some start ↦ elim (uint16_at 2 request) [
      | none ↦ (s, panic)
      | some count ↦ conclude request (write_words fl fuel s request start (start + count) 5 [])
    ]
  ]

  abbrev after_fetch : Status F → Option FetchError → Server F Raw → Server F Raw
  after_fetch status (some (not_kind k)) s = s
  after_fetch status (some unmarshaling) s = record s { tags = set_tags status.measurements s.tags }
  after_fetch status none s = record s { tags = set_tags status.measurements s.tags }

  unfoldable pub handle_msg_bus_status : Envelope Raw → Server F Raw → Server F Raw
  handle_msg_bus_status env s =
      let (status, e) = get_status bus.json env in
      if sender env == s.name then s else after_fetch status e s
