-- ===== src/Modbus/Client/Loopback.antt =====
-- A Modbus client that polls a Modbus server of this repository.
use ot_sim.Common.{
  ℕ, suc, ◌+◌, ◌-◌, ◌*◌, ◌/◌, ◌%◌, ◌<◌, ◌≤◌, ◌≡◌, refl, ap, ◌∙◌, sym, Option, none, some, List, [],
  ◌∷◌, ◌++◌, map, append_assoc, append-nil, eq_refl, String, ◌==◌, nat_eq, string_eq, if◌then◌else◌,
  length, slice, arith,
}
use ot_sim.Common.Int.{pos, int_eq}
use ot_sim.Common.Dict.{Dict, lookup}
use ot_sim.Float.{FloatOps}
use ot_sim.Msgbus.Types.{Point}
use ot_sim.Msgbus.Pusher.{Bus}
use ot_sim.Modbus.Register.{holding, type_eq, Register, ok, bytes, value, of_bytes}
use ot_sim.Modbus.Register.Shape.{IsReady, word_count, word_count_few, bytes-Writes}
use ot_sim.Modbus.Server.State.{
  Table, Server, Response, success, uint16_at, tag_value, with_range-some,
}
use ot_sim.Modbus.Server.Read.{read_words, read_holding_registers}
use ot_sim.Modbus.Server.Words.{read_words_next}
use ot_sim.Modbus.Client.{
  Client, Device, poll, send_status, with_connected, uint16_of, polled, read_data, read_one,
  read_all,
}

-- the data of a request of function code 3
abbrev pub frame : ℕ → ℕ → List ℕ
frame addr count = addr / 256 ∷ addr % 256 ∷ count / 256 ∷ count % 256 ∷ []

-- what the client library makes of an answer: the data behind a byte count that is theirs
abbrev pub unframe : Response → Option (List ℕ)
unframe (success (size ∷ payload)) = if size == length payload then some payload else none
unframe _ = none

uint16_at-frame :
    (addr count : ℕ)
    → (uint16_at 0 (frame addr count) ≡ some addr) × (uint16_at 2 (frame addr count) ≡ some count)
unfolding uint16_at slice of_bytes
uint16_at-frame addr count = (ap some (omega arith), ap some (omega arith))

module _ {F : Type 0} (fl : FloatOps F) where
  -- at the end of the range
  past :
      (table : Table) (tags : Dict String F) (stop size fuel k : ℕ) (buf : List ℕ)
      → fuel ≡ suc k
      → read_words fl fuel table tags stop stop size buf ≡ success (size % 256 ∷ buf)
  unfolding read_words
  past table tags stop size fuel k buf e = rw e (ground arith)

  whole_register :
      {Raw : Type 0} (s : Server F Raw) (table : Table) (addr k : ℕ) (r : Register) (buf : List ℕ)
      → lookup holding s.registers ≡ some table
      → lookup (pos addr) table ≡ some r
      → bytes fl r (tag_value fl s.tags r) ≡ ok buf
      → length buf ≡ 2 * r.count
      → r.count ≡ suc k
      → r.count ≤ 4
      → read_holding_registers fl s (frame addr r.count) ≡ success (length buf ∷ buf)
  unfolding read_holding_registers read_words
  whole_register s table addr k r buf e0 e1 enc size count few =
      let (start, total) = uint16_at-frame addr r.count in
      with_range-some (frame addr r.count) _ _ _ _ e0 start total
      ∙ read_words_next fl table s.tags (addr + r.count) r.count addr 0 [] r buf (ground arith) e1
          enc
      ∙ past table s.tags (addr + r.count) (0 + r.count * 2) r.count k buf count
      ∙ ap (λ (n : ℕ). success (n ∷ buf)) (omega arith)

module _ {F Raw : Type 0} (fl : FloatOps F) (device : Device (Server F Raw)) where
  -- The library and the network carry reads of holding registers to the server and back, of the 1
  -- to 125 words that one request can ask for and that end within the addresses there are.
  abbrev pub IsWired : Type 0
  IsWired =
      (addr count : ℕ) (s : Server F Raw)
      → 0 < count
      → count ≤ 125
      → addr + count ≤ 65536
      → device.read_holding_registers addr count s
        ≡ (unframe (read_holding_registers fl s (frame addr count)), s)

  -- A register of the client that the server has too, with a tag whose value it encodes exactly.
  abbrev pub IsMirrored : Server F Raw → Table → Register → Type 0
  IsMirrored s table r =
      (addr : ℕ) × (r.addr ≡ pos addr)
      × (addr + r.count ≤ 65536)
      × (lookup (pos addr) table ≡ some r)
      × (r.kind ≡ holding)
      × IsReady r
      × ((bs : List ℕ)
          → bytes fl r (tag_value fl s.tags r) ≡ ok bs
          → value fl r bs ≡ ok (tag_value fl s.tags r))

  abbrev pub AllMirrored : Server F Raw → Table → Dict String Register → Type 0
  AllMirrored s table [] = Unit
  AllMirrored s table ((tag, r) ∷ rs) = IsMirrored s table r × AllMirrored s table rs

  serves :
      (s : Server F Raw) (table : Table) (tag : String) (r : Register) (points : List (Point F))
      → IsWired
      → lookup holding s.registers ≡ some table
      → IsMirrored s table r
      → read_one fl device tag r (read_data device r.kind r s) points
        ≡ polled (points ++ record { tag = tag; value = tag_value fl s.tags r; tstamp = 0 } ∷ []) s
  serves s table tag r points wired e0 (addr, at, small, e1, kind, ready, exact) =
      let (valid, words_e, some_words) = word_count r ready (rw kind refl) in
      let (buf, enc, size, _) = bytes-Writes fl r (tag_value fl s.tags r) ready (rw kind refl) in
      let few = word_count_few r ready (rw kind refl) in
      let got : read_data device r.kind r s ≡ (some buf, s) =
        ap (λ k. read_data device k r s) kind
        ∙ ap (λ a. device.read_holding_registers (uint16_of a) (r.count % 65536) s) at
        ∙ ap (λ (a : ℕ). device.read_holding_registers a (r.count % 65536) s)
            (omega (arith, small, some_words))
        ∙ ap (λ (n : ℕ). device.read_holding_registers addr n s) (omega (arith, few))
        ∙ wired addr r.count s some_words (omega (arith, few)) small
        ∙ ap (λ answer. (unframe answer, s))
            (whole_register fl s table addr (r.count - 1) r buf e0 e1 enc size
              (omega (arith, some_words)) few)
        ∙ rw (eq_refl (length buf)) refl in
      rw got (rw (exact buf enc) refl)

  read_all-AllMirrored :
      (s : Server F Raw) (table : Table) (registers : Dict String Register)
      (points : List (Point F))
      → IsWired
      → lookup holding s.registers ≡ some table
      → AllMirrored s table registers
      → read_all fl device registers points s
        ≡ polled
            (points
              ++ map
                  (λ e. record { tag = e.0; value = tag_value fl s.tags e.1; tstamp = 0 })
                  registers)
            s
  unfolding read_all
  read_all-AllMirrored s table [] points wired e0 all =
      ap (λ p. polled p s) (sym (append-nil points))
  read_all-AllMirrored s table ((tag, r) ∷ rs) points wired e0 (here, all) =
      let p : Point F = record { tag = tag; value = tag_value fl s.tags r; tstamp = 0 } in
      rw (serves s table tag r points wired e0 here, read_all)
        (read_all-AllMirrored s table rs (points ++ p ∷ []) wired e0 all
          ∙ ap (λ ps. polled ps s) (append_assoc points (p ∷ []) _))

  -- A poll through a library and a network that carry reads of 1 to 125 holding registers to a
  -- server of this repository, of registers that the server has at the same addresses, ready, and with tags
  -- whose values they encode exactly, changes nothing in the server and sends one status: for each
  -- register of the client, in order, the server's value of that register's tag under the client's
  -- name for it, and then that the client is connected if there is any register.
  pub poll-AllMirrored :
      (bus : Bus F Raw) (c : Client Raw) (s : Server F Raw) (table : Table)
      → IsWired
      → lookup holding s.registers ≡ some table
      → AllMirrored s table c.registers
      → poll fl bus device c s ≡ (
        some (record c {
          sent =
              send_status bus c.name
                (with_connected fl c.name (
                  map
                    (λ e. record { tag = e.0; value = tag_value fl s.tags e.1; tstamp = 0 })
                    c.registers))
                c.sent;
        }),
        s,
      )
  unfolding poll
  poll-AllMirrored bus c s table wired e0 all =
      rw (read_all-AllMirrored s table c.registers [] wired e0 all, poll)
