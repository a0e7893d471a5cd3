-- ===== src/Sunspec/Server/Reply.antt =====
-- What a read of a SunSpec server's registers answers.
use ot_sim.Common.{
  ℕ, zero, suc, ◌+◌, ◌*◌, ◌%◌, ◌<◌, ◌≤◌, ◌≡◌, ◌⊎◌, inl, inr, true, none, some, List, [], ◌∷◌, ◌++◌,
  string_eq, length, get_elem?, ltb, ltb-cases, arith, length-append, Option-cases, Bool-cases, sym,
}
use mathlib.Core.Path.{subst}
use ot_sim.Common.Int.{pos, int_eq}
use ot_sim.Common.Dict.{lookup}
use ot_sim.Float.{FloatOps}
use ot_sim.Modbus.Server.State.{
  Response, success, exception, illegal_data_address, slave_device_failure, uint16_at,
}
use ot_sim.Sunspec.Register.{Register, ok, bytes, words}
use ot_sim.Sunspec.Register.Shape.{is_text, Writes, bytes-nil, bytes-number}
use ot_sim.Sunspec.Server.{Server, scaling_for, tag_any, read_words, read_holding_registers}

module _ {F Raw : Type 0} (fl : FloatOps F) (s : Server F Raw) where
  -- A register as `Init` leaves it, where the tag of a text register is no tag of the server.
  abbrev pub IsReady : Register F → Type 0
  IsReady r =
      (words r.data_kind ≡ some r.count)
      × (0 < r.count)
      × (is_text r.data_kind ≡ true → lookup r.tag s.tags ≡ none)

  abbrev pub IsReadyServer : Type 0
  IsReadyServer = (i : ℕ) (r : Register F) → get_elem? s.heap i ≡ some r → IsReady r

  -- the bytes of a reply to a read of `n` registers, or one of two exceptions
  abbrev pub PointReply : ℕ → Response → Type 0
  PointReply n answer =
      ((payload : List ℕ) × (answer ≡ success (length payload % 256 ∷ payload))
        × (n * 2 ≤ length payload))
      ⊎ ((answer ≡ exception illegal_data_address) ⊎ (answer ≡ exception slave_device_failure))

  bytes-Writes :
      (r : Register F) (sc : F)
      → IsReady r
      → Writes fl (r.count * 2) (bytes fl r (tag_any (lookup r.tag s.tags)) sc)
  bytes-Writes r sc (size, more, plain) = elim (Option-cases (lookup r.tag s.tags)) [
    | inl gone ↦ rw gone (bytes-nil fl r sc size)
    | inr (v, e) ↦ elim (Bool-cases (is_text r.data_kind)) [
      | inl text ↦ cc (plain text)
      | inr numeric ↦ rw e (bytes-number fl r sc v size numeric)
    ]
  ]

  -- what the loop needs to go on: turns enough for the addresses left, and bytes for those behind
  abbrev IsOnWay : ℕ → ℕ → ℕ → ℕ → List ℕ → Type 0
  IsOnWay fuel addr stop n payload =
      (0 < fuel) × (stop < addr + fuel) × (n * 2 + addr * 2 ≤ length payload + stop * 2)

  step-IsOnWay :
      (fuel addr stop n count : ℕ) (payload buf : List ℕ)
      → addr < stop
      → 0 < count
      → length buf ≡ count * 2
      → IsOnWay (suc fuel) addr stop n payload
      → IsOnWay fuel (addr + count) stop n (payload ++ buf)
  step-IsOnWay fuel addr stop n count payload buf lt more wide (_, enough, grown) =
      (omega arith, omega arith, omega (arith, length-append payload buf))

  -- One turn of the loop, where all that it needs is there.
  turn :
      (fuel addr stop : ℕ) (payload buf : List ℕ) (ptr : ℕ) (r : Register F) (sc : F)
      → ltb addr stop ≡ true
      → lookup (pos addr) s.registers ≡ some ptr
      → get_elem? s.heap ptr ≡ some r
      → scaling_for fl s r ≡ some sc
      → bytes fl r (tag_any (lookup r.tag s.tags)) sc ≡ ok buf
      → length buf ≡ r.count * 2
      → read_words fl (suc fuel) s addr stop (length payload) payload
        ≡ read_words fl fuel s (addr + r.count) stop (length (payload ++ buf)) (payload ++ buf)
  unfolding read_words
  turn fuel addr stop payload buf ptr r sc lt at here scaled e wide =
      rw (length-append payload buf, wide) (ground arith)

  read_words-PointReply :
      (fuel addr stop n : ℕ) (payload : List ℕ)
      → IsReadyServer
      → IsOnWay fuel addr stop n payload
      → PointReply n (read_words fl fuel s addr stop (length payload) payload)
  unfolding read_words
  read_words-PointReply zero addr stop n payload ready way = absurd (omega arith)
  read_words-PointReply (suc fuel) addr stop n payload ready way = elim (ltb-cases addr stop) [
    | inl (less, lt) ↦ elim (Option-cases (lookup (pos addr) s.registers)) [
      | inl gone ↦ inr (inl (ground arith))
      | inr (ptr, at) ↦ elim (Option-cases (get_elem? s.heap ptr)) [
        | inl gone ↦ inr (inl (ground arith))
        | inr (r, here) ↦ elim (Option-cases (scaling_for fl s r)) [
          | inl gone ↦ inr (inr (ground arith))
          | inr (sc, scaled) ↦
              let (size, more, plain) = ready ptr r here in
              let (buf, e, wide) = bytes-Writes r sc (ready ptr r here) in
              subst (λ answer. PointReply n answer)
                (sym (turn fuel addr stop payload buf ptr r sc lt at here scaled e wide))
                (read_words-PointReply fuel (addr + r.count) stop n (payload ++ buf) ready
                  (step-IsOnWay fuel addr stop n r.count payload buf less more wide way))
        ]
      ]
    ]
    | inr (past, ge) ↦ inl (payload, ground arith, omega (arith, way.2))
  ]

-- A read of registers always answers, on a server whose registers are as `Init` leaves them and
-- whose text registers have no tag of the server, for a request with a start and a count. It
-- answers with the number of data bytes modulo 256 and the data, at least two bytes for each
-- register that was asked for, or with the exception for an illegal address or for a device
-- failure.
pub read_holding_registers-PointReply :
    {F Raw : Type 0} (fl : FloatOps F) (s : Server F Raw) (request : List ℕ) (start count : ℕ)
    → IsReadyServer fl s
    → uint16_at 0 request ≡ some start
    → uint16_at 2 request ≡ some count
    → PointReply fl s count (read_holding_registers fl s request)
unfolding read_holding_registers
read_holding_registers-PointReply fl s request start count ready e0 e2 =
    subst (λ answer. PointReply fl s count answer)
      (let e : read_words fl (suc count) s start (start + count) 0 []
            ≡ read_holding_registers fl s request =
          ground arith in
        e)
      (read_words-PointReply fl s (suc count) start (start + count) count [] ready
        (omega arith, omega arith, omega arith))
