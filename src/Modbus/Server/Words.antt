-- ===== src/Modbus/Server/Words.antt =====
-- What the reads of holding and of input registers answer, and that their loop ends.
use ot_sim.Common.{
  ℕ, zero, suc, ◌+◌, ◌-◌, ◌*◌, ◌%◌, ◌≤◌, ◌<◌, ◌≡◌, refl, ◌⊎◌, inl, inr, true, none, some, List, [],
  ◌∷◌, ◌++◌, length, arith, Option-cases, Bool-cases, ap, ◌∙◌, sym, ltb, append_assoc, append-nil,
  length-append, String,
}
use ot_sim.Common.Int.{ℤ, pos, int_eq}
use ot_sim.Common.Dict.{Dict, lookup}
use ot_sim.Float.{FloatOps}
use ot_sim.Modbus.Register.{holding, input, type_eq, Register, ok, is_word_register, bytes}
use ot_sim.Modbus.Register.Shape.{IsReady, bytes-Writes, word_count}
use ot_sim.Modbus.Server.State.{
  Table, Server, Response, success, exception, illegal_data_address, uint16_at, with_range-some,
  tag_value,
}
use ot_sim.Modbus.Server.Read.{read_words, read_holding_registers, read_input_registers}

-- Every register of the table is an input or a holding register that `Init` has prepared.
abbrev pub IsWordTable : Table → Type 0
IsWordTable table =
    (addr : ℤ) (reg : Register)
    → lookup addr table ≡ some reg
    → IsReady reg × (is_word_register reg.kind ≡ true)

module _ {F : Type 0} (fl : FloatOps F) (table : Table) (tags : Dict String F) (stop : ℕ) where
  -- The data of the registers that are met from an address on, each as many words further as the
  -- one before it holds, until `stop` is reached.
  pub data Walk : ℕ → List ℕ → Type 0 where
    done : {addr : ℕ} → stop ≤ addr → Walk addr []
    next :
        {addr : ℕ} {payload : List ℕ} (reg : Register) (buf rest : List ℕ)
        → addr < stop
        → lookup (pos addr) table ≡ some reg
        → bytes fl reg (tag_value fl tags reg) ≡ ok buf
        → Walk (addr + reg.count) rest
        → payload ≡ buf ++ rest
        → Walk addr payload

  -- The walk meets an address below `stop` that has no register.
  pub data Strays : ℕ → Type 0 where
    gone : {addr : ℕ} → addr < stop → lookup (pos addr) table ≡ none → Strays addr
    later :
        {addr : ℕ} (reg : Register)
        → addr < stop
        → lookup (pos addr) table ≡ some reg
        → Strays (addr + reg.count)
        → Strays addr

  -- how the loop ends, from a size and the data so far
  abbrev WordsEnd : ℕ → ℕ → List ℕ → Response → Type 0
  WordsEnd addr size payload answer =
      ((rest : List ℕ) × (answer ≡ success ((size + length rest) % 256 ∷ (payload ++ rest)))
        × Walk addr rest)
      ⊎ ((answer ≡ exception illegal_data_address) × Strays addr)

  WordsEnd-next :
      (addr size : ℕ) (payload buf : List ℕ) (reg : Register) (answer : Response)
      → addr < stop
      → lookup (pos addr) table ≡ some reg
      → bytes fl reg (tag_value fl tags reg) ≡ ok buf
      → length buf ≡ 2 * reg.count
      → WordsEnd (addr + reg.count) (size + reg.count * 2) (payload ++ buf) answer
      → WordsEnd addr size payload answer
  WordsEnd-next addr size payload buf reg answer lt found e len (inl (rest, is, walk)) = inl (
    buf ++ rest,
    is
        ∙ (ap (λ l. success ((size + reg.count * 2 + length rest) % 256 ∷ l))
              (append_assoc payload buf rest)
            ∙ ap (λ n. success (n % 256 ∷ (payload ++ (buf ++ rest))))
                (omega (arith, length-append buf rest, len))),
    next reg buf rest lt found e walk refl,
  )
  WordsEnd-next addr size payload buf reg answer lt found e len (inr (is, stray)) =
      inr (is, later reg lt found stray)

  pub read_words_next :
      (fuel addr size : ℕ) (payload : List ℕ) (reg : Register) (buf : List ℕ)
      → ltb addr stop ≡ true
      → lookup (pos addr) table ≡ some reg
      → bytes fl reg (tag_value fl tags reg) ≡ ok buf
      → read_words fl (suc fuel) table tags addr stop size payload
        ≡ read_words fl fuel table tags
            (addr + reg.count)
            stop
            (size + reg.count * 2)
            (payload ++ buf)
  unfolding read_words
  read_words_next fuel addr size payload reg buf more found enc =
      rw (more, read_words) (rw (found, read_words) (rw (enc, read_words)))

  read_words-WordsEnd :
      (fuel addr size : ℕ) (payload : List ℕ)
      → IsWordTable table
      → stop - addr < fuel
      → WordsEnd addr size payload (read_words fl fuel table tags addr stop size payload)
  unfolding read_words
  read_words-WordsEnd zero addr size payload all h = elim h [ ]
  read_words-WordsEnd (suc fuel) addr size payload all h = elim (Bool-cases (ltb addr stop)) [
    | inr over ↦
        rw (over, read_words)
          (inl (
            [],
            ap (λ l. success (size % 256 ∷ l)) (sym (append-nil payload))
                ∙ ap (λ n. success (n % 256 ∷ (payload ++ []))) (omega arith),
            done (ground arith),
          ))
    | inl more ↦ elim (Option-cases (lookup (pos addr) table)) [
      | inl missing ↦ inr (ground arith, gone (ground arith) missing)
      | inr (reg, found) ↦
          let (ready, word) = all (pos addr) reg found in
          let (buf, enc, len, _) = bytes-Writes fl reg (tag_value fl tags reg) ready word in
          let some_words = (word_count reg ready word).2 in
          rw (read_words_next fuel addr size payload reg buf more found enc) (
            WordsEnd-next addr size payload buf reg _ (ground arith) found enc len (
              read_words-WordsEnd fuel (addr + reg.count) (size + reg.count * 2) (payload ++ buf)
                all (ground arith)))
    ]
  ]

  -- the two answers of a read of words up to `stop`
  abbrev pub WordReply : ℕ → Response → Type 0
  WordReply start answer =
      ((payload : List ℕ) × (answer ≡ success (length payload % 256 ∷ payload))
        × Walk start payload)
      ⊎ ((answer ≡ exception illegal_data_address) × Strays start)

  read_words-WordReply :
      (start n : ℕ)
      → IsWordTable table
      → start + n ≡ stop
      → WordReply start (read_words fl (suc n) table tags start stop 0 [])
  read_words-WordReply start n all e =
      elim (read_words-WordsEnd (suc n) start 0 [] all (omega arith)) [
        | inl (rest, is, walk) ↦
            inl (rest, is ∙ ap (λ k. success (k % 256 ∷ rest)) (omega arith), walk)
        | inr stray ↦ inr stray
      ]

module _ {F Raw : Type 0} (fl : FloatOps F) (s : Server F Raw) (request : List ℕ) where
  -- A read of holding registers whose request carries a start and a count, on a server whose
  -- holding registers `Init` has prepared, always answers, in one of two ways. The answer holds the
  -- number of its data bytes, modulo 256, and the encodings of the values of the registers that the
  -- walk from the start to the end of the range meets, one after another. Or the walk meets an
  -- address without a register, and the answer is the exception for an illegal address.
  pub read_holding_registers-WordReply :
      {table : Table} {start count : ℕ}
      → lookup holding s.registers ≡ some table
      → IsWordTable table
      → uint16_at 0 request ≡ some start
      → uint16_at 2 request ≡ some count
      → WordReply fl table s.tags (start + count) start (read_holding_registers fl s request)
  unfolding read_holding_registers
  read_holding_registers-WordReply {table} {start} {count} e0 all e1 e2 =
      rw (with_range-some request _ _ _ _ e0 e1 e2)
        (read_words-WordReply fl table s.tags (start + count) start count all refl)

  -- Holding and input registers are read alike: over equal tables the handlers of function codes 3
  -- and 4 give every request the same answer.
  pub read_input_registers-read_holding_registers :
      lookup input s.registers ≡ lookup holding s.registers
      → read_input_registers fl s request ≡ read_holding_registers fl s request
  unfolding read_holding_registers read_input_registers
  read_input_registers-read_holding_registers e = rw e
