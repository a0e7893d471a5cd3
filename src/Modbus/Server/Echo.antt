-- ===== src/Modbus/Server/Echo.antt =====
-- A value that was written is read back.
use ot_sim.Common.{
  ℕ, ◌+◌, ◌*◌, ◌%◌, ◌≡◌, true, false, some, List, [], ◌∷◌, length, slice, arith, ap, ◌∙◌, String,
  string_eq, ltb,
}
use ot_sim.Common.Int.{pos, int_eq}
use ot_sim.Common.Dict.{Dict, lookup, insert, index-insert_self}
use ot_sim.Float.{FloatOps, FloatLaws}
use ot_sim.Msgbus.Pusher.{Bus}
use ot_sim.Modbus.Bits.Positions.{AllBytes}
use ot_sim.Modbus.Register.{holding, type_eq, Register, ok, is_word_register, bytes}
use ot_sim.Modbus.Register.Shape.{IsReady}
use ot_sim.Modbus.Register.Codec.{IsExact, value-RoundTrip}
use ot_sim.Modbus.Server.State.{Table, Server, success, uint16_at, tag_value, with_range-some}
use ot_sim.Modbus.Server.Read.{read_words, read_holding_registers}
use ot_sim.Modbus.Server.Words.{read_words_next}
use ot_sim.Modbus.Server.Write.{write_holding_register}
use ot_sim.Modbus.Server.Single.{write_single_step, store_fields}

module _ {F Raw : Type 0} (fl : FloatOps F) (laws : FloatLaws fl) (bus : Bus F Raw) where
  tag_value-insert :
      (tags : Dict String F) (reg : Register) (v : F) → tag_value fl (insert reg.tag v tags) reg ≡ v
  unfolding tag_value
  tag_value-insert tags reg v = index-insert_self _ reg.tag v tags

  read_one :
      (table : Table) (tags : Dict String F) (addr : ℕ) (reg : Register) (buf : List ℕ)
      → lookup (pos addr) table ≡ some reg
      → bytes fl reg (tag_value fl tags reg) ≡ ok buf
      → reg.count ≡ 1
      → read_words fl 2 table tags addr (addr + 1) 0 [] ≡ success (2 ∷ buf)
  unfolding read_words
  read_one table tags addr reg buf found enc one =
      read_words_next fl table tags (addr + 1) 1 addr 0 [] reg buf (ground arith) found enc
      ∙ (rw (let p : ltb (addr + reg.count) (addr + 1) ≡ false = ground arith in p, read_words)
          (ap (λ (k : ℕ). success (k % 256 ∷ buf))
            (let e : 0 + reg.count * 2 ≡ 2 = omega arith in e)))

  -- A write of one 16-bit holding register puts a value in its tag that a later read of the same
  -- address answers with the two bytes that were written, where the register's data type is exact
  -- on them: an integer without scaling. That holds whether or not the update could be announced.
  pub write_holding_register-read :
      (s : Server F Raw) (request query bs : List ℕ) {table : Table} {addr : ℕ} {reg : Register}
      → lookup holding s.registers ≡ some table
      → uint16_at 0 request ≡ some addr
      → lookup (pos addr) table ≡ some reg
      → IsReady reg
      → is_word_register reg.kind ≡ true
      → reg.count ≡ 1
      → slice 2 4 request ≡ some bs
      → length bs ≡ 2
      → AllBytes bs
      → IsExact fl laws reg.data_kind reg.scaling bs
      → uint16_at 0 query ≡ some addr
      → uint16_at 2 query ≡ some 1
      → read_holding_registers fl (write_holding_register fl bus s request).0 query
        ≡ success (2 ∷ bs)
  unfolding write_holding_register read_holding_registers
  write_holding_register-read s request query bs {table} {addr} {reg} e e1 e2 ready word one e3 size
        all exact q0 q1 =
      let (v, decoded, encoded) =
        value-RoundTrip fl laws reg bs ready word (omega (arith, size, one)) all exact in
      let (tags, registers) = store_fields fl bus "holding_writes_count" s request reg v in
      rw
        (write_single_step fl bus holding "holding_writes_count" s request bs table addr reg (ok v)
          e e1 e2 e3 decoded)
        (with_range-some query _ _ _ _ (ap (lookup holding) registers ∙ e) q0 q1
          ∙ (rw tags (
              read_one table (insert reg.tag v s.tags) addr reg bs e2
                (ap (bytes fl reg) (tag_value-insert s.tags reg v) ∙ encoded) one)))
