-- ===== src/Modbus/Server/Configure/Serves.antt =====
-- A server from its configuration on: whatever it is asked, it keeps its registers, and its reads
-- answer.
use ot_sim.Common.{
  every_option, every_if, ℕ, ◌+◌, ◌≡◌, refl, ap, ◌∙◌, Bool, true, false, Option, none, some, List,
  [], ◌∷◌, String, ◌==◌, nat_eq, string_eq, length, slice,
}
use mathlib.Core.Path.{subst}
use mathlib.Core.Option.{some-injective}
use ot_sim.Common.Int.{pos, int_eq}
use ot_sim.Common.Dict.{lookup, insert}
use ot_sim.Config.{Xml, Conversions, done}
use ot_sim.Float.{FloatOps}
use ot_sim.Msgbus.Types.{Envelope, Point, Status}
use ot_sim.Msgbus.Metric.{MetricsPusher, incr_metric, incr_metric_by}
use ot_sim.Msgbus.Envelope.{FetchError, not_kind, unmarshaling, sender}
use ot_sim.Msgbus.Pusher.{Bus}
use ot_sim.Modbus.Register.{
  RegisterType, holding, coil, type_eq, Register, Result, ok, err, panics, RegisterError, value,
}
use ot_sim.Modbus.Server.State.{
  Table, Server, Response, success, exception, new, uint16_at, publish, publish_lem, with_range,
}
use ot_sim.Modbus.Server.Read.{read_holding_registers}
use ot_sim.Modbus.Server.Write.{
  Written, finished, stopped, Handled, write_coil_register, write_holding_register,
  write_coil_registers, write_holding_registers, after_publish, announce, conclude, store,
  write_single, point,
}
use ot_sim.Modbus.Server.Bus.{handle, handle_msg_bus_status, after_fetch}
use ot_sim.Modbus.Server.Words.{IsWordTable, WordReply, read_holding_registers-WordReply}
use ot_sim.Modbus.Server.Configure.{configure}
use ot_sim.Modbus.Server.Configure.Ready.{IsConfigured, configure-IsConfigured}

-- What holds of every end of a choice holds of it.
every_result :
    {A B : Type 0} (P : B → Type 0) (o : Result A) {f : A → B} {g : RegisterError → B} {n : B}
    → ((a : A) → P (f a))
    → ((e : RegisterError) → P (g e))
    → P n
    → P (elim o [ ok a ↦ f a | err e ↦ g e | panics ↦ n ])
every_result P (ok a) p q r = p a
every_result P (err e) p q r = q e
every_result P panics p q r = r

-- what goes back to the client; a panic ends the process, and a loop that never ends its turn
abbrev pub is_reply : Response → Bool
is_reply (success payload) = true
is_reply (exception e) = true
is_reply _ = false

module _ {F Raw : Type 0} (fl : FloatOps F) (bus : Bus F Raw) where
  Keeps : Server F Raw → Handled fl bus → Type 0
  Keeps s h = h.0.registers ≡ s.registers

  keeps : (s : Server F Raw) (h : Handled fl bus) → h.0.registers ≡ s.registers → Keeps s h
  unfolding Keeps
  keeps s h e = e

  publish-registers :
      (points : List (Point F)) (s : Server F Raw)
      → (publish bus points s).0.registers ≡ s.registers
  publish-registers points s =
      let (sent, pushed, e, _) = publish_lem bus points s in ap (λ r. r.0.registers) e

  after_publish-Keeps :
      (count : MetricsPusher F → MetricsPusher F) (bytes : List ℕ) (s : Server F Raw)
      (r : Server F Raw × Bool)
      → r.0.registers ≡ s.registers
      → Keeps s (after_publish fl bus count bytes r)
  after_publish-Keeps count bytes s (s', false) e = keeps s _ e
  after_publish-Keeps count bytes s (s', true) e = keeps s _ e

  announce-registers :
      (points : List (Point F)) (s : Server F Raw)
      → (announce fl bus points s).0.registers ≡ s.registers
  announce-registers [] s = refl
  announce-registers (p ∷ ps) s = publish-registers (p ∷ ps) s

  conclude-Keeps :
      (metric : String) (count : ℕ) (bytes : List ℕ) (s : Server F Raw) (w : Written F)
      → Keeps s (conclude fl bus metric count bytes s w)
  conclude-Keeps metric count bytes s (stopped tags answer) = keeps s _ refl
  conclude-Keeps metric count bytes s (finished tags updates) =
      after_publish-Keeps (incr_metric_by fl metric (pos count)) bytes s
        (announce fl bus updates (record s { tags = tags }))
        (announce-registers updates (record s { tags = tags }))

  store-Keeps :
      (metric : String) (reg : Register) (bytes : List ℕ) (v : F) (s : Server F Raw)
      → Keeps s (store fl bus metric reg bytes v s)
  store-Keeps metric reg bytes v s =
      let t : Server F Raw = record s { tags = insert reg.tag v s.tags } in
      after_publish-Keeps (incr_metric fl metric) bytes s (publish bus (point reg.tag v ∷ []) t)
        (publish-registers (point reg.tag v ∷ []) t)

  with_range-Keeps :
      (o : Option Table) (bytes : List ℕ) (s : Server F Raw) (a b : Response)
      (f : Table → ℕ → ℕ → Handled fl bus)
      → ((table : Table) (start count : ℕ) → Keeps s (f table start count))
      → Keeps s (with_range o bytes (s, a) (s, b) f)
  with_range-Keeps none bytes s a b f p = keeps s _ refl
  with_range-Keeps (some table) bytes s a b f p =
      every_option (Keeps s) (uint16_at 0 bytes) (keeps s _ refl) λ start.
        every_option (Keeps s) (uint16_at 2 bytes) (keeps s _ refl) λ count. p table start count

  write_single-Keeps :
      (kind : RegisterType) (metric : String) (s : Server F Raw) (bytes : List ℕ)
      → Keeps s (write_single fl bus kind metric s bytes)
  write_single-Keeps kind metric s bytes =
      every_option (Keeps s) (lookup kind s.registers) (keeps s _ refl) λ table.
        every_option (Keeps s) (uint16_at 0 bytes) (keeps s _ refl) λ addr.
          every_option (Keeps s) (lookup (pos addr) table) (keeps s _ refl) λ reg.
            every_option (Keeps s) (slice 2 4 bytes) (keeps s _ refl) λ bs.
              every_result (Keeps s) (value fl reg bs) (λ v. store-Keeps metric reg bytes v s)
                (λ e. keeps s _ refl) (keeps s _ refl)

  -- what `handle` gives, if anything
  abbrev AllKeep : Server F Raw → Option (Handled fl bus) → Type 0
  AllKeep s o = (h : Handled fl bus) → o ≡ some h → Keeps s h

  every_handled : (s : Server F Raw) (h : Handled fl bus) → Keeps s h → AllKeep s (some h)
  every_handled s h keeps h' e = subst (Keeps s) (some-injective _ _ e) keeps

  write_coil_registers-Keeps :
      (s : Server F Raw) (bytes : List ℕ) → Keeps s (write_coil_registers fl bus s bytes)
  unfolding write_coil_registers
  write_coil_registers-Keeps s bytes =
      with_range-Keeps (lookup coil s.registers) bytes s _ _ _ λ table start count.
        every_option (Keeps s) (slice 5 (length bytes) bytes) (keeps s _ refl)
          λ rest. conclude-Keeps "coil_writes_count" count bytes s _

  write_holding_registers-Keeps :
      (s : Server F Raw) (bytes : List ℕ) → Keeps s (write_holding_registers fl bus s bytes)
  unfolding write_holding_registers
  write_holding_registers-Keeps s bytes =
      with_range-Keeps (lookup holding s.registers) bytes s _ _ _
        λ table start count. conclude-Keeps "holding_writes_count" count bytes s _

  handle-AllKeep :
      (code : ℕ) (s : Server F Raw) (bytes : List ℕ) → AllKeep s (handle fl bus code s bytes)
  unfolding handle write_coil_register write_holding_register
  handle-AllKeep code s bytes =
      every_if (AllKeep s) (code == 1) (every_handled s _ (keeps s _ refl)) (
        every_if (AllKeep s) (code == 2) (every_handled s _ (keeps s _ refl)) (
          every_if (AllKeep s) (code == 3) (every_handled s _ (keeps s _ refl)) (
            every_if (AllKeep s) (code == 4) (every_handled s _ (keeps s _ refl)) (
              every_if (AllKeep s) (code == 5)
                (every_handled s _ (write_single-Keeps coil "coil_writes_count" s bytes))
                (every_if (AllKeep s) (code == 6)
                  (every_handled s _ (write_single-Keeps holding "holding_writes_count" s bytes))
                  (every_if (AllKeep s) (code == 15)
                    (every_handled s _ (write_coil_registers-Keeps s bytes))
                    (every_if (AllKeep s) (code == 16)
                      (every_handled s _ (write_holding_registers-Keeps s bytes)) (λ h e. cc))))))))

  after_fetch-registers :
      (status : Status F) (err : Option FetchError) (s : Server F Raw)
      → (after_fetch fl bus status err s).registers ≡ s.registers
  after_fetch-registers status none s = refl
  after_fetch-registers status (some (not_kind k)) s = refl
  after_fetch-registers status (some unmarshaling) s = refl

  handle_msg_bus_status-registers :
      (env : Envelope Raw) (s : Server F Raw)
      → (handle_msg_bus_status fl bus env s).registers ≡ s.registers
  unfolding handle_msg_bus_status
  handle_msg_bus_status-registers env s =
      every_if (λ (t : Server F Raw). t.registers ≡ s.registers) (sender env == s.name) refl
        (after_fetch-registers _ _ _)

  -- The states that a server comes to from `s`: it is asked by clients, whom it replies to, and told
  -- by the bus.
  pub data Follows (s : Server F Raw) : Server F Raw → Type 0 where
    here : Follows s s
    asked :
        {t u : Server F Raw} {answer : Response} (code : ℕ) (request : List ℕ)
        → Follows s t
        → handle fl bus code t request ≡ some (u, answer)
        → is_reply answer ≡ true
        → Follows s u
    told :
        {t : Server F Raw} (env : Envelope Raw)
        → Follows s t
        → Follows s (handle_msg_bus_status fl bus env t)

  Keeps-registers :
      (s : Server F Raw) (h : Handled fl bus) → Keeps s h → h.0.registers ≡ s.registers
  unfolding Keeps
  Keeps-registers s h e = e

  pub Follows-registers : {s t : Server F Raw} → Follows s t → t.registers ≡ s.registers
  Follows-registers here = refl
  Follows-registers (asked {t} code request f e reply) =
      Keeps-registers _ _ (handle-AllKeep code t request _ e) ∙ Follows-registers f
  Follows-registers (told {t} env f) = handle_msg_bus_status-registers env t ∙ Follows-registers f

module _ {F Raw E : Type 0} (fl : FloatOps F) (xml : Xml E) (conv : Conversions F) where
  holding_table :
      (s : Server F Raw) (table : Table)
      → IsConfigured s
      → lookup holding s.registers ≡ some table
      → IsWordTable table
  holding_table s table all e addr r f =
      let (kind, _, ready, _) = all holding table addr r e f in (ready, rw kind refl)

  -- A server that `Configure` has made of a new one and that has holding registers answers, after
  -- any requests, of any function codes, each of which it has replied to with data or an exception,
  -- and any messages from the bus, every read of holding registers that carries a start and a count:
  -- with the registers that it was configured with and the values that its tags have by then, or
  -- with the exception for an illegal address.
  pub configure-WordReply :
      (bus : Bus F Raw) (e : E) (name : String) (s t : Server F Raw) (table : Table)
      (request : List ℕ) (start count : ℕ)
      → configure fl xml conv e (new name) ≡ done s
      → Follows fl bus s t
      → lookup holding s.registers ≡ some table
      → uint16_at 0 request ≡ some start
      → uint16_at 2 request ≡ some count
      → WordReply fl table t.tags (start + count) start (read_holding_registers fl t request)
  configure-WordReply bus e name s t table request start count made later has e0 e1 =
      read_holding_registers-WordReply fl t request
        (ap (lookup holding) (Follows-registers fl bus later) ∙ has)
        (holding_table s table (configure-IsConfigured fl xml conv e name s made) has) e0 e1
