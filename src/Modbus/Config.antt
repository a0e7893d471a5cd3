-- ===== src/Modbus/Config.antt =====
-- The parts that `Configure` of src/go/modbus/client/client.go and of
-- src/go/modbus/server/server.go share: the serial line and one register.
use ot_sim.Common.{
  Option, none, some, String, ◌==◌, ◌||◌, string_eq, if◌then◌else◌, or_else, ◌≡◌, arith, inl, inr,
}
use ot_sim.Common.Int.{ℤ, pos}
use ot_sim.Config.{
  Xml, Conversions, ConfigError, invalid_baud_rate, invalid_data_bits, invalid_stop_bits,
  invalid_parity, invalid_timeout, missing_type, missing_address, missing_tag, invalid_address,
  invalid_register, Configured, done, failed, ◌>>=◌, Ensures, Ensures-bind, Ensures-done,
  Ensures-at, fold_all,
}
use ot_sim.Modbus.Register.{
  Register, Result, ok, err, panics, register_type, data_type, init, Result-cases,
}
use ot_sim.Modbus.Register.Shape.{IsReady}
use ot_sim.Modbus.Server.State.{Serial}

module _ {F E : Type 0} (xml : Xml E) (conv : Conversions F) where
  -- `strconv.Atoi` with the error's kind
  abbrev pub number : String → ConfigError → Configured ℤ
  number text e = let (n, wrong) = conv.atoi text in if wrong then failed e else done n

  abbrev pub duration : String → ConfigError → Configured ℤ
  duration text e = elim (conv.parse_duration text) [ none ↦ failed e | some d ↦ done d ]

  abbrev parity : String → Configured String
  parity text =
      if conv.equal_fold text "none"
      then done "N"
      else if conv.equal_fold text "even"
      then done "E"
      else if conv.equal_fold text "odd"
      then done "O"
      else failed invalid_parity

  -- one child of the element `serial`
  unfoldable pub serial_option : E → Serial → Configured Serial
  serial_option child s =
      let name = xml.tag child in
      let text = xml.text child in
      if name == "device"
      then done (record s { address = text })
      else if name == "baud-rate"
      then number text invalid_baud_rate >>= (λ n. done (record s { baud_rate = n }))
      else if name == "data-bits"
      then number text invalid_data_bits >>= (λ n. done (record s { data_bits = n }))
      else if name == "stop-bits"
      then number text invalid_stop_bits >>= (λ n. done (record s { stop_bits = n }))
      else if name == "parity"
      then parity text >>= (λ p. done (record s { parity = p }))
      else if name == "timeout"
      then duration text invalid_timeout >>= (λ d. done (record s { timeout = d }))
      else done s

  -- the element `serial`; the client and the server differ in the timeout that they start from
  unfoldable pub serial_config : ℤ → E → Configured Serial
  serial_config timeout child = fold_all serial_option (xml.child_elements child) (record {
    address = "/dev/ttyS0";
    baud_rate = pos 115200;
    data_bits = pos 8;
    stop_bits = pos 1;
    parity = "N";
    timeout = timeout;
  })

  abbrev data_type_name : String → E → String
  data_type_name kind child =
      if kind == "input" || kind == "holding"
      then or_else (xml.select_attr "data-type" child) "uint16"
      else ""

  abbrev needed : Option E → ConfigError → Configured E
  needed none e = failed e
  needed (some x) e = done x

  -- a scaling that is no number counts as what `Atoi` gives with its error
  abbrev scaling : String → Option E → ℤ
  scaling data_name none = pos 0
  scaling data_name (some e) = if data_name == "float" then pos 0 else (conv.atoi (xml.text e)).0

  abbrev checked : Result Register → Configured Register
  checked (ok r) = done r
  checked (err e) = failed invalid_register
  checked panics = failed invalid_register

  abbrev typed : Option String → Configured String
  typed none = failed missing_type
  typed (some kind) = done kind

  -- the element `register`
  unfoldable pub read_register : E → Configured Register
  read_register child = typed (xml.select_attr "type" child) >>= (λ kind.
      needed (xml.select_element "address" child) missing_address >>= (λ address.
        number (xml.text address) invalid_address >>= (λ addr.
          needed (xml.select_element "tag" child) missing_tag >>= (λ tag. checked (
            init (record {
              kind = register_type kind;
              data_kind = data_type (data_type_name kind child);
              addr = addr;
              count = 0;
              scaling = scaling (data_type_name kind child) (xml.select_element "scaling" child);
              tag = xml.text tag;
            }))))))

  checked-IsReady : (r r' : Register) → checked (init r) ≡ done r' → IsReady r'
  checked-IsReady r r' h = elim (Result-cases (init r)) [
    | inl (q, e) ↦ (r, ground arith)
    | inr (inl (x, e)) ↦ cc
    | inr (inr e) ↦ cc
  ]

  read_register-Ensures : (child : E) → Ensures IsReady (read_register child)
  unfolding read_register
  read_register-Ensures child =
      Ensures-bind IsReady (typed (xml.select_attr "type" child)) _ (λ kind _.
        Ensures-bind IsReady (needed (xml.select_element "address" child) missing_address) _
          (λ address _.
            Ensures-bind IsReady (number (xml.text address) invalid_address) _ (λ addr _.
              Ensures-bind IsReady (needed (xml.select_element "tag" child) missing_tag) _
                (λ tag _. Ensures-done IsReady (checked (init _)) (λ r h. checked-IsReady _ r h)))))

  -- A register that was read from the configuration is ready.
  pub read_register-IsReady : (child : E) (r : Register) → read_register child ≡ done r → IsReady r
  read_register-IsReady child r h = Ensures-at r (read_register-Ensures child) h
