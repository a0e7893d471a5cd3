-- ===== src/Msgbus/Pusher.antt =====
-- The PUSH socket of src/go/msgbus/pusher.go. Whether ZeroMQ takes a message is the parameter
-- `accepts`, a function of what was sent before and of the message.
use ot_sim.Common.{
  ◌≡◌, true, is_some, arith, Bool, false, Option-cases, inl, inr, Option, none, some, List, [], ◌∷◌,
  ◌++◌, String, if◌then◌else◌,
}
use ot_sim.Msgbus.Types.{Envelope, Json}

-- A message on the wire: a topic, and an encoded envelope or a plain line.
pub data Body (Raw : Type 0) : Type 0 where
  encoded : Raw → Body Raw
  text : String → Body Raw

abbrev pub Sent : Type 0 → Type 0
Sent Raw = List (String × Body Raw)

pub data PushError : Type 0 where
  marshaling sending : PushError

-- What the bus is to a module: its codecs, and the other end of its socket.
-- `describe` gives the text of an error, which the JSON encoder or ZeroMQ words.
pub record Bus (F Raw : Type 0) : Type 0 where
  pub json : Json F Raw
  pub accepts : Sent Raw → String → Body Raw → Bool
  pub describe : PushError → String

module _ {F Raw : Type 0} (bus : Bus F Raw) where
  send : String → Body Raw → Sent Raw → Option PushError × Sent Raw
  send topic body sent =
      if bus.accepts sent topic body
      then (none, sent ++ (topic, body) ∷ [])
      else (some sending, sent)

  unfoldable pub push : String → Envelope Raw → Sent Raw → Option PushError × Sent Raw
  unfolding send
  push topic env sent = elim (bus.json.envelope.marshal env) [
    | none ↦ (some marshaling, sent)
    | some body ↦ send topic (encoded body) sent
  ]

  -- What was pushed was encoded, and is the last message sent.
  pub push_sent :
      (topic : String) (env : Envelope Raw) (sent : Sent Raw)
      → is_some (push topic env sent).0 ≡ false
      → (body : Raw) × (bus.json.envelope.marshal env ≡ some body)
        × ((push topic env sent).1 ≡ sent ++ (topic, encoded body) ∷ [])
  unfolding push send
  push_sent topic env sent h = elim (Option-cases (bus.json.envelope.marshal env)) [
    | inl e ↦ ground arith
    | inr (body, e) ↦ (body, e, ground arith)
  ]

  -- with the message already formatted
  unfoldable pub push_string : String → String → Sent Raw → Option PushError × Sent Raw
  unfolding send
  push_string topic msg sent = send topic (text msg) sent

  -- What could not be pushed was not sent.
  pub push_failed :
      (topic : String) (env : Envelope Raw) (sent : Sent Raw)
      → is_some (push topic env sent).0 ≡ true
      → (push topic env sent).1 ≡ sent
  unfolding push
  push_failed topic env sent h = ground arith
