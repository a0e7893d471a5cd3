-- ===== src/Msgbus/Subscriber/Loops.antt =====
-- What every sequence of calls of a subscriber keeps.
use ot_sim.Common.{
  ℕ, ◌≡◌, refl, ◌==◌, ◌⊎◌, inl, inr, Option, none, some, List, [], ◌∷◌, String, eq_refl, string_eq,
  arith, Option-cases, every_if,
}
use ot_sim.Common.Dict.{Dict, lookup}
use ot_sim.Common.Dict.Keys.{IsMap, lookup-erase, IsMap-insert, IsMap-erase}
use ot_sim.Msgbus.Types.{Kind, Envelope, Json, Confirmation}
use ot_sim.Msgbus.Envelope.{FetchError, parse_envelope, get_confirmation}
use ot_sim.Msgbus.Subscriber.{
  Handler, Handlers, Loop, Subscriber, new_subscriber, add_status_handler, add_update_handler,
  add_health_check_handler, register_confirmation_handler, start, stop, Received, failed, message,
  Turn, confirm, dispatch, read_body, take_message, turn,
}

-- the channel of the confirmation's key, which is gone after
abbrev pub HasChannel : Dict String ℕ → Dict String ℕ → ℕ × Confirmation → Type 0
HasChannel before after (ch, c) =
    (lookup c.confirm before ≡ some ch) × (lookup c.confirm after ≡ none)

-- what a turn delivers, if anything, goes to the channel of its key, which is then gone
abbrev pub Delivers : {S : Type 0} → Dict String ℕ → Turn S → Type 0
Delivers before t =
    (t.delivers ≡ none)
    ⊎ ((d : ℕ × Confirmation) × (t.delivers ≡ some d) × HasChannel before t.channels d)

module _ {F S Raw : Type 0} (json : Json F Raw) where
  -- The states that calls and turns of a loop lead to.
  pub data Reaches : Subscriber S Raw → Type 0 where
    begins : Reaches new_subscriber
    adds_status :
        {s : Subscriber S Raw} (h : Handler S Raw) → Reaches s → Reaches (add_status_handler h s)
    adds_update :
        {s : Subscriber S Raw} (h : Handler S Raw) → Reaches s → Reaches (add_update_handler h s)
    adds_health :
        {s : Subscriber S Raw} (h : Handler S Raw)
        → Reaches s
        → Reaches (add_health_check_handler h s)
    registers :
        {s : Subscriber S Raw} (confirmation : String)
        → Reaches s
        → Reaches (register_confirmation_handler confirmation s).1
    starts : {s : Subscriber S Raw} (topic : String) → Reaches s → Reaches (start topic s)
    stops : {s : Subscriber S Raw} → Reaches s → Reaches (stop s)
    turns :
        {s : Subscriber S Raw} (l : Loop S Raw) (r : Received Raw) (world : S)
        → Reaches s
        → Reaches (record s {
          confirmation_handlers = (turn json l r world s.confirmation_handlers).channels;
        })

  abbrev IsFair : Dict String ℕ → Turn S → Type 0
  IsFair before t = IsMap t.channels × Delivers before t

  confirm-IsFair :
      (r : Confirmation × Option FetchError) (world : S) (channels : Dict String ℕ)
      → IsMap channels
      → IsFair channels (confirm json r world channels)
  confirm-IsFair (c, some e) world channels h = (h, inl refl)
  confirm-IsFair (c, none) world channels h = elim (Option-cases (lookup c.confirm channels)) [
    | inl none_there ↦ rw (none_there, confirm) (h, inl refl)
    | inr (ch, there) ↦
        rw (there, confirm)
          (
            IsMap-erase c.confirm channels h,
            inr (
              (ch, c),
              refl,
              (
                there,
                ground (arith, lookup-erase c.confirm c.confirm channels h, eq_refl c.confirm),
              ),
            ),
          )
  ]

  dispatch-IsFair :
      (k : Kind) (hs : Handlers S Raw) (env : Envelope Raw) (world : S) (channels : Dict String ℕ)
      → IsMap channels
      → IsFair channels (dispatch json k hs env world channels)
  unfolding dispatch
  dispatch-IsFair Kind.status hs env world channels h = (h, inl refl)
  dispatch-IsFair Kind.update hs env world channels h = (h, inl refl)
  dispatch-IsFair Kind.health_check hs env world channels h = (h, inl refl)
  dispatch-IsFair Kind.confirmation hs env world channels h =
      confirm-IsFair (get_confirmation json env) world channels h
  dispatch-IsFair Kind.module_control hs env world channels h = (h, inl refl)
  dispatch-IsFair Kind.metric hs env world channels h = (h, inl refl)
  dispatch-IsFair (Kind.other s) hs env world channels h = (h, inl refl)

  read_body-IsFair :
      (l : Loop S Raw) (bodies : List Raw) (world : S) (channels : Dict String ℕ)
      → IsMap channels
      → IsFair channels (read_body json l bodies world channels)
  read_body-IsFair l [] world channels h = (h, inl refl)
  read_body-IsFair l (body ∷ more) world channels h =
      elim (Option-cases (parse_envelope json body)) [
        | inl bad ↦ rw (bad, read_body) (h, inl refl)
        | inr (env, good) ↦
            rw (good, read_body) (dispatch-IsFair env.kind l.handlers env world channels h)
      ]

  take_message-IsFair :
      (l : Loop S Raw) (r : Received Raw) (world : S) (channels : Dict String ℕ)
      → IsMap channels
      → IsFair channels (take_message json l r world channels)
  take_message-IsFair l failed world channels h = (h, inl refl)
  take_message-IsFair l (message topic bodies) world channels h =
      every_if (IsFair channels) (topic == l.topic) (read_body-IsFair l bodies world channels h)
        (h, inl refl)

  turn-IsFair :
      (l : Loop S Raw) (r : Received Raw) (world : S) (channels : Dict String ℕ)
      → IsMap channels
      → IsFair channels (turn json l r world channels)
  unfolding turn
  turn-IsFair l r world channels h =
      every_if (IsFair channels) l.running (take_message-IsFair l r world channels h) (h, inl refl)

  Reaches-IsMap : {s : Subscriber S Raw} → Reaches s → IsMap s.confirmation_handlers
  unfolding new_subscriber add_status_handler add_update_handler add_health_check_handler
      register_confirmation_handler start stop
  Reaches-IsMap begins = tt
  Reaches-IsMap (adds_status h r) = Reaches-IsMap r
  Reaches-IsMap (adds_update h r) = Reaches-IsMap r
  Reaches-IsMap (adds_health h r) = Reaches-IsMap r
  Reaches-IsMap (registers c r) = IsMap-insert c _ _ (Reaches-IsMap r)
  Reaches-IsMap (starts t r) = Reaches-IsMap r
  Reaches-IsMap (stops r) = Reaches-IsMap r
  Reaches-IsMap (turns l m w r) = (turn-IsFair l m w _ (Reaches-IsMap r)).0

  -- From any such state, what a turn of a loop delivers goes to the channel that was registered
  -- under the confirmation's key, and none is registered there after: a second confirmation of the
  -- key is not delivered.
  pub Reaches-Delivers :
      {s : Subscriber S Raw} (l : Loop S Raw) (r : Received Raw) (world : S)
      → Reaches s
      → Delivers s.confirmation_handlers (turn json l r world s.confirmation_handlers)
  Reaches-Delivers l r world reached = (turn-IsFair l r world _ (Reaches-IsMap reached)).1
