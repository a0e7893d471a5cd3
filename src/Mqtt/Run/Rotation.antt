-- ===== src/Mqtt/Run/Rotation.antt =====
-- How the MQTT module of src/go/mqtt/mqtt.go goes round its endpoints.
use ot_sim.Common.{
  ℕ, zero, suc, ◌+◌, ◌-◌, ◌<◌, ◌≤◌, ◌≡◌, refl, sym, ap, ◌∙◌, Bool, true, false, Option, some, List,
  [], ◌∷◌, ◌==◌, nat_eq, if◌then◌else◌, length, get_elem?, arith, ◌⊎◌, inl, inr, Bool-cases,
  ltb-cases,
}
use mathlib.Core.Path.{subst}
use mathlib.Core.Option.{some-injective}
use ot_sim.Mqtt.{Endpoint, MqttClient}
use ot_sim.Mqtt.Run.{Attempt, refused, connected, attempt, connect, connect_and_run}

get_elem-below :
    {A : Type 0} (xs : List A) (i : ℕ) → i < length xs → (x : A) × (get_elem? xs i ≡ some x)
get_elem-below [] i h = elim h [ ]
get_elem-below (x ∷ xs) zero h = (x, refl)
get_elem-below (x ∷ xs) (suc i) h = get_elem-below xs i (omega (arith, h))

module _ {F U C R T : Type 0} (answers : Endpoint U C R → Bool) where
  -- the index that the next attempt takes
  abbrev next_index : MqttClient F U C R T → ℕ
  next_index m = if m.endpoint == length m.endpoints then 0 else m.endpoint

  -- The index is that of an endpoint or one behind the last, and there is an endpoint.
  abbrev pub IsInRange : MqttClient F U C R T → Type 0
  IsInRange m = (m.endpoint ≤ length m.endpoints) × (0 < length m.endpoints)

  next_index-lt : (m : MqttClient F U C R T) → IsInRange m → next_index m < length m.endpoints
  next_index-lt m (le, some_endpoint) = ground arith

  -- Connected, to an endpoint that answers, with the index behind it.
  abbrev pub Connects :
      MqttClient F U C R T → Option (Attempt (MqttClient F U C R T) (Endpoint U C R)) → Type 0
  Connects m result =
      (i : ℕ) × (e : Endpoint U C R) × (result ≡ some (connected e (record m { endpoint = i + 1 })))
      × (get_elem? m.endpoints i ≡ some e)
      × (answers e ≡ true)

  -- `d` steps further round the circle stands the endpoint with the index `j`.
  abbrev IsAhead : ℕ → ℕ → MqttClient F U C R T → Type 0
  IsAhead d j m = (next_index m + d ≡ j) ⊎ (next_index m + d ≡ j + length m.endpoints)

  IsAhead-step :
      (d j : ℕ) (m : MqttClient F U C R T)
      → IsInRange m
      → j < length m.endpoints
      → IsAhead (suc d) j m
      → IsAhead d j (record m { endpoint = next_index m + 1 })
  IsAhead-step d j m range small ahead = ground (arith, next_index-lt m range)

  connect-at :
      (m : MqttClient F U C R T) (e : Endpoint U C R) (b : Bool)
      → get_elem? m.endpoints (next_index m) ≡ some e
      → answers e ≡ b
      → connect answers m ≡ (
          if b
          then connected e (record m { endpoint = next_index m + 1 })
          else refused (record m { endpoint = next_index m + 1 }))
  unfolding connect
  connect-at m e b at does = rw (at, attempt) (rw does refl)

  -- the endpoint that the attempt takes is the one searched for, which answers
  arrived :
      (j : ℕ) (m : MqttClient F U C R T) (e q : Endpoint U C R)
      → IsInRange m
      → get_elem? m.endpoints j ≡ some e
      → answers e ≡ true
      → j < length m.endpoints
      → IsAhead 0 j m
      → get_elem? m.endpoints (next_index m) ≡ some q
      → answers q ≡ true
  arrived j m e q range there does small ahead at =
      let here : next_index m ≡ j = omega (arith, next_index-lt m range) in
      let same : e ≡ q =
        some-injective _ _ (sym there ∙ ap (get_elem? m.endpoints) (sym here) ∙ at) in
      subst (λ x. answers x ≡ true) same does

  connect_and_run-from :
      (d fuel j : ℕ) (m : MqttClient F U C R T) (e : Endpoint U C R)
      → d < fuel
      → IsInRange m
      → get_elem? m.endpoints j ≡ some e
      → answers e ≡ true
      → j < length m.endpoints
      → IsAhead d j m
      → Connects m (connect_and_run answers fuel m)
  unfolding connect_and_run
  connect_and_run-from d zero j m e enough range there does small ahead = elim enough [ ]
  connect_and_run-from d (suc fuel) j m e enough range there does small ahead =
      let (q, at) = get_elem-below m.endpoints (next_index m) (next_index-lt m range) in
      elim (Bool-cases (answers q)) [
        | inl answering ↦ (
          next_index m,
          q,
          rw (connect-at m q true at answering, connect_and_run) refl,
          at,
          answering,
        )
        | inr silent ↦
            rw (connect-at m q false at silent, connect_and_run)
              (onward d enough ahead q at silent (λ k less further.
                connect_and_run-from k fuel j (record m { endpoint = next_index m + 1 }) e less
                  (omega (arith, next_index-lt m range), range.1) there does small further))
      ]
    where
      onward :
          (d : ℕ)
          → d < suc fuel
          → IsAhead d j m
          → (q : Endpoint U C R) → get_elem? m.endpoints (next_index m) ≡ some q
          → answers q ≡ false
          → ((k : ℕ)
              → k < fuel
              → IsAhead k j (record m { endpoint = next_index m + 1 })
              → Connects m
                  (connect_and_run answers fuel (record m { endpoint = next_index m + 1 })))
          → Connects m (connect_and_run answers fuel (record m { endpoint = next_index m + 1 }))
      onward zero enough ahead q at silent again =
          let does_too = arrived j m e q range there does small ahead at in cc
      onward (suc d) enough ahead q at silent again =
          again d (omega (arith, enough)) (IsAhead-step d j m range small ahead)

  -- With an index in range, the loop of `connectAndRun` comes to an end where some endpoint
  -- answers, after one round over the endpoints at most: it is connected to an endpoint that
  -- answers, and the index stands behind that endpoint's.
  pub connect_and_run-Connects :
      (m : MqttClient F U C R T) (j : ℕ) (e : Endpoint U C R)
      → IsInRange m
      → j < length m.endpoints
      → get_elem? m.endpoints j ≡ some e
      → answers e ≡ true
      → Connects m (connect_and_run answers (length m.endpoints) m)
  connect_and_run-Connects m j e range small there does = elim (ltb-cases j (next_index m)) [
    | inl (before, _) ↦
        connect_and_run-from (j + length m.endpoints - next_index m) (length m.endpoints) j m e
          (omega (arith, before, next_index-lt m range)) range there does small
          (inr (omega (arith, before, next_index-lt m range)))
    | inr (after, _) ↦
        connect_and_run-from (j - next_index m) (length m.endpoints) j m e
          (omega (arith, after, small)) range there does small (inl (omega (arith, after)))
  ]
