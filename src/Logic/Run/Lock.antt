-- ===== src/Logic/Run/Lock.antt =====
-- The lock `envMu` of src/go/logic/logic.go: what takes it for good, and when it is free again.
use ot_sim.Common.{
  ◌≡◌, refl, sym, ◌∙◌, ap, Bool, true, if◌then◌else◌, false, Option, none, some, List, [], ◌∷◌, map,
  String, ◌==◌, string_eq, every_if,
}
use mathlib.Core.Path.{subst}
use ot_sim.Common.Dict.{Dict}
use ot_sim.Float.{FloatOps}
use ot_sim.Logic.{Env, Language, Logic}
use ot_sim.Logic.Run.{
  execute, points_of, named, publish, measured, changed, publish_all, Outcome, blocked, panicked,
  done, after_execute, tick, locked_set, handle_msg_bus_status, handle_msg_bus_update,
}
use ot_sim.Msgbus.Types.{Point, Envelope}
use ot_sim.Msgbus.Envelope.{FetchError, Contents, new_envelope, sender}
use ot_sim.Msgbus.Pusher.{Bus, Sent, push}

-- A step that comes to an end does so in a state of which `P` holds.
data Leaves {A : Type 0} (P : A → Type 0) : Outcome A → Type 0 where
  waits : Leaves P blocked
  dies : Leaves P panicked
  leaves : {a : A} → P a → Leaves P (done a)

abbrev result : {A : Type 0} → A → Outcome A → A
result a (done b) = b
result a blocked = a
result a panicked = a

Leaves-at : {A : Type 0} {P : A → Type 0} {o : Outcome A} (a : A) → Leaves P o → o ≡ done a → P a
Leaves-at a waits e = cc
Leaves-at a dies e = cc
Leaves-at {P} a (leaves {a = b} p) e = subst P (ap (result b) e) p

module _ {F P X Raw : Type 0} (fl : FloatOps F) (lang : Language F P X) (bus : Bus F Raw) where
  -- The states that turns of the loop and messages from the bus lead to.
  pub data Reach (l : Logic F P X Raw) : Logic F P X Raw → Type 0 where
    here : Reach l l
    ticked : {m n : Logic F P X Raw} → Reach l m → tick fl lang bus m ≡ done n → Reach l n
    status_told :
        {m n : Logic F P X Raw} (env : Envelope Raw)
        → Reach l m
        → handle_msg_bus_status bus env m ≡ done n
        → Reach l n
    update_told :
        {m n : Logic F P X Raw} (env : Envelope Raw)
        → Reach l m
        → handle_msg_bus_update bus env m ≡ done n
        → Reach l n

  -- What all steps keep holds of every state that is reached.
  Reach-Keeps :
      (Q : Logic F P X Raw → Type 0) (l m : Logic F P X Raw)
      → ((n : Logic F P X Raw) → Q n → Leaves Q (tick fl lang bus n))
      → ((env : Envelope Raw) (n : Logic F P X Raw)
          → Q n
          → Leaves Q (handle_msg_bus_status bus env n))
      → ((env : Envelope Raw) (n : Logic F P X Raw)
          → Q n
          → Leaves Q (handle_msg_bus_update bus env n))
      → Reach l m
      → Q l
      → Q m
  Reach-Keeps Q l m t s u here q = q
  Reach-Keeps Q l m t s u (ticked {m = k} r e) q = Leaves-at m (t k (Reach-Keeps Q l k t s u r q)) e
  Reach-Keeps Q l m t s u (status_told {m = k} env r e) q =
      Leaves-at m (s env k (Reach-Keeps Q l k t s u r q)) e
  Reach-Keeps Q l m t s u (update_told {m = k} env r e) q =
      Leaves-at m (u env k (Reach-Keeps Q l k t s u r q)) e

  -- the state of a module whose lock is taken for good
  abbrev Wedged : Logic F P X Raw → Logic F P X Raw → Type 0
  Wedged l m = (m.locked ≡ true) × (m.env ≡ l.env) × (m.sent ≡ l.sent)

  locked_set-Wedged :
      (l m : Logic F P X Raw) (points : List (Point F)) (err : Option FetchError)
      → Wedged l m
      → Leaves (Wedged l) (locked_set bus points err m)
  locked_set-Wedged l m points (some e) w = leaves w
  locked_set-Wedged l m points none w = rw (w.0, locked_set) waits

  Reach-Wedged : (l m : Logic F P X Raw) → l.locked ≡ true → Reach l m → Wedged l m
  unfolding tick handle_msg_bus_status handle_msg_bus_update
  Reach-Wedged l m locked r =
      Reach-Keeps (Wedged l) l m (λ n w. rw (w.0, tick) waits)
        (λ env n w.
          every_if (Leaves (Wedged l)) (sender env == n.name) (leaves w)
            (locked_set-Wedged l n _ _ w))
        (λ env n w.
          every_if (Leaves (Wedged l)) (sender env == n.name) (leaves w)
            (locked_set-Wedged l n _ _ w))
        r (locked, refl, refl)

  -- the measurements that a turn publishes when the environment is `env`
  abbrev pub measurements : Logic F P X Raw → Env F X → Dict String (Point F)
  measurements l env = points_of fl l.var_to_tag env (named l.order) []

  tick_refused :
      (l m : Logic F P X Raw) (env : Env F X) (updated : List String)
      → l.locked ≡ false
      → execute lang l ≡ some (env, updated)
      → publish bus l.name measured (measurements l env) l.sent ≡ none
      → tick fl lang bus l ≡ done m
      → record l { env = env; locked = true } ≡ m
  unfolding tick publish_all execute
  tick_refused l m env updated free ran refused ticks =
      let e : tick fl lang bus l ≡ done (record l { env = env; locked = true }) =
        rw (free, tick) (rw (ran, tick) (rw (refused, publish_all) refl)) in
      ap (result l) (sym e ∙ ticks)

  -- A turn of the loop in which a status message cannot be made of the points (the JSON encoder
  -- refuses the value of one, such as NaN) is the last: whatever follows it, the next turn waits
  -- for the lock for ever, no value of the environment changes again, and nothing is sent again.
  pub tick-Wedged :
      (l m n : Logic F P X Raw) (env : Env F X) (updated : List String)
      → l.locked ≡ false
      → execute lang l ≡ some (env, updated)
      → publish bus l.name measured (measurements l env) l.sent ≡ none
      → tick fl lang bus l ≡ done m
      → Reach m n
      → (tick fl lang bus n ≡ blocked) × (n.env ≡ env) × (n.sent ≡ l.sent)
  unfolding tick
  tick-Wedged l m n env updated free ran refused ticks r =
      let e = tick_refused l m env updated free ran refused ticks in
      let (locked, same, quiet) = Reach-Wedged m n (sym (ap (λ k. k.locked) e)) r in
      (rw (locked, tick) refl, same ∙ sym (ap (λ k. k.env) e), quiet ∙ sym (ap (λ k. k.sent) e))

  -- no number that JSON has no text for
  abbrev pub all_finite : (F → Bool) → Dict String (Point F) → Bool
  all_finite finite [] = true
  all_finite finite (p ∷ ps) = if finite p.1.value then all_finite finite ps else false

  -- The encoder makes a status and an update of any points whose values are finite.
  abbrev pub Encodes : (F → Bool) → Type 0
  Encodes finite =
      (name : String) (points : Dict String (Point F))
      → all_finite finite points ≡ true
      → ((env : Envelope Raw) × (new_envelope bus.json name (measured (map (λ e. e.1) points))
            ≡ some env))
        × ((env : Envelope Raw) × (new_envelope bus.json name (changed (map (λ e. e.1) points))
              ≡ some env))

  -- the updates that a turn publishes
  abbrev pub updates : Logic F P X Raw → Env F X → List String → Dict String (Point F)
  updates l env updated = points_of fl l.var_to_tag env updated []

  -- The states that messages from the bus lead to, and turns of the loop with finite numbers only.
  pub data Calm (finite : F → Bool) (l : Logic F P X Raw) : Logic F P X Raw → Type 0 where
    starts : Calm finite l l
    turns :
        {m n : Logic F P X Raw} (env : Env F X) (updated : List String)
        → Calm finite l m
        → execute lang m ≡ some (env, updated)
        → all_finite finite (measurements m env) ≡ true
        → all_finite finite (updates m env updated) ≡ true
        → tick fl lang bus m ≡ done n
        → Calm finite l n
    hears_status :
        {m n : Logic F P X Raw} (env : Envelope Raw)
        → Calm finite l m
        → handle_msg_bus_status bus env m ≡ done n
        → Calm finite l n
    hears_update :
        {m n : Logic F P X Raw} (env : Envelope Raw)
        → Calm finite l m
        → handle_msg_bus_update bus env m ≡ done n
        → Calm finite l n

  publish-some :
      (name : String) (contents : List (Point F) → Contents F) (points : Dict String (Point F))
      (sent : Sent Raw)
      → ((env : Envelope Raw) × (new_envelope bus.json name (contents (map (λ e. e.1) points))
            ≡ some env))
      → (sent' : Sent Raw) × (publish bus name contents points sent ≡ some sent')
  publish-some name contents [] sent made = (sent, refl)
  publish-some name contents (p ∷ ps) sent (env, e) =
      ((push bus "RUNTIME" env sent).1, rw (e, publish) refl)

  publish_all-free :
      (finite : F → Bool) (l : Logic F P X Raw) (updated : List String)
      → Encodes finite
      → all_finite finite (measurements l l.env) ≡ true
      → all_finite finite (updates l l.env updated) ≡ true
      → (publish_all fl bus l updated).locked ≡ false
  unfolding publish_all
  publish_all-free finite l updated all ms us =
      let (sent, e) =
        publish-some l.name measured (measurements l l.env) l.sent (all l.name _ ms).0 in
      let (sent', e') =
        publish-some l.name changed (updates l l.env updated) sent (all l.name _ us).1 in
      rw (e, publish_all) (rw (e', publish_all) refl)

  IsFree : Logic F P X Raw → Type 0
  IsFree l = l.locked ≡ false

  locked_set-IsFree :
      (m : Logic F P X Raw) (points : List (Point F)) (err : Option FetchError)
      → IsFree m
      → Leaves IsFree (locked_set bus points err m)
  unfolding IsFree
  locked_set-IsFree m points (some e) w = leaves w
  locked_set-IsFree m points none w = every_if (Leaves IsFree) m.locked waits (leaves w)

  tick-IsFree :
      (finite : F → Bool) (m : Logic F P X Raw) (env : Env F X) (updated : List String)
      → Encodes finite
      → execute lang m ≡ some (env, updated)
      → all_finite finite (measurements m env) ≡ true
      → all_finite finite (updates m env updated) ≡ true
      → Leaves IsFree (tick fl lang bus m)
  unfolding tick IsFree
  tick-IsFree finite m env updated all ran ms us = every_if (Leaves IsFree) m.locked waits (
      rw (ran, after_execute)
        (leaves (publish_all-free finite (record m { env = env }) updated all ms us)))

  Calm-IsFree :
      (finite : F → Bool) (l m : Logic F P X Raw)
      → Encodes finite
      → IsFree l
      → Calm finite l m
      → IsFree m
  unfolding handle_msg_bus_status handle_msg_bus_update
  Calm-IsFree finite l m all free starts = free
  Calm-IsFree finite l m all free (turns {m = k} env updated r ran ms us e) =
      Leaves-at m (tick-IsFree finite k env updated all ran ms us) e
  Calm-IsFree finite l m all free (hears_status {m = k} env r e) =
      let had = Calm-IsFree finite l k all free r in
      Leaves-at m
        (every_if (Leaves IsFree) (sender env == k.name) (leaves had) (locked_set-IsFree k _ _ had))
        e
  Calm-IsFree finite l m all free (hears_update {m = k} env r e) =
      let had = Calm-IsFree finite l k all free r in
      Leaves-at m
        (every_if (Leaves IsFree) (sender env == k.name) (leaves had) (locked_set-IsFree k _ _ had))
        e

  -- Where the JSON encoder takes finite numbers, the lock of a module is free in every state that
  -- messages from the bus, and turns of the loop whose points are all finite, lead to from one in
  -- which it is free.
  pub Calm-free :
      (finite : F → Bool) (l m : Logic F P X Raw)
      → Encodes finite
      → l.locked ≡ false
      → Calm finite l m
      → m.locked ≡ false
  unfolding IsFree
  Calm-free finite l m all free r = Calm-IsFree finite l m all free r
