-- ===== src/Sunspec/Server/Configure/Ready.antt =====
-- What `Configure` makes of a new SunSpec server, and what the server answers then.
use ot_sim.Common.{
  ℕ, ◌<◌, ◌≡◌, refl, sym, ◌∙◌, true, Option, none, some, List, [], ◌∷◌, ◌++◌, String, ◌==◌,
  string_eq, get_elem?, set, arith, get_elem-snoc, get_elem-set, every_if, inl, inr, Option-cases,
  Bool-cases,
}
use mathlib.Core.Path.{subst}
use mathlib.Core.Option.{some-injective}
use ot_sim.Common.Int.{ℤ, pos, int_eq}
use ot_sim.Common.Dict.{lookup}
use ot_sim.Config.{
  Xml, Conversions, Configured-cases, done, fold_all, Ensures, succeeds, fails, Ensures-bind,
  Ensures-at, Ensures-if, Ensures-fold_all,
}
use ot_sim.Float.{FloatOps}
use ot_sim.Modbus.Server.State.{uint16_at}
use ot_sim.Sunspec.Model.{ScaleFactor, nil, int, float64, string, unknown, SchemaPoint, Schema}
use ot_sim.Sunspec.Register.{
  Register, init, words, identifier_register, end_register, end_register_length,
}
use ot_sim.Sunspec.Register.Shape.{is_text}
use ot_sim.Sunspec.Server.{Server, read_holding_registers}
use ot_sim.Sunspec.Server.Reply.{PointReply, read_holding_registers-PointReply}
use ot_sim.Sunspec.Server.Configure.{
  Progress, is_string, scaled, fresh, initialized, make_register, add_register, add_points,
  set_register, model_id, found, well_known, add_setting, marked, add_settings, add_model,
  configure_child, closed, opened, configure, new,
}

module _ {F : Type 0} where
  -- The register has been through `Init`, and no tag was given to it if it holds text.
  abbrev pub IsPrepared : Register F → Type 0
  IsPrepared r = (words r.data_kind ≡ some r.count) × (is_text r.data_kind ≡ true → r.tag ≡ "")

  abbrev pub AllPrepared : List (Register F) → Type 0
  AllPrepared heap = (i : ℕ) (r : Register F) → get_elem? heap i ≡ some r → IsPrepared r

  AllPrepared-snoc :
      (heap : List (Register F)) (r : Register F)
      → AllPrepared heap
      → IsPrepared r
      → AllPrepared (heap ++ r ∷ [])
  AllPrepared-snoc heap r all one i q e = elim (get_elem-snoc heap r q i e) [
    | inl f ↦ all i q f
    | inr (_, f) ↦ subst IsPrepared f one
  ]

  AllPrepared-set :
      (heap : List (Register F)) (ptr : ℕ) (r : Register F)
      → AllPrepared heap
      → IsPrepared r
      → AllPrepared (set heap ptr r)
  AllPrepared-set heap ptr r all one i q e = elim (get_elem-set heap ptr i r q e) [
    | inl f ↦ subst IsPrepared f one
    | inr f ↦ all i q f
  ]

  set_register-IsPrepared :
      (bytes_of : String → List ℕ) (text : String) (r : Register F) (number : Option F)
      → IsPrepared r
      → IsPrepared (set_register bytes_of text r number)
  set_register-IsPrepared bytes_of text r (some v) (size, plain) =
      every_if IsPrepared (is_string r.data_kind) (size, plain) (size, plain)
  set_register-IsPrepared bytes_of text r none (size, plain) =
      elim (Bool-cases (is_string r.data_kind)) [
        | inl yes_string ↦ rw (yes_string, set_register) (size, plain)
        | inr numeric ↦ rw (numeric, set_register) (size, λ t. ground (arith, t, numeric))
      ]

module _ {F : Type 0} (fl : FloatOps F) where
  init-IsPrepared : (r r' : Register F) → r.tag ≡ "" → init fl r ≡ some r' → IsPrepared r'
  unfolding init
  init-IsPrepared r r' bare e = elim (Option-cases (words r.data_kind)) [
    | inl no_words ↦ ground arith
    | inr (n, has) ↦
        let is : record r { count = n; scaling = fl.abs r.scaling } ≡ r' =
          some-injective _ _ (sym (rw (has, init) refl) ∙ e) in
        subst IsPrepared is (has, λ _. bare)
  ]

  scaled-Ensures :
      (sf : ScaleFactor F) (r : Register F)
      → r.tag ≡ ""
      → Ensures (λ (q : Register F). q.tag ≡ "") (scaled fl sf r)
  scaled-Ensures nil r bare = succeeds bare
  scaled-Ensures (int n) r bare = succeeds bare
  scaled-Ensures (float64 v) r bare = succeeds bare
  scaled-Ensures (string s) r bare = succeeds bare
  scaled-Ensures unknown r bare = fails

  make_register-Ensures :
      (id : ℤ) (model : Schema F) (p : SchemaPoint F)
      → Ensures IsPrepared (make_register fl id model p)
  unfolding make_register
  make_register-Ensures id model p =
      Ensures-bind IsPrepared (scaled fl p.sf (fresh fl id model p)) _ (λ r e.
        let bare = Ensures-at r (scaled-Ensures p.sf (fresh fl id model p) refl) e in
        elim (Option-cases (init fl r)) [
          | inl stop ↦ rw (stop, initialized) fails
          | inr (q, go) ↦ rw (go, initialized) (succeeds (init-IsPrepared r q bare go))
        ])

  -- the three well-known registers
  well_known-IsPrepared :
      (IsPrepared (well_known fl (identifier_register fl)))
      × (IsPrepared (well_known fl (end_register fl)))
      × (IsPrepared (well_known fl (end_register_length fl)))
  unfolding init identifier_register end_register end_register_length
  well_known-IsPrepared = ((refl, λ _. refl), (refl, λ _. refl), (refl, λ _. refl))

module _ {F Raw : Type 0} where
  abbrev pub IsLaid : Progress F Raw → Type 0
  IsLaid now = AllPrepared now.server.heap

module _ {F Raw : Type 0} (fl : FloatOps F) where
  add_points-Ensures :
      (id : ℤ) (model ps : Schema F) (now : Progress F Raw)
      → IsLaid now
      → Ensures IsLaid (add_points fl id model ps now)
  unfolding add_points
  add_points-Ensures id model [] now laid = succeeds laid
  add_points-Ensures id model (p ∷ ps) now laid =
      elim (Configured-cases (make_register fl id model p)) [
        | inl (x, stop) ↦ rw (stop, add_points) fails
        | inr (r, go) ↦
            rw (go, add_points)
              (add_points-Ensures id model ps (add_register p r now) (
                AllPrepared-snoc now.server.heap r laid
                  (Ensures-at r (make_register-Ensures fl id model p) go)))
      ]

module _ {F Raw E : Type 0} (fl : FloatOps F) (xml : Xml E) (conv : Conversions F)
    (schema : ℤ → Option (Schema F)) (bytes_of : String → List ℕ) where
  abbrev HasPrepared : Server F Raw → Type 0
  HasPrepared s = AllPrepared s.heap

  add_setting-Ensures :
      (addr : ℕ) (child : E) (s : Server F Raw)
      → HasPrepared s
      → Ensures HasPrepared (add_setting fl xml conv schema bytes_of addr child s)
  unfolding add_setting
  add_setting-Ensures addr child s all = elim (Option-cases (lookup (xml.tag child) s.points)) [
    | inl stop ↦ rw (stop, add_setting) fails
    | inr (ptr, known) ↦ elim (Option-cases (get_elem? s.heap ptr)) [
      | inl stop ↦ rw (known, stop, add_setting) fails
      | inr (r, there) ↦
          rw (known, there, add_setting)
            (succeeds (
              AllPrepared-set s.heap ptr _ all (
                set_register-IsPrepared bytes_of (xml.text child) r
                  (conv.parse_float (xml.text child)) (all ptr r there))))
    ]
  ]

  marked-IsLaid :
      (id : ℤ) (now : Progress F Raw)
      → IsLaid now
      → IsLaid (marked fl xml conv schema bytes_of id now)
  marked-IsLaid id now laid = every_if IsLaid (id == pos 1) laid laid

  add_model-Ensures :
      (child : E) (now : Progress F Raw)
      → IsLaid now
      → Ensures IsLaid (add_model fl xml conv schema bytes_of child now)
  unfolding add_model
  add_model-Ensures child now laid =
      Ensures-bind IsLaid (model_id conv (xml.select_attr "id" child)) _ (λ id _.
        Ensures-bind IsLaid (found (schema id)) _ (λ model _.
          Ensures-bind IsLaid (add_points fl id model model now) _ (λ next points.
            let laid' = Ensures-at next (add_points-Ensures fl id model model now laid) points in
            Ensures-bind IsLaid (add_settings fl xml conv schema bytes_of child next) _
              (λ last settings. succeeds (
                marked-IsLaid id last (
                  Ensures-at last
                    (Ensures-bind IsLaid
                      (fold_all (add_setting fl xml conv schema bytes_of next.addr)
                        (xml.child_elements child) next.server)
                      _
                      (λ s set_all. succeeds (
                        Ensures-at s
                          (Ensures-fold_all HasPrepared
                            (add_setting fl xml conv schema bytes_of next.addr)
                            (add_setting-Ensures next.addr) (xml.child_elements child) next.server
                            laid')
                          set_all)))
                    settings))))))

  configure_child-Ensures :
      (child : E) (now : Progress F Raw)
      → IsLaid now
      → Ensures IsLaid (configure_child fl xml conv schema bytes_of child now)
  unfolding configure_child
  configure_child-Ensures child now laid =
      Ensures-if IsLaid (xml.tag child == "pull-endpoint") (succeeds laid) (
        Ensures-if IsLaid (xml.tag child == "pub-endpoint") (succeeds laid) (
          Ensures-if IsLaid (xml.tag child == "endpoint") (succeeds laid) (
            Ensures-if IsLaid (xml.tag child == "model") (add_model-Ensures child now laid)
              (succeeds laid))))

  closed-Ensures :
      (now : Progress F Raw)
      → IsLaid now
      → Ensures HasPrepared (closed fl xml conv schema bytes_of now)
  closed-Ensures now laid =
      let (_, last, length_of_last) = well_known-IsPrepared fl in
      Ensures-if HasPrepared now.model1
        (succeeds (AllPrepared-snoc _ _ (AllPrepared-snoc _ _ laid last) length_of_last)) fails

  configure-AllPrepared :
      (e : E) (name : String) (s : Server F Raw)
      → configure fl xml conv schema bytes_of e (new name) ≡ done s
      → AllPrepared s.heap
  unfolding configure new
  configure-AllPrepared e name s h =
      Ensures-at s
        (Ensures-bind HasPrepared
          (fold_all (configure_child fl xml conv schema bytes_of) (xml.child_elements e)
            (opened fl xml conv schema bytes_of (new name)))
          _
          (λ now laid. closed-Ensures now (
            Ensures-at now
              (Ensures-fold_all IsLaid (configure_child fl xml conv schema bytes_of)
                configure_child-Ensures (xml.child_elements e)
                (opened fl xml conv schema bytes_of (new name))
                (AllPrepared-snoc [] _ (λ i r none_there. cc) (well_known-IsPrepared fl).0))
              laid)))
        h

  ready_register :
      (s : Server F Raw) (r : Register F)
      → lookup "" s.tags ≡ none
      → IsPrepared r
      → (0 < r.count) × (is_text r.data_kind ≡ true → lookup r.tag s.tags ≡ none)
  ready_register s r free (size, plain) =
      (ground arith, λ text. subst (λ t. lookup t s.tags ≡ none) (sym (plain text)) free)

  -- A SunSpec server that `Configure` has made of a new one, with no setting that is empty where
  -- the point is a number, answers every read that carries a start and a count: with the data, at
  -- least two bytes for each register that was asked for, or with the exception for an illegal
  -- address or for a device failure.
  pub configure-PointReply :
      (e : E) (name : String) (s : Server F Raw) (request : List ℕ) (start count : ℕ)
      → configure fl xml conv schema bytes_of e (new name) ≡ done s
      → lookup "" s.tags ≡ none
      → uint16_at 0 request ≡ some start
      → uint16_at 2 request ≡ some count
      → PointReply fl s count (read_holding_registers fl s request)
  configure-PointReply e name s request start count made free e0 e1 =
      read_holding_registers-PointReply fl s request start count
        (λ i r at.
          let one = configure-AllPrepared e name s made i r at in
          let (some_words, plain) = ready_register s r free one in (one.0, some_words, plain))
        e0 e1
