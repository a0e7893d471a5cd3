-- ===== src/Mqtt/Configure/Valid.antt =====
-- What `Configure` of src/go/mqtt/mqtt.go makes of a new MQTT module.
use ot_sim.Common.{
  ◌≡◌, refl, true, false, ◌||◌, some, List, [], ◌∷◌, ◌==◌, string_eq, is_some, Bool-cases, inl, inr,
}
use ot_sim.Config.{
  Xml, Conversions, Configured-cases, done, fold_all, Ensures, succeeds, fails, Ensures-bind,
  Ensures-at, Ensures-if,
}
use ot_sim.Float.{FloatOps}
use ot_sim.Mqtt.{Host, Endpoint, MqttClient}
use ot_sim.Mqtt.Configure.{
  required, is_secure, with_roots, secured, with_uri, validate, validate_all, configure_child,
  checked, configure,
}

module _ {F U C R T : Type 0} (host : Host F U C R T) where
  -- The address has a scheme; for TLS there is a certificate, and a pool of authorities where a file
  -- of them is given.
  pub record IsValid (e : Endpoint U C R) : Type 0 where
    pub uri : U
    pub is_uri : e.uri ≡ some uri
    pub has_scheme : (host.scheme uri == "") ≡ false
    pub has_cert : is_secure host uri ≡ true → is_some e.cert ≡ true
    pub has_roots : is_secure host uri ≡ true → (e.ca_path == "") ≡ false → is_some e.roots ≡ true

  abbrev pub AllValid : List (Endpoint U C R) → Type 0
  AllValid [] = Unit
  AllValid (e ∷ es) = IsValid e × AllValid es

  with_roots-IsValid :
      (uri : U) (e : Endpoint U C R)
      → e.uri ≡ some uri
      → (host.scheme uri == "") ≡ false
      → is_some e.cert ≡ true
      → Ensures IsValid (with_roots host e)
  with_roots-IsValid uri e is named cert = elim (Bool-cases (e.ca_path == "")) [
    | inl no_file ↦
        rw (no_file, with_roots)
          (succeeds (record {
            uri = uri;
            is_uri = is;
            has_scheme = named;
            has_cert = λ _. cert;
            has_roots = λ _ file. cc;
          }))
    | inr file ↦
        rw (file, with_roots)
          (Ensures-bind IsValid (required _ (host.read_file e.ca_path)) _ (λ bytes _.
            Ensures-bind IsValid (required _ (host.append_certs bytes)) _ (λ roots _.
              succeeds (record {
                uri = uri;
                is_uri = is;
                has_scheme = named;
                has_cert = λ _. cert;
                has_roots = λ _ _. refl;
              }))))
  ]

  secured-IsValid :
      (uri : U) (e : Endpoint U C R)
      → e.uri ≡ some uri
      → (host.scheme uri == "") ≡ false
      → Ensures IsValid (secured host e)
  secured-IsValid uri e is named =
      Ensures-if IsValid (e.cert_path == "" || e.key_path == "") fails (
        Ensures-bind IsValid (required _ (host.load_key_pair e.cert_path e.key_path)) _
          (λ cert _. with_roots-IsValid uri (record e { cert = some cert }) is named refl))

  with_uri-IsValid : (uri : U) (e : Endpoint U C R) → Ensures IsValid (with_uri host uri e)
  with_uri-IsValid uri e = elim (Bool-cases (host.scheme uri == "")) [
    | inl empty ↦ rw (empty, with_uri) fails
    | inr named ↦ elim (Bool-cases (is_secure host uri)) [
      | inl tls ↦
          rw (named, tls, with_uri) (secured-IsValid uri (record e { uri = some uri }) refl named)
      | inr plain ↦
          rw (named, plain, with_uri)
            (succeeds (record {
              uri = uri;
              is_uri = refl;
              has_scheme = named;
              has_cert = λ tls. cc;
              has_roots = λ tls _. cc;
            }))
    ]
  ]

  validate-IsValid : (e : Endpoint U C R) → Ensures IsValid (validate host e)
  unfolding validate
  validate-IsValid e =
      Ensures-bind IsValid (required _ (host.parse_url e.url)) _ (λ uri _. with_uri-IsValid uri e)

  validate_all-AllValid : (es : List (Endpoint U C R)) → Ensures AllValid (validate_all host es)
  unfolding validate_all
  validate_all-AllValid [] = succeeds tt
  validate_all-AllValid (e ∷ es) = elim (Configured-cases (validate host e)) [
    | inl (x, stop) ↦ rw (stop, validate_all) fails
    | inr (e', go) ↦
        rw (go, validate_all)
          (Ensures-bind AllValid (validate_all host es) _ (λ es' rest. succeeds (
            Ensures-at e' (validate-IsValid e) go,
            Ensures-at es' (validate_all-AllValid es) rest,
          )))
  ]

module _ {F U C R T E : Type 0} (fl : FloatOps F) (host : Host F U C R T) (xml : Xml E)
    (conv : Conversions F) where
  -- Every MQTT module that `Configure` makes of another has a client id, and each of its endpoints
  -- is valid: its address has a scheme, and for TLS there is a certificate with its key, and a pool
  -- of authorities where a file of them is given.
  pub configure-AllValid :
      (e : E) (m n : MqttClient F U C R T)
      → configure fl host xml conv e m ≡ done n
      → ((n.id == "") ≡ false) × AllValid host n.endpoints
  unfolding configure
  configure-AllValid e m n h =
      let IsGood : MqttClient F U C R T → Type 0 =
        λ k. ((k.id == "") ≡ false) × AllValid host k.endpoints in
      Ensures-at n
        (Ensures-bind IsGood (fold_all (configure_child fl host xml conv) (xml.child_elements e) m)
          _
          (λ k _. elim (Bool-cases (k.id == "")) [
            | inl missing ↦ rw (missing, checked) fails
            | inr given ↦
                rw (given, checked)
                  (Ensures-bind IsGood (validate_all host k.endpoints) _ (λ es valid.
                    succeeds (given, Ensures-at es (validate_all-AllValid host k.endpoints) valid)))
          ]))
        h
