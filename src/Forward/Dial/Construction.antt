-- ===== src/Forward/Dial/Construction.antt =====
-- internal/forward: what a forwarder that was built can and cannot fail with.
use ocu_mcp_gateway.Base.{
  trim_space, ◌≤◌, ◌≡◌, ◌≢◌, ◌⊎◌, inl, inr, refl, sym, ap, ◌∙◌, subst, true, false, not, [], ◌∷◌,
  Option, none, some, is_some, Str, is_empty, arith, Bool-cases, Option-cases, Result, ok, err,
  bind_ok, refuse_if, refuse_if_ok, eq_of_ok,
}
use ocu_mcp_gateway.Forward.Session.{
  ProvisioningPolicy, Inadmissible, build_create_request, validate,
}
use ocu_mcp_gateway.Forward.Dial.{
  admission, Material, new_file_service_credential, read_token, token_of, or_error,
  unreadable_token, no_path, no_principal, no_identity, no_credential, TlsConfig, DialConfig,
  FileServiceCredential, Built, min_tls13, harden_dial_config, transport_of,
  new_control_forwarder_with_dial, probe, version_tls13,
}

-- The admission checks do not read the hint.
validate_hint :
    (p : ProvisioningPolicy) (h k : Str)
    → validate (build_create_request p h) ≡ validate (build_create_request p k)
unfolding validate
validate_hint p h k = refl

min_tls13_floor : (t : TlsConfig) → version_tls13 ≤ (min_tls13 t).min_version
unfolding min_tls13
min_tls13_floor t = ground arith

-- A forwarder that was built is valid: its policy passes the admission checks whatever the hint, and
-- it has a transport of TLS 1.3 or later exactly if it has an endpoint.
pub record IsBuilt (b : Built) : Type 0 where
  pub named : b.identity ≢ []
  pub admitted :
      (hint : Str) → validate (build_create_request b.forwarder.provisioning hint) ≡ ok tt
  pub secured :
      ((b.forwarder.endpoint ≡ []) × (b.tls ≡ none) × (b.forwarder.has_tls ≡ false))
      ⊎ ((b.forwarder.endpoint ≢ [])
          × (b.forwarder.has_tls ≡ true)
          × ((t : TlsConfig) × (b.tls ≡ some t) × (version_tls13 ≤ t.min_version)))

is_empty-nil : (s : Str) → is_empty s ≡ true → s ≡ []
is_empty-nil [] e = refl
is_empty-nil (c ∷ s) e = absurd (cc)

transport_secured :
    (d : DialConfig) (o : Option TlsConfig)
    → transport_of d ≡ ok o
    → ((d.endpoint ≡ []) × (o ≡ none) × (is_some o ≡ false))
      ⊎ ((d.endpoint ≢ [])
          × (is_some o ≡ true)
          × ((t : TlsConfig) × (o ≡ some t) × (version_tls13 ≤ t.min_version)))
unfolding harden_dial_config
transport_secured d o e = elim (Bool-cases (is_empty d.endpoint)) [
  | inl bare ↦ inl (is_empty-nil d.endpoint bare, ground (arith, bare), ground (arith, bare))
  | inr named ↦ elim (Option-cases d.tls) [
    | inl plain ↦ absurd (ground (arith, named, plain))
    | inr (base, given) ↦ inr (
      (λ bad. absurd (ground (arith, bad, named))),
      ground (arith, named, given),
      (min_tls13 base, ground (arith, named, given), min_tls13_floor base),
    )
  ]
]

construction_secured :
    (name : Str) (d : DialConfig) (p : ProvisioningPolicy) (o : Option TlsConfig) (b : Built)
    → name ≢ []
    → validate (build_create_request p probe) ≡ ok tt
    → transport_of d ≡ ok o
    → record {
      identity = name;
      forwarder = record { endpoint = d.endpoint; has_tls = is_some o; provisioning = p };
      tls = o;
    }
      ≡ b
    → IsBuilt b
construction_secured name d p o b n v t e = subst IsBuilt e (record {
  named = n;
  admitted = λ hint. validate_hint p hint probe ∙ v;
  secured = transport_secured d o t;
})

admission_ok : (r : Result Inadmissible (Unit {0})) {u : Unit} → admission r ≡ ok u → r ≡ ok tt
admission_ok (ok tt) h = refl
admission_ok (err e) h = absurd (cc)

-- A forwarder that `new_control_forwarder_with_dial` returns, for any name, dial configuration,
-- credential and provisioning policy, has a name, its policy passes the admission checks whatever
-- the hint, and it has a transport, of TLS 1.3 or later, exactly if it has an endpoint.
pub construction-IsBuilt :
    (name : Str) (d : DialConfig) (cred : Option FileServiceCredential) (p : ProvisioningPolicy)
    (b : Built)
    → new_control_forwarder_with_dial name d cred p ≡ ok b
    → IsBuilt b
unfolding new_control_forwarder_with_dial harden_dial_config
construction-IsBuilt name d cred p b h =
    let (u, named, h1) = bind_ok (refuse_if (is_empty name) no_identity) h in
    let (v, held, h2) = bind_ok (refuse_if (not (is_some cred)) no_credential) h1 in
    let (w, passed, h3) = bind_ok (admission (validate (build_create_request p probe))) h2 in
    let (o, dialled, h4) = bind_ok (transport_of d) h3 in
    construction_secured name d p o b
      (λ bare. absurd (ground (arith, bare, refuse_if_ok (is_empty name) no_identity named)))
      (admission_ok (validate (build_create_request p probe)) passed) dialled (eq_of_ok refl h4)

pub construction-endpoint :
    (name : Str) (d : DialConfig) (cred : Option FileServiceCredential) (p : ProvisioningPolicy)
    (b : Built)
    → new_control_forwarder_with_dial name d cred p ≡ ok b
    → b.forwarder.endpoint ≡ d.endpoint
unfolding new_control_forwarder_with_dial harden_dial_config
construction-endpoint name d cred p b h =
    let (u, named, h1) = bind_ok (refuse_if (is_empty name) no_identity) h in
    let (v, held, h2) = bind_ok (refuse_if (not (is_some cred)) no_credential) h1 in
    let (w, passed, h3) = bind_ok (admission (validate (build_create_request p probe))) h2 in
    let (o, dialled, h4) = bind_ok (transport_of d) h3 in
    ap (λ x. x.forwarder.endpoint) (sym (eq_of_ok refl h4))

token_of-nonempty : (raw token : Str) → token_of raw ≡ ok token → token ≢ []
token_of-nonempty raw token h = elim (Bool-cases (is_empty (trim_space raw))) [
  | inl blank ↦ absurd (ground (arith, blank))
  | inr full ↦ λ bare. absurd (ground (arith, full, bare))
]

-- The token of a credential that was built could be read, and is not empty.
pub credential-IsReadable :
    (m : Material) (path principal : Str) (c : FileServiceCredential)
    → new_file_service_credential m path principal ≡ ok c
    → (c ≡ record { path = path; principal = principal })
      × ((token : Str) × (read_token m c ≡ ok token) × (token ≢ []))
unfolding new_file_service_credential read_token
credential-IsReadable m path principal c h =
    let (u, at', h1) = bind_ok (refuse_if (is_empty path) no_path) h in
    let (v, of', h2) = bind_ok (refuse_if (is_empty principal) no_principal) h1 in
    let made : FileServiceCredential = record { path = path; principal = principal } in
    let (token, read, h3) = bind_ok (read_token m made) h2 in
    let (raw, found, h4) = bind_ok (or_error unreadable_token (m.read_file path)) read in
    let same : made ≡ c = eq_of_ok refl h3 in
    (
      sym same,
      (token, subst (λ x. read_token m x ≡ ok token) same read, token_of-nonempty raw token h4),
    )
