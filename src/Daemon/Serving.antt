-- ===== src/Daemon/Serving.antt =====
-- cmd/ocu-mcp-gatewayd/main.go: what holds once the listener is bound.
use ocu_mcp_gateway.Base.{
  ℕ, ◌*◌, ◌≤◌, ◌<◌, ◌≡◌, ◌≢◌, refl, sym, ap, ◌∙◌, subst, true, false, ◌||◌, [], some, Str, is_empty,
  ℤ, pos, negsuc, leb_ℤ, arith, Result-cases, Result, ok, err, bind_ok, refuse_if, refuse_if_ok,
  eq_of_ok, inl, inr,
}
use ocu_mcp_gateway.Auth.{StaticKeySet}
use ocu_mcp_gateway.Authz.Policy.{Policy}
use ocu_mcp_gateway.Authz.Load
use ocu_mcp_gateway.Authz.Load.Checks.{IsSound, load_iff}
use ocu_mcp_gateway.Boot.{Sequencer, key_set, load, new_sequencer}
use ocu_mcp_gateway.Config.KeySet
use ocu_mcp_gateway.Config.KeySet.Homogeneity.{IsLoaded, load-IsLoaded}
use ocu_mcp_gateway.Config.Provisioning.{load_provisioning_policy}
use ocu_mcp_gateway.Forward.Dial.{
  DialConfig, DialError, FileServiceCredential, Built, read_token, new_file_service_credential,
  new_control_forwarder_with_dial,
}
use ocu_mcp_gateway.Forward.Dial.Construction.{
  IsBuilt, construction-IsBuilt, construction-endpoint, credential-IsReadable,
}
use ocu_mcp_gateway.Ingress.ResolveOnly.{new_resolve_only_policy}
use ocu_mcp_gateway.Ingress.ResolveOnly.Confinement.{compile_resolve_only-IsSound}
use ocu_mcp_gateway.Daemon.Stages.{serve-Stages}
use ocu_mcp_gateway.Daemon.{
  Host, Daemon, check_options, load_boot_set, loader_of, of_loader, sequenced, dialled, provisioned,
  tls_material, build_forwarder, policy_text, policy_of, advertised_tool_names, load_policy, serve,
  no_boot_set, no_deployment, bad_interval,
}
use ocu_mcp_gateway.Options.{Options, minute}

-- Interval, key set, forwarder, credential and policy of a daemon whose listener is bound.
pub record IsServing (h : Host) (o : Options) (d : Daemon) : Type 0 where
  pub bound : h.listen o.listen_addr ≡ true
  pub interval : (n : ℕ) × (d.interval ≡ pos n) × (1 ≤ n) × (n < 5 * minute)
  pub keys : StaticKeySet
  pub loaded : IsLoaded h.source (loader_of o) keys
  pub live : key_set d.sequencer ≡ ok keys
  pub forwarder : IsBuilt d.forwarder
  pub endpoint : d.forwarder.forwarder.endpoint ≡ o.control_url
  pub credential : (token : Str) × (read_token h.material d.credential ≡ ok token) × (token ≢ [])
  pub policy : IsSound d.policy (advertised_tool_names h)

interval-bounds :
    (i : ℤ)
    → leb_ℤ i (pos 0) || leb_ℤ (pos (5 * minute)) i ≡ false
    → (n : ℕ) × (i ≡ pos n) × (1 ≤ n) × (n < 5 * minute)
interval-bounds (pos n) e = (n, refl, ground arith, ground arith)
interval-bounds (negsuc n) e = absurd (cc)

checked_interval :
    (o : Options)
    → check_options o ≡ ok tt
    → leb_ℤ o.refresh_interval (pos 0) || leb_ℤ (pos (5 * minute)) o.refresh_interval ≡ false
unfolding check_options
checked_interval o h =
    let (u, boot, h1) = bind_ok (refuse_if (is_empty o.boot_set_path) no_boot_set) h in
    let (v, deployment, h2) = bind_ok (refuse_if (is_empty o.deployment) no_deployment) h1 in
    let (w, interval, h3) =
      bind_ok
        (refuse_if (leb_ℤ o.refresh_interval (pos 0) || leb_ℤ (pos (5 * minute)) o.refresh_interval)
          bad_interval)
        h2 in
    refuse_if_ok (leb_ℤ o.refresh_interval (pos 0) || leb_ℤ (pos (5 * minute)) o.refresh_interval)
      bad_interval interval

sequenced_live :
    (keys : StaticKeySet) (s : Sequencer)
    → sequenced (load (ok (some keys)) new_sequencer) ≡ ok s
    → key_set s ≡ ok keys
unfolding load key_set
sequenced_live keys s e = subst (λ t. key_set t ≡ ok keys) (eq_of_ok refl e) refl

boot_set_loaded :
    (h : Host) (o : Options) (s : Sequencer)
    → load_boot_set h o ≡ ok s
    → (keys : StaticKeySet) × (KeySet.load h.source (loader_of o) ≡ ok keys) × (key_set s ≡ ok keys)
unfolding load_boot_set load key_set
boot_set_loaded h o s e = elim (Result-cases (KeySet.load h.source (loader_of o))) [
  | inl (keys, loaded) ↦ (
    keys,
    loaded,
    sequenced_live keys s (ap (λ r. sequenced (load (of_loader r) new_sequencer)) (sym loaded) ∙ e),
  )
  | inr (bad, failed) ↦ absurd (ground (arith, failed))
]

dialled_ok {ℓ} : {A : Type ℓ} (r : Result DialError A) {a : A} → dialled r ≡ ok a → r ≡ ok a
dialled_ok (ok a) h = ap ok (eq_of_ok refl h)
dialled_ok (err e) h = absurd (cc)

policy_of_ok : (r : Result Load.Error Policy) {p : Policy} → policy_of r ≡ ok p → r ≡ ok p
policy_of_ok (ok p) h = ap ok (eq_of_ok refl h)
policy_of_ok (err e) h = absurd (cc)

forwarder_built :
    (h : Host) (o : Options) (c : FileServiceCredential) (b : Built)
    → build_forwarder h o ≡ ok (c, b)
    → IsBuilt b
      × (b.forwarder.endpoint ≡ o.control_url)
      × ((token : Str) × (read_token h.material c ≡ ok token) × (token ≢ []))
unfolding build_forwarder
forwarder_built h o c b e =
    let credential = new_file_service_credential h.material o.service_credential_file o.identity in
    let (cred, held, e1) = bind_ok (dialled credential) e in
    let (p, given, e2) =
      bind_ok
        (provisioned (
          load_provisioning_policy h.material.read_file h.decode_provisioning
            o.provisioning_policy))
        e1 in
    let (tls, dialled_with, e3) = bind_ok (tls_material h o) e2 in
    let dial : DialConfig = record { endpoint = o.control_url; tls = tls } in
    let (forwarder, built, e4) =
      bind_ok (dialled (new_control_forwarder_with_dial o.identity dial (some cred) p)) e3 in
    let same : (cred, forwarder) ≡ (c, b) = eq_of_ok refl e4 in
    subst
      (λ x.
        IsBuilt x.1
        × (x.1.forwarder.endpoint ≡ o.control_url)
        × ((token : Str) × (read_token h.material x.0 ≡ ok token) × (token ≢ [])))
      same
      (
        construction-IsBuilt o.identity dial (some cred) p forwarder (dialled_ok _ built),
        construction-endpoint o.identity dial (some cred) p forwarder (dialled_ok _ built),
        (credential-IsReadable h.material o.service_credential_file o.identity cred
            (dialled_ok _ held)).1,
      )

policy_loaded :
    (h : Host) (o : Options) (p : Policy)
    → load_policy h o ≡ ok p
    → IsSound p (advertised_tool_names h)
unfolding load_policy
policy_loaded h o p e =
    let (text, read, e1) = bind_ok (policy_text h o) e in
    let (q, parsed, e2) =
      bind_ok (policy_of (Load.load h.authz text (advertised_tool_names h))) e1 in
    let sound = ((load_iff h.authz text (advertised_tool_names h) q).0 (policy_of_ok _ parsed)).4 in
    subst (λ r. IsSound r (advertised_tool_names h)) (eq_of_ok refl e2)
      (compile_resolve_only-IsSound q (new_resolve_only_policy o.resolve_only_key_ids)
        (advertised_tool_names h) (inl refl) sound)

-- If the daemon comes to a bound listener, its refresh interval is positive and shorter than five
-- minutes; its key set is live, and is what the loader made of the boot-set file for the configured
-- deployment; its forwarder was built as `IsBuilt` says, for the configured endpoint; its credential
-- could be read; and its policy names only advertised tools and declared profiles.
pub serve-IsServing : (h : Host) (o : Options) (d : Daemon) → serve h o ≡ ok d → IsServing h o d
serve-IsServing h o d e =
    let s = serve-Stages h o d e in
    let (keys, set, live) = boot_set_loaded h o d.sequencer s.booted in
    let (valid, endpoint, token) = forwarder_built h o d.credential d.forwarder s.forwarder in
    let (n, given, positive, prompt) =
      interval-bounds o.refresh_interval (checked_interval o s.options) in
    record {
      bound = s.listening;
      interval = (n, s.interval ∙ given, positive, prompt);
      keys = keys;
      loaded = load-IsLoaded h.source (loader_of o) keys set;
      live = live;
      forwarder = valid;
      endpoint = endpoint;
      credential = token;
      policy = policy_loaded h o d.policy s.policy;
    }
