-- ===== src/Daemon.antt =====
-- cmd/ocu-mcp-gatewayd/main.go: the composition of the daemon. What it finds outside itself are the
-- fields of a `Host`: the files, the parsers and the schemas, whether the embedded constraint schema
-- compiles, and the network. An interval is a number of nanoseconds. Flags are given parsed.
pub mod Stages
pub mod Serving
pub mod Refresh
pub mod Fixtures
mod Tests
use ocu_mcp_gateway.Base.{
  trim_space, ℕ, ◌*◌, ◌^◌, Bool, true, false, not, ◌&&◌, ◌||◌, ◌==◌, List, [], ◌∷◌, ◌++◌, Option,
  none, some, if◌then◌else◌, Str, codes, is_empty, ℤ, pos, leb_ℤ, Result, ok, err, refuse_if, ◌>>=◌,
  ◌>>◌,
}
use ocu_mcp_gateway.Auth.{StaticKeySet}
use ocu_mcp_gateway.Audit.FileSink.{FileSink, Opened, OpenError, open_file_sink}
use ocu_mcp_gateway.Audit.BusSink.{BusSink, new_bus_sink}
use ocu_mcp_gateway.Authz.Policy.{Policy}
use ocu_mcp_gateway.Authz.Load
use ocu_mcp_gateway.Boot.{Sequencer, Loaded, new_sequencer, load, refresh}
use ocu_mcp_gateway.Boot
use ocu_mcp_gateway.Config.KeySet.{Source, FileKeySetLoader}
use ocu_mcp_gateway.Config.KeySet
use ocu_mcp_gateway.Config.Provisioning.{ProvisioningWire, load_provisioning_policy}
use ocu_mcp_gateway.Config.Provisioning
use ocu_mcp_gateway.Forward.Session.{ProvisioningPolicy}
use ocu_mcp_gateway.Forward.Dial.{
  Material, TlsConfig, DialConfig, DialError, FileServiceCredential, Built, load_mtls_config,
  new_file_service_credential, new_control_forwarder_with_dial,
}
use ocu_mcp_gateway.Ingress.Exchange.{new_origin_policy}
use ocu_mcp_gateway.Ingress.ResolveOnly.{
  ResolveOnlyPolicy, resolve_scope_tool_name, new_resolve_only_policy, compile_resolve_only,
}
use ocu_mcp_gateway.Ingress.Server.{ProbeError, health_check_probe}
use ocu_mcp_gateway.Options.{Options, minute, default_options}
use ocu_mcp_gateway.Quota.{Ceiling, new_ceiling}
use ocu_mcp_gateway.Serialize.{Serializer, new_serializer}

pub record Host : Type 1 where
  pub source : Source
  pub material : Material
  pub decode_provisioning : Str → Option ProvisioningWire
  pub validator_builds : Bool
  pub authz : Load.Decoding
  pub read_policy : Str → Option Str
  pub baseline : Str
  -- The names of the tools of tools_list.json.
  pub tool_names : List Str
  -- What the file that the audit sink opens holds.
  pub open_audit : Str → Option Opened
  pub listen : Str → Bool

pub data ServeError : Type 0 where
  no_boot_set no_deployment bad_interval no_credential_file no_provisioning partial_mtls :
      ServeError
  not_loaded no_validator unreadable_policy unopened_sink not_ready not_bound : ServeError
  dial_failed : DialError → ServeError
  provisioning_failed : Provisioning.LoadError → ServeError
  policy_failed : Load.Error → ServeError

-- The checks before any file is read.
unfoldable pub check_options : Options → Result ServeError (Unit {0})
check_options o = do
  refuse_if (is_empty o.boot_set_path) no_boot_set
  refuse_if (is_empty o.deployment) no_deployment
  refuse_if (leb_ℤ o.refresh_interval (pos 0) || leb_ℤ (pos (5 * minute)) o.refresh_interval)
      bad_interval
  refuse_if (is_empty o.service_credential_file) no_credential_file
  refuse_if (is_empty o.provisioning_policy) no_provisioning
  refuse_if
      (not (is_empty o.control_url)
        && (is_empty o.control_ca
            || is_empty o.control_client_cert
            || is_empty o.control_client_key))
      partial_mtls

abbrev pub of_loader : Result KeySet.LoadError StaticKeySet → Loaded
of_loader (ok keys) = ok (some keys)
of_loader (err e) = err tt

abbrev pub sequenced : Sequencer × Result Boot.Error (Unit {0}) → Result ServeError Sequencer
sequenced (s, ok u) = ok s
sequenced (s, err e) = err not_loaded

abbrev pub loader_of : Options → FileKeySetLoader
loader_of o = record { path = o.boot_set_path; deployment = o.deployment }

unfoldable pub load_boot_set : Host → Options → Result ServeError Sequencer
unfolding load
load_boot_set h o = sequenced (load (of_loader (KeySet.load h.source (loader_of o))) new_sequencer)

abbrev pub dialled {ℓ} : {A : Type ℓ} → Result DialError A → Result ServeError A
dialled (ok a) = ok a
dialled (err e) = err (dial_failed e)

abbrev pub provisioned :
    Result Provisioning.LoadError ProvisioningPolicy → Result ServeError ProvisioningPolicy
provisioned (ok p) = ok p
provisioned (err e) = err (provisioning_failed e)

abbrev pub tls_material : Host → Options → Result ServeError (Option TlsConfig)
tls_material h o =
    if is_empty o.control_url
    then ok none
    else (dialled
          (load_mtls_config h.material o.control_ca o.control_client_cert o.control_client_key)
        >>= λ t. ok (some t))

-- The forwarder, with the credential that it presents.
unfoldable pub build_forwarder : Host → Options → Result ServeError (FileServiceCredential × Built)
unfolding load_mtls_config new_file_service_credential load_provisioning_policy
    new_control_forwarder_with_dial
build_forwarder h o = do
  cred ← dialled (new_file_service_credential h.material o.service_credential_file o.identity)
  provisioning ←
      provisioned
        (load_provisioning_policy h.material.read_file h.decode_provisioning o.provisioning_policy)
  tls ← tls_material h o
  forwarder ← dialled (
      new_control_forwarder_with_dial o.identity (record { endpoint = o.control_url; tls = tls })
        (some cred) provisioning)
  ok (cred, forwarder)

abbrev pub policy_of : Result Load.Error Policy → Result ServeError Policy
policy_of (ok p) = ok p
policy_of (err e) = err (policy_failed e)

abbrev pub or_error {ℓ} : {A : Type ℓ} → ServeError → Option A → Result ServeError A
or_error e none = err e
or_error e (some a) = ok a

abbrev pub policy_text : Host → Options → Result ServeError Str
policy_text h o =
    if is_empty o.authz_policy_path
    then ok h.baseline
    else or_error unreadable_policy (h.read_policy o.authz_policy_path)

abbrev pub advertised_tool_names : Host → List Str
advertised_tool_names h = resolve_scope_tool_name ∷ h.tool_names

unfoldable pub load_policy : Host → Options → Result ServeError Policy
unfolding compile_resolve_only new_resolve_only_policy
load_policy h o = do
  text ← policy_text h o
  policy ← policy_of (Load.load h.authz text (advertised_tool_names h))
  ok (compile_resolve_only policy (new_resolve_only_policy o.resolve_only_key_ids))

pub data AuditSink : Type 0 where
  file : FileSink → AuditSink
  bus : BusSink → AuditSink

abbrev pub opened_sink : Result OpenError FileSink → Result ServeError AuditSink
opened_sink (err e) = err unopened_sink
opened_sink (ok sink) = ok (file sink)

unfoldable pub open_sink : Host → Options → Result ServeError AuditSink
unfolding open_file_sink
open_sink h o =
    if is_empty o.audit_sink
    then ok (bus (new_bus_sink o.audit_bus))
    else opened_sink (open_file_sink o.audit_sink (h.open_audit o.audit_sink))

-- The parts of the daemon, once its listener is bound.
pub record Daemon : Type 0 where
  pub sequencer : Sequencer
  pub credential : FileServiceCredential
  pub forwarder : Built
  pub ceiling : Ceiling
  pub origins : List Str
  pub policy : Policy
  pub sink : AuditSink
  pub serializer : Serializer
  pub address : Str
  pub interval : ℤ

-- Up to the bound listener.
unfoldable pub serve : Host → Options → Result ServeError Daemon
unfolding check_options load_boot_set build_forwarder load_policy open_sink new_origin_policy
    new_ceiling new_serializer
serve h o = do
  check_options o
  sequencer ← load_boot_set h o
  refuse_if (not h.validator_builds) no_validator
  built ← build_forwarder h o
  policy ← load_policy h o
  sink ← open_sink h o
  refuse_if (not sequencer.ready) not_ready
  refuse_if (not (h.listen o.listen_addr)) not_bound
  ok (record {
    sequencer = sequencer;
    credential = built.0;
    forwarder = built.1;
    ceiling = new_ceiling o.conn_ceiling;
    origins = new_origin_policy o.allowed_origins;
    policy = policy;
    sink = sink;
    serializer = new_serializer o.serialize_depth none;
    address = o.listen_addr;
    interval = o.refresh_interval;
  })

-- The refresh loop, for what the loader returns at each tick, the last tick first.
unfoldable pub run_refresh_loop : List Loaded → Sequencer → Sequencer
unfolding refresh
run_refresh_loop [] s = s
run_refresh_loop (l ∷ ls) s = (refresh l (run_refresh_loop ls s)).0

-- What a run of the daemon comes to.
pub data Ran : Type 0 where
  printed : Str → Ran
  probed : Result ProbeError (Unit {0}) → Ran
  served : Result ServeError Daemon → Ran

unfoldable pub run : Host → (Str → Option ℕ) → Options → Ran
unfolding serve health_check_probe
run h get o =
    if o.version
    then printed (codes "ocu-mcp-gatewayd: MCP revision 2025-06-18")
    else if o.health_check
    then probed (health_check_probe get o.listen_addr)
    else served (serve h o)
