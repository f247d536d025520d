-- ===== src/Forward/Dial.antt =====
-- internal/forward/dial.go, credential.go and NewControlForwarderWithDial of http.go: the material
-- that the forwarder is built from. The file system and the parsers of PEM are the fields of a
-- `Material`. A TLS configuration is its minimal version and whether it has a pool of roots and a
-- client certificate.
pub mod Construction
pub mod Configured
mod Tests
use ocu_mcp_gateway.Base.{
  trim_space, ℕ, Bool, true, false, not, ◌||◌, ltb, List, [], ◌∷◌, Option, none, some, is_some,
  if◌then◌else◌, Str, codes, is_empty, Result, ok, err, refuse_if, ◌>>=◌, ◌>>◌,
}
use ocu_mcp_gateway.Forward.Session.{
  ProvisioningPolicy, Inadmissible, build_create_request, validate,
}
use ocu_mcp_gateway.Forward.Calls.{ControlForwarder}

-- tls.VersionTLS13 is 0x0304.
abbrev pub version_tls13 : ℕ
version_tls13 = 0x0304

pub record TlsConfig : Type 0 where
  pub min_version : ℕ
  pub has_roots : Bool
  pub has_certificate : Bool

unfoldable pub min_tls13 : TlsConfig → TlsConfig
min_tls13 base =
    if ltb base.min_version version_tls13 then record base { min_version = version_tls13 } else base

pub data DialError : Type 0 where
  partial_material unreadable_ca no_certificate bad_pair : DialError
  no_endpoint no_tls : DialError
  no_identity no_credential : DialError
  inadmissible : Inadmissible → DialError
  no_path no_principal unreadable_token empty_token : DialError

pub record Material : Type 0 where
  pub read_file : Str → Option Str
  pub has_pem : Str → Bool
  pub load_pair : Str → Str → Bool

abbrev pub or_error {ℓ} : {A : Type ℓ} → DialError → Option A → Result DialError A
or_error e none = err e
or_error e (some a) = ok a

unfoldable pub load_mtls_config : Material → Str → Str → Str → Result DialError TlsConfig
load_mtls_config m ca cert key = do
  refuse_if (is_empty ca || is_empty cert || is_empty key) partial_material
  pem ← or_error unreadable_ca (m.read_file ca)
  refuse_if (not (m.has_pem pem)) no_certificate
  refuse_if (not (m.load_pair cert key)) bad_pair
  ok (record { min_version = version_tls13; has_roots = true; has_certificate = true })

pub record DialConfig : Type 0 where
  pub endpoint : Str
  pub tls : Option TlsConfig

abbrev pub hardened : Option TlsConfig → Result DialError TlsConfig
hardened none = err no_tls
hardened (some base) = ok (min_tls13 base)

unfoldable pub harden_dial_config : DialConfig → Result DialError TlsConfig
unfolding min_tls13
harden_dial_config dc = do refuse_if (is_empty dc.endpoint) no_endpoint; hardened dc.tls

pub record FileServiceCredential : Type 0 where
  pub path : Str
  pub principal : Str

abbrev pub token_of : Str → Result DialError Str
token_of raw = if is_empty (trim_space raw) then err empty_token else ok (trim_space raw)

-- The token is read from the file at every use.
unfoldable pub read_token : Material → FileServiceCredential → Result DialError Str
unfolding trim_space
read_token m c = do raw ← or_error unreadable_token (m.read_file c.path); token_of raw

unfoldable pub new_file_service_credential :
    Material → Str → Str → Result DialError FileServiceCredential
unfolding read_token
new_file_service_credential m path principal = do
  refuse_if (is_empty path) no_path
  refuse_if (is_empty principal) no_principal
  token ← read_token m (record { path = path; principal = principal })
  ok (record { path = path; principal = principal })

-- The forwarder, its name and its hardened transport, which is nil without an endpoint.
pub record Built : Type 0 where
  pub identity : Str
  pub forwarder : ControlForwarder
  pub tls : Option TlsConfig

abbrev pub transport_of : DialConfig → Result DialError (Option TlsConfig)
transport_of dial =
    if is_empty dial.endpoint then ok none else (harden_dial_config dial >>= λ t. ok (some t))

abbrev pub admission : Result Inadmissible (Unit {0}) → Result DialError (Unit {0})
admission (ok u) = ok u
admission (err e) = err (inadmissible e)

abbrev pub probe : Str
probe = codes "probe"

unfoldable pub new_control_forwarder_with_dial :
    Str → DialConfig → Option FileServiceCredential → ProvisioningPolicy → Result DialError Built
unfolding harden_dial_config
new_control_forwarder_with_dial identity dial cred provisioning = do
  refuse_if (is_empty identity) no_identity
  refuse_if (not (is_some cred)) no_credential
  admission (validate (build_create_request provisioning probe))
  tls ← transport_of dial
  ok (record {
    identity = identity;
    forwarder = record {
      endpoint = dial.endpoint;
      has_tls = is_some tls;
      provisioning = provisioning;
    };
    tls = tls;
  })
