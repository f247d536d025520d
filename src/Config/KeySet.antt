-- ===== src/Config/KeySet.antt =====
-- internal/config/loader.go: the key set of a file. The file system, the schema, the JSON decoder
-- and the parser of times are the fields of a `Source`.
pub mod Homogeneity
use ocu_mcp_gateway.Base.{
  ℕ, ◌==◌, Bool, not, List, [], ◌∷◌, Option, none, some, if◌then◌else◌, Str, codes, str_eq,
  is_empty, Result, ok, err, refuse_if, ◌>>=◌, ◌>>◌,
}
use ocu_mcp_gateway.Auth.{KeyStatus, active, unknown, KeyRecord, StaticKeySet}

pub record KeyRecordWire : Type 0 where
  pub key_id : Str
  pub key_hash : Str
  pub salt : Str
  pub tenant : Str
  pub deployment : Str
  pub status : Str
  pub expires_at : Str
  pub created_at : Str

pub record BootSetWire : Type 0 where
  pub version : ℕ
  pub records : List KeyRecordWire

pub record Source : Type 0 where
  pub read_file : Str → Option Str
  pub validate : Str → Bool
  pub parse : Str → Option BootSetWire
  pub parse_time : Str → Option ℕ

pub record FileKeySetLoader : Type 0 where
  pub path : Str
  pub deployment : Str

pub data LoadError : Type 0 where
  no_deployment unreadable schema_violated unparsable bad_version no_records foreign_deployment
        bad_expiry :
      LoadError

abbrev pub or_error {ℓ} : {A : Type ℓ} → LoadError → Option A → Result LoadError A
or_error e none = err e
or_error e (some a) = ok a

abbrev pub status_of : Str → KeyStatus
status_of s = if str_eq s (codes "active") then active else unknown

-- The zero time where there is no expiry.
abbrev pub expiry_of : (Str → Option ℕ) → Str → Result LoadError ℕ
expiry_of parse_time [] = ok 0
expiry_of parse_time (c ∷ s) = or_error bad_expiry (parse_time (c ∷ s))

unfoldable pub to_record : (Str → Option ℕ) → KeyRecordWire → Result LoadError KeyRecord
to_record parse_time k = do
  expires_at ← expiry_of parse_time k.expires_at
  ok (record {
    key_id = k.key_id;
    key_hash = k.key_hash;
    salt = k.salt;
    tenant = k.tenant;
    deployment = k.deployment;
    expires_at = expires_at;
    status = status_of k.status;
  })

-- The loop over the records of the file.
unfoldable pub to_records :
    (Str → Option ℕ) → Str → List KeyRecordWire → Result LoadError (List KeyRecord)
unfolding to_record
to_records parse_time deployment [] = ok []
to_records parse_time deployment (k ∷ ks) = do
  refuse_if (not (str_eq k.deployment deployment)) foreign_deployment
  r ← to_record parse_time k
  rs ← to_records parse_time deployment ks
  ok (r ∷ rs)

unfoldable pub load : Source → FileKeySetLoader → Result LoadError StaticKeySet
unfolding to_records
load source l = do
  refuse_if (is_empty l.deployment) no_deployment
  raw ← or_error unreadable (source.read_file l.path)
  refuse_if (not (source.validate raw)) schema_violated
  env ← or_error unparsable (source.parse raw)
  refuse_if (not (env.version == 1)) bad_version
  refuse_if (is_empty env.records) no_records
  records ← to_records source.parse_time l.deployment env.records
  ok (record { records = records; deployment = l.deployment })
