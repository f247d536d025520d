-- ===== src/Auth.antt =====
-- internal/auth/skkey.go: the static key set and the authenticator over it. SHA-256 is a
-- parameter; an instant is a number, 0 for the zero time; two byte strings of constant-time
-- comparison are equal or not.
pub mod Hex
pub mod Resolve
pub mod Minting
mod Tests
use ocu_mcp_gateway.Base.{
  ℕ, Bool, true, false, not, ◌&&◌, ◌||◌, ◌==◌, ltb, List, [], ◌∷◌, ◌++◌, Option, none, some,
  if◌then◌else◌, Str, codes, str_eq, has_prefix, is_empty, Result, ok, err, refuse_if, ◌>>=◌, ◌>>◌,
}
use Hex.{decode_string, encode_to_string}

abbrev pub key_prefix : Str
key_prefix = codes "sk-ocu-"

pub data KeyStatus : Type 0 where
  unknown active revoked : KeyStatus

pub record KeyRecord : Type 0 where
  pub key_id : Str
  pub key_hash : Str
  pub salt : Str
  pub tenant : Str
  pub deployment : Str
  pub expires_at : ℕ
  pub status : KeyStatus

pub record Caller : Type 0 where
  pub key_id : Str
  pub tenant : Str
  pub deployment : Str

pub record StaticKeySet : Type 0 where
  pub records : List KeyRecord
  pub deployment : Str

-- ErrUnauthenticated, and the errors of HashForRecord.
pub data Error : Type 0 where
  unauthenticated no_key_prefix salt_not_hex : Error

abbrev pub is_active : KeyStatus → Bool
is_active active = true
is_active _ = false

-- `!rec.ExpiresAt.IsZero() && now.After(rec.ExpiresAt)`.
abbrev pub is_expired : ℕ → ℕ → Bool
is_expired now expires_at = not (expires_at == 0) && ltb expires_at now

abbrev pub caller_of : KeyRecord → Caller
caller_of r = record { key_id = r.key_id; tenant = r.tenant; deployment = r.deployment }

abbrev pub found : Option KeyRecord → Result Error Caller
found none = err unauthenticated
found (some r) = ok (caller_of r)

module _ (sha256 : Str → Str) where
  abbrev pub salted : Str → Option Str → Option Str
  salted bearer none = none
  salted bearer (some salt) = some (sha256 (salt ++ bearer))

  unfoldable pub hash_bearer : Str → Str → Option Str
  hash_bearer salt_hex bearer = salted bearer (decode_string salt_hex)

  -- `ConstantTimeCompare(want, got)`, where both could be decoded.
  abbrev pub agree : Option Str → Option Str → Bool
  agree none got = false
  agree (some want) none = false
  agree (some want) (some got) = str_eq want got

  -- Whether the loop comes to `matched = rec` for a record.
  unfoldable pub matches : Str → ℕ → Str → KeyRecord → Bool
  unfolding hash_bearer
  matches deployment now bearer r =
      is_active r.status
      && not (is_expired now r.expires_at)
      && str_eq r.deployment deployment
      && agree (decode_string r.key_hash) (hash_bearer r.salt bearer)
      && has_prefix bearer key_prefix

  -- The loop over the records, which does not stop at a match.
  unfoldable pub scan : Str → ℕ → Str → Option KeyRecord → List KeyRecord → Option KeyRecord
  scan deployment now bearer matched [] = matched
  scan deployment now bearer matched (r ∷ rs) =
      scan deployment now bearer (if matches deployment now bearer r then some r else matched) rs

  unfoldable pub resolve : StaticKeySet → ℕ → Str → Result Error Caller
  unfolding scan
  resolve s now bearer = found (scan s.deployment now bearer none s.records)

  abbrev pub encoded : Option Str → Result Error Str
  encoded none = err salt_not_hex
  encoded (some digest) = ok (encode_to_string digest)

  unfoldable pub hash_for_record : Str → Str → Result Error Str
  unfolding hash_bearer
  hash_for_record salt_hex secret =
      if not (has_prefix secret key_prefix)
      then err no_key_prefix
      else encoded (hash_bearer salt_hex secret)

  abbrev pub resolve_in : Option StaticKeySet → ℕ → Str → Result Error Caller
  resolve_in none now bearer = err unauthenticated
  resolve_in (some s) now bearer = resolve s now bearer

  -- The authenticator over the key set that its provider returns now.
  unfoldable pub authenticate : Option StaticKeySet → ℕ → Str → Result Error Caller
  authenticate keys now bearer =
      if is_empty bearer then err unauthenticated else resolve_in keys now bearer
