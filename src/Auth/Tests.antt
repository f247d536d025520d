-- ===== src/Auth/Tests.antt =====
-- The properties of internal/auth/skkey.go at concrete key sets.
use ocu_mcp_gateway.Base.{
  ℕ, ◌+◌, ◌%◌, ◌≡◌, ◌↔◌, refl, inl, [], ◌∷◌, some, Str, codes, has_prefix, ok, err, arith, str_eq,
}
use ocu_mcp_gateway.Auth.{
  active, KeyRecord, StaticKeySet, unauthenticated, caller_of, hash_for_record, authenticate,
  resolve, matches, scan,
}
use ocu_mcp_gateway.Auth.Hex.{decode_string, encode_to_string, char_of}
use ocu_mcp_gateway.Auth.Resolve.{Vouches, Last, authenticate_iff}
use ocu_mcp_gateway.Auth.Minting.{minted-Vouches}

sum : Str → ℕ
sum [] = 0
sum (b ∷ s) = b + sum s

-- A digest of one byte.
abbrev checksum : Str → Str
checksum s = sum s % 256 ∷ []

abbrev secret : Str
secret = codes "sk-ocu-7"

abbrev minted : KeyRecord
minted = record {
  key_id = codes "k1";
  key_hash = codes "cb";
  salt = codes "0a0b";
  tenant = codes "t";
  deployment = codes "d";
  expires_at = 0;
  status = active;
}

abbrev keys : StaticKeySet
keys = record { records = minted ∷ []; deployment = codes "d" }

accepted : authenticate checksum (some keys) 5 secret ≡ ok (caller_of minted)
unfolding authenticate resolve matches scan sum codes decode_string has_prefix str_eq
accepted = refl

rejected : authenticate checksum (some keys) 5 (codes "sk-ocu-8") ≡ err unauthenticated
unfolding authenticate resolve matches scan sum codes decode_string has_prefix str_eq
rejected = refl

authenticate_iff_example : (authenticate checksum (some keys) 5 secret ≡ ok (caller_of minted)) ↔ (
    (s : StaticKeySet) × (some keys ≡ some s)
    × ((r : KeyRecord) × Last checksum s.deployment 5 secret s.records r
        × (caller_of r ≡ caller_of minted)))
authenticate_iff_example = authenticate_iff checksum (some keys) 5 secret (caller_of minted)

minted-Vouches_example : Vouches checksum (codes "d") 5 secret minted
unfolding hash_for_record sum codes decode_string encode_to_string char_of has_prefix
minted-Vouches_example =
    minted-Vouches checksum (λ s. (omega arith, tt)) minted 5 secret refl refl (inl refl)
