-- ===== src/Auth/Minting.antt =====
-- internal/auth/skkey.go, HashForRecord: a hash that it makes is one that Resolve accepts.
use ocu_mcp_gateway.Base.{
  ℕ, ◌≡◌, ◌<◌, ◌⊎◌, ◌≤◌, inl, inr, refl, ◌++◌, arith, Str, All, ok, Option-cases,
}
use ocu_mcp_gateway.Auth.{active, KeyRecord, hash_for_record}
use ocu_mcp_gateway.Auth.Hex.{decode_string, encode_to_string, decode_string-encode_to_string}
use ocu_mcp_gateway.Auth.Resolve.{Vouches}

module _ (sha256 : Str → Str) (bytes : (s : Str) → All (λ b. b < 256) (sha256 s)) where
  -- Where SHA-256 returns bytes: a record whose hash was made of a secret and the record's salt,
  -- that is active, unexpired and of the gateway's deployment, vouches for that secret.
  pub minted-Vouches :
      (r : KeyRecord) (now : ℕ) (secret : Str)
      → hash_for_record sha256 r.salt secret ≡ ok r.key_hash
      → r.status ≡ active
      → (r.expires_at ≡ 0) ⊎ (now ≤ r.expires_at)
      → Vouches sha256 r.deployment now secret r
  unfolding hash_for_record
  minted-Vouches r now secret e live unexpired = elim (Option-cases (decode_string r.salt)) [
    | inl bad ↦ absurd (ground (arith, bad))
    | inr (salt, s) ↦
        let same : encode_to_string (sha256 (salt ++ secret)) ≡ r.key_hash = ground (arith, s) in
        record {
          is_live = live;
          unexpired = unexpired;
          scoped = refl;
          salt = salt;
          salt_decoded = s;
          hash_decoded =
              rw (← same)
                (decode_string-encode_to_string (sha256 (salt ++ secret)) (bytes (salt ++ secret)));
          prefixed = ground arith;
        }
  ]
