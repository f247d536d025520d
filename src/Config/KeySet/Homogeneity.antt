-- ===== src/Config/KeySet/Homogeneity.antt =====
-- internal/config/loader.go: what a key set that loads is.
use ocu_mcp_gateway.Base.{
  ℕ, ◌≡◌, ◌≢◌, inl, inr, sym, ap, subst, true, List, [], ◌∷◌, Option, some, Str, str_eq_iff, Result,
  ok, arith, Option-cases, Result-cases,
}
use ocu_mcp_gateway.Auth.{KeyRecord, StaticKeySet}
use ocu_mcp_gateway.Config.KeySet.{
  KeyRecordWire, BootSetWire, Source, FileKeySetLoader, LoadError, to_record, to_records, load,
}

eq_of_ok : (x : Result LoadError StaticKeySet) {a b : StaticKeySet} → x ≡ ok a → x ≡ ok b → a ≡ b
eq_of_ok x h k = cc

-- The two lists have the same length, and a wire record is of the deployment and maps to the
-- record at its place.
pub Mapped : (Str → Option ℕ) → Str → List KeyRecordWire → List KeyRecord → Type 0
Mapped parse_time deployment [] [] = Unit
Mapped parse_time deployment [] (r ∷ rs) = ⊥
Mapped parse_time deployment (k ∷ ks) [] = ⊥
Mapped parse_time deployment (k ∷ ks) (r ∷ rs) =
    (k.deployment ≡ deployment)
    × (to_record parse_time k ≡ ok r)
    × Mapped parse_time deployment ks rs

to_records-IsMapped :
    (parse_time : Str → Option ℕ) (deployment : Str) (ks : List KeyRecordWire) (rs : List KeyRecord)
    → to_records parse_time deployment ks ≡ ok rs
    → Mapped parse_time deployment ks rs
unfolding to_records Mapped
to_records-IsMapped p d [] [] e = tt
to_records-IsMapped p d [] (r ∷ rs) e = absurd (cc)
to_records-IsMapped p d (k ∷ ks) rs e = elim (Result-cases (to_record p k)) [
  | inl (r, one) ↦ elim (Result-cases (to_records p d ks)) [
    | inl (more, rest) ↦
        let same : r ∷ more ≡ rs = ground (arith, one, rest) in
        let here : k.deployment ≡ d = ground (arith, str_eq_iff k.deployment d) in
        subst (Mapped p d (k ∷ ks)) same (here, one, to_records-IsMapped p d ks more rest)
    | inr (x, bad) ↦ absurd (ground (arith, one, bad))
  ]
  | inr (x, bad) ↦ absurd (ground (arith, bad))
]

-- Where a key set comes from: a valid file of version 1 with at least one record.
pub record IsLoaded (source : Source) (l : FileKeySetLoader) (keys : StaticKeySet) : Type 0 where
  pub guarded : l.deployment ≢ []
  pub raw : Str
  pub found : source.read_file l.path ≡ some raw
  pub valid : source.validate raw ≡ true
  pub env : BootSetWire
  pub parsed : source.parse raw ≡ some env
  pub versioned : env.version ≡ 1
  pub nonempty : env.records ≢ []
  pub scoped : keys.deployment ≡ l.deployment
  pub mapped : Mapped source.parse_time l.deployment env.records keys.records

-- A key set that loads is of the gateway's own deployment, which is not empty, and its records are
-- those of a valid file of version 1, at least one, all of that deployment, in the file's order.
pub load-IsLoaded :
    (source : Source) (l : FileKeySetLoader) (keys : StaticKeySet)
    → load source l ≡ ok keys
    → IsLoaded source l keys
unfolding load
load-IsLoaded source l keys e = elim (Option-cases (source.read_file l.path)) [
  | inl bad ↦ absurd (ground (arith, bad))
  | inr (raw, found) ↦ elim (Option-cases (source.parse raw)) [
    | inl bad ↦ absurd (ground (arith, found, bad))
    | inr (env, parsed) ↦
        elim (Result-cases (to_records source.parse_time l.deployment env.records)) [
          | inl (rs, mapped) ↦
              let made : StaticKeySet = record { records = rs; deployment = l.deployment } in
              let same : made ≡ keys =
                eq_of_ok (load source l) (ground (arith, found, parsed, mapped)) e in
              record {
                guarded = λ bad. absurd (ground (arith, bad));
                raw = raw;
                found = found;
                valid = ground (arith, found);
                env = env;
                parsed = parsed;
                versioned = ground (arith, found, parsed);
                nonempty = λ bad. absurd (ground (arith, found, parsed, bad));
                scoped = sym (ap (λ (k : StaticKeySet). k.deployment) same);
                mapped =
                    subst (Mapped source.parse_time l.deployment env.records)
                      (ap (λ (k : StaticKeySet). k.records) same)
                      (to_records-IsMapped source.parse_time l.deployment env.records rs mapped);
              }
          | inr (x, bad) ↦ absurd (ground (arith, found, parsed, bad))
        ]
  ]
]
