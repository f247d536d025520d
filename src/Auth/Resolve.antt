-- ===== src/Auth/Resolve.antt =====
-- internal/auth/skkey.go: who is authenticated.
use ocu_mcp_gateway.Base.{
  ℕ, ◌≡◌, ◌↔◌, ◌⊎◌, ◌≤◌, inl, inr, refl, sym, ap, true, List, [], ◌∷◌, ◌++◌, arith, Str, str_eq_iff,
  has_prefix, Option, none, some, ok, Option-cases, Bool-cases, if◌then◌else◌, subst, All, codes,
  eq_of_some,
}
use ocu_mcp_gateway.Auth.{
  active, KeyRecord, Caller, StaticKeySet, caller_of, found, matches, scan, resolve, authenticate,
  key_prefix,
}
use ocu_mcp_gateway.Auth.Hex.{decode_string}

module _ (sha256 : Str → Str) where
  -- The record is active, not past its expiry, of the gateway's deployment, and its hash is that
  -- of its salt and the bearer.
  pub record Vouches (deployment : Str) (now : ℕ) (bearer : Str) (r : KeyRecord) : Type 0 where
    pub is_live : r.status ≡ active
    pub unexpired : (r.expires_at ≡ 0) ⊎ (now ≤ r.expires_at)
    pub scoped : r.deployment ≡ deployment
    pub salt : Str
    pub salt_decoded : decode_string r.salt ≡ some salt
    pub hash_decoded : decode_string r.key_hash ≡ some (sha256 (salt ++ bearer))
    pub prefixed : has_prefix bearer key_prefix ≡ true

  matches_sound :
      (deployment : Str) (now : ℕ) (bearer : Str) (r : KeyRecord)
      → matches sha256 deployment now bearer r ≡ true
      → Vouches deployment now bearer r
  unfolding matches
  matches_sound deployment now bearer r e = elim (Option-cases (decode_string r.salt)) [
    | inl bad ↦ absurd (ground (arith, bad))
    | inr (salt, s) ↦ elim (Option-cases (decode_string r.key_hash)) [
      | inl bad ↦ absurd (ground (arith, bad))
      | inr (want, w) ↦ record {
        is_live = ground arith;
        unexpired = ground arith;
        scoped = ground (arith, str_eq_iff r.deployment deployment);
        salt = salt;
        salt_decoded = s;
        hash_decoded = ground (arith, str_eq_iff want (sha256 (salt ++ bearer)));
        prefixed = ground arith;
      }
    ]
  ]

  matches_complete :
      (deployment : Str) (now : ℕ) (bearer : Str) (r : KeyRecord)
      → Vouches deployment now bearer r
      → matches sha256 deployment now bearer r ≡ true
  unfolding matches
  matches_complete deployment now bearer r v = ground (
    arith,
    v.is_live,
    v.unexpired,
    v.salt_decoded,
    v.hash_decoded,
    v.prefixed,
    str_eq_iff r.deployment deployment,
    v.scoped,
    str_eq_iff (sha256 (v.salt ++ bearer)) (sha256 (v.salt ++ bearer)),
  )

  scan_none :
      (d : Str) (now : ℕ) (b : Str) (m : Option KeyRecord) (rs : List KeyRecord)
      → All (λ r. ¬ Vouches d now b r) rs
      → scan sha256 d now b m rs ≡ m
  unfolding scan
  scan_none d now b m [] h = refl
  scan_none d now b m (r ∷ rs) h = elim (Bool-cases (matches sha256 d now b r)) [
    | inl hit ↦ absurd (h.0 (matches_sound d now b r hit))
    | inr miss ↦ rw miss (scan_none d now b m rs h.1)
  ]

  scan_last :
      (d : Str) (now : ℕ) (b : Str) (m : Option KeyRecord) (older newer : List KeyRecord)
      (r : KeyRecord)
      → Vouches d now b r
      → All (λ r. ¬ Vouches d now b r) newer
      → scan sha256 d now b m (older ++ (r ∷ newer)) ≡ some r
  unfolding scan
  scan_last d now b m [] newer r v h =
      rw (matches_complete d now b r v, scan) (scan_none d now b (some r) newer h)
  scan_last d now b m (o ∷ older) newer r v h =
      scan_last d now b (if matches sha256 d now b o then some o else m) older newer r v h

  -- The last record that vouches, and where it stands.
  pub record Last (d : Str) (now : ℕ) (b : Str) (rs : List KeyRecord) (r : KeyRecord) : Type 0 where
    pub older : List KeyRecord
    pub newer : List KeyRecord
    pub split : rs ≡ older ++ (r ∷ newer)
    pub vouched : Vouches d now b r
    pub last : All (λ r. ¬ Vouches d now b r) newer

  scan-Last :
      (d : Str) (now : ℕ) (b : Str) (m : Option KeyRecord) (rs : List KeyRecord) (r : KeyRecord)
      → scan sha256 d now b m rs ≡ some r
      → ((m ≡ some r) × All (λ r. ¬ Vouches d now b r) rs) ⊎ Last d now b rs r
  unfolding scan
  scan-Last d now b m [] r e = inl (e, tt)
  scan-Last d now b m (q ∷ rs) r e = elim (Bool-cases (matches sha256 d now b q)) [
    | inl hit ↦ elim (scan-Last d now b (some q) rs r (rw hit at e)) [
      | inl (same, rest) ↦
          let vouched : Vouches d now b r =
            subst (Vouches d now b) (eq_of_some same) (matches_sound d now b q hit) in
          inr (record {
            older = [];
            newer = rs;
            split = ap (λ x. x ∷ rs) (eq_of_some same);
            vouched = vouched;
            last = rest;
          })
      | inr l ↦ inr (record {
        older = q ∷ l.older;
        newer = l.newer;
        split = ap (◌∷◌ q) l.split;
        vouched = l.vouched;
        last = l.last;
      })
    ]
    | inr miss ↦ elim (scan-Last d now b m rs r (rw miss at e)) [
      | inl (same, rest) ↦
          inl (same, ((λ v. absurd (cc (miss, matches_complete d now b q v))), rest))
      | inr l ↦ inr (record {
        older = q ∷ l.older;
        newer = l.newer;
        split = ap (◌∷◌ q) l.split;
        vouched = l.vouched;
        last = l.last;
      })
    ]
  ]

  found-eq-ok :
      (o : Option KeyRecord) (c : Caller)
      → found o ≡ ok c
      → (r : KeyRecord) × (o ≡ some r) × (caller_of r ≡ c)
  found-eq-ok none c e = absurd (cc)
  found-eq-ok (some r) c e = (r, refl, ground arith)

  none_of_nothing :
      (d : Str) (now : ℕ) (b : Str) (rs : List KeyRecord) (r : KeyRecord)
      → scan sha256 d now b none rs ≡ some r
      → Last d now b rs r
  none_of_nothing d now b rs r e = elim (scan-Last d now b none rs r e) [
    | inl (same, _) ↦ absurd (cc)
    | inr l ↦ l
  ]

  empty_unvouched : (d : Str) (now : ℕ) (r : KeyRecord) → ¬ Vouches d now [] r
  unfolding has_prefix codes
  empty_unvouched d now r v = absurd (cc (v.prefixed))

  -- A bearer authenticates as `c` exactly if there is a key set and `c` is the caller of the last
  -- record of it that vouches for the bearer.
  pub authenticate_iff :
      (keys : Option StaticKeySet) (now : ℕ) (bearer : Str) (c : Caller)
      → (authenticate sha256 keys now bearer ≡ ok c) ↔ (
          (s : StaticKeySet) × (keys ≡ some s)
          × ((r : KeyRecord) × Last s.deployment now bearer s.records r × (caller_of r ≡ c)))
  unfolding authenticate resolve
  authenticate_iff none now [] c = ((λ e. absurd (cc)), (λ h. absurd (cc (h.1))))
  authenticate_iff none now (x ∷ bearer) c = ((λ e. absurd (cc)), (λ h. absurd (cc (h.1))))
  authenticate_iff (some s) now [] c =
      ((λ e. absurd (cc)), (λ h. absurd (empty_unvouched h.0.deployment now h.2.0 h.2.1.vouched)))
  authenticate_iff (some s) now (x ∷ bearer) c = (
    (λ e.
        let (r, f, same) =
          found-eq-ok (scan sha256 s.deployment now (x ∷ bearer) none s.records) c e in
        (s, refl, (r, none_of_nothing s.deployment now (x ∷ bearer) s.records r f, same))),
    (λ h.
        let (t, same, (r, l, from)) = h in
        let whole : scan sha256 t.deployment now (x ∷ bearer) none t.records ≡ some r =
          rw l.split
            (scan_last t.deployment now (x ∷ bearer) none l.older l.newer r l.vouched l.last) in
        subst (λ u. found (scan sha256 u.deployment now (x ∷ bearer) none u.records) ≡ ok c)
          (sym (eq_of_some same)) (rw whole (ap ok from))),
  )
