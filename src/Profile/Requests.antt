-- ===== src/Profile/Requests.antt =====
-- internal/profile: which requests the validator accepts.
use ocu_mcp_gateway.Base.{
  ◌≡◌, ◌≢◌, ◌↔◌, ◌⊎◌, pos, leb_ℤ, inl, inr, refl, true, [], ◌∷◌, arith, Str, codes, str_eq_iff,
  length, Map, lookup, Option, none, some, Result, ok, err, Option-cases, str_eq_refl, Result-cases,
  ◌>>◌,
}
use ocu_mcp_gateway.Profile.{
  call_tool_request, Limits, Decoding, CallParams, validate, BaseError, base_malformed,
  method_unknown, validate_base, validate_members, enforce_size, starts_with, are_arguments,
  is_named, trim_leading_space, validate_call_tool_params, require_jsonrpc_marker,
  require_allowed_method,
}

arguments_iff :
    (a : Str)
    → (are_arguments a ≡ true) ↔ ((a ≡ []) ⊎ (starts_with b'{' (trim_leading_space a) ≡ true))
arguments_iff [] = ((λ e. inl refl), (λ h. refl))
arguments_iff (c ∷ s) = (
  (λ e. inr (ground arith)),
  (λ h. elim h [ inl bad ↦ absurd (cc) | inr starts ↦ ground (arith, starts) ]),
)

named_inv : (o : Option Str) → is_named o ≡ true → (name : Str) × (o ≡ some name) × (name ≢ [])
named_inv none e = absurd (cc)
named_inv (some []) e = absurd (cc)
named_inv (some (c ∷ s)) e = (c ∷ s, refl, (λ bad. absurd (cc)))

named_of : (name : Str) → name ≢ [] → is_named (some name) ≡ true
named_of [] h = absurd (h refl)
named_of (c ∷ s) h = refl

module _ (d : Decoding) where
  marker_inv :
      (doc : Map Str)
      → require_jsonrpc_marker d doc ≡ ok tt
      → (v : Str) × (lookup (codes "jsonrpc") doc ≡ some v) × (d.string v ≡ some (codes "2.0"))
  unfolding require_jsonrpc_marker
  marker_inv doc e = elim (Option-cases (lookup (codes "jsonrpc") doc)) [
    | inl bad ↦ absurd (ground (arith, bad))
    | inr (v, found) ↦ elim (Option-cases (d.string v)) [
      | inl bad ↦ absurd (ground (arith, found, bad))
      | inr (two, read) ↦ (v, found, ground (arith, found, read, str_eq_iff two (codes "2.0")))
    ]
  ]

  method_inv :
      (doc : Map Str)
      → require_allowed_method d doc ≡ ok tt
      → (v : Str) × (lookup (codes "method") doc ≡ some v)
        × (d.string v ≡ some (codes "tools/call"))
  unfolding require_allowed_method
  method_inv doc e = elim (Option-cases (lookup (codes "method") doc)) [
    | inl bad ↦ absurd (ground (arith, bad))
    | inr (v, found) ↦ elim (Option-cases (d.string v)) [
      | inl bad ↦ absurd (ground (arith, found, bad))
      | inr (call, read) ↦
          (v, found, ground (arith, found, read, str_eq_iff call (codes "tools/call")))
    ]
  ]

  -- Call parameters with a tool name and, if any, an object of arguments.
  pub record IsCallParams (params : Str) : Type 0 where
    pub parts : CallParams
    pub parted : d.call_params params ≡ some parts
    pub name : Str
    pub named : parts.name ≡ some name
    pub nonempty : name ≢ []
    pub arguments :
        (parts.arguments ≡ []) ⊎ (starts_with b'{' (trim_leading_space parts.arguments) ≡ true)

  params_inv : (params : Str) → validate_call_tool_params d params ≡ ok tt → IsCallParams params
  unfolding validate_call_tool_params
  params_inv params e = elim (Option-cases (d.call_params params)) [
    | inl bad ↦ absurd (ground (arith, bad))
    | inr (p, parted) ↦
        let (name, named, nonempty) = named_inv p.name (ground (arith, parted)) in
        record {
          parts = p;
          parted = parted;
          name = name;
          named = named;
          nonempty = nonempty;
          arguments = (arguments_iff p.arguments).0 (ground (arith, parted));
        }
  ]

  params_of : (params : Str) → IsCallParams params → validate_call_tool_params d params ≡ ok tt
  unfolding validate_call_tool_params
  params_of params c = ground (
    arith,
    c.parted,
    c.named,
    named_of c.name c.nonempty,
    (arguments_iff c.parts.arguments).1 c.arguments,
  )

  -- A JSON-RPC 2.0 call of `tools/call` with such parameters.
  pub record IsToolCall (raw : Str) : Type 0 where
    pub members : Map Str
    pub decoded : d.members raw ≡ some members
    pub version : Str
    pub versioned : lookup (codes "jsonrpc") members ≡ some version
    pub is_two : d.string version ≡ some (codes "2.0")
    pub method : Str
    pub called : lookup (codes "method") members ≡ some method
    pub is_call : d.string method ≡ some (codes "tools/call")
    pub params : Str
    pub with_params : lookup (codes "params") members ≡ some params
    pub call_params : IsCallParams params

  both_ok : (m k : Result BaseError (Unit {0})) → (m >> k) ≡ ok tt → (m ≡ ok tt) × (k ≡ ok tt)
  both_ok (ok u) k e = (refl, e)
  both_ok (err x) k e = absurd (cc)

  base_inv : (raw : Str) → validate_base d call_tool_request raw ≡ ok tt → IsToolCall raw
  unfolding validate_base validate_members
  base_inv raw e = elim (Option-cases (d.members raw)) [
    | inl bad ↦ absurd (ground (arith, bad))
    | inr (doc, decoded) ↦
        let (marked, rest) = both_ok (require_jsonrpc_marker d doc) _ (rw (decoded) at e) in
        let (methodical, last) = both_ok (require_allowed_method d doc) _ rest in
        let (version, versioned, is_two) = marker_inv doc marked in
        let (method, called, is_call) = method_inv doc methodical in
        elim (Option-cases (lookup (codes "params") doc)) [
          | inl bad ↦ absurd (cc (rw (bad) at last))
          | inr (params, found) ↦ record {
            members = doc;
            decoded = decoded;
            version = version;
            versioned = versioned;
            is_two = is_two;
            method = method;
            called = called;
            is_call = is_call;
            params = params;
            with_params = found;
            call_params = params_inv params (rw (found) at last);
          }
        ]
  ]

  base_of : (raw : Str) → IsToolCall raw → validate_base d call_tool_request raw ≡ ok tt
  unfolding validate_base validate_members require_jsonrpc_marker require_allowed_method
  base_of raw c = ground (
    arith,
    c.decoded,
    c.versioned,
    c.is_two,
    str_eq_refl (codes "2.0"),
    c.called,
    c.is_call,
    str_eq_refl (codes "tools/call"),
    c.with_params,
    params_of c.params c.call_params,
  )

  pub validate_request_iff :
      (l : Limits) (raw : Str)
      → (validate d l call_tool_request raw ≡ ok tt) ↔ (
          ((leb_ℤ l.max_tool_arguments_bytes (pos 0) ≡ true)
            ⊎ (leb_ℤ (pos (length raw)) l.max_tool_arguments_bytes ≡ true))
          × IsToolCall raw)
  unfolding validate enforce_size
  validate_request_iff l raw = (
    (λ e. elim (Result-cases (validate_base d call_tool_request raw)) [
      | inl (u, fine) ↦ (ground (arith, fine), base_inv raw fine)
      | inr (base_malformed, bad) ↦ absurd (ground (arith, bad))
      | inr (method_unknown, bad) ↦ absurd (ground (arith, bad))
    ]),
    (λ (small, c). ground (arith, base_of raw c, small)),
  )
