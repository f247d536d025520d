-- ===== src/Audit/Stamps.antt =====
-- internal/audit/emitter.go: the sequence numbers that the published records carry.
use ocu_mcp_gateway.Base.{
  ℕ, ◌+◌, ◌%◌, ◌≡◌, ◌≢◌, List, [], ◌∷◌, ◌++◌, Option, none, some, Str, codes, str_eq, ok, Json, obj,
  num, field, end, Fields, ◌⊎◌, if◌then◌else◌,
}
use ocu_mcp_gateway.Audit.{validate, to_api_activity, to_authentication, validate_authn}
use ocu_mcp_gateway.Audit.Emitter.{Sink, Emitter, word}
use ocu_mcp_gateway.Audit.Sequence.{Attempt, activity, logon, after}

-- The first member of a name.
abbrev member : Str → Fields → Option Json
member name end = none
member name (field key v rest) =
    let later = member name rest in if str_eq key name then some v else later

abbrev number_of : Option Json → Option ℕ
number_of (some (num n)) = some n
number_of _ = none

abbrev sequence_in : Option Json → Option ℕ
sequence_in (some (obj fields)) = number_of (member (codes "sequence") fields)
sequence_in _ = none

-- The number `metadata.sequence` of an OCSF object.
abbrev pub sequence_of : Json → Option ℕ
sequence_of (obj fields) = sequence_in (member (codes "metadata") fields)
sequence_of _ = none

-- A sink that also keeps every payload it is given, oldest first.
abbrev pub recording : Sink → Sink
recording k = record {
  State = k.State × List Str;
  Failure = k.Failure;
  publish = λ s channel payload.
      let (s', o) = k.publish s.0 channel payload in ((s', s.1 ++ payload ∷ []), o);
  marshal = k.marshal;
}

module _ (k : Sink) where
  -- The attempt with number `n` is invalid, or its object is not marshalled.
  abbrev pub Refused : ℕ → Attempt → Type 0
  Refused n (activity env) =
      (validate (record env { sequence = n }) ≢ ok tt)
      ⊎ (k.marshal (to_api_activity (record env { sequence = n })) ≡ none)
  Refused n (logon env) =
      (validate_authn (record env { sequence = n }) ≢ ok tt)
      ⊎ ((object : Json) × (to_authentication (record env { sequence = n }) ≡ ok object)
          × (k.marshal object ≡ none))

  -- The payload is that of an object whose sequence number is `n`.
  abbrev pub Carries : ℕ → Str → Type 0
  Carries n payload =
      (object : Json) × (sequence_of object ≡ some n) × (k.marshal object ≡ some payload)

  -- From the number `n` on each attempt has the next number; a refused one gives no payload, and
  -- any other gives the next payload, which carries its number.
  abbrev pub Stamped : ℕ → List (Attempt) → List Str → Type 0
  Stamped n [] payloads = payloads ≡ []
  Stamped n (a ∷ as') payloads =
      (Refused n a × Stamped ((n + 1) % word) as' payloads)
      ⊎ ((payload : Str) × (rest : List Str) × (payloads ≡ payload ∷ rest)
          × Carries n payload
          × Stamped ((n + 1) % word) as' rest)

  abbrev pub run_attempts : Emitter (recording k) → List Attempt → Emitter (recording k)
  run_attempts e [] = e
  run_attempts e (a ∷ as') = run_attempts (after (recording k) e a) as'
