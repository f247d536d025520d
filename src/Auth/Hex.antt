-- ===== src/Auth/Hex.antt =====
-- `encoding/hex` of Go's standard library, as internal/auth/skkey.go uses it.
use ocu_mcp_gateway.Base.{
  ℕ, ◌+◌, ◌-◌, ◌*◌, ◌/◌, ◌%◌, ◌<◌, ◌≡◌, refl, ◌&&◌, leb, ltb, [], ◌∷◌, Option, none, some,
  if◌then◌else◌, Str, arith, All,
}

-- The value of a digit in either case.
unfoldable pub digit : ℕ → Option ℕ
digit c =
    if leb b'0' c && leb c b'9'
    then some (c - b'0')
    else if leb b'a' c && leb c b'f'
    then some (c - b'a' + 10)
    else if leb b'A' c && leb c b'F'
    then some (c - b'A' + 10)
    else none

abbrev pub byte_of : Option ℕ → Option ℕ → Option Str → Option Str
byte_of (some h) (some l) (some rest) = some ((h * 16 + l) ∷ rest)
byte_of _ _ _ = none

unfoldable pub decode_string : Str → Option Str
unfolding digit
decode_string [] = some []
decode_string (c ∷ []) = none
decode_string (c ∷ d ∷ s) = byte_of (digit c) (digit d) (decode_string s)

unfoldable pub char_of : ℕ → ℕ
char_of n = if ltb n 10 then n + b'0' else n - 10 + b'a'

unfoldable pub encode_to_string : Str → Str
encode_to_string [] = []
encode_to_string (b ∷ s) = char_of (b / 16) ∷ char_of (b % 16) ∷ encode_to_string s

digit-char_of : (n : ℕ) → n < 16 → digit (char_of n) ≡ some n
unfolding digit char_of
digit-char_of n h = ground arith

pub decode_string-encode_to_string :
    (s : Str) → All (λ b. b < 256) s → decode_string (encode_to_string s) ≡ some s
unfolding decode_string encode_to_string
decode_string-encode_to_string [] h = refl
decode_string-encode_to_string (b ∷ s) h =
    rw
      (
        digit-char_of (b / 16) (omega (arith, h.0)),
        digit-char_of (b % 16) (omega arith),
        decode_string-encode_to_string s h.1,
      )
      (ground arith)
