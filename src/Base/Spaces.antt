-- ===== src/Base/Spaces.antt =====
-- White space as package strings sees it: that of unicode.IsSpace, in UTF-8.
use Prim.Native.Nat.{ℕ, zero, suc, ◌-◌}
use mathlib.Core.Bool.{Bool, ◌&&◌, ◌||◌}
use mathlib.Core.List.{[], ◌∷◌}
use ocu_mcp_gateway.Base.Tests.{leb, ◌==◌, if◌then◌else◌}
use ocu_mcp_gateway.Base.Lists.{length, take, drop}
use ocu_mcp_gateway.Base.Text.{Str}

abbrev pub is_space : ℕ → Bool
is_space c = c == 32 || c == 9 || c == 10 || c == 11 || c == 12 || c == 13

-- U+0085 and U+00A0.
abbrev is_space_two : ℕ → ℕ → Bool
is_space_two a b = a == 194 && (b == 133 || b == 160)

-- U+1680, U+2000 to U+200A, U+2028, U+2029, U+202F, U+205F and U+3000.
abbrev is_space_three : ℕ → ℕ → ℕ → Bool
is_space_three a b c =
    a == 225 && b == 154 && c == 128
    || a == 226 && b == 128 && (leb 128 c && leb c 138 || c == 168 || c == 169 || c == 175)
    || a == 226 && b == 129 && c == 159
    || a == 227 && b == 128 && c == 128

-- The number of bytes of the white space at the start that is not ASCII, 0 where there is none.
abbrev space_width : Str → ℕ
space_width [] = 0
space_width (a ∷ []) = 0
space_width (a ∷ b ∷ []) = if is_space_two a b then 2 else 0
space_width (a ∷ b ∷ c ∷ s) = if is_space_two a b then 2 else if is_space_three a b c then 3 else 0

-- The text with each byte of such white space a blank; the first `n` bytes are within one.
unfoldable pub blanked : ℕ → Str → Str
blanked n [] = []
blanked zero (c ∷ s) =
    let w = space_width (c ∷ s) in let rest = blanked (w - 1) s in (if w == 0 then c else 32) ∷ rest
blanked (suc n) (c ∷ s) = let rest = blanked n s in 32 ∷ rest

unfoldable pub reverse_onto : Str → Str → Str
reverse_onto [] out = out
reverse_onto (c ∷ s) out = reverse_onto s (c ∷ out)

unfoldable pub leading_spaces : Str → ℕ
leading_spaces [] = 0
leading_spaces (c ∷ s) = let n = leading_spaces s in if is_space c then suc n else 0

-- `strings.TrimSpace`.
unfoldable pub trim_space : Str → Str
unfolding blanked reverse_onto leading_spaces
trim_space s =
    let b = blanked 0 s in
    drop (leading_spaces b) (take (length s - leading_spaces (reverse_onto b [])) s)
