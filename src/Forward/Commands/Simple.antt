-- ===== src/Forward/Commands/Simple.antt =====
-- internal/forward/http.go, isSingleSimpleCommand: what it accepts.
use ocu_mcp_gateway.Base.{
  ℕ, Bool, true, false, ◌&&◌, ◌==◌, [], ◌∷◌, ◌++◌, if◌then◌else◌, Str, any, ◌≡◌, ◌≢◌, ◌↔◌, refl,
  arith, inl, inr, All, Bool-cases, ap, ◌∙◌,
}
use ocu_mcp_gateway.Forward.Commands.{
  is_operator, scan, has_substitution, is_backtick_or_newline, is_single_simple_command,
}

-- Where a position stands in a shell command, by its quotes alone: outside, or inside single or
-- double quotes. A quote inside the other kind is text.
pub data Quoting : Type 0 where
  outside single double : Quoting

pub quote_step : Quoting → ℕ → Quoting
quote_step outside c = if c == b'\'' then single else if c == b'"' then double else outside
quote_step single c = if c == b'\'' then outside else single
quote_step double c = if c == b'"' then outside else double

pub quoting : Quoting → Str → Quoting
unfolding quote_step
quoting q [] = q
quoting q (c ∷ s) = quoting (quote_step q c) s

pub flags : Quoting → Bool × Bool
flags outside = (false, false)
flags single = (true, false)
flags double = (false, true)

abbrev is_outside : Quoting → Bool
is_outside outside = true
is_outside single = false
is_outside double = false

abbrev scan_at : Quoting → Str → Bool
scan_at q s = scan (flags q).0 (flags q).1 s

scan_at-cons :
    (q : Quoting) (c : ℕ) (s : Str)
    → scan_at q (c ∷ s)
      ≡ (if is_operator c && is_outside q then false else scan_at (quote_step q c) s)
unfolding scan flags quote_step
scan_at-cons outside c s = ground arith
scan_at-cons single c s = ground arith
scan_at-cons double c s = ground arith

-- Every operator of the command stands inside quotes, of a text that starts in `q`.
pub Quoted : Quoting → Str → Type 0
Quoted q cmd =
    (before : Str) (c : ℕ) (after : Str)
    → cmd ≡ before ++ (c ∷ after)
    → is_operator c ≡ true
    → quoting q before ≢ outside

scan_sound : (q : Quoting) (cmd : Str) → scan_at q cmd ≡ true → Quoted q cmd
unfolding quoting Quoted
scan_sound q [] e [] c after split op = absurd (cc)
scan_sound q [] e (b ∷ before) c after split op = absurd (cc)
scan_sound q (x ∷ s) e [] c after split op = λ out. absurd (ground (arith, scan_at-cons q x s, out))
scan_sound q (x ∷ s) e (b ∷ before) c after split op =
    let same : x ≡ b = ground arith in
    let tail : s ≡ before ++ (c ∷ after) = ground arith in
    rw (← same)
      (scan_sound (quote_step q x) s (ground (arith, scan_at-cons q x s)) before c after tail op)

outside_of : (q : Quoting) → is_outside q ≡ true → q ≡ outside
outside_of outside e = refl
outside_of single e = absurd (cc)
outside_of double e = absurd (cc)

scan_complete : (q : Quoting) (cmd : Str) → Quoted q cmd → scan_at q cmd ≡ true
unfolding quoting Quoted scan
scan_complete q [] h = refl
scan_complete q (x ∷ s) h =
    let rest : scan_at (quote_step q x) s ≡ true =
      scan_complete (quote_step q x) s
        (λ before c after split op. h (x ∷ before) c after (ap (◌∷◌ x) split) op) in
    elim (Bool-cases (is_operator x && is_outside q)) [
      | inl bad ↦ absurd (h [] x s refl (ground arith) (outside_of q (ground arith)))
      | inr fine ↦ scan_at-cons q x s ∙ rw fine rest
    ]

-- There is no `$(` in the text.
pub NoSubstitution : Str → Type 0
NoSubstitution cmd = (before after : Str) → cmd ≢ before ++ (b'$' ∷ b'(' ∷ after)

substitution_sound : (cmd : Str) → has_substitution cmd ≡ false → NoSubstitution cmd
unfolding has_substitution NoSubstitution
substitution_sound [] e [] after split = absurd (cc)
substitution_sound [] e (b ∷ before) after split = absurd (cc)
substitution_sound (x ∷ []) e [] after split = absurd (cc)
substitution_sound (x ∷ []) e (b ∷ []) after split = absurd (cc)
substitution_sound (x ∷ []) e (b ∷ d ∷ before) after split = absurd (cc)
substitution_sound (x ∷ y ∷ s) e [] after split = absurd (ground arith)
substitution_sound (x ∷ y ∷ s) e (b ∷ before) after split =
    substitution_sound (y ∷ s) (ground arith) before after (ground arith)

substitution_complete : (cmd : Str) → NoSubstitution cmd → has_substitution cmd ≡ false
unfolding has_substitution NoSubstitution
substitution_complete [] h = refl
substitution_complete (x ∷ []) h = refl
substitution_complete (x ∷ y ∷ s) h =
    let rest : has_substitution (y ∷ s) ≡ false =
      substitution_complete (y ∷ s)
        (λ before after split. h (x ∷ before) after (ap (◌∷◌ x) split)) in
    elim (Bool-cases (x == b'$' && y == b'(')) [
      | inl bad ↦ absurd (h [] s (ground arith))
      | inr fine ↦ rw (fine) rest
    ]

plain_iff :
    (cmd : Str) → (any is_backtick_or_newline cmd ≡ false) ↔ All (λ c. (c ≢ 96) × (c ≢ 10)) cmd
plain_iff [] = ((λ e. tt), (λ h. refl))
plain_iff (c ∷ s) = (
  (λ e. (
    ((λ a. absurd (ground arith)), (λ a. absurd (ground arith))),
    (plain_iff s).0 (ground arith),
  )),
  (λ h. ground (arith, h.0.0, h.0.1, (plain_iff s).1 h.1)),
)

-- A command counts as a single simple one exactly if it has no backtick and no newline, no `$(`,
-- and each `;`, `&` and `|` in it stands inside quotes, where every quote opens or closes a
-- quotation unless it stands inside one of the other kind.
pub is_single_simple_command_iff :
    (cmd : Str)
    → (is_single_simple_command cmd ≡ true)
      ↔ (All (λ c. (c ≢ 96) × (c ≢ 10)) cmd × NoSubstitution cmd × Quoted outside cmd)
unfolding is_single_simple_command flags
is_single_simple_command_iff cmd = (
  (λ e. (
    (plain_iff cmd).0 (ground arith),
    substitution_sound cmd (ground arith),
    scan_sound outside cmd (ground arith),
  )),
  (λ (p, n, q).
      ground
        (arith, (plain_iff cmd).1 p, substitution_complete cmd n, scan_complete outside cmd q)),
)
