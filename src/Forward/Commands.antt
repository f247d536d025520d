-- ===== src/Forward/Commands.antt =====
-- internal/forward/http.go: the command of a bash argv, and whether it is a single simple one.
pub mod Simple
use ocu_mcp_gateway.Base.{
  is_space, blanked, reverse_onto, ℕ, Bool, true, false, not, ◌&&◌, ◌||◌, ◌==◌, List, [], ◌∷◌,
  Option, none, some, if◌then◌else◌, Str, codes, str_eq, is_empty, any, Map, lookup,
}

abbrev pub is_operator : ℕ → Bool
is_operator c = c == b';' || c == b'&' || c == b'|'

-- The scan over the command; `in_single` and `in_double` are the quotes it is inside of.
unfoldable pub scan : Bool → Bool → Str → Bool
scan in_single in_double [] = true
scan in_single in_double (c ∷ s) =
    let closed = scan in_single in_double s in
    let single = scan (not in_single) in_double s in
    let double = scan in_single (not in_double) s in
    if c == b'\''
    then (if in_double then closed else single)
    else if c == b'"'
    then (if in_single then closed else double)
    else if is_operator c
    then (if in_single || in_double then closed else false)
    else closed

-- `strings.Contains(cmd, "$(")`.
unfoldable pub has_substitution : Str → Bool
has_substitution [] = false
has_substitution (c ∷ []) = false
has_substitution (c ∷ d ∷ s) = (c == b'$' && d == b'(') || has_substitution (d ∷ s)

-- `strings.ContainsAny(cmd, "`\n")`.
abbrev pub is_backtick_or_newline : ℕ → Bool
is_backtick_or_newline c = c == 96 || c == 10

unfoldable pub is_single_simple_command : Str → Bool
unfolding scan has_substitution
is_single_simple_command cmd =
    if any is_backtick_or_newline cmd || has_substitution cmd then false else scan false false cmd

-- `strings.Fields`: `word` is the part read of the current word, reversed.
abbrev pub emit_word : Str → List Str → List Str
emit_word [] rest = rest
emit_word (c ∷ w) rest = reverse_onto (c ∷ w) [] ∷ rest

unfoldable pub fields_from : Str → Str → List Str
unfolding reverse_onto
fields_from word [] = emit_word word []
fields_from word (c ∷ s) =
    let here = fields_from [] s in
    let more = fields_from (c ∷ word) s in if is_space c then emit_word word here else more

unfoldable pub fields : Str → List Str
unfolding fields_from blanked
fields s = fields_from [] (blanked 0 s)

-- The part after the last slash.
unfoldable pub base_name : Str → Str
base_name [] = []
base_name (c ∷ s) =
    let rest = base_name s in
    if any (λ d. d == b'/') s then rest else if c == b'/' then s else c ∷ s

abbrev pub launchers : List Str
launchers = codes "sudo" ∷ codes "env" ∷ codes "nice" ∷ codes "time" ∷ codes "strace" ∷ []

abbrev pub is_skipped : Str → Bool
is_skipped token = any (λ c. c == b'=') token || any (str_eq token) launchers

unfoldable pub first_program : List Str → Str
unfolding base_name
first_program [] = []
first_program (token ∷ tokens) =
    let rest = first_program tokens in if is_skipped token then rest else base_name token

-- The command of the argv `["/bin/sh", "-c", cmd]`.
unfoldable pub bash_command : List Str → Option Str
bash_command (a ∷ b ∷ cmd ∷ []) =
    if str_eq a (codes "/bin/sh") && str_eq b (codes "-c") then some cmd else none
bash_command _ = none

abbrev pub program_of : Option Str → Str
program_of none = []
program_of (some cmd) = first_program (fields cmd)

unfoldable pub first_command_from_argv : List Str → Str
unfolding bash_command first_program fields
first_command_from_argv argv = program_of (bash_command argv)

pub record CommandSemantic : Type 0 where
  pub threshold : ℕ
  pub message : Str

abbrev pub benign : Str → CommandSemantic
benign message = record { threshold = 2; message = message }

abbrev pub command_semantics : Map CommandSemantic
command_semantics =
    (codes "grep", benign (codes "No matches found"))
    ∷ (codes "rg", benign (codes "No matches found"))
    ∷ (codes "find", benign (codes "Some directories were inaccessible"))
    ∷ (codes "diff", benign (codes "Files differ"))
    ∷ (codes "test", benign (codes "Condition is false"))
    ∷ (codes "[", benign (codes "Condition is false"))
    ∷ []
