-- ===== src/Forward/Results/Errors.antt =====
-- internal/forward/http.go: which exits are errors of the tool, told without the code's tests.
use ocu_mcp_gateway.Base.{
  ℕ, ◌≡◌, ◌≢◌, ◌↔◌, refl, ap, ◌∙◌, true, false, List, [], ◌∷◌, ◌++◌, Option, none, some, Str, codes,
  str_eq, str_eq_iff, str_eq_refl, lookup, lookup-Any, Any-lookup, arith, All, Any, Bool-cases,
  Option-cases, inl, inr,
}
use ocu_mcp_gateway.Forward.Commands.{
  CommandSemantic, command_semantics, first_command_from_argv, is_single_simple_command,
  bash_command, fields, is_skipped, base_name, first_program,
}
use ocu_mcp_gateway.Forward.Commands.Simple.{
  NoSubstitution, Quoted, outside, is_single_simple_command_iff,
}
use ocu_mcp_gateway.Forward.Results.{
  ExecResponse, CallToolResult, project_call_tool_result, benign_message,
}
use ocu_mcp_gateway.Forward.Results.Bounds.{message-error_iff, threshold_two}

-- The programs whose exit 1 is an answer.
abbrev pub answering_programs : List Str
answering_programs =
    codes "grep" ∷ codes "rg" ∷ codes "find" ∷ codes "diff" ∷ codes "test" ∷ codes "[" ∷ []

-- The words start with assignments and launchers, and after them stands the program.
pub record Leads (words : List Str) (program : Str) : Type 0 where
  pub skipped : List Str
  pub token : Str
  pub rest : List Str
  pub split : words ≡ skipped ++ (token ∷ rest)
  pub passed : All (λ w. is_skipped w ≡ true) skipped
  pub first : is_skipped token ≡ false
  pub named : base_name token ≡ program

-- An exit of 1 of `/bin/sh -c` with one command, quoted throughout, of an answering program.
pub record IsAnswer (exit_code : ℕ) (argv : List Str) : Type 0 where
  pub cmd : Str
  pub shell : argv ≡ codes "/bin/sh" ∷ codes "-c" ∷ cmd ∷ []
  pub plain : All (λ c. (c ≢ 96) × (c ≢ 10)) cmd
  pub unsubstituted : NoSubstitution cmd
  pub quoted : Quoted outside cmd
  pub program : Str
  pub leads : Leads (fields cmd) program
  pub answers : Any (λ n. program ≡ n) answering_programs
  pub exits_one : exit_code ≡ 1

bash_command-inv :
    (argv : List Str) (cmd : Str)
    → bash_command argv ≡ some cmd
    → argv ≡ codes "/bin/sh" ∷ codes "-c" ∷ cmd ∷ []
unfolding bash_command
bash_command-inv [] cmd e = absurd (cc)
bash_command-inv (a ∷ []) cmd e = absurd (cc)
bash_command-inv (a ∷ b ∷ []) cmd e = absurd (cc)
bash_command-inv (a ∷ b ∷ c ∷ []) cmd e =
    ground (arith, str_eq_iff a (codes "/bin/sh"), str_eq_iff b (codes "-c"))
bash_command-inv (a ∷ b ∷ c ∷ d ∷ rest) cmd e = absurd (cc)

bash_command-of : (cmd : Str) → bash_command (codes "/bin/sh" ∷ codes "-c" ∷ cmd ∷ []) ≡ some cmd
unfolding bash_command
bash_command-of cmd = rw (str_eq_refl (codes "/bin/sh"), str_eq_refl (codes "-c")) refl

no_program : (sem : CommandSemantic) → lookup [] command_semantics ≢ some sem
unfolding lookup codes str_eq
no_program sem e = cc

Leads-first_program :
    (words : List Str) (sem : CommandSemantic)
    → lookup (first_program words) command_semantics ≡ some sem
    → Leads words (first_program words)
unfolding first_program
Leads-first_program [] sem e = absurd (no_program sem e)
Leads-first_program (w ∷ ws) sem e = elim (Bool-cases (is_skipped w)) [
  | inl passed ↦
      let r = Leads-first_program ws sem (rw passed at e) in
      rw passed (record {
        skipped = w ∷ r.skipped;
        token = r.token;
        rest = r.rest;
        split = ap (◌∷◌ w) r.split;
        passed = (passed, r.passed);
        first = r.first;
        named = r.named;
      })
  | inr first ↦ rw first (record {
    skipped = [];
    token = w;
    rest = ws;
    split = refl;
    passed = tt;
    first = first;
    named = refl;
  })
]

first_program-skipped :
    (skipped rest : List Str) (token : Str)
    → All (λ w. is_skipped w ≡ true) skipped
    → is_skipped token ≡ false
    → first_program (skipped ++ (token ∷ rest)) ≡ base_name token
unfolding first_program
first_program-skipped [] rest token p f = rw f refl
first_program-skipped (w ∷ ws) rest token p f = rw p.0 (first_program-skipped ws rest token p.1 f)

first_program-Leads :
    (words : List Str) (program : Str) → Leads words program → first_program words ≡ program
first_program-Leads words program l =
    ap first_program l.split
    ∙ first_program-skipped l.skipped l.rest l.token l.passed l.first
    ∙ l.named

benign_message-IsAnswer :
    (exit_code : ℕ) (argv : List Str) (message : Str)
    → exit_code ≢ 0
    → benign_message exit_code argv ≡ some message
    → IsAnswer exit_code argv
unfolding benign_message first_command_from_argv
benign_message-IsAnswer exit_code argv message failed e = elim (Option-cases (bash_command argv)) [
  | inl other ↦ absurd (ground (arith, other))
  | inr (cmd, given) ↦ elim (Bool-cases (is_single_simple_command cmd)) [
    | inr compound ↦ absurd (ground (arith, given, compound))
    | inl simple ↦ elim (Option-cases (lookup (first_program (fields cmd)) command_semantics)) [
      | inl unknown ↦ absurd (ground (arith, given, simple, unknown))
      | inr (sem, found) ↦
          let (plain, unsubstituted, quoted) = (is_single_simple_command_iff cmd).0 simple in
          let two = threshold_two (first_program (fields cmd)) sem found in
          record {
            cmd = cmd;
            shell = bash_command-inv argv cmd given;
            plain = plain;
            unsubstituted = unsubstituted;
            quoted = quoted;
            program = first_program (fields cmd);
            leads = Leads-first_program (fields cmd) sem found;
            answers = lookup-Any (first_program (fields cmd)) command_semantics sem found;
            exits_one = ground (arith, rw (given, simple, found) at e, two, failed);
          }
    ]
  ]
]

IsAnswer-benign_message :
    (exit_code : ℕ) (argv : List Str)
    → IsAnswer exit_code argv
    → benign_message exit_code argv ≢ none
unfolding benign_message first_command_from_argv
IsAnswer-benign_message exit_code argv b =
    let given : bash_command argv ≡ some b.cmd = ap bash_command b.shell ∙ bash_command-of b.cmd in
    let simple = (is_single_simple_command_iff b.cmd).1 (b.plain, b.unsubstituted, b.quoted) in
    let (sem, found) = Any-lookup b.program command_semantics b.answers in
    let two = threshold_two b.program sem found in
    let leads = first_program-Leads (fields b.cmd) b.program b.leads in
    rw (given, simple, leads, found, b.exits_one, two) (λ e. cc)

module _ (decode : Str → Option Str) (decimal : ℕ → Str) where
  -- Where there is a result of Control's reply: it is an error exactly if the exit code is not zero
  -- and the exit is not an answer. An answer is an exit of 1 of a shell command without backtick,
  -- newline and `$(`, whose `;`, `&` and `|` all stand inside quotes, and whose first word past
  -- assignments and launchers names grep, rg, find, diff, test or `[`, by its last path element.
  pub is_error_iff :
      (reply : ExecResponse) (argv : List Str) (r : CallToolResult)
      → project_call_tool_result decode decimal reply argv ≡ some r
      → (r.is_error ≡ true) ↔ ((reply.exit_code ≢ 0) × (¬ IsAnswer reply.exit_code argv))
  is_error_iff reply argv r e =
      let (to, from) = message-error_iff decode decimal reply argv r e in
      (
        (λ x.
            let (failed, fatal) = to x in
            (failed, (λ b. IsAnswer-benign_message reply.exit_code argv b fatal))),
        (λ h. elim (Option-cases (benign_message reply.exit_code argv)) [
          | inl fatal ↦ from (h.0, fatal)
          | inr (message, benign) ↦
              absurd (h.1 (benign_message-IsAnswer reply.exit_code argv message h.0 benign))
        ]),
      )
