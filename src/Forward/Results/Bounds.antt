-- ===== src/Forward/Results/Bounds.antt =====
-- internal/forward/http.go: how much of a stream is relayed, and which exits are errors.
use native.Mathlib.Decide.{dec_le}
use ocu_mcp_gateway.Base.{
  trim_space, ℕ, zero, suc, ◌<◌, ◌≤◌, subst, ◌≡◌, ◌≢◌, ◌↔◌, ◌⊎◌, inl, inr, refl, sym, ap, ◌∙◌, true,
  false, ◌==◌, leb, List, [], ◌∷◌, ◌++◌, Option, none, some, Str, length, drop, take, get_or,
  lookup, arith, Bool-cases, Option-cases, length-take, take-append-drop, eq_of_some, has_prefix,
}
use ocu_mcp_gateway.Forward.Commands.{
  CommandSemantic, command_semantics, first_command_from_argv, is_single_simple_command,
  bash_command,
}
use ocu_mcp_gateway.Forward.Results.{
  ExecResponse, CallToolResult, is_rune_start, back_off, bound, project_call_tool_result,
  project_image_sentinel, relay, benign_message, below_threshold, image_of_line, cut_line, is_jpeg,
  view_image_sentinel, project_streams,
}

back_off_le : (s : Str) (cut : ℕ) → back_off s cut ≤ cut
unfolding back_off
back_off_le s zero = omega arith
back_off_le s (suc cut) = ground (arith, back_off_le s cut)

back_off-rune :
    (s : Str) (cut : ℕ)
    → (back_off s cut ≡ 0) ⊎ (is_rune_start (get_or s (back_off s cut) 0) ≡ true)
unfolding back_off
back_off-rune s zero = inl refl
back_off-rune s (suc cut) = elim (Bool-cases (is_rune_start (get_or s (suc cut) 0))) [
  | inl here ↦ inr (rw (here) (here))
  | inr past ↦ rw (past) (back_off-rune s cut)
]

-- Between the place backed off to and the cut no character starts.
back_off-longest :
    (s : Str) (cut k : ℕ) → back_off s cut < k → k ≤ cut → is_rune_start (get_or s k 0) ≡ false
unfolding back_off
back_off-longest s zero k lt le = absurd (omega (arith, lt, le))
back_off-longest s (suc cut) k lt le = elim (Bool-cases (is_rune_start (get_or s (suc cut) 0))) [
  | inl here ↦ absurd (omega (arith, rw here at lt, le))
  | inr past ↦ elim (dec_le k cut) [
    | yes lower ↦ back_off-longest s cut k (rw past at lt) lower
    | no higher ↦
        let same : suc cut ≡ k = omega (arith, higher, le) in
        subst (λ j. is_rune_start (get_or s j 0) ≡ false) same past
  ]
]

get_or-drop : (s : Str) (n : ℕ) → get_or (drop n s) 0 0 ≡ get_or s n 0
get_or-drop s zero = refl
get_or-drop [] (suc n) = refl
get_or-drop (c ∷ s) (suc n) = get_or-drop s n

-- `part` is the longest prefix of `s` within the limit after which a character begins, or is empty
-- where there is none.
pub record IsLongestPart (limit : ℕ) (s part : Str) : Type 0 where
  pub rest : Str
  pub split : s ≡ part ++ rest
  pub within : length part ≤ limit
  pub boundary : (part ≡ []) ⊎ (is_rune_start (get_or rest 0 0) ≡ true)
  pub longest : (k : ℕ) → length part < k → k ≤ limit → is_rune_start (get_or s k 0) ≡ false

cut_back :
    (limit : ℕ) (s : Str) → limit < length s → IsLongestPart limit s (take (back_off s limit) s)
cut_back limit s long =
    let size : length (take (back_off s limit) s) ≡ back_off s limit =
      omega (arith, length-take (back_off s limit) s, back_off_le s limit, long) in
    record {
      rest = drop (back_off s limit) s;
      split = sym (take-append-drop (back_off s limit) s);
      within = omega (arith, size, back_off_le s limit);
      boundary = elim (back_off-rune s limit) [
        | inl all ↦ inl (rw all refl)
        | inr starts ↦ inr (rw (get_or-drop s (back_off s limit)) starts)
      ];
      longest = λ k lt le. back_off-longest s limit k (subst (λ n. n < k) size lt) le;
    }

-- What is relayed of a text is all of it where it fits the limit; of a longer text it is the longest
-- prefix within the limit after which a byte follows that begins a character, or nothing where
-- there is no such prefix.
pub bound_prefix :
    (limit : ℕ) (s : Str)
    → ((length s ≤ limit) × (bound limit s ≡ s))
      ⊎ ((limit < length s) × IsLongestPart limit s (bound limit s))
unfolding bound
bound_prefix limit s = elim (Bool-cases (leb (length s) limit)) [
  | inl fits ↦ inl (ground arith, rw fits refl)
  | inr long ↦
      let more : limit < length s = ground arith in inr (more, rw long (cut_back limit s more))
]

pub threshold_two :
    (program : Str) (sem : CommandSemantic)
    → lookup program command_semantics ≡ some sem
    → sem.threshold ≡ 2
unfolding lookup
threshold_two program sem e = ground arith

module _ (decode : Str → Option Str) (decimal : ℕ → Str) where
  image-IsSuccess :
      (o : Option (Str × Str)) (r : CallToolResult)
      → image_of_line decode decimal o ≡ some r
      → r.is_error ≡ false
  image-IsSuccess none r e = absurd (cc)
  image-IsSuccess (some (path, rest)) r e = elim (Bool-cases (is_jpeg (decode (trim_space rest)))) [
    | inl jpeg ↦ ap (λ (x : CallToolResult). x.is_error) (sym (eq_of_some (rw (jpeg) at e)))
    | inr other ↦ absurd (ground (arith, other))
  ]

  sentinel-IsSuccess :
      (stdout : Str) (r : CallToolResult)
      → project_image_sentinel decode decimal stdout ≡ some r
      → r.is_error ≡ false
  unfolding project_image_sentinel
  sentinel-IsSuccess stdout r e = elim (Bool-cases (has_prefix stdout view_image_sentinel)) [
    | inl image ↦ image-IsSuccess (cut_line stdout) r (rw (image) at e)
    | inr text ↦ absurd (ground (arith, text))
  ]

  relay-error_iff :
      (exit_code : ℕ) (stdout stderr : Str) (argv : List Str)
      → ((relay decode decimal exit_code stdout stderr argv).is_error ≡ true)
        ↔ ((exit_code ≢ 0) × (benign_message exit_code argv ≡ none))
  unfolding relay
  relay-error_iff exit_code stdout stderr argv = elim (Bool-cases (exit_code == 0)) [
    | inl zero_exit ↦ ground (arith, zero_exit)
    | inr failed ↦ elim (Option-cases (benign_message exit_code argv)) [
      | inl fatal ↦ ground (arith, failed, fatal)
      | inr (message, benign) ↦ ground (arith, failed, benign)
    ]
  ]

  projected-error :
      (reply : ExecResponse) (argv : List Str) (stdout stderr : Str)
      → (project_streams decode decimal reply argv stdout stderr).is_error
        ≡ (relay decode decimal reply.exit_code stdout stderr argv).is_error
  unfolding relay
  projected-error reply argv stdout stderr = elim (Bool-cases (reply.exit_code == 0)) [
    | inl zero_exit ↦ elim (Option-cases (project_image_sentinel decode decimal stdout)) [
      | inl text ↦ ground (arith, zero_exit, text)
      | inr (image, found) ↦ ground (arith, zero_exit, found, sentinel-IsSuccess stdout image found)
    ]
    | inr failed ↦ ground (arith, failed)
  ]

  project_call_tool_result-inv :
      (reply : ExecResponse) (argv : List Str) (r : CallToolResult)
      → project_call_tool_result decode decimal reply argv ≡ some r
      → (out : Str) × (errs : Str) × (project_streams decode decimal reply argv out errs ≡ r)
  unfolding project_call_tool_result
  project_call_tool_result-inv reply argv r e = elim (Option-cases (decode reply.stdout_b64)) [
    | inl bad ↦ absurd (ground (arith, bad))
    | inr (out, o) ↦ elim (Option-cases (decode reply.stderr_b64)) [
      | inl bad ↦ absurd (ground (arith, bad, o))
      | inr (errs, s) ↦ (out, errs, eq_of_some (rw (o, s) at e))
    ]
  ]

  pub message-error_iff :
      (reply : ExecResponse) (argv : List Str) (r : CallToolResult)
      → project_call_tool_result decode decimal reply argv ≡ some r
      → (r.is_error ≡ true) ↔ ((reply.exit_code ≢ 0) × (benign_message reply.exit_code argv ≡ none))
  message-error_iff reply argv r e =
      let (out, errs, same) = project_call_tool_result-inv reply argv r e in
      subst
        (λ b. (b ≡ true) ↔ ((reply.exit_code ≢ 0) × (benign_message reply.exit_code argv ≡ none)))
        (sym (projected-error reply argv out errs) ∙ ap (λ (x : CallToolResult). x.is_error) same)
        (relay-error_iff reply.exit_code out errs argv)

  benign_below :
      (exit_code : ℕ) (program message : Str)
      → below_threshold exit_code (lookup program command_semantics) ≡ some message
      → exit_code < 2
  benign_below exit_code program message e =
      elim (Option-cases (lookup program command_semantics)) [
        | inl absent ↦ absurd (ground (arith, absent))
        | inr (sem, found) ↦ ground (arith, found, threshold_two program sem found)
      ]

  -- Where there is a result of Control's reply, the exit code is not zero and the result is no error:
  -- the exit code is 1 and the argv is that of a shell command that counts as a single simple one.
  pub masked_exit :
      (reply : ExecResponse) (argv : List Str) (r : CallToolResult)
      → project_call_tool_result decode decimal reply argv ≡ some r
      → reply.exit_code ≢ 0
      → r.is_error ≡ false
      → (reply.exit_code ≡ 1)
        × ((cmd : Str) × (bash_command argv ≡ some cmd) × (is_single_simple_command cmd ≡ true))
  unfolding benign_message
  masked_exit reply argv r e failed success =
      elim (Option-cases (benign_message reply.exit_code argv)) [
        | inl fatal ↦ absurd (ground (arith, (message-error_iff reply argv r e).1 (failed, fatal)))
        | inr (message, benign) ↦ elim (Option-cases (bash_command argv)) [
          | inl none_given ↦ absurd (ground (arith, none_given))
          | inr (cmd, given) ↦ elim (Bool-cases (is_single_simple_command cmd)) [
            | inl simple ↦ (
              omega (
                arith,
                benign_below reply.exit_code (first_command_from_argv argv) message
                    (rw (given, simple) at benign),
                failed,
              ),
              (cmd, given, simple),
            )
            | inr compound ↦ absurd (ground (arith, given, compound))
          ]
        ]
      ]
