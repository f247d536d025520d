-- ===== src/Projection/Interpolation.antt =====
-- internal/projection/projection.go: what of the arguments of a call reaches its argv.
use ocu_mcp_gateway.Base.{
  ◌≡◌, ◌≢◌, ◌↔◌, ◌⊎◌, inl, inr, refl, sym, [], ◌∷◌, Option, none, some, Str, codes, str_eq,
  str_eq_iff, str_eq-ne, lookup, Bool-cases, Option-cases, eq_of_some,
}
use ocu_mcp_gateway.Forward.Commands.{bash_command}
use ocu_mcp_gateway.Projection.{
  Scripts, file_tool_scripts, bash_tool, interpreter_path, nothing, run_command, run_script,
  project,
}

module _ (scripts : Scripts) (command : Str → Option Str) where
  -- The script of each file tool.
  abbrev pub ScriptOf : Str → Str → Type 0
  ScriptOf name script =
      ((name ≡ codes "create_file") × (script ≡ scripts.create_file))
      ⊎ ((name ≡ codes "str_replace") × (script ≡ scripts.str_replace))
      ⊎ ((name ≡ codes "view") × (script ≡ scripts.view))

  found-ScriptOf :
      (name script : Str)
      → lookup name (file_tool_scripts scripts) ≡ some script
      → ScriptOf name script
  unfolding lookup
  found-ScriptOf name script e = elim (Bool-cases (str_eq (codes "create_file") name)) [
    | inl creates ↦ inl (sym ((str_eq_iff _ _).0 creates), sym (eq_of_some (rw creates at e)))
    | inr a ↦ elim (Bool-cases (str_eq (codes "str_replace") name)) [
      | inl replaces ↦
          inr (inl (sym ((str_eq_iff _ _).0 replaces), sym (eq_of_some (rw (a, replaces) at e))))
      | inr b ↦ elim (Bool-cases (str_eq (codes "view") name)) [
        | inl views ↦
            inr (inr (sym ((str_eq_iff _ _).0 views), sym (eq_of_some (rw (a, b, views) at e))))
        | inr c ↦ absurd (cc (rw (a, b, c) at e))
      ]
    ]
  ]

  ScriptOf-found :
      (name script : Str)
      → ScriptOf name script
      → lookup name (file_tool_scripts scripts) ≡ some script
  unfolding lookup codes str_eq
  ScriptOf-found name script (inl (n, s)) = rw (n, s) refl
  ScriptOf-found name script (inr (inl (n, s))) = rw (n, s) refl
  ScriptOf-found name script (inr (inr (n, s))) = rw (n, s) refl

  -- The interpreter runs the tool's script on the arguments.
  abbrev pub Runs : Str → Str → Str → Type 0
  Runs name arguments script =
      ScriptOf name script
      × (project scripts command name arguments
          ≡ (interpreter_path ∷ codes "-c" ∷ script ∷ [], arguments))

  script_runs :
      (name arguments script : Str)
      → name ≢ bash_tool
      → arguments ≢ []
      → lookup name (file_tool_scripts scripts) ≡ some script
      → project scripts command name arguments
        ≡ (interpreter_path ∷ codes "-c" ∷ script ∷ [], arguments)
  unfolding project
  script_runs name [] script other given found = absurd (given refl)
  script_runs name (c ∷ s) script other given found =
      rw (str_eq-ne name bash_tool other, found) refl

  empty_runs : (name : Str) → name ≢ bash_tool → project scripts command name [] ≡ nothing
  unfolding project
  empty_runs name other = elim (Option-cases (lookup name (file_tool_scripts scripts))) [
    | inl absent ↦ rw (str_eq-ne name bash_tool other, absent) refl
    | inr (script, found) ↦ rw (str_eq-ne name bash_tool other, found) refl
  ]

  -- A call of any tool but `bash_tool` with arguments that are not empty runs create_file, str_replace
  -- or view with the script of that name, whatever the arguments are, which are its stdin unchanged;
  -- a call of another name, or with empty arguments, projects to nothing.
  pub file_tool_argv :
      (name arguments : Str)
      → name ≢ bash_tool
      → ((arguments ≢ []) × ((script : Str) × Runs name arguments script))
        ⊎ (((arguments ≡ []) ⊎ ((script : Str) → ¬ ScriptOf name script))
            × (project scripts command name arguments ≡ nothing))
  unfolding project
  file_tool_argv name [] other = inr (inl refl, empty_runs name other)
  file_tool_argv name (c ∷ s) other =
      elim (Option-cases (lookup name (file_tool_scripts scripts))) [
        | inl absent ↦ inr (
          inr (λ script h. absurd (cc (ScriptOf-found name script h, absent))),
          rw (str_eq-ne name bash_tool other, absent) refl,
        )
        | inr (script, found) ↦ inl (
          (λ e. cc),
          (
            script,
            (
              found-ScriptOf name script found,
              script_runs name (c ∷ s) script other (λ e. cc) found,
            ),
          ),
        )
      ]

  no_command : (arguments : Str) (o : Option Str) → bash_command (run_script arguments o).0 ≡ none
  unfolding bash_command codes str_eq
  no_command arguments none = refl
  no_command [] (some script) = refl
  no_command (c ∷ s) (some script) = refl

  shell_command :
      (o : Option Str) (cmd : Str)
      → (bash_command (run_command o).0 ≡ some cmd) ↔ ((o ≡ some cmd) × (cmd ≢ []))
  unfolding bash_command codes str_eq
  shell_command none cmd = ((λ e. absurd (cc)), (λ h. absurd (cc (h.0))))
  shell_command (some []) cmd = ((λ e. absurd (cc)), (λ h. absurd (h.1 (sym (eq_of_some h.0)))))
  shell_command (some (c ∷ s)) cmd = ((λ e. (e, (λ bad. absurd (cc (e, bad))))), (λ h. h.0))

  -- The forwarder reads a shell command off the argv of a call exactly if the tool is `bash_tool`, and
  -- it is then the command of its arguments, which is not empty.
  pub bash_command-project_iff :
      (name arguments cmd : Str)
      → (bash_command (project scripts command name arguments).0 ≡ some cmd)
        ↔ ((name ≡ bash_tool) × (command arguments ≡ some cmd) × (cmd ≢ []))
  unfolding project
  bash_command-project_iff name arguments cmd = elim (Bool-cases (str_eq name bash_tool)) [
    | inl shell ↦ rw (shell) (
      (λ e.
          let (given, nonempty) = (shell_command (command arguments) cmd).0 e in
          ((str_eq_iff name bash_tool).0 shell, given, nonempty)),
      (λ h. (shell_command (command arguments) cmd).1 (h.1, h.2)),
    )
    | inr other ↦ rw (other) (
      (λ e. absurd (cc (no_command arguments (lookup name (file_tool_scripts scripts)), e))),
      (λ h. absurd (cc (other, (str_eq_iff name bash_tool).1 h.0))),
    )
  ]
