-- ===== src/Projection.antt =====
-- internal/projection/projection.go, Project: the argv and stdin of a tool call. The texts of the
-- three guest scripts are arguments, as is the JSON decoder, which reads the member `command`.
pub mod Interpolation
mod Tests
use ocu_mcp_gateway.Base.{
  Bool, List, [], ◌∷◌, Option, none, some, if◌then◌else◌, Str, codes, str_eq, is_empty, Map, lookup,
}

-- The texts of CreateFileScript, StrReplaceScript and ViewScript.
pub record Scripts : Type 0 where
  pub create_file : Str
  pub str_replace : Str
  pub view : Str

abbrev pub file_tool_scripts : Scripts → Map Str
file_tool_scripts s =
    (codes "create_file", s.create_file)
    ∷ (codes "str_replace", s.str_replace)
    ∷ (codes "view", s.view)
    ∷ []

abbrev pub bash_tool : Str
bash_tool = codes "bash_tool"

abbrev pub interpreter_path : Str
interpreter_path = codes "/usr/bin/python3"

abbrev pub nothing : List Str × Str
nothing = ([], [])

abbrev pub run_command : Option Str → List Str × Str
run_command none = nothing
run_command (some []) = nothing
run_command (some (c ∷ s)) = (codes "/bin/sh" ∷ codes "-c" ∷ (c ∷ s) ∷ [], [])

abbrev pub run_script : Str → Option Str → List Str × Str
run_script arguments none = nothing
run_script [] (some script) = nothing
run_script (c ∷ s) (some script) = (interpreter_path ∷ codes "-c" ∷ script ∷ [], c ∷ s)

unfoldable pub project : Scripts → (Str → Option Str) → Str → Str → List Str × Str
project scripts command name arguments =
    if str_eq name bash_tool
    then run_command (command arguments)
    else run_script arguments (lookup name (file_tool_scripts scripts))
