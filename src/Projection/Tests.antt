-- ===== src/Projection/Tests.antt =====
-- Runs of internal/projection, and the properties at concrete calls.
use ocu_mcp_gateway.Base.{◌≡◌, ◌≢◌, ◌⊎◌, refl, [], ◌∷◌, some, Str, codes, str_eq, lookup}
use ocu_mcp_gateway.Projection.{Scripts, bash_tool, interpreter_path, nothing, project}
use ocu_mcp_gateway.Projection.Interpolation.{ScriptOf, Runs, file_tool_argv}

abbrev scripts : Scripts
scripts = record { create_file = codes "c"; str_replace = codes "s"; view = codes "v" }

viewed :
    project scripts some (codes "view") (codes "{}")
    ≡ (interpreter_path ∷ codes "-c" ∷ codes "v" ∷ [], codes "{}")
unfolding project codes str_eq lookup
viewed = refl

differs : codes "view" ≢ bash_tool
unfolding codes
differs e = absurd (cc)

file_tool_argv_example :
    ((codes "{}" ≢ []) × ((script : Str) × Runs scripts some (codes "view") (codes "{}") script))
    ⊎ (((codes "{}" ≡ []) ⊎ ((script : Str) → ¬ ScriptOf scripts some (codes "view") script))
        × (project scripts some (codes "view") (codes "{}") ≡ nothing))
file_tool_argv_example = file_tool_argv scripts some (codes "view") (codes "{}") differs
