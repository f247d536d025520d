-- ===== src/Forward/Results.antt =====
-- internal/forward/http.go: the tool result that is made of Control's reply to an exec. Base64
-- decoding is a parameter, as is the printing of an exit code and of a length in decimal.
pub mod Bounds
pub mod Errors
use ocu_mcp_gateway.Base.{
  trim_space, ℕ, zero, suc, ◌<◌, Bool, true, false, not, ◌&&◌, ◌||◌, ◌==◌, ltb, leb, List, [], ◌∷◌,
  ◌++◌, Option, none, some, if◌then◌else◌, Str, codes, str_eq, is_empty, length, take, drop, get_or,
  any, has_prefix, lookup,
}
use ocu_mcp_gateway.Forward.Commands.{
  CommandSemantic, command_semantics, first_command_from_argv, is_single_simple_command,
  bash_command,
}

pub record ExecResponse : Type 0 where
  pub exit_code : ℕ
  pub stdout_b64 : Str
  pub stderr_b64 : Str
  pub stdout_truncated : Bool
  pub stderr_truncated : Bool

pub data ContentBlock : Type 0 where
  text_block : Str → ContentBlock
  image_block : Str → ContentBlock

pub record CallToolResult : Type 0 where
  pub content : List ContentBlock
  pub is_error : Bool

abbrev pub max_exec_content_bytes : ℕ
max_exec_content_bytes = 65536

-- `utf8.RuneStart`: not a continuation byte.
abbrev pub is_rune_start : ℕ → Bool
is_rune_start b = ltb b 128 || leb 192 b

-- The loop that backs off from `cut` to the start of a rune.
unfoldable pub back_off : Str → ℕ → ℕ
back_off s zero = 0
back_off s (suc cut) =
    let lower = back_off s cut in if is_rune_start (get_or s (suc cut) 0) then suc cut else lower

unfoldable pub bound : ℕ → Str → Str
unfolding back_off
bound limit s = if leb (length s) limit then s else take (back_off s limit) s

abbrev pub bound_content : Str → Str
bound_content s = bound max_exec_content_bytes s

abbrev pub view_image_sentinel : Str
view_image_sentinel = codes "OCU_VIEW_IMAGE_JPEG_B64 "

-- What stands before and after the first newline.
unfoldable pub cut_line : Str → Option (Str × Str)
cut_line [] = none
cut_line (c ∷ s) = let rest = cut_line s in if c == 10 then some ([], s) else prepend c rest
  where
    prepend : ℕ → Option (Str × Str) → Option (Str × Str)
    prepend c none = none
    prepend c (some (a, b)) = some (c ∷ a, b)

-- Whether a decoded image starts as a JPEG does.
abbrev pub is_jpeg : Option Str → Bool
is_jpeg none = false
is_jpeg (some []) = false
is_jpeg (some (a ∷ [])) = false
is_jpeg (some (a ∷ b ∷ rest)) = a == 255 && b == 216

abbrev pub has_output : Str → Bool
has_output s = not (is_empty s)

abbrev pub image_result : Str → Str → CallToolResult
image_result path b64 = record {
  content =
      text_block (codes "Image: " ++ path)
      ∷ image_block (codes "data:image/jpeg;base64," ++ b64)
      ∷ [];
  is_error = false;
}

-- The text that is relayed and whether it is an error, before bounding.
pub record Relay : Type 0 where
  pub text : Str
  pub is_error : Bool

abbrev pub simple_command : Option Str → Bool
simple_command none = false
simple_command (some cmd) = is_single_simple_command cmd

-- The message of the table, where the exit is a benign one.
abbrev pub below_threshold : ℕ → Option CommandSemantic → Option Str
below_threshold exit_code none = none
below_threshold exit_code (some sem) =
    if ltb exit_code sem.threshold then some sem.message else none

unfoldable pub benign_message : ℕ → List Str → Option Str
benign_message exit_code argv =
    if simple_command (bash_command argv)
    then below_threshold exit_code (lookup (first_command_from_argv argv) command_semantics)
    else none

module _ (decode : Str → Option Str) (decimal : ℕ → Str) where
  abbrev pub image_of_line : Option (Str × Str) → Option CallToolResult
  image_of_line none = none
  image_of_line (some (path, rest)) =
      if is_jpeg (decode (trim_space rest))
      then some (image_result (drop (length view_image_sentinel) path) (trim_space rest))
      else none

  unfoldable pub project_image_sentinel : Str → Option CallToolResult
  unfolding cut_line trim_space
  project_image_sentinel stdout =
      if has_prefix stdout view_image_sentinel then image_of_line (cut_line stdout) else none

  abbrev pub failure_text : ℕ → Str → Str → Str
  failure_text exit_code stdout stderr =
      if has_output stderr
      then stderr
      else if has_output stdout
      then stdout
      else codes "[Exit code: " ++ (decimal exit_code ++ codes "]")

  abbrev pub relay_failure : ℕ → Str → Str → Option Str → Relay
  relay_failure exit_code stdout stderr (some message) = record {
    text = if has_output stdout then stdout else message;
    is_error = false;
  }
  relay_failure exit_code stdout stderr none = record {
    text = failure_text exit_code stdout stderr;
    is_error = true;
  }

  unfoldable pub relay : ℕ → Str → Str → List Str → Relay
  unfolding benign_message
  relay exit_code stdout stderr argv =
      if exit_code == 0
      then record { text = stdout; is_error = false }
      else relay_failure exit_code stdout stderr (benign_message exit_code argv)

  abbrev pub note_at : Str → Str
  note_at text =
      text ++ (codes "\n[output truncated at " ++ (decimal (length text) ++ codes " bytes]"))

  abbrev pub noted : Str → Bool → Str
  noted text is_cut = if is_cut then note_at text else text

  abbrev pub control_truncated : ExecResponse → Str → Relay → Bool
  control_truncated reply stderr r =
      if r.is_error && has_output stderr then reply.stderr_truncated else reply.stdout_truncated

  abbrev pub text_result : ExecResponse → Str → Relay → CallToolResult
  text_result reply stderr r = record {
    content =
        text_block (
          noted (bound_content r.text) (
            control_truncated reply stderr r
            || ltb (length (bound_content r.text)) (length r.text)))
        ∷ [];
    is_error = r.is_error;
  }

  abbrev pub image_first : Option CallToolResult → CallToolResult → CallToolResult
  image_first none text = text
  image_first (some image) text = image

  abbrev pub project_streams : ExecResponse → List Str → Str → Str → CallToolResult
  project_streams reply argv stdout stderr =
      let text = text_result reply stderr (relay reply.exit_code stdout stderr argv) in
      if reply.exit_code == 0 && not reply.stdout_truncated
      then image_first (project_image_sentinel stdout) text
      else text

  abbrev pub with_streams :
      ExecResponse → List Str → Option Str → Option Str → Option CallToolResult
  with_streams reply argv none stderr = none
  with_streams reply argv (some stdout) none = none
  with_streams reply argv (some stdout) (some stderr) =
      some (project_streams reply argv stdout stderr)

  unfoldable pub project_call_tool_result : ExecResponse → List Str → Option CallToolResult
  unfolding relay project_image_sentinel bound
  project_call_tool_result reply argv =
      with_streams reply argv (decode reply.stdout_b64) (decode reply.stderr_b64)
