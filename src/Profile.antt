-- ===== src/Profile.antt =====
-- internal/profile: the constraint profile, and the validator over it. The JSON decoder and the
-- compiled schemas are parameters: a raw message decodes to a document, to a map of raw members,
-- to a string, or to the members `name` and `arguments` of call parameters.
pub mod Requests
mod Tests
use ocu_mcp_gateway.Base.{
  ℕ, ℤ, pos, leb_ℤ, add_int, Bool, true, false, not, ◌&&◌, ◌||◌, ◌==◌, ltb, List, [], ◌∷◌, Option,
  none, some, if◌then◌else◌, Str, codes, str_eq, is_empty, length, Map, lookup, has_key, Result, ok,
  err, refuse_if, ◌>>=◌, ◌>>◌,
}

pub data Kind : Type 0 where
  invalid call_tool_request call_tool_result tool error initialize_result : Kind

pub data Reason : Type 0 where
  unknown base_schema profile_schema over_size batching method_not_found : Reason

pub record Deny : Type 0 where
  pub kind : Kind
  pub reason : Reason

pub record Limits : Type 0 where
  pub max_error_message_bytes : ℤ
  pub max_error_data_bytes : ℤ
  pub max_tool_description_bytes : ℤ
  pub max_instructions_bytes : ℤ
  pub max_call_tool_result_bytes : ℤ
  pub max_content_blocks : ℤ
  pub max_tool_arguments_bytes : ℤ

abbrev pub default_limits : Limits
default_limits = record {
  max_error_message_bytes = pos 1024;
  max_error_data_bytes = pos 4096;
  max_tool_description_bytes = pos 8192;
  max_instructions_bytes = pos 8192;
  max_call_tool_result_bytes = pos 1048576;
  max_content_blocks = pos 256;
  max_tool_arguments_bytes = pos 262144;
}

pub record CallParams : Type 0 where
  pub name : Option Str
  pub arguments : Str

pub record Decoding : Type 1 where
  pub Doc : Type 0
  pub document : Str → Option Doc
  pub members : Str → Option (Map Str)
  pub string : Str → Option Str
  pub call_params : Str → Option CallParams
  pub single_message : Doc → Bool
  pub def_schema : Str → Option (Doc → Bool)

abbrev pub def_name : Kind → Str
def_name call_tool_result = codes "boundedCallToolResult"
def_name tool = codes "boundedTool"
def_name error = codes "boundedError"
def_name initialize_result = codes "boundedInitializeResult"
def_name call_tool_request = []
def_name invalid = []

-- The two errors of the base pass.
pub data BaseError : Type 0 where
  base_malformed method_unknown : BaseError

abbrev pub or_malformed {ℓ} : {A : Type ℓ} → Option A → Result BaseError A
or_malformed none = err base_malformed
or_malformed (some a) = ok a

abbrev pub is_space : ℕ → Bool
is_space c = c == 32 || c == 9 || c == 13 || c == 10

unfoldable pub trim_leading_space : Str → Str
trim_leading_space [] = []
trim_leading_space (c ∷ s) = let rest = trim_leading_space s in if is_space c then rest else c ∷ s

abbrev pub starts_with : ℕ → Str → Bool
starts_with c [] = false
starts_with c (d ∷ s) = d == c

abbrev pub is_named : Option Str → Bool
is_named none = false
is_named (some name) = not (is_empty name)

abbrev pub are_arguments : Str → Bool
are_arguments arguments = is_empty arguments || starts_with b'{' (trim_leading_space arguments)

module _ (d : Decoding) where
  unfoldable pub validate_call_tool_params : Str → Result BaseError (Unit {0})
  unfolding trim_leading_space
  validate_call_tool_params raw = do
    p ← or_malformed (d.call_params raw)
    refuse_if (not (is_named p.name)) base_malformed
    refuse_if (not (are_arguments p.arguments)) base_malformed

  unfoldable pub require_jsonrpc_marker : Map Str → Result BaseError (Unit {0})
  require_jsonrpc_marker doc = do
    raw ← or_malformed (lookup (codes "jsonrpc") doc)
    version ← or_malformed (d.string raw)
    refuse_if (not (str_eq version (codes "2.0"))) base_malformed

  unfoldable pub require_allowed_method : Map Str → Result BaseError (Unit {0})
  require_allowed_method doc = do
    raw ← or_malformed (lookup (codes "method") doc)
    method ← or_malformed (d.string raw)
    refuse_if (not (str_eq method (codes "tools/call"))) method_unknown

  abbrev pub require_member : Str → Map Str → Result BaseError (Unit {0})
  require_member key doc = refuse_if (not (has_key key doc)) base_malformed

  unfoldable pub validate_members : Kind → Map Str → Result BaseError (Unit {0})
  unfolding validate_call_tool_params require_jsonrpc_marker require_allowed_method
  validate_members call_tool_request doc = do
    require_jsonrpc_marker doc
    require_allowed_method doc
    params ← or_malformed (lookup (codes "params") doc)
    validate_call_tool_params params
  validate_members error doc = do
    require_member (codes "code") doc
    require_member (codes "message") doc
  validate_members call_tool_result doc = require_member (codes "content") doc
  validate_members initialize_result doc = require_member (codes "protocolVersion") doc
  validate_members tool doc = require_member (codes "name") doc
  validate_members invalid doc = ok tt

  unfoldable pub validate_base : Kind → Str → Result BaseError (Unit {0})
  unfolding validate_members
  validate_base kind raw = do doc ← or_malformed (d.members raw); validate_members kind doc

  abbrev pub size_ceiling : Limits → Kind → ℤ
  size_ceiling l call_tool_request = l.max_tool_arguments_bytes
  size_ceiling l call_tool_result = l.max_call_tool_result_bytes
  size_ceiling l error = add_int l.max_error_message_bytes l.max_error_data_bytes
  size_ceiling l initialize_result = l.max_instructions_bytes
  size_ceiling l tool = l.max_tool_description_bytes
  size_ceiling l invalid = pos 0

  unfoldable pub enforce_size : Limits → Kind → Str → Result Deny (Unit {0})
  enforce_size l kind raw =
      refuse_if
        (not (leb_ℤ (size_ceiling l kind) (pos 0))
          && not (leb_ℤ (pos (length raw)) (size_ceiling l kind)))
        (record { kind = kind; reason = over_size })

  abbrev pub denied_base : Kind → Result BaseError (Unit {0}) → Result Deny (Unit {0})
  denied_base kind (ok u) = ok u
  denied_base kind (err base_malformed) = err (record { kind = kind; reason = base_schema })
  denied_base kind (err method_unknown) = err (record { kind = kind; reason = method_not_found })

  abbrev pub check_schema : Kind → Option (d.Doc → Bool) → Option d.Doc → Result Deny (Unit {0})
  check_schema kind none doc = err (record { kind = kind; reason = profile_schema })
  check_schema kind (some schema) none = err (record { kind = kind; reason = base_schema })
  check_schema kind (some schema) (some doc) =
      refuse_if (not (schema doc)) (record { kind = kind; reason = profile_schema })

  abbrev pub check_def : Kind → Str → Result Deny (Unit {0})
  check_def kind raw =
      if is_empty (def_name kind)
      then ok tt
      else check_schema kind (d.def_schema (def_name kind)) (d.document raw)

  abbrev pub is_invalid : Kind → Bool
  is_invalid invalid = true
  is_invalid _ = false

  unfoldable pub validate : Limits → Kind → Str → Result Deny (Unit {0})
  unfolding validate_base enforce_size
  validate l kind raw = do
    refuse_if (is_invalid kind) (record { kind = invalid; reason = profile_schema })
    enforce_size l kind raw
    denied_base kind (validate_base kind raw)
    check_def kind raw

  abbrev pub check_single : Option d.Doc → Result Deny (Unit {0})
  check_single none = err (record { kind = invalid; reason = base_schema })
  check_single (some doc) =
      refuse_if (not (d.single_message doc)) (record { kind = invalid; reason = batching })

  unfoldable pub validate_single_message_envelope : Str → Result Deny (Unit {0})
  unfolding trim_leading_space
  validate_single_message_envelope raw = do
    refuse_if (starts_with b'[' (trim_leading_space raw))
        (record { kind = invalid; reason = batching })
    check_single (d.document raw)
