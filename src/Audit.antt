-- ===== src/Audit.antt =====
-- internal/audit/envelope.go, internal/audit/ocsf.go and internal/audit/authn.go: the audit
-- records, their validation and the OCSF objects made of them. Lengths are in bytes.
pub mod Emitter
pub mod Sequence
pub mod Stamps
pub mod FileSink
pub mod BusSink
mod Tests
use ocu_mcp_gateway.Base.{
  ℕ, Bool, true, false, not, ◌&&◌, ◌||◌, List, [], ◌∷◌, if◌then◌else◌, ltb, length, is_empty, Str,
  codes, has_prefix, Result, ok, err, refuse_if, ◌>>=◌, ◌>>◌, Json, num, str, obj, Fields, end,
  field,
}

pub data Outcome : Type 0 where
  success failure unknown : Outcome
  unlisted : Str → Outcome

abbrev pub is_valid : Outcome → Bool
is_valid success = true
is_valid failure = true
is_valid unknown = true
is_valid (unlisted s) = false

pub record Envelope : Type 0 where
  pub trace_id : Str
  pub session_id : Str
  pub actor_id : Str
  pub resource : Str
  pub action : Str
  pub outcome : Outcome
  pub sequence : ℕ

-- The parts of ErrInvalidEnvelope, by what the message names.
pub data Invalid : Type 0 where
  trace_id_invalid session_id_invalid actor_id_invalid resource_invalid action_invalid : Invalid
  outcome_invalid unnamed_logon key_material : Invalid

-- `s == "" || len(s) > max`.
abbrev pub is_out_of_bounds : ℕ → Str → Bool
is_out_of_bounds most s = is_empty s || ltb most (length s)

unfoldable pub validate : Envelope → Result Invalid (Unit {0})
validate e = do
  refuse_if (is_out_of_bounds 128 e.trace_id) trace_id_invalid
  refuse_if (is_out_of_bounds 128 e.session_id) session_id_invalid
  refuse_if (is_out_of_bounds 256 e.actor_id) actor_id_invalid
  refuse_if (is_out_of_bounds 1024 e.resource) resource_invalid
  refuse_if (is_out_of_bounds 128 e.action) action_invalid
  refuse_if (not (is_valid e.outcome)) outcome_invalid

abbrev pub status_id : Outcome → ℕ
status_id success = 1
status_id failure = 2
status_id unknown = 99
status_id (unlisted s) = 99

abbrev pub ocsf_version : Str
ocsf_version = codes "1.5.0"

abbrev pub product : Json
product = obj (
    field (codes "name") (str (codes "ocu-mcp-gateway"))
      (field (codes "vendor") (str (codes "Open Computer Use")) end))

abbrev pub metadata : ℕ → Str → Json
metadata sequence trace_id = obj (
    field (codes "version") (str ocsf_version) (
      field (codes "sequence") (num sequence)
        (field (codes "correlation_uid") (str trace_id) (field (codes "product") product end))))

unfoldable pub to_api_activity : Envelope → Json
to_api_activity e = obj (
    field (codes "class_uid") (num 6003) (
      field (codes "category_uid") (num 6) (
        field (codes "activity_id") (num 1) (
          field (codes "status_id") (num (status_id e.outcome)) (
            field (codes "actor")
              (obj (field (codes "user") (obj (field (codes "uid") (str e.actor_id) end)) end))
              (field (codes "api")
                (obj (
                  field (codes "operation") (str e.action)
                    (field (codes "resource") (str e.resource) end)))
                (field (codes "metadata") (metadata e.sequence e.trace_id)
                  (field (codes "session_uid") (str e.session_id) end))))))))

pub record AuthnEnvelope : Type 0 where
  pub trace_id : Str
  pub conn_id : Str
  pub actor_id : Str
  pub outcome : Outcome
  pub failure_detail : Str
  pub sequence : ℕ

-- `strings.Contains`.
unfoldable pub contains : Str → Str → Bool
contains [] part = has_prefix [] part
contains (c ∷ s) part = has_prefix (c ∷ s) part || contains s part

abbrev pub key_prefix : Str
key_prefix = codes "sk-ocu-"

abbrev pub is_success : Outcome → Bool
is_success success = true
is_success _ = false

unfoldable pub validate_authn : AuthnEnvelope → Result Invalid (Unit {0})
validate_authn e = do
  refuse_if (not (is_valid e.outcome)) outcome_invalid
  refuse_if (is_success e.outcome && is_empty e.actor_id) unnamed_logon
  refuse_if (contains e.failure_detail key_prefix) key_material

-- `if s != "" { obj[key] = v }`.
abbrev pub field_if : Str → Str → Json → Fields → Fields
field_if s key v fields = if is_empty s then fields else field key v fields

unfoldable pub to_authentication : AuthnEnvelope → Result Invalid Json
unfolding validate_authn
to_authentication e = do
  validate_authn e
  ok (
      obj (
        field (codes "class_uid") (num 3002) (
          field (codes "category_uid") (num 3) (
            field (codes "activity_id") (num 1) (
              field (codes "status_id") (num (status_id e.outcome)) (
                field (codes "auth_protocol") (str (codes "ocu-api-key")) (
                  field (codes "user") (obj (field (codes "uid") (str e.actor_id) end)) (
                    field (codes "service")
                      (obj (field (codes "name") (str (codes "ocu-mcp-gateway")) end))
                      (field (codes "metadata") (metadata e.sequence e.trace_id) (
                        field_if e.failure_detail (codes "status_detail") (str e.failure_detail) (
                          field_if e.conn_id (codes "session")
                            (obj (field (codes "uid") (str e.conn_id) end)) end)))))))))))
