-- ===== src/Ingress/Body/Tests.antt =====
-- Bodies of responses.
use ocu_mcp_gateway.Base.{refl, ◌≡◌, none, some, codes, [], negsuc, obj, field, end, str, int, raw}
use ocu_mcp_gateway.Ingress.Response.{rpc_error, write_rpc_error, invalid_params}
use ocu_mcp_gateway.Ingress.Body.{body, http_status}

-- An error with an id, and one without: the member is left out, not null.
with_member :
    body [] (rpc_error 200 invalid_params (codes "m") (some (codes "7")))
    ≡ some (
        obj (
          field (codes "jsonrpc") (str (codes "2.0")) (
            field (codes "id") (raw (codes "7")) (
              field
                (codes "error")
                (obj (
                  field
                    (codes "code")
                    (int (negsuc 32601))
                    (field (codes "message") (str (codes "m")) end)))
                end))))
unfolding body codes
with_member = refl

without_member :
    body [] (rpc_error 400 invalid_params (codes "m") none)
    ≡ some (
        obj (
          field (codes "jsonrpc") (str (codes "2.0")) (
            field
              (codes "error")
              (obj (
                field
                  (codes "code")
                  (int (negsuc 32601))
                  (field (codes "message") (str (codes "m")) end)))
              end)))
unfolding body
without_member = refl

coerced : http_status (write_rpc_error 200 invalid_params []) ≡ 500
unfolding write_rpc_error
coerced = refl
