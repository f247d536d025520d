-- ===== src/Ingress/Body.antt =====
-- internal/ingress/response.go and handshake.go, and the result types of internal/forward/http.go:
-- the status and the JSON body of a response. The embedded tools_list.json is an argument.
mod Tests
use ocu_mcp_gateway.Base.{
  ℕ, Bool, true, false, List, [], ◌∷◌, Option, none, some, Str, codes, ℤ, Json, null, bool, int,
  str, arr, obj, raw, Items, nil, cons, Fields, end, field, length,
}
use ocu_mcp_gateway.Forward.Results.{CallToolResult, ContentBlock, text_block, image_block}
use ocu_mcp_gateway.Ingress.Exchange.{pinned_protocol_version}
use ocu_mcp_gateway.Ingress.Response.{
  Response, rpc_error, initialize_result, tools_list, tool_result, accepted,
}

abbrev pub http_status : Response → ℕ
http_status (rpc_error status code reason id) = status
http_status (initialize_result id) = 200
http_status (tools_list id) = 200
http_status (tool_result id correlation r) = 200
http_status accepted = 202

abbrev pub content_block : ContentBlock → Json
content_block (text_block text) =
    obj (field (codes "type") (str (codes "text")) (field (codes "text") (str text) end))
content_block (image_block url) = obj (
    field (codes "type") (str (codes "image_url")) (
      field (codes "text") (str [])
        (field (codes "image_url") (obj (field (codes "url") (str url) end)) end)))

unfoldable pub content_blocks : List ContentBlock → Items
content_blocks [] = nil
content_blocks (b ∷ bs) = cons (content_block b) (content_blocks bs)

unfoldable pub call_tool_result : CallToolResult → Json
unfolding content_blocks
call_tool_result r = obj (
    field (codes "content") (arr (content_blocks r.content))
      (field (codes "isError") (bool r.is_error) end))

abbrev pub initialize_json : Json
initialize_json = obj (
    field (codes "protocolVersion") (str pinned_protocol_version) (
      field (codes "capabilities")
        (obj (field (codes "tools") (obj (field (codes "listChanged") (bool false) end)) end))
        (field (codes "serverInfo")
          (obj (
            field (codes "name") (str (codes "computer-use-mcp"))
              (field (codes "version") (str (codes "1.0.0")) end)))
          end)))

-- The id of an error is left out where it is empty.
abbrev pub with_id : Option Str → Fields → Fields
with_id none rest = rest
with_id (some []) rest = rest
with_id (some (c ∷ s)) rest = field (codes "id") (raw (c ∷ s)) rest

-- That of a result is null there.
abbrev pub id_json : Option Str → Json
id_json none = null
id_json (some []) = null
id_json (some (c ∷ s)) = raw (c ∷ s)

abbrev pub error_body : ℤ → Str → Option Str → Json
error_body code reason id = obj (
    field (codes "jsonrpc") (str (codes "2.0")) (
      with_id id (
        field (codes "error")
          (obj (field (codes "code") (int code) (field (codes "message") (str reason) end))) end)))

abbrev pub result_body : Option Str → Json → Json
result_body id result = obj (
    field (codes "jsonrpc") (str (codes "2.0"))
      (field (codes "id") (id_json id) (field (codes "result") result end)))

-- The body, and none for a notification that is accepted.
unfoldable pub body : Str → Response → Option Json
unfolding call_tool_result
body tools (rpc_error status code reason id) = some (error_body code reason id)
body tools (initialize_result id) = some (result_body id initialize_json)
body tools (tools_list id) = some (result_body id (raw tools))
body tools (tool_result id correlation r) = some (result_body id (call_tool_result r))
body tools accepted = none
