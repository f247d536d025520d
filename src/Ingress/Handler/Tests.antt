-- ===== src/Ingress/Handler/Tests.antt =====
-- A request through internal/ingress/handler.go, and the properties at it.
use ocu_mcp_gateway.Base.{
  ◌≢◌, none, ◌≡◌, refl, inl, inr, true, [], ◌∷◌, some, codes, any, str_eq, has_prefix, lookup,
}
use ocu_mcp_gateway.Authz.Policy.{decide, profile_for}
use ocu_mcp_gateway.Ingress.Response.{Response, rpc_error, invalid_params}
use ocu_mcp_gateway.Projection.{project}
use ocu_mcp_gateway.Ingress.Readers.{
  collect, fold_name, from_params, gather, insert_all, values_of, method_from, id_from,
  tool_name_from, tool_arguments_from, tool_call_from,
}
use ocu_mcp_gateway.Ingress.Exchange.{Env, acquired, released, responded, bounded_resource}
use ocu_mcp_gateway.Ingress.Handler.{
  serve_http, admit, dispatch, authorize, serialize, serve_turn, acknowledge,
}
use ocu_mcp_gateway.Ingress.Fixtures.{agent, shown, env, post, asked, before, after, served}
use ocu_mcp_gateway.Ingress.Handler.Correlated.{error_id}
use ocu_mcp_gateway.Ingress.Handler.Single.{IsSettled, serve_http-IsSettled}
use ocu_mcp_gateway.Ingress.Handler.Guards.{Permitted, forwarded-IsPermitted}
use ocu_mcp_gateway.Ingress.Handler.Acknowledged.{is_success_record, result_recorded}

serve_http-IsSettled_example : IsSettled (serve_http env post)
serve_http-IsSettled_example = serve_http-IsSettled env post

forwarded-IsPermitted_example : Permitted env post asked
unfolding method_from id_from tool_name_from tool_arguments_from tool_call_from collect fold_name
    from_params gather insert_all values_of project serve_http admit dispatch authorize serialize
    serve_turn acknowledge bounded_resource decide profile_for lookup codes str_eq has_prefix
forwarded-IsPermitted_example = forwarded-IsPermitted env post asked (inr (inr (inl refl)))

result_recorded_example : any (is_success_record (codes "s") (codes "k")) before ≡ true
result_recorded_example =
    result_recorded env post agent before after (some (codes "7")) (codes "s") shown refl served

-- No tool is advertised.
abbrev unserved : Env
unserved = record env { advertised = [] }

abbrev unimplemented : Response
unimplemented = rpc_error 200 invalid_params (codes "unimplemented tool") (some (codes "7"))

refused :
    serve_http unserved post
    ≡ acquired (codes "k") ∷ responded unimplemented ∷ released (codes "k") ∷ []
unfolding method_from id_from tool_name_from collect fold_name from_params serve_http admit dispatch
    authorize codes str_eq has_prefix
refused = refl

error_id_example : some (codes "7") ≢ none
error_id_example =
    error_id unserved post (acquired (codes "k") ∷ []) (released (codes "k") ∷ []) 200
      invalid_params (codes "unimplemented tool") (some (codes "7")) refused refl
