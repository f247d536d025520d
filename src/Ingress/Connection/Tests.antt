-- ===== src/Ingress/Connection/Tests.antt =====
-- Two requests of one connection.
use ocu_mcp_gateway.Base.{◌+◌, ◌≡◌, refl, false, List, [], ◌∷◌, str_eq, codes}
use ocu_mcp_gateway.Ingress.Exchange.{Env, Request}
use ocu_mcp_gateway.Ingress.Fixtures.{env, post}
use ocu_mcp_gateway.Ingress.Handler.{serve_http, admit}
use ocu_mcp_gateway.Ingress.Connection.{serve_connection}
use ocu_mcp_gateway.Ingress.Connection.Logon.{logons, bit, logons_latched}

-- No slot is left for the caller, so that a request ends with its logon.
abbrev crowded : Env
crowded = record env { ceiling = λ key. false }

-- The trail refuses the logon.
abbrev untrailed : Env
untrailed = record crowded { emit_authn = λ e. false }

abbrev requests : List (Env × Request)
requests = (untrailed, post) ∷ (crowded, post) ∷ (crowded, post) ∷ []

-- The refused logon leaves the latch to the second request, which takes it.
one_logon : logons (serve_connection false requests).0 ≡ 1
unfolding serve_connection logons serve_http admit codes str_eq
one_logon = refl

logons_latched_example :
    logons (serve_connection false requests).0 + bit false ≡ bit (serve_connection false requests).1
logons_latched_example = logons_latched false requests
