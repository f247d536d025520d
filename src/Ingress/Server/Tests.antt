-- ===== src/Ingress/Server/Tests.antt =====
-- A probe of a daemon, before and after its boot.
use ocu_mcp_gateway.Base.{
  ℕ, ◌≡◌, ◌≢◌, ◌↔◌, refl, List, [], ◌∷◌, Option, none, some, if◌then◌else◌, Str, codes, str_eq, ok,
  err, Any,
}
use ocu_mcp_gateway.Auth.{StaticKeySet}
use ocu_mcp_gateway.Boot.{Call, load_call, after}
use ocu_mcp_gateway.Boot.Readiness.{IsLoad}
use ocu_mcp_gateway.Ingress.Server.{
  ReadinessMux, new_readiness_mux, serve_mux, healthz_path, health_path, health_check_probe,
  probe_url, bad_status, serve, new_server, no_handler, server_closed,
}
use ocu_mcp_gateway.Ingress.Server.Health.{is_ready, status_of, probe_iff}
use ocu_mcp_gateway.Ingress.Fixtures.{env, post}
use ocu_mcp_gateway.Ingress.Handler.{serve_http}

abbrev keys : StaticKeySet
keys = record { records = []; deployment = codes "d" }

abbrev mux : ReadinessMux
mux = record { mcp = serve_http; ready = is_ready }

-- A load that succeeds, and nothing.
abbrev booted : List Call
booted = load_call (ok (some keys)) ∷ []

abbrev unbooted : List Call
unbooted = []

-- The daemon at an address, after some calls.
abbrev get_after : List Call → Str → Option ℕ
get_after cs url =
    if str_eq url (probe_url (codes "h:1"))
    then status_of (serve_mux mux (after cs) healthz_path env post)
    else none

unready : health_check_probe (get_after unbooted) (codes "h:1") ≡ err (bad_status 503)
unfolding health_check_probe serve_mux after codes str_eq
unready = refl

alive : status_of (serve_mux mux (after unbooted) health_path env post) ≡ some 200
unfolding serve_mux codes str_eq
alive = refl

unhandled : serve (new_server (some (codes "h:1")) none) server_closed ≡ err no_handler
unfolding serve
unhandled = refl

probe_iff_example :
    (health_check_probe (get_after booted) (codes "h:1") ≡ ok tt)
    ↔ ((codes "h:1" ≢ []) × Any IsLoad booted)
unfolding codes str_eq new_readiness_mux
probe_iff_example =
    probe_iff booted serve_http mux env post (get_after booted) (codes "h:1") refl refl
