-- ===== src/Daemon/Tests.antt =====
-- Options that are refused, and the properties at a daemon.
use ocu_mcp_gateway.Base.{◌*◌, ◌≡◌, refl, List, [], ◌∷◌, codes, str_eq, has_prefix, pos, ok, err}
use ocu_mcp_gateway.Auth.{caller_of, authenticate, resolve, scan, matches, hash_bearer}
use ocu_mcp_gateway.Auth.Hex.{decode_string}
use ocu_mcp_gateway.Boot.{Loaded, refresh, live_key_set}
use ocu_mcp_gateway.Daemon.{check_options, bad_interval, partial_mtls, run_refresh_loop}
use ocu_mcp_gateway.Options.{minute}
use ocu_mcp_gateway.Daemon.Fixtures.{sum, checksum, minted, host, options, daemon, serving}
use ocu_mcp_gateway.Daemon.Serving.{IsServing, serve-IsServing}

-- A refresh every five minutes would be too seldom.
seldom : check_options (record options { refresh_interval = pos (5 * minute) }) ≡ err bad_interval
unfolding check_options codes
seldom = refl

half_configured :
    check_options (record options { control_url = codes "https://c"; control_ca = codes "/ca" })
    ≡ err partial_mtls
unfolding check_options codes
half_configured = refl

serve-IsServing_example : IsServing host options daemon
serve-IsServing_example = serve-IsServing host options daemon serving

-- A refresh that failed, after which the key still authenticates.
abbrev ticks : List Loaded
ticks = err tt ∷ []

authenticated :
    authenticate checksum
      (live_key_set (run_refresh_loop ticks daemon.sequencer))
      5
      (codes "sk-ocu-7")
    ≡ ok (caller_of minted)
unfolding authenticate resolve matches scan hash_bearer sum codes decode_string has_prefix str_eq
    run_refresh_loop refresh
authenticated = refl
