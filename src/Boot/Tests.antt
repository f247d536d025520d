-- ===== src/Boot/Tests.antt =====
-- Runs of internal/boot, and the properties at concrete calls.
use ocu_mcp_gateway.Base.{List, [], ◌∷◌, some, ok, err, ◌≡◌, ◌↔◌, refl, codes}
use ocu_mcp_gateway.Auth.{StaticKeySet}
use ocu_mcp_gateway.Boot.{Call, load_call, refresh_call, load, refresh, step, after, key_set}
use ocu_mcp_gateway.Boot.Readiness.{LastGood, served_iff}

abbrev keys : StaticKeySet
keys = record { records = []; deployment = codes "d" }

-- A load, then a refresh that fails.
abbrev calls : List Call
calls = refresh_call (err tt) ∷ load_call (ok (some keys)) ∷ []

kept : key_set (after calls) ≡ ok keys
unfolding key_set after step load refresh
kept = refl

served_iff_example : (key_set (after calls) ≡ ok keys) ↔ LastGood calls keys
served_iff_example = served_iff calls keys
