-- ===== src/Gateway/Trail/Durable.antt =====
-- internal/ingress/handler.go, internal/audit/emitter.go and internal/audit/filesink.go together: what
-- the file holds when a tool result is answered.
use ocu_mcp_gateway.Base.{◌≡◌, refl, Bool, true, false, Option, none, some, if◌then◌else◌}
use ocu_mcp_gateway.Gateway.Trail.{Trail}

pub if_some {ℓ} :
    {A : Type ℓ} (b : Bool) (o : Option A) {a : A}
    → (if b then o else none) ≡ some a
    → (b ≡ true) × (o ≡ some a)
if_some true o h = (refl, h)
if_some false o h = absurd (cc)
