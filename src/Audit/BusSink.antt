-- ===== src/Audit/BusSink.antt =====
-- internal/audit/bus.go: the sink of a bus whose transport is not there.
use ocu_mcp_gateway.Base.{Str, is_empty, if◌then◌else◌}

pub record BusSink : Type 0 where
  pub endpoint : Str

abbrev pub new_bus_sink : Str → BusSink
new_bus_sink endpoint = record { endpoint = endpoint }

pub data BusError : Type 0 where
  no_endpoint not_wired : BusError

-- The error of a publish of a payload to a channel.
unfoldable pub publish : BusSink → Str → Str → BusError
publish s channel payload = if is_empty s.endpoint then no_endpoint else not_wired
