-- ===== src/RunShow/AfterChange.antt =====
-- A show command after a change of its device.
use network_mcp.Base.{Option, none, some}
use network_mcp.Dict
use network_mcp.CommandCache.{Payload, CommandCache}
use network_mcp.RunConfig.Invalidated.{Invalidated}
use network_mcp.RunShow.{
  Answer, invalid_host, outside_tenant, cached, served_stale, caller_limited, circuit_is_open,
  device_limited, no_slot, fetched, failed,
}
use network_mcp.RunShow.Run.{Shown}
use network_mcp.RunShow.Steps.{Justified}

module _ {p : Payload} where
  -- The answer has no data of the cache.
  abbrev pub IsUncached : Answer p → Type 0
  IsUncached (cached r) = ⊥
  IsUncached (served_stale r) = ⊥
  IsUncached invalid_host = Unit
  IsUncached outside_tenant = Unit
  IsUncached (caller_limited e) = Unit
  IsUncached (circuit_is_open n) = Unit
  IsUncached device_limited = Unit
  IsUncached (no_slot e) = Unit
  IsUncached (fetched v) = Unit
  IsUncached (failed f) = Unit

  -- The request returns such an answer.
  abbrev pub Uncached : Option (Shown p) → Type 0
  Uncached none = ⊥
  Uncached (some (s, a, asked)) = IsUncached a
