-- ===== src/RunShow.antt =====
-- run_show_command of src/network_mcp/helpers.py: the checks of a request in their order, the cache, and
-- what the device's reply does to the breaker and the cache. It shares the server and its checks with
-- RunConfig. The value of a reply is what the output limit and the sanitizer make of it; a request id
-- that is attached to a result, metrics, audit lines and telemetry are left out.
pub mod Run
pub mod Sources
pub mod Ends
pub mod Steps
pub mod Justified
pub mod AfterChange
mod Tests
use network_mcp.Base.{
  ℕ, Bool, true, false, String, Option, none, some, List, [], ◌∷◌, if◌then◌else◌, Time,
}
use network_mcp.Base.Text.{strip, is_some, drop_prefix}
use network_mcp.CommandCache
use network_mcp.CommandCache.{Payload, CacheKey}
use network_mcp.RunConfig.{Library, World, Outcome}

-- A negative ttl bypasses the cache as 0 does, and no ttl is the default one.
pub record ShowRequest : Type 0 where
  pub host : String
  pub commands : List String
  pub encoding : String
  pub cache_ttl : Option ℕ

-- How `with conn_mgr.acquire(host)` and `driver.run_show(commands)`, with its retries, end. The text of
-- an exception is what sanitize_error_message makes of it.
pub data Fetch (p : Payload) : Type 0 where
  returned : p.Value → Fetch p
  connection_error : String → Fetch p
  command_error : String → Fetch p
  unexpected_error : String → Fetch p

-- What the world answers: `later` is the clock when the cache reads it a second time.
pub record ShowWorld (p : Payload) : Type 0 where
  pub world : World
  pub later : Time
  pub fetch : Fetch p

-- the result, with what it says; `invalid_host` is the exception ToolError
pub data Answer (p : Payload) : Type 0 where
  invalid_host : Answer p
  outside_tenant : Answer p
  cached : CommandCache.Reply p → Answer p
  served_stale : CommandCache.Reply p → Answer p
  caller_limited : Outcome → Answer p
  circuit_is_open : ℕ → Answer p
  device_limited : Answer p
  no_slot : String → Answer p
  fetched : p.Value → Answer p
  failed : Fetch p → Answer p

-- _DEFAULT_TTLS and _FALLBACK_TTL of cache.py
abbrev pub default_ttls : List (String × ℕ)
default_ttls =
    ("show version", 300)
    ∷ ("show inventory", 300)
    ∷ ("show processes top", 0)
    ∷ ("show interfaces status", 30)
    ∷ ("show ip bgp summary", 15)
    ∷ ("show running-config", 60)
    ∷ []

abbrev pub fallback_ttl : ℕ
fallback_ttl = 30

unfoldable pub first_match : String → List (String × ℕ) → ℕ
first_match first_cmd [] = fallback_ttl
first_match first_cmd ((pattern, ttl) ∷ rest) =
    let later = first_match first_cmd rest in
    if is_some (drop_prefix pattern first_cmd) then ttl else later

unfoldable pub get_default_ttl : Library → List String → ℕ
unfolding first_match
get_default_ttl py [] = 0
get_default_ttl py (cmd ∷ cmds) = first_match (strip (py.lower cmd)) default_ttls

unfoldable pub ttl_or_default : ℕ → Option ℕ → ℕ
ttl_or_default default none = default
ttl_or_default default (some ttl) = ttl

-- effective_ttl
unfoldable pub effective_ttl : Library → ShowRequest → ℕ
unfolding ttl_or_default get_default_ttl
effective_ttl py request = ttl_or_default (get_default_ttl py request.commands) request.cache_ttl

-- _make_key
unfoldable pub make_key : ShowRequest → CacheKey
make_key request = record {
  host = request.host;
  commands = request.commands;
  encoding = request.encoding;
}
