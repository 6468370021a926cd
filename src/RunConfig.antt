-- ===== src/RunConfig.antt =====
-- run_config_command of src/network_mcp/helpers.py behind the idempotency key: the checks of a request
-- in their order, the change request that follows it, and what the device's reply does to the breaker,
-- the cache and the change request. What the device and the bulkhead reply, the clock and the texts of
-- exceptions are arguments; the rates are positive, as config.py wants them, and a wait is a number.
-- Metrics, audit lines and telemetry are left out.
pub mod Checks
pub mod Run
pub mod Limited
pub mod Ends
pub mod Settled
pub mod Attempts
pub mod Invalidated
pub mod Examples
mod Tests
use network_mcp.Base.{ℕ, Bool, String, Option, List, Time}
use network_mcp.CircuitBreaker.Registry.{CircuitBreakerRegistry}
use network_mcp.RateLimiter.Limiters.{DeviceRateLimiter}
use network_mcp.RateLimiter.Tiers.{UserRateLimiter, TenantRateLimiter}
use network_mcp.CommandCache.{Payload, CommandCache}
use network_mcp.ChangeManagement.{ChangeManager, Ref}
use network_mcp.ChangeManagement.Windows.{Window}
use network_mcp.ChangeManagement.Marks.{Reply}
use network_mcp.ChangeManagement.Rollback.{RollbackResult}

-- Functions of Python's library: str.lower, str.splitlines, difflib.unified_diff, fnmatch.fnmatch,
-- and the match of HOST_PATTERN.
pub record Library : Type 0 where
  pub lower : String → String
  pub splitlines : String → List String
  pub unified_diff : List String → List String → List String
  pub fnmatch : String → String → Bool
  pub matches_host : String → Bool

-- the module-level objects of helpers.py that a command uses, and its settings
pub record Server (p : Payload) : Type 0 where
  pub net_read_only : Bool
  pub rate_limit_max_wait : Time
  pub cache_stale_if_error_ttl : ℕ
  pub manager : ChangeManager
  pub windows : List Window
  pub breakers : CircuitBreakerRegistry
  pub devices : DeviceRateLimiter
  pub users : UserRateLimiter
  pub tenants : TenantRateLimiter
  pub command_cache : CommandCache p

-- the request's context, as the middleware keeps it
pub record Context : Type 0 where
  pub current_user : Option String
  pub current_tenant : Option String
  pub scopes : List String
  pub tenant_devices : Option (List String)

pub record Request : Type 0 where
  pub host : String
  pub commands : List String
  pub action : String

-- How `with conn_mgr.acquire(host)` and `driver.run_config(commands)`, with its retries, end. The text
-- of an exception is what sanitize_error_message makes of it.
pub data Execution : Type 0 where
  accepted : Execution
  connection_error : String → Execution
  command_error : String → Execution
  unexpected_error : String → Execution

-- What the world answers while the request runs.
pub record World : Type 0 where
  pub now : Time
  pub done : Time
  pub week_day : ℕ
  pub time_of_day : ℕ
  pub new_uuid : String
  pub jitter : Time
  pub late : ℕ → Time
  pub one_token : ℕ
  pub pre_config : Reply String
  pub slot : Reply (Unit {0})
  pub execution : Execution
  pub post_config : Reply String
  pub rollback_reply : Reply (Unit {0})
  pub rollback_show : Reply String

-- the result, with what its text names; `tool_error` is the exception
pub data Outcome : Type 0 where
  read_only_mode : Outcome
  tool_error : Outcome
  access_denied : Outcome
  config_rejected : String → Outcome
  outside_window : Ref → Outcome
  pending_approval : Ref → Outcome
  user_limited : Outcome
  tenant_limited : Outcome
  circuit_open : ℕ → Outcome
  rate_limited : Outcome
  out_of_slots : String → Outcome
  applied : Outcome
  applied_as : Ref → Outcome
  rolled_back_as : Ref → RollbackResult → Outcome
  failed_with : Execution → Outcome
