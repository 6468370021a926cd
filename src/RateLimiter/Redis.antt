-- ===== src/RateLimiter/Redis.antt =====
-- src/network_mcp/distributed/redis_rate_limiter.py: a counter of requests in Redis for each host and
-- kind of command. The Redis client is not part of the repository: it is a parameter.
pub mod Window
mod Tests
use Prim.Native.String.{◌++◌}
use network_mcp.Base.{
  ◌≡◌, ◌≢◌, ℕ, ◌+◌, ◌≤◌, ◌<◌, Bool, true, false, String, Option, none, some, leb, ltb, ite,
  str_discrete, if◌then◌else◌, Time, seconds,
}

-- A Redis server with counters that expire. A call may raise, which is `none`; `Up` says that the
-- server answers. `count` is the value that a counter would show at a time, 0 if it is not there.
pub record RedisCounters : Type 1 where
  pub Store : Type 0
  pub Up : Store → Type 0
  pub count : Time → String → Store → ℕ
  -- pipeline: INCR key; EXPIRE key 1; and the result of INCR
  pub incr_expire : Time → String → Store → Option (Store × ℕ)
  -- TTL key in whole seconds, 0 for a key without one
  pub ttl : Time → String → Store → Option ℕ
  pub delete : String → Store → Option Store
  pub incr_up :
      (now : Time) (key : String) (s : Store)
      → Up s
      → (s' : Store) × (incr_expire now key s ≡ some (s', count now key s + 1)) × Up s'
  pub count_within :
      (now later : Time) (key : String) (s s' : Store) (n : ℕ)
      → incr_expire now key s ≡ some (s', n)
      → now ≤ later
      → later < now + seconds 1
      → count later key s' ≡ n
  pub count_after :
      (now later : Time) (key : String) (s s' : Store) (n : ℕ)
      → incr_expire now key s ≡ some (s', n)
      → now + seconds 1 ≤ later
      → count later key s' ≡ 0
  pub count_other :
      (now later : Time) (key j : String) (s s' : Store) (n : ℕ)
      → incr_expire now key s ≡ some (s', n)
      → key ≢ j
      → count later j s' ≡ count later j s

-- The bursts that the constructor takes are not read by any method.
pub record RedisRateLimiter : Type 0 where
  pub show_rate : ℕ
  pub show_burst : ℕ
  pub config_rate : ℕ
  pub config_burst : ℕ
  pub key_prefix : String

unfoldable pub key : RedisRateLimiter → String → String → String
key l host command_type = l.key_prefix ++ ":" ++ host ++ ":" ++ command_type

unfoldable pub rate_for : RedisRateLimiter → String → ℕ
rate_for l command_type =
    if ite (str_discrete command_type "show") true false then l.show_rate else l.config_rate

module _ (p : RedisCounters) where
  -- `count <= rate`, or the exception
  unfoldable pub within_rate : ℕ → Option (p.Store × ℕ) → Option (p.Store × Bool)
  within_rate rate none = none
  within_rate rate (some (s, n)) = some (s, leb n rate)

  unfoldable pub acquire_counter :
      Time → RedisRateLimiter → String → String → p.Store → Option (p.Store × Bool)
  unfolding within_rate key rate_for
  acquire_counter now l host command_type s =
      within_rate (rate_for l command_type) (p.incr_expire now (key l host command_type) s)

  -- The handler of the exception lets the request through.
  unfoldable pub or_open : p.Store → Option (p.Store × Bool) → p.Store × Bool
  or_open s none = (s, true)
  or_open s (some answer) = answer

  unfoldable pub check_show : Time → RedisRateLimiter → String → p.Store → p.Store × Bool
  unfolding or_open acquire_counter
  check_show now l host s = or_open s (acquire_counter now l host "show" s)

  unfoldable pub check_config : Time → RedisRateLimiter → String → p.Store → p.Store × Bool
  unfolding or_open acquire_counter
  check_config now l host s = or_open s (acquire_counter now l host "config" s)

  unfoldable pub wait_from : Option ℕ → ℕ
  wait_from none = 1
  wait_from (some ttl) = if ltb 0 ttl then ttl else 1

  unfoldable pub show_wait_time : Time → RedisRateLimiter → String → p.Store → ℕ
  unfolding wait_from key
  show_wait_time now l host s = wait_from (p.ttl now (key l host "show") s)

  unfoldable pub config_wait_time : Time → RedisRateLimiter → String → p.Store → ℕ
  unfolding wait_from key
  config_wait_time now l host s = wait_from (p.ttl now (key l host "config") s)

  unfoldable pub or_same : p.Store → Option p.Store → p.Store
  or_same s none = s
  or_same s (some s') = s'

  unfoldable pub delete_config : RedisRateLimiter → String → Option p.Store → Option p.Store
  unfolding key
  delete_config l host none = none
  delete_config l host (some s) = some (or_same s (p.delete (key l host "config") s))

  -- `reset` of one host; an exception ends it with what it has deleted until then
  unfoldable pub reset_host : RedisRateLimiter → String → p.Store → p.Store
  unfolding or_same delete_config key
  reset_host l host s = or_same s (delete_config l host (p.delete (key l host "show") s))
