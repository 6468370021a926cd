-- ===== src/RunShow/Run.antt =====
-- _run_show_command_inner and _run_show_with_bulkhead of src/network_mcp/helpers.py. Each function is the
-- rest of the request from one check on.
use network_mcp.Base.{
  ℕ, suc, Bool, true, false, not, ◌&&◌, ltb, String, Option, none, some, if◌then◌else◌, Time,
  length,
}
use network_mcp.CircuitBreaker.Registry
use network_mcp.RateLimiter.Limiters.{
  DeviceRateLimiter, check_show, check_show_with_backoff, show_wait_time,
}
use network_mcp.CommandCache
use network_mcp.CommandCache.{Payload, CommandCache, CacheKey, put}
use network_mcp.ChangeManagement.Marks.{Reply, replied, raised}
use network_mcp.RunConfig.{Library, Server, Context, World, Outcome}
use network_mcp.RunConfig.Checks.{
  validate_host, check_tenant_device_access, check_user_tenant_rate_limit,
}
use network_mcp.RunShow.{
  ShowRequest, Fetch, returned, connection_error, command_error, unexpected_error, ShowWorld,
  Answer, invalid_host, outside_tenant, cached, served_stale, caller_limited, circuit_is_open,
  device_limited, no_slot, fetched, failed, effective_ttl, make_key,
}

-- the result, and whether the device was asked
abbrev pub Shown : Payload → Type 0
Shown p = Server p × Answer p × Bool

module _ {p : Payload} where
  unfoldable pub stale_or :
      Answer p → Bool → Server p → CommandCache p × Option (CommandCache.Reply p) → Shown p
  stale_or error asked s (c, none) = (record s { command_cache = c }, error, asked)
  stale_or error asked s (c, some r) = (record s { command_cache = c }, served_stale r, asked)

  -- the stale cache before an error is returned
  unfoldable pub try_stale :
      ShowWorld p → Time → CacheKey → ℕ → Answer p → Bool → Server p → Shown p
  unfolding stale_or
  try_stale w now key ttl error asked s =
      let stale_ttl = s.cache_stale_if_error_ttl in
      let found = CommandCache.get p key true stale_ttl now w.later s.command_cache in
      if ltb 0 ttl && ltb 0 stale_ttl then stale_or error asked s found else (s, error, asked)

  -- none is a `put` that does not end
  unfoldable pub after_put :
      String → p.Value → Server p → Option (CommandCache p) → Option (Shown p)
  after_put host v s none = none
  after_put host v s (some c) = some (
    record s { command_cache = c; breakers = Registry.record_success host s.breakers },
    fetched v,
    true,
  )

  -- `put` with one round more than there are entries
  unfoldable pub populate : Time → CacheKey → ℕ → p.Value → Server p → Option (CommandCache p)
  populate now key ttl v s =
      if ltb 0 ttl
      then put p (suc (length s.command_cache.entries)) key v ttl now s.command_cache
      else some s.command_cache

  -- `_run_show_with_bulkhead`
  unfoldable pub show_with_bulkhead :
      ShowWorld p → CacheKey → ℕ → Server p → Fetch p → Option (Shown p)
  unfolding try_stale after_put populate
  show_with_bulkhead w key ttl s (returned v) =
      after_put key.host v s (populate w.world.done key ttl v s)
  show_with_bulkhead w key ttl s (connection_error e) = some (
      try_stale w w.world.done key ttl (failed (connection_error e)) true
        (record s { breakers = Registry.record_failure w.world.done key.host s.breakers }))
  show_with_bulkhead w key ttl s (command_error e) = some (
    record s { breakers = Registry.record_success key.host s.breakers },
    failed (command_error e),
    true,
  )
  show_with_bulkhead w key ttl s (unexpected_error e) = some (
      try_stale w w.world.done key ttl (failed (unexpected_error e)) true
        (record s { breakers = Registry.record_failure w.world.done key.host s.breakers }))

  unfoldable pub take_show_slot :
      ShowWorld p → CacheKey → ℕ → Server p → Reply (Unit {0}) → Option (Shown p)
  unfolding show_with_bulkhead
  take_show_slot w key ttl s (raised error) = some (s, no_slot error, false)
  take_show_slot w key ttl s (replied _) = show_with_bulkhead w key ttl s w.fetch

  -- after the check of the device's own rate limit; none is a backoff that ran out of fuel
  unfoldable pub limit_show :
      ShowWorld p → CacheKey → ℕ → Server p → Option (DeviceRateLimiter × Bool) → Option (Shown p)
  unfolding take_show_slot
  limit_show w key ttl s none = none
  limit_show w key ttl s (some (devices', got)) =
      let (devices'', wait) =
        show_wait_time w.world.one_token w.world.jitter w.world.done key.host devices' in
      if got
      then take_show_slot w key ttl (record s { devices = devices' }) w.world.slot
      else some (record s { devices = devices'' }, device_limited, false)

  -- The fuel of a backoff is one above its longest wait.
  unfoldable pub check_show_limit : World → String → Server p → Option (DeviceRateLimiter × Bool)
  check_show_limit w host s =
      if ltb 0 s.rate_limit_max_wait
      then check_show_with_backoff (suc s.rate_limit_max_wait) w.late w.one_token w.now host
          s.rate_limit_max_wait s.devices
      else some (check_show w.one_token w.now host s.devices)

  -- The breaker is created when it is asked, so a look at it afterwards changes nothing more.
  unfoldable pub pass_show_circuit : ShowWorld p → CacheKey → ℕ → Server p → Option (Shown p)
  unfolding limit_show check_show_limit try_stale
  pass_show_circuit w key ttl s =
      let (breakers', allowed) = Registry.allow_request w.world.now key.host s.breakers in
      let (breakers'', breaker) = Registry.get key.host breakers' in
      let s' = record s { breakers = breakers' } in
      if allowed
      then limit_show w key ttl s' (check_show_limit w.world key.host s')
      else some
          (try_stale w w.world.now key ttl (circuit_is_open breaker.consecutive_failures) false s')

  unfoldable pub limit_show_caller :
      ShowWorld p → CacheKey → ℕ → Server p × Option Outcome → Option (Shown p)
  unfolding pass_show_circuit
  limit_show_caller w key ttl (s, none) = pass_show_circuit w key ttl s
  limit_show_caller w key ttl (s, some error) = some (s, caller_limited error, false)

  -- after the first look into the cache
  unfoldable pub after_lookup :
      ShowWorld p
      → Context
      → CacheKey
      → ℕ
      → Server p
      → CommandCache p × Option (CommandCache.Reply p)
      → Option (Shown p)
  unfolding limit_show_caller
  after_lookup w ctx key ttl s (c, some r) = some (record s { command_cache = c }, cached r, false)
  after_lookup w ctx key ttl s (c, none) =
      limit_show_caller w key ttl
        (check_user_tenant_rate_limit w.world ctx (record s { command_cache = c }))

  unfoldable pub look_up :
      ShowWorld p → CacheKey → ℕ → Server p → CommandCache p × Option (CommandCache.Reply p)
  look_up w key ttl s =
      if ltb 0 ttl
      then CommandCache.get p key false 300 w.world.now w.later s.command_cache
      else (s.command_cache, none)

  unfoldable pub run_show_inner :
      Library → ShowWorld p → Context → ShowRequest → Server p → Option (Shown p)
  unfolding after_lookup look_up
  run_show_inner py w ctx request s =
      let key = make_key request in
      let ttl = effective_ttl py request in
      if not (validate_host py request.host)
      then some (s, invalid_host, false)
      else if not (check_tenant_device_access py ctx request.host)
      then some (s, outside_tenant, false)
      else after_lookup w ctx key ttl s (look_up w key ttl s)
