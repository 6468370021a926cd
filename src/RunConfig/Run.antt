-- ===== src/RunConfig/Run.antt =====
-- _run_config_command_inner and _run_config_with_bulkhead of src/network_mcp/helpers.py. Each function
-- is the rest of the request from one check on.
use Prim.Native.String.{◌++◌ as ◌⊕◌}
use network_mcp.Base.{
  suc, Bool, not, ◌&&◌, ltb, String, Option, none, some, List, [], ◌∷◌, if◌then◌else◌, Time,
}
use network_mcp.CircuitBreaker.Registry
use network_mcp.RateLimiter.Limiters.{
  DeviceRateLimiter, check_config, check_config_with_backoff, config_wait_time,
}
use network_mcp.CommandCache
use network_mcp.CommandCache.{Payload}
use network_mcp.ChangeManagement.{ChangeManager, Ref, is_pending}
use network_mcp.ChangeManagement.Risk.{create_change_request}
use network_mcp.ChangeManagement.Windows.{check_maintenance_window}
use network_mcp.ChangeManagement.Marks.{
  Reply, replied, raised, mark_executing, mark_completed, mark_failed, capture_pre_snapshot,
  capture_post_snapshot, validate_change,
}
use network_mcp.ChangeManagement.Rollback.{
  RollbackResult, nothing_to_apply, applied, not_applied, rollback,
}
use network_mcp.RunConfig
use network_mcp.RunConfig.{
  Library, Server, Context, World, Request, Execution, accepted, connection_error, command_error,
  unexpected_error, Outcome, read_only_mode, tool_error, access_denied, config_rejected,
  outside_window, pending_approval, circuit_open, rate_limited, out_of_slots, applied_as,
  rolled_back_as, failed_with,
}
use network_mcp.RunConfig.Checks.{
  validate_host, check_tenant_device_access, validate_config_commands, check_user_tenant_rate_limit,
}

-- the command lists that the device may have seen
abbrev pub Attempts : Type 0
Attempts = List (List String)

unfoldable pub rollback_attempts : List String → RollbackResult → Attempts
rollback_attempts commands nothing_to_apply = []
rollback_attempts commands (applied sent v) = sent ∷ []
rollback_attempts commands (not_applied error) = commands ∷ []

abbrev pub Done : Payload → Type 0
Done p = Server p × Outcome × Attempts

unfoldable pub user_error : Outcome → String
user_error RunConfig.user_limited = "Rate limit exceeded for user"
user_error other = "Rate limit exceeded for tenant"

unfoldable pub or_empty : Option String → String
or_empty none = ""
or_empty (some s) = s

module _ {p : Payload} where
  -- if cr: cm.mark_failed(cr, error)
  unfoldable pub fail_change : Time → Option Ref → String → Server p → Server p
  fail_change now none error s = s
  fail_change now (some r) error s = record s { manager = mark_failed now r error s.manager }

  unfoldable pub after_success : Library → World → List String → Server p → Option Ref → Done p
  unfolding rollback_attempts
  after_success py w commands s none = (s, Outcome.applied, commands ∷ [])
  after_success py w commands s (some r) =
      let m = capture_post_snapshot r w.post_config s.manager in
      let (m', result) =
        rollback py.splitlines py.unified_diff w.done r w.rollback_reply w.rollback_show m in
      if ltb 0 m.auto_rollback_timeout && not (validate_change (m.heap r))
      then (
        record s { manager = m' },
        rolled_back_as r result,
        commands ∷ rollback_attempts (m.heap r).rollback_commands result,
      )
      else (record s { manager = mark_completed w.done r m }, applied_as r, commands ∷ [])

  -- `_run_config_with_bulkhead`
  unfoldable pub run_with_bulkhead :
      Library → World → String → List String → Option Ref → Server p → Execution → Done p
  unfolding after_success fail_change
  run_with_bulkhead py w host commands cr s accepted =
      let (cache', removed) = CommandCache.invalidate_host p host s.command_cache in
      after_success py w commands
        (record s { command_cache = cache'; breakers = Registry.record_success host s.breakers }) cr
  run_with_bulkhead py w host commands cr s (connection_error error) = (
    fail_change w.done cr ("Connection failed: " ⊕ error)
        (record s { breakers = Registry.record_failure w.done host s.breakers }),
    failed_with (connection_error error),
    commands ∷ [],
  )
  run_with_bulkhead py w host commands cr s (command_error error) = (
    fail_change w.done cr ("Command error: " ⊕ error)
        (record s { breakers = Registry.record_success host s.breakers }),
    failed_with (command_error error),
    commands ∷ [],
  )
  run_with_bulkhead py w host commands cr s (unexpected_error error) = (
    fail_change w.done cr ("Unexpected error: " ⊕ error)
        (record s { breakers = Registry.record_failure w.done host s.breakers }),
    failed_with (unexpected_error error),
    commands ∷ [],
  )

  unfoldable pub take_slot :
      Library → World → String → List String → Option Ref → Server p → Reply (Unit {0}) → Done p
  unfolding run_with_bulkhead fail_change
  take_slot py w host commands cr s (raised error) =
      (fail_change w.done cr error s, out_of_slots error, [])
  take_slot py w host commands cr s (replied _) =
      run_with_bulkhead py w host commands cr s w.execution

  -- after the check of the device's own rate limit; none is a backoff that ran out of fuel
  unfoldable pub limit_device :
      Library
      → World
      → String
      → List String
      → Option Ref
      → Server p
      → Option (DeviceRateLimiter × Bool)
      → Option (Done p)
  unfolding take_slot fail_change
  limit_device py w host commands cr s none = none
  limit_device py w host commands cr s (some (devices', got)) =
      let (devices'', wait) = config_wait_time w.one_token w.jitter w.done host devices' in
      if got
      then some (take_slot py w host commands cr (record s { devices = devices' }) w.slot)
      else some (
        fail_change w.done cr ("Rate limit exceeded for " ⊕ host)
            (record s { devices = devices'' }),
        rate_limited,
        [],
      )

  -- The fuel of a backoff is one above its longest wait.
  unfoldable pub check_device_limit : World → String → Server p → Option (DeviceRateLimiter × Bool)
  check_device_limit w host s =
      if ltb 0 s.rate_limit_max_wait
      then check_config_with_backoff (suc s.rate_limit_max_wait) w.late w.one_token w.now host
          s.rate_limit_max_wait s.devices
      else some (check_config w.one_token w.now host s.devices)

  unfoldable pub pass_circuit :
      Library → World → String → List String → Option Ref → Server p → Option (Done p)
  unfolding limit_device check_device_limit fail_change
  pass_circuit py w host commands cr s =
      let (breakers', allowed) = Registry.allow_request w.now host s.breakers in
      let (breakers'', breaker) = Registry.get host breakers' in
      let s' = record s { breakers = breakers' } in
      if allowed
      then limit_device py w host commands cr s' (check_device_limit w host s')
      else some (
        fail_change w.now cr ("Circuit breaker open for " ⊕ host)
            (record s { breakers = breakers'' }),
        circuit_open breaker.consecutive_failures,
        [],
      )

  unfoldable pub limit_caller :
      Library
      → World
      → String
      → List String
      → Option Ref
      → Server p × Option Outcome
      → Option (Done p)
  unfolding pass_circuit fail_change user_error
  limit_caller py w host commands cr (s, none) = pass_circuit py w host commands cr s
  limit_caller py w host commands cr (s, some error) =
      some (fail_change w.now cr (user_error error) s, error, [])

  unfoldable pub pass_limits :
      Library → World → Context → String → List String → Option Ref → Server p → Option (Done p)
  unfolding limit_caller
  pass_limits py w ctx host commands cr s =
      limit_caller py w host commands cr (check_user_tenant_rate_limit w ctx s)

  -- the change management gate, for a change request that was created
  unfoldable pub gate_change :
      Library
      → World
      → Context
      → String
      → List String
      → Server p
      → ChangeManager × Ref
      → Option (Done p)
  unfolding pass_limits
  gate_change py w ctx host commands s (m, r) =
      let before = capture_pre_snapshot r w.pre_config m in
      if not (check_maintenance_window s.windows w.week_day w.time_of_day)
      then some (
        record s { manager = mark_failed w.now r "Outside maintenance window" m },
        outside_window r,
        [],
      )
      else if is_pending (m.heap r).status
      then some (record s { manager = m }, pending_approval r, [])
      else pass_limits py w ctx host commands (some r)
          (record s { manager = mark_executing w.now r before })

  unfoldable pub manage_change : Library → World → Context → Request → Server p → Option (Done p)
  unfolding gate_change pass_limits or_empty
  manage_change py w ctx request s =
      if s.manager.enabled
      then gate_change py w ctx request.host request.commands s (
          create_change_request py.lower w.now w.new_uuid request.action request.host
            request.commands (or_empty ctx.current_user) s.manager)
      else pass_limits py w ctx request.host request.commands none s

  unfoldable pub reject_denied :
      Library → World → Context → Request → Server p → Option String → Option (Done p)
  unfolding manage_change
  reject_denied py w ctx request s none = manage_change py w ctx request s
  reject_denied py w ctx request s (some cmd) = some (s, config_rejected cmd, [])

  unfoldable pub run_config_inner : Library → World → Context → Request → Server p → Option (Done p)
  unfolding reject_denied
  run_config_inner py w ctx request s =
      if s.net_read_only
      then some (s, read_only_mode, [])
      else if not (validate_host py request.host)
      then some (s, tool_error, [])
      else if not (check_tenant_device_access py ctx request.host)
      then some (s, access_denied, [])
      else reject_denied py w ctx request s (validate_config_commands py request.commands)
