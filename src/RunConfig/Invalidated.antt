-- ===== src/RunConfig/Invalidated.antt =====
-- The cache after a change of a device.
use network_mcp.Base.{
  ◌≡◌, inl, inr, refl, ap, ◌∙◌, Bool, not, ◌&&◌, ltb, String, Option, none, some, List, if_split,
}
use network_mcp.CircuitBreaker.Registry
use network_mcp.RateLimiter.Limiters.{DeviceRateLimiter}
use network_mcp.CommandCache
use network_mcp.CommandCache.{Payload, CommandCache}
use network_mcp.ChangeManagement.{ChangeManager, Ref, is_pending}
use network_mcp.ChangeManagement.Marks.{
  Reply, replied, raised, validate_change, capture_post_snapshot,
}
use network_mcp.ChangeManagement.Risk.{create_change_request}
use network_mcp.ChangeManagement.Windows.{check_maintenance_window}
use network_mcp.RunConfig
use network_mcp.RunConfig.{
  Library, Server, Context, World, Request, Execution, accepted, connection_error, command_error,
  unexpected_error, Outcome,
}
use network_mcp.RunConfig.Checks.{
  validate_host, check_tenant_device_access, check_user_tenant_rate_limit,
}
use mathlib.Core.Path.{subst}
use mathlib.Core.Option.{some-injective}
use network_mcp.ChangeManagement.{add_request}
use network_mcp.RunConfig.Limited.{
  IsLimit, check_user_tenant_rate_limit-Same, check_user_tenant_rate_limit-IsLimit,
}
use network_mcp.RunConfig.Run.{
  Done, after_success, run_with_bulkhead, take_slot, limit_device, pass_circuit, limit_caller,
  pass_limits, gate_change, manage_change, reject_denied, run_config_inner,
}

-- The device has accepted the commands.
abbrev pub IsApplied : Outcome → Type 0
IsApplied RunConfig.applied = Unit
IsApplied (RunConfig.applied_as r) = Unit
IsApplied (RunConfig.rolled_back_as r v) = Unit
IsApplied RunConfig.read_only_mode = ⊥
IsApplied RunConfig.tool_error = ⊥
IsApplied RunConfig.access_denied = ⊥
IsApplied (RunConfig.config_rejected c) = ⊥
IsApplied (RunConfig.outside_window r) = ⊥
IsApplied (RunConfig.pending_approval r) = ⊥
IsApplied RunConfig.user_limited = ⊥
IsApplied RunConfig.tenant_limited = ⊥
IsApplied (RunConfig.circuit_open n) = ⊥
IsApplied RunConfig.rate_limited = ⊥
IsApplied (RunConfig.out_of_slots e) = ⊥
IsApplied (RunConfig.failed_with e) = ⊥

module _ {p : Payload} (py : Library) (w : World) (host : String) (c : CommandCache p) where
  -- If the commands were accepted, the cache is the one at the start with the host invalidated.
  abbrev pub Invalidated : Option (Done p) → Type 0
  Invalidated none = Unit
  Invalidated (some (s, o, attempts)) =
      IsApplied o → s.command_cache ≡ (CommandCache.invalidate_host p host c).0

  after_success-Invalidated :
      (commands : List String) (s : Server p) (cr : Option Ref)
      → s.command_cache ≡ (CommandCache.invalidate_host p host c).0
      → Invalidated (some (after_success py w commands s cr))
  unfolding after_success
  after_success-Invalidated commands s none h = λ a. h
  after_success-Invalidated commands s (some r) h =
      if_split (λ (d : Done p). Invalidated (some d))
        (ltb 0 (capture_post_snapshot r w.post_config s.manager).auto_rollback_timeout
          && not (validate_change ((capture_post_snapshot r w.post_config s.manager).heap r)))
        (λ e a. h) (λ e a. h)

  run_with_bulkhead-Invalidated :
      (commands : List String) (cr : Option Ref) (s : Server p) (e : Execution)
      → s.command_cache ≡ c
      → Invalidated (some (run_with_bulkhead py w host commands cr s e))
  unfolding run_with_bulkhead
  run_with_bulkhead-Invalidated commands cr s accepted h =
      after_success-Invalidated commands _ cr
        (ap (λ d. (CommandCache.invalidate_host p host d).0) h)
  run_with_bulkhead-Invalidated commands cr s (connection_error e) h = λ a. absurd a
  run_with_bulkhead-Invalidated commands cr s (command_error e) h = λ a. absurd a
  run_with_bulkhead-Invalidated commands cr s (unexpected_error e) h = λ a. absurd a

  take_slot-Invalidated :
      (commands : List String) (cr : Option Ref) (s : Server p) (x : Reply (Unit {0}))
      → s.command_cache ≡ c
      → Invalidated (some (take_slot py w host commands cr s x))
  unfolding take_slot
  take_slot-Invalidated commands cr s (raised e) h = λ a. absurd a
  take_slot-Invalidated commands cr s (replied _) h =
      run_with_bulkhead-Invalidated commands cr s w.execution h

  limit_device-Invalidated :
      (commands : List String) (cr : Option Ref) (s : Server p)
      (o : Option (DeviceRateLimiter × Bool))
      → s.command_cache ≡ c
      → Invalidated (limit_device py w host commands cr s o)
  unfolding limit_device
  limit_device-Invalidated commands cr s none h = tt
  limit_device-Invalidated commands cr s (some (devices', got)) h =
      if_split Invalidated got
        (λ e. take_slot-Invalidated commands cr (record s { devices = devices' }) w.slot h)
        (λ e a. absurd a)

  pass_circuit-Invalidated :
      (commands : List String) (cr : Option Ref) (s : Server p)
      → s.command_cache ≡ c
      → Invalidated (pass_circuit py w host commands cr s)
  unfolding pass_circuit
  pass_circuit-Invalidated commands cr s h =
      if_split Invalidated (Registry.allow_request w.now host s.breakers).1
        (λ e.
          limit_device-Invalidated commands cr
            (record s { breakers = (Registry.allow_request w.now host s.breakers).0 }) _ h)
        (λ e a. absurd a)

  limit_caller-Invalidated :
      (commands : List String) (cr : Option Ref) (s : Server p) (o : Option Outcome)
      → IsLimit o
      → s.command_cache ≡ c
      → Invalidated (limit_caller py w host commands cr (s, o))
  unfolding limit_caller
  limit_caller-Invalidated commands cr s none l h = pass_circuit-Invalidated commands cr s h
  limit_caller-Invalidated commands cr s (some e) (inl l) h = absurd (cc l)
  limit_caller-Invalidated commands cr s (some e) (inr (inl l)) h =
      λ a. absurd (subst IsApplied (some-injective _ _ l) a)
  limit_caller-Invalidated commands cr s (some e) (inr (inr l)) h =
      λ a. absurd (subst IsApplied (some-injective _ _ l) a)

  pass_limits-Invalidated :
      (ctx : Context) (commands : List String) (cr : Option Ref) (s : Server p)
      → s.command_cache ≡ c
      → Invalidated (pass_limits py w ctx host commands cr s)
  unfolding pass_limits
  pass_limits-Invalidated ctx commands cr s h =
      let x = check_user_tenant_rate_limit w ctx s in
      limit_caller-Invalidated commands cr x.0 x.1 (check_user_tenant_rate_limit-IsLimit w ctx s)
        ((check_user_tenant_rate_limit-Same w ctx s).command_cache ∙ h)

  gate_change-Invalidated :
      (ctx : Context) (commands : List String) (s : Server p) (m : ChangeManager) (r : Ref)
      → s.command_cache ≡ c
      → Invalidated (gate_change py w ctx host commands s (m, r))
  unfolding gate_change
  gate_change-Invalidated ctx commands s m r h =
      if_split Invalidated (not (check_maintenance_window s.windows w.week_day w.time_of_day))
        (λ e a. absurd a)
        (λ e.
          if_split Invalidated (is_pending (m.heap r).status) (λ q a. absurd a)
            (λ q. pass_limits-Invalidated ctx commands (some r) _ h))

module _ {p : Payload} (py : Library) (w : World) (ctx : Context) (request : Request)
    (s : Server p) where
  abbrev HostInvalidated : Option (Done p) → Type 0
  HostInvalidated = Invalidated py w request.host s.command_cache

  reject_denied-Invalidated :
      (o : Option String) → HostInvalidated (reject_denied py w ctx request s o)
  unfolding reject_denied manage_change create_change_request add_request
  reject_denied-Invalidated (some cmd) = λ a. absurd a
  reject_denied-Invalidated none =
      if_split HostInvalidated s.manager.enabled
        (λ e.
          gate_change-Invalidated py w request.host s.command_cache ctx request.commands s _ _ refl)
        (λ e.
          pass_limits-Invalidated py w request.host s.command_cache ctx request.commands none s
            refl)

  pub run_config_inner-Invalidated : HostInvalidated (run_config_inner py w ctx request s)
  unfolding run_config_inner
  run_config_inner-Invalidated =
      if_split HostInvalidated s.net_read_only (λ e a. absurd a)
        (λ e.
          if_split HostInvalidated (not (validate_host py request.host)) (λ e a. absurd a)
            (λ e.
              if_split HostInvalidated (not (check_tenant_device_access py ctx request.host))
                (λ e a. absurd a) (λ e. reject_denied-Invalidated _)))
