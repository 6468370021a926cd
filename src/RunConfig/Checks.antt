-- ===== src/RunConfig/Checks.antt =====
-- The checks of src/network_mcp/helpers.py that a configuration command passes.
use Prim.Native.String.{count}
use network_mcp.Base.{
  Bool, true, false, ◌||◌, ltb, String, Option, none, some, List, [], ◌∷◌, ite, str_discrete,
  if◌then◌else◌,
}
use network_mcp.Base.Text.{strip, is_empty, is_some, drop_prefix}
use network_mcp.RateLimiter.Tiers.{check_user, user_wait_time, check_tenant, tenant_wait_time}
use network_mcp.CommandCache.{Payload}
use network_mcp.RunConfig.{Library, Server, Context, World, Outcome, user_limited, tenant_limited}

-- false stands for an error message
unfoldable pub validate_host : Library → String → Bool
validate_host py host =
    if is_empty host || is_empty (strip host)
    then false
    else if ltb 253 (count host)
    then false
    else py.matches_host host

unfoldable pub matches_any : Library → String → List String → Bool
matches_any py host [] = false
matches_any py host (pattern ∷ patterns) =
    let rest = matches_any py host patterns in if py.fnmatch host pattern then true else rest

unfoldable pub in_scope : Library → String → Option (List String) → Bool
unfolding matches_any
in_scope py host none = true
in_scope py host (some patterns) = matches_any py host patterns

-- a context value that is there and not the empty text
unfoldable pub truthy : Option String → Option String
truthy none = none
truthy (some s) = if is_empty s then none else some s

-- false stands for the error message
unfoldable pub check_tenant_device_access : Library → Context → String → Bool
unfolding truthy in_scope
check_tenant_device_access py ctx host =
    if is_some (truthy ctx.current_tenant) then in_scope py host ctx.tenant_devices else true

abbrev pub denied_commands : List String
denied_commands =
    "reload" ∷ "write erase" ∷ "zerotouch" ∷ "delete flash:" ∷ "delete startup"
    ∷ "delete bootflash:" ∷ "format" ∷ "boot system" ∷ "aaa root" ∷ "bash" ∷ "configure replace"
    ∷ "copy startup" ∷ "configure terminal" ∷ "erase" ∷ "copy erase" ∷ "clear logging"
    ∷ "clear counters" ∷ "no management api http-commands" ∷ "no management api gnmi" ∷ []

unfoldable pub starts_with_any : String → List String → Bool
starts_with_any cmd [] = false
starts_with_any cmd (denied ∷ rest) =
    let later = starts_with_any cmd rest in if is_some (drop_prefix denied cmd) then true else later

-- the command that the message names, or none
unfoldable pub validate_config_commands : Library → List String → Option String
unfolding starts_with_any
validate_config_commands py [] = none
validate_config_commands py (cmd ∷ cmds) =
    let later = validate_config_commands py cmds in
    if starts_with_any (py.lower (strip cmd)) denied_commands then some cmd else later

module _ {p : Payload} where
  -- the check of the tenant
  unfoldable pub limit_tenant : World → Server p → Option String → Server p × Option Outcome
  limit_tenant w s none = (s, none)
  limit_tenant w s (some tenant_id) =
      let (tenants', got) = check_tenant w.one_token w.now tenant_id s.tenants in
      let (tenants'', wait) = tenant_wait_time w.one_token w.jitter w.now tenant_id tenants' in
      if got
      then (record s { tenants = tenants' }, none)
      else (record s { tenants = tenants'' }, some tenant_limited)

  unfoldable pub limit_user : World → Context → Server p → Option String → Server p × Option Outcome
  unfolding limit_tenant truthy
  limit_user w ctx s none = limit_tenant w s (truthy ctx.current_tenant)
  limit_user w ctx s (some user_id) =
      let (users', got) = check_user w.one_token w.now user_id ctx.scopes s.users in
      let (users'', wait) = user_wait_time w.one_token w.jitter w.now user_id ctx.scopes users' in
      if ite (str_discrete user_id "anonymous") true false
      then limit_tenant w s (truthy ctx.current_tenant)
      else if got
      then limit_tenant w (record s { users = users' }) (truthy ctx.current_tenant)
      else (record s { users = users'' }, some user_limited)

  unfoldable pub check_user_tenant_rate_limit :
      World → Context → Server p → Server p × Option Outcome
  unfolding limit_user truthy
  check_user_tenant_rate_limit w ctx s = limit_user w ctx s (truthy ctx.current_user)
