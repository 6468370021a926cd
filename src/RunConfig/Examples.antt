-- ===== src/RunConfig/Examples.antt =====
-- A server, and a change that is applied on it, for runs at concrete inputs.
use network_mcp.Base.{
  ◌≡◌, refl, ℕ, ◌+◌, Bool, true, false, String, str_discrete, Option, none, some, [], ◌∷◌, ite,
  ℕ_discrete,
}
use network_mcp.Base.Text.{
  strip, lstrip, rstrip, push_left, is_empty, is_space, drop_prefix, occurs_in, is_some,
}
use network_mcp.Dict
use network_mcp.CircuitBreaker
use network_mcp.CircuitBreaker.Registry
use network_mcp.RateLimiter
use network_mcp.RateLimiter.Limiters.{init_device}
use network_mcp.RateLimiter.Tiers.{init_user, init_tenant}
use network_mcp.CommandCache.{Payload, CommandCache}
use network_mcp.ChangeManagement.{ChangeManager, new_request, low}
use network_mcp.ChangeManagement.Marks.{replied, raised}
use network_mcp.RunConfig.{Library, Server, Context, World, Request, applied_as, accepted}
use network_mcp.RunConfig.Checks.{
  validate_host, check_tenant_device_access, truthy, validate_config_commands, starts_with_any,
  check_user_tenant_rate_limit, limit_user, limit_tenant,
}
use network_mcp.RunConfig.Run.{
  Done, run_config_inner, reject_denied, manage_change, gate_change, pass_limits, limit_caller,
  pass_circuit, limit_device, check_device_limit, take_slot, run_with_bulkhead, after_success,
}
use network_mcp.ChangeManagement.{is_pending, is_low, add_request, auto_approve, update}
use network_mcp.ChangeManagement.Risk.{
  create_change_request, assess_risk, lower_all, any_of, joined, search_line,
}
use network_mcp.ChangeManagement.Marks.{
  mark_executing, log, capture_pre_snapshot, snapshot_of, capture_post_snapshot, validate_change,
  has_error, is_taken, config_of,
}
use network_mcp.ChangeManagement.Windows.{check_maintenance_window}
use network_mcp.RateLimiter.Limiters.{check_config, get_config_bucket, get_or_create, or_fresh}
use network_mcp.RateLimiter.{acquire, refill}
use network_mcp.Base.{arith}
use network_mcp.Base.Int.{pos}
use network_mcp.CommandCache.{CacheKey, CacheEntry, plain}
use network_mcp.CommandCache.Put.{IsAccounted}

abbrev pub same_text : String → String → Bool
same_text s t = ite (str_discrete s t) true false

-- Texts in lower case on one line; a pattern is a text.
abbrev pub plain_text : Library
plain_text = record {
  lower = λ s. s;
  splitlines = λ s. s ∷ [];
  unified_diff = λ xs ys. [];
  fnmatch = same_text;
  matches_host = λ s. true;
}

abbrev pub numbers : Payload
numbers = record {
  Value = ℕ;
  Text = ℕ;
  Bytes = ℕ;
  is_dict = λ n. true;
  dumps = λ n. n;
  loads = λ n. some n;
  text_length = λ n. n;
  byte_count = λ n. n + 1;
  fernet_encrypt = λ n. n;
  fernet_decrypt = λ n. some n;
  fernet_decrypt-encrypt = λ n. refl;
}

abbrev pub show_vlan : CacheKey
show_vlan = record { host = "spine-01"; commands = "show vlan" ∷ []; encoding = "json" }

abbrev pub old_vlan : CacheEntry numbers
old_vlan = record {
  content = plain 10;
  timestamp = 50;
  ttl = 30;
  size_bytes = 10;
  last_accessed = 50;
}

abbrev pub vlan_cache : CommandCache numbers
vlan_cache = record {
  entries = (show_vlan, old_vlan) ∷ [];
  max_entries = 10;
  max_memory_bytes = 100;
  current_memory_bytes = pos 10;
  enabled = true;
  hits = 0;
  misses = 0;
  encrypted = false;
}

pub vlan_cache-IsAccounted : IsAccounted numbers vlan_cache
vlan_cache-IsAccounted = record {
  room = omega arith;
  distinct = (unfold Dict.get in refl, tt);
  bounded = omega arith;
  accounted = unfold Dict.total in refl;
}

abbrev pub vlan : Request
vlan = record { host = "spine-01"; commands = "vlan 10" ∷ []; action = "run_config" }

abbrev pub no_changes : ChangeManager
no_changes = record {
  enabled = true;
  require_approval = false;
  auto_rollback_timeout = 60;
  heap = λ q. new_request 0 "" "" "" [] "" low [];
  next_ref = 0;
  pending_requests = [];
  completed_requests = [];
}

abbrev pub server : Server numbers
server = record {
  net_read_only = false;
  rate_limit_max_wait = 0;
  cache_stale_if_error_ttl = 300;
  manager = no_changes;
  windows = [];
  breakers = Registry.init 5 60 true;
  devices = init_device 5 20 1 10;
  users = init_user 10 2 20;
  tenants = init_tenant 50 none;
  command_cache = vlan_cache;
}

abbrev pub anyone : Context
anyone = record { current_user = none; current_tenant = none; scopes = []; tenant_devices = none }

abbrev pub fine_day : World
fine_day = record {
  now = 100;
  done = 200;
  week_day = 5;
  time_of_day = 0;
  new_uuid = "c1";
  jitter = 0;
  late = λ n. 0;
  one_token = 10;
  pre_config = replied "hostname spine-01";
  slot = replied tt;
  execution = accepted;
  post_config = replied "hostname spine-01 vlan 10";
  rollback_reply = raised "";
  rollback_show = raised "";
}

abbrev pub result : Option (Done numbers)
result = run_config_inner plain_text fine_day anyone vlan server

abbrev pub server_after : Option (Done numbers) → Server numbers
server_after none = server
server_after (some (s, o, attempts)) = s

pub vlan_applied : result ≡ some (server_after result, applied_as 0, ("vlan 10" ∷ []) ∷ [])
unfolding run_config_inner validate_host is_empty strip lstrip rstrip push_left is_space
    check_tenant_device_access truthy is_some validate_config_commands starts_with_any drop_prefix
    reject_denied manage_change gate_change pass_limits limit_caller pass_circuit limit_device
    check_device_limit take_slot run_with_bulkhead after_success check_maintenance_window is_pending
    is_low create_change_request add_request auto_approve update new_request assess_risk lower_all
    any_of joined search_line occurs_in mark_executing log capture_pre_snapshot snapshot_of
    check_user_tenant_rate_limit limit_user limit_tenant Registry.init Registry.allow_request
    Registry.get Registry.or_create Registry.write_back CircuitBreaker.init
    CircuitBreaker.allow_request CircuitBreaker.get_state init_device check_config get_config_bucket
    get_or_create or_fresh RateLimiter.init acquire refill capture_post_snapshot validate_change
    has_error is_taken config_of Dict.get Dict.put str_discrete ℕ_discrete
vlan_applied = refl
