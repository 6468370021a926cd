-- ===== src/RateLimiter/Tiers.antt =====
-- UserRateLimiter and TenantRateLimiter of src/network_mcp/rate_limiter.py.
use Prim.Native.String.{String, ◌++◌}
use network_mcp.Base.{
  in_list, ℕ, ◌*◌, Bool, Option, none, some, List, [], ◌∷◌, if◌then◌else◌, Time, str_discrete,
  seconds,
}
use network_mcp.Dict
use network_mcp.Dict.{Dict}
use network_mcp.RateLimiter
use network_mcp.RateLimiter.{WaitTime}
use network_mcp.RateLimiter.Limiters.{Pool, draw, pool_wait}

abbrev pub tier_read : String
tier_read = "read"

abbrev pub tier_write : String
tier_write = "write"

abbrev pub tier_admin : String
tier_admin = "admin"

unfoldable pub scope_to_tier : List String → String
unfolding in_list
scope_to_tier scopes =
    if in_list "network:admin" scopes
    then tier_admin
    else if in_list "network:write" scopes
    then tier_write
    else tier_read

pub record UserRateLimiter : Type 0 where
  pub tier_rates : Dict String ℕ
  pub buckets : Pool

unfoldable pub init_user : ℕ → ℕ → ℕ → UserRateLimiter
init_user read_rate write_rate admin_rate = record {
  tier_rates = (tier_read, read_rate) ∷ (tier_write, write_rate) ∷ (tier_admin, admin_rate) ∷ [];
  buckets = [];
}

-- the burst of a rate in tokens per second: twice the tokens of one second
unfoldable pub burst_of : ℕ → ℕ
burst_of rate = seconds (rate * 2)

unfoldable pub user_key : String → String → String
user_key user_id tier = user_id ++ ":" ++ tier

unfoldable or_rate : Option ℕ → Option ℕ → ℕ
or_rate (some rate) read = rate
or_rate none (some read) = read
or_rate none none = 0

-- `self._tier_rates.get(tier, self._tier_rates[TIER_READ])`; the dict has the three tiers always
unfoldable pub rate_of : String → UserRateLimiter → ℕ
unfolding or_rate
rate_of tier l =
    or_rate (Dict.get str_discrete tier l.tier_rates) (Dict.get str_discrete tier_read l.tier_rates)

unfoldable pub check_user :
    ℕ → Time → String → List String → UserRateLimiter → UserRateLimiter × Bool
unfolding scope_to_tier user_key rate_of burst_of
check_user one now user_id scopes l =
    let tier = scope_to_tier scopes in
    let rate = rate_of tier l in
    let fresh = RateLimiter.init rate (burst_of rate) now in
    let (pool, got) = draw now one fresh (user_key user_id tier) l.buckets in
    (record l { buckets = pool }, got)

unfoldable pub user_wait_time :
    ℕ → Time → Time → String → List String → UserRateLimiter → UserRateLimiter × WaitTime
unfolding scope_to_tier user_key
user_wait_time one jitter now user_id scopes l =
    let (pool, w) = pool_wait one jitter now (user_key user_id (scope_to_tier scopes)) l.buckets in
    (record l { buckets = pool }, w)

pub record TenantRateLimiter : Type 0 where
  pub tenant_rate : ℕ
  pub burst : ℕ
  pub tenant_buckets : Pool

unfoldable or_burst : ℕ → Option ℕ → ℕ
or_burst rate (some burst) = burst
or_burst rate none = burst_of rate

unfoldable pub init_tenant : ℕ → Option ℕ → TenantRateLimiter
unfolding or_burst burst_of
init_tenant rate burst = record {
  tenant_rate = rate;
  burst = or_burst rate burst;
  tenant_buckets = [];
}

unfoldable pub check_tenant : ℕ → Time → String → TenantRateLimiter → TenantRateLimiter × Bool
check_tenant one now tenant_id l =
    let fresh = RateLimiter.init l.tenant_rate l.burst now in
    let (pool, got) = draw now one fresh tenant_id l.tenant_buckets in
    (record l { tenant_buckets = pool }, got)

unfoldable pub tenant_wait_time :
    ℕ → Time → Time → String → TenantRateLimiter → TenantRateLimiter × WaitTime
tenant_wait_time one jitter now tenant_id l =
    let (pool, w) = pool_wait one jitter now tenant_id l.tenant_buckets in
    (record l { tenant_buckets = pool }, w)
