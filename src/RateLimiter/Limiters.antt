-- ===== src/RateLimiter/Limiters.antt =====
-- The pools of buckets, and DeviceRateLimiter, of src/network_mcp/rate_limiter.py. A pool is a dict;
-- a bucket is a shared object, so a call on it writes it back.
pub mod Budgets
use Prim.Native.String.{String, ◌++◌}
use network_mcp.Base.{
  ℕ, ◌*◌, Bool, true, Option, none, some, List, [], ◌∷◌, if◌then◌else◌, Time, str_discrete, seconds,
  ite, ◌||◌, false,
}
use network_mcp.Dict
use network_mcp.Dict.{Dict}
use network_mcp.RateLimiter
use network_mcp.RateLimiter.{
  TokenBucket, BackoffState, WaitTime, ready, acquire, wait_time, acquire_with_backoff,
}

abbrev pub Pool : Type 0
Pool = Dict String TokenBucket

unfoldable pub or_fresh : TokenBucket → String → Pool → Option TokenBucket → Pool × TokenBucket
or_fresh fresh key pool (some b) = (pool, b)
or_fresh fresh key pool none = (Dict.put str_discrete key fresh pool, fresh)

-- The bucket of a key, or a fresh one that is put into the pool. The second look under the lock
-- makes the whole one step.
unfoldable pub get_or_create : TokenBucket → String → Pool → Pool × TokenBucket
unfolding or_fresh
get_or_create fresh key pool = or_fresh fresh key pool (Dict.get str_discrete key pool)

-- `get_or_create(key).acquire(n)`
unfoldable pub draw : Time → ℕ → TokenBucket → String → Pool → Pool × Bool
unfolding get_or_create
draw now n fresh key pool =
    let (pool', b) = get_or_create fresh key pool in
    let (b', got) = acquire now n b in (Dict.put str_discrete key b' pool', got)

unfoldable wait_of : ℕ → Time → Time → String → Pool → Option TokenBucket → Pool × WaitTime
wait_of one jitter now key pool none = (pool, ready)
wait_of one jitter now key pool (some b) =
    let (b', w) = wait_time one jitter now b in (Dict.put str_discrete key b' pool, w)

-- `bucket.wait_time() if bucket else 0.0`
unfoldable pub pool_wait : ℕ → Time → Time → String → Pool → Pool × WaitTime
unfolding wait_of
pool_wait one jitter now key pool = wait_of one jitter now key pool (Dict.get str_discrete key pool)

pub record DeviceRateLimiter : Type 0 where
  pub show_rate : ℕ
  pub show_burst : ℕ
  pub config_rate : ℕ
  pub config_burst : ℕ
  pub show_buckets : Pool
  pub config_buckets : Pool

unfoldable pub init_device : ℕ → ℕ → ℕ → ℕ → DeviceRateLimiter
init_device show_rate show_burst config_rate config_burst = record {
  show_rate = show_rate;
  show_burst = show_burst;
  config_rate = config_rate;
  config_burst = config_burst;
  show_buckets = [];
  config_buckets = [];
}

unfoldable pub get_show_bucket : Time → String → DeviceRateLimiter → DeviceRateLimiter × TokenBucket
get_show_bucket now host l =
    let fresh = RateLimiter.init l.show_rate l.show_burst now in
    let (pool, b) = get_or_create fresh host l.show_buckets in (record l { show_buckets = pool }, b)

unfoldable pub get_config_bucket :
    Time → String → DeviceRateLimiter → DeviceRateLimiter × TokenBucket
get_config_bucket now host l =
    let fresh = RateLimiter.init l.config_rate l.config_burst now in
    let (pool, b) = get_or_create fresh host l.config_buckets in
    (record l { config_buckets = pool }, b)

unfoldable pub check_show : ℕ → Time → String → DeviceRateLimiter → DeviceRateLimiter × Bool
unfolding get_show_bucket
check_show one now host l =
    let (l', b) = get_show_bucket now host l in
    let (b', got) = acquire now one b in
    (record l' { show_buckets = Dict.put str_discrete host b' l'.show_buckets }, got)

unfoldable pub check_config : ℕ → Time → String → DeviceRateLimiter → DeviceRateLimiter × Bool
unfolding get_config_bucket
check_config one now host l =
    let (l', b) = get_config_bucket now host l in
    let (b', got) = acquire now one b in
    (record l' { config_buckets = Dict.put str_discrete host b' l'.config_buckets }, got)

unfoldable pub put_show :
    String → DeviceRateLimiter → Option (BackoffState × Bool) → Option (DeviceRateLimiter × Bool)
put_show host l none = none
put_show host l (some (s, got)) =
    some (record l { show_buckets = Dict.put str_discrete host s.bucket l.show_buckets }, got)

-- The fuel and the lateness of the sleeps are those of the loop of `acquire_with_backoff`.
unfoldable pub check_show_with_backoff :
    ℕ
    → (ℕ → Time)
    → ℕ
    → Time
    → String
    → Time
    → DeviceRateLimiter
    → Option (DeviceRateLimiter × Bool)
unfolding put_show get_show_bucket
check_show_with_backoff fuel late one now host max_wait l =
    let (l', b) = get_show_bucket now host l in
    put_show host l' (acquire_with_backoff fuel late now one max_wait b)

unfoldable pub put_config :
    String → DeviceRateLimiter → Option (BackoffState × Bool) → Option (DeviceRateLimiter × Bool)
put_config host l none = none
put_config host l (some (s, got)) =
    some (record l { config_buckets = Dict.put str_discrete host s.bucket l.config_buckets }, got)

unfoldable pub check_config_with_backoff :
    ℕ
    → (ℕ → Time)
    → ℕ
    → Time
    → String
    → Time
    → DeviceRateLimiter
    → Option (DeviceRateLimiter × Bool)
unfolding put_config get_config_bucket
check_config_with_backoff fuel late one now host max_wait l =
    let (l', b) = get_config_bucket now host l in
    put_config host l' (acquire_with_backoff fuel late now one max_wait b)

unfoldable pub show_wait_time :
    ℕ → Time → Time → String → DeviceRateLimiter → DeviceRateLimiter × WaitTime
show_wait_time one jitter now host l =
    let (pool, w) = pool_wait one jitter now host l.show_buckets in
    (record l { show_buckets = pool }, w)

unfoldable pub config_wait_time :
    ℕ → Time → Time → String → DeviceRateLimiter → DeviceRateLimiter × WaitTime
config_wait_time one jitter now host l =
    let (pool, w) = pool_wait one jitter now host l.config_buckets in
    (record l { config_buckets = pool }, w)
