-- ===== src/CircuitBreaker/Redis.antt =====
-- src/network_mcp/distributed/redis_circuit_breaker.py: the breaker state of each host as a JSON
-- text in Redis. The Redis client and the JSON codec are not part of the repository: they are
-- parameters. A call of Redis may raise, which is `none`.
pub mod Agreement
use network_mcp.Base.{
  ◌≡◌, ◌≢◌, ℕ, ◌+◌, ◌-◌, ◌*◌, min, Bool, true, false, String, Option, none, some, leb, ite,
  str_discrete, if◌then◌else◌, Time, seconds,
}
use Prim.Native.String.{◌++◌}
use network_mcp.CircuitBreaker.{
  DeviceHealth, healthy, circuit_open, half_open, is_open, is_half_open, max_cooldown,
}

-- A Redis server, as its string commands see it. `Up` says that the server answers.
-- The type of the texts that it holds is a parameter.
pub record RedisClient (T : Type 0) : Type 1 where
  pub Store : Type 0
  pub Up : Store → Type 0
  pub fetch : String → Store → Option (Option T)
  pub write : String → T → Store → Option Store
  pub delete : String → Store → Option Store
  pub fetch_up : (k : String) (s : Store) → Up s → fetch k s ≢ none
  pub write_up : (k : String) (v : T) (s : Store) → Up s → write k v s ≢ none
  pub write_kept : (k : String) (v : T) (s t : Store) → Up s → write k v s ≡ some t → Up t
  pub fetch-write :
      (k : String) (v : T) (j : String) (s t : Store)
      → Up s
      → write k v s ≡ some t
      → fetch j t ≡ ite (str_discrete k j) (some (some v)) (fetch j s)

-- The dict of one breaker.
pub record BreakerState : Type 0 where
  pub state : DeviceHealth
  pub failures : ℕ
  pub last_failure : Time
  pub cooldown : ℕ
  pub threshold : ℕ

-- `json.dumps` and `json.loads` on these dicts; `loads` may raise. `full` is the truth value of a
-- text, and the text of a dict is not empty.
pub record Codec (T : Type 0) : Type 0 where
  pub dumps : BreakerState → T
  pub loads : T → Option BreakerState
  pub full : T → Bool
  pub loads-dumps : (s : BreakerState) → loads (dumps s) ≡ some s
  pub full-dumps : (s : BreakerState) → full (dumps s) ≡ true

pub record RedisRegistry : Type 0 where
  pub threshold : ℕ
  pub base_cooldown : ℕ
  pub enabled : Bool
  pub key_prefix : String

unfoldable pub key : RedisRegistry → String → String
key r host = r.key_prefix ++ ":" ++ host

-- the dict that `_get_state` makes up for a host without one
unfoldable pub default_state : RedisRegistry → BreakerState
default_state r = record {
  state = healthy;
  failures = 0;
  last_failure = 0;
  cooldown = r.base_cooldown;
  threshold = r.threshold;
}

unfoldable pub check_transition : Time → BreakerState → BreakerState
check_transition now s =
    if is_open s.state
    then (if leb (seconds s.cooldown) (now - s.last_failure)
        then record s { state = half_open }
        else s)
    else s

-- the branches of `record_failure` on the state after the check of the transition
unfoldable pub failed : Time → BreakerState → BreakerState
failed now state =
    let state' = record state { failures = state.failures + 1; last_failure = now } in
    if is_half_open state.state
    then record state' { cooldown = min (state.cooldown * 2) max_cooldown; state = circuit_open }
    else if leb state.threshold state'.failures
    then record state' { state = circuit_open }
    else state'

module _ {T : Type 0} (c : RedisClient T) (j : Codec T) (r : RedisRegistry) where
  open c use {Store, fetch, write, delete}
  open j use {loads, dumps, full}

  abbrev or_default : Option BreakerState → BreakerState
  or_default none = default_state r
  or_default (some s) = s

  -- `if data: return json.loads(data)`; an exception gives the default too
  abbrev parsed : Option (Option T) → BreakerState
  parsed none = default_state r
  parsed (some none) = default_state r
  parsed (some (some text)) = if full text then or_default (loads text) else default_state r

  unfoldable pub get_state : String → Store → BreakerState
  get_state host s = parsed (fetch (key r host) s)

  abbrev or_kept : Store → Option Store → Store
  or_kept s none = s
  or_kept s (some t) = t

  -- a failed write is logged and dropped
  unfoldable pub set_state : String → BreakerState → Store → Store
  set_state host state s = or_kept s (write (key r host) (dumps state) s)

  unfoldable pub allow_request : Time → String → Store → Store × Bool
  unfolding get_state set_state check_transition
  allow_request now host s =
      let state = check_transition now (get_state host s) in
      if r.enabled
      then (set_state host state s, if is_open state.state then false else true)
      else (s, true)

  unfoldable pub record_success : String → Store → Store
  unfolding get_state set_state
  record_success host s =
      let state = get_state host s in
      if r.enabled
      then set_state host
          (record state { state = healthy; failures = 0; cooldown = r.base_cooldown }) s
      else s

  unfoldable pub record_failure : Time → String → Store → Store
  unfolding get_state set_state check_transition failed
  record_failure now host s =
      let state = check_transition now (get_state host s) in
      if r.enabled then set_state host (failed now state) s else s

  -- reset(host)
  unfoldable pub reset : String → Store → Store
  reset host s = or_kept s (delete (key r host) s)
