-- ===== src/CircuitBreaker.antt =====
-- src/network_mcp/circuit_breaker.py: the per-device circuit breaker. A method that reads the clock
-- takes the time as an argument; one that changes the object returns the new record. The breaker's
-- lock makes each method one step. A clock that does not run backwards keeps `now - last` exact.
pub mod Invariant
pub mod Window
pub mod Backoff
pub mod Registry
pub mod Redis
mod Tests
use network_mcp.Base.{
  ℕ, ◌+◌, ◌-◌, ◌*◌, min, String, Bool, true, false, leb, if◌then◌else◌, Time, seconds,
}

pub data DeviceHealth : Type 0 where
  healthy circuit_open half_open : DeviceHealth

-- `health == DeviceHealth.CIRCUIT_OPEN`, and the same for HALF_OPEN
abbrev pub is_open : DeviceHealth → Bool
is_open circuit_open = true
is_open _ = false

abbrev pub is_half_open : DeviceHealth → Bool
is_half_open half_open = true
is_half_open _ = false

-- _MAX_COOLDOWN
abbrev pub max_cooldown : ℕ
max_cooldown = 300

pub record CircuitBreaker : Type 0 where
  pub host : String
  pub threshold : ℕ
  pub base_cooldown : ℕ
  pub cooldown : ℕ
  pub state : DeviceHealth
  pub consecutive_failures : ℕ
  pub last_failure_time : Time

unfoldable pub init : String → ℕ → ℕ → CircuitBreaker
init host threshold cooldown = record {
  host = host;
  threshold = threshold;
  base_cooldown = cooldown;
  cooldown = cooldown;
  state = healthy;
  consecutive_failures = 0;
  last_failure_time = 0;
}

-- The breaker after the check of the cooldown, and the state that is returned.
unfoldable pub get_state : Time → CircuitBreaker → CircuitBreaker × DeviceHealth
get_state now b =
    let b' =
      if is_open b.state
      then (if leb (seconds b.cooldown) (now - b.last_failure_time)
          then record b { state = half_open }
          else b)
      else b in
    (b', b'.state)

unfoldable pub allow_request : Time → CircuitBreaker → CircuitBreaker × Bool
unfolding get_state
allow_request now b =
    let (b', current) = get_state now b in (b', if is_open current then false else true)

unfoldable pub record_success : CircuitBreaker → CircuitBreaker
record_success b = record b {
  consecutive_failures = 0;
  cooldown = b.base_cooldown;
  state = healthy;
}

unfoldable pub record_failure : Time → CircuitBreaker → CircuitBreaker
record_failure now b =
    let b' = record b {
      consecutive_failures = b.consecutive_failures + 1;
      last_failure_time = now;
    } in
    if is_half_open b.state
    then record b' { cooldown = min (b.cooldown * 2) max_cooldown; state = circuit_open }
    else if leb b.threshold b'.consecutive_failures
    then record b' { state = circuit_open }
    else b'

-- The dict that `to_dict` returns.
pub record Snapshot : Type 0 where
  pub host : String
  pub state : DeviceHealth
  pub consecutive_failures : ℕ
  pub threshold : ℕ
  pub cooldown_seconds : ℕ

unfoldable pub to_dict : Time → CircuitBreaker → CircuitBreaker × Snapshot
unfolding get_state
to_dict now b =
    let (b', current) = get_state now b in
    (
      b',
      record {
        host = b'.host;
        state = current;
        consecutive_failures = b'.consecutive_failures;
        threshold = b'.threshold;
        cooldown_seconds = b'.cooldown;
      },
    )

-- What a client does with a breaker, each with the time at which it happens.
pub data Event : Type 0 where
  check : Time → Event
  success : Event
  failure : Time → Event

unfoldable pub step : CircuitBreaker → Event → CircuitBreaker
step b (check now) = (allow_request now b).0
step b success = record_success b
step b (failure now) = record_failure now b
