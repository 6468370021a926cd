-- ===== src/RateLimiter.antt =====
-- src/network_mcp/rate_limiter.py: the token bucket and the limiters of devices, users and tenants.
-- Tokens are counted in grains and time in ticks of the clock, so that the source's real rate
-- (tokens per second) is a whole number of grains per tick: `one` is the number of grains in the
-- 1.0 token that a request costs. Float rounding is not modelled. The lock of a bucket makes each
-- method one step; the calls of a bucket read a clock that does not run backwards.
pub mod Bounds
pub mod Wait
pub mod Backoff
pub mod Limiters
pub mod Tiers
pub mod Redis
mod Tests
use network_mcp.Base.{
  ℕ, zero, suc, ◌+◌, ◌-◌, ◌*◌, ◌/◌, min, Bool, true, false, leb, ltb, ◌==◌, if◌then◌else◌, Time,
  Option, none, some, List, [], ◌∷◌, seconds,
}

pub record TokenBucket : Type 0 where
  pub rate : ℕ
  pub capacity : ℕ
  pub tokens : ℕ
  pub last_refill : Time

unfoldable pub init : ℕ → ℕ → Time → TokenBucket
init rate capacity now = record {
  rate = rate;
  capacity = capacity;
  tokens = capacity;
  last_refill = now;
}

-- the first lines of `acquire` and of `wait_time`
unfoldable pub refill : Time → TokenBucket → TokenBucket
refill now b = record b {
  tokens = min b.capacity (b.tokens + (now - b.last_refill) * b.rate);
  last_refill = now;
}

unfoldable pub acquire : Time → ℕ → TokenBucket → TokenBucket × Bool
unfolding refill
acquire now n b =
    let b' = refill now b in
    if leb n b'.tokens then (record b' { tokens = b'.tokens - n }, true) else (b', false)

-- What `wait_time` returns: 0.0, a ZeroDivisionError, or (deficit / rate) ticks and a random jitter.
pub data WaitTime : Type 0 where
  ready : WaitTime
  division_by_zero : WaitTime
  wait_for : ℕ → ℕ → Time → WaitTime

unfoldable pub wait_time : ℕ → Time → Time → TokenBucket → TokenBucket × WaitTime
unfolding refill
wait_time one jitter now b =
    let b' = refill now b in
    (
      b',
      if leb one b'.tokens
          then ready
          else if b'.rate == 0
          then division_by_zero
          else wait_for (one - b'.tokens) b'.rate jitter,
    )

-- Where a backoff has come to: the bucket, the clock, the calls of time.sleep so far (the last one
-- first), the count that the code keeps of them, and the next delay.
pub record BackoffState : Type 0 where
  pub bucket : TokenBucket
  pub clock : Time
  pub sleeps : List Time
  pub total_waited : Time
  pub delay : Time

-- time.sleep(duration), which may last longer than it was asked to (`late`)
unfoldable pub sleep : Time → Time → BackoffState → BackoffState
sleep duration late s = record s { clock = s.clock + duration + late; sleeps = duration ∷ s.sleeps }

-- 0.1 s and 1 s, in ticks
abbrev pub first_delay : Time
first_delay = 100_000_000

abbrev pub max_delay : Time
max_delay = seconds 1

-- One round of the loop of `acquire_with_backoff`: the sleep, its count, and another try.
unfoldable pub next_try : ℕ → Time → Time → BackoffState → BackoffState × Bool
unfolding acquire sleep
next_try n max_wait late s =
    let actual_delay = min s.delay (max_wait - s.total_waited) in
    let s' = sleep actual_delay late s in
    let (bucket', got) = acquire s'.clock n s'.bucket in
    (
      record s' {
        bucket = bucket';
        total_waited = s'.total_waited + actual_delay;
        delay = min (s'.delay * 2) max_delay;
      },
      got,
    )

-- The loop, on fuel; `none` means that the fuel ran out. `late` is the lateness of each round.
unfoldable pub backoff_loop :
    ℕ → (ℕ → Time) → ℕ → Time → BackoffState → Option (BackoffState × Bool)
backoff_loop zero late n max_wait s = none
backoff_loop (suc fuel) late n max_wait s =
    let (s', got) = next_try n max_wait (late fuel) s in
    let rest = if got then some (s', true) else backoff_loop fuel late n max_wait s' in
    if ltb s.total_waited max_wait then rest else some (s, false)

unfoldable pub acquire_with_backoff :
    ℕ → (ℕ → Time) → Time → ℕ → Time → TokenBucket → Option (BackoffState × Bool)
unfolding acquire
acquire_with_backoff fuel late now n max_wait b =
    let (b', got) = acquire now n b in
    let s : BackoffState = record {
      bucket = b';
      clock = now;
      sleeps = [];
      total_waited = 0;
      delay = first_delay;
    } in
    if got
    then some (s, true)
    else if leb max_wait 0
    then some (s, false)
    else backoff_loop fuel late n max_wait s
