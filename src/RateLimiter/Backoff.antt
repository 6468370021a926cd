-- ===== src/RateLimiter/Backoff.antt =====
-- `acquire_with_backoff` of src/network_mcp/rate_limiter.py: the time that it sleeps.
use network_mcp.Base.{
  if_split, leb, ℕ, zero, suc, ◌+◌, ◌≤◌, ◌<◌, ◌≡◌, refl, Bool, true, false, Time, Option, some,
  none, List, [], ◌∷◌, All, arith, ltb,
}
use network_mcp.RateLimiter.{
  TokenBucket, BackoffState, max_delay, acquire, next_try, backoff_loop, acquire_with_backoff,
}

-- The time that the calls of time.sleep ask for.
abbrev pub total : List Time → Time
total [] = 0
total (d ∷ ds) = d + total ds

-- What a finished loop has done since a time: its calls of time.sleep ask for max_wait at most, and
-- for exactly that if it gave up; each asks for a second at most; and the clock shows that at least.
abbrev pub InTime : Time → Time → Option (BackoffState × Bool) → Type 0
InTime start max_wait none = ⊥
InTime start max_wait (some (s, true)) =
    (total s.sleeps ≤ max_wait)
    × All (λ d. d ≤ max_delay) s.sleeps
    × (start + total s.sleeps ≤ s.clock)
InTime start max_wait (some (s, false)) =
    (total s.sleeps ≡ max_wait)
    × All (λ d. d ≤ max_delay) s.sleeps
    × (start + total s.sleeps ≤ s.clock)

-- What holds at the head of the loop: the code's count is the time that was asked for.
record IsCounted (start max_wait : Time) (s : BackoffState) : Type 0 where
  counted : s.total_waited ≡ total s.sleeps
  within : s.total_waited ≤ max_wait
  short : All (λ d. d ≤ max_delay) s.sleeps
  passed : start + total s.sleeps ≤ s.clock
  delays : 1 ≤ s.delay
  capped : s.delay ≤ max_delay

next_try-IsCounted :
    (start n max_wait late : ℕ) (s : BackoffState)
    → s.total_waited < max_wait
    → IsCounted start max_wait s
    → let s' = (next_try n max_wait late s).0 in
      IsCounted start max_wait s' × (s.total_waited < s'.total_waited)
unfolding next_try
next_try-IsCounted start n max_wait late s h c =
    let short = c.short in
    (
      record {
        counted = ground arith;
        within = ground arith;
        short = (ground arith, short);
        passed = ground arith;
        delays = ground arith;
        capped = ground arith;
      },
      ground arith,
    )

got-InTime :
    (start max_wait : Time) (s : BackoffState)
    → IsCounted start max_wait s
    → InTime start max_wait (some (s, true))
got-InTime start max_wait s c = (omega arith, c.short, c.passed)

gave_up-InTime :
    (start max_wait : Time) (s : BackoffState)
    → ltb s.total_waited max_wait ≡ false
    → IsCounted start max_wait s
    → InTime start max_wait (some (s, false))
gave_up-InTime start max_wait s p c = (ground arith, c.short, c.passed)

backoff_loop-InTime :
    (fuel : ℕ) (late : ℕ → Time) (start n max_wait : ℕ) (s : BackoffState)
    → max_wait < s.total_waited + fuel
    → IsCounted start max_wait s
    → InTime start max_wait (backoff_loop fuel late n max_wait s)
unfolding backoff_loop
backoff_loop-InTime zero late start n max_wait s f c = absurd (omega arith)
backoff_loop-InTime (suc fuel) late start n max_wait s f c =
    if_split (InTime start max_wait) (ltb s.total_waited max_wait)
      (λ p.
        let s' = (next_try n max_wait (late fuel) s).0 in
        let w = next_try-IsCounted start n max_wait (late fuel) s (ground arith) c in
        if_split (InTime start max_wait) (next_try n max_wait (late fuel) s).1
          (λ q. got-InTime start max_wait s' w.0)
          (λ q. backoff_loop-InTime fuel late start n max_wait s' (omega arith) w.0))
      (λ p. gave_up-InTime start max_wait s p c)

-- `acquire_with_backoff` ends, whatever the lateness of its sleeps: with fuel above max_wait it
-- returns. The durations that it passes to time.sleep are together at most max_wait if it got the
-- tokens, and exactly max_wait if not; each is a second at most; and the clock, which was `now` at
-- the call, has moved on by their sum at least.
pub acquire_with_backoff-InTime :
    (fuel : ℕ) (late : ℕ → Time) (now n max_wait : ℕ) (b : TokenBucket)
    → max_wait < fuel
    → InTime now max_wait (acquire_with_backoff fuel late now n max_wait b)
unfolding acquire_with_backoff
acquire_with_backoff-InTime fuel late now n max_wait b f =
    if_split (InTime now max_wait) (acquire now n b).1 (λ p. (omega arith, tt, omega arith))
      (λ p.
        if_split (InTime now max_wait) (leb max_wait 0) (λ q. (ground arith, tt, omega arith))
          (λ q. backoff_loop-InTime fuel late now n max_wait _ (omega arith) (record {
            counted = refl;
            within = omega arith;
            short = tt;
            passed = omega arith;
            delays = omega arith;
            capped = omega arith;
          })))
