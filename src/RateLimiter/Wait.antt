-- ===== src/RateLimiter/Wait.antt =====
-- `wait_time` of src/network_mcp/rate_limiter.py, against `acquire`.
use network_mcp.Base.{leb, ◌==◌, if_split, ℕ, ◌+◌, ◌-◌, ◌*◌, ◌≤◌, ◌≡◌, true, false, Time, arith, ap}
use network_mcp.RateLimiter.{
  TokenBucket, WaitTime, ready, division_by_zero, wait_for, refill, acquire, wait_time,
}

-- What an answer of `wait_time` at a time, with a jitter drawn, promises of the next `acquire`, t
-- ticks later. At 0.0 it is allowed at once, and at a division by zero it is refused for ever. Any
-- other answer is returned as deficit / rate + jitter, here multiplied by the rate: the next
-- `acquire` is allowed exactly if t and the jitter drawn are together as long as what was returned.
abbrev pub Promise : ℕ → Time → Time → TokenBucket → WaitTime → Type 0
Promise one drawn now b ready = (acquire now one b).1 ≡ true
Promise one drawn now b division_by_zero = (t : Time) → (acquire (now + t) one b).1 ≡ false
Promise one drawn now b (wait_for deficit rate jitter) =
    (t : Time) → (acquire (now + t) one b).1 ≡ leb (deficit + jitter * rate) ((t + drawn) * rate)

elapsed : (now t r : ℕ) → (now + t - now) * r ≡ t * r
elapsed now t r = let same : now + t - now ≡ t = omega arith in ap (λ x. x * r) same

no_gain : (x r : ℕ) → (r == 0) ≡ true → x * r ≡ 0
no_gain x r q = let zero_rate : r ≡ 0 = ground arith in rw zero_rate (omega arith)

module _ (one now : ℕ) (b : TokenBucket) (h : one ≤ b.capacity) where
  allowed_now : leb one (refill now b).tokens ≡ true → (acquire now one (refill now b)).1 ≡ true
  unfolding refill acquire
  allowed_now p = ground arith

  no_rate :
      leb one (refill now b).tokens ≡ false
      → (b.rate == 0) ≡ true
      → (t : Time) → (acquire (now + t) one (refill now b)).1 ≡ false
  unfolding refill acquire
  no_rate p q t = let e = no_gain (now + t - now) b.rate q in ground arith

  after_wait :
      (drawn : Time)
      → leb one (refill now b).tokens ≡ false
      → Promise one drawn now (refill now b) (wait_for (one - (refill now b).tokens) b.rate drawn)
  unfolding refill acquire
  after_wait drawn p t =
      let same = elapsed now t b.rate in
      let sum : (t + drawn) * b.rate ≡ t * b.rate + drawn * b.rate = grind arith in
      rw sum (ground arith)

-- The answer of `wait_time` on each branch, for a bucket that can hold the one token. It is 0.0 only
-- if a request is let through at once, and a division by zero only if a request is refused for ever.
-- Otherwise it is the jitter that was drawn and the exact time after which a request is let through
-- and before which it is refused.
pub wait_time_exact :
    (one jitter now : ℕ) (b : TokenBucket)
    → one ≤ b.capacity
    → let (b', answer) = wait_time one jitter now b in Promise one jitter now b' answer
unfolding wait_time acquire
wait_time_exact one jitter now b h =
    let b' = refill now b in
    if_split (Promise one jitter now b') (leb one b'.tokens) (λ p. allowed_now one now b h p)
      (λ p.
        if_split (Promise one jitter now b') (b.rate == 0) (λ q. no_rate one now b h p q)
          (λ q. after_wait one now b h jitter p))
