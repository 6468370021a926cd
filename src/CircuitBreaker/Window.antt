-- ===== src/CircuitBreaker/Window.antt =====
-- What an open breaker answers, and when it lets a request through again.
use network_mcp.Base.{
  ◌-◌, ◌≤◌, ◌<◌, ◌≡◌, refl, ◌≢◌, ◌↔◌, true, false, List, [], ◌∷◌, arith, Time, seconds, All,
}
use network_mcp.CircuitBreaker.{CircuitBreaker, circuit_open, half_open, allow_request}

-- The breaker after requests at the given times, with no result recorded between them.
unfoldable pub ask : List Time → CircuitBreaker → CircuitBreaker
ask [] b = b
ask (t ∷ ts) b = ask ts (allow_request t b).0

-- A request is refused exactly when the breaker is open and its cooldown has not passed.
pub allow_request-refused_iff :
    (now : Time) (b : CircuitBreaker)
    → ((allow_request now b).1 ≡ false)
      ↔ ((b.state ≡ circuit_open) × (now - b.last_failure_time < seconds b.cooldown))
unfolding allow_request
allow_request-refused_iff now b = ground arith

abbrev Early : CircuitBreaker → Time → Type 0
Early b t = t - b.last_failure_time < seconds b.cooldown

ask_within :
    (ts : List Time) (b : CircuitBreaker) → b.state ≡ circuit_open → All (Early b) ts → ask ts b ≡ b
unfolding ask
ask_within [] b o h = refl
ask_within (t ∷ ts) b o h = rw (same t b o h.0) (ask_within ts b o h.1)
  where
    same :
        (t : Time) (b : CircuitBreaker)
        → b.state ≡ circuit_open
        → Early b t
        → (allow_request t b).0 ≡ b
    same t b o h = unfold allow_request in ground arith

-- The window of an open breaker: as long as every request comes before the cooldown has passed, it
-- is refused and the breaker stays as it was; the first request that comes at or after that time
-- is let through, and leaves the breaker half open, with the failures and the cooldown kept.
pub ask_window :
    (ts : List Time) (now : Time) (b : CircuitBreaker)
    → b.state ≡ circuit_open
    → All (λ t. t - b.last_failure_time < seconds b.cooldown) ts
    → let b' = ask ts b in
      ((now - b.last_failure_time < seconds b.cooldown) → allow_request now b' ≡ (b, false))
      × ((seconds b.cooldown ≤ now - b.last_failure_time)
          → allow_request now b' ≡ (record b { state = half_open }, true))
ask_window ts now b o h = rw (ask_within ts b o h) (refused, allowed)
  where
    refused : now - b.last_failure_time < seconds b.cooldown → allow_request now b ≡ (b, false)
    refused l = unfold allow_request in ground arith

    allowed :
        seconds b.cooldown ≤ now - b.last_failure_time
        → allow_request now b ≡ (record b { state = half_open }, true)
    allowed l = unfold allow_request in ground arith

-- A half-open or healthy breaker lets every request through, however many come before a result is
-- recorded, and they do not change it.
pub ask_closed :
    (ts : List Time) (now : Time) (b : CircuitBreaker)
    → b.state ≢ circuit_open
    → allow_request now (ask ts b) ≡ (b, true)
unfolding ask
ask_closed [] now b h = unfold allow_request in ground arith
ask_closed (t ∷ ts) now b h =
    let same : (allow_request t b).0 ≡ b = unfold allow_request in ground arith in
    rw same (ask_closed ts now b h)
