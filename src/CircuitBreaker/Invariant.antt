-- ===== src/CircuitBreaker/Invariant.antt =====
-- What holds of a breaker between two calls, and what a run of failures does.
use network_mcp.Base.{ℕ, ◌+◌, ◌≤◌, ◌<◌, ◌≡◌, ◌≢◌, ◌↔◌, List, [], ◌∷◌, arith, String, Time, length}
use network_mcp.CircuitBreaker.{
  CircuitBreaker, Event, healthy, circuit_open, half_open, max_cooldown, init, allow_request,
  record_success, record_failure, step,
}

-- The breaker is configured sensibly, and its state agrees with its counters.
pub record IsValid (b : CircuitBreaker) : Type 0 where
  pub counts : 0 < b.threshold
  pub base_capped : b.base_cooldown ≤ max_cooldown
  pub cooldown_grows : b.base_cooldown ≤ b.cooldown
  pub cooldown_capped : b.cooldown ≤ max_cooldown
  pub closed_below : b.state ≡ healthy → b.consecutive_failures < b.threshold
  pub tripped_failed : b.state ≢ healthy → b.threshold ≤ b.consecutive_failures

pub init-IsValid : (h : String) (t c : ℕ) → 0 < t → c ≤ max_cooldown → IsValid (init h t c)
unfolding init
init-IsValid h t c p q = ground arith

-- Every call, at any time, keeps a breaker valid: the cooldown stays between its base and the cap,
-- and the breaker is healthy exactly while the failures are below the threshold.
pub step-IsValid : (b : CircuitBreaker) (e : Event) → IsValid b → IsValid (step b e)
unfolding step allow_request record_success record_failure
step-IsValid b (Event.check now) v = ground arith
step-IsValid b Event.success v = ground arith
step-IsValid b (Event.failure now) v = ground arith

unfoldable pub run : CircuitBreaker → List Event → CircuitBreaker
run b [] = b
run b (e ∷ es) = run (step b e) es

pub run-IsValid : (b : CircuitBreaker) (es : List Event) → IsValid b → IsValid (run b es)
unfolding run
run-IsValid b [] v = v
run-IsValid b (e ∷ es) v = run-IsValid (step b e) es (step-IsValid b e v)

-- The failures of a list of times, one after the other.
unfoldable pub fail_at : CircuitBreaker → List Time → CircuitBreaker
fail_at b [] = b
fail_at b (t ∷ ts) = fail_at (record_failure t b) ts

record_failure_facts :
    (t : Time) (b : CircuitBreaker)
    → b.state ≢ half_open
    → (0 < b.threshold)
    → (b.state ≡ healthy → b.consecutive_failures < b.threshold)
    → (b.state ≡ circuit_open → b.threshold ≤ b.consecutive_failures)
    → let c = record_failure t b in
      (c.state ≢ half_open)
      × (c.threshold ≡ b.threshold)
      × (c.consecutive_failures ≡ b.consecutive_failures + 1)
      × (c.state ≡ healthy → c.consecutive_failures < c.threshold)
      × (c.state ≡ circuit_open → c.threshold ≤ c.consecutive_failures)
unfolding record_failure
record_failure_facts t b h k u w = ground arith

fail_at_counts :
    (b : CircuitBreaker) (ts : List Time)
    → b.state ≢ half_open
    → (0 < b.threshold)
    → (b.state ≡ healthy → b.consecutive_failures < b.threshold)
    → (b.state ≡ circuit_open → b.threshold ≤ b.consecutive_failures)
    → ((fail_at b ts).state ≡ circuit_open) ↔ (b.threshold ≤ b.consecutive_failures + length ts)
unfolding fail_at
fail_at_counts b [] h k u w = ground arith
fail_at_counts b (t ∷ ts) h k u w =
    let (h', e, n, u', w') = record_failure_facts t b h k u w in
    let ih = fail_at_counts (record_failure t b) ts h' (ground arith) u' w' in
    (λ o. ground (arith, ih.0 o), λ l. ih.1 (ground arith))

-- A new breaker opens at the failure that brings the count of consecutive failures to the
-- threshold, not before it, and stays open under further failures.
pub fail_at-opens_iff :
    (host : String) (threshold cooldown : ℕ) (ts : List Time)
    → 0 < threshold
    → ((fail_at (init host threshold cooldown) ts).state ≡ circuit_open) ↔ (threshold ≤ length ts)
unfolding init
fail_at-opens_iff host threshold cooldown ts h =
    let r = fail_at_counts (init host threshold cooldown) ts (λ e. cc) h (λ _. h) (λ e. cc) in
    (λ o. omega (arith, r.0 o), λ l. r.1 (omega arith))
