-- ===== src/RateLimiter/Tests.antt =====
-- Runs of the rate limiters, and the theorems at concrete inputs.
use network_mcp.Base.{◌≡◌, refl, ℕ, ◌+◌, ◌*◌, ◌-◌, ◌≤◌, List, [], ◌∷◌, arith, Time, str_discrete}
use network_mcp.RateLimiter.{TokenBucket, init, wait_for, acquire, wait_time, acquire_with_backoff}
use network_mcp.RateLimiter.Bounds.{Requests, serve, serve_bound, refused, refused-Spaced}
use network_mcp.RateLimiter.Wait.{Promise, wait_time_exact}
use network_mcp.RateLimiter.Backoff.{InTime, acquire_with_backoff-InTime}
use network_mcp.RateLimiter.Limiters.{DeviceRateLimiter, init_device}
use network_mcp.RateLimiter.Limiters.Budgets.{
  Check, show, config, run, budget_of, spend_own, run-budget_of,
}
use network_mcp.RateLimiter.Tiers.{scope_to_tier, tier_write}

-- 5 grains per tick, 20 grains of burst
abbrev small_bucket : TokenBucket
small_bucket = init 5 20 100

abbrev requests : Requests
requests = (101, 10) ∷ (101, 10) ∷ (103, 10) ∷ []

some_served :
    serve requests small_bucket ≡ (record small_bucket { tokens = 0; last_refill = 103 }, 30)
unfolding serve init acquire
some_served = refl

serve_bound_example :
    let (b', admitted) = serve requests small_bucket in
    (b'.tokens ≤ b'.capacity)
    × (small_bucket.last_refill ≤ b'.last_refill)
    × (b'.tokens + admitted
        ≤ small_bucket.tokens + (b'.last_refill - small_bucket.last_refill) * small_bucket.rate)
unfolding init
serve_bound_example =
    serve_bound requests small_bucket (omega arith, (omega arith, (omega arith, _))) (omega arith)

refused-Spaced_example : refused ((102, 10) ∷ (104, 10) ∷ (106, 10) ∷ []) small_bucket ≡ 0
unfolding init
refused-Spaced_example =
    refused-Spaced ((102, 10) ∷ (104, 10) ∷ (106, 10) ∷ []) 10 2 small_bucket
      (omega arith, refl, (omega arith, refl, (omega arith, refl, _))) (omega arith) (omega arith)

abbrev empty_bucket : TokenBucket
empty_bucket = record { rate = 5; capacity = 20; tokens = 1; last_refill = 100 }

waits : (wait_time 10 7 100 empty_bucket).1 ≡ wait_for 9 5 7
unfolding wait_time
waits = refl

wait_time_exact_example :
    let (b', answer) = wait_time 10 7 100 empty_bucket in Promise 10 7 100 b' answer
wait_time_exact_example = wait_time_exact 10 7 100 empty_bucket (omega arith)

backoff_example_late : ℕ → Time
backoff_example_late round = 3

acquire_with_backoff-InTime_example :
    InTime 100 4 (acquire_with_backoff 5 backoff_example_late 100 16 4 empty_bucket)
acquire_with_backoff-InTime_example =
    acquire_with_backoff-InTime 5 backoff_example_late 100 16 4 empty_bucket (omega arith)

abbrev devices : DeviceRateLimiter
devices = init_device 5 20 1 2

abbrev checks : List Check
checks =
    (show, "spine-01", 5)
    ∷ (config, "spine-01", 6)
    ∷ (show, "leaf-02", 7)
    ∷ (show, "spine-01", 8)
    ∷ []

run-budget_of_example :
    budget_of show "spine-01" (run 10 devices checks)
    ≡ spend_own 10 show "spine-01" (budget_of show "spine-01" devices) checks
run-budget_of_example = run-budget_of 10 devices checks show "spine-01"

write_tier : scope_to_tier ("network:read" ∷ "network:write" ∷ []) ≡ tier_write
unfolding scope_to_tier str_discrete
write_tier = refl
