-- ===== src/CircuitBreaker/Backoff.antt =====
-- The exponential backoff of the cooldown over failed probes.
use network_mcp.Base.{
  ℕ, zero, suc, ◌+◌, ◌*◌, ◌≤◌, ◌<◌, ◌≡◌, min, ap, sym, ◌∙◌, List, [], ◌∷◌, arith, Time, seconds,
  length,
}
use Prim.Native.Nat.{◌^◌}
use native.Mathlib.Nat.{pow-suc}
use native.Mathlib.Decide.{dec_le}
use network_mcp.CircuitBreaker.{
  CircuitBreaker, circuit_open, max_cooldown, allow_request, record_failure,
}

-- A probe: a request that comes as soon as the cooldown since the last failure has passed, with a
-- delay of its own, and then fails after a while.
pub record Probe : Type 0 where
  pub delay : Time
  pub duration : Time

unfoldable pub probe_once : Probe → CircuitBreaker → CircuitBreaker
probe_once p b =
    let now = b.last_failure_time + seconds b.cooldown + p.delay in
    record_failure (now + p.duration) (allow_request now b).0

unfoldable pub probe_all : List Probe → CircuitBreaker → CircuitBreaker
probe_all [] b = b
probe_all (p ∷ ps) b = probe_all ps (probe_once p b)

probe_once_lem :
    (p : Probe) (b : CircuitBreaker)
    → b.state ≡ circuit_open
    → let c = probe_once p b in
      (c.state ≡ circuit_open)
      × (c.cooldown ≡ min (b.cooldown * 2) max_cooldown)
      × (c.base_cooldown ≡ b.base_cooldown)
      × (c.consecutive_failures ≡ b.consecutive_failures + 1)
unfolding probe_once allow_request record_failure
probe_once_lem p b o = ground arith

pow_pos : (n : ℕ) → 0 < 2 ^ n
pow_pos zero = omega arith
pow_pos (suc n) = omega (arith, pow-suc 2 n, pow_pos n)

-- Capping before the remaining doublings or after them is the same.
cap_early : (c q n : ℕ) → 0 < q → min (min (c * 2) n * q) n ≡ min (c * (q * 2)) n
cap_early c zero n h = absurd (omega arith)
cap_early c (suc q) n h = elim (dec_le (c * 2) n) [
  | yes l ↦ let e : min (c * 2) n ≡ c * 2 = omega arith in rw e (omega arith)
  | no l ↦ let e : min (c * 2) n ≡ n = omega arith in rw e (above c q n (omega arith))
]
  where
    above : (c q n : ℕ) → n ≤ c * 2 → min (n * suc q) n ≡ min (c * (suc q * 2)) n
    above c q n l = omega arith

-- An open breaker whose probes all fail stays open; after n of them its cooldown is the first one
-- doubled n times, capped at max_cooldown, if the first one is at most the cap.
pub probe_all_backoff :
    (ps : List Probe) (b : CircuitBreaker)
    → b.state ≡ circuit_open
    → b.cooldown ≤ max_cooldown
    → let c = probe_all ps b in
      (c.state ≡ circuit_open)
      × (c.cooldown ≡ min (b.cooldown * 2 ^ length ps) max_cooldown)
      × (c.consecutive_failures ≡ b.consecutive_failures + length ps)
unfolding probe_all
probe_all_backoff [] b o h = (o, omega arith, omega arith)
probe_all_backoff (p ∷ ps) b o h =
    let (o', c', _, f') = probe_once_lem p b o in
    let (o'', c'', f'') = probe_all_backoff ps (probe_once p b) o' (omega arith) in
    let q = 2 ^ length ps in
    (
      o'',
      c''
          ∙ ap (λ c. min (c * q) max_cooldown) c'
          ∙ cap_early b.cooldown q max_cooldown (pow_pos (length ps))
          ∙ ap (λ t. min (b.cooldown * t) max_cooldown) (sym (pow-suc 2 (length ps))),
      omega arith,
    )

-- If the base cooldown is above the cap, the first failed probe makes the cooldown shorter than its
-- base instead of longer.
pub probe_once-shortens :
    (p : Probe) (b : CircuitBreaker)
    → b.state ≡ circuit_open
    → b.cooldown ≡ b.base_cooldown
    → max_cooldown < b.base_cooldown
    → (probe_once p b).cooldown < b.cooldown
probe_once-shortens p b o e h = omega (arith, (probe_once_lem p b o).1)
