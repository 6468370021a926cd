-- ===== src/RateLimiter/Redis/Window.antt =====
-- The window of the Redis rate limiter, under rapid and under slow requests.
use network_mcp.Base.{
  ◌≡◌, refl, ℕ, suc, ◌+◌, ◌-◌, ◌≤◌, ◌<◌, min, Bool, String, some, List, [], ◌∷◌, leb, length,
  if◌then◌else◌, Time, seconds, arith, ap, ◌∙◌,
}
use mathlib.Core.Path.{subst⁻¹}
use network_mcp.RateLimiter.Redis.{
  RedisCounters, RedisRateLimiter, key, rate_for, check_show, or_open, acquire_counter, within_rate,
}

-- Each time comes after the one before, less than a second later.
abbrev pub Rapid : Time → List Time → Type 0
Rapid t [] = Unit
Rapid t (now ∷ ts) = (t ≤ now) × (now < t + seconds 1) × Rapid now ts

-- Each time comes at least a second after the one before.
abbrev pub Slow : Time → List Time → Type 0
Slow t [] = Unit
Slow t (now ∷ ts) = (t + seconds 1 ≤ now) × Slow now ts

module _ (p : RedisCounters) where
  -- how many of the show commands at these times are let through
  unfoldable pub admitted : RedisRateLimiter → String → List Time → p.Store → ℕ
  admitted l host [] s = 0
  admitted l host (now ∷ ts) s =
      let (s', allowed) = check_show p now l host s in
      let later = admitted l host ts s' in if allowed then suc later else later

  -- One check counts one request, and lets it through if the count is within the rate.
  record Counted (now : Time) (l : RedisRateLimiter) (host : String) (s : p.Store) : Type 0 where
    next : p.Store
    counted :
        p.incr_expire now (key l host "show") s ≡ some (next, p.count now (key l host "show") s + 1)
    is_up : p.Up next
    answer :
        check_show p now l host s
        ≡ (next, leb (p.count now (key l host "show") s + 1) (rate_for l "show"))

  check_show-Counted :
      (now : Time) (l : RedisRateLimiter) (host : String) (s : p.Store)
      → p.Up s
      → Counted now l host s
  unfolding check_show or_open acquire_counter within_rate
  check_show-Counted now l host s up =
      let (s', counted, up') = p.incr_up now (key l host "show") s up in
      record { next = s'; counted = counted; is_up = up'; answer = rw counted refl }

  -- From a count c at the first request on, only the first requests up to the rate are let through,
  -- as long as the requests go on with gaps of less than a second.
  admitted-Rapid :
      (l : RedisRateLimiter) (host : String) (t : Time) (ts : List Time) (s : p.Store) (c : ℕ)
      → p.Up s
      → Rapid t ts
      → ((now : Time) → t ≤ now → now < t + seconds 1 → p.count now (key l host "show") s ≡ c)
      → admitted l host ts s ≡ min (length ts) (rate_for l "show" - c)
  unfolding admitted
  admitted-Rapid l host t [] s c up r same = omega arith
  admitted-Rapid l host t (now ∷ ts) s c up (after, soon, r) same =
      let q = check_show-Counted now l host s up in
      let here = same now after soon in
      let ih =
        admitted-Rapid l host now ts q.next (p.count now (key l host "show") s + 1) q.is_up r
          (λ later a b. p.count_within now later (key l host "show") s q.next _ q.counted a b) in
      subst⁻¹
        (λ (x : p.Store × Bool).
          (if x.1 then suc (admitted l host ts x.0) else admitted l host ts x.0)
          ≡ min (length (now ∷ ts)) (rate_for l "show" - c))
        q.answer (ground arith)

  -- While show commands for a host go on with gaps of less than a second, the limiter lets through
  -- the first of them up to the rate and refuses all others, however long this lasts: the window
  -- starts again with every request, so a client within the rate per second is not let through.
  pub admitted-starves :
      (l : RedisRateLimiter) (host : String) (t : Time) (ts : List Time) (s : p.Store)
      → p.Up s
      → Rapid t ts
      → ((now : Time) → t ≤ now → now < t + seconds 1 → p.count now (key l host "show") s ≡ 0)
      → admitted l host ts s ≡ min (length ts) (rate_for l "show")
  admitted-starves l host t ts s up r fresh =
      admitted-Rapid l host t ts s 0 up r fresh ∙ ap (min (length ts)) (omega arith)

  -- A client that leaves a second between its show commands is always let through, if the rate is
  -- not below one.
  pub admitted-Slow :
      (l : RedisRateLimiter) (host : String) (t : Time) (ts : List Time) (s : p.Store)
      → p.Up s
      → Slow t ts
      → 1 ≤ rate_for l "show"
      → ((now : Time) → t + seconds 1 ≤ now → p.count now (key l host "show") s ≡ 0)
      → admitted l host ts s ≡ length ts
  unfolding admitted
  admitted-Slow l host t [] s up r one same = refl
  admitted-Slow l host t (now ∷ ts) s up (gap, r) one same =
      let q = check_show-Counted now l host s up in
      let here = same now gap in
      let ih =
        admitted-Slow l host now ts q.next q.is_up r one
          (λ later a. p.count_after now later (key l host "show") s q.next _ q.counted a) in
      subst⁻¹
        (λ (x : p.Store × Bool).
          (if x.1 then suc (admitted l host ts x.0) else admitted l host ts x.0)
          ≡ length (now ∷ ts))
        q.answer (ground arith)
