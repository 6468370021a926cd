-- ===== src/RateLimiter/Bounds.antt =====
-- How much a bucket lets through.
use Prim.Native.Nat.{◌*◌}
use network_mcp.Base.{
  ℕ, suc, ◌+◌, ◌-◌, ◌≤◌, ◌≡◌, refl, Bool, true, false, if◌then◌else◌, Time, List, [], ◌∷◌, arith,
  ap,
}
use mathlib.Core.Path.{subst, subst⁻¹}
use network_mcp.RateLimiter.{TokenBucket, acquire}

-- Requests, each with its time and its cost.
abbrev pub Requests : Type 0
Requests = List (Time × ℕ)

-- The times do not run backwards from t on.
abbrev pub Since : Time → Requests → Type 0
Since t [] = Unit
Since t ((now, n) ∷ rs) = (t ≤ now) × Since now rs

-- The bucket after the requests, and the grains that it gave out.
unfoldable pub serve : Requests → TokenBucket → TokenBucket × ℕ
serve [] b = (b, 0)
serve ((now, n) ∷ rs) b =
    let (b', got) = acquire now n b in
    let (b'', admitted) = serve rs b' in (b'', if got then n + admitted else admitted)

acquire_keeps :
    (now : Time) (n : ℕ) (b : TokenBucket)
    → let b' = (acquire now n b).0 in
      (b'.rate ≡ b.rate)
      × (b'.capacity ≡ b.capacity)
      × (b'.last_refill ≡ now)
      × (b'.tokens ≤ b'.capacity)
unfolding acquire
acquire_keeps now n b = ground arith

-- the balance of one request
acquire_cost :
    (now : Time) (n : ℕ) (b : TokenBucket)
    → let (b', got) = acquire now n b in
      b'.tokens + (if got then n else 0) ≤ b.tokens + (now - b.last_refill) * b.rate
unfolding acquire
acquire_cost now n b = ground arith

elapsed_add : (r t₀ t₁ t₂ : ℕ) → t₀ ≤ t₁ → t₁ ≤ t₂ → (t₁ - t₀) * r + (t₂ - t₁) * r ≡ (t₂ - t₀) * r
elapsed_add r t₀ t₁ t₂ h k =
    let split : t₂ - t₀ ≡ (t₁ - t₀) + (t₂ - t₁) = omega arith in
    let e = ap (λ x. x * r) split in omega arith

pub more_time : (r s t : ℕ) → s ≤ t → s * r ≤ t * r
more_time r s t h =
    let more : t ≡ s + (t - s) = omega arith in let e = ap (λ x. x * r) more in omega arith

gave : (got : Bool) (n a : ℕ) → (if got then n + a else a) ≡ (if got then n else 0) + a
gave true n a = refl
gave false n a = omega arith

-- Whatever is asked, and in whatever order, a bucket gives out at most what it held and what its rate
-- brings in the time that passes; it never holds more than its capacity, if it did not before.
pub serve_bound :
    (rs : Requests) (b : TokenBucket)
    → Since b.last_refill rs
    → b.tokens ≤ b.capacity
    → let (b', admitted) = serve rs b in
      (b'.tokens ≤ b'.capacity)
      × (b.last_refill ≤ b'.last_refill)
      × (b'.tokens + admitted ≤ b.tokens + (b'.last_refill - b.last_refill) * b.rate)
unfolding serve
serve_bound [] b s h = (h, omega arith, omega arith)
serve_bound ((now, n) ∷ rs) b (ordered, s) h =
    let kept = acquire_keeps now n b in
    let cost = acquire_cost now n b in
    let b' = (acquire now n b).0 in
    let ih = serve_bound rs b' (subst⁻¹ (λ t. Since t rs) kept.2 s) kept.3 in
    let last = (serve rs b').0.last_refill in
    let same : (last - b'.last_refill) * b'.rate ≡ (last - now) * b.rate =
      rw kept.0 (rw kept.2 refl) in
    let later : now ≤ last = subst (λ t. t ≤ last) kept.2 ih.1 in
    let e = elapsed_add b.rate b.last_refill now last ordered later in
    let g = gave (acquire now n b).1 n (serve rs b').1 in (ih.0, omega arith, omega arith)

-- Every request costs n and comes at least `gap` after the one before.
abbrev pub Spaced : ℕ → Time → Time → Requests → Type 0
Spaced n gap t [] = Unit
Spaced n gap t ((now, m) ∷ rs) = (t + gap ≤ now) × (m ≡ n) × Spaced n gap now rs

-- How many of the requests are refused.
unfoldable pub refused : Requests → TokenBucket → ℕ
refused [] b = 0
refused ((now, n) ∷ rs) b =
    let (b', got) = acquire now n b in let later = refused rs b' in if got then later else suc later

spaced_acquire :
    (now gap n : ℕ) (b : TokenBucket)
    → b.last_refill + gap ≤ now
    → n ≤ gap * b.rate
    → n ≤ b.capacity
    → (acquire now n b).1 ≡ true
unfolding acquire
spaced_acquire now gap n b h k c =
    let enough = more_time b.rate gap (now - b.last_refill) (omega arith) in ground arith

-- A client that sends requests of one cost n, not above the capacity, and leaves a gap in which the
-- bucket earns n, is never refused.
pub refused-Spaced :
    (rs : Requests) (n gap : ℕ) (b : TokenBucket)
    → Spaced n gap b.last_refill rs
    → n ≤ gap * b.rate
    → n ≤ b.capacity
    → refused rs b ≡ 0
unfolding refused
refused-Spaced [] n gap b s h c = refl
refused-Spaced ((now, m) ∷ rs) n gap b (ordered, same, s) h c =
    let kept = acquire_keeps now m b in
    let got = spaced_acquire now gap m b ordered (omega arith) (omega arith) in
    rw got (
      refused-Spaced rs n gap (acquire now m b).0 (subst⁻¹ (λ t. Spaced n gap t rs) kept.2 s)
        (subst⁻¹ (λ r. n ≤ gap * r) kept.0 h) (subst⁻¹ (λ x. n ≤ x) kept.1 c))
