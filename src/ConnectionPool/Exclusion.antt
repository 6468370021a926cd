-- ===== src/ConnectionPool/Exclusion.antt =====
-- src/network_mcp/connection.py: threads that share a pool by `acquire`, beside calls of get_driver
-- that do not fail to verify, from a new pool on.
pub mod Backed
pub mod Ends
pub mod Locks
pub mod Invariant
pub mod Steps
use network_mcp.Base.{
  ℕ, ◌≤◌, ◌<◌, Bool, String, str_discrete, some, ◌≡◌, refl, ◌≢◌, All, length, arith,
}
use mathlib.Core.Path.{subst, subst⁻¹}
use network_mcp.Dict
use network_mcp.ConnectionPool.{Pool, init, refcount}
use network_mcp.ConnectionPool.Threads.{System, using, inside, idle, Reach, here, next}
use network_mcp.ConnectionPool.Exclusion.Invariant.{IsSafe, InUse, AtHost}
use network_mcp.ConnectionPool.Exclusion.Steps.{Step-IsSafe}

unfoldable pub new_system : ℕ → Bool → System
unfolding init
new_system max_connections auto_verify = record {
  pool = init max_connections auto_verify;
  phase = λ t. idle;
}

new_system-IsSafe : (n : ℕ) (auto : Bool) → IsSafe (new_system n auto)
unfolding new_system init Dict.get
new_system-IsSafe n auto = record {
  sound = record {
    bound = omega arith;
    distinct = tt;
    below = λ h d e. cc;
    apart = λ h k d e f. cc;
    opened = λ h d e. tt;
    closed_below = tt;
  };
  known = λ t. tt;
  in_use = λ t. tt;
  alone = λ t u h a b. absurd a;
}

Reach-IsSafe : {y z : System} → IsSafe y → Reach y z → IsSafe z
Reach-IsSafe s here = s
Reach-IsSafe s (next r st) = Step-IsSafe st (Reach-IsSafe s r)

module _ (n : ℕ) (auto : Bool) {y : System} (run : Reach (new_system n auto) y) where
  safe : IsSafe y
  safe = Reach-IsSafe (new_system-IsSafe n auto) run

  -- However the threads of a new pool interleave, beside calls of get_driver that do not fail to
  -- verify, at most one of them is in the block of `acquire` for a host.
  pub Reach-one_user :
      (t u d e l m : ℕ) (h : String)
      → y.phase t ≡ inside (using d) h l
      → y.phase u ≡ inside (using e) h m
      → t ≡ u
  Reach-one_user t u d e l m h now then_u =
      safe.alone t u h (subst⁻¹ (AtHost h) now (tt, refl)) (subst⁻¹ (AtHost h) then_u (tt, refl))

  -- However the threads of a new pool interleave, beside calls of get_driver that do not fail to
  -- verify: a driver that a thread uses in the block of `acquire` is the pool's driver of that host,
  -- counted as in use and not closed, neither by an eviction nor by a verification that failed; and
  -- the pool then holds no more drivers than its limit.
  pub Reach-open :
      (t d l : ℕ) (h : String)
      → y.phase t ≡ inside (using d) h l
      → (Dict.get str_discrete h y.pool.drivers ≡ some d)
        × (0 < refcount h y.pool)
        × All (λ c. c ≢ d) y.pool.closed
        × (length y.pool.drivers ≤ y.pool.max_connections)
  Reach-open t d l h now =
      let b = subst (InUse y.pool) now (safe.in_use t) in
      (b.0, b.1, safe.sound.opened h d b.0, safe.sound.bound)
