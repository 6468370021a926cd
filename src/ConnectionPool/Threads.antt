-- ===== src/ConnectionPool/Threads.antt =====
-- src/network_mcp/connection.py: the threads that share a pool through `acquire`, each of them in at
-- most one `with` block, and calls of get_driver beside them.
use network_mcp.Base.{ℕ, Bool, true, String, Option, ◌≡◌, ite, ℕ_discrete, Time, if◌then◌else◌}
use network_mcp.ConnectionPool.{
  Pool, Found, driver, exception, get_host_lock, check_out, look_up, start_use, release,
  verify_driver,
}

-- How far a thread is in `acquire`: waiting for the lock of the host, with the lock, with a driver
-- that was counted and may have to be verified, in the caller's block, or about to give back the lock.
pub data Stage : Type 0 where
  queued : Stage
  locked : Stage
  checked : ℕ → Bool → Stage
  using : ℕ → Stage
  leaving : Stage

pub data Phase : Type 0 where
  idle : Phase
  inside : Stage → String → ℕ → Phase

pub record System : Type 0 where
  pub pool : Pool
  pub phase : ℕ → Phase

-- A thread that is past the lock of its host.
abbrev pub HasLock : Stage → Type 0
HasLock queued = ⊥
HasLock locked = Unit
HasLock (checked d need) = Unit
HasLock (using d) = Unit
HasLock leaving = Unit

-- It holds the lock l.
abbrev pub Holds : ℕ → Phase → Type 0
Holds l idle = ⊥
Holds l (inside s host m) = HasLock s × (m ≡ l)

unfoldable pub after_check : String → ℕ → Found → Phase
after_check host l exception = inside leaving host l
after_check host l (driver d need) = inside (checked d need) host l

unfoldable pub after_start : String → ℕ → ℕ → Bool → Phase
after_start host l d ok = inside (if ok then using d else leaving) host l

-- Thread t goes to the phase, and the pool to p.
unfoldable pub move : ℕ → Phase → Pool → System → System
move t q p y = record { pool = p; phase = λ u. ite (ℕ_discrete t u) q (y.phase u) }

unfoldable pub with_pool : Pool → System → System
with_pool p y = record { pool = p; phase = y.phase }

pub data Step : System → System → Type 0 where
  enter :
      (y : System) (t : ℕ) (host : String)
      → y.phase t ≡ idle
      → Step y (
          move t (inside queued host (get_host_lock host y.pool).1) (get_host_lock host y.pool).0 y)
  lock :
      (y : System) (t l : ℕ) (host : String)
      → y.phase t ≡ inside queued host l
      → ((u : ℕ) → ¬ Holds l (y.phase u))
      → Step y (move t (inside locked host l) y.pool y)
  check :
      (y : System) (t l : ℕ) (host : String) (verify : Option Bool) (connects : Bool)
      → y.phase t ≡ inside locked host l
      → Step y (
          move t
            (after_check host l (check_out host verify connects y.pool).1)
            (check_out host verify connects y.pool).0
            y)
  start :
      (y : System) (t l d : ℕ) (host : String) (need answers : Bool) (elapsed : Time)
      → y.phase t ≡ inside (checked d need) host l
      → Step y (
          move t
            (after_start host l d (start_use need host d answers elapsed y.pool).1)
            (start_use need host d answers elapsed y.pool).0
            y)
  finish :
      (y : System) (t l d : ℕ) (host : String)
      → y.phase t ≡ inside (using d) host l
      → Step y (move t (inside leaving host l) (release host y.pool) y)
  unlock :
      (y : System) (t l : ℕ) (host : String)
      → y.phase t ≡ inside leaving host l
      → Step y (move t idle y.pool y)
  get_driver :
      (y : System) (host : String) (verify : Option Bool) (connects : Bool)
      → Step y (with_pool (look_up host verify connects y.pool).0 y)
  get_verified :
      (y : System) (host : String) → Step y (with_pool (verify_driver host true y.pool).0 y)

pub data Reach (y : System) : System → Type 0 where
  here : Reach y y
  next : {z w : System} → Reach y z → Step z w → Reach y w
