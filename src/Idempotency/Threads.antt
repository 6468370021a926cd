-- ===== src/Idempotency/Threads.antt =====
-- The threads that share an idempotency store: `acquire`, `complete` and `cancel` of
-- src/network_mcp/idempotency.py as steps between the lock's release and the next lock, as
-- run_config_command of src/network_mcp/helpers.py calls them.
pub mod Ownership
pub mod Exclusion
use network_mcp.Base.{
  ℕ, Bool, true, false, String, str_discrete, Option, none, some, ◌≡◌, ite, ℕ_discrete, Time, List,
  if◌then◌else◌,
}
use mathlib.Core.List.{Memᴰ}
use network_mcp.Idempotency
use network_mcp.Idempotency.{
  IdempotencyStore, Acquired, cached, proceed, wait_on, acquire, set, pop_in_flight, fire,
}

-- Where a thread is: not in a call, executing with the key acquired, past `set` of `complete`, about
-- to set an event, waiting for one, or executing without the key after its wait was in vain.
pub data Phase : Type 0 where
  idle : Phase
  executing : String → Phase
  stored : String → Phase
  signalling : ℕ → Phase
  waiting : String → ℕ → Phase
  unguarded : String → Phase

pub record System (R : Type 0) : Type 0 where
  pub shared : IdempotencyStore R
  pub phase : ℕ → Phase

unfoldable pub after_pop : Option ℕ → Phase
after_pop none = idle
after_pop (some event) = signalling event

module _ {R : Type 0} where
  -- thread t goes to phase p, and the store to s
  unfoldable pub move : ℕ → Phase → IdempotencyStore R → System R → System R
  move t p s y = record { shared = s; phase = λ u. ite (ℕ_discrete t u) p (y.phase u) }

  unfoldable pub after_acquire : String → Acquired R → Phase
  after_acquire key (cached result) = idle
  after_acquire key proceed = executing key
  after_acquire key (wait_on event) = waiting key event

  unfoldable pub after_get : String → Option R → Phase
  after_get key none = unguarded key
  after_get key (some result) = idle

  -- One step of a thread. An exception in the operation (`raise`), and the ValueError of `set`, end
  -- the thread's call with the key still in flight.
  pub data Step : System R → System R → Type 0 where
    begin :
        (y : System R) (t : ℕ) (key : String) (now : Time)
        → y.phase t ≡ idle
        → Step y
            (move t (after_acquire key (acquire now key y.shared).1) (acquire now key y.shared).0 y)
    store_result :
        (y : System R) (t : ℕ) (key : String) (result : R) (now : Time)
        → y.phase t ≡ executing key
        → Step y (
            move t
              (if (set now key result y.shared).1 then stored key else idle)
              (set now key result y.shared).0
              y)
    release :
        (y : System R) (t : ℕ) (key : String)
        → (y.phase t ≡ stored key)
        → Step y
            (move t (after_pop (pop_in_flight key y.shared).1) (pop_in_flight key y.shared).0 y)
    give_up :
        (y : System R) (t : ℕ) (key : String)
        → (y.phase t ≡ executing key)
        → Step y
            (move t (after_pop (pop_in_flight key y.shared).1) (pop_in_flight key y.shared).0 y)
    raise :
        (y : System R) (t : ℕ) (key : String)
        → y.phase t ≡ executing key
        → Step y (move t idle y.shared y)
    signal :
        (y : System R) (t event : ℕ)
        → y.phase t ≡ signalling event
        → Step y (move t idle (fire (some event) y.shared) y)
    wake :
        (y : System R) (t event : ℕ) (key : String) (now : Time)
        → y.phase t ≡ waiting key event
        → Memᴰ event y.shared.fired
        → Step y (
            move t
              (after_get key (Idempotency.get now key y.shared).1)
              (Idempotency.get now key y.shared).0
              y)
    time_out :
        (y : System R) (t event : ℕ) (key : String)
        → y.phase t ≡ waiting key event
        → Step y (move t (unguarded key) y.shared y)
    store_unguarded :
        (y : System R) (t : ℕ) (key : String) (result : R) (now : Time)
        → y.phase t ≡ unguarded key
        → Step y (move t idle (set now key result y.shared).0 y)
    fail_unguarded :
        (y : System R) (t : ℕ) (key : String)
        → y.phase t ≡ unguarded key
        → Step y (move t idle y.shared y)

  pub data Reach (y : System R) : System R → Type 0 where
    here : Reach y y
    next : {z w : System R} → Reach y z → Step z w → Reach y w

  -- A new store, and no thread in a call.
  unfoldable pub start : ℕ → ℕ → System R
  start ttl max_entries = record { shared = Idempotency.init ttl max_entries; phase = λ _. idle }
