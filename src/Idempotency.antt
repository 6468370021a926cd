-- ===== src/Idempotency.antt =====
-- src/network_mcp/idempotency.py: results of write operations, kept by the client's key, and the keys
-- that a thread is executing now. A method that holds the lock is one step; `acquire` and `complete`
-- are more than one, and Idempotency/Threads puts their parts together. A threading.Event is a number,
-- and `fired` lists the events that are set. The result dict is any type R.
pub mod Capacity
pub mod Threads
pub mod Run
mod Tests
use network_mcp.Base.{
  ℕ, ◌+◌, ◌-◌, Bool, true, false, String, str_discrete, Option, none, some, List, [], ◌∷◌, ◌++◌,
  length, leb, ltb, if◌then◌else◌, Time, seconds,
}
use network_mcp.Dict
use network_mcp.Dict.{Dict, keys_where, min_entry, values}

pub record IdempotencyEntry (R : Type 0) : Type 0 where
  pub result : R
  pub created_at : Time
  pub entry_ttl : ℕ

pub record IdempotencyStore (R : Type 0) : Type 0 where
  pub ttl : ℕ
  pub max_entries : ℕ
  pub store : Dict String (IdempotencyEntry R)
  pub in_flight : Dict String ℕ
  pub fired : List ℕ
  pub next_event : ℕ

-- What `acquire` finds under the lock: a result, the right to execute, or an event to wait for.
pub data Acquired (R : Type 0) : Type 0 where
  cached : R → Acquired R
  proceed : Acquired R
  wait_on : ℕ → Acquired R

module _ {R : Type 0} where
  unfoldable pub init : ℕ → ℕ → IdempotencyStore R
  init ttl max_entries = record {
    ttl = ttl;
    max_entries = max_entries;
    store = [];
    in_flight = [];
    fired = [];
    next_event = 0;
  }

  unfoldable pub is_expired : Time → IdempotencyEntry R → Bool
  is_expired now entry = ltb (seconds entry.entry_ttl) (now - entry.created_at)

  unfoldable pub get_entry :
      Time
      → String
      → IdempotencyStore R
      → Option (IdempotencyEntry R)
      → IdempotencyStore R × Option R
  get_entry now key s none = (s, none)
  get_entry now key s (some entry) =
      if is_expired now entry
      then (record s { store = Dict.del str_discrete key s.store }, none)
      else (s, some entry.result)

  unfoldable pub get : Time → String → IdempotencyStore R → IdempotencyStore R × Option R
  unfolding get_entry
  get now key s = get_entry now key s (Dict.get str_discrete key s.store)

  unfoldable pub claim_event :
      String → IdempotencyStore R → Option ℕ → IdempotencyStore R × Acquired R
  claim_event key s none = (
    record s {
      in_flight = Dict.put str_discrete key s.next_event s.in_flight;
      next_event = s.next_event + 1;
    },
    proceed,
  )
  claim_event key s (some event) = (s, wait_on event)

  unfoldable pub claim : String → IdempotencyStore R → IdempotencyStore R × Acquired R
  unfolding claim_event
  claim key s = claim_event key s (Dict.get str_discrete key s.in_flight)

  unfoldable pub acquire_entry :
      Time
      → String
      → IdempotencyStore R
      → Option (IdempotencyEntry R)
      → IdempotencyStore R × Acquired R
  unfolding claim is_expired
  acquire_entry now key s none = claim key s
  acquire_entry now key s (some entry) =
      if leb (now - entry.created_at) (seconds entry.entry_ttl)
      then (s, cached entry.result)
      else claim key (record s { store = Dict.del str_discrete key s.store })

  -- the part of `acquire` under the lock
  unfoldable pub acquire : Time → String → IdempotencyStore R → IdempotencyStore R × Acquired R
  unfolding acquire_entry
  acquire now key s = acquire_entry now key s (Dict.get str_discrete key s.store)

  -- `_cleanup_expired`, with the number of entries that it removed
  unfoldable pub cleanup_expired : Time → IdempotencyStore R → IdempotencyStore R × ℕ
  unfolding is_expired
  cleanup_expired now s =
      let expired = keys_where (is_expired now) s.store in
      (record s { store = Dict.del_all str_discrete expired s.store }, length expired)

  unfoldable pub insert : Time → String → R → IdempotencyStore R → IdempotencyStore R
  insert now key result s = record s {
    store =
        Dict.put str_discrete key (record { result = result; created_at = now; entry_ttl = s.ttl })
          s.store;
  }

  -- the eviction of the oldest entry; false is the ValueError of `min` on an empty store
  unfoldable pub evict_entry :
      Time
      → String
      → R
      → IdempotencyStore R
      → Option (String × IdempotencyEntry R)
      → IdempotencyStore R × Bool
  unfolding insert
  evict_entry now key result s none = (s, false)
  evict_entry now key result s (some (oldest_key, oldest)) =
      (insert now key result (record s { store = Dict.del str_discrete oldest_key s.store }), true)

  unfoldable pub make_room : Time → String → R → IdempotencyStore R → IdempotencyStore R × Bool
  unfolding evict_entry insert
  make_room now key result s =
      if leb s.max_entries (length s.store)
      then evict_entry now key result s (min_entry (λ e. e.created_at) s.store)
      else (insert now key result s, true)

  unfoldable pub set : Time → String → R → IdempotencyStore R → IdempotencyStore R × Bool
  unfolding make_room cleanup_expired
  set now key result s =
      make_room now key result
        (if leb s.max_entries (length s.store) then (cleanup_expired now s).0 else s)

  -- self._in_flight.pop(key, None), and the event that it held
  unfoldable pub pop_in_flight : String → IdempotencyStore R → IdempotencyStore R × Option ℕ
  pop_in_flight key s = (
    record s { in_flight = Dict.del str_discrete key s.in_flight },
    Dict.get str_discrete key s.in_flight,
  )

  -- if event: event.set()
  unfoldable pub fire : Option ℕ → IdempotencyStore R → IdempotencyStore R
  fire none s = s
  fire (some event) s = record s { fired = event ∷ s.fired }

  unfoldable pub cancel : String → IdempotencyStore R → IdempotencyStore R
  unfolding pop_in_flight fire
  cancel key s = let (s', event) = pop_in_flight key s in fire event s'

  unfoldable pub complete : Time → String → R → IdempotencyStore R → IdempotencyStore R × Bool
  unfolding set cancel
  complete now key result s =
      let (s', stored) = set now key result s in
      if stored then (cancel key s', true) else (s', false)

  unfoldable pub reset : IdempotencyStore R → IdempotencyStore R
  reset s = record s { store = []; in_flight = []; fired = values s.in_flight ++ s.fired }
