-- ===== src/Bulkhead.antt =====
-- src/network_mcp/connection.py: BulkheadManager, a semaphore for each vendor, and bulkhead_slot, which
-- takes a slot around a block. A semaphore is its value. An acquisition that waits is the moment at
-- which it gets a slot or its time is over.
pub mod Slots
mod Tests
use network_mcp.Base.{
  ℕ, ◌+◌, ◌-◌, ◌==◌, Bool, true, false, String, str_discrete, Option, none, some, List, [], ◌∷◌,
  if◌then◌else◌,
}
use network_mcp.Dict
use network_mcp.Dict.{Dict}

pub record BulkheadManager : Type 0 where
  pub per_vendor_limit : ℕ
  pub semaphores : Dict String ℕ

unfoldable pub init : ℕ → BulkheadManager
init limit = record { per_vendor_limit = limit; semaphores = [] }

unfoldable pub semaphore_of : String → Option ℕ → BulkheadManager → BulkheadManager × ℕ
semaphore_of vendor (some n) b = (b, n)
semaphore_of vendor none b = (
  record b { semaphores = Dict.put str_discrete vendor b.per_vendor_limit b.semaphores },
  b.per_vendor_limit,
)

unfoldable pub get_semaphore : String → BulkheadManager → BulkheadManager × ℕ
unfolding semaphore_of
get_semaphore vendor b = semaphore_of vendor (Dict.get str_discrete vendor b.semaphores) b

-- A new value of a semaphore that is there.
unfoldable pub set_value : String → ℕ → BulkheadManager → BulkheadManager
set_value vendor n b = record b { semaphores = Dict.put str_discrete vendor n b.semaphores }

-- Semaphore.acquire at its end: a slot, or the timeout if there is none.
unfoldable pub acquire_value : String → BulkheadManager × ℕ → BulkheadManager × Bool
unfolding set_value
acquire_value vendor (b, n) = if n == 0 then (b, false) else (set_value vendor (n - 1) b, true)

unfoldable pub acquire : String → BulkheadManager → BulkheadManager × Bool
unfolding get_semaphore acquire_value
acquire vendor b = acquire_value vendor (get_semaphore vendor b)

unfoldable pub release_value : String → BulkheadManager × ℕ → BulkheadManager
unfolding set_value
release_value vendor (b, n) = set_value vendor (n + 1) b

unfoldable pub release : String → BulkheadManager → BulkheadManager
unfolding get_semaphore release_value
release vendor b = release_value vendor (get_semaphore vendor b)

unfoldable pub get_available : String → BulkheadManager → BulkheadManager × ℕ
unfolding get_semaphore
get_available vendor b = get_semaphore vendor b

unfoldable pub reset : BulkheadManager → BulkheadManager
reset b = record b { semaphores = [] }

-- bulkhead_slot: the end of the attempt to enter; `false` is the TimeoutError.
unfoldable pub enter_slot : String → Option BulkheadManager → Option BulkheadManager × Bool
unfolding acquire
enter_slot vendor none = (none, true)
enter_slot vendor (some b) = let (b', ok) = acquire vendor b in (some b', ok)

-- The `finally` of its block.
unfoldable pub leave_slot : String → Option BulkheadManager → Option BulkheadManager
unfolding release
leave_slot vendor none = none
leave_slot vendor (some b) = some (release vendor b)
