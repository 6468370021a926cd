-- ===== src/Idempotency/Tests.antt =====
-- Runs of the idempotency store, and the theorems at concrete inputs.
use network_mcp.Base.{
  ℕ, ◌+◌, ◌≤◌, true, String, str_discrete, some, [], ◌∷◌, ◌≡◌, refl, arith, Time, seconds,
  ℕ_discrete,
}
use network_mcp.Dict
use network_mcp.Idempotency
use network_mcp.Idempotency.{
  IdempotencyStore, IdempotencyEntry, cached, set, get, acquire, acquire_entry, claim, claim_event,
  insert,
}
use network_mcp.Idempotency.Capacity.{IsValid, set_lem}
use network_mcp.Idempotency.Threads.{System, Reach, move, start, after_acquire, begin, here, next}
use network_mcp.Idempotency.Threads.Ownership.{Owns}
use network_mcp.Idempotency.Threads.Exclusion.{Reach-exclusive}
use network_mcp.Idempotency.Run.{success, raised, conclude, Settled, conclude-Settled}

-- A full store of one entry, and a key in flight.
abbrev full_store : IdempotencyStore String
full_store = record {
  ttl = 3600;
  max_entries = 1;
  store = ("change-1", record { result = "vlan 10"; created_at = 5; entry_ttl = 3600 }) ∷ [];
  in_flight = ("change-2", 7) ∷ [];
  fired = [];
  next_event = 8;
}

full_store-IsValid : IsValid full_store
unfolding Dict.get
full_store-IsValid = record { distinct = (refl, tt); within = omega arith; room = omega arith }

set_lem_example :
    let (s', stored) = set (seconds 9) "change-2" "vlan 20" full_store in
    (stored ≡ true)
    × IsValid s'
    × ((later : Time)
        → later ≤ seconds 9 + seconds full_store.ttl
        → ((Idempotency.get later "change-2" s').1 ≡ some "vlan 20")
          × (acquire later "change-2" s' ≡ (s', cached "vlan 20")))
set_lem_example = set_lem (seconds 9) "change-2" "vlan 20" full_store full_store-IsValid

conclude-Settled_example :
    Settled
      (seconds 9)
      "change-2"
      7
      full_store
      (conclude (seconds 9) "change-2" true (success "vlan 20") full_store).0
      (success "vlan 20")
unfolding Dict.get str_discrete
conclude-Settled_example =
    conclude-Settled (seconds 9) "change-2" 7 full_store (success "vlan 20") full_store-IsValid refl

-- Thread t asks for a key.
abbrev ask_key : ℕ → System String → System String
ask_key t y =
    move t (after_acquire "change-3" (acquire 5 "change-3" y.shared).1)
      (acquire 5 "change-3" y.shared).0 y

-- Thread 1 acquires the key, and thread 2 waits for it.
abbrev two_threads : System String
two_threads = ask_key 2 (ask_key 1 (start 3600 10))

two_threads_reached : Reach (start {R = String} 3600 10) two_threads
unfolding start move ℕ_discrete
two_threads_reached =
    next (next here (begin (start 3600 10) 1 "change-3" 5 refl))
      (begin (ask_key 1 (start 3600 10)) 2 "change-3" 5 refl)

two_threads_owner : Owns (two_threads.phase 1) "change-3"
unfolding start move after_acquire acquire acquire_entry claim claim_event Idempotency.init
    ℕ_discrete Dict.get
two_threads_owner = refl

Reach-exclusive_example : ◌≡◌ {A = ℕ} 1 1
Reach-exclusive_example =
    Reach-exclusive 3600 10 two_threads_reached 1 1 "change-3" two_threads_owner two_threads_owner

-- After an exception the next request with the key waits for an event that nobody will set.
stuck_key :
    acquire 99 "change-2" (conclude 98 "change-2" true raised full_store).0
    ≡ (full_store, Idempotency.wait_on 7)
unfolding acquire acquire_entry claim claim_event conclude str_discrete Dict.get
stuck_key = refl
