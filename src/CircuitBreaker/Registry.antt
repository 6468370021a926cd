-- ===== src/CircuitBreaker/Registry.antt =====
-- CircuitBreakerRegistry of src/network_mcp/circuit_breaker.py: one breaker for each device, made at
-- the first use of its host. A method that writes to a breaker writes it back to the dict, which
-- stands for the shared object.
pub mod Isolation
pub mod Open
use network_mcp.Base.{
  ℕ, Bool, true, String, str_discrete, Option, none, some, List, [], ◌∷◌, if◌then◌else◌, Time,
  length,
}
use network_mcp.Dict
use network_mcp.Dict.{Dict, keys_where}
use network_mcp.CircuitBreaker
use network_mcp.CircuitBreaker.{CircuitBreaker, Event, Snapshot, check, success, failure, is_open}

pub record CircuitBreakerRegistry : Type 0 where
  pub breakers : Dict String CircuitBreaker
  pub threshold : ℕ
  pub cooldown : ℕ
  pub enabled : Bool

unfoldable pub init : ℕ → ℕ → Bool → CircuitBreakerRegistry
init threshold cooldown enabled = record {
  breakers = [];
  threshold = threshold;
  cooldown = cooldown;
  enabled = enabled;
}

unfoldable pub or_create :
    String
    → CircuitBreakerRegistry
    → Option CircuitBreaker
    → CircuitBreakerRegistry × CircuitBreaker
or_create host r (some breaker) = (r, breaker)
or_create host r none =
    let breaker = CircuitBreaker.init host r.threshold r.cooldown in
    (record r { breakers = Dict.put str_discrete host breaker r.breakers }, breaker)

unfoldable pub get : String → CircuitBreakerRegistry → CircuitBreakerRegistry × CircuitBreaker
unfolding or_create
get host r = or_create host r (Dict.get str_discrete host r.breakers)

-- the shared breaker object after a call that changed it
unfoldable pub write_back :
    String → CircuitBreaker → CircuitBreakerRegistry → CircuitBreakerRegistry
write_back host b r = record r { breakers = Dict.put str_discrete host b r.breakers }

unfoldable pub allow_request :
    Time → String → CircuitBreakerRegistry → CircuitBreakerRegistry × Bool
unfolding get write_back
allow_request now host r =
    let (r', b) = get host r in
    let (b', allowed) = CircuitBreaker.allow_request now b in
    if r.enabled then (write_back host b' r', allowed) else (r, true)

unfoldable pub record_success : String → CircuitBreakerRegistry → CircuitBreakerRegistry
unfolding get write_back
record_success host r =
    let (r', b) = get host r in
    if r.enabled then write_back host (CircuitBreaker.record_success b) r' else r

unfoldable pub record_failure : Time → String → CircuitBreakerRegistry → CircuitBreakerRegistry
unfolding get write_back
record_failure now host r =
    let (r', b) = get host r in
    if r.enabled then write_back host (CircuitBreaker.record_failure now b) r' else r

-- The loop of `get_open_circuits`: every breaker is checked, and the hosts of the open ones listed.
unfoldable pub open_circuits :
    Time → Dict String CircuitBreaker → Dict String CircuitBreaker × List String
open_circuits now [] = ([], [])
open_circuits now ((host, b) ∷ rest) =
    let (b', state) = CircuitBreaker.get_state now b in
    let (rest', hosts) = open_circuits now rest in
    ((host, b') ∷ rest', if is_open state then host ∷ hosts else hosts)

unfoldable pub get_open_circuits :
    Time → CircuitBreakerRegistry → CircuitBreakerRegistry × List String
unfolding open_circuits
get_open_circuits now r =
    let (breakers', hosts) = open_circuits now r.breakers in
    (record r { breakers = breakers' }, hosts)

-- reset(host), and reset() of all breakers
unfoldable pub reset : Option String → CircuitBreakerRegistry → CircuitBreakerRegistry
reset (some host) r = record r { breakers = Dict.del str_discrete host r.breakers }
reset none r = record r { breakers = [] }

-- The loop of `stats`: the dict of every breaker.
unfoldable pub states :
    Time → Dict String CircuitBreaker → Dict String CircuitBreaker × Dict String Snapshot
states now [] = ([], [])
states now ((host, b) ∷ rest) =
    let (b', snapshot) = CircuitBreaker.to_dict now b in
    let (rest', snapshots) = states now rest in ((host, b') ∷ rest', (host, snapshot) ∷ snapshots)

-- The dict that `stats` returns.
pub record Stats : Type 0 where
  pub enabled : Bool
  pub total_breakers : ℕ
  pub open_circuits : List String
  pub breakers : Dict String Snapshot

unfoldable pub stats : Time → CircuitBreakerRegistry → CircuitBreakerRegistry × Stats
unfolding states
stats now r =
    let (breakers', snapshots) = states now r.breakers in
    (
      record r { breakers = breakers' },
      record {
        enabled = r.enabled;
        total_breakers = length snapshots;
        open_circuits = keys_where (λ (s : Snapshot). is_open s.state) snapshots;
        breakers = snapshots;
      },
    )

-- A request of a client to the registry on a host.
unfoldable pub step : CircuitBreakerRegistry → String × Event → CircuitBreakerRegistry
step r (host, check now) = (allow_request now host r).0
step r (host, success) = record_success host r
step r (host, failure now) = record_failure now host r

-- Any call of the registry.
pub data Call : Type 0 where
  on : String → Event → Call
  look_up : String → Call
  list_open : Time → Call
  show_stats : Time → Call
  reset_of : Option String → Call

unfoldable pub call : CircuitBreakerRegistry → Call → CircuitBreakerRegistry
call r (on host e) = step r (host, e)
call r (look_up host) = (get host r).0
call r (list_open now) = (get_open_circuits now r).0
call r (show_stats now) = (stats now r).0
call r (reset_of host) = reset host r

unfoldable pub run : CircuitBreakerRegistry → List Call → CircuitBreakerRegistry
run r [] = r
run r (c ∷ cs) = run (call r c) cs
