-- ===== src/ConnectionPool.antt =====
-- src/network_mcp/connection.py: the pool of drivers of ConnectionManager. A driver is the number
-- of its object. Whether a driver connects and answers `show version`, and how long a checkout
-- takes, are arguments; the resolution of credentials goes with the connection, and the mark that
-- the health module gets is left out. The drivers that were closed and the hosts whose cached
-- commands were invalidated are kept as lists, the latest first.
pub mod Threads
pub mod Sound
pub mod Exclusion
mod Tests
use network_mcp.Base.{
  ℕ, ◌+◌, ◌-◌, ◌*◌, Bool, true, false, String, str_discrete, Option, none, some, List, [], ◌∷◌,
  ◌++◌, ite, length, leb, ltb, not, ◌==◌, ◌&&◌, if◌then◌else◌, Time, in_list, min,
}
use mathlib.Core.List.{reverse}
use network_mcp.Dict
use network_mcp.Dict.{Dict, values, keys}

unfoldable pub calculate_max_connections : ℕ → ℕ
calculate_max_connections inventory_size =
    if inventory_size == 0 then 100 else min (inventory_size * 2) 500

pub record Pool : Type 0 where
  pub max_connections : ℕ
  pub auto_verify : Bool
  pub drivers : Dict String ℕ
  pub refcounts : Dict String ℕ
  pub verified : List String
  pub host_locks : Dict String ℕ
  pub next_lock : ℕ
  pub next_driver : ℕ
  pub closed : List ℕ
  pub invalidated : List String
  pub total_created : ℕ
  pub total_checkouts : ℕ
  pub total_checkout_time : Time

unfoldable pub init : ℕ → Bool → Pool
init max_connections auto_verify = record {
  max_connections = max_connections;
  auto_verify = auto_verify;
  drivers = [];
  refcounts = [];
  verified = [];
  host_locks = [];
  next_lock = 0;
  next_driver = 0;
  closed = [];
  invalidated = [];
  total_created = 0;
  total_checkouts = 0;
  total_checkout_time = 0;
}

unfoldable pub lock_of : String → Option ℕ → Pool → Pool × ℕ
lock_of host (some l) p = (p, l)
lock_of host none p = (
  record p {
    host_locks = Dict.put str_discrete host p.next_lock p.host_locks;
    next_lock = p.next_lock + 1;
  },
  p.next_lock,
)

unfoldable pub get_host_lock : String → Pool → Pool × ℕ
unfolding lock_of
get_host_lock host p = lock_of host (Dict.get str_discrete host p.host_locks) p

-- set.discard and set.add
unfoldable pub discard : String → List String → List String
discard host [] = []
discard host (h ∷ hs) = let rest = discard host hs in ite (str_discrete h host) rest (h ∷ rest)

unfoldable pub add : String → List String → List String
add host hs = if in_list host hs then hs else host ∷ hs

-- self._refcounts.get(host, 0)
unfoldable pub count_or_zero : Option ℕ → ℕ
count_or_zero none = 0
count_or_zero (some n) = n

unfoldable pub refcount : String → Pool → ℕ
unfolding count_or_zero
refcount host p = count_or_zero (Dict.get str_discrete host p.refcounts)

-- The oldest driver of a host that is not in use.
unfoldable pub first_idle : Pool → Dict String ℕ → Option (String × ℕ)
unfolding refcount
first_idle p [] = none
first_idle p ((host, d) ∷ rest) =
    let later = first_idle p rest in if refcount host p == 0 then some (host, d) else later

-- The tables without a host, and its driver closed.
unfoldable pub forget : String → ℕ → Pool → Pool
unfolding discard
forget host d p = record p {
  drivers = Dict.del str_discrete host p.drivers;
  refcounts = Dict.del str_discrete host p.refcounts;
  verified = discard host p.verified;
  closed = d ∷ p.closed;
}

unfoldable pub invalidate : String → Pool → Pool
invalidate host p = record p { invalidated = host ∷ p.invalidated }

unfoldable pub evict : Pool → Option (String × ℕ) → Pool × Bool
unfolding forget invalidate
evict p none = (p, false)
evict p (some (host, d)) = (invalidate host (forget host d p), true)

unfoldable pub evict_one : Pool → Pool × Bool
unfolding evict first_idle
evict_one p = evict p (first_idle p p.drivers)

-- Room for a new driver; `false` is the ConnectionError of a pool that is exhausted.
unfoldable pub make_room : Pool → Pool × Bool
unfolding evict_one
make_room p = if leb p.max_connections (length p.drivers) then evict_one p else (p, true)

-- What the look-up of a driver returns: it, and whether it is to be verified, or an exception.
pub data Found : Type 0 where
  driver : ℕ → Bool → Found
  exception : Found

unfoldable pub create : String → Bool → Bool → Pool → Pool × Found
create host should_verify connects p =
    if connects
    then (
      record p {
        drivers = Dict.put str_discrete host p.next_driver p.drivers;
        next_driver = p.next_driver + 1;
        total_created = p.total_created + 1;
      },
      driver p.next_driver should_verify,
    )
    else (p, exception)

unfoldable pub create_in_room : String → Bool → Bool → Pool × Bool → Pool × Found
unfolding create
create_in_room host should_verify connects (p, true) = create host should_verify connects p
create_in_room host should_verify connects (p, false) = (p, exception)

unfoldable pub find_driver : String → Bool → Bool → Option ℕ → Pool → Pool × Found
unfolding create_in_room make_room
find_driver host should_verify connects (some d) p =
    (p, driver d (should_verify && not (in_list host p.verified)))
find_driver host should_verify connects none p =
    create_in_room host should_verify connects (make_room p)

unfoldable pub verify_or_default : Option Bool → Pool → Bool
verify_or_default none p = p.auto_verify
verify_or_default (some verify) p = verify

-- What get_driver does under the lock of the pool.
unfoldable pub look_up : String → Option Bool → Bool → Pool → Pool × Found
unfolding find_driver verify_or_default
look_up host verify connects p =
    find_driver host (verify_or_default verify p) connects (Dict.get str_discrete host p.drivers) p

-- self._refcounts[host] = self._refcounts.get(host, 0) + 1
unfoldable pub count_in : String → Pool × Found → Pool × Found
unfolding refcount
count_in host (p, exception) = (p, exception)
count_in host (p, driver d need) = (
  record p { refcounts = Dict.put str_discrete host (refcount host p + 1) p.refcounts },
  driver d need,
)

-- What acquire does under the lock of the pool.
unfoldable pub check_out : String → Option Bool → Bool → Pool → Pool × Found
unfolding look_up count_in
check_out host verify connects p = count_in host (look_up host verify connects p)

-- `answers` tells whether `show version` succeeds; `false` is the ConnectionError.
unfoldable pub verify_driver : String → Bool → Pool → Pool × Bool
unfolding add
verify_driver host answers p =
    if in_list host p.verified
    then (p, true)
    else if answers
    then (record p { verified = add host p.verified }, true)
    else (p, false)

unfoldable pub cleanup_failed_verify : String → ℕ → Pool → Pool
unfolding forget
cleanup_failed_verify host d p = forget host d p

unfoldable pub clean_unless : String → ℕ → Pool × Bool → Pool × Bool
unfolding cleanup_failed_verify
clean_unless host d (p, true) = (p, true)
clean_unless host d (p, false) = (cleanup_failed_verify host d p, false)

-- The verification of a driver, if it needs one.
unfoldable pub verify_or_clean : Bool → String → ℕ → Bool → Pool → Pool × Bool
unfolding verify_driver clean_unless
verify_or_clean false host d answers p = (p, true)
verify_or_clean true host d answers p = clean_unless host d (verify_driver host answers p)

unfoldable pub count_checkout : Time → Pool × Bool → Pool × Bool
count_checkout elapsed (p, false) = (p, false)
count_checkout elapsed (p, true) = (
  record p {
    total_checkouts = p.total_checkouts + 1;
    total_checkout_time = p.total_checkout_time + elapsed;
  },
  true,
)

-- What acquire does between the look-up and the caller's block.
unfoldable pub start_use : Bool → String → ℕ → Bool → Time → Pool → Pool × Bool
unfolding verify_or_clean count_checkout
start_use need host d answers elapsed p =
    count_checkout elapsed (verify_or_clean need host d answers p)

unfoldable pub count_out : String → Option ℕ → Pool → Pool
count_out host none p = p
count_out host (some n) p = record p {
  refcounts =
      if leb n 1
      then Dict.del str_discrete host p.refcounts
      else Dict.put str_discrete host (n - 1) p.refcounts;
}

-- The end of acquire's `with` block.
unfoldable pub release : String → Pool → Pool
unfolding count_out
release host p = count_out host (Dict.get str_discrete host p.refcounts) p

unfoldable pub remove_driver : String → Option ℕ → Pool → Pool
unfolding forget invalidate discard
remove_driver host (some d) p = invalidate host (forget host d p)
remove_driver host none p = record p {
  refcounts = Dict.del str_discrete host p.refcounts;
  verified = discard host p.verified;
}

unfoldable pub drop_lock : String → Pool → Pool
drop_lock host p = record p { host_locks = Dict.del str_discrete host p.host_locks }

unfoldable pub remove_node : String → Pool → Pool
unfolding remove_driver drop_lock
remove_node host p = drop_lock host (remove_driver host (Dict.get str_discrete host p.drivers) p)

-- The drivers are closed in the order of the dict.
unfoldable pub close_all : Pool → Pool
close_all p = record p {
  drivers = [];
  refcounts = [];
  verified = [];
  host_locks = [];
  closed = reverse (values p.drivers) ++ p.closed;
}
