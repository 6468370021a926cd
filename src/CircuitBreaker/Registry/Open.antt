-- ===== src/CircuitBreaker/Registry/Open.antt =====
-- `get_open_circuits`, and the reset of one host or of all.
use network_mcp.Base.{Bool, String, str_discrete, none, some, [], ◌∷◌, Time, ◌≡◌, refl, arith}
use network_mcp.Dict
use network_mcp.Dict.{Dict, keys_where, Distinct}
use network_mcp.CircuitBreaker.{CircuitBreaker, is_open, get_state}
use network_mcp.CircuitBreaker.Registry.{CircuitBreakerRegistry, open_circuits, get_open_circuits}

-- A breaker that is open and stays so at the time.
abbrev pub holds_open : Time → CircuitBreaker → Bool
holds_open now b = is_open (get_state now b).1

open_circuits_hosts :
    (now : Time) (d : Dict String CircuitBreaker)
    → (open_circuits now d).1 ≡ keys_where (holds_open now) d
unfolding open_circuits keys_where
open_circuits_hosts now [] = refl
open_circuits_hosts now ((h, b) ∷ d) = ground (arith, open_circuits_hosts now d)

pub get-open_circuits :
    (now : Time) (d : Dict String CircuitBreaker) (j : String)
    → Dict.get str_discrete j (open_circuits now d).0
      ≡ elim (Dict.get str_discrete j d) [ none ↦ none | some b ↦ some (get_state now b).0 ]
unfolding open_circuits Dict.get
get-open_circuits now [] j = refl
get-open_circuits now ((h, b) ∷ d) j = ground (arith, get-open_circuits now d j)

-- The hosts that are listed are, in the dict's order, those whose breaker refuses at that time; and
-- the listing does to every breaker what `get_state` does to it.
pub get_open_circuits_lem :
    (now : Time) (r : CircuitBreakerRegistry) (j : String)
    → let (r', hosts) = get_open_circuits now r in
      (hosts ≡ keys_where (λ b. is_open (get_state now b).1) r.breakers)
      × (Dict.get str_discrete j r'.breakers ≡ elim (Dict.get str_discrete j r.breakers) [
        | none ↦ none
        | some b ↦ some (get_state now b).0
      ])
unfolding get_open_circuits
get_open_circuits_lem now r j =
    (open_circuits_hosts now r.breakers, get-open_circuits now r.breakers j)
