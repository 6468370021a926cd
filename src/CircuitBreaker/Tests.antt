-- ===== src/CircuitBreaker/Tests.antt =====
-- Runs of the circuit breakers, and the theorems at concrete inputs.
use network_mcp.Base.{
  ◌≡◌, refl, ◌≢◌, ◌+◌, ◌-◌, ◌*◌, ◌≤◌, ◌<◌, ◌^◌, min, true, false, String, none, some, List, [], ◌∷◌,
  length, arith, Time, seconds, str_discrete, ite,
}
use network_mcp.Dict
use network_mcp.Dict.{Dict}
use network_mcp.Dict.Laws.{get-put}
use network_mcp.CircuitBreaker
use network_mcp.CircuitBreaker.{
  CircuitBreaker, Event, check, success, failure, healthy, circuit_open, half_open, max_cooldown,
  init, allow_request, record_failure, get_state, step,
}
use network_mcp.CircuitBreaker.Invariant.{IsValid, run, run-IsValid, fail_at}
use network_mcp.CircuitBreaker.Window.{ask, ask_window}
use network_mcp.CircuitBreaker.Backoff.{Probe, probe_all, probe_all_backoff}
use network_mcp.CircuitBreaker.Registry
use network_mcp.CircuitBreaker.Registry.Isolation.{breaker_of, run_own, calls_of, run-isolates}
use network_mcp.CircuitBreaker.Redis
use network_mcp.CircuitBreaker.Redis.{RedisClient, Codec, RedisRegistry, BreakerState}
use network_mcp.CircuitBreaker.Redis.Agreement
use network_mcp.CircuitBreaker.Redis.Agreement.{
  Agrees, run-Agrees, state_of, guarded, unguarded_failure,
}

abbrev spine : CircuitBreaker
spine = record {
  host = "spine-01";
  threshold = 2;
  base_cooldown = 60;
  cooldown = 60;
  state = healthy;
  consecutive_failures = 0;
  last_failure_time = 0;
}

abbrev tripped : CircuitBreaker
tripped = record spine {
  state = circuit_open;
  consecutive_failures = 2;
  last_failure_time = seconds 5;
}

two_failures : fail_at spine (seconds 3 ∷ seconds 5 ∷ []) ≡ tripped
unfolding fail_at record_failure
two_failures = refl

refused_then_probed :
    (allow_request (seconds 64) tripped ≡ (tripped, false))
    × (allow_request (seconds 65) tripped ≡ (record tripped { state = half_open }, true))
unfolding allow_request
refused_then_probed = (refl, refl)

abbrev history : List Event
history = failure (seconds 3) ∷ failure (seconds 5) ∷ check (seconds 70) ∷ success ∷ []

run-IsValid_example : IsValid (run spine history)
run-IsValid_example = run-IsValid spine history (record {
  counts = omega arith;
  base_capped = omega arith;
  cooldown_grows = omega arith;
  cooldown_capped = omega arith;
  closed_below = λ _. omega arith;
  tripped_failed = λ h. absurd (h refl);
})

abbrev early : List Time
early = seconds 6 ∷ seconds 64 ∷ []

ask_window_example :
    (seconds 66 - seconds 5 < seconds 60
      → allow_request (seconds 66) (ask early tripped) ≡ (tripped, false))
    × (seconds 60 ≤ seconds 66 - seconds 5
        → allow_request (seconds 66) (ask early tripped)
          ≡ (record tripped { state = half_open }, true))
ask_window_example = ask_window early (seconds 66) tripped refl (omega arith)

abbrev probes : List Probe
probes =
    record { delay = 0; duration = seconds 1 } ∷ record { delay = seconds 9; duration = 0 } ∷ []

probe_all_backoff_example :
    ((probe_all probes tripped).state ≡ circuit_open)
    × ((probe_all probes tripped).cooldown ≡ min (60 * 2 ^ length probes) max_cooldown)
    × ((probe_all probes tripped).consecutive_failures ≡ 2 + length probes)
probe_all_backoff_example = probe_all_backoff probes tripped refl (omega arith)

abbrev fleet : Registry.CircuitBreakerRegistry
fleet = record { breakers = []; threshold = 2; cooldown = 60; enabled = true }

abbrev calls : List Registry.Call
calls =
    Registry.on "a" (failure (seconds 1))
    ∷ Registry.on "b" success
    ∷ Registry.reset_of (some "b")
    ∷ Registry.on "a" (failure (seconds 2))
    ∷ Registry.list_open (seconds 3)
    ∷ []

only_a_opens : (Registry.get_open_circuits (seconds 3) (Registry.run fleet calls)).1 ≡ "a" ∷ []
unfolding Registry.get_open_circuits Registry.run Registry.call Registry.reset Dict.del
    Registry.step Registry.record_failure Registry.record_success get_state record_failure init
    Dict.get Dict.put str_discrete CircuitBreaker.record_success
only_a_opens = refl

run-isolates_example :
    breaker_of (Registry.run fleet calls) "a"
    ≡ run_own (init "a" 2 60) (breaker_of fleet "a") (calls_of "a" calls)
run-isolates_example = run-isolates fleet calls "a" refl

answered : {A : Type 0} (x : A) → some x ≢ none
answered x e = cc

fetch_after :
    (k : String) (v : BreakerState) (j : String) (s t : Dict String BreakerState)
    → some (Dict.put str_discrete k v s) ≡ some t
    → some (Dict.get str_discrete j t)
      ≡ ite (str_discrete k j) (some (some v)) (some (Dict.get str_discrete j s))
fetch_after k v j s t e = ground (arith, get-put str_discrete k j v s)

-- A server that always answers, and holds the dicts as they are.
abbrev redis : RedisClient BreakerState
redis = record {
  Store = Dict String BreakerState;
  Up = λ s. Unit;
  fetch = λ k s. some (Dict.get str_discrete k s);
  write = λ k v s. some (Dict.put str_discrete k v s);
  delete = λ k s. some (Dict.del str_discrete k s);
  fetch_up = λ k s u. answered _;
  write_up = λ k v s u. answered _;
  write_kept = λ k v s t u e. tt;
  fetch-write = λ k v j s t u e. fetch_after k v j s t e;
}

abbrev json : Codec BreakerState
json = record {
  dumps = λ s. s;
  loads = λ s. some s;
  full = λ s. true;
  loads-dumps = λ s. refl;
  full-dumps = λ s. refl;
}

abbrev settings : RedisRegistry
settings = record {
  threshold = 2;
  base_cooldown = 60;
  enabled = true;
  key_prefix = "netmcp:circuit";
}

run-Agrees_example :
    Agrees redis json settings "spine-01"
      (Agreement.run redis json settings "spine-01" [] history)
      (run spine (guarded history))
    × ((Redis.allow_request redis json settings
          (seconds 80)
          "spine-01"
          (Agreement.run redis json settings "spine-01" [] history)).1
        ≡ (allow_request (seconds 80) (run spine (guarded history))).1)
run-Agrees_example =
    run-Agrees redis json settings "spine-01" history [] spine (seconds 80) refl (record {
      up = tt;
      held = unfold Redis.get_state Dict.get Redis.default_state state_of in refl;
      base = refl;
    })
