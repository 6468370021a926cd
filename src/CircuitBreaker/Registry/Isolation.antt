-- ===== src/CircuitBreaker/Registry/Isolation.antt =====
-- The registry, seen as one breaker for every host.
use network_mcp.Base.{
  true, false, String, str_discrete, Option, none, some, List, [], ◌∷◌, ◌++◌, Time, ◌≡◌, refl, ite,
  arith, if_pos, if_neg, ap, ◌∙◌, sym,
}
use network_mcp.Dict
use network_mcp.Dict.{Dict}
use network_mcp.Dict.Laws.{get-put, get-del}
use network_mcp.CircuitBreaker
use network_mcp.CircuitBreaker.{CircuitBreaker, Event, check, success, failure, get_state}
use network_mcp.CircuitBreaker.Registry.{
  CircuitBreakerRegistry, get, allow_request, record_success, record_failure, step, run, write_back,
  Call, on, look_up, list_open, show_stats, reset_of, call, get_open_circuits, stats, states, reset,
}
use network_mcp.CircuitBreaker.Registry.Open.{get-open_circuits}

abbrev or_new : CircuitBreakerRegistry → String → Option CircuitBreaker → CircuitBreaker
or_new r host none = CircuitBreaker.init host r.threshold r.cooldown
or_new r host (some b) = b

-- The breaker of a host: the one in the dict, or the new one that the first use makes.
unfoldable pub breaker_of : CircuitBreakerRegistry → String → CircuitBreaker
breaker_of r host = or_new r host (Dict.get str_discrete host r.breakers)

-- What a call of the registry is for the breaker of one host.
pub data Own : Type 0 where
  event : Event → Own
  listed : Time → Own
  renewed : Own

unfoldable pub own_step : CircuitBreaker → CircuitBreaker → Own → CircuitBreaker
own_step fresh b (event e) = CircuitBreaker.step b e
own_step fresh b (listed now) = (get_state now b).0
own_step fresh b renewed = fresh

-- The breaker of a host over its own calls; `fresh` is the new breaker of the host.
unfoldable pub run_own : CircuitBreaker → CircuitBreaker → List Own → CircuitBreaker
unfolding own_step
run_own fresh b [] = b
run_own fresh b (x ∷ xs) = run_own fresh (own_step fresh b x) xs

if_host : String → String → Own → List Own
if_host h host x = ite (str_discrete h host) (x ∷ []) []

-- A request or a reset of a host is a call on that host; a listing, the stats and the reset of all
-- are calls on every host.
unfoldable pub own_of : String → Call → List Own
unfolding if_host
own_of host (on h e) = if_host h host (event e)
own_of host (look_up h) = []
own_of host (list_open now) = listed now ∷ []
own_of host (show_stats now) = listed now ∷ []
own_of host (reset_of none) = renewed ∷ []
own_of host (reset_of (some h)) = if_host h host renewed

unfoldable pub calls_of : String → List Call → List Own
unfolding own_of
calls_of host [] = []
calls_of host (c ∷ cs) = own_of host c ++ calls_of host cs

-- The first use of a host makes the breaker that the view has for it already.
pub get-breaker_of : (h : String) (r : CircuitBreakerRegistry) → (get h r).1 ≡ breaker_of r h
unfolding get breaker_of
get-breaker_of h r = ground arith

breaker_of-get :
    (h : String) (r : CircuitBreakerRegistry) (j : String)
    → breaker_of (get h r).0 j ≡ breaker_of r j
unfolding get breaker_of
breaker_of-get h r j =
    ground
      (arith, get-put str_discrete h j (CircuitBreaker.init h r.threshold r.cooldown) r.breakers)

breaker_of-write_back :
    (h : String) (b : CircuitBreaker) (r : CircuitBreakerRegistry) (j : String)
    → breaker_of (write_back h b r) j ≡ ite (str_discrete h j) b (breaker_of r j)
unfolding write_back breaker_of
breaker_of-write_back h b r j = ground (arith, get-put str_discrete h j b r.breakers)

step-write_back :
    (r : CircuitBreakerRegistry) (h : String) (e : Event)
    → r.enabled ≡ true
    → step r (h, e) ≡ write_back h (CircuitBreaker.step (get h r).1 e) (get h r).0
unfolding step allow_request record_success record_failure CircuitBreaker.step
step-write_back r h (check now) is_on = rw is_on
step-write_back r h success is_on = rw is_on
step-write_back r h (failure now) is_on = rw is_on

-- A call on a host runs the breaker of that host, and leaves the breakers of all others.
pub breaker_of-step :
    (r : CircuitBreakerRegistry) (h : String) (e : Event) (j : String)
    → r.enabled ≡ true
    → breaker_of (step r (h, e)) j
      ≡ ite (str_discrete h j) (CircuitBreaker.step (breaker_of r j) e) (breaker_of r j)
breaker_of-step r h e j is_on = elim (str_discrete h j) [
  | yes p ↦ rw (if_pos _ p) (here p ∙ ap (λ i. CircuitBreaker.step (breaker_of r i) e) p)
  | no n ↦ rw (if_neg _ n) (moved ∙ if_neg (str_discrete h j) n _ _ ∙ breaker_of-get h r j)
]
  where
    moved :
        breaker_of (step r (h, e)) j
        ≡ ite (str_discrete h j) (CircuitBreaker.step (get h r).1 e) (breaker_of (get h r).0 j)
    moved = rw (step-write_back r h e is_on) (breaker_of-write_back h _ (get h r).0 j)

    here : h ≡ j → breaker_of (step r (h, e)) j ≡ CircuitBreaker.step (breaker_of r h) e
    here p =
        moved
        ∙ if_pos (str_discrete h j) p _ _
        ∙ ap (λ b. CircuitBreaker.step b e) (get-breaker_of h r)

fresh_of : CircuitBreakerRegistry → String → CircuitBreaker
fresh_of r host = CircuitBreaker.init host r.threshold r.cooldown

-- No call changes the configuration of the registry.
call_config :
    (r : CircuitBreakerRegistry) (c : Call)
    → ((call r c).enabled ≡ r.enabled)
      × ((call r c).threshold ≡ r.threshold)
      × ((call r c).cooldown ≡ r.cooldown)
unfolding call step allow_request record_success record_failure get write_back get_open_circuits
    stats reset
call_config r (on h (check now)) = (ground arith, ground arith, ground arith)
call_config r (on h success) = (ground arith, ground arith, ground arith)
call_config r (on h (failure now)) = (ground arith, ground arith, ground arith)
call_config r (look_up h) = (ground arith, ground arith, ground arith)
call_config r (list_open now) = (refl, refl, refl)
call_config r (show_stats now) = (refl, refl, refl)
call_config r (reset_of none) = (refl, refl, refl)
call_config r (reset_of (some h)) = (refl, refl, refl)

get-states :
    (now : Time) (d : Dict String CircuitBreaker) (j : String)
    → Dict.get str_discrete j (states now d).0
      ≡ elim (Dict.get str_discrete j d) [ none ↦ none | some b ↦ some (get_state now b).0 ]
unfolding states Dict.get CircuitBreaker.to_dict
get-states now [] j = refl
get-states now ((h, b) ∷ d) j = ground (arith, get-states now d j)

-- A new breaker is closed, so that looking at it leaves it as it is.
listed_or_new :
    (now : Time) (r : CircuitBreakerRegistry) (j : String) (o : Option CircuitBreaker)
    → or_new r j (elim o [ none ↦ none | some b ↦ some (get_state now b).0 ])
      ≡ (get_state now (or_new r j o)).0
unfolding get_state CircuitBreaker.init
listed_or_new now r j none = refl
listed_or_new now r j (some b) = refl

breaker_of-call :
    (r : CircuitBreakerRegistry) (c : Call) (j : String)
    → r.enabled ≡ true
    → breaker_of (call r c) j ≡ run_own (fresh_of r j) (breaker_of r j) (own_of j c)
unfolding call run_own own_of fresh_of
breaker_of-call r (on h e) j is_on = breaker_of-step r h e j is_on ∙ elim (str_discrete h j) [
  | yes p ↦ rw (if_pos _ p) (rw (if_pos _ p) refl)
  | no n ↦ rw (if_neg _ n) (rw (if_neg _ n) refl)
]
breaker_of-call r (look_up h) j is_on = breaker_of-get h r j
breaker_of-call r (list_open now) j is_on =
    unfold breaker_of get_open_circuits in
    ap (or_new r j) (get-open_circuits now r.breakers j)
    ∙ listed_or_new now r j (Dict.get str_discrete j r.breakers)
breaker_of-call r (show_stats now) j is_on =
    unfold breaker_of stats in
    ap (or_new r j) (get-states now r.breakers j)
    ∙ listed_or_new now r j (Dict.get str_discrete j r.breakers)
breaker_of-call r (reset_of none) j is_on = unfold breaker_of reset Dict.get in refl
breaker_of-call r (reset_of (some h)) j is_on =
    unfold breaker_of reset in
    ap (or_new r j) (get-del str_discrete h j r.breakers) ∙ elim (str_discrete h j) [
      | yes p ↦ rw (if_pos _ p) (rw (if_pos _ p) refl)
      | no n ↦ rw (if_neg _ n) (rw (if_neg _ n) refl)
    ]

run_own-append :
    (fresh b : CircuitBreaker) (xs ys : List Own)
    → run_own fresh b (xs ++ ys) ≡ run_own fresh (run_own fresh b xs) ys
unfolding run_own
run_own-append fresh b [] ys = refl
run_own-append fresh b (x ∷ xs) ys = run_own-append fresh (own_step fresh b x) xs ys

fresh_of-call :
    (r : CircuitBreakerRegistry) (c : Call) (j : String) → fresh_of (call r c) j ≡ fresh_of r j
unfolding fresh_of
fresh_of-call r c j =
    let (_, same_threshold, same_cooldown) = call_config r c in
    ap (λ t. CircuitBreaker.init j t (call r c).cooldown) same_threshold
    ∙ ap (CircuitBreaker.init j r.threshold) same_cooldown

run_from :
    (r : CircuitBreakerRegistry) (cs : List Call) (j : String)
    → r.enabled ≡ true
    → breaker_of (run r cs) j ≡ run_own (fresh_of r j) (breaker_of r j) (calls_of j cs)
unfolding run calls_of
run_from r [] j is_on = unfold run_own in refl
run_from r (c ∷ cs) j is_on =
    run_from (call r c) cs j ((call_config r c).0 ∙ is_on)
    ∙ ap (λ f. run_own f (breaker_of (call r c) j) (calls_of j cs)) (fresh_of-call r c j)
    ∙ ap (λ b. run_own (fresh_of r j) b (calls_of j cs)) (breaker_of-call r c j is_on)
    ∙ sym (run_own-append (fresh_of r j) (breaker_of r j) (own_of j c) (calls_of j cs))

-- After any sequence of calls of an enabled registry (allow_request, record_success, record_failure,
-- get, get_open_circuits, stats, and reset of a host or of all) the breaker of every host is what
-- the calls that concern the host alone make of it, in order: its requests run it, a listing of the
-- open circuits or the stats look at its state, and a reset of it or of all puts a new breaker in
-- its place. What is called for other devices has no part in it.
pub run-isolates :
    (r : CircuitBreakerRegistry) (cs : List Call) (j : String)
    → r.enabled ≡ true
    → breaker_of (run r cs) j
      ≡ run_own (CircuitBreaker.init j r.threshold r.cooldown) (breaker_of r j) (calls_of j cs)
run-isolates r cs j is_on = unfold fresh_of in run_from r cs j is_on

-- A run of requests alone.
requests : CircuitBreakerRegistry → List (String × Event) → CircuitBreakerRegistry
requests r [] = r
requests r (e ∷ es) = requests (step r e) es

-- A disabled registry lets every request through, and no request changes it.
run_disabled :
    (r : CircuitBreakerRegistry) (es : List (String × Event)) (now : Time) (host : String)
    → r.enabled ≡ false
    → (requests r es ≡ r) × (allow_request now host r ≡ (r, true))
unfolding requests
run_disabled r [] now host off = (refl, unfold allow_request in rw off)
run_disabled r (e ∷ es) now host off = rw (unchanged e) (run_disabled r es now host off)
  where
    unchanged : (e : String × Event) → step r e ≡ r
    unchanged (h, check t) = unfold step allow_request in rw off
    unchanged (h, success) = unfold step record_success in rw off
    unchanged (h, failure t) = unfold step record_failure in rw off
