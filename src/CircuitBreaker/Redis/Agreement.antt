-- ===== src/CircuitBreaker/Redis/Agreement.antt =====
-- The Redis registry against the local breaker, on the calls of one host while Redis answers.
use network_mcp.Base.{
  ◌≡◌, inl, inr, refl, ◌-◌, ◌*◌, ◌≤◌, min, Bool, true, false, String, some, List, [], ◌∷◌, if_pos,
  str_discrete, if◌then◌else◌, Time, seconds, arith, ap, ◌∙◌, Option-cases, if_true, if_true,
}
use mathlib.Core.Path.{subst⁻¹}
use network_mcp.CircuitBreaker
use network_mcp.CircuitBreaker.{
  CircuitBreaker, Event, check, success, failure, healthy, circuit_open, half_open, max_cooldown,
  is_open,
}
use network_mcp.CircuitBreaker.Invariant
use network_mcp.CircuitBreaker.Redis.{
  RedisClient, Codec, RedisRegistry, BreakerState, key, check_transition, get_state, set_state,
  allow_request, record_success, record_failure, failed,
}

-- The dict that holds what a local breaker holds.
unfoldable pub state_of : CircuitBreaker → BreakerState
state_of b = record {
  state = b.state;
  failures = b.consecutive_failures;
  last_failure = b.last_failure_time;
  cooldown = b.cooldown;
  threshold = b.threshold;
}

-- The local calls with the check of the cooldown before each failure, which the Redis registry
-- makes itself and the local one leaves to `allow_request`.
unfoldable pub guarded : List Event → List Event
guarded [] = []
guarded (check t ∷ es) = check t ∷ guarded es
guarded (success ∷ es) = success ∷ guarded es
guarded (failure t ∷ es) = check t ∷ failure t ∷ guarded es

state_of-check :
    (t : Time) (b : CircuitBreaker)
    → check_transition t (state_of b) ≡ state_of (CircuitBreaker.get_state t b).0
unfolding check_transition state_of CircuitBreaker.get_state
state_of-check t b = ground arith

state_of-failed :
    (t : Time) (b : CircuitBreaker)
    → failed t (state_of b) ≡ state_of (CircuitBreaker.record_failure t b)
unfolding failed state_of CircuitBreaker.record_failure
state_of-failed t b = ground arith

module _ {T : Type 0} (c : RedisClient T) (j : Codec T) (r : RedisRegistry) (host : String) where
  open c use {Store, Up, fetch, write}

  -- Redis answers, and holds for the host what the local breaker holds.
  pub record Agrees (s : Store) (b : CircuitBreaker) : Type 0 where
    pub up : Up s
    pub held : get_state c j r host s ≡ state_of b
    pub base : b.base_cooldown ≡ r.base_cooldown

  set_state_lem :
      (st : BreakerState) (s : Store)
      → Up s
      → Up (set_state c j r host st s) × (get_state c j r host (set_state c j r host st s) ≡ st)
  unfolding set_state get_state
  set_state_lem st s up = elim (Option-cases (write (key r host) (j.dumps st) s)) [
    | inl e ↦ absurd (c.write_up (key r host) (j.dumps st) s up e)
    | inr (t, e) ↦ rw e (c.write_kept (key r host) (j.dumps st) s t up e, read t e)
  ]
    where
      read : (t : Store) → write (key r host) (j.dumps st) s ≡ some t → get_state c j r host t ≡ st
      read t e =
          unfold get_state in
          rw (
            c.fetch-write (key r host) (j.dumps st) (key r host) s t up e,
            if_pos (str_discrete (key r host) (key r host)) refl,
            j.full-dumps st,
            j.loads-dumps st,
          )

  -- A call of the registry, as the breaker's client makes it.
  unfoldable pub step : Store → Event → Store
  step s (check t) = (allow_request c j r t host s).0
  step s success = record_success c j r host s
  step s (failure t) = record_failure c j r t host s

  unfoldable pub run : Store → List Event → Store
  run s [] = s
  run s (e ∷ es) = run (step s e) es

  store-Agrees :
      (st : BreakerState) (s : Store) (b : CircuitBreaker)
      → Up s
      → st ≡ state_of b
      → b.base_cooldown ≡ r.base_cooldown
      → Agrees (set_state c j r host st s) b
  store-Agrees st s b up e q = record {
    up = (set_state_lem st s up).0;
    held = (set_state_lem st s up).1 ∙ e;
    base = q;
  }

  base-get_state :
      (t : Time) (b : CircuitBreaker)
      → (CircuitBreaker.get_state t b).0.base_cooldown ≡ b.base_cooldown
  unfolding CircuitBreaker.get_state
  base-get_state t b = ground arith

  base-record_failure :
      (t : Time) (b : CircuitBreaker)
      → (CircuitBreaker.record_failure t b).base_cooldown ≡ b.base_cooldown
  unfolding CircuitBreaker.record_failure
  base-record_failure t b = ground arith

  checked :
      (t : Time) (s : Store) (b : CircuitBreaker)
      → Agrees s b
      → check_transition t (get_state c j r host s) ≡ state_of (CircuitBreaker.get_state t b).0
  checked t s b a = rw (a.held) (state_of-check t b)

  step-stores :
      (on : r.enabled ≡ true) (s : Store)
      → ((t : Time)
          → step s (check t) ≡ set_state c j r host (check_transition t (get_state c j r host s)) s)
        × (step s success
            ≡ set_state c j r host
                (record (get_state c j r host s) {
                  state = healthy;
                  failures = 0;
                  cooldown = r.base_cooldown;
                })
                s)
        × ((t : Time)
            → step s (failure t)
              ≡ set_state c j r host (failed t (check_transition t (get_state c j r host s))) s)
  unfolding step allow_request record_success record_failure
  step-stores on s =
      (λ t. ap (λ (p : Store × Bool). p.0) (if_true _ _ on), if_true _ _ on, λ t. if_true _ _ on)

  step-Agrees :
      (on : r.enabled ≡ true) (s : Store) (b : CircuitBreaker) (e : Event)
      → Agrees s b
      → Agrees (step s e) (Invariant.run b (guarded (e ∷ [])))
  unfolding guarded Invariant.run CircuitBreaker.step CircuitBreaker.allow_request
  step-Agrees on s b (check t) a =
      subst⁻¹ (λ x. Agrees x (CircuitBreaker.get_state t b).0) ((step-stores on s).0 t)
        (store-Agrees _ s (CircuitBreaker.get_state t b).0 a.up (checked t s b a)
          (base-get_state t b ∙ a.base))
  step-Agrees on s b success a =
      subst⁻¹ (λ x. Agrees x (CircuitBreaker.record_success b)) (step-stores on s).1
        (store-Agrees _ s (CircuitBreaker.record_success b) a.up (reset_state s b a)
          (reset_base b a))
    where
      reset_state :
          (s : Store) (b : CircuitBreaker)
          → Agrees s b
          → record (get_state c j r host s) {
            state = healthy;
            failures = 0;
            cooldown = r.base_cooldown;
          }
            ≡ state_of (CircuitBreaker.record_success b)
      reset_state s b a =
          unfold state_of CircuitBreaker.record_success in ground (arith, a.held, a.base)

      reset_base :
          (b : CircuitBreaker)
          → Agrees s b
          → (CircuitBreaker.record_success b).base_cooldown ≡ r.base_cooldown
      reset_base b a = unfold CircuitBreaker.record_success in a.base
  step-Agrees on s b (failure t) a =
      let b' = (CircuitBreaker.get_state t b).0 in
      subst⁻¹ (λ x. Agrees x (CircuitBreaker.record_failure t b')) ((step-stores on s).2 t)
        (store-Agrees _ s (CircuitBreaker.record_failure t b') a.up
          (ap (failed t) (checked t s b a) ∙ state_of-failed t b')
          (base-record_failure t b' ∙ base-get_state t b ∙ a.base))

  same_answer :
      (s : Store) (b : CircuitBreaker) (now : Time)
      → r.enabled ≡ true
      → Agrees s b
      → (allow_request c j r now host s).1 ≡ (CircuitBreaker.allow_request now b).1
  unfolding allow_request CircuitBreaker.allow_request
  same_answer s b now on a =
      ap (λ (p : Store × Bool). p.1) (if_true _ _ on)
      ∙ ap (λ st. if is_open st.state then false else true) (checked now s b a)
      ∙ same now b
    where
      same :
          (now : Time) (b : CircuitBreaker)
          → (if is_open (state_of (CircuitBreaker.get_state now b).0).state then false else true)
            ≡ (if is_open (CircuitBreaker.get_state now b).1 then false else true)
      same now b = unfold state_of CircuitBreaker.get_state in refl

  run-guarded :
      (on : r.enabled ≡ true) (s : Store) (b : CircuitBreaker) (e : Event) (es : List Event)
      → Invariant.run b (guarded (e ∷ es))
        ≡ Invariant.run (Invariant.run b (guarded (e ∷ []))) (guarded es)
  unfolding guarded Invariant.run
  run-guarded on s b (check t) es = refl
  run-guarded on s b success es = refl
  run-guarded on s b (failure t) es = refl

  -- While Redis answers, the registry and the local breaker stay in agreement under the same calls,
  -- if the local client checks the cooldown before it records a failure; and they let the same
  -- requests through.
  pub run-Agrees :
      (es : List Event) (s : Store) (b : CircuitBreaker) (now : Time)
      → r.enabled ≡ true
      → Agrees s b
      → Agrees (run s es) (Invariant.run b (guarded es))
        × ((allow_request c j r now host (run s es)).1
            ≡ (CircuitBreaker.allow_request now (Invariant.run b (guarded es))).1)
  unfolding run guarded Invariant.run
  run-Agrees [] s b now on a = (a, same_answer s b now on a)
  run-Agrees (e ∷ es) s b now on a = rw (run-guarded on s b e es) (
      run-Agrees es (step s e) (Invariant.run b (guarded (e ∷ []))) now on (step-Agrees on s b e a))

-- Without that check the two differ: a failure recorded on an open breaker whose cooldown has
-- passed keeps the local cooldown, and doubles the one in Redis.
pub unguarded_failure :
    (b : CircuitBreaker) (now : Time)
    → b.state ≡ circuit_open
    → seconds b.cooldown ≤ now - b.last_failure_time
    → ((CircuitBreaker.record_failure now b).cooldown ≡ b.cooldown)
      × ((failed now (check_transition now (state_of b))).cooldown
          ≡ min (b.cooldown * 2) max_cooldown)
unfolding CircuitBreaker.record_failure failed check_transition state_of
unguarded_failure b now o h = ground arith
