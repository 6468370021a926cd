-- ===== src/Idempotency/Run.antt =====
-- What run_config_command of src/network_mcp/helpers.py does with the idempotency key when the
-- operation has ended.
use network_mcp.Base.{
  ℕ, Bool, true, false, String, str_discrete, none, some, ◌≡◌, refl, ap, ◌∙◌, Time, arith,
}
use mathlib.Core.List.{Memᴰ}
use network_mcp.Dict
use network_mcp.Dict.Laws.{get-del_self}
use network_mcp.Idempotency.{
  IdempotencyStore, set, complete, cancel, pop_in_flight, fire, get, get_entry,
}
use network_mcp.Idempotency.Capacity.{IsValid, set_lem}
use network_mcp.Idempotency.Threads.Exclusion.{set-in_flight}

-- How the operation ended: a result with status "success", another result, or an exception.
pub data Outcome (R : Type 0) : Type 0 where
  success : R → Outcome R
  failure : R → Outcome R
  raised : Outcome R

module _ {R : Type 0} where
  -- The flag says whether the thread had acquired the key. An exception passes by both branches.
  unfoldable pub conclude :
      Time → String → Bool → Outcome R → IdempotencyStore R → IdempotencyStore R × Bool
  conclude now key true (success result) s = complete now key result s
  conclude now key false (success result) s = set now key result s
  conclude now key true (failure result) s = (cancel key s, true)
  conclude now key false (failure result) s = (s, true)
  conclude now key acquired raised s = (s, true)

  -- The key is free again, and the threads that wait for it are woken.
  abbrev Released : String → ℕ → IdempotencyStore R → Type 0
  Released key event s = (Dict.get str_discrete key s.in_flight ≡ none) × Memᴰ event s.fired

  abbrev pub Settled :
      Time → String → ℕ → IdempotencyStore R → IdempotencyStore R → Outcome R → Type 0
  Settled now key event s s' (success result) =
      Released key event s' × ((get now key s').1 ≡ some result)
  Settled now key event s s' (failure result) = Released key event s'
  Settled now key event s s' raised = s' ≡ s

  cancel-Released :
      (key : String) (event : ℕ) (s : IdempotencyStore R)
      → Dict.get str_discrete key s.in_flight ≡ some event
      → Released key event (cancel key s)
  unfolding cancel pop_in_flight fire
  cancel-Released key event s h = rw h (get-del_self str_discrete key s.in_flight, Memᴰ.head refl)

  get-cancel :
      (now : Time) (key : String) (s : IdempotencyStore R)
      → (get now key (cancel key s)).1 ≡ (get now key s).1
  unfolding cancel pop_in_flight fire get get_entry
  get-cancel now key s = ground arith

  -- A thread that acquired the key of a valid store and executed: after a success or a failure the
  -- key is free and its waiters are woken, and after a success the result is found. After an
  -- exception nothing is done: the key stays in flight, and its event is not set.
  pub conclude-Settled :
      (now : Time) (key : String) (event : ℕ) (s : IdempotencyStore R) (o : Outcome R)
      → IsValid s
      → Dict.get str_discrete key s.in_flight ≡ some event
      → Settled now key event s (conclude now key true o s).0 o
  unfolding conclude complete
  conclude-Settled now key event s (success result) v h =
      let (stored, valid, found) = set_lem now key result s v in
      let s' = (set now key result s).0 in
      let same = ap (Dict.get str_discrete key) (set-in_flight now key result s) ∙ h in
      rw stored
        (cancel-Released key event s' same, get-cancel now key s' ∙ (found now (omega arith)).0)
  conclude-Settled now key event s (failure result) v h = cancel-Released key event s h
  conclude-Settled now key event s raised v h = refl
