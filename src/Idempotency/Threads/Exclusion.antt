-- ===== src/Idempotency/Threads/Exclusion.antt =====
-- The owners of one idempotency key over the steps of the threads.
use network_mcp.Base.{
  ℕ, Bool, true, false, String, str_discrete, Option, none, some, ◌≡◌, ◌≢◌, refl, if_pos, Time,
  if_split, sym, if◌then◌else◌, ◌-◌, leb, seconds, ◌∙◌, ap, arith,
}
use mathlib.Core.Path.{subst⁻¹}
use network_mcp.Dict
use network_mcp.Dict.{Dict}
use network_mcp.Dict.Laws.{get-put, get-put_self, get-put_ne, get-del_ne}
use network_mcp.Idempotency
use network_mcp.Idempotency.{
  IdempotencyStore, IdempotencyEntry, Acquired, cached, proceed, wait_on, acquire, acquire_entry,
  claim, claim_event, set, pop_in_flight, fire, make_room, evict_entry, insert, cleanup_expired,
  get_entry,
}
use network_mcp.Idempotency.Threads.Ownership.{Owns, Inv, flying, Inv-keep, Inv-take, Inv-drop}
use network_mcp.Idempotency.Threads.{
  System, Step, Reach, move, after_acquire, after_pop, after_get, start, idle, stored, waiting,
  begin, store_result, release, give_up, raise, signal, wake, time_out, store_unguarded,
  fail_unguarded, here, next,
}

put_flying :
    (key k : String) (event : ℕ) (d : Dict String ℕ)
    → Dict.get str_discrete k d ≢ none
    → Dict.get str_discrete k (Dict.put str_discrete key event d) ≢ none
put_flying key k event d h e = elim (str_discrete key k) [
  | yes p ↦ cc (
    get-put str_discrete key k event d,
    if_pos (str_discrete key k) p (some event) (Dict.get str_discrete k d),
  )
  | no n ↦ h (sym (get-put_ne str_discrete key k event d n) ∙ e)
]

after_pop_nothing : (o : Option ℕ) (k : String) → ¬ Owns (after_pop o) k
unfolding after_pop
after_pop_nothing none k o = o
after_pop_nothing (some event) k o = o

stored-Owns : (b : Bool) (key k : String) → Owns (if b then stored key else idle) k → key ≡ k
stored-Owns true key k o = o
stored-Owns false key k o = absurd o

kept_by :
    {d d' : Dict String ℕ}
    → d' ≡ d
    → (k : String) → Dict.get str_discrete k d ≢ none
    → Dict.get str_discrete k d' ≢ none
kept_by e k f q = f (ap (Dict.get str_discrete k) (sym e) ∙ q)

module _ {R : Type 0} where
  -- What the locked part of `acquire` does to the keys in flight, by its answer.
  abbrev Claimed : String → IdempotencyStore R → IdempotencyStore R → Acquired R → Type 0
  Claimed key s s' (cached result) = s'.in_flight ≡ s.in_flight
  Claimed key s s' proceed =
      (flying key s ≡ none)
      × (flying key s' ≢ none)
      × ((k : String) → flying k s ≢ none → flying k s' ≢ none)
  Claimed key s s' (wait_on event) = s'.in_flight ≡ s.in_flight

  claim-Claimed :
      (key : String) (s s₀ : IdempotencyStore R) (o : Option ℕ)
      → flying key s ≡ o
      → s.in_flight ≡ s₀.in_flight
      → let (s', a) = claim_event key s o in Claimed key s₀ s' a
  unfolding claim_event
  claim-Claimed key s s₀ none h e = (
    ap (Dict.get str_discrete key) (sym e) ∙ h,
    λ q. cc (get-put_self str_discrete key s.next_event s.in_flight),
    λ k f.
        put_flying key k s.next_event s.in_flight
          (λ q. f (ap (Dict.get str_discrete k) (sym e) ∙ q)),
  )
  claim-Claimed key s s₀ (some event) h e = e

  acquire-Claimed :
      (now : Time) (key : String) (s : IdempotencyStore R) (o : Option (IdempotencyEntry R))
      → let (s', a) = acquire_entry now key s o in Claimed key s s' a
  unfolding acquire_entry claim
  acquire-Claimed now key s none = claim-Claimed key s s _ refl refl
  acquire-Claimed now key s (some entry) =
      if_split (λ (p : IdempotencyStore R × Acquired R). Claimed key s p.0 p.1)
        (leb (now - entry.created_at) (seconds entry.entry_ttl)) (λ h. refl)
        (λ h. claim-Claimed key _ s _ refl refl)

  pub set-in_flight :
      (now : Time) (key : String) (result : R) (s : IdempotencyStore R)
      → (set now key result s).0.in_flight ≡ s.in_flight
  unfolding set make_room evict_entry insert cleanup_expired
  set-in_flight now key result s = ground arith

  get-in_flight :
      (now : Time) (key : String) (s : IdempotencyStore R)
      → (Idempotency.get now key s).0.in_flight ≡ s.in_flight
  unfolding Idempotency.get get_entry
  get-in_flight now key s = ground arith

  begin-Inv :
      (y : System R) (t : ℕ) (key : String) (s : IdempotencyStore R) (a : Acquired R)
      → Claimed key y.shared s a
      → Inv y
      → Inv (move t (after_acquire key a) s y)
  unfolding after_acquire
  begin-Inv y t key s (cached result) c inv = Inv-keep y t idle s (λ k o. absurd o) (kept_by c) inv
  begin-Inv y t key s proceed (free, taken, kept) inv = Inv-take y t key s free taken kept inv
  begin-Inv y t key s (wait_on event) c inv =
      Inv-keep y t (waiting key event) s (λ k o. absurd o) (kept_by c) inv

  after_get_nothing : (key : String) (o : Option R) (k : String) → ¬ Owns (after_get key o) k
  unfolding after_get
  after_get_nothing key none k o = o
  after_get_nothing key (some result) k o = o

  drop-Inv :
      (y : System R) (t : ℕ) (key : String)
      → Owns (y.phase t) key
      → Inv y
      → Inv (move t (after_pop (pop_in_flight key y.shared).1) (pop_in_flight key y.shared).0 y)
  unfolding pop_in_flight
  drop-Inv y t key o inv =
      Inv-drop y t key _ _ o (after_pop_nothing _)
        (λ k n f e. f (sym (get-del_ne str_discrete key k y.shared.in_flight n) ∙ e)) inv

  Step-Inv : {y z : System R} → Step y z → Inv y → Inv z
  Step-Inv (begin y t key now h) inv =
      begin-Inv y t key _ _ (unfold acquire in acquire-Claimed now key y.shared _) inv
  Step-Inv (store_result y t key result now h) inv =
      Inv-keep y t _ _ (λ k o. subst⁻¹ (λ p. Owns p k) h (stored-Owns _ key k o))
        (kept_by (set-in_flight now key result y.shared)) inv
  Step-Inv (release y t key h) inv = drop-Inv y t key (subst⁻¹ (λ p. Owns p key) h refl) inv
  Step-Inv (give_up y t key h) inv = drop-Inv y t key (subst⁻¹ (λ p. Owns p key) h refl) inv
  Step-Inv (raise y t key h) inv = Inv-keep y t _ _ (λ k o. absurd o) (λ k f. f) inv
  Step-Inv (signal y t event h) inv =
      Inv-keep y t _ _ (λ k o. absurd o) (λ k f. unfold fire in f) inv
  Step-Inv (wake y t event key now h m) inv =
      Inv-keep y t _ _ (λ k o. absurd (after_get_nothing key _ k o))
        (kept_by (get-in_flight now key y.shared)) inv
  Step-Inv (time_out y t event key h) inv = Inv-keep y t _ _ (λ k o. absurd o) (λ k f. f) inv
  Step-Inv (store_unguarded y t key result now h) inv =
      Inv-keep y t _ _ (λ k o. absurd o) (kept_by (set-in_flight now key result y.shared)) inv
  Step-Inv (fail_unguarded y t key h) inv = Inv-keep y t _ _ (λ k o. absurd o) (λ k f. f) inv

  Reach-Inv : (ttl max_entries : ℕ) {y : System R} → Reach (start ttl max_entries) y → Inv y
  unfolding start
  Reach-Inv ttl max_entries here = record {
    held = λ t k o. absurd o;
    one_owner = λ t u k o r. absurd o;
  }
  Reach-Inv ttl max_entries (next r s) = Step-Inv s (Reach-Inv ttl max_entries r)

  -- However the threads interleave, and whichever of their operations fail, no two threads own one
  -- key: of the requests with one idempotency key at most one executes with the key acquired.
  pub Reach-exclusive :
      (ttl max_entries : ℕ) {y : System R}
      → Reach (start ttl max_entries) y
      → (t u : ℕ) (key : String) → Owns (y.phase t) key
      → Owns (y.phase u) key
      → t ≡ u
  Reach-exclusive ttl max_entries r t u key o w =
      (Reach-Inv ttl max_entries r).one_owner t u key o w
