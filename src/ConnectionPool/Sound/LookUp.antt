-- ===== src/ConnectionPool/Sound/LookUp.antt =====
-- src/network_mcp/connection.py: the look-up of a driver, which may evict another one first.
use network_mcp.Base.{
  ℕ, ◌<◌, ◌==◌, Bool, true, false, String, str_discrete, Option, none, some, [], ◌∷◌, ◌≡◌, refl,
  sym, ◌∙◌, ap, length, arith, Bool-cases, leb, inl, inr, if_true, if_false, if_pos, if_neg,
}
use mathlib.Core.Option.{some-injective}
use mathlib.Core.Path.{subst}
use network_mcp.Dict
use network_mcp.Dict.{Dict, Distinct}
use network_mcp.Dict.Laws.{get-cons, get-del}
use network_mcp.Dict.Measure.{length-del-lt}
use network_mcp.ConnectionPool.{
  Pool, refcount, first_idle, forget, invalidate, evict, evict_one, make_room, create,
  create_in_room, find_driver, look_up,
}
use network_mcp.ConnectionPool.Sound.{IsSound, forget-IsSound, put-Orderly}

-- The driver that is picked is in the pool, and its host is not in use.
pub first_idle_lem :
    (p : Pool) (ds : Dict String ℕ) (h : String) (d : ℕ)
    → Distinct str_discrete ds
    → first_idle p ds ≡ some (h, d)
    → (Dict.get str_discrete h ds ≡ some d) × (refcount h p ≡ 0)
unfolding first_idle Dict.get
first_idle_lem p [] h d v e = cc
first_idle_lem p ((k, x) ∷ ds) h d v e = elim (Bool-cases (refcount k p == 0)) [
  | inl t ↦
      let free : refcount k p ≡ 0 = ground arith in
      let same : (k, x) ≡ (h, d) = some-injective _ _ (sym (if_true _ _ t) ∙ e) in
      let host : k ≡ h = ap (λ q. q.0) same in
      (
        if_pos (str_discrete k h) host _ _ ∙ ap (λ q. some q.1) same,
        sym (ap (λ i. refcount i p) host) ∙ free,
      )
  | inr f ↦
      let later = first_idle_lem p ds h d v.1 (sym (if_false _ _ f) ∙ e) in
      (get-cons str_discrete h k d x ds later.0 v.0, later.1)
]

evict-IsSound :
    (p : Pool) (o : Option (String × ℕ))
    → first_idle p p.drivers ≡ o
    → IsSound p
    → IsSound (evict p o).0
      × ((evict p o).1 ≡ true → length (evict p o).0.drivers < p.max_connections)
unfolding evict invalidate
evict-IsSound p none e s = (s, λ f. cc)
evict-IsSound p (some (h, d)) e s =
    let g = (first_idle_lem p p.drivers h d s.distinct e).0 in
    (
      forget-IsSound h d p g s,
      λ f. omega (arith, length-del-lt str_discrete h d p.drivers g, s.bound),
    )

make_room-IsSound :
    (p : Pool)
    → IsSound p
    → IsSound (make_room p).0
      × ((make_room p).1 ≡ true → length (make_room p).0.drivers < p.max_connections)
unfolding make_room evict_one
make_room-IsSound p s = elim (Bool-cases (leb p.max_connections (length p.drivers))) [
  | inl t ↦ rw t (evict-IsSound p (first_idle p p.drivers) refl s)
  | inr f ↦ rw f (s, λ _. ground arith)
]

-- The host has no driver once room was made, if it had none.
pub evict_absent :
    (h : String) (p : Pool) (o : Option (String × ℕ))
    → Dict.get str_discrete h p.drivers ≡ none
    → Dict.get str_discrete h (evict p o).0.drivers ≡ none
unfolding evict forget invalidate
evict_absent h p none e = e
evict_absent h p (some (k, d)) e = get-del str_discrete k h p.drivers ∙ elim (str_discrete k h) [
  | yes same ↦ if_pos (str_discrete k h) same none (Dict.get str_discrete h p.drivers)
  | no ne ↦ if_neg (str_discrete k h) ne none (Dict.get str_discrete h p.drivers) ∙ e
]

pub make_room_absent :
    (h : String) (p : Pool)
    → Dict.get str_discrete h p.drivers ≡ none
    → Dict.get str_discrete h (make_room p).0.drivers ≡ none
unfolding make_room evict_one
make_room_absent h p e = elim (Bool-cases (leb p.max_connections (length p.drivers))) [
  | inl t ↦ rw t (evict_absent h p (first_idle p p.drivers) e)
  | inr f ↦ rw f e
]

evict_max : (p : Pool) (o : Option (String × ℕ)) → (evict p o).0.max_connections ≡ p.max_connections
unfolding evict forget invalidate
evict_max p none = refl
evict_max p (some (k, d)) = refl

make_room_max : (p : Pool) → (make_room p).0.max_connections ≡ p.max_connections
unfolding make_room evict_one
make_room_max p = elim (Bool-cases (leb p.max_connections (length p.drivers))) [
  | inl t ↦ rw t (evict_max p (first_idle p p.drivers))
  | inr f ↦ rw f refl
]

create_in_room-IsSound :
    (h : String) (verify connects ok : Bool) (p : Pool)
    → Dict.get str_discrete h p.drivers ≡ none
    → IsSound p
    → (ok ≡ true → length p.drivers < p.max_connections)
    → IsSound (create_in_room h verify connects (p, ok)).0
unfolding create_in_room create
create_in_room-IsSound h verify connects false p e s room = s
create_in_room-IsSound h verify false true p e s room = s
create_in_room-IsSound h verify true true p e s room =
    put-Orderly h p.drivers p.closed p.next_driver p.max_connections e (room refl) s

find_driver-IsSound :
    (h : String) (verify connects : Bool) (o : Option ℕ) (p : Pool)
    → Dict.get str_discrete h p.drivers ≡ o
    → IsSound p
    → IsSound (find_driver h verify connects o p).0
unfolding find_driver
find_driver-IsSound h verify connects (some d) p e s = s
find_driver-IsSound h verify connects none p e s =
    let (sound, room) = make_room-IsSound p s in
    create_in_room-IsSound h verify connects (make_room p).1 (make_room p).0
      (make_room_absent h p e) sound
      (λ ok. subst (λ n. length (make_room p).0.drivers < n) (sym (make_room_max p)) (room ok))

-- A look-up keeps the drivers in order: the pool stays within its limit, and no driver in it is one
-- that was closed.
pub look_up-IsSound :
    (h : String) (verify : Option Bool) (connects : Bool) (p : Pool)
    → IsSound p
    → IsSound (look_up h verify connects p).0
unfolding look_up
look_up-IsSound h verify connects p s = find_driver-IsSound h _ connects _ p refl s
