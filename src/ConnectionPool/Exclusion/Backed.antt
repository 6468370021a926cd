-- ===== src/ConnectionPool/Exclusion/Backed.antt =====
-- src/network_mcp/connection.py: a driver that is counted as in use stays in the pool.
use network_mcp.Base.{
  ℕ, ◌+◌, ◌<◌, Bool, true, false, String, str_discrete, Option, none, some, ◌≡◌, refl, ◌≢◌, length,
  sym, ◌∙◌, ap, leb, arith, Bool-cases, inl, inr,
}
use mathlib.Core.Path.{subst}
use network_mcp.Dict
use network_mcp.Dict.Laws.{get-put_self, get-put_ne, get-del_ne}
use network_mcp.ConnectionPool.{
  Pool, Found, driver, exception, refcount, count_or_zero, first_idle, forget, invalidate, evict,
  evict_one, make_room, create, create_in_room, find_driver, look_up, count_in, check_out,
}
use network_mcp.ConnectionPool.Sound.{IsSound}
use network_mcp.ConnectionPool.Sound.LookUp.{first_idle_lem, make_room_absent, look_up-IsSound}

abbrev pub Backed : String → ℕ → Pool → Type 0
Backed h d p = (Dict.get str_discrete h p.drivers ≡ some d) × (0 < refcount h p)

-- The part of the pool that belongs to another host.
pub forget-Backed :
    (h k : String) (d x : ℕ) (p : Pool) → h ≢ k → Backed k x p → Backed k x (forget h d p)
unfolding forget refcount
forget-Backed h k d x p ne (g, n) = (
  get-del_ne str_discrete h k p.drivers ne ∙ g,
  subst (λ o. 0 < count_or_zero o) (sym (get-del_ne str_discrete h k p.refcounts ne)) n,
)

evict-Backed :
    (k : String) (x : ℕ) (p : Pool) (o : Option (String × ℕ))
    → IsSound p
    → first_idle p p.drivers ≡ o
    → Backed k x p
    → Backed k x (evict p o).0
unfolding evict invalidate refcount
evict-Backed k x p none s e b = b
evict-Backed k x p (some (h, d)) s e b =
    let free = (first_idle_lem p p.drivers h d s.distinct e).1 in
    forget-Backed h k d x p
      (λ same.
        let zero_count : refcount k p ≡ 0 = sym (ap (λ i. refcount i p) same) ∙ free in
        absurd (omega (arith, zero_count, b.1)))
      b

make_room-Backed :
    (k : String) (x : ℕ) (p : Pool) → IsSound p → Backed k x p → Backed k x (make_room p).0
unfolding make_room evict_one
make_room-Backed k x p s b = elim (Bool-cases (leb p.max_connections (length p.drivers))) [
  | inl t ↦ rw t (evict-Backed k x p (first_idle p p.drivers) s refl b)
  | inr f ↦ rw f b
]

create_in_room-Backed :
    (h k : String) (x : ℕ) (verify connects ok : Bool) (p : Pool)
    → Dict.get str_discrete h p.drivers ≡ none
    → Backed k x p
    → Backed k x (create_in_room h verify connects (p, ok)).0
unfolding create_in_room create refcount
create_in_room-Backed h k x verify connects false p e b = b
create_in_room-Backed h k x verify false true p e b = b
create_in_room-Backed h k x verify true true p e b =
    let ne : h ≢ k = λ same.
      let there : none ≡ some x = sym e ∙ ap (λ i. Dict.get str_discrete i p.drivers) same ∙ b.0 in
      cc in
    (get-put_ne str_discrete h k p.next_driver p.drivers ne ∙ b.0, b.1)

find_driver-Backed :
    (h k : String) (x : ℕ) (verify connects : Bool) (o : Option ℕ) (p : Pool)
    → Dict.get str_discrete h p.drivers ≡ o
    → IsSound p
    → Backed k x p
    → Backed k x (find_driver h verify connects o p).0
unfolding find_driver
find_driver-Backed h k x verify connects (some d) p e s b = b
find_driver-Backed h k x verify connects none p e s b =
    create_in_room-Backed h k x verify connects (make_room p).1 (make_room p).0
      (make_room_absent h p e) (make_room-Backed k x p s b)

-- A look-up evicts no driver that is in use.
pub look_up-Backed :
    (h k : String) (x : ℕ) (verify : Option Bool) (connects : Bool) (p : Pool)
    → IsSound p
    → Backed k x p
    → Backed k x (look_up h verify connects p).0
unfolding look_up
look_up-Backed h k x verify connects p s b = find_driver-Backed h k x _ connects _ p refl s b

count_in-Backed :
    (h k : String) (x : ℕ) (r : Pool × Found) → Backed k x r.0 → Backed k x (count_in h r).0
unfolding count_in refcount
count_in-Backed h k x (p, exception) b = b
count_in-Backed h k x (p, driver d need) b = (
  b.0,
  elim (str_discrete h k) [
    | yes same ↦
        subst (λ i. 0 < refcount i (count_in h (p, driver d need)).0) same
          (rw (get-put_self str_discrete h (refcount h p + 1) p.refcounts) (omega arith))
    | no ne ↦
        subst (λ o. 0 < count_or_zero o)
          (sym (get-put_ne str_discrete h k (refcount h p + 1) p.refcounts ne)) b.1
  ],
)

pub check_out-Backed :
    (h k : String) (x : ℕ) (verify : Option Bool) (connects : Bool) (p : Pool)
    → IsSound p
    → Backed k x p
    → Backed k x (check_out h verify connects p).0
unfolding check_out
check_out-Backed h k x verify connects p s b =
    count_in-Backed h k x _ (look_up-Backed h k x verify connects p s b)

-- The driver that is returned is the one in the pool; it is counted as in use.
abbrev Returned : String → Pool × Found → Type 0
Returned h (p, exception) = Unit
Returned h (p, driver d need) = Dict.get str_discrete h p.drivers ≡ some d

abbrev pub Counted : String → Pool × Found → Type 0
Counted h (p, exception) = Unit
Counted h (p, driver d need) = Backed h d p

create_in_room-Returned :
    (h : String) (verify connects ok : Bool) (p : Pool)
    → Returned h (create_in_room h verify connects (p, ok))
unfolding create_in_room create
create_in_room-Returned h verify connects false p = tt
create_in_room-Returned h verify false true p = tt
create_in_room-Returned h verify true true p = get-put_self str_discrete h p.next_driver p.drivers

find_driver-Returned :
    (h : String) (verify connects : Bool) (o : Option ℕ) (p : Pool)
    → Dict.get str_discrete h p.drivers ≡ o
    → Returned h (find_driver h verify connects o p)
unfolding find_driver
find_driver-Returned h verify connects (some d) p e = e
find_driver-Returned h verify connects none p e =
    create_in_room-Returned h verify connects (make_room p).1 (make_room p).0

count_in-Counted : (h : String) (r : Pool × Found) → Returned h r → Counted h (count_in h r)
unfolding count_in refcount
count_in-Counted h (p, exception) e = tt
count_in-Counted h (p, driver d need) e =
    (e, rw (get-put_self str_discrete h (refcount h p + 1) p.refcounts) (omega arith))

pub check_out-Counted :
    (h : String) (verify : Option Bool) (connects : Bool) (p : Pool)
    → Counted h (check_out h verify connects p)
unfolding check_out look_up
check_out-Counted h verify connects p =
    count_in-Counted h _ (find_driver-Returned h _ connects _ p refl)

count_in-IsSound : (h : String) (r : Pool × Found) → IsSound r.0 → IsSound (count_in h r).0
unfolding count_in
count_in-IsSound h (p, exception) s = s
count_in-IsSound h (p, driver d need) s = s

pub check_out-IsSound :
    (h : String) (verify : Option Bool) (connects : Bool) (p : Pool)
    → IsSound p
    → IsSound (check_out h verify connects p).0
unfolding check_out
check_out-IsSound h verify connects p s =
    count_in-IsSound h _ (look_up-IsSound h verify connects p s)
