-- ===== src/ConnectionPool/Exclusion/Locks.antt =====
-- src/network_mcp/connection.py: the locks of the hosts, which only _get_host_lock writes.
use network_mcp.Base.{
  ℕ, Bool, true, false, String, str_discrete, Option, none, some, ◌≡◌, refl, Time, ◌∙◌, sym, leb,
  length, Bool-cases, inl, inr, ap,
}
use network_mcp.Dict
use network_mcp.Dict.{Dict}
use network_mcp.Dict.Laws.{get-put_self, get-put_ne}
use network_mcp.ConnectionPool.{
  Pool, Found, driver, exception, first_idle, forget, invalidate, evict, evict_one, make_room,
  create, create_in_room, find_driver, look_up, count_in, check_out, start_use, count_checkout,
  release, count_out, get_host_lock, lock_of,
}
use network_mcp.ConnectionPool.Exclusion.Ends.{start_use_cases}

evict_locks : (p : Pool) (o : Option (String × ℕ)) → (evict p o).0.host_locks ≡ p.host_locks
unfolding evict forget invalidate
evict_locks p none = refl
evict_locks p (some (h, d)) = refl

make_room_locks : (p : Pool) → (make_room p).0.host_locks ≡ p.host_locks
unfolding make_room evict_one
make_room_locks p = elim (Bool-cases (leb p.max_connections (length p.drivers))) [
  | inl t ↦ rw t (evict_locks p (first_idle p p.drivers))
  | inr f ↦ rw f refl
]

create_in_room_locks :
    (h : String) (verify connects ok : Bool) (p : Pool)
    → (create_in_room h verify connects (p, ok)).0.host_locks ≡ p.host_locks
unfolding create_in_room create
create_in_room_locks h verify connects false p = refl
create_in_room_locks h verify false true p = refl
create_in_room_locks h verify true true p = refl

find_driver_locks :
    (h : String) (verify connects : Bool) (o : Option ℕ) (p : Pool)
    → (find_driver h verify connects o p).0.host_locks ≡ p.host_locks
unfolding find_driver
find_driver_locks h verify connects (some d) p = refl
find_driver_locks h verify connects none p =
    create_in_room_locks h verify connects (make_room p).1 (make_room p).0 ∙ make_room_locks p

pub look_up_locks :
    (h : String) (verify : Option Bool) (connects : Bool) (p : Pool)
    → (look_up h verify connects p).0.host_locks ≡ p.host_locks
unfolding look_up
look_up_locks h verify connects p = find_driver_locks h _ connects _ p

count_in_locks : (h : String) (r : Pool × Found) → (count_in h r).0.host_locks ≡ r.0.host_locks
unfolding count_in
count_in_locks h (p, exception) = refl
count_in_locks h (p, driver d need) = refl

pub check_out_locks :
    (h : String) (verify : Option Bool) (connects : Bool) (p : Pool)
    → (check_out h verify connects p).0.host_locks ≡ p.host_locks
unfolding check_out
check_out_locks h verify connects p = count_in_locks h _ ∙ look_up_locks h verify connects p

pub start_use_locks :
    (need answers : Bool) (h : String) (d : ℕ) (elapsed : Time) (p : Pool)
    → (start_use need h d answers elapsed p).0.host_locks ≡ p.host_locks
unfolding count_checkout forget
start_use_locks need answers h d elapsed p =
    start_use_cases (λ r. r.0.host_locks ≡ p.host_locks) h d p need answers elapsed (λ v. refl) refl

count_out_locks :
    (h : String) (o : Option ℕ) (p : Pool) → (count_out h o p).host_locks ≡ p.host_locks
unfolding count_out
count_out_locks h none p = refl
count_out_locks h (some n) p = refl

pub release_locks : (h : String) (p : Pool) → (release h p).host_locks ≡ p.host_locks
unfolding release
release_locks h p = count_out_locks h _ p

-- The lock that is returned is the one of the host, and the other hosts keep theirs.
lock_of_lem :
    (h : String) (o : Option ℕ) (p : Pool)
    → Dict.get str_discrete h p.host_locks ≡ o
    → Dict.get str_discrete h (lock_of h o p).0.host_locks ≡ some (lock_of h o p).1
unfolding lock_of
lock_of_lem h (some l) p e = e
lock_of_lem h none p e = get-put_self str_discrete h p.next_lock p.host_locks

lock_of_keeps :
    (h k : String) (l : ℕ) (o : Option ℕ) (p : Pool)
    → Dict.get str_discrete h p.host_locks ≡ o
    → Dict.get str_discrete k p.host_locks ≡ some l
    → Dict.get str_discrete k (lock_of h o p).0.host_locks ≡ some l
unfolding lock_of
lock_of_keeps h k l (some m) p e g = g
lock_of_keeps h k l none p e g =
    get-put_ne str_discrete h k p.next_lock p.host_locks (λ same.
      let there : none ≡ some l = sym e ∙ ap (λ i. Dict.get str_discrete i p.host_locks) same ∙ g in
      cc)
    ∙ g

pub get_host_lock_lem :
    (h : String) (p : Pool)
    → Dict.get str_discrete h (get_host_lock h p).0.host_locks ≡ some (get_host_lock h p).1
unfolding get_host_lock
get_host_lock_lem h p = lock_of_lem h _ p refl

pub get_host_lock_keeps :
    (h k : String) (l : ℕ) (p : Pool)
    → Dict.get str_discrete k p.host_locks ≡ some l
    → Dict.get str_discrete k (get_host_lock h p).0.host_locks ≡ some l
unfolding get_host_lock
get_host_lock_keeps h k l p g = lock_of_keeps h k l _ p refl g

-- It changes nothing else, so that what is known of the drivers stays.
pub get_host_lock_keep {ℓ} :
    (P : Pool → Type ℓ) (h : String) (p : Pool)
    → ((locks : Dict String ℕ) (n : ℕ) → P (record p { host_locks = locks; next_lock = n }))
    → P (get_host_lock h p).0
unfolding get_host_lock
get_host_lock_keep P h p k =
    elim (Dict.get str_discrete h p.host_locks) as (λ o. P (lock_of h o p).0) [
      | none ↦ unfold lock_of in k (Dict.put str_discrete h p.next_lock p.host_locks) _
      | some l ↦ unfold lock_of in k p.host_locks p.next_lock
    ]
