-- ===== src/ConnectionPool/Tests.antt =====
-- src/network_mcp/connection.py: threads at a pool, and what remove_node does to them.
use network_mcp.Base.{
  ℕ, ◌≤◌, ◌<◌, true, str_discrete, ℕ_discrete, none, some, [], ◌∷◌, ◌≡◌, ◌≢◌, refl, All, length,
  ite, in_list,
}
use network_mcp.Dict
use network_mcp.ConnectionPool.{
  init, get_host_lock, check_out, start_use, release, refcount, remove_node,
  calculate_max_connections, evict_one,
}
use network_mcp.ConnectionPool.Threads.{
  System, idle, inside, queued, locked, using, move, enter, lock, check, start, Reach, here, next,
  Holds, with_pool, after_check, after_start,
}
use network_mcp.ConnectionPool.Exclusion.{new_system, Reach-one_user, Reach-open}

abbrev entered : ℕ → System → System
entered t y =
    move t (inside queued "leaf" (get_host_lock "leaf" y.pool).1) (get_host_lock "leaf" y.pool).0 y

abbrev served : ℕ → ℕ → System → System
served t l y =
    move t (after_check "leaf" l (check_out "leaf" none true y.pool).1)
      (check_out "leaf" none true y.pool).0 y

abbrev in_block : ℕ → ℕ → ℕ → System → System
in_block t l d y =
    move t (after_start "leaf" l d (start_use true "leaf" d true 7 y.pool).1)
      (start_use true "leaf" d true 7 y.pool).0 y

abbrev empty_system : System
empty_system = new_system 2 true

-- Thread 1 takes the lock of the host, a new driver, and verifies it.
abbrev waiting : System
waiting = entered 1 empty_system

abbrev holding : System
holding = move 1 (inside locked "leaf" 0) waiting.pool waiting

abbrev one_user : System
one_user = in_block 1 0 0 (served 1 0 holding)

nobody-Holds : (u : ℕ) → ¬ Holds 0 (waiting.phase u)
unfolding move new_system get_host_lock init Dict.get
nobody-Holds u = elim (ℕ_discrete 1 u) as (λ c. ¬ Holds 0 (ite c (inside queued "leaf" 0) idle)) [
  | yes e ↦ λ h. h.0
  | no ne ↦ λ h. h
]

one_user_reached : Reach empty_system one_user
unfolding move new_system get_host_lock init check_out ℕ_discrete str_discrete after_check
    after_start start_use Dict.get in_list Dict.del Dict.put
one_user_reached =
    next
      (next
        (next (next here (enter empty_system 1 "leaf" refl))
          (lock waiting 1 0 "leaf" refl nobody-Holds))
        (check holding 1 0 "leaf" none true refl))
      (start (served 1 0 holding) 1 0 0 "leaf" true true 7 refl)

one_user_phase : one_user.phase 1 ≡ inside (using 0) "leaf" 0
unfolding move new_system get_host_lock init check_out ℕ_discrete str_discrete after_check
    after_start start_use Dict.get in_list Dict.del Dict.put
one_user_phase = refl

Reach-one_user_example : ◌≡◌ {A = ℕ} 1 1
Reach-one_user_example =
    Reach-one_user 2 true one_user_reached 1 1 0 0 0 0 "leaf" one_user_phase one_user_phase

Reach-open_example :
    (Dict.get str_discrete "leaf" one_user.pool.drivers ≡ some 0)
    × (0 < refcount "leaf" one_user.pool)
    × All (λ c. c ≢ 0) one_user.pool.closed
    × (length one_user.pool.drivers ≤ one_user.pool.max_connections)
Reach-open_example = Reach-open 2 true one_user_reached 1 0 0 "leaf" one_user_phase

-- The host is removed while thread 1 is in its block: its driver is closed, and thread 2 gets a lock
-- and a driver of its own.
abbrev removed : System
removed = with_pool (remove_node "leaf" one_user.pool) one_user

abbrev two_users : System
two_users =
    in_block 2 1 1
      (served 2 1 (move 2 (inside locked "leaf" 1) (entered 2 removed).pool (entered 2 removed)))

two_users_phases :
    (two_users.phase 1 ≡ inside (using 0) "leaf" 0)
    × (two_users.phase 2 ≡ inside (using 1) "leaf" 1)
    × (two_users.pool.closed ≡ 0 ∷ [])
unfolding move new_system get_host_lock init check_out ℕ_discrete str_discrete after_check
    after_start start_use Dict.get in_list Dict.del Dict.put remove_node with_pool
two_users_phases = (refl, refl, refl)

-- When thread 1 leaves, the driver of thread 2 is no longer counted, and is evicted.
evicted_in_use : (evict_one (release "leaf" two_users.pool)).0.closed ≡ 1 ∷ 0 ∷ []
unfolding move new_system get_host_lock init check_out ℕ_discrete str_discrete after_check
    after_start start_use Dict.get in_list Dict.del Dict.put remove_node with_pool release evict_one
evicted_in_use = refl

sizes :
    (calculate_max_connections 0 ≡ 100)
    × (calculate_max_connections 30 ≡ 60)
    × (calculate_max_connections 300 ≡ 500)
unfolding calculate_max_connections
sizes = (refl, refl, refl)
