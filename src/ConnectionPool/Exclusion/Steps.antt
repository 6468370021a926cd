-- ===== src/ConnectionPool/Exclusion/Steps.antt =====
-- src/network_mcp/connection.py: the threads of a pool, one step after the other.
use network_mcp.Base.{
  ℕ, Bool, true, String, str_discrete, Option, some, ◌≡◌, refl, ◌≢◌, ◌∙◌, sym, ap, Time,
}
use mathlib.Core.Path.{subst, subst⁻¹}
use network_mcp.Dict
use network_mcp.ConnectionPool.{
  Pool, Found, driver, exception, refcount, forget, start_use, count_checkout, release, check_out,
  look_up, get_host_lock, verify_driver,
}
use network_mcp.ConnectionPool.Sound.{IsSound, forget-IsSound}
use network_mcp.ConnectionPool.Sound.LookUp.{look_up-IsSound}
use network_mcp.ConnectionPool.Exclusion.Backed.{
  Backed, Counted, forget-Backed, look_up-Backed, check_out-Backed, check_out-Counted,
  check_out-IsSound,
}
use network_mcp.ConnectionPool.Exclusion.Ends.{
  start_use_cases, verify_driver_cases, release-Backed, release-IsSound,
}
use network_mcp.ConnectionPool.Exclusion.Locks.{
  check_out_locks, look_up_locks, release_locks, get_host_lock_lem, get_host_lock_keeps,
  get_host_lock_keep,
}
use network_mcp.ConnectionPool.Exclusion.Invariant.{
  Known, InUse, AtHost, IsSafe, move-IsSafe, others_InUse, all_InUse, Known-same, not-AtHost,
}
use network_mcp.ConnectionPool.Threads.{
  Stage, queued, locked, checked, using, leaving, Phase, idle, inside, System, HasLock, Holds, move,
  with_pool, after_check, after_start, Step, enter, lock, check, start, finish, unlock, get_driver,
  get_verified,
}

Known-more : (h : String) (p : Pool) (q : Phase) → Known p q → Known (get_host_lock h p).0 q
Known-more h p idle k = tt
Known-more h p (inside st j l) k = get_host_lock_keeps h j l p k

module _ (y : System) (s : IsSafe y) where
  -- The thread at host h goes on with a pool that keeps what the other hosts have.
  module _ (t : ℕ) (st : Stage) (h : String) (l : ℕ) (now : y.phase t ≡ inside st h l)
      (has : HasLock st) where
    away : (u : ℕ) → t ≢ u → ¬ AtHost h (y.phase u)
    away u ne a = ne (s.alone t u h (subst⁻¹ (AtHost h) now (has, refl)) a)

    my_lock : Known y.pool (inside st h l)
    my_lock = subst (Known y.pool) now (s.known t)

    pub go_on :
        (q : Phase) (p : Pool)
        → IsSound p
        → p.host_locks ≡ y.pool.host_locks
        → Known p q
        → InUse p q
        → ((k : String) (x : ℕ) → h ≢ k → Backed k x y.pool → Backed k x p)
        → ((k : String) → AtHost k q → k ≡ h)
        → IsSafe (move t q p y)
    go_on q p sound locks known held keep here =
        move-IsSafe t q p y s sound known held
          (λ u ne. Known-same y.pool p (y.phase u) locks (s.known u))
          (λ u ne. others_InUse h y.pool p (y.phase u) keep (away u ne) (s.in_use u))
          (λ k u ne a b. away u ne (subst (λ i. AtHost i (y.phase u)) (here k a) b))

    check-IsSafe_at :
        (r : Pool × Found)
        → IsSound r.0
        → r.0.host_locks ≡ y.pool.host_locks
        → ((k : String) (x : ℕ) → Backed k x y.pool → Backed k x r.0)
        → Counted h r
        → IsSafe (move t (after_check h l r.1) r.0 y)
    unfolding after_check
    check-IsSafe_at (p, exception) sound locks keep c =
        go_on (inside leaving h l) p sound locks (ap (Dict.get str_discrete h) locks ∙ my_lock) tt
          (λ k x ne. keep k x) (λ k a. sym a.1)
    check-IsSafe_at (p, driver d need) sound locks keep c =
        go_on (inside (checked d need) h l) p sound locks
          (ap (Dict.get str_discrete h) locks ∙ my_lock) c (λ k x ne. keep k x) (λ k a. sym a.1)

    start-IsSafe_at :
        (d : ℕ) (need answers : Bool) (elapsed : Time)
        → Backed h d y.pool
        → IsSafe (
            move t
              (after_start h l d (start_use need h d answers elapsed y.pool).1)
              (start_use need h d answers elapsed y.pool).0
              y)
    unfolding after_start count_checkout forget refcount
    start-IsSafe_at d need answers elapsed b =
        start_use_cases (λ r. IsSafe (move t (after_start h l d r.1) r.0 y)) h d y.pool need answers
          elapsed
          (λ v.
            go_on (inside (using d) h l)
              (count_checkout elapsed (record y.pool { verified = v }, true)).0 s.sound refl my_lock
              b (λ k x ne c. c) (λ k a. sym a.1))
          (go_on (inside leaving h l) (forget h d y.pool) (forget-IsSound h d y.pool b.0 s.sound)
            refl my_lock tt (λ k x ne. forget-Backed h k d x y.pool ne) (λ k a. sym a.1))

    finish-IsSafe_at : IsSafe (move t (inside leaving h l) (release h y.pool) y)
    finish-IsSafe_at =
        go_on (inside leaving h l) (release h y.pool) (release-IsSound h y.pool s.sound)
          (release_locks h y.pool) (ap (Dict.get str_discrete h) (release_locks h y.pool) ∙ my_lock)
          tt (λ k x ne. release-Backed h k x y.pool ne) (λ k a. sym a.1)

    unlock-IsSafe_at : IsSafe (move t idle y.pool y)
    unlock-IsSafe_at = go_on idle y.pool s.sound refl tt tt (λ k x ne b. b) (λ k a. absurd a)

  enter-IsSafe :
      (t : ℕ) (h : String)
      → IsSafe (move t (inside queued h (get_host_lock h y.pool).1) (get_host_lock h y.pool).0 y)
  unfolding refcount
  enter-IsSafe t h =
      let p = (get_host_lock h y.pool).0 in
      move-IsSafe t (inside queued h (get_host_lock h y.pool).1) p y s
        (get_host_lock_keep IsSound h y.pool (λ locks n. s.sound)) (get_host_lock_lem h y.pool) tt
        (λ u ne. Known-more h y.pool (y.phase u) (s.known u))
        (λ u ne.
          all_InUse y.pool p (y.phase u)
            (λ k x b. get_host_lock_keep (Backed k x) h y.pool (λ locks n. b)) (s.in_use u))
        (λ k u ne a b. a.0)

  lock-IsSafe :
      (t l : ℕ) (h : String)
      → y.phase t ≡ inside queued h l
      → ((u : ℕ) → ¬ Holds l (y.phase u))
      → IsSafe (move t (inside locked h l) y.pool y)
  lock-IsSafe t l h now free =
      let mine : Dict.get str_discrete h y.pool.host_locks ≡ some l =
        subst (Known y.pool) now (s.known t) in
      move-IsSafe t (inside locked h l) y.pool y s s.sound mine tt (λ u ne. s.known u)
        (λ u ne. s.in_use u)
        (λ k u ne a.
          subst (λ i. ¬ AtHost i (y.phase u)) a.1
            (not-AtHost h l y.pool (y.phase u) mine (s.known u) (free u)))

  get_driver-IsSafe :
      (h : String) (verify : Option Bool) (connects : Bool)
      → IsSafe (with_pool (look_up h verify connects y.pool).0 y)
  unfolding with_pool
  get_driver-IsSafe h verify connects =
      let p = (look_up h verify connects y.pool).0 in
      record {
        sound = look_up-IsSound h verify connects y.pool s.sound;
        known = λ t.
            Known-same y.pool p (y.phase t) (look_up_locks h verify connects y.pool) (s.known t);
        in_use = λ t.
            all_InUse y.pool p (y.phase t)
              (λ k x b. look_up-Backed h k x verify connects y.pool s.sound b) (s.in_use t);
        alone = s.alone;
      }

  get_verified-IsSafe : (h : String) → IsSafe (with_pool (verify_driver h true y.pool).0 y)
  unfolding with_pool refcount
  get_verified-IsSafe h =
      verify_driver_cases (λ r. IsSafe (with_pool r.0 y)) h 0 y.pool true
        (λ v. record { sound = s.sound; known = s.known; in_use = s.in_use; alone = s.alone }) s

-- Every step of a thread, and every call of get_driver that does not fail to verify, keeps the
-- invariant.
pub Step-IsSafe : {y z : System} → Step y z → IsSafe y → IsSafe z
Step-IsSafe (enter y t h now) s = enter-IsSafe y s t h
Step-IsSafe (lock y t l h now free) s = lock-IsSafe y s t l h now free
Step-IsSafe (check y t l h verify connects now) s =
    check-IsSafe_at y s t locked h l now tt (check_out h verify connects y.pool)
      (check_out-IsSound h verify connects y.pool s.sound)
      (check_out_locks h verify connects y.pool)
      (λ k x b. check_out-Backed h k x verify connects y.pool s.sound b)
      (check_out-Counted h verify connects y.pool)
Step-IsSafe (start y t l d h need answers elapsed now) s =
    start-IsSafe_at y s t (checked d need) h l now tt d need answers elapsed
      (subst (InUse y.pool) now (s.in_use t))
Step-IsSafe (finish y t l d h now) s = finish-IsSafe_at y s t (using d) h l now tt
Step-IsSafe (unlock y t l h now) s = unlock-IsSafe_at y s t leaving h l now tt
Step-IsSafe (get_driver y h verify connects) s = get_driver-IsSafe y s h verify connects
Step-IsSafe (get_verified y h) s = get_verified-IsSafe y s h
