-- ===== src/ConnectionPool/Exclusion/Ends.antt =====
-- src/network_mcp/connection.py: the ways in which a verification, a checkout and a release end.
use network_mcp.Base.{
  ℕ, ◌-◌, Bool, true, false, String, str_discrete, Option, none, some, List, ◌≢◌, Time, leb,
  Bool-cases, in_list, inl, inr,
}
use network_mcp.Dict.Laws.{get-put_ne, get-del_ne}
use network_mcp.ConnectionPool.{
  Pool, refcount, forget, verify_driver, verify_or_clean, cleanup_failed_verify, clean_unless,
  start_use, count_checkout, release, count_out,
}
use network_mcp.ConnectionPool.Sound.{IsSound}
use network_mcp.ConnectionPool.Exclusion.Backed.{Backed}

module _ {ℓ} (P : Pool × Bool → Type ℓ) (h : String) (d : ℕ) (p : Pool) where
  pub verify_driver_cases :
      (answers : Bool)
      → ((verified : List String) → P (record p { verified = verified }, true))
      → P (p, false)
      → P (verify_driver h answers p)
  unfolding verify_driver
  verify_driver_cases answers good bad = elim (Bool-cases (in_list h p.verified)) [
    | inl t ↦ rw t (good p.verified)
    | inr f ↦ elim (Bool-cases answers) [ inl t ↦ rw (f, t) (good _) | inr g ↦ rw (f, g) bad ]
  ]

module _ {ℓ} (P : Pool × Bool → Type ℓ) (h : String) (d : ℕ) (p : Pool) where
  -- A checkout that is served changes no table but that of the verified hosts; one that fails to
  -- verify drops the driver.
  pub start_use_cases :
      (need answers : Bool) (elapsed : Time)
      → ((verified : List String)
          → P (count_checkout elapsed (record p { verified = verified }, true)))
      → P (forget h d p, false)
      → P (start_use need h d answers elapsed p)
  unfolding start_use verify_or_clean clean_unless cleanup_failed_verify count_checkout
  start_use_cases false answers elapsed good bad = good p.verified
  start_use_cases true answers elapsed good bad =
      verify_driver_cases (λ r. P (count_checkout elapsed (clean_unless h d r))) h d p answers good
        bad

count_out-Backed :
    (h k : String) (x : ℕ) (o : Option ℕ) (p : Pool)
    → h ≢ k
    → Backed k x p
    → Backed k x (count_out h o p)
unfolding count_out refcount
count_out-Backed h k x none p ne b = b
count_out-Backed h k x (some n) p ne b = (
  b.0,
  elim (Bool-cases (leb n 1)) [
    | inl t ↦ rw (t, get-del_ne str_discrete h k p.refcounts ne) b.1
    | inr f ↦ rw (f, get-put_ne str_discrete h k (n - 1) p.refcounts ne) b.1
  ],
)

-- The end of a block gives back no count of another host.
pub release-Backed :
    (h k : String) (x : ℕ) (p : Pool) → h ≢ k → Backed k x p → Backed k x (release h p)
unfolding release
release-Backed h k x p ne b = count_out-Backed h k x _ p ne b

count_out-IsSound : (h : String) (o : Option ℕ) (p : Pool) → IsSound p → IsSound (count_out h o p)
unfolding count_out
count_out-IsSound h none p s = s
count_out-IsSound h (some n) p s = s

pub release-IsSound : (h : String) (p : Pool) → IsSound p → IsSound (release h p)
unfolding release
release-IsSound h p s = count_out-IsSound h _ p s
