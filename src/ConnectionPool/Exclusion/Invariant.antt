-- ===== src/ConnectionPool/Exclusion/Invariant.antt =====
-- src/network_mcp/connection.py: what holds of a pool and its threads at every moment.
use network_mcp.Base.{
  ℕ, String, str_discrete, some, ◌≡◌, ◌≢◌, ◌∙◌, sym, ap, if_pos, if_neg, ℕ_discrete,
}
use mathlib.Core.Path.{subst, subst⁻¹}
use mathlib.Core.Option.{some-injective}
use network_mcp.Dict
use network_mcp.ConnectionPool.{Pool}
use network_mcp.ConnectionPool.Sound.{IsSound}
use network_mcp.ConnectionPool.Exclusion.Backed.{Backed}
use network_mcp.ConnectionPool.Threads.{
  queued, locked, checked, using, leaving, Phase, idle, inside, System, HasLock, Holds, move,
}

-- The lock that a thread waits for or holds is the host's.
abbrev pub Known : Pool → Phase → Type 0
Known p idle = Unit
Known p (inside s h l) = Dict.get str_discrete h p.host_locks ≡ some l

-- The driver that it has is the one in the pool, and counted.
abbrev pub InUse : Pool → Phase → Type 0
InUse p idle = Unit
InUse p (inside queued h l) = Unit
InUse p (inside locked h l) = Unit
InUse p (inside (checked d need) h l) = Backed h d p
InUse p (inside (using d) h l) = Backed h d p
InUse p (inside leaving h l) = Unit

-- It holds the lock of the host.
abbrev pub AtHost : String → Phase → Type 0
AtHost h idle = ⊥
AtHost h (inside s k l) = HasLock s × (k ≡ h)

pub record IsSafe (y : System) : Type 0 where
  pub sound : IsSound y.pool
  pub known : (t : ℕ) → Known y.pool (y.phase t)
  pub in_use : (t : ℕ) → InUse y.pool (y.phase t)
  pub alone : (t u : ℕ) (h : String) → AtHost h (y.phase t) → AtHost h (y.phase u) → t ≡ u

-- What holds of the moved thread's new phase and of the old phases of the others holds of all.
module _ {ℓ} (P : Phase → Type ℓ) (t : ℕ) (q : Phase) (p : Pool) (y : System) where
  pub move_all : P q → ((u : ℕ) → t ≢ u → P (y.phase u)) → (u : ℕ) → P ((move t q p y).phase u)
  unfolding move
  move_all mine others u = elim (ℕ_discrete t u) [
    | yes e ↦ subst⁻¹ P (if_pos (ℕ_discrete t u) e q (y.phase u)) mine
    | no ne ↦ subst⁻¹ P (if_neg (ℕ_discrete t u) ne q (y.phase u)) (others u ne)
  ]

module _ (t : ℕ) (q : Phase) (p : Pool) (y : System) where
  -- The thread is at no host where another one is.
  move_alone :
      IsSafe y
      → ((h : String) (u : ℕ) → t ≢ u → AtHost h q → ¬ AtHost h (y.phase u))
      → (v u : ℕ) (h : String) → AtHost h ((move t q p y).phase v)
      → AtHost h ((move t q p y).phase u)
      → v ≡ u
  unfolding move
  move_alone s apart v u h a b =
      let mine = λ (w : ℕ) (e : t ≡ w) (c : AtHost h ((move t q p y).phase w)).
        subst (AtHost h) (if_pos (ℕ_discrete t w) e q (y.phase w)) c in
      let theirs = λ (w : ℕ) (ne : t ≢ w) (c : AtHost h ((move t q p y).phase w)).
        subst (AtHost h) (if_neg (ℕ_discrete t w) ne q (y.phase w)) c in
      elim (ℕ_discrete t v) [
        | yes e ↦ elim (ℕ_discrete t u) [
          | yes f ↦ sym e ∙ f
          | no nf ↦ absurd (apart h u nf (mine v e a) (theirs u nf b))
        ]
        | no ne ↦ elim (ℕ_discrete t u) [
          | yes f ↦ absurd (apart h v ne (mine u f b) (theirs v ne a))
          | no nf ↦ s.alone v u h (theirs v ne a) (theirs u nf b)
        ]
      ]

  pub move-IsSafe :
      IsSafe y
      → IsSound p
      → Known p q
      → InUse p q
      → ((u : ℕ) → t ≢ u → Known p (y.phase u))
      → ((u : ℕ) → t ≢ u → InUse p (y.phase u))
      → ((h : String) (u : ℕ) → t ≢ u → AtHost h q → ¬ AtHost h (y.phase u))
      → IsSafe (move t q p y)
  unfolding move
  move-IsSafe s sound known in_use others used apart = record {
    sound = sound;
    known = move_all (Known p) t q p y known others;
    in_use = move_all (InUse p) t q p y in_use used;
    alone = move_alone s apart;
  }

-- What a change of the pool keeps for the threads at other hosts.
pub others_InUse :
    (h : String) (p p' : Pool) (q : Phase)
    → ((k : String) (x : ℕ) → h ≢ k → Backed k x p → Backed k x p')
    → ¬ AtHost h q
    → InUse p q
    → InUse p' q
others_InUse h p p' idle keep away u = tt
others_InUse h p p' (inside queued k l) keep away u = tt
others_InUse h p p' (inside locked k l) keep away u = tt
others_InUse h p p' (inside (checked d need) k l) keep away u = keep k d (λ e. away (tt, sym e)) u
others_InUse h p p' (inside (using d) k l) keep away u = keep k d (λ e. away (tt, sym e)) u
others_InUse h p p' (inside leaving k l) keep away u = tt

pub all_InUse :
    (p p' : Pool) (q : Phase)
    → ((k : String) (x : ℕ) → Backed k x p → Backed k x p')
    → InUse p q
    → InUse p' q
all_InUse p p' idle keep u = tt
all_InUse p p' (inside queued k l) keep u = tt
all_InUse p p' (inside locked k l) keep u = tt
all_InUse p p' (inside (checked d need) k l) keep u = keep k d u
all_InUse p p' (inside (using d) k l) keep u = keep k d u
all_InUse p p' (inside leaving k l) keep u = tt

pub Known-same : (p p' : Pool) (q : Phase) → p'.host_locks ≡ p.host_locks → Known p q → Known p' q
Known-same p p' idle e k = tt
Known-same p p' (inside s h l) e k = ap (Dict.get str_discrete h) e ∙ k

-- A thread that holds a lock is at the lock's host.
pub not-AtHost :
    (h : String) (l : ℕ) (p : Pool) (q : Phase)
    → Dict.get str_discrete h p.host_locks ≡ some l
    → Known p q
    → ¬ Holds l q
    → ¬ AtHost h q
not-AtHost h l p idle g k free a = a
not-AtHost h l p (inside s j m) g k free (has, e) =
    free (has, some-injective m l (sym k ∙ ap (λ i. Dict.get str_discrete i p.host_locks) e ∙ g))
