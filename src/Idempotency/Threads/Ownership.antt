-- ===== src/Idempotency/Threads/Ownership.antt =====
-- Which thread owns which idempotency key, and the moves of one thread.
use network_mcp.Base.{
  ℕ, String, str_discrete, Option, none, ◌≡◌, ◌≢◌, if_pos, if_neg, ℕ_discrete, sym, ◌⊎◌, inl, inr,
  ◌∙◌,
}
use mathlib.Core.Path.{subst}
use network_mcp.Dict
use network_mcp.Dict.{Dict}
use network_mcp.Idempotency.{IdempotencyStore}
use network_mcp.Idempotency.Threads.{
  Phase, System, move, idle, executing, stored, signalling, waiting, unguarded,
}

-- A thread owns a key from its acquisition to the removal of the key from the keys in flight.
abbrev pub Owns : Phase → String → Type 0
Owns idle k = ⊥
Owns (executing j) k = j ≡ k
Owns (stored j) k = j ≡ k
Owns (signalling event) k = ⊥
Owns (waiting j event) k = ⊥
Owns (unguarded j) k = ⊥

module _ {R : Type 0} where
  abbrev pub flying : String → IdempotencyStore R → Option ℕ
  flying k s = Dict.get str_discrete k s.in_flight

  pub record Inv (y : System R) : Type 0 where
    pub held : (t : ℕ) (k : String) → Owns (y.phase t) k → flying k y.shared ≢ none
    pub one_owner : (t u : ℕ) (k : String) → Owns (y.phase t) k → Owns (y.phase u) k → t ≡ u

  -- What a moved thread owns is what its new phase owns; the others own what they owned.
  Owns-move :
      (y : System R) (t : ℕ) (p : Phase) (s : IdempotencyStore R) (u : ℕ) (k : String)
      → Owns ((move t p s y).phase u) k
      → ((t ≡ u) × Owns p k) ⊎ ((t ≢ u) × Owns (y.phase u) k)
  unfolding move
  Owns-move y t p s u k o = elim (ℕ_discrete t u) [
    | yes e ↦ inl (e, subst (λ q. Owns q k) (if_pos (ℕ_discrete t u) e _ _) o)
    | no n ↦ inr (n, subst (λ q. Owns q k) (if_neg (ℕ_discrete t u) n _ _) o)
  ]

  -- A thread that owned no key but maybe those it owns now moves, and no key in flight is removed.
  pub Inv-keep :
      (y : System R) (t : ℕ) (p : Phase) (s : IdempotencyStore R)
      → ((k : String) → Owns p k → Owns (y.phase t) k)
      → ((k : String) → flying k y.shared ≢ none → flying k s ≢ none)
      → Inv y
      → Inv (move t p s y)
  unfolding move
  Inv-keep y t p s less kept inv = record {
    held = λ u k o. elim (Owns-move y t p s u k o) [
      | inl (e, q) ↦ kept k (inv.held t k (less k q))
      | inr (n, q) ↦ kept k (inv.held u k q)
    ];
    one_owner = λ u v k o r. inv.one_owner u v k (was u k o) (was v k r);
  }
    where
      was : (u : ℕ) (k : String) → Owns ((move t p s y).phase u) k → Owns (y.phase u) k
      was u k o = elim (Owns-move y t p s u k o) [
        | inl (e, q) ↦ subst (λ v. Owns (y.phase v) k) e (less k q)
        | inr (n, q) ↦ q
      ]

  -- A thread takes a key that was not in flight.
  pub Inv-take :
      (y : System R) (t : ℕ) (key : String) (s : IdempotencyStore R)
      → flying key y.shared ≡ none
      → flying key s ≢ none
      → ((k : String) → flying k y.shared ≢ none → flying k s ≢ none)
      → Inv y
      → Inv (move t (executing key) s y)
  unfolding move
  Inv-take y t key s free taken kept inv = record {
    held = λ u k o. elim (Owns-move y t (executing key) s u k o) [
      | inl (e, q) ↦ subst (λ j. flying j s ≢ none) q taken
      | inr (n, q) ↦ kept k (inv.held u k q)
    ];
    one_owner = λ u v k o r. elim (Owns-move y t (executing key) s u k o) [
      | inl (e, q) ↦ elim (Owns-move y t (executing key) s v k r) [
        | inl (f, w) ↦ sym e ∙ f
        | inr (n, w) ↦ absurd (inv.held v k w (subst (λ j. flying j y.shared ≡ none) q free))
      ]
      | inr (m, q) ↦ elim (Owns-move y t (executing key) s v k r) [
        | inl (f, w) ↦ absurd (inv.held u k q (subst (λ j. flying j y.shared ≡ none) w free))
        | inr (n, w) ↦ inv.one_owner u v k q w
      ]
    ];
  }

  -- The owner of a key gives it up.
  pub Inv-drop :
      (y : System R) (t : ℕ) (key : String) (p : Phase) (s : IdempotencyStore R)
      → Owns (y.phase t) key
      → ((k : String) → ¬ Owns p k)
      → ((k : String) → key ≢ k → flying k y.shared ≢ none → flying k s ≢ none)
      → Inv y
      → Inv (move t p s y)
  unfolding move
  Inv-drop y t key p s owner nothing kept inv = record {
    held = λ u k o. elim (Owns-move y t p s u k o) [
      | inl (e, q) ↦ absurd (nothing k q)
      | inr (n, q) ↦
          kept k (λ e. n (inv.one_owner t u k (subst (λ j. Owns (y.phase t) j) e owner) q))
            (inv.held u k q)
    ];
    one_owner = λ u v k o r. elim (Owns-move y t p s u k o) [
      | inl (e, q) ↦ absurd (nothing k q)
      | inr (m, q) ↦ elim (Owns-move y t p s v k r) [
        | inl (f, w) ↦ absurd (nothing k w)
        | inr (n, w) ↦ inv.one_owner u v k q w
      ]
    ];
  }
