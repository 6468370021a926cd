-- ===== src/ConnectionPool/Sound.antt =====
-- src/network_mcp/connection.py: the drivers of a pool, and those that it has closed.
pub mod LookUp
use network_mcp.Base.{
  ℕ, ◌+◌, ◌≤◌, ◌<◌, ◌==◌, Bool, true, false, String, str_discrete, Option, none, some, List, [],
  ◌∷◌, ◌≡◌, refl, ◌≢◌, sym, ◌∙◌, ap, All, length, arith, Bool-cases, if_split, leb, if◌then◌else◌,
  inl, inr, Option-cases, ◌⊎◌, if_true, if_false, if_pos, if_neg,
}
use mathlib.Core.Option.{some-injective}
use mathlib.Core.Path.{subst}
use network_mcp.Dict
use network_mcp.Dict.{Dict, Distinct}
use network_mcp.Dict.Laws.{
  get-cons, get-put_self, get-put_ne, get-del_self, get-del_ne, get-del, put-Distinct, del-Distinct,
}
use network_mcp.Dict.Measure.{length-put-le, length-del-lt}
use network_mcp.ConnectionPool.{
  Pool, Found, driver, exception, refcount, first_idle, forget, invalidate, evict, evict_one,
  make_room, create, create_in_room, find_driver, look_up,
}

-- No more drivers than the limit, each with a number of its own that was given out, and none of them
-- closed.
pub record Orderly (drivers : Dict String ℕ) (closed : List ℕ) (next max : ℕ) : Type 0 where
  pub bound : length drivers ≤ max
  pub distinct : Distinct str_discrete drivers
  pub below : (h : String) (d : ℕ) → Dict.get str_discrete h drivers ≡ some d → d < next
  pub apart :
      (h k : String) (d : ℕ)
      → Dict.get str_discrete h drivers ≡ some d
      → Dict.get str_discrete k drivers ≡ some d
      → h ≡ k
  pub opened :
      (h : String) (d : ℕ) → Dict.get str_discrete h drivers ≡ some d → All (λ c. c ≢ d) closed
  pub closed_below : All (λ c. c < next) closed

abbrev pub IsSound : Pool → Type 0
IsSound p = Orderly p.drivers p.closed p.next_driver p.max_connections

-- A lookup behind a deletion finds what was there, under another key.
get-del-some :
    (h k : String) (d : ℕ) (m : Dict String ℕ)
    → Dict.get str_discrete k (Dict.del str_discrete h m) ≡ some d
    → (h ≢ k) × (Dict.get str_discrete k m ≡ some d)
get-del-some h k d m e = elim (str_discrete h k) [
  | yes same ↦
      let gone = get-del_self str_discrete h m in
      let f : none ≡ some d =
        sym gone ∙ ap (λ x. Dict.get str_discrete x (Dict.del str_discrete h m)) same ∙ e in
      cc
  | no ne ↦ (ne, sym (get-del_ne str_discrete h k m ne) ∙ e)
]

pub forget-IsSound :
    (h : String) (d : ℕ) (p : Pool)
    → Dict.get str_discrete h p.drivers ≡ some d
    → IsSound p
    → IsSound (forget h d p)
unfolding forget
forget-IsSound h d p g s =
    let old =
      λ (k : String) (x : ℕ)
          (e : Dict.get str_discrete k (Dict.del str_discrete h p.drivers) ≡ some x).
        get-del-some h k x p.drivers e in
    record {
      bound = omega (arith, length-del-lt str_discrete h d p.drivers g, s.bound);
      distinct = del-Distinct str_discrete h p.drivers s.distinct;
      below = λ k x e. s.below k x (old k x e).1;
      apart = λ j k x e f. s.apart j k x (old j x e).1 (old k x f).1;
      opened = λ k x e. (
        λ same. (old k x e).0 (s.apart h k x (g ∙ ap some same) (old k x e).1),
        s.opened k x (old k x e).1,
      );
      closed_below = (s.below h d g, s.closed_below);
    }

get-put-some :
    (h k : String) (d x : ℕ) (m : Dict String ℕ)
    → Dict.get str_discrete k (Dict.put str_discrete h d m) ≡ some x
    → ((h ≡ k) × (d ≡ x)) ⊎ (Dict.get str_discrete k m ≡ some x)
get-put-some h k d x m e = elim (str_discrete h k) [
  | yes same ↦ inl (
    same,
    some-injective d x (
        sym (get-put_self str_discrete h d m)
        ∙ ap (λ i. Dict.get str_discrete i (Dict.put str_discrete h d m)) same
        ∙ e),
  )
  | no ne ↦ inr (sym (get-put_ne str_discrete h k d m ne) ∙ e)
]

All-lt_ne : (n : ℕ) (cs : List ℕ) → All (λ c. c < n) cs → All (λ c. c ≢ n) cs
All-lt_ne n [] h = tt
All-lt_ne n (c ∷ cs) h = (λ e. omega arith, All-lt_ne n cs h.1)

All-lt_suc : (n : ℕ) (cs : List ℕ) → All (λ c. c < n) cs → All (λ c. c < n + 1) cs
All-lt_suc n [] h = tt
All-lt_suc n (c ∷ cs) h = (omega arith, All-lt_suc n cs h.1)

-- A driver with a new number, for a host that has none, where there is room.
pub put-Orderly :
    (h : String) (drivers : Dict String ℕ) (closed : List ℕ) (next max : ℕ)
    → Dict.get str_discrete h drivers ≡ none
    → length drivers < max
    → Orderly drivers closed next max
    → Orderly (Dict.put str_discrete h next drivers) closed (next + 1) max
put-Orderly h drivers closed next max g room s = record {
  bound = omega (arith, length-put-le str_discrete h next drivers);
  distinct = put-Distinct str_discrete h next drivers s.distinct;
  below = λ k x e. elim (get-put-some h k next x drivers e) [
    | inl (same, is) ↦ omega arith
    | inr f ↦ omega (arith, s.below k x f)
  ];
  apart = λ j k x e f. elim (get-put-some h j next x drivers e) [
    | inl (same, is) ↦ elim (get-put-some h k next x drivers f) [
      | inl (same', is') ↦ sym same ∙ same'
      | inr f' ↦ absurd (omega (arith, s.below k x f'))
    ]
    | inr e' ↦ elim (get-put-some h k next x drivers f) [
      | inl (same', is') ↦ absurd (omega (arith, s.below j x e'))
      | inr f' ↦ s.apart j k x e' f'
    ]
  ];
  opened = λ k x e. elim (get-put-some h k next x drivers e) [
    | inl (same, is) ↦
        subst (λ n. All (λ c. c ≢ n) closed) is (All-lt_ne next closed s.closed_below)
    | inr f ↦ s.opened k x f
  ];
  closed_below = All-lt_suc next closed s.closed_below;
}
