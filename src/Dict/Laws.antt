-- ===== src/Dict/Laws.antt =====
-- Lookups after a write or a removal, and the uniqueness of keys.
use network_mcp.Base.{
  ◌≡◌, refl, ◌≢◌, none, some, List, [], ◌∷◌, ite, if_pos, if_neg, arith, All, sym, ◌∙◌,
}
use mathlib.Core.Option.{some-injective}
use mathlib.Core.Path.{subst₂}
use network_mcp.Dict.{Dict, get, put, del, del_all, Distinct}

module _ {ℓ} {K V : Type ℓ} (dec : Discrete K) where
  pub get-put :
      (k j : K) (v : V) (d : Dict K V)
      → get dec j (put dec k v d) ≡ ite (dec k j) (some v) (get dec j d)
  unfolding get put
  get-put k j v [] = refl
  get-put k j v ((i, w) ∷ d) = ground (arith, get-put k j v d)

  pub get-del :
      (k j : K) (d : Dict K V) → get dec j (del dec k d) ≡ ite (dec k j) none (get dec j d)
  unfolding get del
  get-del k j [] = ground arith
  get-del k j ((i, w) ∷ d) = ground (arith, get-del k j d)

  pub get-put_self : (k : K) (v : V) (d : Dict K V) → get dec k (put dec k v d) ≡ some v
  get-put_self k v d = rw (get-put k k v d) (if_pos (dec k k) refl _ _)

  pub get-put_ne :
      (k j : K) (v : V) (d : Dict K V) → k ≢ j → get dec j (put dec k v d) ≡ get dec j d
  get-put_ne k j v d h = rw (get-put k j v d) (if_neg (dec k j) h _ _)

  pub get-del_self : (k : K) (d : Dict K V) → get dec k (del dec k d) ≡ none
  get-del_self k d = rw (get-del k k d) (if_pos (dec k k) refl _ _)

  pub get-del_ne : (k j : K) (d : Dict K V) → k ≢ j → get dec j (del dec k d) ≡ get dec j d
  get-del_ne k j d h = rw (get-del k j d) (if_neg (dec k j) h _ _)

  pub put-Distinct : (k : K) (v : V) (d : Dict K V) → Distinct dec d → Distinct dec (put dec k v d)
  unfolding get put
  put-Distinct k v [] h = (refl, tt)
  put-Distinct k v ((j, w) ∷ d) h = ground (arith, get-put k j v d, put-Distinct k v d h.1)

  pub del-Distinct : (k : K) (d : Dict K V) → Distinct dec d → Distinct dec (del dec k d)
  unfolding del
  del-Distinct k [] h = tt
  del-Distinct k ((j, w) ∷ d) h = ground (arith, get-del k j d, del-Distinct k d h.1)

  pub del_absent : (k : K) (d : Dict K V) → get dec k d ≡ none → del dec k d ≡ d
  unfolding get del
  del_absent k [] h = refl
  del_absent k ((j, w) ∷ d) h = ground (arith, del_absent k d)

  pub del_all-Distinct :
      (ks : List K) (d : Dict K V) → Distinct dec d → Distinct dec (del_all dec ks d)
  unfolding del_all
  del_all-Distinct [] d h = h
  del_all-Distinct (k ∷ ks) d h = del_all-Distinct ks (del dec k d) (del-Distinct k d h)

-- A predicate of the entries, which the operations keep.
abbrev pub Every {ℓ κ} : {K V : Type ℓ} → (K → V → Type κ) → Dict K V → Type κ
Every P = All (λ e. P e.0 e.1)

module _ {ℓ κ} {K V : Type ℓ} (dec : Discrete K) (P : K → V → Type κ) where
  pub put-Every : (k : K) (v : V) (d : Dict K V) → P k v → Every P d → Every P (put dec k v d)
  unfolding put
  put-Every k v [] p h = (p, tt)
  put-Every k v ((j, w) ∷ d) p h = elim (dec j k) [
    | yes e ↦ rw (if_pos _ e) (rw e p, h.1)
    | no n ↦ rw (if_neg _ n) (h.0, put-Every k v d p h.1)
  ]

  pub del-Every : (k : K) (d : Dict K V) → Every P d → Every P (del dec k d)
  unfolding del
  del-Every k [] h = tt
  del-Every k ((j, w) ∷ d) h = elim (dec j k) [
    | yes e ↦ rw (if_pos _ e) (del-Every k d h.1)
    | no n ↦ rw (if_neg _ n) (h.0, del-Every k d h.1)
  ]

  pub get-Every : (k : K) (v : V) (d : Dict K V) → Every P d → get dec k d ≡ some v → P k v
  unfolding get
  get-Every k v [] h e = cc
  get-Every k v ((j, w) ∷ d) h e = elim (dec j k) [
    | yes p ↦
        let same : w ≡ v = some-injective w v (sym (if_pos (dec j k) p _ _) ∙ e) in
        subst₂ P p same h.0
    | no n ↦ get-Every k v d h.1 (sym (if_neg (dec j k) n _ _) ∙ e)
  ]

module _ {ℓ} {K V : Type ℓ} (dec : Discrete K) where
  -- What is in the tail is found behind an entry of another key.
  pub get-cons :
      (k j : K) (v w : V) (d : Dict K V)
      → get dec k d ≡ some v
      → get dec j d ≡ none
      → get dec k ((j, w) ∷ d) ≡ some v
  unfolding get
  get-cons k j v w d e f = ground arith
