-- ===== src/Dict/Measure.antt =====
-- The number of entries, sums over the values, and the entry with the least value.
use mathlib.Core.Path.{subst⁻¹}
use network_mcp.Base.{
  ◌⊎◌, ◌<◌, true, ◌≡◌, refl, ℕ, ◌+◌, ◌≤◌, false, none, some, [], ◌∷◌, ltb, arith, length, if_pos,
  Bool-cases, inl, inr,
}
use mathlib.Core.Option.{some-injective}
use network_mcp.Dict.{Dict, get, put, del, total, min_from, min_entry, Distinct}
use network_mcp.Dict.Laws.{Every, del_absent, get-cons}

module _ {ℓ} {K V : Type ℓ} (dec : Discrete K) where
  pub length-put_new :
      (k : K) (v : V) (d : Dict K V) → get dec k d ≡ none → length (put dec k v d) ≡ length d + 1
  unfolding get put
  length-put_new k v [] h = omega arith
  length-put_new k v ((j, w) ∷ d) h = ground (arith, length-put_new k v d)

  pub length-put_old :
      (k : K) (v w : V) (d : Dict K V) → get dec k d ≡ some w → length (put dec k v d) ≡ length d
  unfolding get put
  length-put_old k v w [] h = cc
  length-put_old k v w ((j, u) ∷ d) h = ground (arith, length-put_old k v w d)

  pub length-put-le : (k : K) (v : V) (d : Dict K V) → length (put dec k v d) ≤ length d + 1
  unfolding put
  length-put-le k v [] = omega arith
  length-put-le k v ((j, w) ∷ d) = ground (arith, length-put-le k v d)

  pub length-del-le : (k : K) (d : Dict K V) → length (del dec k d) ≤ length d
  unfolding del
  length-del-le k [] = omega arith
  length-del-le k ((j, w) ∷ d) = ground (arith, length-del-le k d)

  pub length-del :
      (k : K) (v : V) (d : Dict K V)
      → Distinct dec d
      → get dec k d ≡ some v
      → length (del dec k d) + 1 ≡ length d
  unfolding get del
  length-del k v [] h e = cc
  length-del k v ((j, w) ∷ d) h e = ground (arith, length-del k v d h.1, del_absent dec k d)

  pub length-del-lt :
      (k : K) (v : V) (d : Dict K V) → get dec k d ≡ some v → length (del dec k d) + 1 ≤ length d
  unfolding get del
  length-del-lt k v [] e = cc
  length-del-lt k v ((j, w) ∷ d) e = ground (arith, length-del-lt k v d, length-del-le k d)

module _ {ℓ} {K V : Type ℓ} (dec : Discrete K) (f : V → ℕ) where
  pub total-put_new :
      (k : K) (v : V) (d : Dict K V)
      → get dec k d ≡ none
      → total f (put dec k v d) ≡ total f d + f v
  unfolding get put total
  total-put_new k v [] h = omega arith
  total-put_new k v ((j, w) ∷ d) h = ground (arith, total-put_new k v d)

  pub total-put_old :
      (k : K) (v w : V) (d : Dict K V)
      → get dec k d ≡ some w
      → total f (put dec k v d) + f w ≡ total f d + f v
  unfolding get put total
  total-put_old k v w [] h = cc
  total-put_old k v w ((j, u) ∷ d) h = ground (arith, total-put_old k v w d)

  pub total-del :
      (k : K) (v : V) (d : Dict K V)
      → Distinct dec d
      → get dec k d ≡ some v
      → total f (del dec k d) + f v ≡ total f d
  unfolding get del total
  total-del k v [] h e = cc
  total-del k v ((j, w) ∷ d) h e = ground (arith, total-del k v d h.1, del_absent dec k d)

-- The entry that `min` picks is in the dict.
module _ {ℓ} {K V : Type ℓ} (dec : Discrete K) (f : V → ℕ) where
  min_from_sound :
      (k : K) (v : V) (d : Dict K V)
      → Distinct dec d
      → (min_from f k v d ≡ (k, v)) ⊎ (get dec (min_from f k v d).0 d ≡ some (min_from f k v d).1)
  unfolding min_from
  min_from_sound k v [] u = inl refl
  min_from_sound k v ((j, w) ∷ d) u = elim (Bool-cases (ltb (f w) (f v))) [
    | inl less ↦ rw less (
        inr (elim (min_from_sound j w d u.1) [
          | inl e ↦ rw e (get-head j w d)
          | inr e ↦ get-cons dec (min_from f j w d).0 j (min_from f j w d).1 w d e u.0
        ]))
    | inr more ↦ rw more (elim (min_from_sound k v d u.1) [
      | inl e ↦ inl e
      | inr e ↦ inr (get-cons dec (min_from f k v d).0 j (min_from f k v d).1 w d e u.0)
    ])
  ]
    where
      get-head : (j : K) (w : V) (d : Dict K V) → get dec j ((j, w) ∷ d) ≡ some w
      get-head j w d = unfold get in if_pos (dec j j) refl _ _

  pub min_entry_sound :
      (k : K) (v : V) (d : Dict K V)
      → Distinct dec d
      → min_entry f d ≡ some (k, v)
      → get dec k d ≡ some v
  unfolding min_entry
  min_entry_sound k v [] u e = cc
  min_entry_sound k v ((j, w) ∷ d) u e =
      let here : min_from f j w d ≡ (k, v) = some-injective _ _ e in
      elim (min_from_sound j w d u.1) [
        | inl p ↦ unfold get in ground arith
        | inr p ↦ get-cons dec k j v w d (rw here at p) u.0
      ]

-- No value is less than the one that `min` picks.
module _ {ℓ} {K V : Type ℓ} (f : V → ℕ) where
  min_from-le : (k : K) (v : V) (d : Dict K V) → f (min_from f k v d).1 ≤ f v
  unfolding min_from
  min_from-le k v [] = omega arith
  min_from-le k v ((j, w) ∷ d) = ground (arith, min_from-le k v d, min_from-le j w d)

  min_from_less :
      (k j : K) (v w : V) (d : Dict K V)
      → ltb (f w) (f v) ≡ true
      → min_from f k v ((j, w) ∷ d) ≡ min_from f j w d
  unfolding min_from
  min_from_less k j v w d h = rw h

  min_from_more :
      (k j : K) (v w : V) (d : Dict K V)
      → ltb (f w) (f v) ≡ false
      → min_from f k v ((j, w) ∷ d) ≡ min_from f k v d
  unfolding min_from
  min_from_more k j v w d h = rw h

  min_from_least : (k : K) (v : V) (d : Dict K V) → Every (λ _ x. f (min_from f k v d).1 ≤ f x) d
  min_from_least k v [] = tt
  min_from_least k v ((j, w) ∷ d) = elim (Bool-cases (ltb (f w) (f v))) [
    | inl less ↦
        subst⁻¹ (λ m. Every (λ _ x. f m.1 ≤ f x) ((j, w) ∷ d)) (min_from_less k j v w d less)
          (min_from-le j w d, min_from_least j w d)
    | inr more ↦
        subst⁻¹ (λ m. Every (λ _ x. f m.1 ≤ f x) ((j, w) ∷ d)) (min_from_more k j v w d more)
          (above_first more (min_from-le k v d), min_from_least k v d)
  ]
    where
      above_first : {a b c : ℕ} → ltb a b ≡ false → c ≤ b → c ≤ a
      above_first h l = ground arith

  pub min_entry_least :
      (k : K) (v : V) (d : Dict K V) → min_entry f d ≡ some (k, v) → Every (λ _ x. f v ≤ f x) d
  unfolding min_entry
  min_entry_least k v [] e = cc
  min_entry_least k v ((j, w) ∷ d) e =
      let here : min_from f j w d ≡ (k, v) = some-injective _ _ e in
      (rw here at (min_from-le j w d), rw here at (min_from_least j w d))

  -- `min` of a dict that is not empty does not raise.
  pub min_entry_exists :
      (d : Dict K V) → 0 < length d → (k : K) × (v : V) × (min_entry f d ≡ some (k, v))
  unfolding min_entry
  min_entry_exists [] h = absurd (omega arith)
  min_entry_exists ((k, v) ∷ d) h = ((min_from f k v d).0, (min_from f k v d).1, refl)
