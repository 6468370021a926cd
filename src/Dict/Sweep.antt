-- ===== src/Dict/Sweep.antt =====
-- Deleting the keys of all entries that fail a test: the sweep of expired entries.
use network_mcp.Base.{
  ◌≡◌, refl, ◌+◌, Bool, not, none, some, [], ◌∷◌, if_pos, arith, length, Bool-cases, inl, inr,
  if◌then◌else◌, ◌∙◌, ap,
}
use network_mcp.Dict.{Dict, get, del, del_all, keys_where, filter_values, Distinct}
use network_mcp.Dict.Laws.{Every, del_absent}

module _ {ℓ} {K V : Type ℓ} (dec : Discrete K) where
  filter_values-absent :
      (p : V → Bool) (k : K) (d : Dict K V)
      → get dec k d ≡ none
      → get dec k (filter_values p d) ≡ none
  unfolding get filter_values
  filter_values-absent p k [] h = refl
  filter_values-absent p k ((j, w) ∷ d) h = ground (arith, filter_values-absent p k d)

  pub filter_values-Distinct :
      (p : V → Bool) (d : Dict K V) → Distinct dec d → Distinct dec (filter_values p d)
  unfolding filter_values
  filter_values-Distinct p [] h = tt
  filter_values-Distinct p ((j, w) ∷ d) h =
      ground (arith, filter_values-Distinct p d h.1, filter_values-absent p j d h.0)

  -- A lookup in the filtered dict finds the entries that pass, and no other.
  pub get-filter_values :
      (p : V → Bool) (k : K) (d : Dict K V)
      → Distinct dec d
      → get dec k (filter_values p d)
        ≡ elim (get dec k d) [ none ↦ none | some v ↦ if p v then some v else none ]
  unfolding get filter_values
  get-filter_values p k [] h = refl
  get-filter_values p k ((j, w) ∷ d) h =
      ground (arith, get-filter_values p k d h.1, filter_values-absent p k d)

  -- Deletions commute past an entry of a key that is not among those deleted.
  del_all-cons :
      (p : V → Bool) (j : K) (w : V) (e d : Dict K V)
      → get dec j e ≡ none
      → del_all dec (keys_where p e) ((j, w) ∷ d) ≡ (j, w) ∷ del_all dec (keys_where p e) d
  unfolding del_all keys_where get
  del_all-cons p j w [] d h = refl
  del_all-cons p j w ((i, u) ∷ e) d h = elim (Bool-cases (p u)) [
    | inl y ↦ rw y (ground (arith, del_all-cons p j w e (del dec i d)))
    | inr n ↦ rw n (del_all-cons p j w e d (ground arith))
  ]

  -- The sweep leaves exactly the entries that do not satisfy the test.
  pub del_all-keys_where :
      (p : V → Bool) (d : Dict K V)
      → Distinct dec d
      → del_all dec (keys_where p d) d ≡ filter_values (λ v. not (p v)) d
  unfolding del_all keys_where filter_values
  del_all-keys_where p [] h = refl
  del_all-keys_where p ((j, w) ∷ d) h = elim (Bool-cases (p w)) [
    | inl y ↦ rw y (
        ap (del_all dec (keys_where p d))
          (if_pos (dec j j) refl (del dec j d) ((j, w) ∷ del dec j d) ∙ del_absent dec j d h.0)
        ∙ del_all-keys_where p d h.1)
    | inr n ↦ rw (n, del_all-cons p j w d d h.0) (ap (◌∷◌ (j, w)) (del_all-keys_where p d h.1))
  ]

module _ {ℓ} {K V : Type ℓ} where
  -- What is counted by the list of keys is what is gone.
  pub length-filter_values :
      (p : V → Bool) (d : Dict K V)
      → length (filter_values (λ v. not (p v)) d) + length (keys_where p d) ≡ length d
  unfolding keys_where filter_values
  length-filter_values p [] = refl
  length-filter_values p ((j, w) ∷ d) = ground (arith, length-filter_values p d)

  pub filter_values-Every {κ} :
      (P : K → V → Type κ) (p : V → Bool) (d : Dict K V) → Every P d → Every P (filter_values p d)
  unfolding filter_values
  filter_values-Every P p [] h = tt
  filter_values-Every P p ((j, w) ∷ d) h = elim (Bool-cases (p w)) [
    | inl y ↦ rw y (h.0, filter_values-Every P p d h.1)
    | inr n ↦ rw n (filter_values-Every P p d h.1)
  ]
