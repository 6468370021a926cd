-- ===== src/Dict.antt =====
-- Python's `dict`: an association list in insertion order. A write to a key that is there keeps its
-- place, as in Python; `del` takes the entry out.
pub mod Laws
pub mod Measure
pub mod Sweep
use network_mcp.Base.{
  ◌≡◌, ℕ, ◌+◌, Bool, Option, none, some, List, [], ◌∷◌, map, ite, ltb, length, if◌then◌else◌,
}

abbrev pub Dict {ℓ} : Type ℓ → Type ℓ → Type ℓ
Dict K V = List (K × V)

module _ {ℓ} {K V : Type ℓ} where
  -- list(d), and d.values()
  unfoldable pub keys : Dict K V → List K
  keys [] = []
  keys ((k, v) ∷ d) = k ∷ keys d

  unfoldable pub values : Dict K V → List V
  values [] = []
  values ((k, v) ∷ d) = v ∷ values d

  -- [k for k, v in d.items() if p(v)]
  unfoldable pub keys_where : (V → Bool) → Dict K V → List K
  keys_where p [] = []
  keys_where p ((k, v) ∷ d) = let rest = keys_where p d in if p v then k ∷ rest else rest

  -- d with the entries only that satisfy the test
  unfoldable pub filter_values : (V → Bool) → Dict K V → Dict K V
  filter_values p [] = []
  filter_values p ((k, v) ∷ d) = let rest = filter_values p d in if p v then (k, v) ∷ rest else rest

  -- the sum of f over the values
  unfoldable pub total : (V → ℕ) → Dict K V → ℕ
  total f [] = 0
  total f ((k, v) ∷ d) = f v + total f d

  -- the loop of `min(d, key=f)`: the first entry with the least value of f, from a candidate
  unfoldable pub min_from : (V → ℕ) → K → V → Dict K V → K × V
  min_from f k v [] = (k, v)
  min_from f k v ((j, w) ∷ d) =
      let take_new = min_from f j w d in
      let keep_old = min_from f k v d in if ltb (f w) (f v) then take_new else keep_old

  -- `min(d, key=f)` with its value; `none` stands for the ValueError of an empty dict
  unfoldable pub min_entry : (V → ℕ) → Dict K V → Option (K × V)
  unfolding min_from
  min_entry f [] = none
  min_entry f ((k, v) ∷ d) = some (min_from f k v d)

module _ {ℓ} {K V : Type ℓ} (dec : Discrete K) where
  -- d.get(k)
  unfoldable pub get : K → Dict K V → Option V
  get k [] = none
  get k ((j, v) ∷ d) = ite (dec j k) (some v) (get k d)

  -- d[k] = v
  unfoldable pub put : K → V → Dict K V → Dict K V
  put k v [] = (k, v) ∷ []
  put k v ((j, w) ∷ d) = ite (dec j k) ((j, v) ∷ d) ((j, w) ∷ put k v d)

  -- d.pop(k, None), del d[k]
  unfoldable pub del : K → Dict K V → Dict K V
  del k [] = []
  del k ((j, w) ∷ d) = let rest = del k d in ite (dec j k) rest ((j, w) ∷ rest)

  -- for k in ks: del d[k]
  unfoldable pub del_all : List K → Dict K V → Dict K V
  unfolding del
  del_all [] d = d
  del_all (k ∷ ks) d = del_all ks (del k d)

  -- No key stands twice.
  abbrev pub Distinct : Dict K V → Type ℓ
  Distinct [] = Unit
  Distinct ((k, v) ∷ d) = (get k d ≡ none) × Distinct d
