-- ===== src/CommandCache/Loops.antt =====
-- Eviction: one step, and the two loops of src/network_mcp/cache.py.
use mathlib.Core.Path.{subst⁻¹}
use network_mcp.Base.{
  ℕ, zero, suc, ◌+◌, ◌≤◌, ◌<◌, ◌≡◌, inl, inr, refl, ◌∙◌, true, false, some, leb, length, arith,
  Bool-cases, if_true, if_false,
}
use network_mcp.Base.Int.{pos, ◌+ℤ◌, account_sub}
use network_mcp.Dict
use network_mcp.Dict.{Dict, Distinct, min_entry, total}
use network_mcp.Dict.Laws.{get-del, del-Distinct}
use network_mcp.Dict.Measure.{length-del, total-del, min_entry_sound, min_entry_exists}
use network_mcp.CommandCache.{
  Payload, CacheKey, key_discrete, CacheEntry, CommandCache, evict_lru, evict_count, evict_memory,
  evict_if_needed, over_memory, evict,
}

module _ (p : Payload) where
  -- the sizes of all entries
  abbrev pub stored_bytes : CommandCache p → ℕ
  stored_bytes c = total (λ e. e.size_bytes) c.entries

  -- The accounted memory falls short of the stored bytes by the debt.
  abbrev pub Balanced : ℕ → CommandCache p → Type 0
  Balanced debt c = c.current_memory_bytes +ℤ pos debt ≡ pos (stored_bytes c)

  -- c' is c with some entries evicted.
  pub record Evicted (c c' : CommandCache p) : Type 0 where
    pub distinct : Distinct key_discrete c'.entries
    pub balance : (debt : ℕ) → Balanced debt c → Balanced debt c'
    pub part :
        (k : CacheKey) (e : CacheEntry p)
        → Dict.get key_discrete k c'.entries ≡ some e
        → Dict.get key_discrete k c.entries ≡ some e
    pub same_limit : c'.max_entries ≡ c.max_entries
    pub same_memory : c'.max_memory_bytes ≡ c.max_memory_bytes
    pub same_mode : (c'.encrypted ≡ c.encrypted) × (c'.enabled ≡ c.enabled)

  Evicted-refl : (c : CommandCache p) → Distinct key_discrete c.entries → Evicted c c
  Evicted-refl c d = record {
    distinct = d;
    balance = λ debt b. b;
    part = λ k e h. h;
    same_limit = refl;
    same_memory = refl;
    same_mode = (refl, refl);
  }

  pub Evicted-trans : {a b c : CommandCache p} → Evicted a b → Evicted b c → Evicted a c
  Evicted-trans r s = record {
    distinct = s.distinct;
    balance = λ debt b. s.balance debt (r.balance debt b);
    part = λ k e h. r.part k e (s.part k e h);
    same_limit = s.same_limit ∙ r.same_limit;
    same_memory = s.same_memory ∙ r.same_memory;
    same_mode = (s.same_mode.0 ∙ r.same_mode.0, s.same_mode.1 ∙ r.same_mode.1);
  }

  evict_found :
      (c : CommandCache p) (k : CacheKey) (e : CacheEntry p)
      → Distinct key_discrete c.entries
      → Dict.get key_discrete k c.entries ≡ some e
      → Evicted c (evict p c (some (k, e)))
        × (length (evict p c (some (k, e))).entries + 1 ≡ length c.entries)
  evict_found c k e d held = (
    record {
      distinct = del-Distinct key_discrete k c.entries d;
      balance = λ debt b.
          account_sub c.current_memory_bytes debt e.size_bytes (stored_bytes c) _ b
            (total-del key_discrete (λ e. e.size_bytes) k e c.entries d held);
      part = λ j x g. ground (arith, get-del key_discrete k j c.entries);
      same_limit = refl;
      same_memory = refl;
      same_mode = (refl, refl);
    },
    length-del key_discrete k e c.entries d held,
  )

  -- One eviction takes out one entry, if there is one.
  pub evict_lru_lem :
      (c : CommandCache p)
      → Distinct key_discrete c.entries
      → 0 < length c.entries
      → Evicted c (evict_lru p c) × (length (evict_lru p c).entries + 1 ≡ length c.entries)
  unfolding evict_lru
  evict_lru_lem c d h =
      let (k, e, found) = min_entry_exists (λ e. e.last_accessed) c.entries h in
      let held = min_entry_sound key_discrete (λ e. e.last_accessed) k e c.entries d found in
      subst⁻¹ (λ m. Evicted c (evict p c m) × (length (evict p c m).entries + 1 ≡ length c.entries))
        found (evict_found c k e d held)

  pub evict_count_lem :
      (fuel : ℕ) (c : CommandCache p)
      → Distinct key_discrete c.entries
      → 0 < c.max_entries
      → length c.entries < fuel
      → (c' : CommandCache p) × (evict_count p fuel c ≡ some c')
        × Evicted c c'
        × (length c'.entries < c.max_entries)
        × (length c'.entries ≤ length c.entries)
  unfolding evict_count
  evict_count_lem zero c d m h = absurd (omega arith)
  evict_count_lem (suc fuel) c d m h = elim (Bool-cases (leb c.max_entries (length c.entries))) [
    | inl full ↦
        let (one, less) = evict_lru_lem c d (ground arith) in
        let (c', e, out, short, fewer) =
          evict_count_lem fuel (evict_lru p c) one.distinct (rw one.same_limit m) (omega arith) in
        (
          c',
          if_true _ _ full ∙ e,
          Evicted-trans one out,
          omega (arith, one.same_limit),
          omega arith,
        )
    | inr room ↦ (c, if_false _ _ room, Evicted-refl c d, ground arith, omega arith)
  ]

  pub evict_memory_lem :
      (fuel incoming : ℕ) (c : CommandCache p)
      → Distinct key_discrete c.entries
      → length c.entries < fuel
      → (c' : CommandCache p) × (evict_memory p fuel incoming c ≡ some c')
        × Evicted c c'
        × (length c'.entries ≤ length c.entries)
        × (over_memory p incoming c' ≡ false)
  unfolding evict_memory
  evict_memory_lem zero incoming c d h = absurd (omega arith)
  evict_memory_lem (suc fuel) incoming c d h = elim (Bool-cases (over_memory p incoming c)) [
    | inl over ↦
        let (one, less) = evict_lru_lem c d (occupied incoming c over) in
        let (c', e, out, short, fits) =
          evict_memory_lem fuel incoming (evict_lru p c) one.distinct (omega arith) in
        (c', if_true _ _ over ∙ e, Evicted-trans one out, omega arith, fits)
    | inr fits ↦ (c, if_false _ _ fits, Evicted-refl c d, omega arith, fits)
  ]
    where
      occupied :
          (incoming : ℕ) (c : CommandCache p)
          → over_memory p incoming c ≡ true
          → 0 < length c.entries
      occupied incoming c h = unfold over_memory in ground arith

  -- With room for one entry at least, both loops of `_evict_if_needed` end: entries are evicted
  -- until there is room for one more, and until the new one fits or nothing is left.
  pub evict_if_needed_lem :
      (fuel incoming : ℕ) (c : CommandCache p)
      → Distinct key_discrete c.entries
      → 0 < c.max_entries
      → length c.entries < fuel
      → (c' : CommandCache p) × (evict_if_needed p fuel incoming c ≡ some c')
        × Evicted c c'
        × (length c'.entries < c.max_entries)
        × (over_memory p incoming c' ≡ false)
  unfolding evict_if_needed
  evict_if_needed_lem fuel incoming c d m h =
      let (c₁, e₁, out₁, short₁, fewer₁) = evict_count_lem fuel c d m h in
      let (c₂, e₂, out₂, short₂, fits) =
        evict_memory_lem fuel incoming c₁ out₁.distinct (omega arith) in
      (c₂, rw (e₁, evict_if_needed) e₂, Evicted-trans out₁ out₂, omega arith, fits)
