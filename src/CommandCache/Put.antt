-- ===== src/CommandCache/Put.antt =====
-- `put` of src/network_mcp/cache.py: what it stores, and the limits of the cache.
pub mod Accounting
use network_mcp.Base.{
  ℕ, zero, suc, ◌+◌, ◌-◌, ◌≤◌, ◌<◌, ◌≡◌, ◌≢◌, ◌⊎◌, inl, inr, refl, sym, ap, ◌∙◌, Bool, true, false,
  Option, none, some, List, [], ◌∷◌, ltb, leb, ite, if_pos, if_neg, length, arith, Option-cases,
  Bool-cases, if_true, if_false, Time, not, if◌then◌else◌,
}
use network_mcp.Base.Int.{ℤ, pos, ◌+ℤ◌, ◌-ℤ◌, account_owe, account_open, account_add, account_clear}
use network_mcp.Dict
use network_mcp.Dict.{Dict, Distinct, min_entry, total}
use network_mcp.Dict.Laws.{get-put, get-put_self, get-put_ne, put-Distinct}
use network_mcp.Dict.Measure.{length-put-le}
use network_mcp.CommandCache.{
  Payload, CacheKey, key_discrete, CacheEntry, CommandCache, evict_if_needed, forget_old, insert,
  store, new_entry, put, over_memory,
}
use network_mcp.CommandCache.Loops.{stored_bytes, Balanced, Evicted, evict_if_needed_lem}

module _ (p : Payload) where
  -- What the class promises between two calls.
  pub record IsAccounted (c : CommandCache p) : Type 0 where
    pub room : 0 < c.max_entries
    pub distinct : Distinct key_discrete c.entries
    pub bounded : length c.entries ≤ c.max_entries
    pub accounted : c.current_memory_bytes ≡ pos (stored_bytes p c)

  -- what is owed after the old entry of the key has been taken off the account
  unfoldable pub old_size : Option (CacheEntry p) → ℕ
  old_size none = 0
  old_size (some old) = old.size_bytes

  pub forget_old_lem :
      (o : Option (CacheEntry p)) (c : CommandCache p)
      → c.current_memory_bytes ≡ pos (stored_bytes p c)
      → ((forget_old p o c).entries ≡ c.entries)
        × ((forget_old p o c).max_entries ≡ c.max_entries)
        × ((forget_old p o c).max_memory_bytes ≡ c.max_memory_bytes)
        × Balanced p (old_size o) (forget_old p o c)
        × ((forget_old p o c).encrypted ≡ c.encrypted)
        × ((forget_old p o c).enabled ≡ c.enabled)
  unfolding forget_old old_size
  forget_old_lem none c a =
      (refl, refl, refl, account_open c.current_memory_bytes (stored_bytes p c) a, refl, refl)
  forget_old_lem (some old) c a = (
    refl,
    refl,
    refl,
    account_owe c.current_memory_bytes old.size_bytes (stored_bytes p c) a,
    refl,
    refl,
  )

  -- The state before the write, and what the write makes of it.
  pub record Written (key : CacheKey) (e : CacheEntry p) (c c' : CommandCache p) : Type 0 where
    pub holds : Dict.get key_discrete key c'.entries ≡ some e
    pub others :
        (k : CacheKey) (x : CacheEntry p)
        → key ≢ k
        → Dict.get key_discrete k c'.entries ≡ some x
        → Dict.get key_discrete k c.entries ≡ some x
    pub distinct : Distinct key_discrete c'.entries
    pub bounded : length c'.entries ≤ c.max_entries
    pub same_limit : c'.max_entries ≡ c.max_entries
    pub same_mode : (c'.encrypted ≡ c.encrypted) × (c'.enabled ≡ c.enabled)

  insert-Written :
      (key : CacheKey) (e : CacheEntry p) (c d d' : CommandCache p)
      → d.entries ≡ c.entries
      → d.max_entries ≡ c.max_entries
      → (d.encrypted ≡ c.encrypted) × (d.enabled ≡ c.enabled)
      → Evicted p d d'
      → length d'.entries < d.max_entries
      → Written key e c (insert p key e d')
  unfolding insert
  insert-Written key e c d d' same limit mode out short = record {
    holds = get-put_self key_discrete key e d'.entries;
    others = λ k x ne h.
        rw same at (out.part k x (sym (get-put_ne key_discrete key k e d'.entries ne) ∙ h));
    distinct = put-Distinct key_discrete key e d'.entries out.distinct;
    bounded = omega (arith, length-put-le key_discrete key e d'.entries, limit);
    same_limit = out.same_limit ∙ limit;
    same_mode = (out.same_mode.0 ∙ mode.0, out.same_mode.1 ∙ mode.1);
  }

  pub store_of :
      (fuel : ℕ) (key : CacheKey) (e : CacheEntry p) (c d' : CommandCache p)
      → evict_if_needed p fuel e.size_bytes (forget_old p (Dict.get key_discrete key c.entries) c)
        ≡ some d'
      → store p fuel key e c ≡ some (insert p key e d')
  unfolding store
  store_of fuel key e c d' h = rw (h, store)

  pub put_enabled :
      (fuel : ℕ) (key : CacheKey) (v : p.Value) (ttl : ℕ) (now : Time) (c : CommandCache p)
      → c.enabled ≡ true
      → 0 < ttl
      → put p fuel key v ttl now c ≡ store p fuel key (new_entry p c.encrypted v ttl now) c
  unfolding put
  put_enabled fuel key v ttl now c on t = ground arith

  -- The eviction that a `put` makes, once the old entry of its key is taken off the account.
  pub make_room :
      (fuel : ℕ) (key : CacheKey) (size : ℕ) (c : CommandCache p)
      → IsAccounted c
      → length c.entries < fuel
      → let d = forget_old p (Dict.get key_discrete key c.entries) c in
        (d' : CommandCache p) × (evict_if_needed p fuel size d ≡ some d')
        × Evicted p d d'
        × (length d'.entries < d.max_entries)
        × (over_memory p size d' ≡ false)
  make_room fuel key size c a h =
      let o = Dict.get key_discrete key c.entries in
      let (same, limit, _, _, _, _) = forget_old_lem o c a.accounted in
      evict_if_needed_lem p fuel size (forget_old p o c) (rw same a.distinct) (rw limit a.room)
        (omega (arith, ap (λ (x : Dict CacheKey (CacheEntry p)). length x) same))

  -- A `put` with a positive ttl into an enabled cache that has a limit of one entry at least, no more
  -- entries than that and an exact account ends with fuel above the number of entries; then the key
  -- has the new entry, every other entry was there before, and there are at most max_entries entries.
  pub put_stores :
      (fuel : ℕ) (key : CacheKey) (v : p.Value) (ttl : ℕ) (now : Time) (c : CommandCache p)
      → IsAccounted c
      → c.enabled ≡ true
      → 0 < ttl
      → length c.entries < fuel
      → (c' : CommandCache p) × (put p fuel key v ttl now c ≡ some c')
        × Written key (new_entry p c.encrypted v ttl now) c c'
  put_stores fuel key v ttl now c a on t h =
      let e = new_entry p c.encrypted v ttl now in
      let (same, limit, _, _, secret, usable) =
        forget_old_lem (Dict.get key_discrete key c.entries) c a.accounted in
      let (d', ends, out, short, _) = make_room fuel key e.size_bytes c a h in
      (
        insert p key e d',
        put_enabled fuel key v ttl now c on t ∙ store_of fuel key e c d' ends,
        insert-Written key e c _ d' same limit (secret, usable) out short,
      )
