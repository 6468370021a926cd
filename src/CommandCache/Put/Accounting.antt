-- ===== src/CommandCache/Put/Accounting.antt =====
-- The memory account after a `put`.
use mathlib.Core.Path.{subst}
use network_mcp.Base.{
  ◌&&◌, ℕ, zero, suc, ◌+◌, ◌≤◌, ◌<◌, ◌≡◌, ◌≢◌, ◌⊎◌, inl, inr, sym, ap, ◌∙◌, true, false, Option,
  none, some, ltb, length, arith, Option-cases, Time,
}
use network_mcp.Base.Int.{ℤ, pos, ◌+ℤ◌, account_add, account_clear, gtb_ℤ}
use network_mcp.Dict
use network_mcp.Dict.{Dict, Distinct, min_entry, total}
use network_mcp.Dict.Laws.{get-del_self}
use network_mcp.Dict.Measure.{total-put_new, length-put_new, min_entry_sound}
use network_mcp.CommandCache.{
  Payload, CacheKey, key_discrete, CacheEntry, CommandCache, evict_if_needed, forget_old, insert,
  new_entry, put, over_memory, evict_count, evict_memory, evict_lru,
}
use network_mcp.CommandCache.Loops.{
  stored_bytes, Balanced, Evicted, evict_count_lem, evict_memory_lem, evict_lru_lem, Evicted-trans,
}
use network_mcp.CommandCache.Put.{
  IsAccounted, old_size, forget_old_lem, put_enabled, store_of, make_room,
}

module _ (p : Payload) where
  -- The write of a key that is not there puts its size on the account and on the stored bytes.
  insert_absent :
      (debt : ℕ) (key : CacheKey) (e : CacheEntry p) (d : CommandCache p)
      → Dict.get key_discrete key d.entries ≡ none
      → Balanced p debt d
      → Balanced p debt (insert p key e d)
  unfolding insert
  insert_absent debt key e d h b =
      account_add d.current_memory_bytes debt e.size_bytes (stored_bytes p d) b
      ∙ ap pos (sym (total-put_new key_discrete (λ e. e.size_bytes) key e d.entries h))

  -- An eviction brings no entry back.
  absent_after :
      (key : CacheKey) {d d' : CommandCache p}
      → Evicted p d d'
      → Dict.get key_discrete key d.entries ≡ none
      → Dict.get key_discrete key d'.entries ≡ none
  absent_after key {d' = d'} out h = elim (Option-cases (Dict.get key_discrete key d'.entries)) [
    | inl e ↦ e
    | inr (x, e) ↦ absurd (some-ne-none (sym (out.part key x e) ∙ h))
  ]
    where
      some-ne-none : {x : CacheEntry p} → some x ≢ none
      some-ne-none e = cc

  fits_of :
      (m : ℤ) (t s limit n : ℕ)
      → m ≡ pos t
      → (gtb_ℤ (m +ℤ pos s) (pos limit) && ltb 0 n) ≡ false
      → (t + s ≤ limit) ⊎ (n ≡ 0)
  fits_of m t s limit n e h =
      at_pos (subst (λ (x : ℤ). (gtb_ℤ (x +ℤ pos s) (pos limit) && ltb 0 n) ≡ false) e h)
    where
      at_pos : (gtb_ℤ (pos t +ℤ pos s) (pos limit) && ltb 0 n) ≡ false → (t + s ≤ limit) ⊎ (n ≡ 0)
      at_pos h = unfold ◌+ℤ◌ in ground arith

  insert_fits :
      (key : CacheKey) (e : CacheEntry p) (d : CommandCache p)
      → Dict.get key_discrete key d.entries ≡ none
      → d.current_memory_bytes ≡ pos (stored_bytes p d)
      → over_memory p e.size_bytes d ≡ false
      → (stored_bytes p (insert p key e d) ≤ d.max_memory_bytes)
        ⊎ (length (insert p key e d).entries ≡ 1)
  unfolding insert over_memory
  insert_fits key e d h m fits =
      elim (fits_of d.current_memory_bytes (stored_bytes p d) e.size_bytes d.max_memory_bytes _ m
        fits) [
          | inl l ↦
              inl (omega (arith, total-put_new key_discrete (λ e. e.size_bytes) key e d.entries h))
          | inr z ↦ inr (omega (arith, length-put_new key_discrete key e d.entries h))
        ]

  -- A `put` with a positive ttl, of a key that is not there, into an enabled cache that has a limit of
  -- one entry at least, no more entries than that, and an account that is exact: with fuel above the
  -- number of entries it ends, and the account is exact again: the accounted memory is the sum of the
  -- sizes of the entries. These are within the memory limit, or the new entry is the only one.
  pub put_fresh :
      (fuel : ℕ) (key : CacheKey) (v : p.Value) (ttl : ℕ) (now : Time) (c : CommandCache p)
      → IsAccounted p c
      → c.enabled ≡ true
      → 0 < ttl
      → length c.entries < fuel
      → Dict.get key_discrete key c.entries ≡ none
      → (c' : CommandCache p) × (put p fuel key v ttl now c ≡ some c')
        × (c'.current_memory_bytes ≡ pos (stored_bytes p c'))
        × ((stored_bytes p c' ≤ c.max_memory_bytes) ⊎ (length c'.entries ≡ 1))
  put_fresh fuel key v ttl now c a on t h absent =
      let e = new_entry p c.encrypted v ttl now in
      let o = Dict.get key_discrete key c.entries in
      let (same, _, memory, owed, _, _) = forget_old_lem p o c a.accounted in
      let (d', ends, out, short, fits) = make_room p fuel key e.size_bytes c a h in
      let gone = absent_after key out (ap (Dict.get key_discrete key) same ∙ absent) in
      let exact : Balanced p 0 d' =
        out.balance 0 (subst (λ n. Balanced p n (forget_old p o c)) (no_debt o absent) owed) in
      (
        insert p key e d',
        put_enabled p fuel key v ttl now c on t ∙ store_of p fuel key e c d' ends,
        account_clear _ _ (insert_absent 0 key e d' gone exact),
        subst
            (λ n.
              (stored_bytes p (insert p key e d') ≤ n) ⊎ (length (insert p key e d').entries ≡ 1))
            (out.same_memory ∙ memory) (insert_fits key e d' gone (account_clear _ _ exact) fits),
      )
    where
      no_debt : (o : Option (CacheEntry p)) → o ≡ none → old_size p o ≡ 0
      no_debt o h = unfold old_size in ground arith

  evict_lru_absent :
      (key : CacheKey) (old : CacheEntry p) (d : CommandCache p)
      → min_entry (λ e. e.last_accessed) d.entries ≡ some (key, old)
      → Dict.get key_discrete key (evict_lru p d).entries ≡ none
  unfolding evict_lru
  evict_lru_absent key old d h = rw h (get-del_self key_discrete key d.entries)

  evict_count_full :
      (fuel : ℕ) (d : CommandCache p)
      → length d.entries ≡ d.max_entries
      → evict_count p (suc fuel) d ≡ evict_count p fuel (evict_lru p d)
  unfolding evict_count
  evict_count_full fuel d h = ground arith

  evict_if_needed_of :
      (fuel size : ℕ) (d d₁ d₂ : CommandCache p)
      → evict_count p fuel d ≡ some d₁
      → evict_memory p fuel size d₁ ≡ some d₂
      → evict_if_needed p fuel size d ≡ some d₂
  unfolding evict_if_needed
  evict_if_needed_of fuel size d d₁ d₂ e₁ e₂ = rw (e₁, evict_if_needed) e₂

  -- In a full cache whose least recently used entry is the one that is replaced, the eviction takes
  -- that entry, whose size is off the account already.
  replaced_goes :
      (fuel size : ℕ) (key : CacheKey) (old : CacheEntry p) (d : CommandCache p)
      → Distinct key_discrete d.entries
      → 0 < d.max_entries
      → length d.entries < fuel
      → length d.entries ≡ d.max_entries
      → min_entry (λ e. e.last_accessed) d.entries ≡ some (key, old)
      → (d' : CommandCache p) × (evict_if_needed p fuel size d ≡ some d')
        × Evicted p d d'
        × (Dict.get key_discrete key d'.entries ≡ none)
  replaced_goes zero size key old d u m h full lru = absurd (omega arith)
  replaced_goes (suc fuel) size key old d u m h full lru =
      let (one, less) = evict_lru_lem p d u (omega arith) in
      let (d₁, e₁, out₁, _, fewer₁) =
        evict_count_lem p fuel (evict_lru p d) one.distinct (rw one.same_limit m) (omega arith) in
      let (d₂, e₂, out₂, _, _) =
        evict_memory_lem p (suc fuel) size d₁ out₁.distinct (omega arith) in
      let out = Evicted-trans p out₁ out₂ in
      (
        d₂,
        evict_if_needed_of (suc fuel) size d d₁ d₂ (evict_count_full fuel d full ∙ e₁) e₂,
        Evicted-trans p one out,
        absent_after key out (evict_lru_absent key old d lru),
      )

  -- A `put` on the key that is the least recently used one of a full cache takes the size of the old
  -- entry off the account twice: afterwards the accounted memory is less than the stored bytes by
  -- that size.
  pub put_evicts_itself :
      (fuel : ℕ) (key : CacheKey) (v : p.Value) (ttl : ℕ) (now : Time) (c : CommandCache p)
      (old : CacheEntry p)
      → IsAccounted p c
      → c.enabled ≡ true
      → 0 < ttl
      → length c.entries < fuel
      → length c.entries ≡ c.max_entries
      → min_entry (λ e. e.last_accessed) c.entries ≡ some (key, old)
      → (c' : CommandCache p) × (put p fuel key v ttl now c ≡ some c')
        × (c'.current_memory_bytes +ℤ pos old.size_bytes ≡ pos (stored_bytes p c'))
  put_evicts_itself fuel key v ttl now c old a on t h full lru =
      let e = new_entry p c.encrypted v ttl now in
      let o = Dict.get key_discrete key c.entries in
      let held : o ≡ some old =
        min_entry_sound key_discrete (λ e. e.last_accessed) key old c.entries a.distinct lru in
      let (same, limit, _, owed, _, _) = forget_old_lem p o c a.accounted in
      let d = forget_old p o c in
      let sized = ap (λ (x : Dict CacheKey (CacheEntry p)). length x) same in
      let (d', ends, out, gone) =
        replaced_goes fuel e.size_bytes key old d (rw same a.distinct) (rw limit a.room)
          (omega (arith, sized)) (omega (arith, sized, limit))
          (ap (min_entry (λ e. e.last_accessed)) same ∙ lru) in
      (
        insert p key e d',
        put_enabled p fuel key v ttl now c on t ∙ store_of p fuel key e c d' ends,
        insert_absent old.size_bytes key e d' gone
            (out.balance old.size_bytes (subst (λ n. Balanced p n d) (debt_of o held) owed)),
      )
    where
      debt_of : (o : Option (CacheEntry p)) → o ≡ some old → old_size p o ≡ old.size_bytes
      debt_of o h = unfold old_size in ground arith
