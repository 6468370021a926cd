-- ===== src/CommandCache/Invalidate.antt =====
-- `invalidate_host`, and a cache that may hold no entry.
use network_mcp.Base.{
  All, Memᴰ-cases, ℕ, zero, suc, ◌<◌, ◌≡◌, ◌≢◌, inl, inr, refl, sym, ap, ◌∙◌, true, Option, none,
  some, List, [], ◌∷◌, leb, ite, if_pos, if_neg, length, arith, Option-cases, Time, String,
  str_discrete, if_true,
}
use network_mcp.Base.Int.{account_sub, account_open, account_clear}
use mathlib.Core.List.{Memᴰ, not-mem-nil}
use network_mcp.Dict
use network_mcp.Dict.{Dict, Distinct}
use network_mcp.Dict.Laws.{get-del, del-Distinct}
use network_mcp.Dict.Measure.{length-del-le, total-del}
use network_mcp.CommandCache.{
  Payload, CacheKey, key_discrete, CacheEntry, CommandCache, host_keys, pop_keys, popped,
  invalidate_host, evict_count, evict_if_needed, store, put, new_entry, forget_old, evict_lru,
}
use network_mcp.CommandCache.Loops.{stored_bytes}
use network_mcp.CommandCache.Put.{IsAccounted, put_enabled}

module _ (p : Payload) where
  popped_lem :
      (k : CacheKey) (c : CommandCache p)
      → IsAccounted p c
      → let c' = popped p k c (Dict.get key_discrete k c.entries) in
        IsAccounted p c'
        × (c'.max_entries ≡ c.max_entries)
        × ((j : CacheKey)
            → Dict.get key_discrete j c'.entries
              ≡ ite (key_discrete k j) none (Dict.get key_discrete j c.entries))
  popped_lem k c a = elim (Option-cases (Dict.get key_discrete k c.entries)) [
    | inl e ↦ rw (e, popped) (a, refl, λ j. ground arith)
    | inr (x, e) ↦
        rw (e, popped)
          (
            record {
              room = a.room;
              distinct = del-Distinct key_discrete k c.entries a.distinct;
              bounded = omega (arith, a.bounded, length-del-le key_discrete k c.entries);
              accounted = account_clear _ _ (
                  account_sub c.current_memory_bytes 0 x.size_bytes (stored_bytes p c) _
                    (account_open _ _ a.accounted)
                    (total-del key_discrete (λ e. e.size_bytes) k x c.entries a.distinct e));
            },
            refl,
            λ j. get-del key_discrete k j c.entries,
          )
  ]

  pop_keys_lem :
      (ks : List CacheKey) (c : CommandCache p)
      → IsAccounted p c
      → let c' = pop_keys p ks c in
        IsAccounted p c'
        × ((j : CacheKey)
            → Dict.get key_discrete j c.entries ≡ none
            → Dict.get key_discrete j c'.entries ≡ none)
        × ((j : CacheKey) → Memᴰ j ks → Dict.get key_discrete j c'.entries ≡ none)
        × ((j : CacheKey)
            → All (λ k. k ≢ j) ks
            → Dict.get key_discrete j c'.entries ≡ Dict.get key_discrete j c.entries)
  unfolding pop_keys
  pop_keys_lem [] c a = (a, λ j h. h, λ j m. absurd (nothing j m), λ j h. refl)
    where
      nothing : (j : CacheKey) → ¬ Memᴰ j []
      nothing j m = not-mem-nil ∣ m ∣₁
  pop_keys_lem (k ∷ ks) c a =
      let (a₁, _, g) = popped_lem k c a in
      let (a', kept, removed, left) =
        pop_keys_lem ks (popped p k c (Dict.get key_discrete k c.entries)) a₁ in
      (
        a',
        λ j h. kept j (g j ∙ none_either (key_discrete k j) h),
        λ j m. elim (Memᴰ-cases m) [
          | inl e ↦ kept j (g j ∙ if_pos (key_discrete k j) (sym e) _ _)
          | inr n ↦ removed j n
        ],
        λ j h. left j h.1 ∙ g j ∙ if_neg (key_discrete k j) h.0 _ _,
      )
    where
      none_either :
          {P : Type 0} (d : Dec P) {o : Option (CacheEntry p)} → o ≡ none → ite d none o ≡ none
      none_either d h = ground arith

  host_keys_found :
      (host : String) (j : CacheKey) (e : CacheEntry p) (d : Dict CacheKey (CacheEntry p))
      → j.host ≡ host
      → Dict.get key_discrete j d ≡ some e
      → Memᴰ j (host_keys p host d)
  unfolding host_keys Dict.get
  host_keys_found host j e [] h g = absurd (cc)
  host_keys_found host j e ((k, x) ∷ d) h g = elim (key_discrete k j) [
    | yes p ↦
        rw (if_pos (str_discrete k.host host) (ap (λ (i : CacheKey). i.host) p ∙ h))
          (Memᴰ.head (sym p))
    | no n ↦ behind (host_keys_found host j e d h (sym (if_neg (key_discrete k j) n _ _) ∙ g))
  ]
    where
      behind :
          Memᴰ j (host_keys p host d)
          → Memᴰ j (ite (str_discrete k.host host) (k ∷ host_keys p host d) (host_keys p host d))
      behind m = elim (str_discrete k.host host) [
        | yes s ↦ rw (if_pos _ s) (Memᴰ.tail m)
        | no s ↦ rw (if_neg _ s) m
      ]

  host_keys_only :
      (host : String) (j : CacheKey) (d : Dict CacheKey (CacheEntry p))
      → j.host ≢ host
      → All (λ k. k ≢ j) (host_keys p host d)
  unfolding host_keys
  host_keys_only host j [] h = tt
  host_keys_only host j ((k, x) ∷ d) h = elim (str_discrete k.host host) [
    | yes s ↦
        rw (if_pos _ s)
          (λ e. h (ap (λ (i : CacheKey). i.host) (sym e) ∙ s), host_keys_only host j d h)
    | no s ↦ rw (if_neg _ s) (host_keys_only host j d h)
  ]

  -- `invalidate_host` removes every entry of the host, keeps all others as they are, and keeps the
  -- account exact.
  pub invalidate_host_lem :
      (host : String) (c : CommandCache p) (k : CacheKey)
      → IsAccounted p c
      → let c' = (invalidate_host p host c).0 in
        IsAccounted p c'
        × (k.host ≡ host → Dict.get key_discrete k c'.entries ≡ none)
        × (k.host ≢ host → Dict.get key_discrete k c'.entries ≡ Dict.get key_discrete k c.entries)
  unfolding invalidate_host
  invalidate_host_lem host c k a =
      let (a', kept, removed, left) = pop_keys_lem (host_keys p host c.entries) c a in
      (
        a',
        λ h. elim (Option-cases (Dict.get key_discrete k c.entries)) [
          | inl e ↦ kept k e
          | inr (x, e) ↦ removed k (host_keys_found host k x c.entries h e)
        ],
        λ h. left k (host_keys_only host k c.entries h),
      )

  evict_count_stuck :
      (fuel : ℕ) (c : CommandCache p) → c.max_entries ≡ 0 → evict_count p fuel c ≡ none
  unfolding evict_count
  evict_count_stuck zero c z = refl
  evict_count_stuck (suc fuel) c z =
      if_true _ _ (full c z) ∙ evict_count_stuck fuel (evict_lru p c) (limit c z)
    where
      full : (c : CommandCache p) → c.max_entries ≡ 0 → leb c.max_entries (length c.entries) ≡ true
      full c z = ground arith

      limit : (c : CommandCache p) → c.max_entries ≡ 0 → (evict_lru p c).max_entries ≡ 0
      limit c z = unfold evict_lru in ground arith

  limit-forget_old :
      (o : Option (CacheEntry p)) (c : CommandCache p)
      → (forget_old p o c).max_entries ≡ c.max_entries
  unfolding forget_old
  limit-forget_old none c = refl
  limit-forget_old (some e) c = refl

  -- In an enabled cache whose limit of entries is 0, a `put` with a ttl that is not 0 never returns:
  -- the first loop of `_evict_if_needed` goes on whatever the fuel.
  pub put_diverges :
      (fuel : ℕ) (key : CacheKey) (v : p.Value) (ttl : ℕ) (now : Time) (c : CommandCache p)
      → c.enabled ≡ true
      → 0 < ttl
      → c.max_entries ≡ 0
      → put p fuel key v ttl now c ≡ none
  put_diverges fuel key v ttl now c on t z = put_enabled p fuel key v ttl now c on t ∙ never
    where
      never : store p fuel key (new_entry p c.encrypted v ttl now) c ≡ none
      never =
          unfold store evict_if_needed in
          rw (
            evict_count_stuck fuel (forget_old p (Dict.get key_discrete key c.entries) c)
                (limit-forget_old _ c ∙ z),
            store,
            evict_if_needed,
          )
