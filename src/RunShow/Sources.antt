-- ===== src/RunShow/Sources.antt =====
-- Where the data of an answer come from.
use network_mcp.Base.{
  ◌≡◌, refl, sym, ap, ◌∙◌, ◌⊎◌, inl, inr, ℕ, ◌+◌, ◌-◌, ◌≤◌, ◌<◌, true, false, Option, none, some,
  Time, seconds, if_split,
}
use mathlib.Core.Path.{subst}
use mathlib.Core.Option.{some-injective}
use network_mcp.Dict
use network_mcp.Dict.Laws.{get-put_self}
use network_mcp.CommandCache
use network_mcp.CommandCache.{
  Payload, CacheKey, key_discrete, CacheEntry, CommandCache, value, open_stored, wrap_stale,
  get_entry, touch, miss, is_expired,
}
use network_mcp.CommandCache.Read.{get_age}
use network_mcp.RunShow.{ShowWorld}

module _ {p : Payload} where
  -- An entry that is within its ttl at the time.
  abbrev pub IsYoung : Time → CacheEntry p → Type 0
  IsYoung now e = now - e.timestamp ≤ seconds e.ttl

  module _ (w : ShowWorld p) (key : CacheKey) (c : CommandCache p) where
    -- The entry of the key at the start of the request, within its ttl, and opened.
    pub record FromFresh (r : CommandCache.Reply p) : Type 0 where
      pub entry : CacheEntry p
      pub held : Dict.get key_discrete key c.entries ≡ some entry
      pub young : IsYoung w.world.now entry
      pub opened :
          (v : p.Value) × (open_stored p c.encrypted entry.content ≡ some v) × (r ≡ value v)

    -- Such an entry as it is, or marked as stale and past its ttl by at most stale_ttl.
    abbrev Shows : ℕ → CommandCache.Reply p → CacheEntry p → Type 0
    Shows stale_ttl r e =
        ((IsYoung w.world.now e ⊎ IsYoung w.world.done e)
          × ((v : p.Value) × (open_stored p c.encrypted e.content ≡ some v) × (r ≡ value v)))
        ⊎ ((w.later - e.timestamp ≤ seconds (e.ttl + stale_ttl))
            × (r ≡ wrap_stale p c.encrypted w.later e))

    pub record FromStale (stale_ttl : ℕ) (r : CommandCache.Reply p) : Type 0 where
      pub entry : CacheEntry p
      pub held : Dict.get key_discrete key c.entries ≡ some entry
      pub shows : Shows stale_ttl r entry

    -- The entry of the key in a later cache is the one at the start, but for its last access.
    pub record Carried (d : CommandCache p) : Type 0 where
      pub same_mode : d.encrypted ≡ c.encrypted
      pub carried :
          (x : CacheEntry p)
          → Dict.get key_discrete key d.entries ≡ some x
          → (e : CacheEntry p) × (t : Time) × (Dict.get key_discrete key c.entries ≡ some e)
            × (x ≡ record e { last_accessed = t })

    Carried-same :
        (d : CommandCache p) → d.entries ≡ c.entries → d.encrypted ≡ c.encrypted → Carried d
    Carried-same d h m = record {
      same_mode = m;
      carried = λ x held.
          (x, x.last_accessed, subst (λ q. Dict.get key_discrete key q ≡ some x) h held, refl);
    }

    pub Carried-refl : Carried c
    Carried-refl = Carried-same c refl refl

    Carried-touched :
        (d : CommandCache p) (e : CacheEntry p) (t : Time)
        → Dict.get key_discrete key c.entries ≡ some e
        → d.entries ≡ Dict.put key_discrete key (record e { last_accessed = t }) c.entries
        → d.encrypted ≡ c.encrypted
        → Carried d
    Carried-touched d e t held h m = record {
      same_mode = m;
      carried = λ x found.
          let e' : CacheEntry p = record e { last_accessed = t } in
          (
            e,
            t,
            held,
            sym (
                some-injective _ _ (
                  sym (get-put_self key_discrete key e' c.entries)
                  ∙ subst (λ q. Dict.get key_discrete key q ≡ some x) h found)),
          );
    }

    answered-Carried :
        (e : CacheEntry p) (now : Time) (o : Option p.Value)
        → Dict.get key_discrete key c.entries ≡ some e
        → Carried (CommandCache.answered p key now e c o).0
    unfolding touch miss
    answered-Carried e now none held = Carried-touched _ e now held refl refl
    answered-Carried e now (some v) held = Carried-touched _ e now held refl refl

    entry-Carried :
        (st : ℕ) (o : Option (CacheEntry p))
        → Dict.get key_discrete key c.entries ≡ o
        → Carried (get_entry p key false st w.world.now w.later c o).0
    unfolding get_entry miss
    entry-Carried st none held = Carried-same _ refl refl
    entry-Carried st (some e) held =
        if_split (λ (x : CommandCache p × Option (CommandCache.Reply p)). Carried x.0)
          (is_expired p w.world.now e) (λ h. Carried-same _ refl refl)
          (λ h. answered-Carried e w.world.now _ held)

    pub lookup-Carried :
        (st : ℕ) → Carried (CommandCache.get p key false st w.world.now w.later c).0
    unfolding CommandCache.get
    lookup-Carried st =
        if_split (λ (x : CommandCache p × Option (CommandCache.Reply p)). Carried x.0) c.enabled
          (λ h. entry-Carried st _ refl) (λ h. Carried-same _ refl refl)

    -- The first look into the cache.
    pub lookup-FromFresh :
        (st : ℕ) (r : CommandCache.Reply p)
        → (CommandCache.get p key false st w.world.now w.later c).1 ≡ some r
        → FromFresh r
    lookup-FromFresh st r h =
        let (e, held, found) = get_age p key false st w.world.now w.later c r h in
        record {
          entry = e;
          held = held;
          young = elim found [ inl (young, opened) ↦ young | inr (bad, _, _, _) ↦ absurd (cc bad) ];
          opened = elim found [
            | inl (young, opened) ↦ opened
            | inr (bad, _, _, _) ↦ absurd (cc bad)
          ];
        }

    one_clock :
        (x : CacheEntry p) (now : Time)
        → (now ≡ w.world.now) ⊎ (now ≡ w.world.done)
        → IsYoung now x
        → IsYoung w.world.now x ⊎ IsYoung w.world.done x
    one_clock x now (inl e) h = inl (subst (λ n. IsYoung n x) e h)
    one_clock x now (inr e) h = inr (subst (λ n. IsYoung n x) e h)

    shown_at :
        (st : ℕ) (r : CommandCache.Reply p) (d : CommandCache p) (x : CacheEntry p) (now : Time)
        → (now ≡ w.world.now) ⊎ (now ≡ w.world.done)
        → d.encrypted ≡ c.encrypted
        → ((IsYoung now x
              × ((v : p.Value) × (open_stored p d.encrypted x.content ≡ some v) × (r ≡ value v)))
            ⊎ ((true ≡ true)
                × (seconds x.ttl < now - x.timestamp)
                × (w.later - x.timestamp ≤ seconds (x.ttl + st))
                × (r ≡ wrap_stale p d.encrypted w.later x)))
        → Shows st r x
    shown_at st r d x now at mode (inl (young, opened)) = inl (
      one_clock x now at young,
      subst (λ b. (v : p.Value) × (open_stored p b x.content ≡ some v) × (r ≡ value v)) mode opened,
    )
    shown_at st r d x now at mode (inr (_, _, old, same)) =
        inr (old, same ∙ ap (λ b. wrap_stale p b w.later x) mode)

    pub lookup-FromStale :
        (st : ℕ) (r : CommandCache.Reply p) (d : CommandCache p) (now : Time)
        → (now ≡ w.world.now) ⊎ (now ≡ w.world.done)
        → Carried d
        → (CommandCache.get p key true st now w.later d).1 ≡ some r
        → FromStale st r
    lookup-FromStale st r d now at carry h =
        let (x, held, shown) = get_age p key true st now w.later d r h in
        let (e, t, start, same) = carry.carried x held in
        record {
          entry = e;
          held = start;
          shows =
              unfold wrap_stale in
              subst (λ y. Shows st r y) same (shown_at st r d x now at carry.same_mode shown);
        }
