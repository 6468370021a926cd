-- ===== src/CommandCache/Read.antt =====
-- `get`: what it may return, and what it changes.
use mathlib.Core.Path.{subst⁻¹}
use network_mcp.Base.{
  ℕ, ◌+◌, ◌-◌, ◌≤◌, ◌<◌, ◌≡◌, ◌≢◌, ◌⊎◌, inl, inr, refl, ap, ◌∙◌, Bool, true, false, Option, none,
  some, length, arith, Option-cases, Time, seconds, if_true,
}
use network_mcp.Base.Int.{pos}
use network_mcp.Dict
use network_mcp.Dict.{Dict, Distinct}
use network_mcp.Dict.Laws.{put-Distinct}
use network_mcp.Dict.Measure.{length-put_old, total-put_old}
use network_mcp.CommandCache.{
  Payload, CacheKey, key_discrete, CacheEntry, CommandCache, Reply, value, get, get_entry, touch,
  miss, wrap_stale, open_stored, loaded, new_entry, put,
}
use network_mcp.CommandCache.Put.{IsAccounted, put_stores}

module _ (p : Payload) where
  get_enabled :
      (key : CacheKey) (sie : Bool) (st : ℕ) (now later : Time) (c : CommandCache p)
      → c.enabled ≡ true
      → get p key sie st now later c
        ≡ get_entry p key sie st now later c (Dict.get key_discrete key c.entries)
  unfolding get
  get_enabled key sie st now later c on = if_true _ _ on

  -- One lookup is one hit or one miss.
  entry_counts :
      (key : CacheKey) (sie : Bool) (st : ℕ) (now later : Time) (c : CommandCache p)
      (o : Option (CacheEntry p))
      → let (c', r) = get_entry p key sie st now later c o in
        ((r ≡ none) × (c'.misses ≡ c.misses + 1) × (c'.hits ≡ c.hits))
        ⊎ ((r ≢ none) × (c'.misses ≡ c.misses) × (c'.hits ≡ c.hits + 1))
  unfolding get_entry touch miss
  entry_counts key sie st now later c none = ground arith
  entry_counts key sie st now later c (some e) = ground arith

  -- A `get` of an enabled cache counts one miss if it returns nothing, and one hit otherwise.
  pub get_counts :
      (key : CacheKey) (sie : Bool) (st : ℕ) (now later : Time) (c : CommandCache p)
      → c.enabled ≡ true
      → let (c', r) = get p key sie st now later c in
        ((r ≡ none) × (c'.misses ≡ c.misses + 1) × (c'.hits ≡ c.hits))
        ⊎ ((r ≢ none) × (c'.misses ≡ c.misses) × (c'.hits ≡ c.hits + 1))
  get_counts key sie st now later c on =
      rw (get_enabled key sie st now later c on) (entry_counts key sie st now later c _)

  -- What is returned is the entry of the key, not older than its ttl; or, if stale data is allowed,
  -- older than its ttl by at most stale_ttl when the clock is read again, and then marked as stale
  -- by _wrap_stale_response.
  pub get_age :
      (key : CacheKey) (sie : Bool) (st : ℕ) (now later : Time) (c : CommandCache p) (r : Reply p)
      → (get p key sie st now later c).1 ≡ some r
      → (e : CacheEntry p) × (Dict.get key_discrete key c.entries ≡ some e)
        × (((now - e.timestamp ≤ seconds e.ttl)
              × ((v : p.Value) × (open_stored p c.encrypted e.content ≡ some v) × (r ≡ value v)))
            ⊎ ((sie ≡ true)
                × (seconds e.ttl < now - e.timestamp)
                × (later - e.timestamp ≤ seconds (e.ttl + st))
                × (r ≡ wrap_stale p c.encrypted later e)))
  unfolding get get_entry
  get_age key sie st now later c r h = elim (Option-cases (Dict.get key_discrete key c.entries)) [
    | inl e ↦ absurd (ground arith)
    | inr (e, held) ↦ (e, held, ground arith)
  ]

  same_size :
      (key : CacheKey) (now : Time) (e : CacheEntry p) (c : CommandCache p)
      → Dict.get key_discrete key c.entries ≡ some e
      → IsAccounted p c
      → IsAccounted p (touch p key now e c)
  unfolding touch
  same_size key now e c held a = record {
    room = a.room;
    distinct =
        put-Distinct key_discrete key (record e { last_accessed = now }) c.entries a.distinct;
    bounded = omega (
      arith,
      a.bounded,
      length-put_old key_discrete key (record e { last_accessed = now }) e c.entries held,
    );
    accounted =
        a.accounted
        ∙ ap pos (
            omega (
              arith,
              total-put_old key_discrete (λ e. e.size_bytes) key (record e { last_accessed = now })
                  e c.entries held,
            ));
  }

  -- A `get` leaves the account and the limits as they are.
  pub get-IsAccounted :
      (key : CacheKey) (sie : Bool) (st : ℕ) (now later : Time) (c : CommandCache p)
      → IsAccounted p c
      → IsAccounted p (get p key sie st now later c).0
  unfolding get get_entry miss
  get-IsAccounted key sie st now later c a =
      elim (Option-cases (Dict.get key_discrete key c.entries)) [
        | inl e ↦ ground (arith, a)
        | inr (e, held) ↦ ground (arith, same_size key now e c held a)
      ]

  -- What a `get` makes of a value that was put: the value itself; or, if the cache encrypts, what
  -- json.loads makes of its JSON text, and a miss if that raises.
  abbrev pub replied : Option p.Value → Option (Reply p)
  replied none = none
  replied (some v) = some (value v)

  abbrev pub read_back : Bool → p.Value → Option p.Value
  read_back true v = p.loads (p.dumps v)
  read_back false v = some v

  open_new :
      (encrypted : Bool) (v : p.Value) (ttl : ℕ) (now : Time)
      → open_stored p encrypted (new_entry p encrypted v ttl now).content ≡ read_back encrypted v
  unfolding open_stored new_entry
  open_new true v ttl now = unfold loaded in ap (loaded p) (p.fernet_decrypt-encrypt (p.dumps v))
  open_new false v ttl now = refl

  get_held :
      (key : CacheKey) (sie : Bool) (st : ℕ) (t later : Time) (c : CommandCache p)
      (e : CacheEntry p) (o : Option p.Value)
      → c.enabled ≡ true
      → Dict.get key_discrete key c.entries ≡ some e
      → t - e.timestamp ≤ seconds e.ttl
      → open_stored p c.encrypted e.content ≡ o
      → (get p key sie st t later c).1 ≡ replied o
  unfolding get get_entry
  get_held key sie st t later c e none on held young opened = ground arith
  get_held key sie st t later c e (some v) on held young opened = ground arith

  -- After a `put` with a positive ttl into an enabled cache that keeps its account and has a limit of
  -- one entry at least, which ends with enough fuel, a `get` of the same key within the ttl returns
  -- the value that was put if the cache does not encrypt. If it encrypts, the `get` returns what
  -- json.loads makes of the JSON text of the value, and nothing if that raises.
  pub get-put_value :
      (fuel : ℕ) (key : CacheKey) (v : p.Value) (ttl : ℕ) (now : Time) (c : CommandCache p)
      (sie : Bool) (st : ℕ) (t later : Time)
      → IsAccounted p c
      → c.enabled ≡ true
      → 0 < ttl
      → length c.entries < fuel
      → t - now ≤ seconds ttl
      → (c' : CommandCache p) × (put p fuel key v ttl now c ≡ some c')
        × ((get p key sie st t later c').1 ≡ replied (read_back c.encrypted v))
  get-put_value fuel key v ttl now c sie st t later a on pos_ttl h young =
      let e = new_entry p c.encrypted v ttl now in
      let (c', done, s) = put_stores p fuel key v ttl now c a on pos_ttl h in
      (
        c',
        done,
        get_held key sie st t later c' e (read_back c.encrypted v) (s.same_mode.1 ∙ on) s.holds
            (unfold new_entry in young)
            (subst⁻¹ (λ m. open_stored p m e.content ≡ read_back c.encrypted v) s.same_mode.0
              (open_new c.encrypted v ttl now)),
      )
