-- ===== src/CommandCache.antt =====
-- src/network_mcp/cache.py: the cache of command results, with a time to live, eviction of the least
-- recently used entry, and a limit on entries and on memory. The JSON codec and the Fernet cipher are
-- a parameter. `ttl` and `stale_ttl` are natural numbers: the source treats a negative one as 0. The
-- accounted memory is signed, as in the source.
pub mod Loops
pub mod Put
pub mod Read
pub mod Invalidate
mod Tests
use network_mcp.Base.{
  ℕ, zero, suc, ◌+◌, ◌-◌, ◌*◌, Bool, true, false, not, ◌&&◌, String, str_discrete, Option, none,
  some, List, [], ◌∷◌, ltb, leb, ite, length, if◌then◌else◌, Time, seconds, ◌≡◌,
}
use network_mcp.Base.Int.{ℤ, pos, ◌+ℤ◌, ◌-ℤ◌, gtb_ℤ}
use network_mcp.Dict
use network_mcp.Dict.{Dict}

-- (host, tuple(commands), encoding)
pub record CacheKey : Type 0 where
  pub host : String
  pub commands : List String
  pub encoding : String

unfoldable pub key_discrete : Discrete CacheKey
unfolding str_discrete
key_discrete = hlevel str_discrete

-- What the code takes of Python and of the cryptography package. A Value is data that json.dumps
-- takes with default=str, so that it does not raise; json.loads may raise, and need not give back
-- what was dumped (a tuple comes back as a list, a date as a text). fernet_encrypt and
-- fernet_decrypt are those of a Fernet with one key over the bytes of a text; what was encrypted is
-- decrypted again, and any other token raises.
pub record Payload : Type 1 where
  pub Value : Type 0
  pub Text : Type 0
  pub Bytes : Type 0
  pub is_dict : Value → Bool
  pub dumps : Value → Text
  pub loads : Text → Option Value
  pub text_length : Text → ℕ
  pub byte_count : Bytes → ℕ
  pub fernet_encrypt : Text → Bytes
  pub fernet_decrypt : Bytes → Option Text
  pub fernet_decrypt-encrypt : (t : Text) → fernet_decrypt (fernet_encrypt t) ≡ some t

module _ (p : Payload) where
  open p use {
    Value, Text, Bytes, is_dict, dumps, loads, text_length, byte_count, fernet_encrypt,
    fernet_decrypt,
  }

  -- _estimate_size, whose except branch is not reached
  unfoldable pub estimate_size : Value → ℕ
  estimate_size v = text_length (dumps v)

  -- _CacheEncryptor.encrypt
  unfoldable pub encrypt : Value → Bytes
  encrypt v = fernet_encrypt (dumps v)

  unfoldable pub loaded : Option Text → Option Value
  loaded none = none
  loaded (some t) = loads t

  -- _CacheEncryptor.decrypt; none is an exception of Fernet or of json.loads
  unfoldable pub decrypt : Bytes → Option Value
  unfolding loaded
  decrypt b = loaded (fernet_decrypt b)

  -- an entry's `data`: the value, or the bytes of its cipher text
  pub data Stored : Type 0 where
    plain : Value → Stored
    cipher : Bytes → Stored

  pub record CacheEntry : Type 0 where
    pub content : Stored
    pub timestamp : Time
    pub ttl : ℕ
    pub size_bytes : ℕ
    pub last_accessed : Time

  pub record CommandCache : Type 0 where
    pub entries : Dict CacheKey CacheEntry
    pub max_entries : ℕ
    pub max_memory_bytes : ℕ
    pub current_memory_bytes : ℤ
    pub enabled : Bool
    pub hits : ℕ
    pub misses : ℕ
    pub encrypted : Bool

  unfoldable pub init : ℕ → ℕ → Bool → Bool → CommandCache
  init max_entries max_memory_mb enabled encrypted = record {
    entries = [];
    max_entries = max_entries;
    max_memory_bytes = max_memory_mb * 1024 * 1024;
    current_memory_bytes = pos 0;
    enabled = enabled;
    hits = 0;
    misses = 0;
    encrypted = encrypted;
  }

  -- CacheEntry.is_expired, and the test of `get`
  unfoldable pub is_expired : Time → CacheEntry → Bool
  is_expired now e = ltb (seconds e.ttl) (now - e.timestamp)

  -- What `get` returns: the data, a dict with the `_cache` metadata of a stale entry, or the empty
  -- dict of a stale entry that cannot be decrypted. `none` in place of it is a miss.
  pub data Reply : Type 0 where
    value : Value → Reply
    stale : Value → ℕ → ℕ → Reply
    empty : Reply

  -- the data of an entry, decrypted if the cache encrypts; `none` if that raises
  unfoldable pub open_stored : Bool → Stored → Option Value
  unfolding decrypt
  open_stored encrypted (plain v) = some v
  open_stored true (cipher b) = decrypt b
  open_stored false (cipher b) = none

  abbrev or_empty : Time → CacheEntry → Option Value → Reply
  or_empty later e none = empty
  or_empty later e (some v) = if is_dict v then stale v (later - e.timestamp) e.ttl else value v

  -- _wrap_stale_response
  unfoldable pub wrap_stale : Bool → Time → CacheEntry → Reply
  unfolding open_stored
  wrap_stale encrypted later e = or_empty later e (open_stored encrypted e.content)

  unfoldable pub touch : CacheKey → Time → CacheEntry → CommandCache → CommandCache
  touch key now e c = record c {
    entries = Dict.put key_discrete key (record e { last_accessed = now }) c.entries;
    hits = c.hits + 1;
  }

  unfoldable pub miss : CommandCache → CommandCache
  miss c = record c { misses = c.misses + 1 }

  -- a hit whose decryption raises counts as a miss
  abbrev pub answered :
      CacheKey → Time → CacheEntry → CommandCache → Option Value → CommandCache × Option Reply
  answered key now e c none = (miss (record (touch key now e c) { hits = c.hits }), none)
  answered key now e c (some v) = (touch key now e c, some (value v))

  -- `get` once the entry is looked up. `later` is the clock when it is read again.
  unfoldable pub get_entry :
      CacheKey
      → Bool
      → ℕ
      → Time
      → Time
      → CommandCache
      → Option CacheEntry
      → CommandCache × Option Reply
  unfolding is_expired wrap_stale open_stored
  get_entry key stale_if_error stale_ttl now later c none = (miss c, none)
  get_entry key stale_if_error stale_ttl now later c (some e) =
      if is_expired now e
      then (if stale_if_error
            && (ltb 0 stale_ttl && leb (later - e.timestamp) (seconds (e.ttl + stale_ttl)))
          then (touch key now e c, some (wrap_stale c.encrypted later e))
          else (miss c, none))
      else answered key now e c (open_stored c.encrypted e.content)

  unfoldable pub get :
      CacheKey → Bool → ℕ → Time → Time → CommandCache → CommandCache × Option Reply
  unfolding get_entry
  get key stale_if_error stale_ttl now later c =
      if c.enabled
      then get_entry key stale_if_error stale_ttl now later c (Dict.get key_discrete key c.entries)
      else (c, none)

  abbrev pub evict : CommandCache → Option (CacheKey × CacheEntry) → CommandCache
  evict c none = c
  evict c (some (k, e)) = record c {
    entries = Dict.del key_discrete k c.entries;
    current_memory_bytes = c.current_memory_bytes -ℤ pos e.size_bytes;
  }

  unfoldable pub evict_lru : CommandCache → CommandCache
  evict_lru c = evict c (Dict.min_entry (λ e. e.last_accessed) c.entries)

  -- The two loops of `_evict_if_needed`; `none` means that the fuel ran out.
  unfoldable pub evict_count : ℕ → CommandCache → Option CommandCache
  evict_count zero c = none
  evict_count (suc fuel) c =
      let rest = evict_count fuel (evict_lru c) in
      if leb c.max_entries (length c.entries) then rest else some c

  unfoldable pub over_memory : ℕ → CommandCache → Bool
  over_memory incoming c =
      gtb_ℤ (c.current_memory_bytes +ℤ pos incoming) (pos c.max_memory_bytes)
      && ltb 0 (length c.entries)

  unfoldable pub evict_memory : ℕ → ℕ → CommandCache → Option CommandCache
  evict_memory zero incoming c = none
  evict_memory (suc fuel) incoming c =
      let rest = evict_memory fuel incoming (evict_lru c) in
      if over_memory incoming c then rest else some c

  -- _evict_if_needed
  unfoldable pub evict_if_needed : ℕ → ℕ → CommandCache → Option CommandCache
  evict_if_needed fuel incoming c = elim (evict_count fuel c) [
    | none ↦ none
    | some c' ↦ evict_memory fuel incoming c'
  ]

  -- the accounting of the entry that is replaced
  unfoldable pub forget_old : Option CacheEntry → CommandCache → CommandCache
  forget_old none c = c
  forget_old (some old) c = record c {
    current_memory_bytes = c.current_memory_bytes -ℤ pos old.size_bytes;
  }

  unfoldable pub insert : CacheKey → CacheEntry → CommandCache → CommandCache
  insert key e c = record c {
    entries = Dict.put key_discrete key e c.entries;
    current_memory_bytes = c.current_memory_bytes +ℤ pos e.size_bytes;
  }

  unfoldable pub new_entry : Bool → Value → ℕ → Time → CacheEntry
  unfolding encrypt estimate_size
  new_entry encrypted v ttl now = record {
    content = if encrypted then cipher (encrypt v) else plain v;
    timestamp = now;
    ttl = ttl;
    size_bytes = if encrypted then byte_count (encrypt v) else estimate_size v;
    last_accessed = now;
  }

  -- the part of `put` under the lock
  unfoldable pub store : ℕ → CacheKey → CacheEntry → CommandCache → Option CommandCache
  store fuel key e c =
      elim (evict_if_needed fuel e.size_bytes
        (forget_old (Dict.get key_discrete key c.entries) c)) [
          | none ↦ none
          | some c' ↦ some (insert key e c')
        ]

  unfoldable pub put : ℕ → CacheKey → Value → ℕ → Time → CommandCache → Option CommandCache
  put fuel key v ttl now c =
      if not c.enabled
      then some c
      else if leb ttl 0
      then some c
      else store fuel key (new_entry c.encrypted v ttl now) c

  -- the keys of a host, and the memory of the entries popped
  unfoldable pub host_keys : String → Dict CacheKey CacheEntry → List CacheKey
  host_keys host [] = []
  host_keys host ((k, e) ∷ d) =
      let rest = host_keys host d in ite (str_discrete k.host host) (k ∷ rest) rest

  abbrev popped : CacheKey → CommandCache → Option CacheEntry → CommandCache
  popped k c none = c
  popped k c (some e) = record c {
    entries = Dict.del key_discrete k c.entries;
    current_memory_bytes = c.current_memory_bytes -ℤ pos e.size_bytes;
  }

  unfoldable pub pop_keys : List CacheKey → CommandCache → CommandCache
  pop_keys [] c = c
  pop_keys (k ∷ ks) c = pop_keys ks (popped k c (Dict.get key_discrete k c.entries))

  unfoldable pub invalidate_host : String → CommandCache → CommandCache × ℕ
  invalidate_host host c =
      let keys_to_remove = host_keys host c.entries in
      (pop_keys keys_to_remove c, length keys_to_remove)

  unfoldable pub clear : CommandCache → CommandCache × ℕ
  clear c = (
    record c { entries = []; current_memory_bytes = pos 0; hits = 0; misses = 0 },
    length c.entries,
  )
