-- ===== src/CommandCache/Tests.antt =====
-- Runs of the cache over numbers as data, and the theorems at concrete inputs.
use network_mcp.Base.{
  ℕ, ◌+◌, ◌*◌, ◌/◌, ◌≤◌, ◌≡◌, ◌⊎◌, refl, true, false, Option, none, some, [], ◌∷◌, length, arith,
  seconds,
}
use network_mcp.Base.Int.{ℤ, pos, ◌+ℤ◌, ◌-ℤ◌}
use network_mcp.Dict
use network_mcp.Dict.{Dict}
use network_mcp.CommandCache.{
  Payload, CacheKey, key_discrete, CacheEntry, CommandCache, value, plain, put, get, new_entry,
  store, evict_if_needed, evict_count, evict_memory, evict_lru, forget_old, insert, over_memory,
}
use network_mcp.CommandCache.Loops.{stored_bytes}
use network_mcp.CommandCache.Put
use network_mcp.CommandCache.Put.{IsAccounted, put_stores}
use network_mcp.CommandCache.Put.Accounting.{put_fresh}
use network_mcp.CommandCache.Read.{get-IsAccounted, get-put_value}

-- A value n is n bytes long, and its cipher text one byte more.
abbrev numbers : Payload
numbers = record {
  Value = ℕ;
  Text = ℕ;
  Bytes = ℕ;
  is_dict = λ n. true;
  dumps = λ n. n;
  loads = λ n. some n;
  text_length = λ n. n;
  byte_count = λ n. n + 1;
  fernet_encrypt = λ n. n;
  fernet_decrypt = λ n. some n;
  fernet_decrypt-encrypt = λ n. refl;
}

abbrev version : CacheKey
version = record { host = "a"; commands = "show version" ∷ []; encoding = "json" }

abbrev bgp : CacheKey
bgp = record { host = "b"; commands = "show ip bgp summary" ∷ []; encoding = "json" }

abbrev old_entry : CacheEntry numbers
old_entry = record {
  content = plain 10;
  timestamp = 0;
  ttl = 300;
  size_bytes = 10;
  last_accessed = 0;
}

abbrev single : CommandCache numbers
single = record {
  entries = (version, old_entry) ∷ [];
  max_entries = 1;
  max_memory_bytes = 100;
  current_memory_bytes = pos 10;
  enabled = true;
  hits = 0;
  misses = 0;
  encrypted = false;
}

single-IsAccounted : IsAccounted numbers single
single-IsAccounted = record {
  room = omega arith;
  distinct = (unfold Dict.get in refl, tt);
  bounded = omega arith;
  accounted = unfold Dict.total in refl;
}

-- Ten bytes replaced by ten: the account says 0.
abbrev after_replacement : Option ℤ
after_replacement = elim (put numbers 5 version 10 300 (seconds 1) single) [
  | none ↦ none
  | some c ↦ some c.current_memory_bytes
]

replaced_account : after_replacement ≡ some (pos 0)
unfolding put store new_entry forget_old evict_if_needed evict_count evict_memory evict_lru
    over_memory insert Dict.get Dict.put Dict.del Dict.min_entry key_discrete ◌+ℤ◌ ◌-ℤ◌
replaced_account = refl

put_stores_example :
    (c' : CommandCache numbers) × (put numbers 5 bgp 7 15 (seconds 1) single ≡ some c')
    × Put.Written numbers bgp (new_entry numbers false 7 15 (seconds 1)) single c'
put_stores_example =
    put_stores numbers 5 bgp 7 15 (seconds 1) single single-IsAccounted refl (omega arith)
      (omega arith)

put_fresh_example :
    (c' : CommandCache numbers) × (put numbers 5 bgp 7 15 (seconds 1) single ≡ some c')
    × (c'.current_memory_bytes ≡ pos (stored_bytes numbers c'))
    × ((stored_bytes numbers c' ≤ 100) ⊎ (length c'.entries ≡ 1))
put_fresh_example =
    put_fresh numbers 5 bgp 7 15 (seconds 1) single single-IsAccounted refl (omega arith)
      (omega arith) (unfold Dict.get key_discrete in refl)

get-IsAccounted_example :
    IsAccounted numbers (get numbers version true 300 (seconds 400) (seconds 400) single).0
get-IsAccounted_example =
    get-IsAccounted numbers version true 300 (seconds 400) (seconds 400) single single-IsAccounted

-- The same cache, with what is put encrypted, over a codec that forgets the last bit.
abbrev rounded : Payload
rounded = record numbers { loads = λ n. some (n / 2 * 2) }

abbrev secret : CommandCache rounded
secret = record {
  entries = [];
  max_entries = 1;
  max_memory_bytes = 100;
  current_memory_bytes = pos 0;
  enabled = true;
  hits = 0;
  misses = 0;
  encrypted = true;
}

secret-IsAccounted : IsAccounted rounded secret
secret-IsAccounted = record {
  room = omega arith;
  distinct = tt;
  bounded = omega arith;
  accounted = unfold Dict.total in refl;
}

get-put_value_example :
    (c' : CommandCache rounded) × (put rounded 5 bgp 7 15 (seconds 1) secret ≡ some c')
    × ((get rounded bgp false 0 (seconds 16) (seconds 16) c').1 ≡ some (value 6))
get-put_value_example =
    get-put_value rounded 5 bgp 7 15 (seconds 1) secret false 0 (seconds 16) (seconds 16)
      secret-IsAccounted refl (omega arith) (omega arith) (omega arith)
