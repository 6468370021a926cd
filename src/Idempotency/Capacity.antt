-- ===== src/Idempotency/Capacity.antt =====
-- `set` of src/network_mcp/idempotency.py: the bound on the entries, and what is found afterwards.
use network_mcp.Base.{
  ◌+◌, ◌≤◌, ◌<◌, Bool, true, String, str_discrete, Option, some, ◌≡◌, refl, length, leb, ltb, Time,
  arith, if_split, ◌-◌, seconds,
}
use mathlib.Core.Path.{subst⁻¹}
use network_mcp.Dict
use network_mcp.Dict.{Dict, Distinct, keys_where, filter_values, min_entry}
use network_mcp.Dict.Laws.{put-Distinct, del-Distinct, del_all-Distinct, get-put_self}
use network_mcp.Dict.Measure.{length-put-le, length-del-lt, min_entry_sound, min_entry_exists}
use network_mcp.Dict.Sweep.{del_all-keys_where, length-filter_values}
use network_mcp.Idempotency.{
  IdempotencyStore, IdempotencyEntry, insert, set, make_room, evict_entry, cleanup_expired,
  is_expired, get, get_entry, acquire, acquire_entry, cached,
}

module _ {R : Type 0} where
  pub record IsValid (s : IdempotencyStore R) : Type 0 where
    pub distinct : Distinct str_discrete s.store
    pub within : length s.store ≤ s.max_entries
    pub room : 1 ≤ s.max_entries

  -- `set` stores the entry beside entries that are fewer than the limit.
  record Stored (now : Time) (key : String) (result : R) (s : IdempotencyStore R)
      (p : IdempotencyStore R × Bool) : Type 0 where
    rest : Dict String (IdempotencyEntry R)
    all : p ≡ (insert now key result (record s { store = rest }), true)
    distinct : Distinct str_discrete rest
    fewer : length rest < s.max_entries

  evict-Stored :
      (now : Time) (key : String) (result : R) (s : IdempotencyStore R)
      → IsValid s
      → 0 < length s.store
      → Stored now key result s
          (evict_entry now key result s (min_entry (λ e. e.created_at) s.store))
  unfolding evict_entry
  evict-Stored now key result s v h =
      let (k, e, found) = min_entry_exists (λ e. e.created_at) s.store h in
      let there = min_entry_sound str_discrete (λ e. e.created_at) k e s.store v.distinct found in
      let less = length-del-lt str_discrete k e s.store there in
      let within = v.within in
      record {
        rest = Dict.del str_discrete k s.store;
        all = rw found refl;
        distinct = del-Distinct str_discrete k s.store v.distinct;
        fewer = omega arith;
      }

  make_room-Stored :
      (now : Time) (key : String) (result : R) (s : IdempotencyStore R)
      → IsValid s
      → Stored now key result s (make_room now key result s)
  unfolding make_room
  make_room-Stored now key result s v =
      let room = v.room in
      if_split (Stored now key result s) (leb s.max_entries (length s.store))
        (λ full. evict-Stored now key result s v (ground arith))
        (λ spare. record {
          rest = s.store;
          all = refl;
          distinct = v.distinct;
          fewer = ground arith;
        })

  cleanup_expired-IsValid :
      (now : Time) (s : IdempotencyStore R) → IsValid s → IsValid (cleanup_expired now s).0
  unfolding cleanup_expired
  cleanup_expired-IsValid now s v =
      let swept = del_all-keys_where str_discrete (is_expired now) s.store v.distinct in
      let size = length-filter_values (is_expired now) s.store in
      let within = v.within in
      record {
        distinct =
            del_all-Distinct str_discrete (keys_where (is_expired now) s.store) s.store v.distinct;
        within = rw swept (omega arith);
        room = v.room;
      }

  set-Stored :
      (now : Time) (key : String) (result : R) (s : IdempotencyStore R)
      → IsValid s
      → Stored now key result s (set now key result s)
  unfolding set cleanup_expired
  set-Stored now key result s v =
      if_split (λ c. Stored now key result s (make_room now key result c))
        (leb s.max_entries (length s.store))
        (λ full. from_swept (make_room-Stored now key result _ (cleanup_expired-IsValid now s v)))
        (λ spare. make_room-Stored now key result s v)
    where
      from_swept :
          {p : IdempotencyStore R × Bool}
          → Stored now key result (cleanup_expired now s).0 p
          → Stored now key result s p
      from_swept q = record { rest = q.rest; all = q.all; distinct = q.distinct; fewer = q.fewer }

  get-insert :
      (now later : Time) (key : String) (result : R) (s : IdempotencyStore R)
      → later ≤ now + seconds s.ttl
      → (get later key (insert now key result s)).1 ≡ some result
  unfolding get get_entry insert is_expired
  get-insert now later key result s h =
      rw
        (get-put_self str_discrete key
          (record { result = result; created_at = now; entry_ttl = s.ttl }) s.store)
        (if_split (λ (p : IdempotencyStore R × Option R). p.1 ≡ some result)
          (ltb (seconds s.ttl) (later - now)) (λ late. ground arith) (λ early. refl))

  acquire-insert :
      (now later : Time) (key : String) (result : R) (s : IdempotencyStore R)
      → later ≤ now + seconds s.ttl
      → acquire later key (insert now key result s) ≡ (insert now key result s, cached result)
  unfolding acquire acquire_entry insert
  acquire-insert now later key result s h =
      rw
        (get-put_self str_discrete key
          (record { result = result; created_at = now; entry_ttl = s.ttl }) s.store)
        (if_split (λ p. p ≡ (insert now key result s, cached result))
          (leb (later - now) (seconds s.ttl)) (λ early. refl) (λ late. ground arith))

  insert-IsValid :
      (now : Time) (key : String) (result : R) (s : IdempotencyStore R)
      (d : Dict String (IdempotencyEntry R))
      → Distinct str_discrete d
      → length d < s.max_entries
      → IsValid (insert now key result (record s { store = d }))
  unfolding insert
  insert-IsValid now key result s d u h =
      let e : IdempotencyEntry R = record {
        result = result;
        created_at = now;
        entry_ttl = s.ttl;
      } in
      let bound = length-put-le str_discrete key e d in
      record {
        distinct = put-Distinct str_discrete key e d u;
        within = omega arith;
        room = omega arith;
      }

  -- On a store within its limit, which is not 0, `set` succeeds and keeps the store within its
  -- limit; until the time to live has passed, `get` returns the result and `acquire` returns it in
  -- place of the right to execute, and changes nothing.
  pub set_lem :
      (now : Time) (key : String) (result : R) (s : IdempotencyStore R)
      → IsValid s
      → let (s', stored) = set now key result s in
        (stored ≡ true)
        × IsValid s'
        × ((later : Time)
            → later ≤ now + seconds s.ttl
            → ((get later key s').1 ≡ some result) × (acquire later key s' ≡ (s', cached result)))
  set_lem now key result s v =
      let q = set-Stored now key result s v in
      let p = insert-IsValid now key result s q.rest q.distinct q.fewer in
      subst⁻¹
        (λ (x : IdempotencyStore R × Bool).
          (x.1 ≡ true)
          × IsValid x.0
          × ((later : Time)
              → later ≤ now + seconds s.ttl
              → ((get later key x.0).1 ≡ some result)
                × (acquire later key x.0 ≡ (x.0, cached result))))
        q.all
        (
          refl,
          p,
          λ later h. (
            get-insert now later key result (record s { store = q.rest }) h,
            acquire-insert now later key result (record s { store = q.rest }) h,
          ),
        )
