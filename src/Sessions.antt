-- ===== src/Sessions.antt =====
-- src/network_mcp/session_mgr.py: the sessions of authenticated users. The time, and the id that
-- `uuid4` draws, are arguments; the metadata of a session is any type. A method runs under the lock.
pub mod Index
pub mod Upkeep
pub mod Room
pub mod Sweep
pub mod Creation
pub mod Calls
pub mod Requests
mod Tests
use network_mcp.Base.{
  ℕ, ◌+◌, ◌-◌, Bool, true, false, String, str_discrete, Option, none, some, List, [], ◌∷◌, ◌++◌,
  ite, length, leb, ltb, not, ◌&&◌, if◌then◌else◌, Time, seconds, map,
}
use network_mcp.Dict
use network_mcp.Dict.{Dict, keys_where}

pub record SessionInfo (Meta : Type 0) : Type 0 where
  pub session_id : String
  pub user_id : String
  pub tenant_id : Option String
  pub created_at : Time
  pub last_active : Time
  pub max_idle_seconds : ℕ
  pub metadata : Meta

pub record SessionManager (Meta : Type 0) : Type 0 where
  pub max_idle : ℕ
  pub max_per_user : ℕ
  pub sessions : Dict String (SessionInfo Meta)
  pub user_sessions : Dict String (List String)

-- list.remove, where the item may be missing
unfoldable pub remove_item : String → List String → List String
remove_item x [] = []
remove_item x (y ∷ ys) = ite (str_discrete y x) ys (y ∷ remove_item x ys)

-- d.get(key, [])
unfoldable pub items_or_none : Option (List String) → List String
items_or_none none = []
items_or_none (some xs) = xs

-- The index with the user's list written back, or without it if it is empty.
unfoldable pub write_items :
    String → List String → Dict String (List String) → Dict String (List String)
write_items user [] index = Dict.del str_discrete user index
write_items user (x ∷ xs) index = Dict.put str_discrete user (x ∷ xs) index

module _ {Meta : Type 0} where
  unfoldable pub init : ℕ → ℕ → SessionManager Meta
  init max_idle max_per_user = record {
    max_idle = max_idle;
    max_per_user = max_per_user;
    sessions = [];
    user_sessions = [];
  }

  unfoldable pub is_expired : Time → SessionInfo Meta → Bool
  is_expired now i = ltb (seconds i.max_idle_seconds) (now - i.last_active)

  unfoldable pub user_items : String → SessionManager Meta → List String
  unfolding items_or_none
  user_items user m = items_or_none (Dict.get str_discrete user m.user_sessions)

  unfoldable pub remove_found :
      String → Option (SessionInfo Meta) → SessionManager Meta → SessionManager Meta
  unfolding user_items write_items remove_item
  remove_found sid none m = m
  remove_found sid (some i) m = record m {
    sessions = Dict.del str_discrete sid m.sessions;
    user_sessions =
        write_items i.user_id (remove_item sid (user_items i.user_id m)) m.user_sessions;
  }

  -- _remove_session_locked
  unfoldable pub remove_session : String → SessionManager Meta → SessionManager Meta
  unfolding remove_found
  remove_session sid m = remove_found sid (Dict.get str_discrete sid m.sessions) m

  unfoldable pub is_live : Time → Option (SessionInfo Meta) → Bool
  unfolding is_expired
  is_live now none = false
  is_live now (some i) = not (is_expired now i)

  -- The ids of a list whose sessions are in the table and not expired.
  unfoldable pub live_ids : Time → Dict String (SessionInfo Meta) → List String → List String
  unfolding is_live
  live_ids now table [] = []
  live_ids now table (x ∷ xs) =
      let rest = live_ids now table xs in
      if is_live now (Dict.get str_discrete x table) then x ∷ rest else rest

  -- The loop that makes room: the ids left, the table, and whether it ended without the IndexError of
  -- `pop` on an empty list.
  unfoldable pub make_room :
      ℕ
      → List String
      → Dict String (SessionInfo Meta)
      → List String × Dict String (SessionInfo Meta) × Bool
  make_room max [] table = ([], table, not (leb max 0))
  make_room max (x ∷ xs) table =
      let rest = make_room max xs (Dict.del str_discrete x table) in
      if leb max (length (x ∷ xs)) then rest else (x ∷ xs, table, true)

  unfoldable pub new_session :
      Time → String → String → Option String → Meta → SessionManager Meta → SessionInfo Meta
  new_session now sid user tenant metadata m = record {
    session_id = sid;
    user_id = user;
    tenant_id = tenant;
    created_at = now;
    last_active = now;
    max_idle_seconds = m.max_idle;
    metadata = metadata;
  }

  unfoldable pub add_session :
      SessionInfo Meta
      → List String × Dict String (SessionInfo Meta) × Bool
      → SessionManager Meta
      → SessionManager Meta × Option String
  add_session i (ids, table, true) m = (
    record m {
      sessions = Dict.put str_discrete i.session_id i table;
      user_sessions = Dict.put str_discrete i.user_id (ids ++ i.session_id ∷ []) m.user_sessions;
    },
    some i.session_id,
  )
  add_session i (ids, table, false) m = (record m { sessions = table }, none)

  -- `none` is the IndexError.
  unfoldable pub create_session :
      Time
      → String
      → String
      → Option String
      → Meta
      → SessionManager Meta
      → SessionManager Meta × Option String
  unfolding add_session make_room live_ids user_items new_session
  create_session now sid user tenant metadata m =
      add_session (new_session now sid user tenant metadata m)
        (make_room m.max_per_user (live_ids now m.sessions (user_items user m)) m.sessions) m

  unfoldable pub validate_found :
      Time
      → String
      → Option (SessionInfo Meta)
      → SessionManager Meta
      → SessionManager Meta × Option (SessionInfo Meta)
  unfolding is_expired remove_session
  validate_found now sid none m = (m, none)
  validate_found now sid (some i) m =
      if is_expired now i then (remove_session sid m, none) else (m, some i)

  unfoldable pub validate_session :
      Time → String → SessionManager Meta → SessionManager Meta × Option (SessionInfo Meta)
  unfolding validate_found
  validate_session now sid m = validate_found now sid (Dict.get str_discrete sid m.sessions) m

  unfoldable pub touch_found :
      Time → String → Option (SessionInfo Meta) → SessionManager Meta → SessionManager Meta
  unfolding is_expired remove_session
  touch_found now sid none m = m
  touch_found now sid (some i) m = if is_expired now i then remove_session sid m else record m {
    sessions = Dict.put str_discrete sid (record i { last_active = now }) m.sessions;
  }

  unfoldable pub touch_session : Time → String → SessionManager Meta → SessionManager Meta
  unfolding touch_found
  touch_session now sid m = touch_found now sid (Dict.get str_discrete sid m.sessions) m

  unfoldable pub expire_session : String → SessionManager Meta → SessionManager Meta
  unfolding remove_session
  expire_session sid m = remove_session sid m

  -- The active sessions of a list of ids.
  unfoldable pub add_active :
      Time → Option (SessionInfo Meta) → List (SessionInfo Meta) → List (SessionInfo Meta)
  unfolding is_expired
  add_active now none rest = rest
  add_active now (some i) rest = if is_expired now i then rest else i ∷ rest

  unfoldable pub active_of :
      Time → Dict String (SessionInfo Meta) → List String → List (SessionInfo Meta)
  unfolding add_active
  active_of now table [] = []
  active_of now table (x ∷ xs) =
      add_active now (Dict.get str_discrete x table) (active_of now table xs)

  -- The table without the sessions of the list that are expired.
  unfoldable pub drop_expired :
      Time → List String → Dict String (SessionInfo Meta) → Dict String (SessionInfo Meta)
  unfolding is_live
  drop_expired now [] table = table
  drop_expired now (x ∷ xs) table =
      drop_expired now xs (
        if is_live now (Dict.get str_discrete x table)
        then table
        else Dict.del str_discrete x table)

  -- The index is written only if a session of the list was missing or expired.
  unfoldable pub get_active_sessions :
      Time → String → SessionManager Meta → SessionManager Meta × List (SessionInfo Meta)
  unfolding user_items active_of drop_expired
  get_active_sessions now user m =
      let ids = user_items user m in
      let active = active_of now m.sessions ids in
      (
        record m {
          sessions = drop_expired now ids m.sessions;
          user_sessions =
              if ltb (length active) (length ids)
              then Dict.put str_discrete user (map (λ i. i.session_id) active) m.user_sessions
              else m.user_sessions;
        },
        active,
      )

  unfoldable pub remove_all : List String → SessionManager Meta → SessionManager Meta
  unfolding remove_session
  remove_all [] m = m
  remove_all (x ∷ xs) m = remove_all xs (remove_session x m)

  unfoldable pub cleanup_expired : Time → SessionManager Meta → SessionManager Meta × ℕ
  unfolding remove_all
  cleanup_expired now m =
      let expired = keys_where (is_expired now) m.sessions in (remove_all expired m, length expired)

  unfoldable pub total_sessions : SessionManager Meta → ℕ
  total_sessions m = length m.sessions
