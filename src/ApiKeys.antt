-- ===== src/ApiKeys.antt =====
-- src/network_mcp/api_keys.py: the keys of service accounts. SHA-256 and the random token of a new key are
-- arguments, and a time in ISO format is the time. The file in which the keys are kept is left out. A
-- negative number of days is no limit, as 0 is.
pub mod Lifecycle
mod Tests
use Prim.Native.String.{count}
use network_mcp.Base.{
  ℕ, zero, suc, ◌+◌, ◌*◌, Bool, true, false, not, ltb, String, str_discrete, Option, none, some,
  List, [], ◌∷◌, if◌then◌else◌, Time, seconds,
}
use network_mcp.Base.Text.{prepend, drop_prefix, is_some}
use network_mcp.Dict
use network_mcp.Dict.{Dict, values}

pub record ApiKey : Type 0 where
  pub key_id : String
  pub key_hash : String
  pub name : String
  pub scopes : List String
  pub tenant_id : Option String
  pub created_at : Time
  pub expires_at : Option Time
  pub last_used : Option Time
  pub is_active : Bool

pub record ApiKeyManager : Type 0 where
  pub prefix : String
  pub keys : Dict String ApiKey
  pub hash_index : Dict String String

unfoldable pub is_past : Time → Option Time → Bool
is_past now none = false
is_past now (some expires_at) = ltb expires_at now

unfoldable pub is_expired : Time → ApiKey → Bool
unfolding is_past
is_expired now key = is_past now key.expires_at

-- s[:n]
unfoldable pub first_chars : ℕ → String → String
first_chars zero s = String.[]
first_chars (suc n) String.[] = String.[]
first_chars (suc n) (String.◌∷◌ c s) = String.◌∷◌ c (first_chars n s)

unfoldable pub expiry : Time → Option ℕ → Option Time
expiry now none = none
expiry now (some days) = if ltb 0 days then some (now + seconds (days * 86_400)) else none

-- `hash_key` is SHA-256.
module _ (hash_key : String → String) where
  unfoldable pub new_key :
      Time → String → String → List String → Option String → Option ℕ → String → ApiKey
  unfolding first_chars expiry
  new_key now prefix name scopes tenant_id ttl_days raw_key = record {
    key_id = first_chars (count prefix + 8) raw_key;
    key_hash = hash_key raw_key;
    name = name;
    scopes = scopes;
    tenant_id = tenant_id;
    created_at = now;
    expires_at = expiry now ttl_days;
    last_used = none;
    is_active = true;
  }

  -- the part of `generate_key` under the lock
  unfoldable pub add_key : ApiKey → ApiKeyManager → ApiKeyManager
  add_key key m = record m {
    keys = Dict.put str_discrete key.key_id key m.keys;
    hash_index = Dict.put str_discrete key.key_hash key.key_id m.hash_index;
  }

  unfoldable pub generate_key :
      Time
      → String
      → String
      → List String
      → Option String
      → Option ℕ
      → ApiKeyManager
      → ApiKeyManager × String × ApiKey
  unfolding new_key add_key
  generate_key now token name scopes tenant_id ttl_days m =
      let raw_key = prepend m.prefix token in
      let key = new_key now m.prefix name scopes tenant_id ttl_days raw_key in
      (add_key key m, raw_key, key)

  -- once the key of an id is looked up
  unfoldable pub validate_found :
      Time → String → ApiKeyManager → Option ApiKey → ApiKeyManager × Option ApiKey
  unfolding is_expired
  validate_found now key_id m none = (m, none)
  validate_found now key_id m (some key) =
      let used = record key { last_used = some now } in
      if not key.is_active
      then (m, none)
      else if is_expired now key
      then (m, none)
      else (record m { keys = Dict.put str_discrete key_id used m.keys }, some used)

  unfoldable pub validate_id : Time → ApiKeyManager → Option String → ApiKeyManager × Option ApiKey
  unfolding validate_found
  validate_id now m none = (m, none)
  validate_id now m (some key_id) =
      validate_found now key_id m (Dict.get str_discrete key_id m.keys)

  unfoldable pub validate_key : Time → String → ApiKeyManager → ApiKeyManager × Option ApiKey
  unfolding validate_id
  validate_key now raw_key m =
      if not (is_some (drop_prefix m.prefix raw_key))
      then (m, none)
      else validate_id now m (Dict.get str_discrete (hash_key raw_key) m.hash_index)

  unfoldable pub deactivate : String → ApiKeyManager → Option ApiKey → ApiKeyManager × Bool
  deactivate key_id m none = (m, false)
  deactivate key_id m (some key) = (
    record m { keys = Dict.put str_discrete key_id (record key { is_active = false }) m.keys },
    true,
  )

  unfoldable pub revoke_key : String → ApiKeyManager → ApiKeyManager × Bool
  unfolding deactivate
  revoke_key key_id m = deactivate key_id m (Dict.get str_discrete key_id m.keys)

  unfoldable pub rotate_found :
      Time
      → String
      → String
      → ApiKeyManager
      → Option ApiKey
      → ApiKeyManager × Option (String × ApiKey)
  unfolding generate_key deactivate
  rotate_found now token key_id m none = (m, none)
  rotate_found now token key_id m (some old) =
      let (m', raw_key, key) =
        generate_key now token old.name old.scopes old.tenant_id none
          (deactivate key_id m (some old)).0 in
      (m', some (raw_key, key))

  unfoldable pub rotate_key :
      Time → String → String → ApiKeyManager → ApiKeyManager × Option (String × ApiKey)
  unfolding rotate_found
  rotate_key now token key_id m =
      rotate_found now token key_id m (Dict.get str_discrete key_id m.keys)

unfoldable pub redact : List ApiKey → List ApiKey
redact [] = []
redact (key ∷ keys) = record key { key_hash = "[REDACTED]" } ∷ redact keys

unfoldable pub list_keys : ApiKeyManager → List ApiKey
unfolding redact
list_keys m = redact (values m.keys)
