-- ===== src/Auth/Keys.antt =====
-- src/network_mcp/auth.py: JWKSKeyManager, the signing keys of an identity provider by their id. A
-- request to the endpoint is an argument: the time at which it is made and ends, and the keys that it
-- serves, where `none` stands for any exception, a missing httpx included.
use network_mcp.Base.{
  ℕ, ◌-◌, Bool, true, false, String, str_discrete, Option, none, some, List, [], ◌∷◌, ltb, not,
  ◌&&◌, if◌then◌else◌, Time, seconds, in_list,
}
use network_mcp.Dict
use network_mcp.Dict.{Dict}
use network_mcp.Auth.{present}

-- An entry of the endpoint's answer: `kid`, `kty`, and the entry itself.
pub record JwksEntry (Jwk : Type 0) : Type 0 where
  pub kid : Option String
  pub kty : String
  pub jwk : Jwk

pub record JwksKeyManager (Jwk : Type 0) : Type 0 where
  pub refresh_interval : ℕ
  pub keys : Dict String Jwk
  pub last_refresh : Time

pub record Fetch (Jwk : Type 0) : Type 0 where
  pub started : Time
  pub ended : Time
  pub served : Option (List (JwksEntry Jwk))

module _ {Jwk : Type 0} where
  unfoldable pub init : ℕ → JwksKeyManager Jwk
  init refresh_interval = record {
    refresh_interval = refresh_interval;
    keys = [];
    last_refresh = 0;
  }

  unfoldable pub needs_refresh : Time → JwksKeyManager Jwk → Bool
  needs_refresh now m = ltb (seconds m.refresh_interval) (now - m.last_refresh)

  unfoldable pub add_key : Option String → JwksEntry Jwk → Dict String Jwk → Dict String Jwk
  add_key none e keys = keys
  add_key (some kid) e keys =
      if in_list e.kty ("RSA" ∷ "EC" ∷ []) then Dict.put str_discrete kid e.jwk keys else keys

  -- The loop over the entries, from the keys read so far.
  unfoldable pub read_keys : List (JwksEntry Jwk) → Dict String Jwk → Dict String Jwk
  unfolding add_key present
  read_keys [] keys = keys
  read_keys (e ∷ es) keys = read_keys es (add_key (present e.kid) e keys)

  unfoldable pub store_keys :
      Time → Option (List (JwksEntry Jwk)) → JwksKeyManager Jwk → JwksKeyManager Jwk
  unfolding read_keys
  store_keys now none m = m
  store_keys now (some es) m = record m { keys = read_keys es []; last_refresh = now }

  unfoldable pub has_keys : Dict String Jwk → Bool
  has_keys [] = false
  has_keys (k ∷ ks) = true

  -- The keys that it returns are those of the new state.
  unfoldable pub fetch_jwks : Fetch Jwk → JwksKeyManager Jwk → JwksKeyManager Jwk
  unfolding needs_refresh store_keys has_keys
  fetch_jwks f m =
      if not (needs_refresh f.started m) && has_keys m.keys
      then m
      else store_keys f.ended f.served m

  unfoldable pub retry_key :
      String → Fetch Jwk → JwksKeyManager Jwk → Option Jwk → JwksKeyManager Jwk × Option Jwk
  unfolding fetch_jwks
  retry_key kid retry m (some k) = (m, some k)
  retry_key kid retry m none =
      let again = fetch_jwks retry (record m { last_refresh = 0 }) in
      (again, Dict.get str_discrete kid again.keys)

  unfoldable pub get_signing_key :
      String → Fetch Jwk → Fetch Jwk → JwksKeyManager Jwk → JwksKeyManager Jwk × Option Jwk
  unfolding fetch_jwks retry_key
  get_signing_key kid first retry m =
      let m' = fetch_jwks first m in retry_key kid retry m' (Dict.get str_discrete kid m'.keys)

  unfoldable pub clear_cache : JwksKeyManager Jwk → JwksKeyManager Jwk
  clear_cache m = record m { keys = []; last_refresh = 0 }
