-- ===== src/Auth/Refresh.antt =====
-- src/network_mcp/auth.py: TokenRefreshManager. The time and the token ids that `uuid4` draws are
-- arguments. A method is one step: its two locks are not taken apart.
use network_mcp.Base.{
  ℕ, ◌+◌, Bool, true, false, String, str_discrete, Option, none, some, List, [], ◌∷◌, ite, length,
  leb, if◌then◌else◌, Time,
}
use network_mcp.Base.Text.{is_some, is_empty}
use network_mcp.Dict
use network_mcp.Dict.{Dict, keys_where}
use network_mcp.Auth.{whole_seconds, present, Payload, no_claims, AccessToken, Jwt, decode_options}
use network_mcp.Auth.Revocation
use network_mcp.Auth.Revocation.{TokenRevocationStore}

pub record TokenRefreshManager (Key : Type 0) : Type 0 where
  pub secret_key : Key
  pub issuer : Option String
  pub audience : Option String
  pub access_token_ttl : ℕ
  pub refresh_token_ttl : ℕ
  pub revocation_store : TokenRevocationStore
  pub active_refresh_jtis : Dict String ℕ

-- The ValueErrors of refresh_access_token.
pub data RefreshError : Type 0 where
  invalid_token : RefreshError
  not_a_refresh_token : RefreshError
  missing_jti : RefreshError
  has_been_revoked : RefreshError
  not_recognized : RefreshError

pub data RefreshResult (Token : Type 0) : Type 0 where
  issued : AccessToken Token → RefreshResult Token
  refused : RefreshError → RefreshResult Token

unfoldable pub is_refresh : Option String → Bool
is_refresh none = false
is_refresh (some typ) = ite (str_discrete typ "refresh") true false

-- d.get(key, default)
unfoldable pub get_or {ℓ} : {A : Type ℓ} → A → Option A → A
get_or a none = a
get_or a (some b) = b

module _ {Key : Type 0} where
  -- `none` is the RuntimeError of a missing PyJWT.
  unfoldable pub init :
      Bool
      → Key
      → Option String
      → Option String
      → ℕ
      → ℕ
      → TokenRevocationStore
      → Option (TokenRefreshManager Key)
  init available secret issuer audience access_ttl refresh_ttl store =
      if available
      then some (record {
        secret_key = secret;
        issuer = issuer;
        audience = audience;
        access_token_ttl = access_ttl;
        refresh_token_ttl = refresh_ttl;
        revocation_store = store;
        active_refresh_jtis = [];
      })
      else none

  -- jti in self._active_refresh_jtis
  unfoldable pub is_active : String → TokenRefreshManager Key → Bool
  is_active jti m = is_some (Dict.get str_discrete jti m.active_refresh_jtis)

  unfoldable pub revoke_popped :
      String → Option ℕ → TokenRefreshManager Key → TokenRefreshManager Key
  unfolding Revocation.revoke
  revoke_popped jti none m = m
  revoke_popped jti (some exp) m = record m {
    revocation_store = Revocation.revoke jti exp m.revocation_store;
    active_refresh_jtis = Dict.del str_discrete jti m.active_refresh_jtis;
  }

  unfoldable pub revoke_refresh_token : String → TokenRefreshManager Key → TokenRefreshManager Key
  unfolding revoke_popped
  revoke_refresh_token jti m = revoke_popped jti (Dict.get str_discrete jti m.active_refresh_jtis) m

  -- The manager, and the number of entries removed from both its tables.
  unfoldable pub cleanup : Time → TokenRefreshManager Key → TokenRefreshManager Key × ℕ
  unfolding whole_seconds Revocation.cleanup
  cleanup now m =
      let expired = keys_where (λ exp. leb exp (whole_seconds now)) m.active_refresh_jtis in
      (
        record m {
          revocation_store = (Revocation.cleanup now m.revocation_store).0;
          active_refresh_jtis = Dict.del_all str_discrete expired m.active_refresh_jtis;
        },
        length expired + (Revocation.cleanup now m.revocation_store).1,
      )

  unfoldable pub active_count : TokenRefreshManager Key → ℕ
  active_count m = length m.active_refresh_jtis

  -- Why a payload that decoded is refused.
  unfoldable pub refuse_jti : TokenRefreshManager Key → String → Option RefreshError
  unfolding is_active Revocation.is_revoked
  refuse_jti m jti =
      if is_empty jti
      then some missing_jti
      else if Revocation.is_revoked jti m.revocation_store
      then some has_been_revoked
      else if is_active jti m
      then none
      else some not_recognized

  unfoldable pub refuse_claim : TokenRefreshManager Key → Option String → Option RefreshError
  unfolding refuse_jti
  refuse_claim m none = some missing_jti
  refuse_claim m (some jti) = refuse_jti m jti

  unfoldable pub refusal : TokenRefreshManager Key → Payload → Option RefreshError
  unfolding refuse_claim is_refresh
  refusal m p = if is_refresh p.typ then refuse_claim m p.jti else some not_a_refresh_token

  -- The claims of a refresh token for the access token's client and scopes.
  unfoldable pub refresh_claims :
      {Token : Type 0} → Time → String → AccessToken Token → TokenRefreshManager Key → Payload
  unfolding whole_seconds present
  refresh_claims now jti a m = record no_claims {
    typ = some "refresh";
    jti = some jti;
    sub = some a.client_id;
    scopes = some a.scopes;
    iat = some (whole_seconds now);
    exp = some (whole_seconds now + m.refresh_token_ttl);
    iss = present m.issuer;
    aud = present m.audience;
  }

  unfoldable pub access_claims :
      Time → String → String → List String → TokenRefreshManager Key → Payload
  unfolding whole_seconds present
  access_claims now jti client_id scopes m = record no_claims {
    jti = some jti;
    sub = some client_id;
    scopes = some scopes;
    iat = some (whole_seconds now);
    exp = some (whole_seconds now + m.access_token_ttl);
    iss = present m.issuer;
    aud = present m.audience;
  }

module _ {Token Key Jwk : Type 0} (jwt : Jwt Token Key Jwk) where
  unfoldable pub issue_refresh_token :
      Time → String → AccessToken Token → TokenRefreshManager Key → TokenRefreshManager Key × Token
  unfolding refresh_claims
  issue_refresh_token now jti a m = (
    record m {
      active_refresh_jtis =
          Dict.put str_discrete jti (whole_seconds now + m.refresh_token_ttl) m.active_refresh_jtis;
    },
    jwt.encode (refresh_claims now jti a m) m.secret_key,
  )

  unfoldable pub new_access_token :
      Time → String → String → List String → TokenRefreshManager Key → AccessToken Token
  unfolding access_claims
  new_access_token now jti client_id scopes m = record {
    token = jwt.encode (access_claims now jti client_id scopes m) m.secret_key;
    client_id = client_id;
    scopes = scopes;
    expires_at = some (whole_seconds now + m.access_token_ttl);
    grant_type = none;
  }

  unfoldable pub answer :
      Time → String → TokenRefreshManager Key → Payload → Option RefreshError → RefreshResult Token
  unfolding new_access_token get_or
  answer now jti m p (some e) = refused e
  answer now jti m p none =
      issued (new_access_token now jti (get_or "unknown" p.sub) (get_or [] p.scopes) m)

  unfoldable pub exchange :
      Time → String → TokenRefreshManager Key → Option Payload → RefreshResult Token
  unfolding answer refusal
  exchange now jti m none = refused invalid_token
  exchange now jti m (some p) = answer now jti m p (refusal m p)

  -- `jti` is the id of the access token that it may issue.
  unfoldable pub refresh_access_token :
      Time → String → Token → TokenRefreshManager Key → RefreshResult Token
  unfolding exchange decode_options
  refresh_access_token now jti token m =
      exchange now jti m
        (jwt.decode (decode_options ("HS256" ∷ []) m.issuer m.audience) token m.secret_key now)
