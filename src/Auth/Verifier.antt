-- ===== src/Auth/Verifier.antt =====
-- src/network_mcp/auth.py: JWTTokenVerifier. `verify_token` returns the key manager with the token:
-- it may have fetched keys. The requests that it makes then are its last arguments.
use network_mcp.Base.{
  Bool, true, false, String, Option, none, some, List, [], ◌∷◌, if◌then◌else◌, Time, in_list, ◌&&◌,
  str_discrete, ite,
}
use network_mcp.Base.Text.{split}
use network_mcp.Auth.{present, Payload, AccessToken, Jwt, JoseHeader, DecodeOptions, decode_options}
use network_mcp.Auth.Keys.{JwksKeyManager, Fetch, get_signing_key}
use network_mcp.Auth.Refresh.{get_or}
use network_mcp.Auth.Revocation
use network_mcp.Auth.Revocation.{TokenRevocationStore}

-- secret_key is `none` for an empty key.
pub record JwtTokenVerifier (Key Jwk : Type 0) : Type 0 where
  pub secret_key : Option Key
  pub issuer : Option String
  pub audience : Option String
  pub algorithms : List String
  pub revocation_store : Option TokenRevocationStore
  pub jwks_manager : Option (JwksKeyManager Jwk)

abbrev pub allowed_algorithms : List String
allowed_algorithms = "HS256" ∷ "RS256" ∷ "ES256" ∷ "ES384" ∷ "RS384" ∷ "RS512" ∷ "ES512" ∷ []

unfoldable pub all_allowed : List String → Bool
all_allowed [] = true
all_allowed (a ∷ rest) = in_list a allowed_algorithms && all_allowed rest

-- algorithms or ["HS256"]
unfoldable pub or_default : List String → List String
or_default [] = "HS256" ∷ []
or_default (a ∷ rest) = a ∷ rest

-- `none` is the ValueError of an algorithm that is not allowed.
unfoldable pub init :
    {Key Jwk : Type 0}
    → Option Key
    → Option String
    → Option String
    → List String
    → Option (JwksKeyManager Jwk)
    → Option TokenRevocationStore
    → Option (JwtTokenVerifier Key Jwk)
unfolding all_allowed or_default
init secret issuer audience algorithms jwks store =
    if all_allowed (or_default algorithms)
    then some (record {
      secret_key = secret;
      issuer = issuer;
      audience = audience;
      algorithms = or_default algorithms;
      revocation_store = store;
      jwks_manager = jwks;
    })
    else none

unfoldable pub scopes_of_scope : Option String → List String
unfolding split
scopes_of_scope none = []
scopes_of_scope (some s) = split s

-- `scopes` as a list, or else the words of `scope`
unfoldable pub extract_scopes : Payload → List String
unfolding scopes_of_scope
extract_scopes p = elim p.scopes [ some scopes ↦ scopes | none ↦ scopes_of_scope p.scope ]

-- d.get(key, default), where the default may itself be absent
unfoldable pub or_else {ℓ} : {A : Type ℓ} → Option A → Option A → Option A
or_else (some a) b = some a
or_else none b = b

unfoldable pub extract_access_token : {Token : Type 0} → Token → Payload → AccessToken Token
unfolding extract_scopes or_else get_or
extract_access_token token p = record {
  token = token;
  client_id = get_or (get_or "unknown" p.sub) p.client_id;
  scopes = extract_scopes p;
  expires_at = p.exp;
  grant_type = or_else p.gty p.grant_type;
}

-- The id of the payload is in the store that the verifier was given, if it was given one.
unfoldable pub is_refused : Option TokenRevocationStore → Option String → Bool
unfolding Revocation.is_revoked
is_refused none jti = false
is_refused (some store) none = false
is_refused (some store) (some jti) = Revocation.is_revoked jti store

-- What is known of a payload: none yet, the one that decoded, or an exception of PyJWT.
pub data Decoded : Type 0 where
  not_decoded : Decoded
  decoded : Payload → Decoded
  failed : Decoded

unfoldable pub of_decode : Option Payload → Decoded
of_decode none = failed
of_decode (some p) = decoded p

module _ {Token Key Jwk : Type 0} (jwt : Jwt Token Key Jwk) where
  unfoldable pub options : JwtTokenVerifier Key Jwk → DecodeOptions
  unfolding decode_options
  options v = decode_options v.algorithms v.issuer v.audience

  unfoldable pub decode_with_key : JwtTokenVerifier Key Jwk → Token → Time → Option Key → Decoded
  unfolding options of_decode
  decode_with_key v token now none = not_decoded
  decode_with_key v token now (some key) = of_decode (jwt.decode (options v) token key now)

  unfoldable pub signing_key : Option Jwk → Option Key
  signing_key none = none
  signing_key (some jwk) = jwt.key_of jwk

  unfoldable pub with_manager :
      JwtTokenVerifier Key Jwk → JwksKeyManager Jwk → JwtTokenVerifier Key Jwk
  with_manager v m = record v { jwks_manager = some m }

  unfoldable pub decode_with_jwks :
      Option (JwksKeyManager Jwk)
      → Option String
      → JwtTokenVerifier Key Jwk
      → Token
      → Time
      → Fetch Jwk
      → Fetch Jwk
      → JwtTokenVerifier Key Jwk × Decoded
  unfolding decode_with_key signing_key with_manager get_signing_key
  decode_with_jwks none kid v token now first retry = (v, not_decoded)
  decode_with_jwks (some m) none v token now first retry = (v, not_decoded)
  decode_with_jwks (some m) (some kid) v token now first retry =
      let found = get_signing_key kid first retry m in
      (with_manager v found.0, decode_with_key v token now (signing_key found.1))

  -- The static key is tried only if no payload was decoded and nothing was raised.
  unfoldable pub fall_back : JwtTokenVerifier Key Jwk → Token → Time → Decoded → Decoded
  unfolding decode_with_key
  fall_back v token now not_decoded = decode_with_key v token now v.secret_key
  fall_back v token now (decoded p) = decoded p
  fall_back v token now failed = failed

  unfoldable pub judge : JwtTokenVerifier Key Jwk → Token → Decoded → Option (AccessToken Token)
  unfolding is_refused present extract_access_token
  judge v token not_decoded = none
  judge v token failed = none
  judge v token (decoded p) =
      if is_refused v.revocation_store (present p.jti)
      then none
      else some (extract_access_token token p)

  unfoldable pub verify_header :
      Option JoseHeader
      → JwtTokenVerifier Key Jwk
      → Token
      → Time
      → Fetch Jwk
      → Fetch Jwk
      → JwtTokenVerifier Key Jwk × Option (AccessToken Token)
  unfolding decode_with_jwks fall_back judge get_or present
  verify_header none v token now first retry = (v, none)
  verify_header (some h) v token now first retry =
      if in_list (get_or "" h.alg) v.algorithms
      then (let tried = decode_with_jwks v.jwks_manager (present h.kid) v token now first retry in
          (tried.0, judge v token (fall_back v token now tried.1)))
      else (v, none)

  unfoldable pub verify_token :
      JwtTokenVerifier Key Jwk
      → Token
      → Time
      → Fetch Jwk
      → Fetch Jwk
      → JwtTokenVerifier Key Jwk × Option (AccessToken Token)
  unfolding verify_header
  verify_token v token now first retry =
      if jwt.available
      then verify_header (jwt.get_unverified_header token) v token now first retry
      else (v, none)

  unfoldable pub only_m2m : Option (AccessToken Token) → Option (AccessToken Token)
  unfolding or_else
  only_m2m none = none
  only_m2m (some a) = elim a.grant_type [
    | none ↦ none
    | some g ↦ ite (str_discrete g "client-credentials") (some a) none
  ]

  unfoldable pub verify_m2m_token :
      JwtTokenVerifier Key Jwk
      → Token
      → Time
      → Fetch Jwk
      → Fetch Jwk
      → JwtTokenVerifier Key Jwk × Option (AccessToken Token)
  unfolding verify_token only_m2m
  verify_m2m_token v token now first retry =
      let seen = verify_token v token now first retry in (seen.0, only_m2m seen.1)
