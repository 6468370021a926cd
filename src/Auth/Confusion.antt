-- ===== src/Auth/Confusion.antt =====
-- src/network_mcp/auth.py: JWTTokenVerifier on the refresh tokens of a TokenRefreshManager.
use network_mcp.Base.{
  ◌+◌, ◌≤◌, ◌<◌, String, ◌≡◌, refl, Time, none, some, Option, inr, arith, true, false, seconds, ap,
  in_list,
}
use mathlib.Core.Option.{some-injective}
use mathlib.Core.Path.{subst}
use network_mcp.Auth.{
  AccessToken, Jwt, Documented, Accepted, decode_options, whole_seconds, present,
}
use network_mcp.Auth.Keys.{Fetch, JwksKeyManager}
use network_mcp.Auth.Refresh.{TokenRefreshManager, issue_refresh_token, refresh_claims, get_or}
use network_mcp.Auth.Verifier.{
  JwtTokenVerifier, not_decoded, decoded, of_decode, decode_with_key, options, decode_with_jwks,
  fall_back, judge, is_refused, verify_header, verify_token, extract_access_token, extract_scopes,
  or_else,
}

-- The verifier has the manager's key, issuer and audience.
pub record Configured {Key Jwk : Type 0} (m : TokenRefreshManager Key)
    (v : JwtTokenVerifier Key Jwk) : Type 0 where
  pub secret_key : v.secret_key ≡ some m.secret_key
  pub issuer : v.issuer ≡ m.issuer
  pub audience : v.audience ≡ m.audience
  pub algorithms : in_list "HS256" v.algorithms ≡ true

module _ {Token Key Jwk : Type 0} (jwt : Jwt Token Key Jwk) where
  claims-Accepted :
      (m : TokenRefreshManager Key) (v : JwtTokenVerifier Key Jwk) (start now : Time) (j : String)
      (a : AccessToken Token)
      → Configured m v
      → start ≤ now
      → now < seconds (whole_seconds start + m.refresh_token_ttl)
      → Accepted (options jwt v) (refresh_claims start j a m) now
  unfolding refresh_claims options decode_options whole_seconds
  claims-Accepted m v start now j a c le lt = record {
    algorithm = c.algorithms;
    issued_by = inr (ap present c.issuer);
    meant_for = ap present c.audience;
    unexpired = λ e p. subst (λ x. now < seconds x) (some-injective _ _ p) lt;
    begun = λ i p. subst (λ x. seconds x ≤ now) (some-injective _ _ p) (omega arith);
  }

  -- decode_with_jwks without a key id
  decode_without_kid :
      (m : Option (JwksKeyManager Jwk)) (v : JwtTokenVerifier Key Jwk) (token : Token) (now : Time)
      (first retry : Fetch Jwk)
      → decode_with_jwks jwt m none v token now first retry ≡ (v, not_decoded)
  unfolding decode_with_jwks
  decode_without_kid none v token now first retry = refl
  decode_without_kid (some m) v token now first retry = refl

  judge_claims :
      (m : TokenRefreshManager Key) (v : JwtTokenVerifier Key Jwk) (start : Time) (j : String)
      (a : AccessToken Token) (token : Token)
      → is_refused v.revocation_store (present (some j)) ≡ false
      → judge jwt v token (decoded (refresh_claims start j a m))
        ≡ some (record {
          token = token;
          client_id = a.client_id;
          scopes = a.scopes;
          expires_at = some (whole_seconds start + m.refresh_token_ttl);
          grant_type = none;
        })
  unfolding judge refresh_claims extract_access_token extract_scopes or_else get_or
  judge_claims m v start j a token f = rw f refl

  -- A verifier with the key, the issuer and the audience of the manager takes a refresh token that
  -- the manager issued for an access token of the same client and scopes, unless its id is revoked,
  -- until the refresh token expires.
  pub verify-issue :
      Documented jwt
      → (m : TokenRefreshManager Key) (v : JwtTokenVerifier Key Jwk) (start now : Time) (j : String)
        (a : AccessToken Token) (first retry : Fetch Jwk)
      → jwt.available ≡ true
      → Configured m v
      → is_refused v.revocation_store (present (some j)) ≡ false
      → start ≤ now
      → now < seconds (whole_seconds start + m.refresh_token_ttl)
      → verify_token jwt v (issue_refresh_token jwt start j a m).1 now first retry ≡ (
        v,
        some (record {
          token = (issue_refresh_token jwt start j a m).1;
          client_id = a.client_id;
          scopes = a.scopes;
          expires_at = some (whole_seconds start + m.refresh_token_ttl);
          grant_type = none;
        }),
      )
  unfolding verify_token verify_header issue_refresh_token fall_back decode_with_key of_decode
      get_or present
  verify-issue doc m v start now j a first retry up c f le lt =
      let claims = refresh_claims start j a m in
      let token = jwt.encode claims m.secret_key in
      rw
        (
          up,
          doc.header-encode claims m.secret_key,
          c.algorithms,
          decode_without_kid v.jwks_manager v token now first retry,
          c.secret_key,
          doc.decode-encode (options jwt v) claims m.secret_key now
              (claims-Accepted m v start now j a c le lt),
          judge_claims m v start j a token f,
        )
        refl
