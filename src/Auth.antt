-- ===== src/Auth.antt =====
-- src/network_mcp/auth.py: access tokens, and what the code takes of PyJWT. The token's text and the signing keys are any types. A payload has the claims that the code
-- writes or reads, each absent or of the type that the code expects. `time.time()` is a number of
-- nanoseconds, and `exp` and `iat` are whole seconds.
pub mod Revocation
pub mod Refresh
pub mod Keys
pub mod Verifier
pub mod Requests
pub mod Grants
pub mod Revoked
pub mod Confusion
mod Tests
use network_mcp.Base.{
  ℕ, ◌+◌, ◌/◌, ◌<◌, ◌≤◌, Bool, true, false, String, str_discrete, Option, none, some, List, [], ◌∷◌,
  length, leb, ltb, if◌then◌else◌, Time, seconds, ◌≡◌, ◌⊎◌, in_list, ite,
}
use network_mcp.Base.Text.{is_some, is_empty}

-- int(time.time())
unfoldable pub whole_seconds : Time → ℕ
whole_seconds now = now / 1_000_000_000

-- What a test of an optional text lets through: neither None nor the empty text.
unfoldable pub present : Option String → Option String
present none = none
present (some s) = if is_empty s then none else some s

pub record Payload : Type 0 where
  pub typ : Option String
  pub jti : Option String
  pub sub : Option String
  pub client_id : Option String
  pub scopes : Option (List String)
  pub scope : Option String
  pub gty : Option String
  pub grant_type : Option String
  pub iat : Option ℕ
  pub exp : Option ℕ
  pub iss : Option String
  pub aud : Option String

abbrev pub no_claims : Payload
no_claims = record {
  typ = none;
  jti = none;
  sub = none;
  client_id = none;
  scopes = none;
  scope = none;
  gty = none;
  grant_type = none;
  iat = none;
  exp = none;
  iss = none;
  aud = none;
}

pub record AccessToken (Token : Type 0) : Type 0 where
  pub token : Token
  pub client_id : String
  pub scopes : List String
  pub expires_at : Option ℕ
  pub grant_type : Option String

module _ {Token : Type 0} where
  unfoldable pub is_expired : Time → AccessToken Token → Bool
  is_expired now a = elim a.expires_at [ none ↦ false | some e ↦ ltb (seconds e) now ]

  unfoldable pub has_scope : String → AccessToken Token → Bool
  has_scope scope a = in_list scope a.scopes

pub record DecodeOptions : Type 0 where
  pub algorithms : List String
  pub issuer : Option String
  pub audience : Option String

-- The keyword arguments that both callers of `decode` build.
unfoldable pub decode_options : List String → Option String → Option String → DecodeOptions
unfolding present
decode_options algorithms issuer audience = record {
  algorithms = algorithms;
  issuer = present issuer;
  audience = present audience;
}

pub record JoseHeader : Type 0 where
  pub alg : Option String
  pub kid : Option String

-- PyJWT: `encode` with HS256, `get_unverified_header`, where `none` is a DecodeError, and `decode`,
-- where `none` is any InvalidTokenError. `key_of` is PyJWK, where `none` is an exception.
pub record Jwt (Token Key Jwk : Type 0) : Type 0 where
  pub available : Bool
  pub encode : Payload → Key → Token
  pub get_unverified_header : Token → Option JoseHeader
  pub decode : DecodeOptions → Token → Key → Time → Option Payload
  pub key_of : Jwk → Option Key

-- The claims of p pass the checks that the options ask for.
pub record Accepted (o : DecodeOptions) (p : Payload) (now : Time) : Type 0 where
  pub algorithm : in_list "HS256" o.algorithms ≡ true
  pub issued_by : (o.issuer ≡ none) ⊎ (o.issuer ≡ p.iss)
  pub meant_for : o.audience ≡ p.aud
  pub unexpired : (e : ℕ) → p.exp ≡ some e → now < seconds e
  pub begun : (i : ℕ) → p.iat ≡ some i → seconds i ≤ now

-- What PyJWT documents: a token decodes, with the key that signed it, to the payload that was encoded
-- as long as the payload passes the checks, and to no other; no expired token is decoded; the header names HS256.
pub record Documented {Token Key Jwk : Type 0} (jwt : Jwt Token Key Jwk) : Type 0 where
  pub decode-encode :
      (o : DecodeOptions) (p : Payload) (k : Key) (now : Time)
      → Accepted o p now
      → jwt.decode o (jwt.encode p k) k now ≡ some p
  pub decode-encode_eq :
      (o : DecodeOptions) (p q : Payload) (k : Key) (now : Time)
      → jwt.decode o (jwt.encode p k) k now ≡ some q
      → q ≡ p
  pub decode_expiry :
      (o : DecodeOptions) (t : Token) (k : Key) (now : Time) (p : Payload) (e : ℕ)
      → jwt.decode o t k now ≡ some p
      → p.exp ≡ some e
      → now < seconds e
  pub header-encode :
      (p : Payload) (k : Key)
      → jwt.get_unverified_header (jwt.encode p k)
        ≡ some (record { alg = some "HS256"; kid = none })
