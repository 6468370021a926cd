-- ===== src/Auth/Revoked/Verify.antt =====
-- src/network_mcp/auth.py: JWTTokenVerifier on tokens whose id is in its TokenRevocationStore.
use network_mcp.Base.{
  ℕ, ◌<◌, String, List, ◌∷◌, ◌≡◌, refl, Time, none, some, Option, inl, inr, All, arith, false,
  seconds, Bool-cases, in_list,
}
use network_mcp.Base.Text.{is_some, is_empty}
use network_mcp.Auth.{Jwt, JoseHeader, Payload, Documented, DecodeOptions, present}
use network_mcp.Auth.Keys.{Fetch, JwksKeyManager}
use network_mcp.Auth.Refresh.{get_or}
use network_mcp.Auth.Revocation
use network_mcp.Auth.Revocation.{TokenRevocationStore}
use network_mcp.Auth.Revoked.{Call, revoke, calls, Respects, IsDistinct, Holds, revoke-Holds}
use network_mcp.Auth.Verifier.{
  JwtTokenVerifier, Decoded, not_decoded, decoded, failed, of_decode, decode_with_key,
  decode_with_jwks, fall_back, judge, is_refused, verify_header, verify_token,
}

module _ {Token Key Jwk : Type 0} (jwt : Jwt Token Key Jwk) where
  -- However the token is decoded, it has this id and this time of expiry.
  abbrev pub Carries : String → ℕ → Token → Type 0
  Carries j exp token =
      (o : DecodeOptions) (k : Key) (now : Time) (p : Payload)
      → jwt.decode o token k now ≡ some p
      → (p.jti ≡ some j) × (p.exp ≡ some exp)

  module _ (j : String) (exp : ℕ) (now : Time) where
    -- A payload, if there is one, has the id and is not expired.
    abbrev Bears : Decoded → Type 0
    Bears not_decoded = Unit
    Bears failed = Unit
    Bears (decoded p) = (p.jti ≡ some j) × (now < seconds exp)

    of_decode-Bears :
        Documented jwt
        → (o : DecodeOptions) (token : Token) (k : Key) (r : Option Payload) → Carries j exp token
        → jwt.decode o token k now ≡ r
        → Bears (of_decode r)
    unfolding of_decode
    of_decode-Bears doc o token k none c e = tt
    of_decode-Bears doc o token k (some p) c e =
        let (id, life) = c o k now p e in (id, doc.decode_expiry o token k now p exp e life)

    decode_with_key-Bears :
        Documented jwt
        → (v : JwtTokenVerifier Key Jwk) (token : Token) (k : Option Key) → Carries j exp token
        → Bears (decode_with_key jwt v token now k)
    unfolding decode_with_key
    decode_with_key-Bears doc v token none c = tt
    decode_with_key-Bears doc v token (some k) c = of_decode-Bears doc _ token k _ c refl

    fall_back-Bears :
        Documented jwt
        → (v : JwtTokenVerifier Key Jwk) (token : Token) (d : Decoded) → Carries j exp token
        → Bears d
        → Bears (fall_back jwt v token now d)
    unfolding fall_back
    fall_back-Bears doc v token not_decoded c b = decode_with_key-Bears doc v token v.secret_key c
    fall_back-Bears doc v token (decoded p) c b = b
    fall_back-Bears doc v token failed c b = tt

    decode_with_jwks-Bears :
        Documented jwt
        → (m : Option (JwksKeyManager Jwk)) (kid : Option String) (v : JwtTokenVerifier Key Jwk)
          (token : Token) (first retry : Fetch Jwk)
        → Carries j exp token
        → Bears (decode_with_jwks jwt m kid v token now first retry).1
    unfolding decode_with_jwks
    decode_with_jwks-Bears doc none kid v token first retry c = tt
    decode_with_jwks-Bears doc (some m) none v token first retry c = tt
    decode_with_jwks-Bears doc (some m) (some kid) v token first retry c =
        decode_with_key-Bears doc v token _ c

    judge-Holds :
        (v : JwtTokenVerifier Key Jwk) (token : Token) (d : Decoded) (s : TokenRevocationStore)
        → is_empty j ≡ false
        → v.revocation_store ≡ some s
        → Holds j exp now s
        → Bears d
        → judge jwt v token d ≡ none
    unfolding judge is_refused present Revocation.is_revoked is_some
    judge-Holds v token not_decoded s full e h b = refl
    judge-Holds v token failed s full e h b = refl
    judge-Holds v token (decoded p) s full e (inr past) b = absurd (omega arith)
    judge-Holds v token (decoded p) s full e (inl (x, g, le)) b = rw (e, b.0, full, g) refl

    verify_header-Holds :
        Documented jwt
        → (h : Option JoseHeader) (v : JwtTokenVerifier Key Jwk) (token : Token)
          (first retry : Fetch Jwk) (s : TokenRevocationStore)
        → is_empty j ≡ false
        → v.revocation_store ≡ some s
        → Carries j exp token
        → Holds j exp now s
        → (verify_header jwt h v token now first retry).1 ≡ none
    unfolding verify_header
    verify_header-Holds doc none v token first retry s full e c hs = refl
    verify_header-Holds doc (some h) v token first retry s full e c hs =
        elim (Bool-cases (in_list (get_or "" h.alg) v.algorithms)) [
          | inr f ↦ rw f refl
          | inl t ↦ rw t (
              judge-Holds v token _ s full e hs (
                fall_back-Bears doc v token _ c (
                  decode_with_jwks-Bears doc v.jwks_manager (present h.kid) v token first retry c)))
        ]

  -- A token whose id was revoked together with its time of expiry is never verified again: through
  -- any later calls of the store that are made before the verification, cleanups included, unless one
  -- of them revokes the id anew to an earlier time.
  pub verify-revoke :
      Documented jwt
      → (v : JwtTokenVerifier Key Jwk) (s : TokenRevocationStore) (cs : List Call) (j : String)
        (exp : ℕ) (now : Time) (token : Token) (first retry : Fetch Jwk)
      → IsDistinct s
      → is_empty j ≡ false
      → v.revocation_store ≡ some (calls (revoke j exp ∷ cs) s)
      → Carries j exp token
      → All (Respects j exp now) cs
      → (verify_token jwt v token now first retry).1 ≡ none
  unfolding verify_token
  verify-revoke doc v s cs j exp now token first retry d full e c r =
      elim (Bool-cases jwt.available) [
        | inr f ↦ rw f refl
        | inl t ↦ rw t (
            verify_header-Holds j exp now doc _ v token first retry _ full e c
              (revoke-Holds j exp now cs s d r))
      ]
