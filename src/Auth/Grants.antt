-- ===== src/Auth/Grants.antt =====
-- src/network_mcp/auth.py: what becomes of a refresh token that a TokenRefreshManager issued.
use network_mcp.Base.{
  ◌+◌, ◌≤◌, ◌<◌, String, str_discrete, List, [], ◌∷◌, ◌≡◌, refl, Time, none, some, inr, All, arith,
  false, seconds, ltb, if◌then◌else◌, Bool-cases, ◌∙◌, ap, inl, Option-cases, in_list,
}
use network_mcp.Base.Text.{is_some, is_empty}
use network_mcp.Dict
use network_mcp.Dict.{Distinct}
use network_mcp.Dict.Laws.{get-put_self}
use network_mcp.Auth.{
  AccessToken, Jwt, Payload, Documented, Accepted, DecodeOptions, decode_options, whole_seconds,
}
use network_mcp.Auth.Revocation
use network_mcp.Auth.Refresh.{
  TokenRefreshManager, RefreshError, issued, refused, invalid_token, missing_jti, has_been_revoked,
  not_recognized, not_a_refresh_token, issue_refresh_token, refresh_access_token, new_access_token,
  refresh_claims, access_claims, exchange, answer, refusal, refuse_claim, refuse_jti, is_active,
  is_refresh, get_or,
}
use network_mcp.Auth.Requests.Live.{Live, run-Live}
use mathlib.Core.Option.{some-injective}
use mathlib.Core.Path.{subst}
use network_mcp.Auth.Requests.{Request, issue, revoke, step, run, Spares, Leaves}
use network_mcp.Auth.Requests.Kept.{
  IsValid, step-IsValid, Inactive, run-SameSettings, step-IsValid, revoke-run-Inactive,
}

module _ {Token Key Jwk : Type 0} (jwt : Jwt Token Key Jwk) where
  refuse_jti-Inactive :
      (j : String) (m : TokenRefreshManager Key)
      → Inactive j m
      → (e : RefreshError) × (refuse_jti m j ≡ some e)
  unfolding refuse_jti is_active is_some
  refuse_jti-Inactive j m h = elim (Bool-cases (is_empty j)) [
    | inl t ↦ (missing_jti, rw t refl)
    | inr f ↦ elim (Bool-cases (Revocation.is_revoked j m.revocation_store)) [
      | inl t ↦ (has_been_revoked, rw (f, t) refl)
      | inr g ↦ (not_recognized, rw (f, g, h) refl)
    ]
  ]

  -- Whatever its payload says besides, a token with an id that is not active is refused.
  refusal-Inactive :
      (j : String) (p : Payload) (m : TokenRefreshManager Key)
      → p.jti ≡ some j
      → Inactive j m
      → (e : RefreshError) × (refusal m p ≡ some e)
  unfolding refusal refuse_claim
  refusal-Inactive j p m e h = elim (Bool-cases (is_refresh p.typ)) [
    | inr f ↦ (not_a_refresh_token, rw f refl)
    | inl t ↦ rw (t, e) (refuse_jti-Inactive j m h)
  ]

  exchange-Inactive :
      (now : Time) (k j : String) (p : Payload) (m : TokenRefreshManager Key)
      → p.jti ≡ some j
      → Inactive j m
      → (e : RefreshError) × (exchange jwt now k m (some p) ≡ refused e)
  unfolding exchange answer
  exchange-Inactive now k j p m e h =
      let (x, q) = refusal-Inactive j p m e h in (x, ap (answer jwt now k m p) q)

  -- The options and the key are those that the manager was made with, whatever it has served.
  decode-run :
      (rs : List (Request Token)) (m : TokenRefreshManager Key) (now : Time) (k : String)
      (token : Token)
      → refresh_access_token jwt now k token (run jwt rs m)
        ≡ exchange jwt now k
            (run jwt rs m)
            (jwt.decode (decode_options ("HS256" ∷ []) m.issuer m.audience) token m.secret_key now)
  unfolding refresh_access_token
  decode-run rs m now k token =
      let s = run-SameSettings jwt rs m in rw (s.secret_key, s.issuer, s.audience) refl

  -- Once revoke_refresh_token has been called with an id, no token that bears the id is exchanged
  -- again, through any calls of the manager and its revocation store, cleanups included, that do not
  -- issue a token with that id anew.
  pub refresh-revoke :
      (m : TokenRefreshManager Key) (j : String) (rs : List (Request Token)) (now : Time)
      (k : String) (token : Token) (p : Payload)
      → IsValid m
      → All (Spares j) rs
      → jwt.decode (decode_options ("HS256" ∷ []) m.issuer m.audience) token m.secret_key now
        ≡ some p
      → p.jti ≡ some j
      → (e : RefreshError) × (refresh_access_token jwt now k token (run jwt (revoke j ∷ rs) m)
          ≡ refused e)
  refresh-revoke m j rs now k token p v s d e =
      let gone = revoke-run-Inactive jwt j rs m v s in
      let (x, q) = exchange-Inactive now k j p (run jwt (revoke j ∷ rs) m) e gone in
      (
        x,
        decode-run (revoke j ∷ rs) m now k token
            ∙ ap (exchange jwt now k (run jwt (revoke j ∷ rs) m)) d
            ∙ q,
      )

  -- The checks of decode on the claims of a refresh token.
  refresh_claims-Accepted :
      (m : TokenRefreshManager Key) (start now : Time) (j : String) (a : AccessToken Token)
      → start ≤ now
      → now < seconds (whole_seconds start + m.refresh_token_ttl)
      → Accepted
          (decode_options ("HS256" ∷ []) m.issuer m.audience)
          (refresh_claims start j a m)
          now
  unfolding refresh_claims decode_options in_list str_discrete whole_seconds
  refresh_claims-Accepted m start now j a le lt = record {
    algorithm = refl;
    issued_by = inr refl;
    meant_for = refl;
    unexpired = λ e p. subst (λ x. now < seconds x) (some-injective _ _ p) lt;
    begun = λ i p. subst (λ x. seconds x ≤ now) (some-injective _ _ p) (omega arith);
  }

  answer_claims :
      (m n : TokenRefreshManager Key) (start now : Time) (j k : String) (a : AccessToken Token)
      → is_empty j ≡ false
      → Live j (whole_seconds start + m.refresh_token_ttl) n
      → exchange jwt now k n (some (refresh_claims start j a m))
        ≡ issued (new_access_token jwt now k a.client_id a.scopes n)
  unfolding exchange answer refusal refuse_claim refuse_jti is_active is_refresh refresh_claims
      Revocation.is_revoked is_some get_or str_discrete
  answer_claims m n start now j k a full h = rw (full, h.active, h.unrevoked) refl

  issue-Live :
      (m : TokenRefreshManager Key) (start : Time) (j : String) (a : AccessToken Token)
      → Dict.get str_discrete j m.revocation_store.revoked ≡ none
      → Live j (whole_seconds start + m.refresh_token_ttl) (step jwt (issue start j a) m)
  unfolding step issue_refresh_token
  issue-Live m start j a h = record {
    active =
        get-put_self str_discrete j (whole_seconds start + m.refresh_token_ttl)
          m.active_refresh_jtis;
    unrevoked = h;
  }

  new_access_token-run :
      (rs : List (Request Token)) (m : TokenRefreshManager Key) (now : Time) (k c : String)
      (scopes : List String)
      → new_access_token jwt now k c scopes (run jwt rs m) ≡ new_access_token jwt now k c scopes m
  unfolding new_access_token access_claims
  new_access_token-run rs m now k c scopes =
      let s = run-SameSettings jwt rs m in
      rw (s.secret_key, s.issuer, s.audience, s.access_token_ttl) refl

  refresh_unexpired :
      Documented jwt
      → (m : TokenRefreshManager Key) (start now : Time) (j k : String) (a : AccessToken Token)
        (rs : List (Request Token))
      → IsValid m
      → is_empty j ≡ false
      → Dict.get str_discrete j m.revocation_store.revoked ≡ none
      → start ≤ now
      → All (Leaves j now) rs
      → now < seconds (whole_seconds start + m.refresh_token_ttl)
      → refresh_access_token jwt now k
          (issue_refresh_token jwt start j a m).1
          (run jwt (issue start j a ∷ rs) m)
        ≡ issued (new_access_token jwt now k a.client_id a.scopes m)
  unfolding issue_refresh_token run
  refresh_unexpired doc m start now j k a rs v full fresh le l lt =
      let after = run jwt (issue start j a ∷ rs) m in
      let live =
        run-Live jwt j _ now rs (step jwt (issue start j a) m) lt
          (step-IsValid jwt (issue start j a) m v) l (issue-Live m start j a fresh) in
      decode-run (issue start j a ∷ rs) m now k
        (jwt.encode (refresh_claims start j a m) m.secret_key)
      ∙ ap (exchange jwt now k after)
          (doc.decode-encode _ _ m.secret_key now (refresh_claims-Accepted m start now j a le lt))
      ∙ answer_claims m after start now j k a full live
      ∙ ap issued (new_access_token-run (issue start j a ∷ rs) m now k a.client_id a.scopes)

  -- No options make an expired refresh token decode.
  decode_expired :
      Documented jwt
      → (m : TokenRefreshManager Key) (o : DecodeOptions) (start now : Time) (j : String)
        (a : AccessToken Token)
      → seconds (whole_seconds start + m.refresh_token_ttl) ≤ now
      → jwt.decode o (jwt.encode (refresh_claims start j a m) m.secret_key) m.secret_key now ≡ none
  unfolding refresh_claims
  decode_expired doc m o start now j a le =
      let claims = refresh_claims start j a m in
      elim (Option-cases (jwt.decode o (jwt.encode claims m.secret_key) m.secret_key now)) [
        | inl e ↦ e
        | inr (q, e) ↦
            let same = doc.decode-encode_eq o claims q m.secret_key now e in
            let lt =
              doc.decode_expiry o (jwt.encode claims m.secret_key) m.secret_key now q
                (whole_seconds start + m.refresh_token_ttl) e (ap (λ p. p.exp) same) in
            absurd (omega arith)
      ]

  -- With a new id, and whatever the manager and its revocation store are asked to do in between that
  -- neither issues nor revokes that id: the refresh token that issue_refresh_token returns is
  -- exchanged for an access token with the client and the scopes of the given one, as long as it is
  -- before its time of expiry; from then on it is refused as invalid.
  pub refresh-issue :
      Documented jwt
      → (m : TokenRefreshManager Key) (start now : Time) (j k : String) (a : AccessToken Token)
        (rs : List (Request Token))
      → IsValid m
      → is_empty j ≡ false
      → Dict.get str_discrete j m.revocation_store.revoked ≡ none
      → start ≤ now
      → All (Leaves j now) rs
      → refresh_access_token jwt now k
          (issue_refresh_token jwt start j a m).1
          (run jwt (issue start j a ∷ rs) m)
        ≡ (if ltb now (seconds (whole_seconds start + m.refresh_token_ttl))
            then issued (new_access_token jwt now k a.client_id a.scopes m)
            else refused invalid_token)
  unfolding issue_refresh_token exchange
  refresh-issue doc m start now j k a rs v full fresh le l =
      let exp = whole_seconds start + m.refresh_token_ttl in
      elim (Bool-cases (ltb now (seconds exp))) [
        | inl t ↦ rw t (refresh_unexpired doc m start now j k a rs v full fresh le l (ground arith))
        | inr f ↦
            let after = run jwt (issue start j a ∷ rs) m in
            rw f (
              decode-run (issue start j a ∷ rs) m now k
                (jwt.encode (refresh_claims start j a m) m.secret_key)
              ∙ ap (exchange jwt now k after) (decode_expired doc m _ start now j a (ground arith)))
      ]
