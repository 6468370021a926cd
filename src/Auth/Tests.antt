-- ===== src/Auth/Tests.antt =====
-- src/network_mcp/auth.py: runs of a manager and a verifier on a toy PyJWT, whose tokens are a payload
-- beside the key that signed it.
use network_mcp.Base.{
  ℕ, ◌+◌, ◌<◌, ◌==◌, String, str_discrete, List, [], ◌∷◌, ◌≡◌, refl, ◌≢◌, Time, none, some, Option,
  inl, inr, arith, true, seconds, if◌then◌else◌, ltb, sym, ◌∙◌, ap, Bool-cases, in_list,
}
use mathlib.Core.Option.{some-injective}
use mathlib.Core.Path.{subst}
use network_mcp.Base.Text.{is_empty}
use network_mcp.Dict
use network_mcp.Auth.{
  AccessToken, Jwt, Payload, no_claims, Documented, Accepted, DecodeOptions, whole_seconds,
}
use network_mcp.Auth.Revocation
use network_mcp.Auth.Revocation.{TokenRevocationStore}
use network_mcp.Auth.Keys
use network_mcp.Auth.Keys.{Fetch}
use network_mcp.Auth.Refresh.{
  TokenRefreshManager, RefreshError, issued, refused, invalid_token, issue_refresh_token,
  refresh_access_token, new_access_token,
}
use network_mcp.Auth.Requests.{Request, issue, revoke, clean, run}
use network_mcp.Auth.Requests.Kept.{IsValid}
use network_mcp.Auth.Grants.{refresh-issue, refresh-revoke}
use network_mcp.Auth.Confusion.{Configured, verify-issue}
use network_mcp.Auth.Revoked
use network_mcp.Auth.Revoked.Verify.{verify-revoke}
use network_mcp.Auth.Verifier.{JwtTokenVerifier, verify_token, is_refused}

abbrev live_payload : Payload → Time → Option ℕ → Option Payload
live_payload p now none = some p
live_payload p now (some e) = if ltb now (seconds e) then some p else none

abbrev toy_decode : DecodeOptions → Payload × ℕ → ℕ → Time → Option Payload
toy_decode o (p, k') k now = if k' == k then live_payload p now p.exp else none

abbrev toy : Jwt (Payload × ℕ) ℕ ℕ
toy = record {
  available = true;
  encode = λ p k. (p, k);
  get_unverified_header = λ t. some (record { alg = some "HS256"; kid = none });
  decode = toy_decode;
  key_of = some;
}

live_payload_same :
    (p q : Payload) (now : Time) (e : Option ℕ) → live_payload p now e ≡ some q → q ≡ p
live_payload_same p q now none h = sym (some-injective _ _ h)
live_payload_same p q now (some e) h = elim (Bool-cases (ltb now (seconds e))) [
  | inl t ↦ let g : some p ≡ some q = rw t at h in sym (some-injective _ _ g)
  | inr f ↦ let g : none ≡ some q = rw f at h in cc
]

toy_decode_same :
    (o : DecodeOptions) (t : Payload × ℕ) (k : ℕ) (now : Time) (q : Payload)
    → toy_decode o t k now ≡ some q
    → q ≡ t.0
toy_decode_same o (p, k') k now q h = elim (Bool-cases (k' == k)) [
  | inl t ↦
      let g : live_payload p now p.exp ≡ some q = rw t at h in live_payload_same p q now p.exp g
  | inr f ↦ let g : none ≡ some q = rw f at h in cc
]

live_payload_expiry :
    (p q : Payload) (now : Time) (o : Option ℕ) (e : ℕ)
    → live_payload p now o ≡ some q
    → o ≡ some e
    → now < seconds e
live_payload_expiry p q now none e h x = cc
live_payload_expiry p q now (some d) e h x =
    let lt : now < seconds d = ground arith in
    subst (λ n. now < seconds n) (some-injective d e x) lt

toy_decode_expiry :
    (o : DecodeOptions) (t : Payload × ℕ) (k : ℕ) (now : Time) (p : Payload) (e : ℕ)
    → toy_decode o t k now ≡ some p
    → p.exp ≡ some e
    → now < seconds e
toy_decode_expiry o (p, k') k now q e h x = elim (Bool-cases (k' == k)) [
  | inl t ↦
      let g : live_payload p now p.exp ≡ some q = rw t at h in
      let same = live_payload_same p q now p.exp g in
      let life : p.exp ≡ some e = ap (λ r. r.exp) (sym same) ∙ x in
      live_payload_expiry p q now p.exp e g life
  | inr f ↦ let g : none ≡ some q = rw f at h in cc
]

live_payload_accepted :
    (p : Payload) (now : Time) (e : Option ℕ)
    → ((x : ℕ) → e ≡ some x → now < seconds x)
    → live_payload p now e ≡ some p
live_payload_accepted p now none h = refl
live_payload_accepted p now (some e) h = ground (arith, h e refl)

toy_decode-encode :
    (o : DecodeOptions) (p : Payload) (k : ℕ) (now : Time)
    → Accepted o p now
    → toy_decode o (p, k) k now ≡ some p
toy_decode-encode o p k now a =
    let e : (k == k) ≡ true = ground arith in rw e (live_payload_accepted p now p.exp a.unexpired)

toy-Documented : Documented toy
toy-Documented = record {
  decode-encode = toy_decode-encode;
  decode-encode_eq = λ o p q k now h. toy_decode_same o (p, k) k now q h;
  decode_expiry = toy_decode_expiry;
  header-encode = λ p k. refl;
}

abbrev manager : TokenRefreshManager ℕ
manager = record {
  secret_key = 42;
  issuer = some "https://idp";
  audience = some "network-mcp";
  access_token_ttl = 900;
  refresh_token_ttl = 14_400;
  revocation_store = Revocation.init;
  active_refresh_jtis = [];
}

abbrev operator_token : AccessToken (Payload × ℕ)
operator_token = record {
  token = (no_claims, 0);
  client_id = "alice";
  scopes = "read" ∷ "write" ∷ [];
  expires_at = none;
  grant_type = none;
}

manager-IsValid : IsValid manager
unfolding Revocation.init
manager-IsValid = record { active = tt; revoked = tt }

abbrev other_requests : List (Request (Payload × ℕ))
other_requests = clean (seconds 5000) ∷ issue (seconds 6000) "r2" operator_token ∷ revoke "r2" ∷ []

r2-ne-r1 : ◌≢◌ {A = String} "r2" "r1"
unfolding str_discrete
r2-ne-r1 e = subst (λ s. elim (str_discrete s "r2") [ yes p ↦ Unit {0} | no ne ↦ ⊥ ]) e tt

refresh-issue_example :
    refresh_access_token toy
      (seconds 9000)
      "a1"
      (issue_refresh_token toy (seconds 1000) "r1" operator_token manager).1
      (run toy (issue (seconds 1000) "r1" operator_token ∷ other_requests) manager)
    ≡ (if ltb (seconds 9000) (seconds (whole_seconds (seconds 1000) + 14_400))
        then issued
            (new_access_token toy (seconds 9000) "a1" "alice" ("read" ∷ "write" ∷ []) manager)
        else refused invalid_token)
unfolding Revocation.init Dict.get is_empty
refresh-issue_example =
    refresh-issue toy toy-Documented manager (seconds 1000) (seconds 9000) "r1" "a1" operator_token
      other_requests manager-IsValid refl refl (omega arith)
      (omega arith, (r2-ne-r1, (r2-ne-r1, tt)))

-- A refresh token of the manager, as a payload and a key.
abbrev bearer : Payload × ℕ
bearer = (record no_claims { typ = some "refresh"; jti = some "r1"; exp = some 15_400 }, 42)

refresh-revoke_example :
    (e : RefreshError) × (refresh_access_token toy
        (seconds 9000)
        "a1"
        bearer
        (run toy (revoke "r1" ∷ other_requests) manager)
      ≡ refused e)
unfolding str_discrete
refresh-revoke_example =
    refresh-revoke toy manager "r1" other_requests (seconds 9000) "a1" bearer bearer.0
      manager-IsValid (tt, (r2-ne-r1, (tt, tt))) refl refl

abbrev verifier_of : Option TokenRevocationStore → JwtTokenVerifier ℕ ℕ
verifier_of store = record {
  secret_key = some 42;
  issuer = some "https://idp";
  audience = some "network-mcp";
  algorithms = "HS256" ∷ [];
  revocation_store = store;
  jwks_manager = some (Keys.init 3600);
}

abbrev no_answer : Fetch ℕ
no_answer = record { started = 5; ended = 6; served = none }

abbrev store_calls : List Revoked.Call
store_calls = Revoked.clean (seconds 5000) ∷ Revoked.revoke "r1" 20_000 ∷ []

abbrev used_store : TokenRevocationStore
used_store = Revoked.calls (Revoked.revoke "r1" 15_400 ∷ store_calls) Revocation.init

verify-revoke_example :
    (verify_token toy (verifier_of (some used_store)) bearer (seconds 9000) no_answer no_answer).1
    ≡ none
unfolding Revocation.init is_empty
verify-revoke_example =
    verify-revoke toy toy-Documented (verifier_of (some used_store)) Revocation.init store_calls
      "r1" 15_400 (seconds 9000) bearer no_answer no_answer tt refl refl
      (λ o k now p h.
        let same = toy_decode_same o bearer k now p h in
        (ap (λ r. r.jti) same, ap (λ r. r.exp) same))
      (omega arith, (inr (omega arith), tt))

toy-Configured : Configured manager (verifier_of none)
unfolding in_list str_discrete
toy-Configured = record { secret_key = refl; issuer = refl; audience = refl; algorithms = refl }

verify-issue_example :
    verify_token toy
      (verifier_of none)
      (issue_refresh_token toy (seconds 1000) "r1" operator_token manager).1
      (seconds 9000)
      no_answer
      no_answer
    ≡ (
      verifier_of none,
      some (record {
        token = (issue_refresh_token toy (seconds 1000) "r1" operator_token manager).1;
        client_id = "alice";
        scopes = "read" ∷ "write" ∷ [];
        expires_at = some (whole_seconds (seconds 1000) + 14_400);
        grant_type = none;
      }),
    )
unfolding is_refused whole_seconds
verify-issue_example =
    verify-issue toy toy-Documented manager (verifier_of none) (seconds 1000) (seconds 9000) "r1"
      operator_token no_answer no_answer refl toy-Configured refl (omega arith) (omega arith)
