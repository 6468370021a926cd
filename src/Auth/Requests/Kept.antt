-- ===== src/Auth/Requests/Kept.antt =====
-- src/network_mcp/auth.py: what every call keeps of a TokenRefreshManager: its settings, tables
-- without double ids, and the absence of an id that is not issued.
use network_mcp.Base.{
  ℕ, String, str_discrete, List, [], ◌∷◌, ◌≡◌, refl, none, some, Option, All, ◌∙◌,
}
use network_mcp.Dict
use network_mcp.Dict.{Dict, Distinct}
use network_mcp.Dict.Laws.{
  get-put_ne, get-del_ne, get-del_self, put-Distinct, del-Distinct, del_all-Distinct,
}
use network_mcp.Auth.{Jwt}
use network_mcp.Auth.Revocation
use network_mcp.Auth.Revocation.{TokenRevocationStore}
use network_mcp.Auth.Refresh.{
  TokenRefreshManager, issue_refresh_token, revoke_refresh_token, revoke_popped, cleanup,
}
use network_mcp.Auth.Requests.{
  Request, issue, revoke, revoke_id, clean, step, run, Spares, get-swept_absent,
}

-- No id stands twice in a table.
pub record IsValid {Key : Type 0} (m : TokenRefreshManager Key) : Type 0 where
  pub active : Distinct str_discrete m.active_refresh_jtis
  pub revoked : Distinct str_discrete m.revocation_store.revoked

pub record SameSettings {Key : Type 0} (m n : TokenRefreshManager Key) : Type 0 where
  pub secret_key : n.secret_key ≡ m.secret_key
  pub issuer : n.issuer ≡ m.issuer
  pub audience : n.audience ≡ m.audience
  pub access_token_ttl : n.access_token_ttl ≡ m.access_token_ttl

abbrev same :
    {Key : Type 0} (m : TokenRefreshManager Key) (store : TokenRevocationStore)
    (active : Dict String ℕ)
    → SameSettings m (record m { revocation_store = store; active_refresh_jtis = active })
same m store active = record {
  secret_key = refl;
  issuer = refl;
  audience = refl;
  access_token_ttl = refl;
}

-- The id is not among the active ones.
abbrev pub Inactive : {Key : Type 0} → String → TokenRefreshManager Key → Type 0
Inactive j m = Dict.get str_discrete j m.active_refresh_jtis ≡ none

module _ {Token Key Jwk : Type 0} (jwt : Jwt Token Key Jwk) where
  revoke_popped-IsValid :
      (j : String) (o : Option ℕ) (m : TokenRefreshManager Key)
      → IsValid m
      → IsValid (revoke_popped j o m)
  unfolding revoke_popped Revocation.revoke
  revoke_popped-IsValid j none m v = v
  revoke_popped-IsValid j (some exp) m v = record {
    active = del-Distinct str_discrete j m.active_refresh_jtis v.active;
    revoked = put-Distinct str_discrete j exp m.revocation_store.revoked v.revoked;
  }

  pub step-IsValid :
      (r : Request Token) (m : TokenRefreshManager Key) → IsValid m → IsValid (step jwt r m)
  unfolding step issue_refresh_token revoke_refresh_token cleanup Revocation.revoke
      Revocation.cleanup
  step-IsValid (issue now jti a) m v = record {
    active = put-Distinct str_discrete jti _ m.active_refresh_jtis v.active;
    revoked = v.revoked;
  }
  step-IsValid (revoke jti) m v = revoke_popped-IsValid jti _ m v
  step-IsValid (revoke_id jti exp) m v = record {
    active = v.active;
    revoked = put-Distinct str_discrete jti exp m.revocation_store.revoked v.revoked;
  }
  step-IsValid (clean now) m v = record {
    active = del_all-Distinct str_discrete _ m.active_refresh_jtis v.active;
    revoked = del_all-Distinct str_discrete _ m.revocation_store.revoked v.revoked;
  }

  revoke_popped-Inactive :
      (j k : String) (o : Option ℕ) (m : TokenRefreshManager Key)
      → Inactive j m
      → Inactive j (revoke_popped k o m)
  unfolding revoke_popped
  revoke_popped-Inactive j k none m h = h
  revoke_popped-Inactive j k (some exp) m h = elim (str_discrete k j) [
    | yes e ↦ rw e (get-del_self str_discrete j m.active_refresh_jtis)
    | no ne ↦ get-del_ne str_discrete k j m.active_refresh_jtis ne ∙ h
  ]

  step-Inactive :
      (j : String) (r : Request Token) (m : TokenRefreshManager Key)
      → IsValid m
      → Spares j r
      → Inactive j m
      → Inactive j (step jwt r m)
  unfolding step issue_refresh_token revoke_refresh_token cleanup
  step-Inactive j (issue now jti a) m v ne h =
      get-put_ne str_discrete jti j _ m.active_refresh_jtis ne ∙ h
  step-Inactive j (revoke jti) m v s h = revoke_popped-Inactive j jti _ m h
  step-Inactive j (revoke_id jti exp) m v s h = h
  step-Inactive j (clean now) m v s h = get-swept_absent now j m.active_refresh_jtis v.active h

  pub run-Inactive :
      (j : String) (rs : List (Request Token)) (m : TokenRefreshManager Key)
      → IsValid m
      → All (Spares j) rs
      → Inactive j m
      → Inactive j (run jwt rs m)
  unfolding run
  run-Inactive j [] m v s h = h
  run-Inactive j (r ∷ rs) m v s h =
      run-Inactive j rs (step jwt r m) (step-IsValid r m v) s.1 (step-Inactive j r m v s.0 h)

  revoke-Inactive_popped :
      (j : String) (o : Option ℕ) (m : TokenRefreshManager Key)
      → Dict.get str_discrete j m.active_refresh_jtis ≡ o
      → Inactive j (revoke_popped j o m)
  unfolding revoke_popped
  revoke-Inactive_popped j none m h = h
  revoke-Inactive_popped j (some exp) m h = get-del_self str_discrete j m.active_refresh_jtis

  pub revoke-run-Inactive :
      (j : String) (rs : List (Request Token)) (m : TokenRefreshManager Key)
      → IsValid m
      → All (Spares j) rs
      → Inactive j (run jwt (revoke j ∷ rs) m)
  unfolding run step revoke_refresh_token
  revoke-run-Inactive j rs m v s =
      run-Inactive j rs (revoke_refresh_token j m) (revoke_popped-IsValid j _ m v) s
        (revoke-Inactive_popped j _ m refl)

  revoke_popped-SameSettings :
      (j : String) (o : Option ℕ) (m : TokenRefreshManager Key)
      → SameSettings m (revoke_popped j o m)
  unfolding revoke_popped
  revoke_popped-SameSettings j none m = same m _ _
  revoke_popped-SameSettings j (some exp) m = same m _ _

  step-SameSettings :
      (r : Request Token) (m : TokenRefreshManager Key) → SameSettings m (step jwt r m)
  unfolding step issue_refresh_token revoke_refresh_token cleanup
  step-SameSettings (issue now jti a) m = same m _ _
  step-SameSettings (revoke jti) m = revoke_popped-SameSettings jti _ m
  step-SameSettings (revoke_id jti exp) m = same m _ _
  step-SameSettings (clean now) m = same m _ _

  pub run-SameSettings :
      (rs : List (Request Token)) (m : TokenRefreshManager Key) → SameSettings m (run jwt rs m)
  unfolding run
  run-SameSettings [] m = same m _ _
  run-SameSettings (r ∷ rs) m =
      let a = step-SameSettings r m in
      let b = run-SameSettings rs (step jwt r m) in
      record {
        secret_key = b.secret_key ∙ a.secret_key;
        issuer = b.issuer ∙ a.issuer;
        audience = b.audience ∙ a.audience;
        access_token_ttl = b.access_token_ttl ∙ a.access_token_ttl;
      }
