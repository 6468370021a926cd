-- ===== src/Auth/Requests/Live.antt =====
-- src/network_mcp/auth.py: an id that was issued stays active until it is revoked or expires.
use network_mcp.Base.{
  ℕ, ◌<◌, String, str_discrete, List, [], ◌∷◌, ◌≡◌, ◌≢◌, Time, none, some, Option, All, seconds,
  ◌∙◌,
}
use network_mcp.Dict
use network_mcp.Dict.Laws.{get-put_ne, get-del_ne}
use network_mcp.Auth.{Jwt}
use network_mcp.Auth.Revocation
use network_mcp.Auth.Refresh.{
  TokenRefreshManager, issue_refresh_token, revoke_refresh_token, revoke_popped, cleanup,
}
use network_mcp.Auth.Requests.{
  Request, issue, revoke, revoke_id, clean, step, run, Leaves, get-swept_absent, get-swept_live,
}
use network_mcp.Auth.Requests.Kept.{IsValid, step-IsValid}

pub record Live {Key : Type 0} (j : String) (exp : ℕ) (m : TokenRefreshManager Key) : Type 0 where
  pub active : Dict.get str_discrete j m.active_refresh_jtis ≡ some exp
  pub unrevoked : Dict.get str_discrete j m.revocation_store.revoked ≡ none

module _ {Token Key Jwk : Type 0} (jwt : Jwt Token Key Jwk) (j : String) (exp : ℕ) where
  revoke_popped-Live :
      (k : String) (o : Option ℕ) (m : TokenRefreshManager Key)
      → k ≢ j
      → Live j exp m
      → Live j exp (revoke_popped k o m)
  unfolding revoke_popped Revocation.revoke
  revoke_popped-Live k none m ne h = h
  revoke_popped-Live k (some x) m ne h = record {
    active = get-del_ne str_discrete k j m.active_refresh_jtis ne ∙ h.active;
    unrevoked = get-put_ne str_discrete k j x m.revocation_store.revoked ne ∙ h.unrevoked;
  }

  step-Live :
      (until : Time) (r : Request Token) (m : TokenRefreshManager Key)
      → until < seconds exp
      → IsValid m
      → Leaves j until r
      → Live j exp m
      → Live j exp (step jwt r m)
  unfolding step issue_refresh_token revoke_refresh_token cleanup Revocation.revoke
      Revocation.cleanup
  step-Live until (issue now jti a) m lt v ne h = record {
    active = get-put_ne str_discrete jti j _ m.active_refresh_jtis ne ∙ h.active;
    unrevoked = h.unrevoked;
  }
  step-Live until (revoke jti) m lt v ne h = revoke_popped-Live jti _ m ne h
  step-Live until (revoke_id jti x) m lt v ne h = record {
    active = h.active;
    unrevoked = get-put_ne str_discrete jti j x m.revocation_store.revoked ne ∙ h.unrevoked;
  }
  step-Live until (clean now) m lt v le h = record {
    active = get-swept_live now j m.active_refresh_jtis exp until v.active h.active le lt;
    unrevoked = get-swept_absent now j m.revocation_store.revoked v.revoked h.unrevoked;
  }

  pub run-Live :
      (until : Time) (rs : List (Request Token)) (m : TokenRefreshManager Key)
      → until < seconds exp
      → IsValid m
      → All (Leaves j until) rs
      → Live j exp m
      → Live j exp (run jwt rs m)
  unfolding run
  run-Live until [] m lt v l h = h
  run-Live until (r ∷ rs) m lt v l h =
      run-Live until rs (step jwt r m) lt (step-IsValid jwt r m v) l.1
        (step-Live until r m lt v l.0 h)
