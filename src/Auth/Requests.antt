-- ===== src/Auth/Requests.antt =====
-- src/network_mcp/auth.py: the calls that change a TokenRefreshManager and the revocation store that
-- it shares with the verifier, in any order.
pub mod Kept
pub mod Live
use network_mcp.Base.{
  ℕ, ◌≤◌, String, str_discrete, List, [], ◌∷◌, ◌≡◌, refl, ◌≢◌, Time, none, some, Option, inl, inr,
  if_pos, if_neg, Option-cases, ap, sym, ◌∙◌, All, arith, leb, Bool-cases, if◌then◌else◌, seconds,
  ◌+◌, Bool, not, ite, ◌<◌,
}
use network_mcp.Dict
use network_mcp.Dict.{Dict, keys_where, Distinct, filter_values}
use network_mcp.Dict.Laws.{
  get-put_ne, get-del_ne, get-del_self, put-Distinct, del-Distinct, del_all-Distinct, get-del,
  get-put, del_absent,
}
use network_mcp.Dict.Sweep.{get-filter_values, del_all-keys_where}
use network_mcp.Auth.{AccessToken, Jwt, whole_seconds}
use network_mcp.Auth.Revocation
use network_mcp.Auth.Refresh
use network_mcp.Auth.Refresh.{
  TokenRefreshManager, issue_refresh_token, revoke_refresh_token, cleanup,
}

-- `revoke_id` is a call of revocation_store.revoke, which the manager hands out.
pub data Request (Token : Type 0) : Type 0 where
  issue : Time → String → AccessToken Token → Request Token
  revoke : String → Request Token
  revoke_id : String → ℕ → Request Token
  clean : Time → Request Token

module _ {Token Key Jwk : Type 0} (jwt : Jwt Token Key Jwk) where
  unfoldable pub step : Request Token → TokenRefreshManager Key → TokenRefreshManager Key
  unfolding issue_refresh_token revoke_refresh_token cleanup Revocation.revoke
  step (issue now jti a) m = (issue_refresh_token jwt now jti a m).0
  step (revoke jti) m = revoke_refresh_token jti m
  step (revoke_id jti exp) m = record m {
    revocation_store = Revocation.revoke jti exp m.revocation_store;
  }
  step (clean now) m = (cleanup now m).0

  unfoldable pub run : List (Request Token) → TokenRefreshManager Key → TokenRefreshManager Key
  unfolding step
  run [] m = m
  run (r ∷ rs) m = run rs (step r m)

module _ {Token : Type 0} where
  -- The request does not issue a token with this id.
  abbrev pub Spares : String → Request Token → Type 0
  Spares j (issue now jti a) = jti ≢ j
  Spares j (revoke jti) = Unit
  Spares j (revoke_id jti exp) = Unit
  Spares j (clean now) = Unit

  -- It does not revoke the id either, and is made no later than `until`.
  abbrev pub Leaves : String → Time → Request Token → Type 0
  Leaves j until (issue now jti a) = jti ≢ j
  Leaves j until (revoke jti) = jti ≢ j
  Leaves j until (revoke_id jti exp) = jti ≢ j
  Leaves j until (clean now) = now ≤ until

-- A cleanup drops no key that it finds unexpired, and brings none back.
module _ (now : Time) (k : String) (d : Dict String ℕ) where
  abbrev swept : Dict String ℕ
  swept = Dict.del_all str_discrete (keys_where (λ (exp : ℕ). leb exp (whole_seconds now)) d) d

  pub get-swept :
      Distinct str_discrete d
      → Dict.get str_discrete k swept ≡ elim (Dict.get str_discrete k d) [
        | none ↦ none
        | some exp ↦ if not (leb exp (whole_seconds now)) then some exp else none
      ]
  get-swept h =
      rw (del_all-keys_where str_discrete (λ exp. leb exp (whole_seconds now)) d h)
        (get-filter_values str_discrete (λ exp. not (leb exp (whole_seconds now))) k d h)

  pub get-swept_absent :
      Distinct str_discrete d
      → Dict.get str_discrete k d ≡ none
      → Dict.get str_discrete k swept ≡ none
  get-swept_absent h e = get-swept h ∙ rw e refl

  pub get-swept_live :
      (exp : ℕ) (until : Time)
      → Distinct str_discrete d
      → Dict.get str_discrete k d ≡ some exp
      → now ≤ until
      → ◌<◌ until (seconds exp)
      → Dict.get str_discrete k swept ≡ some exp
  unfolding whole_seconds
  get-swept_live exp until h e le lt = get-swept h ∙ rw e (ground arith)
