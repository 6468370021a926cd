-- ===== src/Auth/Revoked.antt =====
-- src/network_mcp/auth.py: a token id in a TokenRevocationStore, through any calls of the store.
pub mod Verify
use network_mcp.Base.{
  ℕ, ◌≤◌, ◌<◌, String, str_discrete, List, [], ◌∷◌, ◌≡◌, refl, ◌≢◌, Time, none, some, Option, ◌⊎◌,
  inl, inr, All, arith, Bool, true, false, seconds, leb, not, if◌then◌else◌, Bool-cases, sym, ◌∙◌,
  ap, Option-cases, if_split, in_list,
}
use mathlib.Core.Path.{subst}
use network_mcp.Base.Text.{is_some, is_empty}
use network_mcp.Dict
use network_mcp.Dict.{Dict, Distinct}
use network_mcp.Dict.Laws.{get-put_ne, get-put_self, put-Distinct, del_all-Distinct}
use network_mcp.Auth.{AccessToken, Jwt, Payload, Documented, DecodeOptions, whole_seconds, present}
use network_mcp.Auth.Keys.{Fetch, JwksKeyManager}
use network_mcp.Auth.Revocation
use network_mcp.Auth.Revocation.{TokenRevocationStore, cleanup}
use network_mcp.Auth.Requests.{get-swept}

-- The calls that change a store.
pub data Call : Type 0 where
  revoke : String → ℕ → Call
  clean : Time → Call

unfoldable pub call : Call → TokenRevocationStore → TokenRevocationStore
unfolding Revocation.revoke cleanup
call (revoke jti exp) s = Revocation.revoke jti exp s
call (clean now) s = (cleanup now s).0

unfoldable pub calls : List Call → TokenRevocationStore → TokenRevocationStore
unfolding call
calls [] s = s
calls (c ∷ cs) s = calls cs (call c s)

-- The call is made no later than `until`, and revokes j no earlier than to `exp`.
abbrev pub Respects : String → ℕ → Time → Call → Type 0
Respects j exp until (revoke jti e) = (jti ≢ j) ⊎ (exp ≤ e)
Respects j exp until (clean now) = now ≤ until

abbrev pub IsDistinct : TokenRevocationStore → Type 0
IsDistinct s = Distinct str_discrete s.revoked

-- The id is in the store until `exp`, or that time has come.
abbrev pub Holds : String → ℕ → Time → TokenRevocationStore → Type 0
Holds j exp until s =
    ((e : ℕ) × (Dict.get str_discrete j s.revoked ≡ some e) × (exp ≤ e)) ⊎ (seconds exp ≤ until)

module _ (j : String) (exp : ℕ) (until : Time) where
  pub call-IsDistinct : (c : Call) (s : TokenRevocationStore) → IsDistinct s → IsDistinct (call c s)
  unfolding call Revocation.revoke cleanup
  call-IsDistinct (revoke jti e) s v = put-Distinct str_discrete jti e s.revoked v
  call-IsDistinct (clean now) s v = del_all-Distinct str_discrete _ s.revoked v

  clean-Holds :
      (now : Time) (s : TokenRevocationStore) (e : ℕ)
      → IsDistinct s
      → now ≤ until
      → Dict.get str_discrete j s.revoked ≡ some e
      → exp ≤ e
      → Holds j exp until (call (clean now) s)
  unfolding call cleanup whole_seconds
  clean-Holds now s e v le g x = elim (Bool-cases (leb e (whole_seconds now))) [
    | inl t ↦ inr (ground arith)
    | inr f ↦ inl (e, get-swept now j s.revoked v ∙ rw (g, f) refl, x)
  ]

  call-Holds :
      (c : Call) (s : TokenRevocationStore)
      → IsDistinct s
      → Respects j exp until c
      → Holds j exp until s
      → Holds j exp until (call c s)
  unfolding call Revocation.revoke
  call-Holds c s v r (inr past) = inr past
  call-Holds (clean now) s v le (inl (e, g, x)) = clean-Holds now s e v le g x
  call-Holds (revoke jti e') s v r (inl (e, g, x)) = elim (str_discrete jti j) [
    | no ne ↦ inl (e, get-put_ne str_discrete jti j e' s.revoked ne ∙ g, x)
    | yes eq ↦ elim r [
      | inl ne ↦ absurd (ne eq)
      | inr le ↦ inl (
        e',
        subst (λ i. Dict.get str_discrete j (Dict.put str_discrete i e' s.revoked) ≡ some e')
            (sym eq) (get-put_self str_discrete j e' s.revoked),
        le,
      )
    ]
  ]

  pub calls-Holds :
      (cs : List Call) (s : TokenRevocationStore)
      → IsDistinct s
      → All (Respects j exp until) cs
      → Holds j exp until s
      → Holds j exp until (calls cs s)
  unfolding calls
  calls-Holds [] s v r h = h
  calls-Holds (c ∷ cs) s v r h =
      calls-Holds cs (call c s) (call-IsDistinct c s v) r.1 (call-Holds c s v r.0 h)

  -- A call of revoke for this id and time of expiry starts it.
  pub revoke-Holds :
      (cs : List Call) (s : TokenRevocationStore)
      → IsDistinct s
      → All (Respects j exp until) cs
      → Holds j exp until (calls (revoke j exp ∷ cs) s)
  unfolding calls call Revocation.revoke
  revoke-Holds cs s v r =
      let t = Revocation.revoke j exp s in
      calls-Holds cs t (put-Distinct str_discrete j exp s.revoked v) r
        (inl (exp, get-put_self str_discrete j exp s.revoked, omega arith))
