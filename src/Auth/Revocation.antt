-- ===== src/Auth/Revocation.antt =====
-- src/network_mcp/auth.py: TokenRevocationStore, the ids of revoked tokens with the time at which each
-- token expires. A method holds the lock throughout.
use network_mcp.Base.{ℕ, Bool, String, str_discrete, [], length, leb, Time}
use network_mcp.Base.Text.{is_some}
use network_mcp.Dict
use network_mcp.Dict.{Dict, keys_where}
use network_mcp.Auth.{whole_seconds}

pub record TokenRevocationStore : Type 0 where
  pub revoked : Dict String ℕ

unfoldable pub init : TokenRevocationStore
init = record { revoked = [] }

unfoldable pub revoke : String → ℕ → TokenRevocationStore → TokenRevocationStore
revoke jti exp s = record { revoked = Dict.put str_discrete jti exp s.revoked }

unfoldable pub is_revoked : String → TokenRevocationStore → Bool
is_revoked jti s = is_some (Dict.get str_discrete jti s.revoked)

-- The store, and the number of entries removed.
unfoldable pub cleanup : Time → TokenRevocationStore → TokenRevocationStore × ℕ
unfolding whole_seconds
cleanup now s =
    let expired = keys_where (λ exp. leb exp (whole_seconds now)) s.revoked in
    (record { revoked = Dict.del_all str_discrete expired s.revoked }, length expired)

unfoldable pub size : TokenRevocationStore → ℕ
size s = length s.revoked
