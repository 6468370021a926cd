-- ===== src/RunConfig/Settled.antt =====
-- The change request of a configuration command when the request returns.
use network_mcp.Base.{◌≡◌, ◌⊎◌, Option, none, some, []}
use network_mcp.CircuitBreaker.Registry
use network_mcp.CommandCache.{Payload}
use network_mcp.ChangeManagement.{ChangeManager, Ref, pending}
use network_mcp.ChangeManagement.Lifecycle.{IsFinal}
use network_mcp.RunConfig.{pending_approval}
use network_mcp.RunConfig.Run.{Done}
use network_mcp.RunConfig.Ends.{status_of}

module _ {p : Payload} (r : Ref) where
  -- The request has returned, and the change is final.
  abbrev Final : Option (Done p) → Type 0
  Final none = ⊥
  Final (some (s, o, attempts)) = IsFinal (status_of s.manager r)

-- The request returned without a change of the manager and without a command sent; or its change is
-- final; or its change waits for approval and no command was sent.
abbrev pub Settles : {p : Payload} → ChangeManager → Option (Done p) → Type 0
Settles m none = ⊥
Settles m (some (s, o, attempts)) =
    ((s.manager ≡ m) × (attempts ≡ []))
    ⊎ (IsFinal (status_of s.manager m.next_ref)
        ⊎ ((status_of s.manager m.next_ref ≡ pending)
            × (o ≡ pending_approval m.next_ref)
            × (attempts ≡ [])))
