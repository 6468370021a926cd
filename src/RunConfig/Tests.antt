-- ===== src/RunConfig/Tests.antt =====
-- The theorems on configuration commands at concrete inputs.
use network_mcp.Base.{refl, [], ◌∷◌}
use network_mcp.RunConfig.{applied_as}
use network_mcp.RunConfig.Attempts.{Allowed, run_config_inner-Allowed}
use network_mcp.RunConfig.Examples.{
  plain_text, vlan, server, anyone, fine_day, result, server_after, vlan_applied,
}

run_config_inner-Allowed_example : Allowed plain_text fine_day anyone vlan server
run_config_inner-Allowed_example =
    run_config_inner-Allowed plain_text fine_day anyone vlan server (server_after result)
      (applied_as 0) ("vlan 10" ∷ []) [] refl vlan_applied
