-- ===== src/RunShow/Tests.antt =====
-- Show commands before and after a change, and the theorems at concrete inputs.
use network_mcp.Base.{◌≡◌, refl, Bool, false, Option, none, some, [], ◌∷◌}
use network_mcp.CommandCache
use network_mcp.CommandCache.{value, key_discrete}
use network_mcp.Dict
use network_mcp.Base.Text.{is_empty, strip, is_space, is_some}
use network_mcp.RunConfig.Checks.{validate_host, check_tenant_device_access}
use network_mcp.RunConfig.Examples.{
  plain_text, numbers, server, anyone, fine_day, vlan_cache-IsAccounted, vlan_cache,
}
use network_mcp.RunShow.{ShowRequest, ShowWorld, Answer, cached, returned, effective_ttl, make_key}
use network_mcp.RunShow.Run.{Shown, run_show_inner}
use network_mcp.RunShow.Steps.{Justified}
use network_mcp.RunShow.Justified.{MayAsk, run_show_inner-Justified}

abbrev vlans : ShowRequest
vlans = record {
  host = "spine-01";
  commands = "show vlan" ∷ [];
  encoding = "json";
  cache_ttl = some 30;
}

abbrev quiet : ShowWorld numbers
quiet = record { world = fine_day; later = 100; fetch = returned 20 }

run_show_inner-Justified_example :
    Justified quiet
      (make_key vlans)
      vlan_cache
      300
      (MayAsk plain_text quiet anyone vlans server)
      (run_show_inner plain_text quiet anyone vlans server)
run_show_inner-Justified_example =
    run_show_inner-Justified plain_text quiet anyone vlans server vlan_cache-IsAccounted

-- the answer of a show command, and whether the device was asked
abbrev answer_of : Option (Shown numbers) → Option (Answer numbers × Bool)
answer_of none = none
answer_of (some (s, a, asked)) = some (a, asked)

cached_before :
    answer_of (run_show_inner plain_text quiet anyone vlans server)
    ≡ some (cached (value 10), false)
unfolding run_show_inner validate_host is_empty strip is_space check_tenant_device_access is_some
    effective_ttl CommandCache.get Dict.get key_discrete make_key
cached_before = refl
