-- ===== src/Rbac/Scopes.antt =====
-- TOOL_SCOPES and _SCOPE_HIERARCHY of src/network_mcp/rbac.py.
use network_mcp.Base.{String, List, [], ◌∷◌}
use network_mcp.Dict.{Dict}

abbrev pub scope_read : String
scope_read = "network:read"

abbrev pub scope_write : String
scope_write = "network:write"

abbrev pub scope_admin : String
scope_admin = "network:admin"

abbrev pub scope_audit : String
scope_audit = "network:audit"

-- the pattern of a tool's name, and the scope that the tool wants; the first match counts
unfoldable pub tool_scopes : Dict String String
tool_scopes =
    ("eos_get_*", scope_read)
    ∷ ("eos_list_*", scope_read)
    ∷ ("eos_diff_*", scope_read)
    ∷ ("eos_detect_*", scope_read)
    ∷ ("eos_check_*", scope_read)
    ∷ ("eos_ping_*", scope_read)
    ∷ ("eos_traceroute_*", scope_read)
    ∷ ("eos_validate_*", scope_read)
    ∷ ("eos_run_anta_*", scope_read)
    ∷ ("eos_diagnose_*", scope_read)
    ∷ ("eos_troubleshoot_*", scope_read)
    ∷ ("eos_export_*", scope_read)
    ∷ ("eos_pre_change_*", scope_read)
    ∷ ("eos_post_change_*", scope_read)
    ∷ ("eos_compare_*", scope_read)
    ∷ ("eos_cache_*", scope_read)
    ∷ ("eos_server_*", scope_read)
    ∷ ("eos_gnmi_get", scope_read)
    ∷ ("eos_gnmi_capabilities", scope_read)
    ∷ ("eos_gnmi_subscribe_*", scope_read)
    ∷ ("eos_create_*", scope_write)
    ∷ ("eos_rename_*", scope_write)
    ∷ ("eos_configure_*", scope_write)
    ∷ ("eos_push_*", scope_write)
    ∷ ("eos_save_*", scope_write)
    ∷ ("eos_add_to_*", scope_write)
    ∷ ("eos_commit_*", scope_write)
    ∷ ("eos_abort_*", scope_write)
    ∷ ("eos_confirm_*", scope_write)
    ∷ ("eos_enable_*", scope_write)
    ∷ ("eos_apply_*", scope_write)
    ∷ ("eos_shutdown_*", scope_write)
    ∷ ("eos_no_shutdown_*", scope_write)
    ∷ ("eos_assign_*", scope_write)
    ∷ ("eos_gnmi_set", scope_write)
    ∷ ("eos_delete_*", scope_admin)
    ∷ ("eos_rollback_*", scope_admin)
    ∷ ("eos_remove_*", scope_admin)
    ∷ ("eos_load_tool_category", scope_read)
    ∷ ("eos_compliance_*", scope_audit)
    ∷ ("net_create_api_key", scope_admin)
    ∷ ("net_list_api_keys", scope_admin)
    ∷ ("net_revoke_api_key", scope_admin)
    ∷ ("net_rotate_api_key", scope_admin)
    ∷ ("config_reload", scope_admin)
    ∷ ("net_get_*", scope_read)
    ∷ ("net_diagnose_*", scope_read)
    ∷ ("net_troubleshoot_*", scope_read)
    ∷ ("net_validate_*", scope_read)
    ∷ ("net_export_*", scope_read)
    ∷ ("net_create_*", scope_write)
    ∷ ("net_rename_*", scope_write)
    ∷ ("net_assign_*", scope_write)
    ∷ ("net_configure_*", scope_write)
    ∷ ("net_save_*", scope_write)
    ∷ ("net_push_*", scope_write)
    ∷ ("net_delete_*", scope_admin)
    ∷ ("nxos_get_*", scope_read)
    ∷ ("nxos_create_*", scope_write)
    ∷ ("nxos_delete_*", scope_admin)
    ∷ ("iosxe_get_*", scope_read)
    ∷ ("iosxe_create_*", scope_write)
    ∷ ("iosxe_delete_*", scope_admin)
    ∷ ("junos_get_*", scope_read)
    ∷ ("junos_create_*", scope_write)
    ∷ ("junos_delete_*", scope_admin)
    ∷ ("*_create_*", scope_write)
    ∷ ("*_delete_*", scope_admin)
    ∷ ("*_set_*", scope_write)
    ∷ ("*_commit_*", scope_write)
    ∷ ("*_abort_*", scope_write)
    ∷ []

unfoldable pub scope_hierarchy : Dict String (List String)
scope_hierarchy =
    (scope_admin, scope_admin ∷ scope_write ∷ scope_read ∷ [])
    ∷ (scope_write, scope_write ∷ scope_read ∷ [])
    ∷ (scope_read, scope_read ∷ [])
    ∷ (scope_audit, scope_audit ∷ [])
    ∷ []
