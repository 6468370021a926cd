-- ===== src/Rbac/Tests.antt =====
-- Runs of the access control, and the theorems at concrete inputs.
use network_mcp.Base.{
  ◌≡◌, ◌↔◌, refl, true, false, String, str_discrete, none, some, [], ◌∷◌, ite, in_list, arith,
}
use mathlib.Core.Path.{subst}
use network_mcp.Dict
use network_mcp.Rbac.{
  Python, Claims, items, implied, check_required, get_required_scope, extract_scopes_from_token,
  extract_tenant_id, rbac_bypassed, check_authorization,
}
use network_mcp.Rbac.Scopes.{scope_read, scope_write, scope_admin, scope_audit}
use network_mcp.Rbac.Hierarchy.{grants, check_scope-check_required}
use network_mcp.Rbac.Authorization.{check_authorization_monotone, check_authorization-refuses_iff}

-- Patterns without wildcards, and texts without blanks.
abbrev plain : Python
plain = record {
  fnmatch = λ name pattern. ite (str_discrete name pattern) true false;
  split = λ s. s ∷ [];
  strip = λ s. s;
  after_at = λ s. none;
}

abbrev writer : Claims
writer = ("scopes", items (scope_write ∷ [])) ∷ []

abbrev auditor : Claims
auditor = ("scopes", items (scope_write ∷ scope_audit ∷ [])) ∷ []

writer_may_set : (check_authorization plain none "eos_gnmi_set" writer).0 ≡ true
unfolding check_authorization str_discrete Dict.get
writer_may_set = refl

same_tenant : extract_tenant_id plain auditor ≡ extract_tenant_id plain writer
unfolding extract_tenant_id Dict.get str_discrete
same_tenant = refl

writer_scopes : extract_scopes_from_token plain writer ≡ scope_write ∷ []
unfolding extract_scopes_from_token Dict.get str_discrete
writer_scopes = refl

auditor_scopes : extract_scopes_from_token plain auditor ≡ scope_write ∷ scope_audit ∷ []
unfolding extract_scopes_from_token Dict.get str_discrete
auditor_scopes = refl

writes_more :
    (g : String)
    → in_list g (scope_write ∷ []) ≡ true
    → in_list g (scope_write ∷ scope_audit ∷ []) ≡ true
unfolding in_list
writes_more g h = ground arith

more_scopes :
    (g : String)
    → in_list g (extract_scopes_from_token plain writer) ≡ true
    → in_list g (extract_scopes_from_token plain auditor) ≡ true
more_scopes g h =
    rw auditor_scopes (writes_more g (subst (λ xs. in_list g xs ≡ true) writer_scopes h))

check_authorization_monotone_example :
    (check_authorization plain none "eos_gnmi_set" auditor).0 ≡ true
check_authorization_monotone_example =
    check_authorization_monotone plain none "eos_gnmi_set" writer auditor same_tenant more_scopes
      writer_may_set

check_authorization-refuses_iff_example :
    (check_authorization plain none "config_reload" writer).0 ≡ false ↔ (
      (rbac_bypassed none (extract_tenant_id plain writer) ≡ false)
      × (required : String) × (get_required_scope plain "config_reload" ≡ some required)
      × ((g : String)
          → in_list g (extract_scopes_from_token plain writer) ≡ true
          → in_list required (implied g) ≡ false))
check_authorization-refuses_iff_example =
    check_authorization-refuses_iff plain none "config_reload" writer

writer_may_not_reload : (check_authorization plain none "config_reload" writer).0 ≡ false
unfolding check_authorization str_discrete Dict.get
writer_may_not_reload = refl

check_scope-check_required_example :
    let gs = scope_audit ∷ scope_write ∷ [] in
    (grants gs scope_read ≡ (check_required gs (some scope_read)).0)
    × (grants gs scope_write ≡ (check_required gs (some scope_write)).0)
    × (grants gs scope_admin ≡ (check_required gs (some scope_admin)).0)
    × (grants gs scope_audit ≡ in_list scope_admin gs)
    × ((check_required gs (some scope_audit)).0 ≡ in_list scope_audit gs)
check_scope-check_required_example = check_scope-check_required (scope_audit ∷ scope_write ∷ [])
