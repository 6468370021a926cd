-- ===== src/Rbac/Authorization.antt =====
-- check_authorization of src/network_mcp/rbac.py: its answers against the scopes of the token.
use network_mcp.Base.{
  ◌≡◌, ◌↔◌, refl, Bool, true, false, String, str_discrete, Option, none, some, List, [], ◌∷◌,
  in_list, arith, Bool-cases, inl, inr, ◌∙◌, ap, sym, if◌then◌else◌,
}
use mathlib.Core.Path.{subst, subst⁻¹}
use mathlib.Core.Option.{some-injective}
use network_mcp.Dict.{Dict}
use network_mcp.Rbac.{
  Python, Claims, FeatureFlag, implied, expand_scopes, get_required_scope,
  extract_scopes_from_token, extract_tenant_id, Message, feature_disabled, rbac_bypassed,
  check_required, check_authorization,
}
use network_mcp.Rbac.Hierarchy.{in_list-append}

in_expand_from :
    (s : String) (gs : List String)
    → in_list s (expand_scopes gs) ≡ true
    → (g : String) × (in_list g gs ≡ true) × (in_list s (implied g) ≡ true)
unfolding expand_scopes in_list
in_expand_from s [] h = cc
in_expand_from s (g ∷ gs) h =
    let e = sym (in_list-append s (implied g) (expand_scopes gs)) ∙ h in
    elim (Bool-cases (in_list s (implied g))) [
      | inl y ↦ (g, ground arith, y)
      | inr n ↦
          let (g', there, gives) = in_expand_from s gs (ground arith) in (g', ground arith, gives)
    ]

in_expand_of :
    (s g : String) (gs : List String)
    → in_list g gs ≡ true
    → in_list s (implied g) ≡ true
    → in_list s (expand_scopes gs) ≡ true
unfolding expand_scopes in_list
in_expand_of s g [] h i = cc
in_expand_of s g (x ∷ gs) h i =
    in_list-append s (implied x) (expand_scopes gs) ∙ elim (str_discrete g x) [
      | yes p ↦ let j = subst (λ y. in_list s (implied y) ≡ true) p i in ground arith
      | no n ↦ let j = in_expand_of s g gs (ground arith) i in ground arith
    ]

-- The last steps of check_authorization.
abbrev decide_by : Bool → List String → Option String → Bool × Message
decide_by bypass gs o = if bypass then (true, feature_disabled) else check_required gs o

decide_by_monotone :
    (bypass : Bool) (gs hs : List String) (o : Option String)
    → ((g : String) → in_list g gs ≡ true → in_list g hs ≡ true)
    → (decide_by bypass gs o).0 ≡ true
    → (decide_by bypass hs o).0 ≡ true
unfolding check_required
decide_by_monotone true gs hs o sub h = refl
decide_by_monotone false gs hs none sub h = refl
decide_by_monotone false gs hs (some s) sub h =
    let (g, there, gives) = in_expand_from s gs (ground arith) in
    let granted = in_expand_of s g hs (sub g there) gives in rw granted refl

decide_by-refuses_iff :
    (bypass : Bool) (gs : List String) (o : Option String)
    → (decide_by bypass gs o).0 ≡ false ↔ (
        (bypass ≡ false)
        × (required : String) × (o ≡ some required)
        × ((g : String) → in_list g gs ≡ true → in_list required (implied g) ≡ false))
unfolding check_required
decide_by-refuses_iff true gs o = (λ h. cc, λ h. cc)
decide_by-refuses_iff false gs none = (λ h. cc, λ h. cc)
decide_by-refuses_iff false gs (some s) = (
  λ h. (
    refl,
    s,
    refl,
    λ g there. elim (Bool-cases (in_list s (implied g))) [
      | inl y ↦ let granted = in_expand_of s g gs there y in ground arith
      | inr n ↦ n
    ],
  ),
  λ (b, r, e, none_gives). elim (Bool-cases (in_list s (expand_scopes gs))) [
    | inl y ↦
        let (g, there, gives) = in_expand_from s gs y in
        let not_given = none_gives g there in
        let same : s ≡ r = some-injective _ _ e in cc (ap (λ i. in_list i (implied g)) same)
    | inr n ↦ rw n refl
  ],
)

-- Adding scopes to a token never takes an authorization away: a token of the same tenant that has
-- every scope of another is let through wherever the other is.
pub check_authorization_monotone :
    (py : Python) (flags : Option (Dict String FeatureFlag)) (tool_name : String)
    (claims more : Claims)
    → extract_tenant_id py more ≡ extract_tenant_id py claims
    → ((g : String)
        → in_list g (extract_scopes_from_token py claims) ≡ true
        → in_list g (extract_scopes_from_token py more) ≡ true)
    → (check_authorization py flags tool_name claims).0 ≡ true
    → (check_authorization py flags tool_name more).0 ≡ true
unfolding check_authorization
check_authorization_monotone py flags tool_name claims more t sub h =
    subst⁻¹
      (λ i.
        (decide_by (rbac_bypassed flags i) (extract_scopes_from_token py more)
          (get_required_scope py tool_name)).0
        ≡ true)
      t
      (decide_by_monotone (rbac_bypassed flags (extract_tenant_id py claims))
        (extract_scopes_from_token py claims) (extract_scopes_from_token py more)
        (get_required_scope py tool_name) sub h)

-- A request is refused exactly if the checks are not switched off for the tenant, the tool wants a
-- scope, and no scope of the token implies that scope.
pub check_authorization-refuses_iff :
    (py : Python) (flags : Option (Dict String FeatureFlag)) (tool_name : String) (claims : Claims)
    → (check_authorization py flags tool_name claims).0 ≡ false ↔ (
        (rbac_bypassed flags (extract_tenant_id py claims) ≡ false)
        × (required : String) × (get_required_scope py tool_name ≡ some required)
        × ((g : String)
            → in_list g (extract_scopes_from_token py claims) ≡ true
            → in_list required (implied g) ≡ false))
unfolding check_authorization
check_authorization-refuses_iff py flags tool_name claims =
    decide_by-refuses_iff (rbac_bypassed flags (extract_tenant_id py claims))
      (extract_scopes_from_token py claims) (get_required_scope py tool_name)
