-- ===== src/Rbac/Hierarchy.antt =====
-- The hierarchy of scopes as rbac.py and as middleware.py has it.
use network_mcp.Base.{
  ◌≡◌, ◌≢◌, ◌∙◌, refl, Bool, true, false, ◌||◌, String, str_discrete, none, some, List, [], ◌∷◌,
  ◌++◌, in_list, arith,
}
use mathlib.Core.Path.{subst}
use network_mcp.Dict
use network_mcp.Rbac.{implied, or_itself, expand_scopes, check_required, check_scope}
use network_mcp.Rbac.Scopes.{scope_read, scope_write, scope_admin, scope_audit, scope_hierarchy}

pub in_list-append :
    (s : String) (xs ys : List String) → in_list s (xs ++ ys) ≡ (in_list s xs || in_list s ys)
unfolding in_list
in_list-append s [] ys = refl
in_list-append s (x ∷ xs) ys = let ih = in_list-append s xs ys in ground arith

abbrev is_scope : String → String → Bool
is_scope s g = in_list s (g ∷ [])

-- What one scope implies, by the scopes that imply it.
record Implies (g : String) (xs : List String) : Type 0 where
  reads :
      in_list scope_read xs
      ≡ (is_scope scope_admin g || (is_scope scope_write g || is_scope scope_read g))
  writes : in_list scope_write xs ≡ (is_scope scope_admin g || is_scope scope_write g)
  administers : in_list scope_admin xs ≡ is_scope scope_admin g
  audits : in_list scope_audit xs ≡ is_scope scope_audit g

admin-Implies : Implies scope_admin (implied scope_admin)
unfolding implied or_itself scope_hierarchy Dict.get in_list str_discrete
admin-Implies = record { reads = refl; writes = refl; administers = refl; audits = refl }

write-Implies : Implies scope_write (implied scope_write)
unfolding implied or_itself scope_hierarchy Dict.get in_list str_discrete
write-Implies = record { reads = refl; writes = refl; administers = refl; audits = refl }

read-Implies : Implies scope_read (implied scope_read)
unfolding implied or_itself scope_hierarchy Dict.get in_list str_discrete
read-Implies = record { reads = refl; writes = refl; administers = refl; audits = refl }

audit-Implies : Implies scope_audit (implied scope_audit)
unfolding implied or_itself scope_hierarchy Dict.get in_list str_discrete
audit-Implies = record { reads = refl; writes = refl; administers = refl; audits = refl }

other-Implies :
    (g : String)
    → scope_admin ≢ g
    → scope_write ≢ g
    → scope_read ≢ g
    → scope_audit ≢ g
    → Implies g (implied g)
unfolding implied or_itself scope_hierarchy Dict.get in_list
other-Implies g a w r u = record {
  reads = ground arith;
  writes = ground arith;
  administers = ground arith;
  audits = ground arith;
}

implied-Implies : (g : String) → Implies g (implied g)
implied-Implies g = elim (str_discrete scope_admin g) [
  | yes p ↦ subst (λ x. Implies x (implied x)) p admin-Implies
  | no a ↦ elim (str_discrete scope_write g) [
    | yes p ↦ subst (λ x. Implies x (implied x)) p write-Implies
    | no w ↦ elim (str_discrete scope_read g) [
      | yes p ↦ subst (λ x. Implies x (implied x)) p read-Implies
      | no r ↦ elim (str_discrete scope_audit g) [
        | yes p ↦ subst (λ x. Implies x (implied x)) p audit-Implies
        | no u ↦ other-Implies g a w r u
      ]
    ]
  ]
]

-- What a list of scopes expands to, by the scopes in it.
record Expands (gs : List String) : Type 0 where
  reads :
      in_list scope_read (expand_scopes gs)
      ≡ (in_list scope_admin gs || (in_list scope_write gs || in_list scope_read gs))
  writes :
      in_list scope_write (expand_scopes gs) ≡ (in_list scope_admin gs || in_list scope_write gs)
  administers : in_list scope_admin (expand_scopes gs) ≡ in_list scope_admin gs
  audits : in_list scope_audit (expand_scopes gs) ≡ in_list scope_audit gs

expand_scopes-Expands : (gs : List String) → Expands gs
unfolding expand_scopes in_list
expand_scopes-Expands [] = record { reads = refl; writes = refl; administers = refl; audits = refl }
expand_scopes-Expands (g ∷ gs) =
    let one = implied-Implies g in
    let ih = expand_scopes-Expands gs in
    let reads_one = one.reads in
    let writes_one = one.writes in
    let administers_one = one.administers in
    let audits_one = one.audits in
    let reads_rest = ih.reads in
    let writes_rest = ih.writes in
    let administers_rest = ih.administers in
    let audits_rest = ih.audits in
    record {
      reads = ground (arith, in_list-append scope_read (implied g) (expand_scopes gs));
      writes = ground (arith, in_list-append scope_write (implied g) (expand_scopes gs));
      administers = ground (arith, in_list-append scope_admin (implied g) (expand_scopes gs));
      audits = ground (arith, in_list-append scope_audit (implied g) (expand_scopes gs));
    }

-- Does check_scope return None?
abbrev pub grants : List String → String → Bool
grants gs required = elim (check_scope gs required) [ none ↦ true | some e ↦ false ]

required_of :
    (gs : List String) (required : String)
    → (check_required gs (some required)).0 ≡ in_list required (expand_scopes gs)
unfolding check_required
required_of gs required = ground arith

-- On one and the same list of scopes, check_scope of the middleware and the last step of
-- check_authorization decide alike where read, write or admin is wanted. Where audit is wanted,
-- check_scope grants exactly the lists with admin, and check_authorization those with audit.
pub check_scope-check_required :
    (gs : List String)
    → (grants gs scope_read ≡ (check_required gs (some scope_read)).0)
      × (grants gs scope_write ≡ (check_required gs (some scope_write)).0)
      × (grants gs scope_admin ≡ (check_required gs (some scope_admin)).0)
      × (grants gs scope_audit ≡ in_list scope_admin gs)
      × ((check_required gs (some scope_audit)).0 ≡ in_list scope_audit gs)
unfolding check_scope str_discrete
check_scope-check_required gs =
    let x = expand_scopes-Expands gs in
    let reads = x.reads in
    let writes = x.writes in
    let administers = x.administers in
    (
      rw (required_of gs scope_read) (ground arith),
      rw (required_of gs scope_write) (ground arith),
      rw (required_of gs scope_admin) (ground arith),
      ground arith,
      required_of gs scope_audit ∙ x.audits,
    )
