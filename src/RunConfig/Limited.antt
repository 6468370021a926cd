-- ===== src/RunConfig/Limited.antt =====
-- What the check of a user's and a tenant's rates leaves as it is.
use network_mcp.Base.{
  ◌≡◌, ◌⊎◌, inl, inr, refl, true, false, String, Option, none, some, ite, if_split, str_discrete,
}
use network_mcp.RateLimiter.Tiers.{check_user, check_tenant}
use network_mcp.CommandCache.{Payload}
use network_mcp.RunConfig.{Server, Context, World, Outcome, user_limited, tenant_limited}
use network_mcp.RunConfig.Checks.{check_user_tenant_rate_limit, limit_user, limit_tenant}

module _ {p : Payload} where
  pub record Same (s s' : Server p) : Type 0 where
    pub breakers : s'.breakers ≡ s.breakers
    pub command_cache : s'.command_cache ≡ s.command_cache
    pub stale_ttl : s'.cache_stale_if_error_ttl ≡ s.cache_stale_if_error_ttl

  Same-refl : (s : Server p) → Same s s
  Same-refl s = record { breakers = refl; command_cache = refl; stale_ttl = refl }

  limit_tenant-Same :
      (w : World) (s s' : Server p) (o : Option String) → Same s s' → Same s (limit_tenant w s' o).0
  unfolding limit_tenant
  limit_tenant-Same w s s' none h = h
  limit_tenant-Same w s s' (some t) h =
      if_split (λ (x : Server p × Option Outcome). Same s x.0)
        (check_tenant w.one_token w.now t s'.tenants).1
        (λ e. record {
          breakers = h.breakers;
          command_cache = h.command_cache;
          stale_ttl = h.stale_ttl;
        })
        (λ e. record {
          breakers = h.breakers;
          command_cache = h.command_cache;
          stale_ttl = h.stale_ttl;
        })

  limit_user-Same :
      (w : World) (ctx : Context) (s : Server p) (o : Option String)
      → Same s (limit_user w ctx s o).0
  unfolding limit_user
  limit_user-Same w ctx s none = limit_tenant-Same w s s _ (Same-refl s)
  limit_user-Same w ctx s (some u) =
      let same : Same s
          (record s { users = (check_user w.one_token w.now u ctx.scopes s.users).0 }) =
        record { breakers = refl; command_cache = refl; stale_ttl = refl } in
      if_split (λ (x : Server p × Option Outcome). Same s x.0)
        (ite (str_discrete u "anonymous") true false) (λ e. limit_tenant-Same w s s _ (Same-refl s))
        (λ e.
          if_split (λ (x : Server p × Option Outcome). Same s x.0)
            (check_user w.one_token w.now u ctx.scopes s.users).1
            (λ e. limit_tenant-Same w s _ _ same)
            (λ e. record { breakers = refl; command_cache = refl; stale_ttl = refl }))

  pub check_user_tenant_rate_limit-Same :
      (w : World) (ctx : Context) (s : Server p) → Same s (check_user_tenant_rate_limit w ctx s).0
  unfolding check_user_tenant_rate_limit
  check_user_tenant_rate_limit-Same w ctx s = limit_user-Same w ctx s _

-- The check lets the request through, or refuses it for the user's or the tenant's rate.
abbrev pub IsLimit : Option Outcome → Type 0
IsLimit o = (o ≡ none) ⊎ ((o ≡ some user_limited) ⊎ (o ≡ some tenant_limited))

module _ {p : Payload} (w : World) where
  limit_tenant-IsLimit : (s : Server p) (o : Option String) → IsLimit (limit_tenant w s o).1
  unfolding limit_tenant
  limit_tenant-IsLimit s none = inl refl
  limit_tenant-IsLimit s (some t) =
      if_split (λ (x : Server p × Option Outcome). IsLimit x.1)
        (check_tenant w.one_token w.now t s.tenants).1 (λ e. inl refl) (λ e. inr (inr refl))

  limit_user-IsLimit :
      (ctx : Context) (s : Server p) (o : Option String) → IsLimit (limit_user w ctx s o).1
  unfolding limit_user
  limit_user-IsLimit ctx s none = limit_tenant-IsLimit s _
  limit_user-IsLimit ctx s (some u) =
      if_split (λ (x : Server p × Option Outcome). IsLimit x.1)
        (ite (str_discrete u "anonymous") true false) (λ e. limit_tenant-IsLimit s _)
        (λ e.
          if_split (λ (x : Server p × Option Outcome). IsLimit x.1)
            (check_user w.one_token w.now u ctx.scopes s.users).1
            (λ h.
              limit_tenant-IsLimit
                (record s { users = (check_user w.one_token w.now u ctx.scopes s.users).0 }) _)
            (λ h. inr (inl refl)))

  pub check_user_tenant_rate_limit-IsLimit :
      (ctx : Context) (s : Server p) → IsLimit (check_user_tenant_rate_limit w ctx s).1
  unfolding check_user_tenant_rate_limit
  check_user_tenant_rate_limit-IsLimit ctx s = limit_user-IsLimit ctx s _
