-- ===== src/RunShow/Justified.antt =====
-- What a show command returns, and when it asks the device.
use network_mcp.Base.{◌≡◌, refl, ℕ, true, false, not, ltb, Option, none, some, if_split}
use network_mcp.CircuitBreaker.Registry
use network_mcp.CommandCache
use network_mcp.CommandCache.{Payload, CacheKey, CommandCache, put}
use network_mcp.CommandCache.Put.{IsAccounted}
use network_mcp.CommandCache.Read.{get-IsAccounted}
use network_mcp.RunConfig.{Library, Server, Context}
use network_mcp.RunConfig.Checks.{validate_host, check_tenant_device_access}
use network_mcp.RunShow.{ShowRequest, ShowWorld, effective_ttl, make_key}
use network_mcp.RunShow.Run.{after_lookup, look_up, run_show_inner}
use network_mcp.RunShow.Sources.{FromFresh, Carried, lookup-Carried, lookup-FromFresh, Carried-refl}
use network_mcp.RunShow.Steps.{Justified, Justified-map, after_lookup-Justified}
use network_mcp.Base.{true_of}

module _ {p : Payload} (py : Library) (w : ShowWorld p) (ctx : Context) (request : ShowRequest)
    (s : Server p) where
  -- The checks that a request has passed when the device is asked.
  pub record MayAsk : Type 0 where
    pub valid_host : validate_host py request.host ≡ true
    pub in_tenant : check_tenant_device_access py ctx request.host ≡ true
    pub not_cached : (look_up w (make_key request) (effective_ttl py request) s).1 ≡ none
    pub circuit : (Registry.allow_request w.world.now request.host s.breakers).1 ≡ true

  -- The first look, or none, of a request.
  looked_up :
      (ttl : ℕ)
      → IsAccounted p s.command_cache
      → let x = look_up w (make_key request) ttl s in
        ((r : CommandCache.Reply p)
          → x.1 ≡ some r
          → FromFresh w (make_key request) s.command_cache r)
        × IsAccounted p x.0
        × Carried w (make_key request) s.command_cache x.0
  unfolding look_up
  looked_up ttl a =
      let key = make_key request in
      if_split
        (λ (x : CommandCache p × Option (CommandCache.Reply p)).
          ((r : CommandCache.Reply p) → x.1 ≡ some r → FromFresh w key s.command_cache r)
          × IsAccounted p x.0
          × Carried w key s.command_cache x.0)
        (ltb 0 ttl)
        (λ h. (
          λ r e. lookup-FromFresh w key s.command_cache 300 r e,
          get-IsAccounted p key false 300 w.world.now w.later s.command_cache a,
          lookup-Carried w key s.command_cache 300,
        ))
        (λ h. (λ r e. absurd (cc e), a, Carried-refl w key s.command_cache))

  -- With a cache that keeps its account, a show command always returns. It asks the device only if the
  -- host is valid and the tenant's, the cache has no fresh entry of the key or is bypassed, and the
  -- circuit of the host lets the request through. The data that it returns are the device's reply; or
  -- the entry that the cache held for the key, opened and within its ttl; or that entry past its ttl by
  -- at most the stale ttl, wrapped as stale.
  pub run_show_inner-Justified :
      IsAccounted p s.command_cache
      → Justified w
          (make_key request)
          s.command_cache
          s.cache_stale_if_error_ttl
          MayAsk
          (run_show_inner py w ctx request s)
  unfolding run_show_inner make_key
  run_show_inner-Justified a =
      let key = make_key request in
      let ttl = effective_ttl py request in
      let J = Justified w key s.command_cache s.cache_stale_if_error_ttl in
      let (fresh, a', carry) = looked_up ttl a in
      if_split (J MayAsk) (not (validate_host py request.host)) (λ h. (λ e. absurd (cc e), refl))
        (λ h.
          if_split (J MayAsk) (not (check_tenant_device_access py ctx request.host))
            (λ i. (λ e. absurd (cc e), refl))
            (λ i.
              Justified-map w key s.command_cache s.cache_stale_if_error_ttl _ MayAsk
                (λ g. record {
                  valid_host = true_of _ h;
                  in_tenant = true_of _ i;
                  not_cached = g.1;
                  circuit = g.0;
                })
                (after_lookup w ctx key ttl s (look_up w key ttl s))
                (after_lookup-Justified w key s.command_cache s.cache_stale_if_error_ttl ctx ttl s _
                  fresh a' refl carry)))
