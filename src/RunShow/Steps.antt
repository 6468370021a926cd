-- ===== src/RunShow/Steps.antt =====
-- What each step of a show command returns, and when it asks the device.
use network_mcp.Base.{
  ◌≡◌, ◌≢◌, refl, ◌∙◌, ◌⊎◌, inl, inr, ℕ, Bool, true, false, ◌&&◌, ltb, Option, none, some, Time,
  if_split,
}
use mathlib.Core.Path.{subst, subst⁻¹}
use network_mcp.CircuitBreaker.Registry
use network_mcp.RateLimiter.Limiters.{DeviceRateLimiter}
use network_mcp.CommandCache
use network_mcp.CommandCache.{Payload, CacheKey, CommandCache, put}
use network_mcp.CommandCache.Put.{IsAccounted}
use network_mcp.ChangeManagement.Marks.{Reply, replied, raised}
use network_mcp.RunConfig.{Server, Context, Outcome}
use network_mcp.RunConfig.Checks.{check_user_tenant_rate_limit}
use network_mcp.RunConfig.Limited.{check_user_tenant_rate_limit-Same}
use network_mcp.RunShow.{
  Fetch, returned, connection_error, command_error, unexpected_error, ShowWorld, Answer,
  invalid_host, outside_tenant, cached, served_stale, caller_limited, circuit_is_open,
  device_limited, no_slot, fetched, failed,
}
use network_mcp.RunShow.Run.{
  Shown, stale_or, try_stale, after_put, show_with_bulkhead, take_show_slot, limit_show,
  pass_show_circuit, limit_show_caller, after_lookup,
}
use network_mcp.RunShow.Sources.{FromFresh, FromStale, Carried, lookup-FromStale}
use network_mcp.RunShow.Ends.{show_limit_ends, populate_ends}

module _ {p : Payload} where
  -- The data of an answer are the entry of the key at the start of the request, or the device's reply.
  abbrev pub Source : ShowWorld p → CacheKey → CommandCache p → ℕ → Answer p → Bool → Type 0
  Source w key c st (cached r) asked = FromFresh w key c r × (asked ≡ false)
  Source w key c st (served_stale r) asked = FromStale w key c st r
  Source w key c st (fetched v) asked = (w.fetch ≡ returned v) × (asked ≡ true)
  Source w key c st (failed f) asked = (w.fetch ≡ f) × (asked ≡ true)
  Source w key c st invalid_host asked = asked ≡ false
  Source w key c st outside_tenant asked = asked ≡ false
  Source w key c st (caller_limited e) asked = asked ≡ false
  Source w key c st (circuit_is_open n) asked = asked ≡ false
  Source w key c st device_limited asked = asked ≡ false
  Source w key c st (no_slot e) asked = asked ≡ false

  module _ (w : ShowWorld p) (key : CacheKey) (c : CommandCache p) (st : ℕ) where
    -- The request returns; if it asked the device then G, and its data have their source.
    abbrev pub Justified : Type 0 → Option (Shown p) → Type 0
    Justified G none = ⊥
    Justified G (some (s, a, asked)) = (asked ≡ true → G) × Source w key c st a asked

    pub Justified-map :
        (G H : Type 0) → (G → H) → (d : Option (Shown p)) → Justified G d → Justified H d
    Justified-map G H f none h = h
    Justified-map G H f (some (s, a, asked)) (g, source) = (λ e. f (g e), source)

    module _ (G : Type 0) where
      stale_or-Justified :
          (a : Answer p) (asked : Bool) (s : Server p)
          (x : CommandCache p × Option (CommandCache.Reply p))
          → ((r : CommandCache.Reply p) → x.1 ≡ some r → FromStale w key c st r)
          → (asked ≡ true → G)
          → Source w key c st a asked
          → Justified G (some (stale_or a asked s x))
      unfolding stale_or
      stale_or-Justified a asked s (d, none) h g source = (g, source)
      stale_or-Justified a asked s (d, some r) h g source = (g, h r refl)

      try_stale-Justified :
          (ttl : ℕ) (now : Time) (a : Answer p) (asked : Bool) (s : Server p)
          → (now ≡ w.world.now) ⊎ (now ≡ w.world.done)
          → s.cache_stale_if_error_ttl ≡ st
          → Carried w key c s.command_cache
          → (asked ≡ true → G)
          → Source w key c st a asked
          → Justified G (some (try_stale w now key ttl a asked s))
      unfolding try_stale
      try_stale-Justified ttl now a asked s at same carry g source =
          if_split (λ (x : Shown p). Justified G (some x))
            (ltb 0 ttl && ltb 0 s.cache_stale_if_error_ttl)
            (λ e.
              stale_or-Justified a asked s _
                (λ r h.
                  subst (λ n. FromStale w key c n r) same
                    (lookup-FromStale w key c s.cache_stale_if_error_ttl r s.command_cache now at
                      carry h))
                g source)
            (λ e. (g, source))

      after_put-Justified :
          (v : p.Value) (s : Server p) (o : Option (CommandCache p))
          → o ≢ none
          → w.fetch ≡ returned v
          → G
          → Justified G (after_put key.host v s o)
      unfolding after_put
      after_put-Justified v s none h e g = h refl
      after_put-Justified v s (some d) h e g = (λ x. g, (e, refl))

      show_with_bulkhead-Justified :
          (ttl : ℕ) (s : Server p) (f : Fetch p)
          → w.fetch ≡ f
          → IsAccounted p s.command_cache
          → s.cache_stale_if_error_ttl ≡ st
          → Carried w key c s.command_cache
          → G
          → Justified G (show_with_bulkhead w key ttl s f)
      unfolding show_with_bulkhead
      show_with_bulkhead-Justified ttl s (returned v) e a same carry g =
          after_put-Justified v s _ (populate_ends w.world.done key ttl v s a) e g
      show_with_bulkhead-Justified ttl s (connection_error m) e a same carry g =
          try_stale-Justified ttl w.world.done _ true _ (inr refl) same carry (λ x. g) (e, refl)
      show_with_bulkhead-Justified ttl s (command_error m) e a same carry g = (λ x. g, (e, refl))
      show_with_bulkhead-Justified ttl s (unexpected_error m) e a same carry g =
          try_stale-Justified ttl w.world.done _ true _ (inr refl) same carry (λ x. g) (e, refl)

      take_show_slot-Justified :
          (ttl : ℕ) (s : Server p) (x : Reply (Unit {0}))
          → IsAccounted p s.command_cache
          → s.cache_stale_if_error_ttl ≡ st
          → Carried w key c s.command_cache
          → G
          → Justified G (take_show_slot w key ttl s x)
      unfolding take_show_slot
      take_show_slot-Justified ttl s (raised m) a same carry g = (λ x. g, refl)
      take_show_slot-Justified ttl s (replied _) a same carry g =
          show_with_bulkhead-Justified ttl s w.fetch refl a same carry g

      limit_show-Justified :
          (ttl : ℕ) (s : Server p) (o : Option (DeviceRateLimiter × Bool))
          → o ≢ none
          → IsAccounted p s.command_cache
          → s.cache_stale_if_error_ttl ≡ st
          → Carried w key c s.command_cache
          → G
          → Justified G (limit_show w key ttl s o)
      unfolding limit_show
      limit_show-Justified ttl s none h a same carry g = h refl
      limit_show-Justified ttl s (some (devices', got)) h a same carry g =
          if_split (Justified G) got
            (λ e.
              take_show_slot-Justified ttl (record s { devices = devices' }) w.world.slot a same
                carry g)
            (λ e. (λ x. g, refl))

    pass_show_circuit-Justified :
        (ttl : ℕ) (s : Server p)
        → IsAccounted p s.command_cache
        → s.cache_stale_if_error_ttl ≡ st
        → Carried w key c s.command_cache
        → Justified
            ((Registry.allow_request w.world.now key.host s.breakers).1 ≡ true)
            (pass_show_circuit w key ttl s)
    unfolding pass_show_circuit
    pass_show_circuit-Justified ttl s a same carry =
        let G = (Registry.allow_request w.world.now key.host s.breakers).1 ≡ true in
        let s' : Server p = record s {
          breakers = (Registry.allow_request w.world.now key.host s.breakers).0;
        } in
        if_split (Justified G) (Registry.allow_request w.world.now key.host s.breakers).1
          (λ e.
            limit_show-Justified G ttl s' _ (show_limit_ends w.world key.host s') a same carry e)
          (λ e.
            try_stale-Justified G ttl w.world.now _ false s' (inl refl) same carry
              (λ x. absurd (cc x)) refl)

    limit_show_caller-Justified :
        (ttl : ℕ) (x : Server p × Option Outcome)
        → IsAccounted p x.0.command_cache
        → x.0.cache_stale_if_error_ttl ≡ st
        → Carried w key c x.0.command_cache
        → Justified
            ((Registry.allow_request w.world.now key.host x.0.breakers).1 ≡ true)
            (limit_show_caller w key ttl x)
    unfolding limit_show_caller
    limit_show_caller-Justified ttl (s, none) a same carry =
        pass_show_circuit-Justified ttl s a same carry
    limit_show_caller-Justified ttl (s, some error) a same carry = (λ x. absurd (cc x), refl)

    pub after_lookup-Justified :
        (ctx : Context) (ttl : ℕ) (s : Server p)
        (x : CommandCache p × Option (CommandCache.Reply p))
        → ((r : CommandCache.Reply p) → x.1 ≡ some r → FromFresh w key c r)
        → IsAccounted p x.0
        → s.cache_stale_if_error_ttl ≡ st
        → Carried w key c x.0
        → Justified
            (((Registry.allow_request w.world.now key.host s.breakers).1 ≡ true) × (x.1 ≡ none))
            (after_lookup w ctx key ttl s x)
    unfolding after_lookup
    after_lookup-Justified ctx ttl s (d, some r) h a same carry =
        (λ e. absurd (cc e), (h r refl, refl))
    after_lookup-Justified ctx ttl s (d, none) h a same carry =
        let s' : Server p = record s { command_cache = d } in
        let x = check_user_tenant_rate_limit w.world ctx s' in
        let kept = check_user_tenant_rate_limit-Same w.world ctx s' in
        Justified-map _ _
          (λ g. (
            subst (λ b. (Registry.allow_request w.world.now key.host b).1 ≡ true) kept.breakers g,
            refl,
          ))
          (limit_show_caller w key ttl x)
          (limit_show_caller-Justified ttl x (subst⁻¹ (IsAccounted p) kept.command_cache a)
            (kept.stale_ttl ∙ same) (subst⁻¹ (Carried w key c) kept.command_cache carry))
