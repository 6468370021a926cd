-- ===== src/RunShow/Ends.antt =====
-- The steps of a show command that end: a backoff, and a write into the cache.
use network_mcp.Base.{
  ◌≡◌, ◌≢◌, refl, inl, inr, ℕ, suc, ◌<◌, Bool, false, ltb, String, Option, none, some, Time, length,
  Bool-cases, if_split, arith,
}
use network_mcp.RateLimiter.{BackoffState}
use network_mcp.RateLimiter.Limiters.{DeviceRateLimiter, check_show_with_backoff, put_show}
use network_mcp.RateLimiter.Backoff.{InTime, acquire_with_backoff-InTime}
use network_mcp.CommandCache.{Payload, CacheKey, CommandCache, put}
use network_mcp.CommandCache.Put.{IsAccounted, put_stores}
use network_mcp.RunConfig.{Server, World}
use network_mcp.RunShow.Run.{populate, check_show_limit}

put_show_some :
    (start max_wait : Time) (host : String) (l : DeviceRateLimiter)
    (o : Option (BackoffState × Bool))
    → InTime start max_wait o
    → put_show host l o ≢ none
unfolding put_show
put_show_some start max_wait host l none h e = h
put_show_some start max_wait host l (some (b, got)) h e = cc e

pub show_limit_ends :
    {p : Payload} (w : World) (host : String) (s : Server p) → check_show_limit w host s ≢ none
unfolding check_show_limit check_show_with_backoff
show_limit_ends w host s =
    if_split (λ (o : Option (DeviceRateLimiter × Bool)). o ≢ none) (ltb 0 s.rate_limit_max_wait)
      (λ h. put_show_some w.now s.rate_limit_max_wait host _ _ (
        acquire_with_backoff-InTime _ w.late w.now w.one_token s.rate_limit_max_wait _
          (omega arith)))
      (λ h e. cc e)

module _ {p : Payload} where
  put_disabled :
      (key : CacheKey) (v : p.Value) (ttl : ℕ) (now : Time) (c : CommandCache p)
      → c.enabled ≡ false
      → put p (suc (length c.entries)) key v ttl now c ≡ some c
  unfolding put
  put_disabled key v ttl now c off = rw off refl

  put_ends :
      (key : CacheKey) (v : p.Value) (ttl : ℕ) (now : Time) (c : CommandCache p)
      → IsAccounted p c
      → 0 < ttl
      → put p (suc (length c.entries)) key v ttl now c ≢ none
  put_ends key v ttl now c a t h = elim (Bool-cases c.enabled) [
    | inl on ↦
        let (c', e, _) =
          put_stores p (suc (length c.entries)) key v ttl now c a on t (omega arith) in
        absurd (cc (e, h))
    | inr off ↦ absurd (cc (h, put_disabled key v ttl now c off))
  ]

  pub populate_ends :
      (now : Time) (key : CacheKey) (ttl : ℕ) (v : p.Value) (s : Server p)
      → IsAccounted p s.command_cache
      → populate now key ttl v s ≢ none
  unfolding populate
  populate_ends now key ttl v s a =
      if_split (λ (o : Option (CommandCache p)). o ≢ none) (ltb 0 ttl)
        (λ h. put_ends key v ttl now s.command_cache a (ground arith)) (λ h e. cc e)
