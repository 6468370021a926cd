-- ===== src/RunConfig/Ends.antt =====
-- The ends of a change in a manager, and of the backoff before it.
use network_mcp.Base.{◌≢◌, Bool, ltb, String, Option, none, some, List, arith, if_split, Time}
use mathlib.Core.Path.{subst⁻¹}
use network_mcp.RateLimiter.Limiters.{DeviceRateLimiter, check_config_with_backoff, put_config}
use network_mcp.RateLimiter.{BackoffState}
use network_mcp.RateLimiter.Backoff.{InTime, acquire_with_backoff-InTime}
use network_mcp.CommandCache.{Payload}
use network_mcp.ChangeManagement.{
  ChangeRequest, ChangeManager, Ref, ChangeStatus, update, rolled_back,
}
use network_mcp.ChangeManagement.Lifecycle.{IsFinal}
use network_mcp.ChangeManagement.Lifecycle.Keeps.{heap-update_self}
use network_mcp.ChangeManagement.Marks.{
  Reply, replied, raised, mark_failed, mark_completed, archive, log,
}
use network_mcp.ChangeManagement.Rollback.{rollback, apply_rollback, RollbackResult, no_commands}
use network_mcp.RunConfig.{Server, World}
use network_mcp.RunConfig.Run.{check_device_limit}

-- a request's status in a manager
abbrev pub status_of : ChangeManager → Ref → ChangeStatus
status_of m r = (m.heap r).status

update-IsFinal :
    (m : ChangeManager) (r : Ref) (cr : ChangeRequest)
    → IsFinal cr.status
    → IsFinal (status_of (update r cr m) r)
update-IsFinal m r cr h =
    subst⁻¹ (λ (c : ChangeRequest). IsFinal c.status) (heap-update_self m r cr) h

pub mark_failed-IsFinal :
    (now : Time) (r : Ref) (e : String) (m : ChangeManager)
    → IsFinal (status_of (mark_failed now r e m) r)
unfolding mark_failed archive log
mark_failed-IsFinal now r e m = update-IsFinal m r _ tt

pub mark_completed-IsFinal :
    (now : Time) (r : Ref) (m : ChangeManager) → IsFinal (status_of (mark_completed now r m) r)
unfolding mark_completed archive log
mark_completed-IsFinal now r m = update-IsFinal m r _ tt

module _ (f : String → List String) (g : List String → List String → List String) where
  apply_rollback-IsFinal :
      (now : Time) (r : Ref) (x : Reply (Unit {0})) (y : Reply String) (m : ChangeManager)
      → IsFinal (status_of (apply_rollback f g now r x y m).0 r)
  unfolding apply_rollback archive log
  apply_rollback-IsFinal now r (raised e) y m = update-IsFinal m r _ tt
  apply_rollback-IsFinal now r (replied _) y m =
      let cr : ChangeRequest = record (m.heap r) { status = rolled_back } in
      update-IsFinal (archive r (update r cr m)) r _ (update-IsFinal m r cr tt)

  pub rollback-IsFinal :
      (now : Time) (r : Ref) (x : Reply (Unit {0})) (y : Reply String) (m : ChangeManager)
      → IsFinal (status_of (rollback f g now r x y m).0 r)
  unfolding rollback log
  rollback-IsFinal now r x y m =
      if_split (λ (q : ChangeManager × RollbackResult). IsFinal (status_of q.0 r))
        (no_commands f g (m.heap r).rollback_commands) (λ h. update-IsFinal m r _ tt)
        (λ h. apply_rollback-IsFinal now r x y m)

put_some :
    (start max_wait : Time) (host : String) (l : DeviceRateLimiter)
    (o : Option (BackoffState × Bool))
    → InTime start max_wait o
    → put_config host l o ≢ none
unfolding put_config
put_some start max_wait host l none h e = h
put_some start max_wait host l (some (b, got)) h e = cc e

-- A backoff with fuel above its longest wait returns.
pub device_limit-returns :
    {p : Payload} (w : World) (host : String) (s : Server p) → check_device_limit w host s ≢ none
unfolding check_device_limit check_config_with_backoff
device_limit-returns w host s =
    if_split (λ (o : Option (DeviceRateLimiter × Bool)). o ≢ none) (ltb 0 s.rate_limit_max_wait)
      (λ h. put_some w.now s.rate_limit_max_wait host _ _ (
        acquire_with_backoff-InTime _ w.late w.now w.one_token s.rate_limit_max_wait _
          (omega arith)))
      (λ h e. cc e)
