-- ===== src/RunConfig/Attempts.antt =====
-- What has to hold before a device sees the commands of a request.
use network_mcp.Base.{
  ◌≡◌, refl, sym, ap, Bool, true, false, not, String, Option, none, some, List, [], ◌∷◌, Bool-cases,
  if_split, if◌then◌else◌, inl, inr,
}
use network_mcp.Base.{true_of}
use mathlib.Core.Path.{subst}
use network_mcp.CircuitBreaker.Registry
use network_mcp.CommandCache.{Payload}
use network_mcp.ChangeManagement
use network_mcp.ChangeManagement.{
  ChangeRequest, ChangeManager, ChangeRisk, Ref, low, is_low, is_pending, add_request, auto_approve,
  new_request, update,
}
use network_mcp.ChangeManagement.Risk.{assess_risk, create_change_request}
use network_mcp.ChangeManagement.Windows.{check_maintenance_window}
use network_mcp.ChangeManagement.Marks.{capture_pre_snapshot, mark_executing}
use network_mcp.ChangeManagement.Lifecycle.Keeps.{heap-update_self}
use network_mcp.RunConfig.{Library, Server, Context, World, Request, Outcome}
use network_mcp.RunConfig.Checks.{
  validate_host, check_tenant_device_access, validate_config_commands, check_user_tenant_rate_limit,
}
use network_mcp.RunConfig.Limited.{check_user_tenant_rate_limit-Same}
use network_mcp.RunConfig.Run.{
  Done, pass_circuit, limit_caller, pass_limits, gate_change, manage_change, reject_denied,
  run_config_inner,
}

-- The server's checks of a request, at the time of the request.
pub record Allowed {p : Payload} (py : Library) (w : World) (ctx : Context) (request : Request)
    (s : Server p) : Type 0 where
  pub writable : s.net_read_only ≡ false
  pub valid_host : validate_host py request.host ≡ true
  pub in_tenant : check_tenant_device_access py ctx request.host ≡ true
  pub not_denied : validate_config_commands py request.commands ≡ none
  pub no_approval : s.manager.require_approval ≡ false
  pub low_risk : is_low (assess_risk py.lower request.action request.commands) ≡ true
  pub in_window : check_maintenance_window s.windows w.week_day w.time_of_day ≡ true
  pub circuit : (Registry.allow_request w.now request.host s.breakers).1 ≡ true

-- G holds if the request has sent anything.
abbrev Guarded : {p : Payload} → Type 0 → Option (Done p) → Type 0
Guarded G none = Unit
Guarded G (some (s, o, [])) = Unit
Guarded G (some (s, o, c ∷ cs)) = G

module _ {p : Payload} where
  guard_any : (G : Type 0) → G → (d : Option (Done p)) → Guarded G d
  guard_any G g none = tt
  guard_any G g (some (s, o, [])) = tt
  guard_any G g (some (s, o, c ∷ cs)) = g

  guard_map : (G H : Type 0) → (G → H) → (d : Option (Done p)) → Guarded G d → Guarded H d
  guard_map G H f none g = tt
  guard_map G H f (some (s, o, [])) g = tt
  guard_map G H f (some (s, o, c ∷ cs)) g = f g

  limit_caller-Guarded :
      (py : Library) (w : World) (host : String) (commands : List String) (cr : Option Ref)
      (x : Server p × Option Outcome)
      → Guarded
          ((Registry.allow_request w.now host x.0.breakers).1 ≡ true)
          (limit_caller py w host commands cr x)
  unfolding limit_caller pass_circuit
  limit_caller-Guarded py w host commands cr (s, none) =
      if_split (Guarded ((Registry.allow_request w.now host s.breakers).1 ≡ true))
        (Registry.allow_request w.now host s.breakers).1 (λ e. guard_any _ e _) (λ e. tt)
  limit_caller-Guarded py w host commands cr (s, some error) = tt

auto_approved :
    (b : Bool) (cr : ChangeRequest)
    → cr.status ≡ ChangeManagement.pending
    → is_pending (auto_approve b cr).status ≡ false
    → (b ≡ false) × (is_low cr.risk ≡ true)
unfolding auto_approve is_pending
auto_approved true cr e h = absurd (cc (ap is_pending e, h))
auto_approved false cr e h = elim (Bool-cases (is_low cr.risk)) [
  | inl y ↦ (refl, y)
  | inr n ↦ absurd (
      cc (
        ap is_pending e,
        sym (ap (λ b. is_pending (if b then ChangeManagement.approved else cr.status)) n),
      ))
]

-- A request that is not pending was approved when it was made.
created_approved :
    (m : ChangeManager) (cr : ChangeRequest)
    → cr.status ≡ ChangeManagement.pending
    → is_pending ((add_request cr m).0.heap m.next_ref).status ≡ false
    → (m.require_approval ≡ false) × (is_low cr.risk ≡ true)
unfolding add_request
created_approved m cr e h = auto_approved m.require_approval cr e (
    subst (λ (c : ChangeRequest). is_pending c.status ≡ false)
      (heap-update_self m m.next_ref (auto_approve m.require_approval cr)) h)

module _ {p : Payload} (py : Library) (w : World) (ctx : Context) (request : Request)
    (s : Server p) where
  gate_change-Guarded :
      s.net_read_only ≡ false
      → validate_host py request.host ≡ true
      → check_tenant_device_access py ctx request.host ≡ true
      → validate_config_commands py request.commands ≡ none
      → (m : ChangeManager) (r : Ref)
      → (is_pending (m.heap r).status ≡ false
          → (s.manager.require_approval ≡ false)
            × (is_low (assess_risk py.lower request.action request.commands) ≡ true))
      → Guarded
          (Allowed py w ctx request s)
          (gate_change py w ctx request.host request.commands s (m, r))
  unfolding gate_change pass_limits
  gate_change-Guarded a b c d m r approved =
      let before = capture_pre_snapshot r w.pre_config m in
      let s' : Server p = record s { manager = mark_executing w.now r before } in
      let limited = check_user_tenant_rate_limit w ctx s' in
      if_split (Guarded (Allowed py w ctx request s))
        (not (check_maintenance_window s.windows w.week_day w.time_of_day)) (λ e. tt)
        (λ e.
          if_split (Guarded (Allowed py w ctx request s)) (is_pending (m.heap r).status) (λ q. tt)
            (λ q.
              guard_map ((Registry.allow_request w.now request.host limited.0.breakers).1 ≡ true)
                (Allowed py w ctx request s)
                (λ circuit. record {
                  writable = a;
                  valid_host = b;
                  in_tenant = c;
                  not_denied = d;
                  no_approval = (approved q).0;
                  low_risk = (approved q).1;
                  in_window = true_of _ e;
                  circuit =
                      subst (λ x. (Registry.allow_request w.now request.host x).1 ≡ true)
                        (check_user_tenant_rate_limit-Same w ctx s').breakers circuit;
                })
                _ (limit_caller-Guarded py w request.host request.commands (some r) limited)))

  reject_denied-Guarded :
      s.manager.enabled ≡ true
      → s.net_read_only ≡ false
      → validate_host py request.host ≡ true
      → check_tenant_device_access py ctx request.host ≡ true
      → (o : Option String) → validate_config_commands py request.commands ≡ o
      → Guarded (Allowed py w ctx request s) (reject_denied py w ctx request s o)
  unfolding reject_denied manage_change create_change_request add_request
  reject_denied-Guarded on a b c (some cmd) d = tt
  reject_denied-Guarded on a b c none d =
      if_split (Guarded (Allowed py w ctx request s)) s.manager.enabled
        (λ e.
          gate_change-Guarded a b c d _ _ (unfold add_request in created_approved s.manager _ refl))
        (λ e. absurd (cc (on, e)))

  run_config_inner-Guarded :
      s.manager.enabled ≡ true
      → Guarded (Allowed py w ctx request s) (run_config_inner py w ctx request s)
  unfolding run_config_inner
  run_config_inner-Guarded on =
      if_split (Guarded (Allowed py w ctx request s)) s.net_read_only (λ e. tt)
        (λ a.
          if_split (Guarded (Allowed py w ctx request s)) (not (validate_host py request.host))
            (λ e. tt)
            (λ b.
              if_split (Guarded (Allowed py w ctx request s))
                (not (check_tenant_device_access py ctx request.host)) (λ e. tt)
                (λ c. reject_denied-Guarded on a (true_of _ b) (true_of _ c) _ refl)))

  -- With change management enabled, a device sees commands of a request only if the server is not read
  -- only, the host is valid and the tenant's, no command is denied, the time is in a maintenance window,
  -- the host's circuit lets the request through, the change has low risk, and the manager requires no
  -- approval. What was approved before has no part in it.
  pub run_config_inner-Allowed :
      (s' : Server p) (o : Outcome) (c : List String) (cs : List (List String))
      → s.manager.enabled ≡ true
      → run_config_inner py w ctx request s ≡ some (s', o, c ∷ cs)
      → Allowed py w ctx request s
  run_config_inner-Allowed s' o c cs on e =
      subst (Guarded (Allowed py w ctx request s)) e (run_config_inner-Guarded on)
