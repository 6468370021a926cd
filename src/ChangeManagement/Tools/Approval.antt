-- ===== src/ChangeManagement/Tools/Approval.antt =====
-- What the tools do to a request that waits for approval.
use network_mcp.Base.{
  ◌≡◌, refl, ap, ◌∙◌, true, false, String, str_discrete, Option, none, some, Time, if_split,
}
use mathlib.Core.Path.{subst⁻¹}
use network_mcp.Dict
use network_mcp.ChangeManagement.{
  ChangeRequest, ChangeManager, Ref, is_pending, approve_ref, approve_change, update,
}
use network_mcp.ChangeManagement.Lifecycle.Keeps.{heap-update_self}
use network_mcp.ChangeManagement.Tools.{
  not_found_or_not_pending, reply_approved, net_approve_change,
}

-- A request that is not pending is not approved.
approve_ref_refused :
    (now : Time) (u a : String) (m : ChangeManager) (r : Ref)
    → is_pending (m.heap r).status ≡ false
    → approve_ref now u a m (some r) ≡ (m, none)
unfolding approve_ref
approve_ref_refused now u a m r h = rw h refl

-- After an approval the request is not pending, and stands where it stood.
approve_ref_pending :
    (now : Time) (u a : String) (m : ChangeManager) (r : Ref)
    → is_pending ((approve_ref now u a m (some r)).0.heap r).status ≡ false
unfolding approve_ref
approve_ref_pending now u a m r =
    if_split (λ (x : ChangeManager × Option Ref). is_pending (x.0.heap r).status ≡ false)
      (is_pending (m.heap r).status)
      (λ h.
        subst⁻¹ (λ (c : ChangeRequest). is_pending c.status ≡ false) (heap-update_self m r _)
          (unfold is_pending in refl))
      (λ h. h)

approve_ref_same :
    (now : Time) (u a : String) (m : ChangeManager) (o : Option Ref)
    → ((approve_ref now u a m o).0.pending_requests ≡ m.pending_requests)
      × ((approve_ref now u a m o).0.enabled ≡ m.enabled)
unfolding approve_ref update
approve_ref_same now u a m none = (refl, refl)
approve_ref_same now u a m (some r) =
    if_split
      (λ (x : ChangeManager × Option Ref).
        (x.0.pending_requests ≡ m.pending_requests) × (x.0.enabled ≡ m.enabled))
      (is_pending (m.heap r).status) (λ h. (refl, refl)) (λ h. (refl, refl))

approve_ref_again :
    (now later : Time) (u v a b : String) (m : ChangeManager) (o : Option Ref)
    → approve_ref later v b (approve_ref now u a m o).0 o ≡ ((approve_ref now u a m o).0, none)
approve_ref_again now later u v a b m none = unfold approve_ref in refl
approve_ref_again now later u v a b m (some r) =
    approve_ref_refused later v b _ r (approve_ref_pending now u a m r)

approve_change_again :
    (now later : Time) (id u v a b : String) (m : ChangeManager)
    → approve_change later id v b (approve_change now id u a m).0
      ≡ ((approve_change now id u a m).0, none)
unfolding approve_change
approve_change_again now later id u v a b m =
    let o = Dict.get str_discrete id m.pending_requests in
    ap (λ d. approve_ref later v b (approve_ref now u a m o).0 (Dict.get str_discrete id d))
      (approve_ref_same now u a m o).0
    ∙ approve_ref_again now later u v a b m o

reply_approved_manager :
    (id u : String) (x : ChangeManager × Option Ref) → (reply_approved id u x).0 ≡ x.0
unfolding reply_approved
reply_approved_manager id u (m, none) = refl
reply_approved_manager id u (m, some r) = refl

enabled_approve :
    (now : Time) (id u a : String) (m : ChangeManager)
    → m.enabled ≡ true
    → net_approve_change now id u a m ≡ reply_approved id u (approve_change now id u a m)
unfolding net_approve_change
enabled_approve now id u a m on = rw on refl

approved_manager :
    (now : Time) (id u a : String) (m : ChangeManager)
    → m.enabled ≡ true
    → (net_approve_change now id u a m).0 ≡ (approve_change now id u a m).0
approved_manager now id u a m on =
    ap (λ x. x.0) (enabled_approve now id u a m on) ∙ reply_approved_manager id u _

approved_enabled :
    (now : Time) (id u a : String) (m : ChangeManager)
    → (approve_change now id u a m).0.enabled ≡ m.enabled
unfolding approve_change
approved_enabled now id u a m = (approve_ref_same now u a m _).1

-- A request is approved once: of two approvals of an id, whatever the first one did, the second changes
-- nothing and says that there is no pending request.
pub net_approve_change_once :
    (now later : Time) (id u v a b : String) (m : ChangeManager)
    → m.enabled ≡ true
    → net_approve_change later id v b (net_approve_change now id u a m).0
      ≡ ((net_approve_change now id u a m).0, not_found_or_not_pending id)
net_approve_change_once now later id u v a b m on =
    subst⁻¹ (λ n. net_approve_change later id v b n ≡ (n, not_found_or_not_pending id))
      (approved_manager now id u a m on)
      (enabled_approve later id v b _ (approved_enabled now id u a m ∙ on)
        ∙ ap (reply_approved id v) (approve_change_again now later id u v a b m)
        ∙ (unfold reply_approved in refl))
