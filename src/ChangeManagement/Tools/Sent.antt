-- ===== src/ChangeManagement/Tools/Sent.antt =====
-- What net_rollback_change sends to the device.
use network_mcp.Base.{◌≡◌, refl, ap, ◌∙◌, true, String, str_discrete, none, some, List, ◌∷◌, Time}
use mathlib.Core.Path.{subst, subst⁻¹}
use network_mcp.Dict.Laws.{get-put_self, get-del_self}
use network_mcp.ChangeManagement.{
  ChangeRequest, ChangeManager, Ref, rolled_back, update, get_change_request,
}
use network_mcp.ChangeManagement.Marks.{Reply, replied, archive, log}
use network_mcp.ChangeManagement.Rollback.{
  rollback, apply_rollback, applied, not_applied, nothing_to_apply, no_commands, RollbackResult,
}
use network_mcp.ChangeManagement.Lifecycle.{pending_at, completed_at}
use network_mcp.ChangeManagement.Lifecycle.Invariant.{id-update}
use network_mcp.ChangeManagement.Lifecycle.Keeps.{heap-update_self}
use network_mcp.ChangeManagement.Tools.{
  ToolResult, not_enabled, not_found, not_found_or_not_pending, listed, shown, approved_as,
  rolled_back_to, net_rollback_change, rollback_found,
}

-- The tool says that it applied these commands.
abbrev pub Applied : List String → ToolResult → Type 0
Applied commands (rolled_back_to (applied sent v)) = sent ≡ commands
Applied commands (rolled_back_to nothing_to_apply) = ⊥
Applied commands (rolled_back_to (not_applied error)) = ⊥
Applied commands not_enabled = ⊥
Applied commands (not_found i) = ⊥
Applied commands (not_found_or_not_pending i) = ⊥
Applied commands (listed rs) = ⊥
Applied commands (shown r) = ⊥
Applied commands (approved_as i u k) = ⊥

archived_places :
    (m : ChangeManager) (r : Ref) (k : String)
    → (m.heap r).id ≡ k
    → (completed_at k (archive r m) ≡ some r) × (pending_at k (archive r m) ≡ none)
unfolding archive
archived_places m r k h =
    subst (λ j. (completed_at j (archive r m) ≡ some r) × (pending_at j (archive r m) ≡ none)) h
      (
        get-put_self str_discrete (m.heap r).id r m.completed_requests,
        get-del_self str_discrete (m.heap r).id m.pending_requests,
      )

-- The request under k is rolled back and archived.
abbrev pub RolledBack : String → Ref → ChangeManager → Type 0
RolledBack k r m =
    (completed_at k m ≡ some r) × (pending_at k m ≡ none) × ((m.heap r).status ≡ rolled_back)

module _ (splitlines : String → List String)
    (unified_diff : List String → List String → List String) where
  apply_rollback-RolledBack :
      (now : Time) (r : Ref) (show_reply : Reply String) (m : ChangeManager) (k : String)
      → (m.heap r).id ≡ k
      → RolledBack k r (apply_rollback splitlines unified_diff now r (replied tt) show_reply m).0
  unfolding apply_rollback log update
  apply_rollback-RolledBack now r show_reply m k h =
      let cr : ChangeRequest = record (m.heap r) { status = rolled_back } in
      let (c, p) = archived_places (update r cr m) r k (id-update m r cr r refl ∙ h) in
      (
        c,
        p,
        ap (λ (x : ChangeRequest). x.status) (heap-update_self (archive r (update r cr m)) r _)
            ∙ ap (λ (x : ChangeRequest). x.status) (heap-update_self m r cr),
      )

  rollback_accepted :
      (now : Time) (r : Ref) (show_reply : Reply String) (m : ChangeManager) (c : String)
      (cs : List String)
      → (m.heap r).rollback_commands ≡ c ∷ cs
      → rollback splitlines unified_diff now r (replied tt) show_reply m
        ≡ apply_rollback splitlines unified_diff now r (replied tt) show_reply m
  unfolding rollback no_commands
  rollback_accepted now r show_reply m c cs h = rw h refl

  enabled_rollback :
      (now : Time) (k : String) (show_reply : Reply String) (m : ChangeManager) (r : Ref)
      → m.enabled ≡ true
      → get_change_request k m ≡ some r
      → net_rollback_change splitlines unified_diff now k (replied tt) show_reply m
        ≡ rollback_found splitlines unified_diff now k (replied tt) show_reply m (some r)
  unfolding net_rollback_change
  enabled_rollback now k show_reply m r on h = rw h (rw on refl)

  -- For a request that the manager finds under its id and that has rollback commands, whatever its status
  -- is, on a device that accepts them: the tool sends those commands to the device, and the request is
  -- rolled back, archived and no longer pending.
  pub net_rollback_change_lem :
      (now : Time) (k : String) (show_reply : Reply String) (m : ChangeManager) (r : Ref)
      (c : String) (cs : List String)
      → m.enabled ≡ true
      → get_change_request k m ≡ some r
      → (m.heap r).id ≡ k
      → (m.heap r).rollback_commands ≡ c ∷ cs
      → let (m', result) =
          net_rollback_change splitlines unified_diff now k (replied tt) show_reply m in
        Applied (c ∷ cs) result × RolledBack k r m'
  unfolding rollback_found
  net_rollback_change_lem now k show_reply m r c cs on found same sent =
      subst⁻¹ (λ (x : ChangeManager × ToolResult). Applied (c ∷ cs) x.1 × RolledBack k r x.0)
        (enabled_rollback now k show_reply m r on found)
        (subst⁻¹
          (λ (x : ChangeManager × RollbackResult).
            Applied (c ∷ cs) (rolled_back_to x.1) × RolledBack k r x.0)
          (rollback_accepted now r show_reply m c cs sent)
          (unfold apply_rollback in sent, apply_rollback-RolledBack now r show_reply m k same))
