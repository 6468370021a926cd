-- ===== src/ChangeManagement/Lifecycle/Final.antt =====
-- The operations of a manager, and the requests that are archived.
use network_mcp.Base.{◌≡◌, refl, String, none, some, List, Time, if_split}
use network_mcp.ChangeManagement.{
  ChangeRequest, ChangeManager, Ref, rolled_back, update, approve_change,
}
use network_mcp.ChangeManagement.Marks.{
  Reply, raised, replied, archive, log, mark_executing, mark_completed, mark_failed,
  capture_pre_snapshot, capture_post_snapshot,
}
use network_mcp.ChangeManagement.Rollback.{rollback, apply_rollback, no_commands, RollbackResult}
use network_mcp.ChangeManagement.Lifecycle.{
  pending_at, completed_at, Known, IsFinal, Step, Reach, create, approve, execute, complete, fail,
  before, after, roll_back, here, next,
}
use network_mcp.ChangeManagement.Lifecycle.Invariant.{Inv}
use network_mcp.ChangeManagement.Lifecycle.Keeps.{
  Keeps, update-Keeps, close-Keeps, create-Keeps, pending_not_archived, approve-Keeps,
  archived_facts, capture-Keeps,
}

module _ (splitlines : String → List String)
    (unified_diff : List String → List String → List String) where
  apply-Keeps :
      (m : ChangeManager) (now : Time) (r : Ref) (config_reply : Reply (Unit {0}))
      (show_reply : Reply String)
      → Known m r
      → Inv m
      → Keeps m (apply_rollback splitlines unified_diff now r config_reply show_reply m).0
  unfolding apply_rollback log
  apply-Keeps m now r (raised error) show_reply known inv = update-Keeps m r _ refl (λ e. tt) inv
  apply-Keeps m now r (replied _) show_reply known inv =
      let cr : ChangeRequest = record (m.heap r) { status = rolled_back } in
      let closed = close-Keeps m r cr refl tt known inv in
      let logged =
        capture-Keeps (archive r (update r cr m)) r (log now _ ((archive r (update r cr m)).heap r))
          refl refl closed.inv in
      record { inv = logged.inv; stays = λ k q e. logged.stays k q (closed.stays k q e) }

  rollback-Keeps :
      (m : ChangeManager) (now : Time) (r : Ref) (config_reply : Reply (Unit {0}))
      (show_reply : Reply String)
      → Known m r
      → Inv m
      → Keeps m (rollback splitlines unified_diff now r config_reply show_reply m).0
  unfolding rollback log
  rollback-Keeps m now r config_reply show_reply known inv =
      if_split (λ (x : ChangeManager × RollbackResult). Keeps m x.0)
        (no_commands splitlines unified_diff (m.heap r).rollback_commands)
        (λ h. update-Keeps m r _ refl (λ e. tt) inv)
        (λ h. apply-Keeps m now r config_reply show_reply known inv)

  Step-Keeps : {m n : ChangeManager} → Step splitlines unified_diff m n → Inv m → Keeps m n
  Step-Keeps (create m cr s p c) inv = create-Keeps m cr c inv
  Step-Keeps (approve m now change_id approved_by reason) inv =
      unfold approve_change in approve-Keeps m now change_id approved_by reason _ refl inv
  Step-Keeps (execute m now r p a) inv =
      unfold mark_executing in
      unfold log in update-Keeps m r _ refl (λ e. absurd (pending_not_archived m _ r p inv e)) inv
  Step-Keeps (complete m now r known) inv =
      unfold mark_completed in unfold log in close-Keeps m r _ refl tt known inv
  Step-Keeps (fail m now r error known) inv =
      unfold mark_failed in unfold log in close-Keeps m r _ refl tt known inv
  Step-Keeps (before m r reply known) inv =
      unfold capture_pre_snapshot in capture-Keeps m r _ refl refl inv
  Step-Keeps (after m r reply known) inv =
      unfold capture_post_snapshot in capture-Keeps m r _ refl refl inv
  Step-Keeps (roll_back m now r config_reply show_reply known) inv =
      rollback-Keeps m now r config_reply show_reply known inv

  -- From a manager that keeps the invariant, however its operations follow one another, the invariant
  -- is kept, and a request that is archived stays archived under its id, as the same object, with a
  -- final status: it is never approved, executed or pending again.
  pub Reach-IsFinal :
      {m n : ChangeManager}
      → Reach splitlines unified_diff m n
      → Inv m
      → Inv n
        × ((k : String) (q : Ref)
            → completed_at k m ≡ some q
            → (completed_at k n ≡ some q) × (pending_at k n ≡ none) × IsFinal (n.heap q).status)
  Reach-IsFinal here inv = (inv, λ k q e. archived_facts _ k q e inv)
  Reach-IsFinal (next {n} r s) inv =
      let (inv', before_it) = Reach-IsFinal r inv in
      let step = Step-Keeps s inv' in
      (step.inv, λ k q e. archived_facts _ k q (step.stays k q (before_it k q e).0) step.inv)
