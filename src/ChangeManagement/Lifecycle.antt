-- ===== src/ChangeManagement/Lifecycle.antt =====
-- The requests of a manager over its operations: an object, its id and the two dicts.
pub mod Invariant
pub mod Keeps
pub mod Final
use network_mcp.Base.{◌≡◌, ◌⊎◌, ℕ, ◌<◌, Bool, String, str_discrete, Option, none, some, List, Time}
use network_mcp.Dict
use network_mcp.ChangeManagement.{
  ChangeStatus, ChangeRequest, ChangeManager, Ref, pending, approved, executing, completed, failed,
  rolled_back, add_request, approve_change,
}
use network_mcp.ChangeManagement.Marks.{
  Reply, mark_executing, mark_completed, mark_failed, capture_pre_snapshot, capture_post_snapshot,
}
use network_mcp.ChangeManagement.Rollback.{rollback}

abbrev pub pending_at : String → ChangeManager → Option Ref
pending_at k m = Dict.get str_discrete k m.pending_requests

abbrev pub completed_at : String → ChangeManager → Option Ref
completed_at k m = Dict.get str_discrete k m.completed_requests

-- The object stands under its id in one of the dicts.
abbrev pub Known : ChangeManager → Ref → Type 0
Known m r = (pending_at (m.heap r).id m ≡ some r) ⊎ (completed_at (m.heap r).id m ≡ some r)

-- One operation. A new request has an id that no dict has (a uuid), and a change is executed only
-- while it is approved and stands among the pending ones, as run_config_command does.
module _ (splitlines : String → List String)
    (unified_diff : List String → List String → List String) where
  pub data Step : ChangeManager → ChangeManager → Type 0 where
    create :
        (m : ChangeManager) (cr : ChangeRequest)
        → cr.status ≡ pending
        → pending_at cr.id m ≡ none
        → completed_at cr.id m ≡ none
        → Step m (add_request cr m).0
    approve :
        (m : ChangeManager) (now : Time) (change_id approved_by reason : String)
        → Step m (approve_change now change_id approved_by reason m).0
    execute :
        (m : ChangeManager) (now : Time) (r : Ref)
        → pending_at (m.heap r).id m ≡ some r
        → (m.heap r).status ≡ approved
        → Step m (mark_executing now r m)
    complete :
        (m : ChangeManager) (now : Time) (r : Ref) → Known m r → Step m (mark_completed now r m)
    fail :
        (m : ChangeManager) (now : Time) (r : Ref) (error : String)
        → Known m r
        → Step m (mark_failed now r error m)
    before :
        (m : ChangeManager) (r : Ref) (reply : Reply String)
        → Known m r
        → Step m (capture_pre_snapshot r reply m)
    after :
        (m : ChangeManager) (r : Ref) (reply : Reply String)
        → Known m r
        → Step m (capture_post_snapshot r reply m)
    roll_back :
        (m : ChangeManager) (now : Time) (r : Ref) (config_reply : Reply (Unit {0}))
        (show_reply : Reply String)
        → Known m r
        → Step m (rollback splitlines unified_diff now r config_reply show_reply m).0

  pub data Reach (m : ChangeManager) : ChangeManager → Type 0 where
    here : Reach m m
    next : {n o : ChangeManager} → Reach m n → Step n o → Reach m o

-- a status that a change ends with
abbrev pub IsFinal : ChangeStatus → Type 0
IsFinal pending = ⊥
IsFinal approved = ⊥
IsFinal executing = ⊥
IsFinal completed = Unit
IsFinal failed = Unit
IsFinal rolled_back = Unit
