-- ===== src/ChangeManagement/Tools.antt =====
-- The change tools of src/network_mcp/tools/common/changes.py over the manager. A tool's dict is a value
-- with what it names; to_dict of a request is the request.
pub mod Approval
pub mod Sent
use network_mcp.Base.{ℕ, String, Option, none, some, List, Time, if◌then◌else◌}
use network_mcp.ChangeManagement.{
  ChangeRequest, ChangeManager, ChangeRisk, Ref, list_pending, get_change_request, approve_change,
}
use network_mcp.ChangeManagement.Marks.{Reply}
use network_mcp.ChangeManagement.Rollback.{RollbackResult, rollback}

pub data ToolResult : Type 0 where
  not_enabled : ToolResult
  not_found : String → ToolResult
  not_found_or_not_pending : String → ToolResult
  listed : List ChangeRequest → ToolResult
  shown : ChangeRequest → ToolResult
  approved_as : String → String → ChangeRisk → ToolResult
  rolled_back_to : RollbackResult → ToolResult

unfoldable pub net_list_pending_changes : String → ChangeManager → ToolResult
net_list_pending_changes host m = if m.enabled then listed (list_pending host m) else not_enabled

unfoldable pub show_found : String → ChangeManager → Option Ref → ToolResult
show_found change_id m none = not_found change_id
show_found change_id m (some r) = shown (m.heap r)

unfoldable pub net_get_change_request : String → ChangeManager → ToolResult
unfolding show_found
net_get_change_request change_id m =
    if m.enabled then show_found change_id m (get_change_request change_id m) else not_enabled

unfoldable pub reply_approved :
    String → String → ChangeManager × Option Ref → ChangeManager × ToolResult
reply_approved change_id approved_by (m, none) = (m, not_found_or_not_pending change_id)
reply_approved change_id approved_by (m, some r) =
    (m, approved_as (m.heap r).id approved_by (m.heap r).risk)

unfoldable pub net_approve_change :
    Time → String → String → String → ChangeManager → ChangeManager × ToolResult
unfolding reply_approved
net_approve_change now change_id approved_by reason m =
    if m.enabled
    then reply_approved change_id approved_by (approve_change now change_id approved_by reason m)
    else (m, not_enabled)

module _ (splitlines : String → List String)
    (unified_diff : List String → List String → List String) where
  unfoldable pub rollback_found :
      Time
      → String
      → Reply (Unit {0})
      → Reply String
      → ChangeManager
      → Option Ref
      → ChangeManager × ToolResult
  rollback_found now change_id config_reply show_reply m none = (m, not_found change_id)
  rollback_found now change_id config_reply show_reply m (some r) =
      let (m', result) = rollback splitlines unified_diff now r config_reply show_reply m in
      (m', rolled_back_to result)

  unfoldable pub net_rollback_change :
      Time → String → Reply (Unit {0}) → Reply String → ChangeManager → ChangeManager × ToolResult
  unfolding rollback_found
  net_rollback_change now change_id config_reply show_reply m =
      if m.enabled
      then rollback_found now change_id config_reply show_reply m (get_change_request change_id m)
      else (m, not_enabled)
