-- ===== src/ChangeManagement/Marks.antt =====
-- The methods of ChangeManager in src/network_mcp/change_management.py that follow a change: its marks,
-- its snapshots and their validation.
use network_mcp.Base.{
  Bool, true, false, not, ◌&&◌, ◌||◌, String, str_discrete, [], ◌∷◌, ◌++◌, ite, if◌then◌else◌,
  length, Time,
}
use network_mcp.Base.Text.{is_empty}
use network_mcp.Dict
use network_mcp.ChangeManagement.{
  ChangeRequest, ChangeManager, Ref, Details, Snapshot, executing, completed, failed,
  executing_commands, completed_on, failed_with, no_snapshot, running_config, snapshot_error,
  update,
}

unfoldable pub log : Time → Details → ChangeRequest → ChangeRequest
log now details cr = record cr {
  execution_log = cr.execution_log ++ (record { logged_at = now; details = details } ∷ []);
}

-- self._completed[cr.id] = cr; self._pending.pop(cr.id, None)
unfoldable pub archive : Ref → ChangeManager → ChangeManager
archive r m = record m {
  completed_requests = Dict.put str_discrete (m.heap r).id r m.completed_requests;
  pending_requests = Dict.del str_discrete (m.heap r).id m.pending_requests;
}

unfoldable pub mark_executing : Time → Ref → ChangeManager → ChangeManager
unfolding update log
mark_executing now r m =
    let cr = m.heap r in
    update r
      (log now (executing_commands (length cr.commands) cr.device)
        (record cr { status = executing }))
      m

unfoldable pub mark_completed : Time → Ref → ChangeManager → ChangeManager
unfolding update log archive
mark_completed now r m =
    let cr = m.heap r in
    archive r
      (update r (log now (completed_on cr.id cr.device) (record cr { status = completed })) m)

unfoldable pub mark_failed : Time → Ref → String → ChangeManager → ChangeManager
unfolding update log archive
mark_failed now r error m = archive r (
    update r (log now (failed_with error) (record (m.heap r) { status = failed; error = error })) m)

-- What a device replies: a result or an exception with its text.
pub data Reply {ℓ} (A : Type ℓ) : Type ℓ where
  replied : A → Reply A
  raised : String → Reply A

unfoldable pub snapshot_of : Reply String → Snapshot
snapshot_of (replied config) = running_config config
snapshot_of (raised error) = snapshot_error error

-- The argument is what `show running-config` returns first, or the exception.
unfoldable pub capture_pre_snapshot : Ref → Reply String → ChangeManager → ChangeManager
unfolding update snapshot_of
capture_pre_snapshot r reply m = update r (record (m.heap r) { pre_snapshot = snapshot_of reply }) m

unfoldable pub capture_post_snapshot : Ref → Reply String → ChangeManager → ChangeManager
unfolding update snapshot_of
capture_post_snapshot r reply m =
    update r (record (m.heap r) { post_snapshot = snapshot_of reply }) m

-- bool(snapshot.get("error")), bool(snapshot) and snapshot.get("running_config", "")
unfoldable pub has_error : Snapshot → Bool
has_error no_snapshot = false
has_error (running_config c) = false
has_error (snapshot_error e) = not (is_empty e)

unfoldable pub is_taken : Snapshot → Bool
is_taken no_snapshot = false
is_taken (running_config c) = true
is_taken (snapshot_error e) = true

unfoldable pub config_of : Snapshot → String
config_of no_snapshot = ""
config_of (running_config c) = c
config_of (snapshot_error e) = ""

unfoldable pub validate_change : ChangeRequest → Bool
unfolding has_error is_taken config_of is_empty
validate_change cr =
    let pre_config = config_of cr.pre_snapshot in
    let post_config = config_of cr.post_snapshot in
    if has_error cr.pre_snapshot || has_error cr.post_snapshot
    then false
    else if not (is_taken cr.pre_snapshot) || not (is_taken cr.post_snapshot)
    then false
    else if not (is_empty pre_config)
        && not (is_empty post_config)
        && ite (str_discrete pre_config post_config) true false
    then false
    else true
