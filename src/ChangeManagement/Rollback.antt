-- ===== src/ChangeManagement/Rollback.antt =====
-- rollback and _validate_rollback of src/network_mcp/change_management.py.
use Prim.Native.String.{◌++◌ as ◌⊕◌}
use network_mcp.Base.{
  ℕ, Bool, true, false, not, ◌||◌, String, List, [], ◌∷◌, ite, if◌then◌else◌, Time, str_discrete,
}
use network_mcp.Base.Text.{is_empty, strip}
use network_mcp.ChangeManagement.{
  ChangeRequest, ChangeManager, Ref, failed, rolled_back, no_rollback_commands, rollback_failed,
  rolled_back_with, update,
}
use network_mcp.ChangeManagement.Marks.{
  Reply, replied, raised, log, archive, has_error, is_taken, config_of,
}

-- What _validate_rollback returns: a skip with its reason, a success, or the first lines of the two
-- texts and of their diff.
pub data Validation : Type 0 where
  no_pre_snapshot : Validation
  empty_pre_snapshot : Validation
  show_failed : String → Validation
  empty_post_config : Validation
  validated : Validation
  differs : List String → List String → List String → Validation

unfoldable pub message_of : Validation → String
message_of no_pre_snapshot = "Rollback applied (no pre-change snapshot available for validation)"
message_of empty_pre_snapshot = "Rollback applied (pre-change snapshot is empty)"
message_of (show_failed error) = "Rollback applied (post-rollback snapshot failed: " ⊕ error ⊕ ")"
message_of empty_post_config = "Rollback applied (post-rollback config is empty)"
message_of validated = "Rollback validated successfully"
message_of (differs expected actual diff) =
    "Rollback applied but state differs from pre-change snapshot"

-- xs[:n]
unfoldable pub first_of : List String → ℕ → List String
first_of [] n = []
first_of (x ∷ xs) ℕ.zero = []
first_of (x ∷ xs) (ℕ.suc n) = x ∷ first_of xs n

unfoldable pub same_lines : List String → List String → Bool
same_lines [] [] = true
same_lines [] (y ∷ ys) = false
same_lines (x ∷ xs) [] = false
same_lines (x ∷ xs) (y ∷ ys) =
    let rest = same_lines xs ys in if ite (str_discrete x y) true false then rest else false

-- What rollback returns: an error without commands, the commands that were applied and what their
-- validation said, or an error with an exception's text.
pub data RollbackResult : Type 0 where
  nothing_to_apply : RollbackResult
  applied : List String → Validation → RollbackResult
  not_applied : String → RollbackResult

-- `splitlines` is the method of str, and `unified_diff` that of difflib with its three arguments
-- after the texts.
module _ (splitlines : String → List String)
    (unified_diff : List String → List String → List String) where
  unfoldable pub compare_configs : String → String → Validation
  unfolding same_lines first_of
  compare_configs pre_config post_config =
      let pre_lines = splitlines (strip pre_config) in
      let post_lines = splitlines (strip post_config) in
      if same_lines pre_lines post_lines
      then validated
      else differs (first_of pre_lines 20) (first_of post_lines 20)
          (first_of (unified_diff pre_lines post_lines) 50)

  unfoldable pub compare_reply : String → Reply String → Validation
  unfolding compare_configs
  compare_reply pre_config (raised error) = show_failed error
  compare_reply pre_config (replied post_config) =
      if is_empty post_config then empty_post_config else compare_configs pre_config post_config

  -- The reply is that of `show running-config` after the rollback.
  unfoldable pub validate_rollback : ChangeRequest → Reply String → Validation
  unfolding compare_reply
  validate_rollback cr reply =
      if not (is_taken cr.pre_snapshot) || has_error cr.pre_snapshot
      then no_pre_snapshot
      else if is_empty (config_of cr.pre_snapshot)
      then empty_pre_snapshot
      else compare_reply (config_of cr.pre_snapshot) reply

  -- after the replies of the device to the commands and to `show running-config`
  unfoldable pub apply_rollback :
      Time → Ref → Reply (Unit {0}) → Reply String → ChangeManager → ChangeManager × RollbackResult
  unfolding validate_rollback message_of archive update log
  apply_rollback now r (raised error) show_reply m = (
    update r
        (log now (rollback_failed error)
          (record (m.heap r) { status = failed; error = "Rollback failed: " ⊕ error }))
        m,
    not_applied error,
  )
  apply_rollback now r (replied _) show_reply m =
      let m' = archive r (update r (record (m.heap r) { status = rolled_back }) m) in
      let v = validate_rollback (m'.heap r) show_reply in
      (
        update r (log now (rolled_back_with (message_of v)) (m'.heap r)) m',
        applied (m.heap r).rollback_commands v,
      )

  unfoldable pub no_commands : List String → Bool
  no_commands [] = true
  no_commands (c ∷ cs) = false

  unfoldable pub rollback :
      Time → Ref → Reply (Unit {0}) → Reply String → ChangeManager → ChangeManager × RollbackResult
  unfolding apply_rollback no_commands update log
  rollback now r config_reply show_reply m =
      if no_commands (m.heap r).rollback_commands
      then (
        update r (log now no_rollback_commands (record (m.heap r) { status = failed })) m,
        nothing_to_apply,
      )
      else apply_rollback now r config_reply show_reply m
