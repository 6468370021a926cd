-- ===== src/ChangeManagement.antt =====
-- src/network_mcp/change_management.py: change requests, their approval, execution and rollback. A
-- ChangeRequest is an object that the caller and the two dicts of the manager share: it has a
-- reference, and `heap` holds the objects. The uuid of a new request, the clock, what a device
-- replies and the methods of Python below are arguments. Log lines are left out.
pub mod Risk
pub mod Marks
pub mod Windows
pub mod Rollback
pub mod Lifecycle
pub mod Tools
mod Tests
use network_mcp.Base.{
  ℕ, suc, ◌+◌, Bool, true, false, not, ◌&&◌, ◌||◌, String, str_discrete, Option, none, some, List,
  [], ◌∷◌, ◌++◌, ite, if◌then◌else◌, length, Time, ℕ_discrete,
}
use network_mcp.Base.Text.{is_empty}
use network_mcp.Dict
use network_mcp.Dict.{Dict, values}

pub data ChangeRisk : Type 0 where
  low : ChangeRisk
  medium : ChangeRisk
  high : ChangeRisk
  critical : ChangeRisk

pub data ChangeStatus : Type 0 where
  pending : ChangeStatus
  approved : ChangeStatus
  executing : ChangeStatus
  completed : ChangeStatus
  failed : ChangeStatus
  rolled_back : ChangeStatus

unfoldable pub is_pending : ChangeStatus → Bool
is_pending pending = true
is_pending approved = false
is_pending executing = false
is_pending completed = false
is_pending failed = false
is_pending rolled_back = false

unfoldable pub is_open : ChangeStatus → Bool
is_open pending = true
is_open approved = true
is_open executing = false
is_open completed = false
is_open failed = false
is_open rolled_back = false

unfoldable pub is_low : ChangeRisk → Bool
is_low low = true
is_low medium = false
is_low high = false
is_low critical = false

-- {}, {"running_config": …} or {"error": …}; a missing first result is the empty text.
pub data Snapshot : Type 0 where
  no_snapshot : Snapshot
  running_config : String → Snapshot
  snapshot_error : String → Snapshot

pub record Approval : Type 0 where
  pub user : String
  pub timestamp : Time
  pub reason : String

-- The details of a log entry, with what their text names.
pub data Details : Type 0 where
  executing_commands : ℕ → String → Details
  completed_on : String → String → Details
  failed_with : String → Details
  no_rollback_commands : Details
  rollback_failed : String → Details
  rolled_back_with : String → Details

pub record LogEntry : Type 0 where
  pub logged_at : Time
  pub details : Details

pub record ChangeRequest : Type 0 where
  pub id : String
  pub tool_name : String
  pub device : String
  pub commands : List String
  pub risk : ChangeRisk
  pub status : ChangeStatus
  pub created_at : Time
  pub created_by : String
  pub approved_by : String
  pub pre_snapshot : Snapshot
  pub post_snapshot : Snapshot
  pub rollback_commands : List String
  pub error : String
  pub approval_chain : List Approval
  pub execution_log : List LogEntry

abbrev pub Ref : Type 0
Ref = ℕ

-- An object is made at `next_ref`; what the heap says of later references is never read.
pub record ChangeManager : Type 0 where
  pub enabled : Bool
  pub require_approval : Bool
  pub auto_rollback_timeout : ℕ
  pub heap : Ref → ChangeRequest
  pub next_ref : Ref
  pub pending_requests : Dict String Ref
  pub completed_requests : Dict String Ref

-- a field of the object at r is written
unfoldable pub update : Ref → ChangeRequest → ChangeManager → ChangeManager
update r cr m = record m { heap = λ q. ite (ℕ_discrete r q) cr (m.heap q) }

unfoldable pub new_request :
    Time
    → String
    → String
    → String
    → List String
    → String
    → ChangeRisk
    → List String
    → ChangeRequest
new_request now cr_id tool_name device commands user risk rollback_commands = record {
  id = cr_id;
  tool_name = tool_name;
  device = device;
  commands = commands;
  risk = risk;
  status = pending;
  created_at = now;
  created_by = user;
  approved_by = "";
  pre_snapshot = no_snapshot;
  post_snapshot = no_snapshot;
  rollback_commands = rollback_commands;
  error = "";
  approval_chain = [];
  execution_log = [];
}

unfoldable pub auto_approve : Bool → ChangeRequest → ChangeRequest
auto_approve require_approval cr =
    if not require_approval && is_low cr.risk
    then record cr { status = approved; approved_by = "auto" }
    else cr

-- `create_change_request` of a request with the risk and the rollback commands that Risk computes
unfoldable pub add_request : ChangeRequest → ChangeManager → ChangeManager × Ref
unfolding update auto_approve
add_request cr m =
    let r = m.next_ref in
    (
      record (update r (auto_approve m.require_approval cr) m) {
        next_ref = suc r;
        pending_requests = Dict.put str_discrete cr.id r m.pending_requests;
      },
      r,
    )

unfoldable pub approve_ref :
    Time → String → String → ChangeManager → Option Ref → ChangeManager × Option Ref
unfolding update is_pending
approve_ref now approved_by reason m none = (m, none)
approve_ref now approved_by reason m (some r) =
    let cr = m.heap r in
    let entry : Approval = record { user = approved_by; timestamp = now; reason = reason } in
    if is_pending cr.status
    then (
      update r
          (record cr {
            status = approved;
            approved_by = approved_by;
            approval_chain = cr.approval_chain ++ (entry ∷ []);
          })
          m,
      some r,
    )
    else (m, none)

unfoldable pub approve_change :
    Time → String → String → String → ChangeManager → ChangeManager × Option Ref
unfolding approve_ref
approve_change now change_id approved_by reason m =
    approve_ref now approved_by reason m (Dict.get str_discrete change_id m.pending_requests)

unfoldable pub or_else : Option Ref → Option Ref → Option Ref
or_else (some r) o = some r
or_else none o = o

unfoldable pub get_change_request : String → ChangeManager → Option Ref
unfolding or_else
get_change_request change_id m =
    or_else (Dict.get str_discrete change_id m.pending_requests)
      (Dict.get str_discrete change_id m.completed_requests)

unfoldable pub list_open : (Ref → ChangeRequest) → String → List Ref → List ChangeRequest
unfolding is_open
list_open heap device [] = []
list_open heap device (r ∷ rs) =
    let rest = list_open heap device rs in
    if is_open (heap r).status
      && (is_empty device || ite (str_discrete (heap r).device device) true false)
    then heap r ∷ rest
    else rest

unfoldable pub list_pending : String → ChangeManager → List ChangeRequest
unfolding list_open
list_pending device m = list_open m.heap device (values m.pending_requests)
