-- ===== src/ChangeManagement/Tests.antt =====
-- A change from its creation to its end, texts of commands and of windows, and the theorems at
-- concrete inputs.
use network_mcp.Base.{
  ◌≡◌, refl, inl, true, ◌||◌, String, str_discrete, Option, none, some, List, [], ◌∷◌, arith,
  ℕ_discrete,
}
use network_mcp.Base.Text.{
  strip, lstrip, rstrip, push_left, is_empty, is_space, drop_prefix, prepend, occurs_in, is_some,
}
use network_mcp.Dict
use network_mcp.ChangeManagement.{
  ChangeRequest, ChangeManager, Ref, new_request, low, high, approved, add_request, auto_approve,
  approve_change, approve_ref, update, is_pending, is_low,
}
use network_mcp.ChangeManagement.Risk.{
  lower_all, assess_risk, any_of, joined, search_line, generate_rollback_commands,
}
use network_mcp.ChangeManagement.Risk.Inverse.{
  IsPlain, plain, negated, generate_rollback_commands_involutive,
}
use network_mcp.ChangeManagement.Windows.{
  Window, parse_windows, Groups, parse_pieces, parse_match, add_window, window_of, time_of,
  split_commas, push_first, check_maintenance_window,
}
use network_mcp.ChangeManagement.Windows.Coverage.{
  any_covers, is_none, check_maintenance_window_covers,
}
use network_mcp.ChangeManagement.Marks.{mark_executing, mark_completed, log}
use network_mcp.ChangeManagement.Lifecycle.{
  pending_at, completed_at, IsFinal, Reach, here, next, create, approve, execute, complete,
}
use network_mcp.ChangeManagement.Lifecycle.Invariant.{Inv}
use network_mcp.ChangeManagement.Lifecycle.Final.{Reach-IsFinal}
use network_mcp.ChangeManagement.{get_change_request, or_else, pending}
use network_mcp.ChangeManagement.Tools.{net_approve_change, not_found_or_not_pending}
use network_mcp.ChangeManagement.Tools.Approval.{net_approve_change_once}

-- Texts in lower case are their own lower case.
abbrev same : String → String
same s = s

-- The second command of a change is not at the start of a line.
bgp_alone : assess_risk same "run_config" ("router bgp 65000" ∷ []) ≡ high
unfolding assess_risk any_of joined search_line occurs_in drop_prefix is_some lower_all
bgp_alone = refl

bgp_second : assess_risk same "run_config" ("vlan 10" ∷ "router bgp 65000" ∷ []) ≡ low
unfolding assess_risk any_of joined search_line occurs_in drop_prefix is_some lower_all
bgp_second = refl

vlan-IsPlain : IsPlain "vlan 10"
unfolding strip lstrip rstrip push_left is_empty is_space drop_prefix
vlan-IsPlain = record { stripped = refl; positive = refl; some_text = refl }

ntp-IsPlain : IsPlain "ntp master"
unfolding strip lstrip rstrip push_left is_empty is_space drop_prefix
ntp-IsPlain = record { stripped = refl; positive = refl; some_text = refl }

abbrev vlan_change : List String
vlan_change = "vlan 10" ∷ prepend "no " "ntp master" ∷ []

generate_rollback_commands_involutive_example :
    generate_rollback_commands (generate_rollback_commands vlan_change) ≡ vlan_change
generate_rollback_commands_involutive_example =
    generate_rollback_commands_involutive vlan_change
      (plain "vlan 10" vlan-IsPlain, (negated "ntp master" ntp-IsPlain, tt))

-- 02:00 to 06:00 on Saturdays, and 22:00 to 01:00 on any day
abbrev saturday : Window
saturday = record { day_of_week = some 5; start_time = 7_200_000_000; end_time = 21_600_000_000 }

abbrev late_hours : Window
late_hours = record { day_of_week = none; start_time = 79_200_000_000; end_time = 3_600_000_000 }

abbrev saturday_night : Window
saturday_night = record {
  day_of_week = some 5;
  start_time = 79_200_000_000;
  end_time = 3_600_000_000;
}

check_maintenance_window_covers_example :
    check_maintenance_window (saturday ∷ late_hours ∷ saturday_night ∷ []) 6 1_800_000_000 ≡ (
      is_none (saturday ∷ late_hours ∷ saturday_night ∷ [])
      || any_covers (saturday ∷ late_hours ∷ saturday_night ∷ []) 6 1_800_000_000)
check_maintenance_window_covers_example =
    check_maintenance_window_covers (saturday ∷ late_hours ∷ saturday_night ∷ []) 6 1_800_000_000
      (
        (omega arith, omega arith, omega arith),
        ((omega arith, omega arith, tt), ((omega arith, omega arith, omega arith), tt)),
      )
      (omega arith) (omega arith)

abbrev matched : String → Option Groups
matched s = some ("Sat", 2, 0, 6, 0)

windows_parsed : parse_windows matched "Sat 02:00-06:00" ≡ some (saturday ∷ [])
unfolding parse_windows parse_pieces parse_match add_window window_of time_of split_commas
    push_first strip lstrip rstrip push_left is_empty is_space str_discrete Dict.get
windows_parsed = refl

abbrev vlan_request : ChangeRequest
vlan_request =
    new_request 1 "c1" "run_config" "spine-01" ("vlan 10" ∷ []) "ada" low ("no vlan 10" ∷ [])

abbrev empty_manager : ChangeManager
empty_manager = record {
  enabled = true;
  require_approval = true;
  auto_rollback_timeout = 0;
  heap = λ q. vlan_request;
  next_ref = 0;
  pending_requests = [];
  completed_requests = [];
}

empty_manager-Inv : Inv empty_manager
unfolding Dict.get
empty_manager-Inv = record { held = λ k r e. cc; kept = λ k r e. cc; apart = λ k r s e f. cc }

abbrev created : ChangeManager
created = (add_request vlan_request empty_manager).0

abbrev approved_one : ChangeManager
approved_one = (approve_change 2 "c1" "bob" "fine" created).0

abbrev executing_one : ChangeManager
executing_one = mark_executing 3 0 approved_one

abbrev completed_one : ChangeManager
completed_one = mark_completed 4 0 executing_one

created_pending : pending_at "c1" created ≡ some 0
unfolding add_request auto_approve update is_low str_discrete Dict.get Dict.put new_request
created_pending = refl

approved_pending : pending_at "c1" approved_one ≡ some 0
unfolding add_request auto_approve update is_low str_discrete Dict.get Dict.put approve_change
    approve_ref is_pending ℕ_discrete new_request
approved_pending = refl

approved_status : (approved_one.heap 0).status ≡ approved
unfolding add_request auto_approve update is_low str_discrete Dict.get Dict.put approve_change
    approve_ref is_pending ℕ_discrete new_request
approved_status = refl

executing_pending : pending_at "c1" executing_one ≡ some 0
unfolding add_request auto_approve update is_low str_discrete Dict.get Dict.put approve_change
    approve_ref is_pending ℕ_discrete new_request mark_executing log
executing_pending = refl

-- str.splitlines and difflib.unified_diff are not called here.
abbrev one_line : String → List String
one_line s = s ∷ []

abbrev no_diff : List String → List String → List String
no_diff xs ys = []

vlan_run : Reach one_line no_diff empty_manager completed_one
unfolding Dict.get new_request approve_change add_request Dict.put str_discrete ℕ_discrete
    mark_executing
vlan_run =
    next
      (next
        (next (next here (create empty_manager vlan_request refl refl refl))
          (approve created 2 "c1" "bob" "fine"))
        (execute approved_one 3 0 approved_pending approved_status))
      (complete executing_one 4 0 (inl executing_pending))

completed_one-Inv : Inv completed_one
completed_one-Inv = (Reach-IsFinal one_line no_diff vlan_run empty_manager-Inv).0

-- One more approval, after the change has been completed.
abbrev approved_again : ChangeManager
approved_again = (approve_change 5 "c1" "bob" "again" completed_one).0

Reach-IsFinal_example :
    Inv approved_again
    × ((k : String) (q : Ref)
        → completed_at k completed_one ≡ some q
        → (completed_at k approved_again ≡ some q)
          × (pending_at k approved_again ≡ none)
          × IsFinal (approved_again.heap q).status)
Reach-IsFinal_example =
    Reach-IsFinal one_line no_diff (next here (approve completed_one 5 "c1" "bob" "again"))
      completed_one-Inv

net_approve_change_once_example :
    net_approve_change 6 "c1" "eve" "again" (net_approve_change 5 "c1" "bob" "fine" created).0
    ≡ ((net_approve_change 5 "c1" "bob" "fine" created).0, not_found_or_not_pending "c1")
unfolding add_request
net_approve_change_once_example =
    net_approve_change_once 5 6 "c1" "bob" "eve" "fine" "again" created refl

created_found : get_change_request "c1" created ≡ some 0
unfolding get_change_request or_else add_request str_discrete Dict.get Dict.put new_request
created_found = refl

-- The change was created, and nobody approved it.
created_status : (created.heap 0).status ≡ pending
unfolding add_request auto_approve update new_request is_low ℕ_discrete
created_status = refl

created_id : (created.heap 0).id ≡ "c1"
unfolding add_request auto_approve update new_request is_low ℕ_discrete
created_id = refl

created_rollback : (created.heap 0).rollback_commands ≡ "no vlan 10" ∷ []
unfolding add_request auto_approve update new_request is_low ℕ_discrete
created_rollback = refl
