-- ===== src/ChangeManagement/Risk.antt =====
-- _assess_risk and _generate_rollback_commands of src/network_mcp/change_management.py.
pub mod Inverse
use Prim.Native.Char.{code}
use Prim.Native.String.{◌++◌ as ◌⊕◌}
use network_mcp.Base.{
  Bool, true, false, ◌||◌, ◌&&◌, ◌==◌, String, Option, none, some, List, [], ◌∷◌, ◌++◌,
  if◌then◌else◌, Time,
}
use network_mcp.Base.Text.{is_some, strip, is_empty, drop_prefix, prepend, occurs_in}
use network_mcp.ChangeManagement.{
  ChangeRisk, low, medium, high, critical, ChangeManager, Ref, new_request, add_request,
}

abbrev pub critical_patterns : List String
critical_patterns = "shutdown" ∷ "no interface" ∷ "no router bgp" ∷ "no router ospf" ∷ []

abbrev pub high_tool_patterns : List String
high_tool_patterns = "delete" ∷ "push_config" ∷ "remove" ∷ []

-- each stands for the regular expression that has a ^ before it
abbrev pub high_cmd_patterns : List String
high_cmd_patterns =
    "router bgp" ∷ "router ospf" ∷ "ip access-list" ∷ "no neighbor" ∷ "no network" ∷ []

abbrev pub medium_tool_patterns : List String
medium_tool_patterns = "create" ∷ "configure" ∷ "add" ∷ "set" ∷ []

-- Does one of the patterns pass the test?
unfoldable pub any_of : (String → Bool) → List String → Bool
any_of test [] = false
any_of test (p ∷ ps) = let rest = any_of test ps in if test p then true else rest

-- " ".join(xs)
unfoldable pub joined : List String → String
joined [] = ""
joined (x ∷ []) = x
joined (x ∷ y ∷ xs) = x ⊕ " " ⊕ joined (y ∷ xs)

-- re.search of "^p" with re.MULTILINE: p stands at the start of the text or of a line.
unfoldable pub search_line : Bool → String → String → Bool
unfolding is_some drop_prefix
search_line at_start p String.[] = at_start && is_some (drop_prefix p String.[])
search_line at_start p (String.◌∷◌ c s) =
    let later = search_line (code c == 10) p s in
    if at_start && is_some (drop_prefix p (String.◌∷◌ c s)) then true else later

-- `lower` is str.lower.
module _ (lower : String → String) where
  unfoldable pub lower_all : List String → List String
  lower_all [] = []
  lower_all (c ∷ cs) = lower c ∷ lower_all cs

  unfoldable pub assess_risk : String → List String → ChangeRisk
  unfolding any_of joined search_line occurs_in lower_all
  assess_risk tool_name commands =
      let tool_lower = lower tool_name in
      let cmd_text = joined (lower_all commands) in
      if any_of (λ p. occurs_in p tool_lower || occurs_in p cmd_text) critical_patterns
      then critical
      else if any_of (λ p. occurs_in p tool_lower) high_tool_patterns
      then high
      else if any_of (λ p. search_line true p cmd_text) high_cmd_patterns
      then high
      else if any_of (λ p. occurs_in p tool_lower) medium_tool_patterns
      then medium
      else low

-- "no " taken off, or put before
unfoldable pub or_negated : String → Option String → String
or_negated stripped (some rest) = rest
or_negated stripped none = prepend "no " stripped

unfoldable pub invert : String → String
unfolding or_negated
invert stripped = or_negated stripped (drop_prefix "no " stripped)

-- reversed(xs)
unfoldable pub reversed : List String → List String
reversed [] = []
reversed (x ∷ xs) = reversed xs ++ (x ∷ [])

-- the loop over the reversed commands
unfoldable pub invert_all : List String → List String
unfolding invert
invert_all [] = []
invert_all (cmd ∷ cmds) =
    let rest = invert_all cmds in if is_empty (strip cmd) then rest else invert (strip cmd) ∷ rest

unfoldable pub generate_rollback_commands : List String → List String
unfolding invert_all reversed
generate_rollback_commands commands = invert_all (reversed commands)

unfoldable pub create_change_request :
    (String → String)
    → Time
    → String
    → String
    → String
    → List String
    → String
    → ChangeManager
    → ChangeManager × Ref
unfolding assess_risk generate_rollback_commands add_request new_request
create_change_request lower now cr_id tool_name device commands user m =
    add_request
      (new_request now cr_id tool_name device commands user (assess_risk lower tool_name commands)
        (generate_rollback_commands commands))
      m
