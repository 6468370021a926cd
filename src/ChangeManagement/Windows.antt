-- ===== src/ChangeManagement/Windows.antt =====
-- Maintenance windows of src/network_mcp/change_management.py: _parse_windows and
-- check_maintenance_window. A day is its number from Monday, and a time of day counts microseconds.
pub mod Coverage
use Prim.Native.Char.{Char, code}
use network_mcp.Base.{
  ℕ, ◌+◌, ◌*◌, Bool, true, false, ◌&&◌, ◌||◌, ◌==◌, leb, ltb, String, str_discrete, Option, none,
  some, List, [], ◌∷◌, ite, if◌then◌else◌,
}
use network_mcp.Base.Text.{strip, is_empty}
use network_mcp.Dict
use network_mcp.Dict.{Dict}

-- no day is the wildcard
pub record Window : Type 0 where
  pub day_of_week : Option ℕ
  pub start_time : ℕ
  pub end_time : ℕ

abbrev pub day_map : Dict String ℕ
day_map =
    ("Mon", 0) ∷ ("Tue", 1) ∷ ("Wed", 2) ∷ ("Thu", 3) ∷ ("Fri", 4) ∷ ("Sat", 5) ∷ ("Sun", 6) ∷ []

-- the first piece of a text that is split at commas, with a character before it
unfoldable pub push_first : Char → List String → List String
push_first c [] = String.◌∷◌ c String.[] ∷ []
push_first c (p ∷ ps) = String.◌∷◌ c p ∷ ps

-- s.split(",")
unfoldable pub split_commas : String → List String
unfolding push_first
split_commas String.[] = String.[] ∷ []
split_commas (String.◌∷◌ c s) =
    let rest = split_commas s in if code c == b',' then String.[] ∷ rest else push_first c rest

-- The groups of a match: the day, and the hours and minutes of the two times.
abbrev pub Groups : Type 0
Groups = String × ℕ × ℕ × ℕ × ℕ

-- dt_time(hour, minute); none is its ValueError
unfoldable pub time_of : ℕ → ℕ → Option ℕ
time_of hour minute =
    if ltb hour 24 && ltb minute 60 then some ((hour * 60 + minute) * 60_000_000) else none

unfoldable pub window_of : String → Option ℕ → Option ℕ → Option Window
window_of day_str none end_time = none
window_of day_str (some start_time) none = none
window_of day_str (some start_time) (some end_time) = some (record {
  day_of_week = Dict.get str_discrete day_str day_map;
  start_time = start_time;
  end_time = end_time;
})

unfoldable pub add_window : Option Window → Option (List Window) → Option (List Window)
add_window none rest = none
add_window (some w) none = none
add_window (some w) (some ws) = some (w ∷ ws)

-- One piece: a blank one and one that does not match are passed over.
unfoldable pub parse_match : Option Groups → Option (List Window) → Option (List Window)
unfolding add_window window_of time_of
parse_match none rest = rest
parse_match (some (day_str, start_h, start_m, end_h, end_m)) rest =
    add_window (window_of day_str (time_of start_h start_m) (time_of end_h end_m)) rest

-- `match_window` is the match of _WINDOW_PATTERN, its digits as numbers.
module _ (match_window : String → Option Groups) where
  unfoldable pub parse_pieces : List String → Option (List Window)
  unfolding parse_match
  parse_pieces [] = some []
  parse_pieces (p ∷ ps) =
      let rest = parse_pieces ps in
      if is_empty (strip p) then rest else parse_match (match_window (strip p)) rest

  unfoldable pub parse_windows : String → Option (List Window)
  unfolding parse_pieces split_commas
  parse_windows windows_str =
      if is_empty windows_str || ite (str_discrete (strip windows_str) "*") true false
      then some []
      else parse_pieces (split_commas windows_str)

unfoldable pub is_day : Option ℕ → ℕ → Bool
is_day none current_day = true
is_day (some d) current_day = d == current_day

-- the tests of one window in the loop
unfoldable pub is_within : Window → ℕ → Bool
is_within w current_time =
    if leb w.start_time w.end_time
    then leb w.start_time current_time && leb current_time w.end_time
    else leb w.start_time current_time || leb current_time w.end_time

unfoldable pub check_windows : List Window → ℕ → ℕ → Bool
unfolding is_day is_within
check_windows [] current_day current_time = false
check_windows (w ∷ ws) current_day current_time =
    let rest = check_windows ws current_day current_time in
    if is_day w.day_of_week current_day && is_within w current_time then true else rest

unfoldable pub check_maintenance_window : List Window → ℕ → ℕ → Bool
unfolding check_windows
check_maintenance_window [] current_day current_time = true
check_maintenance_window (w ∷ ws) current_day current_time =
    check_windows (w ∷ ws) current_day current_time
