-- ===== src/Alerts.antt =====
-- src/network_mcp/alerts.py: alerts that are kept back, remembered and handed to hooks. A hook is a number,
-- and the context of an alert its text; the POST to the webhook is its address and the alert. The clock
-- and the time stamp of an alert are arguments, and the window is a span of the clock. `fire` is one step,
-- though it takes the lock for the check, the history and the hooks in turn.
pub mod Spacing
mod Tests
use network_mcp.Base.{
  ℕ, zero, suc, ◌-◌, Bool, true, false, not, ◌&&◌, ltb, String, str_discrete, Option, none, some,
  List, [], ◌∷◌, ◌++◌, if◌then◌else◌, ite, length, Time, in_list, ◌==◌, last_items,
}
use network_mcp.Base.Text.{is_empty}
use network_mcp.Dict
use network_mcp.Dict.{Dict}

pub record Alert : Type 0 where
  pub alert_type : String
  pub severity : String
  pub message : String
  pub timestamp : Time
  pub context : String

abbrev pub Hook : Type 0
Hook = ℕ

pub record AlertManager : Type 0 where
  pub hooks : List Hook
  pub webhook_url : String
  pub history : List Alert
  pub suppression_window : Time
  pub last_fired : Dict String Time

abbrev pub max_history : ℕ
max_history = 1000

unfoldable pub init : Time → AlertManager
init window = record {
  hooks = [];
  webhook_url = "";
  history = [];
  suppression_window = window;
  last_fired = [];
}

unfoldable pub register_hook : Hook → AlertManager → AlertManager
register_hook callback m = record m { hooks = m.hooks ++ (callback ∷ []) }

-- list.remove: none is its ValueError
unfoldable pub remove : Hook → List Hook → Option (List Hook)
remove callback [] = none
remove callback (h ∷ hs) = elim (remove callback hs) [
  | none ↦ if h == callback then some hs else none
  | some rest ↦ if h == callback then some hs else some (h ∷ rest)
]

unfoldable pub keep_hooks : AlertManager → Option (List Hook) → AlertManager × Bool
keep_hooks m none = (m, false)
keep_hooks m (some hooks) = (record m { hooks = hooks }, true)

unfoldable pub unregister_hook : Hook → AlertManager → AlertManager × Bool
unfolding keep_hooks remove
unregister_hook callback m = keep_hooks m (remove callback m.hooks)

unfoldable pub set_webhook : String → AlertManager → AlertManager
set_webhook url m = record m { webhook_url = url }

unfoldable pub set_suppression_window : Time → AlertManager → AlertManager
set_suppression_window window m = record m { suppression_window = window }

abbrev pub severity_levels : List String
severity_levels = "info" ∷ "warning" ∷ "critical" ∷ []

unfoldable pub last_time : Option Time → Time
last_time none = 0
last_time (some last) = last

-- the suppression check
unfoldable pub is_suppressed : Time → String → AlertManager → Bool
unfolding last_time
is_suppressed now alert_type m =
    ltb 0 m.suppression_window
    && ltb (now - last_time (Dict.get str_discrete alert_type m.last_fired)) m.suppression_window

unfoldable pub remember : Alert → List Alert → List Alert
unfolding last_items
remember alert history =
    let longer = history ++ (alert ∷ []) in
    if ltb max_history (length longer) then last_items max_history longer else longer

-- An alert that is fired, the hooks that are called with it in order, and the webhook.
pub record Fired : Type 0 where
  pub alert : Alert
  pub called : List Hook
  pub posted_to : Option String

-- a severity that is not known is "info"
unfoldable pub new_alert : Time → String → String → String → String → Alert
unfolding in_list
new_alert timestamp alert_type severity message context = record {
  alert_type = alert_type;
  severity = if in_list severity severity_levels then severity else "info";
  message = message;
  timestamp = timestamp;
  context = context;
}

unfoldable pub dispatch : Time → Alert → AlertManager → AlertManager × Option Fired
unfolding remember
dispatch now alert m = (
  record m {
    last_fired = Dict.put str_discrete alert.alert_type now m.last_fired;
    history = remember alert m.history;
  },
  some (record {
    alert = alert;
    called = m.hooks;
    posted_to = if is_empty m.webhook_url then none else some m.webhook_url;
  }),
)

unfoldable pub fire :
    Time → Time → String → String → String → String → AlertManager → AlertManager × Option Fired
unfolding is_suppressed new_alert dispatch
fire now timestamp alert_type severity message context m =
    if is_suppressed now alert_type m
    then (m, none)
    else dispatch now (new_alert timestamp alert_type severity message context) m

unfoldable pub of_type : String → List Alert → List Alert
of_type alert_type [] = []
of_type alert_type (a ∷ rest) =
    let later = of_type alert_type rest in
    if ite (str_discrete a.alert_type alert_type) true false then a ∷ later else later

unfoldable pub reversed : List Alert → List Alert
reversed [] = []
reversed (a ∷ rest) = reversed rest ++ (a ∷ [])

-- `history[-limit:]` is the whole history for the limit 0; a limit is no negative number here.
unfoldable pub get_history : ℕ → String → AlertManager → List Alert
unfolding of_type reversed last_items
get_history limit alert_type m =
    let chosen = if is_empty alert_type then m.history else of_type alert_type m.history in
    reversed (if limit == 0 then chosen else last_items limit chosen)

unfoldable pub clear_history : AlertManager → AlertManager
clear_history m = record m { history = [] }

unfoldable pub reset : AlertManager → AlertManager
reset m = record m { hooks = []; webhook_url = ""; history = []; last_fired = [] }
