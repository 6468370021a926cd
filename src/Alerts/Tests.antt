-- ===== src/Alerts/Tests.antt =====
-- Alerts on a manager with a window of 60, and the theorem at a concrete input.
use network_mcp.Base.{◌≡◌, refl, ◌≤◌, List, [], ◌∷◌, length, arith, Time, str_discrete}
use network_mcp.Dict
use network_mcp.Alerts.{init, max_history, is_suppressed, last_time, dispatch, new_alert, fire}
use network_mcp.Alerts.Spacing.{
  Call, fire_call, note, fired_times, fire_all, IsSpaced, last_at, fired_times-IsSpaced,
}

abbrev slo : Time → Call
slo now = record {
  now = now;
  timestamp = now;
  alert_type = "slo_violation";
  severity = "warning";
  message = "too slow";
  context = "";
}

abbrev calls : List Call
calls = slo 100 ∷ slo 130 ∷ slo 170 ∷ []

second_suppressed : fired_times "slo_violation" calls (init 60) ≡ 100 ∷ 170 ∷ []
unfolding fired_times note fire_call fire is_suppressed last_time dispatch new_alert init
    str_discrete Dict.get Dict.put
second_suppressed = refl

-- In the first minute of the clock nothing is fired.
none_fired_early : fired_times "slo_violation" (slo 10 ∷ slo 59 ∷ []) (init 60) ≡ []
unfolding fired_times note fire_call fire is_suppressed last_time dispatch new_alert init
    str_discrete Dict.get Dict.put
none_fired_early = refl

fired_times-IsSpaced_example :
    IsSpaced 60 (last_at "slo_violation" (init 60)) (fired_times "slo_violation" calls (init 60))
    × (length (fire_all calls (init 60)).history ≤ max_history)
unfolding init
fired_times-IsSpaced_example =
    fired_times-IsSpaced "slo_violation" calls (init 60) (omega arith) (omega arith)
