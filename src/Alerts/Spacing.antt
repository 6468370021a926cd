-- ===== src/Alerts/Spacing.antt =====
-- Alerts of one type that follow one another.
use network_mcp.Base.{
  ◌≡◌, refl, ap, ◌∙◌, ◌-◌, ◌≤◌, ◌<◌, false, ltb, String, str_discrete, Option, none, some, List, [],
  ◌∷◌, ◌++◌, length, Time, ite, if_pos, if_neg, last_items, length-drop, if_split, arith,
}
use mathlib.Core.Path.{subst, subst⁻¹}
use network_mcp.Dict
use network_mcp.Dict.Laws.{get-put_self, get-put_ne}
use network_mcp.Alerts.{
  Alert, AlertManager, Fired, fire, dispatch, new_alert, is_suppressed, last_time, remember,
  max_history,
}

-- the arguments of `fire`: the clock, the time stamp, and the texts
pub record Call : Type 0 where
  pub now : Time
  pub timestamp : Time
  pub alert_type : String
  pub severity : String
  pub message : String
  pub context : String

unfoldable pub fire_call : Call → AlertManager → AlertManager × Option Fired
fire_call c m = fire c.now c.timestamp c.alert_type c.severity c.message c.context m

-- The times at which alerts of a type are fired, and the manager after all calls.
unfoldable pub note : String → Call → Option Fired → List Time → List Time
note t c none times = times
note t c (some f) times = ite (str_discrete c.alert_type t) (c.now ∷ times) times

unfoldable pub fired_times : String → List Call → AlertManager → List Time
unfolding note fire_call
fired_times t [] m = []
fired_times t (c ∷ cs) m =
    let (m', f) = fire_call c m in let rest = fired_times t cs m' in note t c f rest

unfoldable pub fire_all : List Call → AlertManager → AlertManager
unfolding fire_call
fire_all [] m = m
fire_all (c ∷ cs) m = fire_all cs (fire_call c m).0

-- Each time is at least the window after the one before it, and the first after `last`.
abbrev pub IsSpaced : Time → Time → List Time → Type 0
IsSpaced window last [] = Unit
IsSpaced window last (t ∷ ts) = (window ≤ t - last) × IsSpaced window t ts

abbrev pub last_at : String → AlertManager → Time
last_at t m = last_time (Dict.get str_discrete t m.last_fired)

not_suppressed :
    (now : Time) (t : String) (m : AlertManager)
    → 0 < m.suppression_window
    → is_suppressed now t m ≡ false
    → m.suppression_window ≤ now - last_at t m
unfolding is_suppressed
not_suppressed now t m w h = ground arith

-- The times of a type after an alert that was fired, from a manager with the new time of that alert.
noted-IsSpaced :
    (t : String) (c : Call) (m m' : AlertManager) (times : List Time)
    → m.suppression_window ≤ c.now - last_at c.alert_type m
    → m'.last_fired ≡ Dict.put str_discrete c.alert_type c.now m.last_fired
    → IsSpaced m.suppression_window (last_at t m') times
    → IsSpaced m.suppression_window
        (last_at t m)
        (ite (str_discrete c.alert_type t) (c.now ∷ times) times)
noted-IsSpaced t c m m' times room put h = elim (str_discrete c.alert_type t) [
  | yes s ↦
      let there : last_at t m' ≡ c.now =
        ap (λ d. last_time (Dict.get str_discrete t d)) put
        ∙ ap last_time (
            subst
              (λ k.
                Dict.get str_discrete k (Dict.put str_discrete c.alert_type c.now m.last_fired)
                ≡ some c.now)
              s (get-put_self str_discrete c.alert_type c.now m.last_fired))
        ∙ (unfold last_time in refl) in
      subst⁻¹ (IsSpaced m.suppression_window (last_at t m))
        (if_pos (str_discrete c.alert_type t) s (c.now ∷ times) times)
        (
          subst (λ k. m.suppression_window ≤ c.now - last_at k m) s room,
          subst (λ l. IsSpaced m.suppression_window l times) there h,
        )
  | no n ↦
      let there : last_at t m' ≡ last_at t m =
        ap (λ d. last_time (Dict.get str_discrete t d)) put
        ∙ ap last_time (get-put_ne str_discrete c.alert_type t c.now m.last_fired n) in
      subst⁻¹ (IsSpaced m.suppression_window (last_at t m))
        (if_neg (str_discrete c.alert_type t) n (c.now ∷ times) times)
        (subst (λ l. IsSpaced m.suppression_window l times) there h)
]

-- What one call makes of the times of a type.
note-IsSpaced :
    (t : String) (c : Call) (m : AlertManager) (times : AlertManager → List Time)
    → 0 < m.suppression_window
    → ((n : AlertManager)
        → n.suppression_window ≡ m.suppression_window
        → IsSpaced m.suppression_window (last_at t n) (times n))
    → let (m', f) = fire_call c m in
      IsSpaced m.suppression_window (last_at t m) (note t c f (times m'))
unfolding note fire_call fire dispatch new_alert
note-IsSpaced t c m times w h =
    if_split
      (λ (x : AlertManager × Option Fired).
        IsSpaced m.suppression_window (last_at t m) (note t c x.1 (times x.0)))
      (is_suppressed c.now c.alert_type m) (λ e. h m refl)
      (λ e.
        let m' =
          (dispatch c.now (new_alert c.timestamp c.alert_type c.severity c.message c.context)
            m).0 in
        noted-IsSpaced t c m m' (times m') (not_suppressed c.now c.alert_type m w e) refl
          (h m' refl))

times_after :
    (t : String) (window : Time) (calls : List Call) (m : AlertManager)
    → 0 < window
    → m.suppression_window ≡ window
    → IsSpaced window (last_at t m) (fired_times t calls m)
unfolding fired_times
times_after t window [] m w e = tt
times_after t window (c ∷ cs) m w e =
    subst (λ v. IsSpaced v (last_at t m) (fired_times t (c ∷ cs) m)) e
      (note-IsSpaced t c m (fired_times t cs) (subst⁻¹ (λ v. 0 < v) e w) (λ n same.
        subst⁻¹ (λ v. IsSpaced v (last_at t n) (fired_times t cs n)) e
          (times_after t window cs n w (same ∙ e))))

-- The history is never longer than its limit.
remember_bound :
    (a : Alert) (history : List Alert)
    → length history ≤ max_history
    → length (remember a history) ≤ max_history
unfolding remember last_items
remember_bound a history h =
    if_split (λ (xs : List Alert). length xs ≤ max_history)
      (ltb max_history (length (history ++ (a ∷ []))))
      (λ e.
        omega
          (arith, length-drop (length (history ++ (a ∷ [])) - max_history) (history ++ (a ∷ []))))
      (λ e. ground arith)

fire_call_bound :
    (c : Call) (m : AlertManager)
    → length m.history ≤ max_history
    → length (fire_call c m).0.history ≤ max_history
unfolding fire_call fire dispatch
fire_call_bound c m h =
    if_split (λ (x : AlertManager × Option Fired). length x.0.history ≤ max_history)
      (is_suppressed c.now c.alert_type m) (λ e. h) (λ e. remember_bound _ m.history h)

fire_all_bound :
    (calls : List Call) (m : AlertManager)
    → length m.history ≤ max_history
    → length (fire_all calls m).history ≤ max_history
unfolding fire_all
fire_all_bound [] m h = h
fire_all_bound (c ∷ cs) m h = fire_all_bound cs (fire_call c m).0 (fire_call_bound c m h)

-- Under a suppression window above 0, whatever is fired in whatever order: the alerts of a type that
-- are let through are at least the window apart, the first of them from the last one before (or from
-- the time 0 of the clock); and a history within its limit stays within it.
pub fired_times-IsSpaced :
    (t : String) (calls : List Call) (m : AlertManager)
    → 0 < m.suppression_window
    → length m.history ≤ max_history
    → IsSpaced m.suppression_window (last_at t m) (fired_times t calls m)
      × (length (fire_all calls m).history ≤ max_history)
fired_times-IsSpaced t calls m w h =
    (times_after t m.suppression_window calls m w refl, fire_all_bound calls m h)
