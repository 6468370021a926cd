-- ===== src/ChangeManagement/Windows/Coverage.antt =====
-- The instants that the windows of a week cover, against check_maintenance_window.
use Prim.Native.Nat.{◌%◌}
use network_mcp.Base.{
  ◌≡◌, refl, ℕ, ◌+◌, ◌-◌, ◌*◌, ◌≤◌, ◌<◌, Bool, true, false, ◌&&◌, ◌||◌, leb, Option, none, some,
  List, [], ◌∷◌, if◌then◌else◌, arith, All,
}
use network_mcp.ChangeManagement.Windows.{
  Window, is_day, is_within, check_windows, check_maintenance_window,
}

abbrev pub a_day : ℕ
a_day = 86_400_000_000

abbrev pub a_week : ℕ
a_week = 604_800_000_000

-- How long a window lasts: from its start until the clock shows its end.
abbrev pub lasts : ℕ → ℕ → ℕ
lasts start_time end_time = (end_time + a_day - start_time) % a_day

-- The time that has passed since the window last started: every day, or once a week on its day.
abbrev pub since_start : Option ℕ → ℕ → ℕ → ℕ → ℕ
since_start none start_time day time = (time + a_day - start_time) % a_day
since_start (some d) start_time day time =
    (day * a_day + time + a_week - (d * a_day + start_time)) % a_week

-- A window covers an instant of the week if it has not lasted out since it last started.
abbrev pub covers : Window → ℕ → ℕ → Bool
covers w day time =
    leb (since_start w.day_of_week w.start_time day time) (lasts w.start_time w.end_time)

-- Is the time in the hours after midnight of a window that passes midnight?
abbrev pub after_midnight : ℕ → ℕ → ℕ → Bool
after_midnight start_time end_time time =
    if leb start_time end_time then false else leb time end_time

-- The day at which the code's answer is to be read: for the hours after midnight of a window, the
-- next day.
abbrev pub read_day : Window → ℕ → ℕ → ℕ
read_day w day time = if after_midnight w.start_time w.end_time time then day + 1 else day

abbrev pub any_covers : List Window → ℕ → ℕ → Bool
any_covers [] day time = false
any_covers (w ∷ ws) day time =
    let rest = any_covers ws day time in if covers w (read_day w day time) time then true else rest

-- A day of the week and times of the day, as _parse_windows makes them.
abbrev pub IsDay : Option ℕ → Type 0
IsDay none = Unit {0}
IsDay (some d) = d < 7

abbrev pub IsWindow : Window → Type 0
IsWindow w = (w.start_time < a_day) × (w.end_time < a_day) × IsDay w.day_of_week

abbrev within : ℕ → ℕ → ℕ → Bool
within start_time end_time time =
    if leb start_time end_time
    then leb start_time time && leb time end_time
    else leb start_time time || leb time end_time

module _ (s e day time : ℕ) (hs : s < a_day) (he : e < a_day) (ht : time < a_day) where
  every_day :
      within s e time
      ≡ leb (since_start none s (if after_midnight s e time then day + 1 else day) time) (lasts s e)
  every_day = ground arith

  on_day :
      (d : ℕ)
      → d < 7
      → day < 7
      → (is_day (some d) day && within s e time)
        ≡ leb
            (since_start (some d) s (if after_midnight s e time then day + 1 else day) time)
            (lasts s e)
  unfolding is_day
  on_day d h k = ground arith

  is_day_within :
      (o : Option ℕ)
      → IsDay o
      → day < 7
      → (is_day o day && within s e time)
        ≡ leb (since_start o s (if after_midnight s e time then day + 1 else day) time) (lasts s e)
  is_day_within none h k = unfold is_day in every_day
  is_day_within (some d) h k = on_day d h k

one_covers :
    (w : Window) (day time : ℕ)
    → IsWindow w
    → day < 7
    → time < a_day
    → (is_day w.day_of_week day && is_within w time) ≡ covers w (read_day w day time) time
unfolding is_within
one_covers w day time h k t =
    is_day_within w.start_time w.end_time day time h.0 h.1 t w.day_of_week h.2 k

check_windows-any_covers :
    (ws : List Window) (day time : ℕ)
    → All IsWindow ws
    → day < 7
    → time < a_day
    → check_windows ws day time ≡ any_covers ws day time
unfolding check_windows
check_windows-any_covers [] day time h k t = refl
check_windows-any_covers (w ∷ ws) day time (h, hs) k t =
    let one = one_covers w day time h k t in
    let ih = check_windows-any_covers ws day time hs k t in rw (one, ih) refl

abbrev pub is_none : List Window → Bool
is_none [] = true
is_none (w ∷ ws) = false

-- Whatever windows are configured, with or without days, on one day or past midnight, at every time
-- of the week: a time is allowed exactly if no windows are configured, or the time since one of them
-- last started is at most the time that it lasts; for the hours after midnight of a window that
-- passes midnight this is read off the next day in place of the current one. So those hours are
-- allowed on the day that such a window names, on which it starts.
pub check_maintenance_window_covers :
    (ws : List Window) (day time : ℕ)
    → All IsWindow ws
    → day < 7
    → time < a_day
    → check_maintenance_window ws day time ≡ (is_none ws || any_covers ws day time)
unfolding check_maintenance_window
check_maintenance_window_covers [] day time h k t = refl
check_maintenance_window_covers (w ∷ ws) day time h k t =
    check_windows-any_covers (w ∷ ws) day time h k t

-- A single window that starts on a day d and passes midnight: the hours after midnight are refused on
-- the next day, on which the window covers them, and allowed on d, on which it does not.
pub check_maintenance_window_overnight :
    (w : Window) (d time : ℕ)
    → IsWindow w
    → w.day_of_week ≡ some d
    → d < 6
    → w.end_time < w.start_time
    → time ≤ w.end_time
    → (check_maintenance_window (w ∷ []) (d + 1) time ≡ false)
      × (covers w (d + 1) time ≡ true)
      × (check_maintenance_window (w ∷ []) d time ≡ true)
      × (covers w d time ≡ false)
unfolding check_maintenance_window check_windows is_day is_within
check_maintenance_window_overnight w d time v n s h k =
    let start_in = v.0 in
    let end_in = v.1 in
    (rw n (ground arith), rw n (ground arith), rw n (ground arith), rw n (ground arith))
