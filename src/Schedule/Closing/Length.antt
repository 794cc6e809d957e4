-- ===== src/Schedule/Closing/Length.antt =====
-- How long a window stays open after an instant inside it.
use nimblefix.Common.{
  ℕ, ◌+◌, ◌-◌, ◌*◌, ◌/◌, ◌≤◌, ◌<◌, ◌≡◌, ◌≢◌, refl, sym, ◌∙◌, arith, true, false, ◌==◌, ltb, leb,
  if◌then◌else◌,
}
use nimblefix.Common.Int.{ℤ, pos, ◌+ℤ◌, ◌-ℤ◌, lebℤ}
use nimblefix.Schedule.{SessionWindowSpec, has_value}
use nimblefix.Schedule.Validated.{IsInRange}
use nimblefix.Schedule.Window.{
  Zone, CalendarPoint, build_calendar_point, current_second, is_between, is_within_window,
  window_cycle_seconds, current_window_start_second, window_duration, delta_seconds,
}
use nimblefix.Schedule.Position.{
  zones, position, position_lem, first_of, last_of, is_within_window_lem, IsLater, position-lt,
  bounds-lt,
}

-- The seconds from a position inside the window to its end.
abbrev pub close_delta : ℕ → ℕ → ℕ → ℕ → ℕ
close_delta cycle first last p =
    if first == last
    then cycle
    else if ltb first last
    then last - p
    else if leb first p
    then last + cycle - p
    else last - p

pub is_between-open :
    (cycle first last p q d : ℕ)
    → first < cycle
    → last < cycle
    → IsLater cycle p q d
    → is_between first last p ≡ true
    → d < close_delta cycle first last p
    → is_between first last q ≡ true
unfolding is_between
is_between-open cycle first last p q d hf hl later h g = ground arith

pub is_between-closed :
    (cycle first last p q : ℕ)
    → first < cycle
    → last < cycle
    → first ≢ last
    → IsLater cycle p q (close_delta cycle first last p)
    → is_between first last p ≡ true
    → is_between first last q ≡ false
unfolding is_between
is_between-closed cycle first last p q hf hl differ later h = ground arith

-- The seconds that the window stays open after second `s`.
unfoldable pub open_seconds : SessionWindowSpec → ℕ → ℕ
open_seconds window s =
    close_delta (window_cycle_seconds window) (first_of window) (last_of window) (position window s)

-- The second at which the window that holds `p` starts, and the length of a window.
abbrev pub start_at : ℕ → ℕ → ℕ → ℕ → ℤ
start_at cycle first last p =
    if first == last
    then pos p
    else if ltb first last
    then pos first
    else if leb first p
    then pos first
    else pos first -ℤ pos cycle

abbrev pub span_of : ℕ → ℕ → ℕ → ℤ
span_of cycle first last =
    if lebℤ (pos last -ℤ pos first) (pos 0)
    then (pos last -ℤ pos first) +ℤ pos cycle
    else pos last -ℤ pos first

pub close_delta_lem :
    (cycle first last p : ℕ)
    → first < cycle
    → last < cycle
    → p < cycle
    → is_between first last p ≡ true
    → (start_at cycle first last p +ℤ span_of cycle first last) -ℤ pos p
      ≡ pos (close_delta cycle first last p)
unfolding is_between
close_delta_lem cycle first last p hf hl hp within = ground arith

pub base_lem :
    (window : SessionWindowSpec) (point : CalendarPoint)
    → (if has_value window.start_day then point.weekday * 86400 else 0) + point.second_of_day
      ≡ current_second window point
unfolding current_second
base_lem window point = ground arith

pub delta_seconds_start :
    (window : SessionWindowSpec) (point : CalendarPoint)
    → let p = current_second window point in
      delta_seconds window point
      ≡ (start_at (window_cycle_seconds window) (first_of window) (last_of window) p
          +ℤ span_of (window_cycle_seconds window) (first_of window) (last_of window))
        -ℤ pos p
unfolding delta_seconds current_window_start_second window_duration
delta_seconds_start window point = rw (base_lem window point) refl

pub delta_seconds_lem :
    (here : Zone) (window : SessionWindowSpec) (t : ℕ)
    → window.use_local_time ≡ false
    → IsInRange window
    → is_within_window (zones here) window t ≡ true
    → delta_seconds window (build_calendar_point (zones here) t window.use_local_time)
      ≡ pos (open_seconds window (t / 1_000_000_000))
unfolding open_seconds
delta_seconds_lem here window t h range within =
    let s = t / 1_000_000_000 in
    let point = build_calendar_point (zones here) t window.use_local_time in
    let bounds = bounds-lt window range in
    delta_seconds_start window point
    ∙ (rw (position_lem here window t h) (
        close_delta_lem (window_cycle_seconds window) (first_of window) (last_of window)
          (position window s) (bounds.0) (bounds.1) (position-lt window s)
          (sym (is_within_window_lem here window t h) ∙ within)))

pub open_seconds-le :
    (window : SessionWindowSpec) (s : ℕ)
    → IsInRange window
    → open_seconds window s ≤ window_cycle_seconds window
unfolding open_seconds
open_seconds-le window s range =
    let bounds = bounds-lt window range in let later = position-lt window s in ground arith

pub open_seconds-pos :
    (here : Zone) (window : SessionWindowSpec) (now : ℕ)
    → window.use_local_time ≡ false
    → IsInRange window
    → is_within_window (zones here) window now ≡ true
    → 0 < open_seconds window (now / 1_000_000_000)
unfolding open_seconds is_between
open_seconds-pos here window now h range within =
    let s = now / 1_000_000_000 in
    let bounds = bounds-lt window range in
    let place = position-lt window s in
    let inside = sym (is_within_window_lem here window now h) ∙ within in ground arith
