-- ===== src/Schedule/Closing.antt =====
-- `NextWindowClose` agrees with `IsWithinWindow` for UTC windows.
pub mod Length
use nimblefix.Common.{
  ℕ, ◌+◌, ◌-◌, ◌*◌, ◌/◌, ◌%◌, ◌^◌, ◌≤◌, ◌<◌, ◌≡◌, ◌≢◌, inl, inr, refl, sym, ◌∙◌, arith, true, false,
  none, some, ◌==◌, ltb, leb, if◌then◌else◌, Bool-cases,
}
use nimblefix.Common.Int.{ℤ, pos, ◌+ℤ◌, ◌-ℤ◌, lebℤ}
use nimblefix.Schedule.{SessionWindowSpec, has_value}
use nimblefix.Schedule.Validated.{IsInRange}
use nimblefix.Schedule.Window.{
  Zone, utc, CalendarPoint, build_calendar_point, current_second, is_between, is_within_window,
  window_cycle_seconds, current_window_start_second, window_duration, delta_seconds,
  next_window_close,
}
use nimblefix.Schedule.Position.{
  zones, position, position_lem, first_of, last_of, is_within_window_lem, IsLater, position-lt,
  position-IsLater, bounds-lt, cycle-le, make_unix_time_ns-utc,
}
use nimblefix.Schedule.Closing.Length.{
  close_delta, is_between-open, is_between-closed, open_seconds, start_at, span_of, close_delta_lem,
  base_lem, delta_seconds_start, delta_seconds_lem, open_seconds-le, open_seconds-pos,
}

later_lem :
    (s d : ℕ)
    → pos (s / 86400 * 86400 + s % 86400 / 3600 * 3600 + s % 3600 / 60 * 60)
        +ℤ (pos (s % 60) +ℤ pos d)
      ≡ pos (s + d)
later_lem s d = ground arith

civil_time_later :
    (here : Zone) (t d : ℕ)
    → let c = (build_calendar_point (zones here) t false).civil_time in
      utc.unix_seconds (record c { second = c.second +ℤ pos d }) ≡ pos (t / 1_000_000_000 + d)
unfolding build_calendar_point
civil_time_later here t d = later_lem (t / 1_000_000_000) d

next_window_close_lem :
    (here : Zone) (window : SessionWindowSpec) (t : ℕ)
    → window.use_local_time ≡ false
    → IsInRange window
    → is_within_window (zones here) window t ≡ true
    → t + 604800 * 1_000_000_000 < 2 ^ 64
    → let s = t / 1_000_000_000 in
      next_window_close (zones here) window t ≡ some ((s + open_seconds window s) * 1_000_000_000)
unfolding next_window_close open_seconds position
next_window_close_lem here window t h range within small =
    let s = t / 1_000_000_000 in
    let d = open_seconds window s in
    let most = open_seconds-le window s range in
    let cycle = cycle-le window in
    rw (within, delta_seconds_lem here window t h range within, h)
      (make_unix_time_ns-utc here _ (s + d) (civil_time_later here t d) (omega arith))

next_window_close-outside :
    (here : Zone) (window : SessionWindowSpec) (t : ℕ)
    → is_within_window (zones here) window t ≡ false
    → next_window_close (zones here) window t ≡ none
unfolding next_window_close
next_window_close-outside here window t h = rw h refl

some_within :
    (here : Zone) (window : SessionWindowSpec) (now close : ℕ)
    → next_window_close (zones here) window now ≡ some close
    → is_within_window (zones here) window now ≡ true
some_within here window now close e = elim (Bool-cases (is_within_window (zones here) window now)) [
  | inl within ↦ within
  | inr outside ↦
      let both = sym (next_window_close-outside here window now outside) ∙ e in
      absurd (ground arith)
]

-- A window that holds second `s` holds every second until it closes.
stays_open :
    (here : Zone) (window : SessionWindowSpec) (now t : ℕ)
    → window.use_local_time ≡ false
    → IsInRange window
    → is_within_window (zones here) window now ≡ true
    → now / 1_000_000_000 ≤ t / 1_000_000_000
    → t / 1_000_000_000 < now / 1_000_000_000 + open_seconds window (now / 1_000_000_000)
    → is_within_window (zones here) window t ≡ true
unfolding open_seconds
stays_open here window now t h range within from below =
    let s = now / 1_000_000_000 in
    let u = t / 1_000_000_000 in
    let bounds = bounds-lt window range in
    let most = open_seconds-le window s range in
    is_within_window_lem here window t h
    ∙ is_between-open (window_cycle_seconds window) (first_of window) (last_of window)
        (position window s) (position window u) (u - s) (bounds.0) (bounds.1)
        (position-IsLater window s u from (omega arith))
        (sym (is_within_window_lem here window now h) ∙ within) (omega arith)

-- When the next close of a UTC window that is in range is searched from an instant with 7 days
-- left in 64 bits, and is found, the window holds every instant from there up to it.
pub next_window_close-open :
    (here : Zone) (window : SessionWindowSpec) (now close t : ℕ)
    → window.use_local_time ≡ false
    → IsInRange window
    → now + 604800 * 1_000_000_000 < 2 ^ 64
    → next_window_close (zones here) window now ≡ some close
    → now ≤ t
    → t < close
    → is_within_window (zones here) window t ≡ true
next_window_close-open here window now close t h range small e from below =
    let within = some_within here window now close e in
    let s = now / 1_000_000_000 in
    let same : some ((s + open_seconds window s) * 1_000_000_000) ≡ some close =
      sym (next_window_close_lem here window now h range within small) ∙ e in
    let close_at : (s + open_seconds window s) * 1_000_000_000 ≡ close = ground arith in
    stays_open here window now t h range within (omega arith) (omega arith)

shut_after :
    (here : Zone) (window : SessionWindowSpec) (now t : ℕ)
    → window.use_local_time ≡ false
    → IsInRange window
    → is_within_window (zones here) window now ≡ true
    → first_of window ≢ last_of window
    → t / 1_000_000_000 ≡ now / 1_000_000_000 + open_seconds window (now / 1_000_000_000)
    → is_within_window (zones here) window t ≡ false
unfolding open_seconds
shut_after here window now t h range within differ e =
    let s = now / 1_000_000_000 in
    let u = t / 1_000_000_000 in
    let bounds = bounds-lt window range in
    let most = open_seconds-le window s range in
    let delta = open_seconds window s in
    let later = position-IsLater window s u (omega arith) (omega arith) in
    is_within_window_lem here window t h
    ∙ is_between-closed (window_cycle_seconds window) (first_of window) (last_of window)
        (position window s) (position window u) (bounds.0) (bounds.1) differ (ground arith)
        (sym (is_within_window_lem here window now h) ∙ within)

-- For a UTC window that is in range and whose start and end differ, and an instant inside it with
-- 7 days left in 64 bits, there is a next close, after the instant, and the window does not hold
-- it.
pub next_window_close-shuts :
    (here : Zone) (window : SessionWindowSpec) (now : ℕ)
    → window.use_local_time ≡ false
    → IsInRange window
    → now + 604800 * 1_000_000_000 < 2 ^ 64
    → is_within_window (zones here) window now ≡ true
    → first_of window ≢ last_of window
    → (close : ℕ) × (next_window_close (zones here) window now ≡ some close)
      × (now < close)
      × (is_within_window (zones here) window close ≡ false)
next_window_close-shuts here window now h range small within differ =
    let s = now / 1_000_000_000 in
    let d = open_seconds window s in
    let positive = open_seconds-pos here window now h range within in
    (
      (s + d) * 1_000_000_000,
      next_window_close_lem here window now h range within small,
      omega arith,
      shut_after here window now _ h range within differ (omega arith),
    )
