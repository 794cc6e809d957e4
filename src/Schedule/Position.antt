-- ===== src/Schedule/Position.antt =====
-- Where an instant stands in the daily or weekly cycle of a UTC window.
use native.Mathlib.Nat.{mod-eq_of_lt}
use nimblefix.Common.{
  ℕ, ◌+◌, ◌-◌, ◌*◌, ◌/◌, ◌%◌, ◌^◌, ◌≤◌, ◌<◌, ◌≡◌, ◌⊎◌, inl, inr, refl, ◌∙◌, arith, Bool, true,
  false, Option, none, some, if◌then◌else◌, ap, Bool-cases,
}
use nimblefix.Common.Int.{pos}
use nimblefix.Schedule.{SessionWindowSpec, has_value}
use nimblefix.Schedule.Validated.{IsInRange, AreDays}
use nimblefix.Schedule.Window.{
  CivilTime, Zone, utc, build_calendar_point, make_unix_time_ns, current_second, second_in_cycle,
  is_between, is_within_window, window_cycle_seconds, to_unix_time_ns,
}

-- UTC beside any local zone.
abbrev pub zones : Zone → Bool → Zone
zones here true = here
zones here false = utc

-- The second of the day, or of the week when the window has a day.
unfoldable pub position : SessionWindowSpec → ℕ → ℕ
position window s = if has_value window.start_day then (s + 345600) % 604800 else s % 86400

clock_lem : (s : ℕ) → s % 86400 / 3600 * 3600 + s % 3600 / 60 * 60 + s % 60 ≡ s % 86400
clock_lem s = omega arith

week_lem : (s : ℕ) → (s / 86400 + 4) % 7 * 86400 + s % 86400 ≡ (s + 345600) % 604800
week_lem s = omega arith

pub position_lem :
    (here : Zone) (window : SessionWindowSpec) (t : ℕ)
    → window.use_local_time ≡ false
    → current_second window (build_calendar_point (zones here) t window.use_local_time)
      ≡ position window (t / 1_000_000_000)
unfolding current_second build_calendar_point position
position_lem here window t h =
    rw (h, clock_lem (t / 1_000_000_000), week_lem (t / 1_000_000_000)) refl

-- The window's bounds in its cycle.
abbrev pub first_of : SessionWindowSpec → ℕ
first_of window = second_in_cycle window.start_day window.start_second

abbrev pub last_of : SessionWindowSpec → ℕ
last_of window = second_in_cycle window.end_day window.end_second

pub is_within_window_lem :
    (here : Zone) (window : SessionWindowSpec) (t : ℕ)
    → window.use_local_time ≡ false
    → is_within_window (zones here) window t
      ≡ is_between (first_of window) (last_of window) (position window (t / 1_000_000_000))
unfolding is_within_window
is_within_window_lem here window t h = rw (position_lem here window t h) refl

-- `q` is `d` seconds after `p` in the cycle.
abbrev pub IsLater : ℕ → ℕ → ℕ → ℕ → Type 0
IsLater cycle p q d = (p < cycle) × (q < cycle) × ((p + d ≡ q) ⊎ (p + d ≡ q + cycle))

pub position-lt :
    (window : SessionWindowSpec) (s : ℕ) → position window s < window_cycle_seconds window
unfolding position window_cycle_seconds
position-lt window s = ground arith

pub position-IsLater :
    (window : SessionWindowSpec) (s u : ℕ)
    → s ≤ u
    → u ≤ s + window_cycle_seconds window
    → IsLater (window_cycle_seconds window) (position window s) (position window u) (u - s)
unfolding position window_cycle_seconds
position-IsLater window s u h g = elim (Bool-cases (has_value window.start_day)) [
  | inl e ↦ rw e (omega arith, omega arith, ground arith)
  | inr e ↦ rw e (omega arith, omega arith, ground arith)
]

days-lt :
    (first_day last_day : Option ℕ) (first last : ℕ)
    → first < 86400
    → last < 86400
    → AreDays first_day last_day
    → let cycle = if has_value first_day then 7 * 86400 else 86400 in
      (second_in_cycle first_day first < cycle) × (second_in_cycle last_day last < cycle)
unfolding second_in_cycle
days-lt none none first last h g d = (h, g)
days-lt (some i) (some j) first last h g d = (omega (arith, d.0), omega (arith, d.1))
days-lt none (some j) first last h g d = absurd d
days-lt (some i) none first last h g d = absurd d

pub bounds-lt :
    (window : SessionWindowSpec)
    → IsInRange window
    → (first_of window < window_cycle_seconds window)
      × (last_of window < window_cycle_seconds window)
unfolding window_cycle_seconds
bounds-lt window h =
    days-lt window.start_day window.end_day window.start_second window.end_second (h.0) (h.1) (h.2)

pub cycle-le : (window : SessionWindowSpec) → window_cycle_seconds window ≤ 604800
unfolding window_cycle_seconds
cycle-le window = ground arith

pub make_unix_time_ns-utc :
    (here : Zone) (c : CivilTime) (n : ℕ)
    → utc.unix_seconds c ≡ pos n
    → n * 1_000_000_000 < 2 ^ 64
    → make_unix_time_ns (zones here) c false ≡ some (n * 1_000_000_000)
unfolding make_unix_time_ns
make_unix_time_ns-utc here c n e h = ap to_unix_time_ns e ∙ ap some (mod-eq_of_lt h)
