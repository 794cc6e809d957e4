-- ===== src/Schedule/Window.antt =====
-- Windows at an instant: src/runtime/config.cpp, namespace `detail`, and `NextWindowClose` of
-- src/runtime/session_schedule.cpp with the searches over several windows. A `std::tm` is a day,
-- counted from 1970-01-01, and a time of that day.
use nimblefix.Common.{
  ℕ, ◌+◌, ◌-◌, ◌*◌, ◌/◌, ◌%◌, ◌^◌, Bool, true, not, ◌&&◌, ◌||◌, Option, none, some, ◌==◌, ltb, leb,
  if◌then◌else◌,
}
use nimblefix.Common.Int.{ℤ, pos, negsuc, ◌+ℤ◌, ◌-ℤ◌, lebℤ}
use nimblefix.Schedule.{SessionWindowSpec, has_value}

-- `std::tm`; the day of the month and the second may leave their ranges before normalisation.
pub record CivilTime : Type 0 where
  pub day : ℕ
  pub hour : ℕ
  pub minute : ℕ
  pub second : ℤ

-- What the C library does for one time zone: the civil time of unix seconds, its day of the week,
-- and the unix seconds of a civil time, normalised.
pub record Zone : Type 0 where
  pub civil_time : ℕ → CivilTime
  pub weekday : ℕ → ℕ
  pub unix_seconds : CivilTime → ℤ

-- `gmtime_r` and `timegm`: 1970-01-01 was a Thursday.
abbrev pub utc : Zone
utc = record {
  civil_time = λ s. record {
    day = s / 86400;
    hour = s % 86400 / 3600;
    minute = s % 3600 / 60;
    second = pos (s % 60);
  };
  weekday = λ s. (s / 86400 + 4) % 7;
  unix_seconds = λ c. pos (c.day * 86400 + c.hour * 3600 + c.minute * 60) +ℤ c.second;
}

pub record CalendarPoint : Type 0 where
  pub civil_time : CivilTime
  pub weekday : ℕ
  pub second_of_day : ℕ

abbrev pub nonnegative : ℤ → ℕ
nonnegative (pos n) = n
nonnegative (negsuc n) = 0

-- The local variable `current`.
unfoldable pub current_second : SessionWindowSpec → CalendarPoint → ℕ
current_second window point =
    if has_value window.start_day
    then point.weekday * 86400 + point.second_of_day
    else point.second_of_day

-- A second in its day, or in the week when a day is given: the local variables `start` and `end`.
unfoldable pub second_in_cycle : Option ℕ → ℕ → ℕ
second_in_cycle none second = second
second_in_cycle (some day) second = day * 86400 + second

-- The comparisons of `IsWithinWindow`.
unfoldable pub is_between : ℕ → ℕ → ℕ → Bool
is_between first last current =
    if first == last
    then true
    else if ltb first last
    then leb first current && ltb current last
    else leb first current || ltb current last

-- The time of day of the window's start on the day of `point`.
unfoldable pub start_candidate : SessionWindowSpec → CalendarPoint → CivilTime
start_candidate window point = record point.civil_time {
  hour = window.start_second / 3600;
  minute = (window.start_second / 60) % 60;
  second = pos (window.start_second % 60);
}

-- `delta_days`, a week later where it is negative.
unfoldable pub delta_days : ℕ → ℕ → ℕ
delta_days start_day weekday =
    if ltb start_day weekday then start_day + 7 - weekday else start_day - weekday

abbrev pub add_days : CivilTime → ℕ → CivilTime
add_days c days = record c { day = c.day + days }

unfoldable pub window_cycle_seconds : SessionWindowSpec → ℕ
window_cycle_seconds window = if has_value window.start_day then 7 * 86400 else 86400

unfoldable pub current_window_start_second : SessionWindowSpec → CalendarPoint → ℤ
unfolding current_second second_in_cycle window_cycle_seconds
current_window_start_second window point =
    let current = current_second window point in
    let first = second_in_cycle window.start_day window.start_second in
    let last = second_in_cycle window.end_day window.end_second in
    if first == last
    then pos current
    else if ltb first last
    then pos first
    else if leb first current
    then pos first
    else pos first -ℤ pos (window_cycle_seconds window)

-- The local variable `duration`.
unfoldable pub window_duration : SessionWindowSpec → ℤ
unfolding second_in_cycle window_cycle_seconds
window_duration window =
    let first = second_in_cycle window.start_day window.start_second in
    let last = second_in_cycle window.end_day window.end_second in
    let span = pos last -ℤ pos first in
    if lebℤ span (pos 0) then span +ℤ pos (window_cycle_seconds window) else span

-- The local variable `delta_seconds`.
unfoldable pub delta_seconds : SessionWindowSpec → CalendarPoint → ℤ
unfolding current_window_start_second window_duration
delta_seconds window point =
    let close_second = current_window_start_second window point +ℤ window_duration window in
    let current_base = if has_value window.start_day then point.weekday * 86400 else 0 in
    close_second -ℤ pos (current_base + point.second_of_day)

-- The end of `MakeUnixTimeNs`; the product is modulo 2 ^ 64.
abbrev pub to_unix_time_ns : ℤ → Option ℕ
to_unix_time_ns (pos seconds) = some ((seconds * 1_000_000_000) % 2 ^ 64)
to_unix_time_ns (negsuc n) = none

-- The zones of the process are parameters: `zone true` is the local one.
module _ (zone : Bool → Zone) where
  unfoldable pub build_calendar_point : ℕ → Bool → CalendarPoint
  build_calendar_point unix_time_ns use_local_time =
      let z = zone use_local_time in
      let unix_seconds = unix_time_ns / 1_000_000_000 in
      let civil_time = z.civil_time unix_seconds in
      record {
        civil_time = civil_time;
        weekday = z.weekday unix_seconds;
        second_of_day =
            civil_time.hour * 3600 + civil_time.minute * 60 + nonnegative civil_time.second;
      }

  unfoldable pub make_unix_time_ns : CivilTime → Bool → Option ℕ
  make_unix_time_ns civil_time use_local_time =
      to_unix_time_ns ((zone use_local_time).unix_seconds civil_time)

  unfoldable pub is_within_window : SessionWindowSpec → ℕ → Bool
  unfolding build_calendar_point current_second second_in_cycle is_between
  is_within_window window unix_time_ns =
      is_between (second_in_cycle window.start_day window.start_second)
        (second_in_cycle window.end_day window.end_second)
        (current_second window (build_calendar_point unix_time_ns window.use_local_time))

  -- The end of both branches: `cycle_days` later when the candidate is not after the instant.
  unfoldable pub candidate_after : CivilTime → ℕ → Bool → ℕ → Option ℕ
  unfolding make_unix_time_ns
  candidate_after candidate cycle_days use_local_time unix_time_ns =
      elim (make_unix_time_ns candidate use_local_time) [
        | none ↦ none
        | some candidate_ns ↦
            if leb candidate_ns unix_time_ns
            then make_unix_time_ns (add_days candidate cycle_days) use_local_time
            else some candidate_ns
      ]

  unfoldable pub next_window_start : SessionWindowSpec → ℕ → Option ℕ
  unfolding is_within_window build_calendar_point start_candidate delta_days candidate_after
  next_window_start window unix_time_ns =
      let point = build_calendar_point unix_time_ns window.use_local_time in
      let candidate = start_candidate window point in
      if is_within_window window unix_time_ns then some unix_time_ns else elim window.start_day [
        | some start_day ↦
            candidate_after (add_days candidate (delta_days start_day point.weekday)) 7
              window.use_local_time unix_time_ns
        | none ↦ candidate_after candidate 1 window.use_local_time unix_time_ns
      ]

  unfoldable pub next_window_close : SessionWindowSpec → ℕ → Option ℕ
  unfolding is_within_window build_calendar_point delta_seconds make_unix_time_ns
  next_window_close window unix_time_ns =
      let point = build_calendar_point unix_time_ns window.use_local_time in
      let candidate = record point.civil_time {
        second = point.civil_time.second +ℤ delta_seconds window point;
      } in
      if not (is_within_window window unix_time_ns)
      then none
      else make_unix_time_ns candidate window.use_local_time
