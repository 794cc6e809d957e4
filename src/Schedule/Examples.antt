-- ===== src/Schedule/Examples.antt =====
-- Runs of the schedule and instances of the theorems.
use nimblefix.Common.{
  ℕ, ◌<◌, ◌≤◌, Bool, leb, ltb, ◌&&◌, true, false, some, none, List, [], ◌∷◌, ◌≡◌, refl, arith,
}
use nimblefix.Status.{ok}
use nimblefix.Schedule.{
  build_segment_specs, build_window_spec, spec_of, seconds_of_day, SessionWindowSpec, WindowFields,
  SessionScheduleConfig, monday, friday, build_window_specs, validate_session_schedule,
  validate_segments, validate_time_pair, has_legacy_window_fields, is_out_of_range,
  is_valid_time_of_day, has_window_fields,
}
use nimblefix.Schedule.Window.{
  utc, next_window_start, next_window_close, is_within_window, build_calendar_point, current_second,
  second_in_cycle, is_between, make_unix_time_ns, delta_seconds, current_window_start_second,
  window_duration, window_cycle_seconds, start_candidate, candidate_after, delta_days,
}
use nimblefix.Schedule.Validated.{AllInRange, build_window_specs-AllInRange}
use nimblefix.Schedule.Position.{zones}
use nimblefix.Schedule.Closing.{next_window_close-open, next_window_close-shuts}
use nimblefix.Schedule.Opening.{next_window_start-opens, next_window_start-first}
use nimblefix.Schedule.Search.{
  next_start, is_within, earliest_containing_window_close, earliest_close_from, is_within_any,
  is_within_some,
}
use nimblefix.Schedule.Search.First.{next_start_lem}
use nimblefix.Schedule.Calendar.{
  CalendarCall, adds, removes, adds_all, calendar_run, is_blackout_date,
}
use nimblefix.Schedule.Blackouts.{RisesFrom, set_run, is_blackout_date-calendar_run}
use nimblefix.Schedule.Dates.{
  parse_blackout_date, blackout_date_to_string, validate_date_parts, days_in_month, is_leap_year,
}
use nimblefix.Schedule.Dates.RoundTrip.{parse_blackout_date-to_string}

-- Monday 08:00 to Friday 17:00.
abbrev week : SessionWindowSpec
week = record {
  use_local_time = false;
  start_second = 28800;
  end_second = 61200;
  start_day = some 1;
  end_day = some 5;
}

-- Thursday 1970-01-08, 00:00.
abbrev thursday_ns : ℕ
thursday_ns = 604_800_000_000_000

-- Friday 1970-01-09, 17:00.
abbrev friday_ns : ℕ
friday_ns = 752_400_000_000_000

abbrev saturday_ns : ℕ
saturday_ns = 777_600_000_000_000

-- Monday 1970-01-12, 08:00.
abbrev monday_ns : ℕ
monday_ns = 979_200_000_000_000

next_window_close-open_example : is_within_window (zones utc) week 700_000_000_000_000 ≡ true
unfolding next_window_close is_within_window build_calendar_point current_second second_in_cycle
    is_between delta_seconds current_window_start_second window_duration window_cycle_seconds
    make_unix_time_ns
next_window_close-open_example =
    next_window_close-open utc week thursday_ns friday_ns 700_000_000_000_000 refl (omega arith)
      (omega arith) refl (omega arith) (omega arith)

next_window_close-shuts_example :
    (close : ℕ) × (next_window_close (zones utc) week thursday_ns ≡ some close)
    × (thursday_ns < close)
    × (is_within_window (zones utc) week close ≡ false)
unfolding is_within_window build_calendar_point current_second second_in_cycle is_between
next_window_close-shuts_example =
    next_window_close-shuts utc week thursday_ns refl (omega arith) (omega arith) refl
      (λ e. absurd (ground arith))

next_window_start-opens_example :
    (opening : ℕ) × (next_window_start (zones utc) week saturday_ns ≡ some opening)
    × (saturday_ns ≤ opening)
    × (is_within_window (zones utc) week opening ≡ true)
next_window_start-opens_example =
    next_window_start-opens utc week saturday_ns refl (omega arith) (omega arith)

next_window_start-first_example : is_within_window (zones utc) week 900_000_000_000_000 ≡ false
unfolding next_window_start is_within_window build_calendar_point current_second second_in_cycle
    is_between start_candidate candidate_after delta_days make_unix_time_ns
next_window_start-first_example =
    next_window_start-first utc week saturday_ns monday_ns 900_000_000_000_000 refl (omega arith)
      (omega arith) refl (omega arith) (omega arith)

abbrev week_fields : WindowFields
week_fields = record {
  start_time = some (record { hour = 8; minute = 0; second = 0 });
  end_time = some (record { hour = 17; minute = 0; second = 0 });
  start_day = some monday;
  end_day = some friday;
}

abbrev no_fields : WindowFields
no_fields = record { start_time = none; end_time = none; start_day = none; end_day = none }

abbrev schedule : SessionScheduleConfig
schedule = record {
  use_local_time = false;
  non_stop_session = false;
  session = no_fields;
  logon = no_fields;
  segments = record { use_local_time = false; session = week_fields; logon = no_fields } ∷ [];
}

build_window_specs-AllInRange_example : AllInRange (build_window_specs schedule true)
unfolding validate_session_schedule validate_segments validate_time_pair has_legacy_window_fields
    is_out_of_range is_valid_time_of_day has_window_fields
build_window_specs-AllInRange_example = build_window_specs-AllInRange schedule true refl

abbrev holiday_calls : List CalendarCall
holiday_calls = adds 20261225 ∷ adds_all (20260704 ∷ 20261225 ∷ []) ∷ removes 20261225 ∷ []

is_blackout_date-calendar_run_example :
    RisesFrom 0 (calendar_run holiday_calls [])
    × (is_blackout_date 20260704 (calendar_run holiday_calls [])
        ≡ set_run 20260704 holiday_calls false)
is_blackout_date-calendar_run_example = is_blackout_date-calendar_run 20260704 holiday_calls

parse_blackout_date-to_string_example :
    parse_blackout_date (blackout_date_to_string 20240229) ≡ ok 20240229
unfolding validate_date_parts days_in_month is_leap_year
parse_blackout_date-to_string_example = parse_blackout_date-to_string 20240229 (omega arith) refl

next_start_lem_example :
    (opening : ℕ) × (next_start (zones utc) schedule true saturday_ns ≡ some (some opening))
    × (saturday_ns ≤ opening)
    × (is_within (zones utc) schedule true opening ≡ some true)
    × ((held : Bool) × (is_within (zones utc) schedule true 900_000_000_000_000 ≡ some held)
        × ((leb saturday_ns 900_000_000_000_000 && ltb 900_000_000_000_000 opening && held)
            ≡ false))
unfolding validate_session_schedule validate_segments validate_time_pair has_legacy_window_fields
    is_out_of_range is_valid_time_of_day has_window_fields build_window_specs build_segment_specs
    build_window_spec spec_of seconds_of_day
next_start_lem_example =
    next_start_lem utc schedule true saturday_ns 900_000_000_000_000 (week ∷ []) (omega arith) refl
      refl (refl, tt)

-- 20240229.
abbrev leap_text : List ℕ
leap_text = 50 ∷ 48 ∷ 50 ∷ 52 ∷ 48 ∷ 50 ∷ 50 ∷ 57 ∷ []

-- 08:00 to 12:00 and 10:00 to 17:00 of every day.
abbrev morning : SessionWindowSpec
morning = record {
  use_local_time = false;
  start_second = 28800;
  end_second = 43200;
  start_day = none;
  end_day = none;
}

abbrev midday : SessionWindowSpec
midday = record morning { start_second = 36000; end_second = 61200 }

-- At 11:00 the close that is found is 12:00, when the second window is still open.
overlapping_close :
    (earliest_containing_window_close (zones utc) (morning ∷ midday ∷ []) 39_600_000_000_000
      ≡ some 43_200_000_000_000)
    × (is_within_any (zones utc) (morning ∷ midday ∷ []) 43_200_000_000_000 ≡ true)
unfolding earliest_containing_window_close earliest_close_from is_within_any is_within_some
    next_window_close is_within_window build_calendar_point current_second second_in_cycle
    is_between delta_seconds current_window_start_second window_duration window_cycle_seconds
    make_unix_time_ns
overlapping_close = (refl, refl)
