-- ===== src/Schedule/Validated.antt =====
-- A validated schedule builds its windows without reading an empty optional.
use nimblefix.Common.{
  ℕ, ◌<◌, ◌≡◌, ◌⊎◌, inl, inr, refl, arith, Bool, true, false, Option, none, some, List, [], ◌∷◌,
  All, Bool-cases, ◌&&◌,
}
use nimblefix.Status.{Status, ok, err}
use nimblefix.Schedule.{
  SessionDayOfWeek, day_number, SessionTimeOfDay, WindowFields, SessionScheduleSegment,
  SessionScheduleConfig, SessionWindowSpec, is_valid_time_of_day, has_window_fields, seconds_of_day,
  is_out_of_range, validate_time_pair, validate_segments, validate_session_schedule, spec_of,
  BuiltWindow, no_window, a_window, reads_empty, built, build_window_spec, segment_schedule,
  build_segment_specs, build_window_specs, is_empty, and_then, push_window,
}

-- The days are given both or not at all, and stand for days of the week.
abbrev pub AreDays : Option ℕ → Option ℕ → Type 0
AreDays none none = Unit
AreDays (some first) (some last) = (first < 7) × (last < 7)
AreDays _ _ = ⊥

-- A window whose times lie within a day and whose days come in pairs.
abbrev pub IsInRange : SessionWindowSpec → Type 0
IsInRange window =
    (window.start_second < 86400)
    × (window.end_second < 86400)
    × AreDays window.start_day window.end_day

-- No empty optional is read, and a window is in range.
abbrev IsBuilt : BuiltWindow → Type 0
IsBuilt no_window = Unit
IsBuilt (a_window window) = IsInRange window
IsBuilt reads_empty = ⊥

valid_time :
    (time : SessionTimeOfDay) → is_valid_time_of_day time ≡ true → seconds_of_day time < 86400
unfolding is_valid_time_of_day seconds_of_day
valid_time time h = ground arith

day_number-lt : (day : SessionDayOfWeek) → day_number day < 7
day_number-lt day = ground arith

-- The fields one by one.
abbrev fields :
    Option SessionTimeOfDay
    → Option SessionTimeOfDay
    → Option SessionDayOfWeek
    → Option SessionDayOfWeek
    → WindowFields
fields start_time end_time start_day end_day = record {
  start_time = start_time;
  end_time = end_time;
  start_day = start_day;
  end_day = end_day;
}

valid_times :
    (opening closing : SessionTimeOfDay) (start_day end_day : Option SessionDayOfWeek)
    → validate_time_pair (fields (some opening) (some closing) start_day end_day) ≡ ok tt
    → (seconds_of_day opening < 86400) × (seconds_of_day closing < 86400)
unfolding validate_time_pair is_out_of_range
valid_times opening closing start_day end_day h =
    let e : (is_valid_time_of_day opening ≡ true) × (is_valid_time_of_day closing ≡ true) =
      ground arith in
    (valid_time opening (e.0), valid_time closing (e.1))

fields-IsBuilt :
    (start_time end_time : Option SessionTimeOfDay) (start_day end_day : Option SessionDayOfWeek)
    (use_local_time : Bool)
    → let f = fields start_time end_time start_day end_day in
      validate_time_pair f ≡ ok tt
      → has_window_fields f ≡ true
      → IsBuilt (built (spec_of use_local_time f))
unfolding validate_time_pair has_window_fields spec_of is_out_of_range
fields-IsBuilt (some opening) (some closing) none none use_local_time h g =
    let times = valid_times opening closing none none h in (times.0, times.1, tt)
fields-IsBuilt (some opening) (some closing) (some first) (some last) use_local_time h g =
    let times = valid_times opening closing (some first) (some last) h in
    (times.0, times.1, (day_number-lt first, day_number-lt last))
fields-IsBuilt (some opening) (some closing) (some first) none use_local_time h g =
    absurd (ground arith)
fields-IsBuilt (some opening) (some closing) none (some last) use_local_time h g =
    absurd (ground arith)
fields-IsBuilt (some opening) none start_day end_day use_local_time h g = absurd (ground arith)
fields-IsBuilt none end_time start_day end_day use_local_time h g = absurd (ground arith)

spec_of-IsBuilt :
    (use_local_time : Bool) (f : WindowFields)
    → validate_time_pair f ≡ ok tt
    → has_window_fields f ≡ true
    → IsBuilt (built (spec_of use_local_time f))
spec_of-IsBuilt use_local_time f h g =
    fields-IsBuilt f.start_time f.end_time f.start_day f.end_day use_local_time h g

build_window_spec-IsBuilt :
    (schedule : SessionScheduleConfig) (logon_window : Bool)
    → validate_time_pair schedule.session ≡ ok tt
    → validate_time_pair schedule.logon ≡ ok tt
    → IsBuilt (build_window_spec schedule logon_window)
unfolding build_window_spec
build_window_spec-IsBuilt schedule logon_window h g = elim (Bool-cases schedule.non_stop_session) [
  | inl e ↦ rw e tt
  | inr e ↦ elim (Bool-cases (logon_window && has_window_fields schedule.logon)) [
    | inl l ↦ rw (e, l) (spec_of-IsBuilt schedule.use_local_time schedule.logon g (ground arith))
    | inr l ↦ elim (Bool-cases (has_window_fields schedule.session)) [
      | inl s ↦ rw (e, l, s) (spec_of-IsBuilt schedule.use_local_time schedule.session h s)
      | inr s ↦ rw (e, l, s) tt
    ]
  ]
]

-- Windows that are all in range.
abbrev pub AllInRange : Option (List SessionWindowSpec) → Type 0
AllInRange none = ⊥
AllInRange (some windows) = All IsInRange windows

push_window-AllInRange :
    (b : BuiltWindow) (windows : Option (List SessionWindowSpec))
    → IsBuilt b
    → AllInRange windows
    → AllInRange (push_window b windows)
push_window-AllInRange no_window windows h g = g
push_window-AllInRange (a_window window) (some windows) h g = (h, g)
push_window-AllInRange (a_window window) none h g = g
push_window-AllInRange reads_empty windows h g = h

and_then-ok : (first next : Status) → and_then first next ≡ ok tt → (first ≡ ok tt) × (next ≡ ok tt)
and_then-ok (ok u) next h = (refl, h)
and_then-ok (err e) next h = absurd (ground arith)

build_segment_specs-AllInRange :
    (segments : List SessionScheduleSegment) (logon_window : Bool)
    → validate_segments segments ≡ ok tt
    → AllInRange (build_segment_specs segments logon_window)
unfolding validate_segments build_segment_specs
build_segment_specs-AllInRange [] logon_window h = tt
build_segment_specs-AllInRange (segment ∷ segments) logon_window h =
    let outer = and_then-ok (validate_time_pair segment.session) _ h in
    let inner = and_then-ok (validate_time_pair segment.logon) _ (outer.1) in
    push_window-AllInRange _ _
      (build_window_spec-IsBuilt (segment_schedule segment) logon_window (outer.0) (inner.0))
      (build_segment_specs-AllInRange segments logon_window (inner.1))

legacy_specs :
    (schedule : SessionScheduleConfig) (logon_window : Bool)
    → schedule.non_stop_session ≡ false
    → is_empty schedule.segments ≡ true
    → build_window_specs schedule logon_window
      ≡ push_window (build_window_spec schedule logon_window) (some [])
unfolding build_window_specs
legacy_specs schedule logon_window e m = rw (e, m) refl

segment_specs :
    (schedule : SessionScheduleConfig) (logon_window : Bool)
    → schedule.non_stop_session ≡ false
    → is_empty schedule.segments ≡ false
    → build_window_specs schedule logon_window ≡ build_segment_specs schedule.segments logon_window
unfolding build_window_specs
segment_specs schedule logon_window e m = rw (e, m) refl

non_stop_specs :
    (schedule : SessionScheduleConfig) (logon_window : Bool)
    → schedule.non_stop_session ≡ true
    → build_window_specs schedule logon_window ≡ some []
unfolding build_window_specs
non_stop_specs schedule logon_window e = rw e refl

-- What validation checks of the fields that are used.
validated_fields :
    (schedule : SessionScheduleConfig)
    → validate_session_schedule schedule ≡ ok tt
    → ((is_empty schedule.segments ≡ false) × (validate_segments schedule.segments ≡ ok tt))
      ⊎ ((is_empty schedule.segments ≡ true)
          × (and_then (validate_time_pair schedule.session) (validate_time_pair schedule.logon)
              ≡ ok tt))
unfolding validate_session_schedule
validated_fields schedule h = ground arith

-- The windows of a validated schedule, of the session or of the logon, are built without reading
-- an empty optional; their times lie within a day, and their days come in pairs.
pub build_window_specs-AllInRange :
    (schedule : SessionScheduleConfig) (logon_window : Bool)
    → validate_session_schedule schedule ≡ ok tt
    → AllInRange (build_window_specs schedule logon_window)
build_window_specs-AllInRange schedule logon_window h =
    elim (Bool-cases schedule.non_stop_session) [
      | inl e ↦ rw (non_stop_specs schedule logon_window e) tt
      | inr e ↦ elim (validated_fields schedule h) [
        | inl (m, valid) ↦
            rw (segment_specs schedule logon_window e m)
              (build_segment_specs-AllInRange schedule.segments logon_window valid)
        | inr (m, valid) ↦
            let both = and_then-ok (validate_time_pair schedule.session) _ valid in
            rw (legacy_specs schedule logon_window e m) (
              push_window-AllInRange _ (some [])
                (build_window_spec-IsBuilt schedule logon_window (both.0) (both.1)) tt)
      ]
    ]
