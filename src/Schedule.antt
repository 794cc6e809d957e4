-- ===== src/Schedule.antt =====
-- The session schedule of include/public/nimblefix/runtime/config.h with its validation and its
-- window specifications in src/runtime/config.cpp.
pub mod Window
pub mod Validated
pub mod Position
pub mod Closing
pub mod Opening
pub mod Search
pub mod Calendar
pub mod Blackouts
pub mod Dates
mod Examples
use nimblefix.Common.{
  ℕ, ◌+◌, ◌*◌, Bool, true, false, not, ◌&&◌, ◌||◌, Option, none, some, List, [], ◌∷◌, ltb,
  if◌then◌else◌,
}
use nimblefix.Status.{Status, ok, err, invalid_argument}

-- `SessionDayOfWeek`.
pub data SessionDayOfWeek : Type 0 where
  sunday monday tuesday wednesday thursday friday saturday : SessionDayOfWeek

-- The conversion to `int`.
abbrev pub day_number : SessionDayOfWeek → ℕ
day_number sunday = 0
day_number monday = 1
day_number tuesday = 2
day_number wednesday = 3
day_number thursday = 4
day_number friday = 5
day_number saturday = 6

pub record SessionTimeOfDay : Type 0 where
  pub hour : ℕ
  pub minute : ℕ
  pub second : ℕ

-- Two optional times and two optional days, of the session or of the logon.
pub record WindowFields : Type 0 where
  pub start_time : Option SessionTimeOfDay
  pub end_time : Option SessionTimeOfDay
  pub start_day : Option SessionDayOfWeek
  pub end_day : Option SessionDayOfWeek

-- The fields `logon_time`, `logout_time`, `logon_day` and `logout_day` are `logon`.
pub record SessionScheduleSegment : Type 0 where
  pub use_local_time : Bool
  pub session : WindowFields
  pub logon : WindowFields

pub record SessionScheduleConfig : Type 0 where
  pub use_local_time : Bool
  pub non_stop_session : Bool
  pub session : WindowFields
  pub logon : WindowFields
  pub segments : List SessionScheduleSegment

pub record SessionWindowSpec : Type 0 where
  pub use_local_time : Bool
  pub start_second : ℕ
  pub end_second : ℕ
  pub start_day : Option ℕ
  pub end_day : Option ℕ

abbrev pub has_value {ℓ} : {A : Type ℓ} → Option A → Bool
has_value none = false
has_value (some a) = true

unfoldable pub is_valid_time_of_day : SessionTimeOfDay → Bool
is_valid_time_of_day time = ltb time.hour 24 && ltb time.minute 60 && ltb time.second 60

-- `HasSessionWindowFields` and `HasLogonWindowFields`.
unfoldable pub has_window_fields : WindowFields → Bool
has_window_fields f =
    has_value f.start_time || has_value f.end_time || has_value f.start_day || has_value f.end_day

unfoldable pub seconds_of_day : SessionTimeOfDay → ℕ
seconds_of_day time = time.hour * 3600 + time.minute * 60 + time.second

-- `start_time.has_value() && !IsValidTimeOfDay(*start_time)`.
unfoldable pub is_out_of_range : Option SessionTimeOfDay → Bool
unfolding is_valid_time_of_day
is_out_of_range none = false
is_out_of_range (some time) = not (is_valid_time_of_day time)

-- `!=` on Booleans.
abbrev pub differs : Bool → Bool → Bool
differs true b = not b
differs false b = b

-- The lambda `validate_time_pair`.
unfoldable pub validate_time_pair : WindowFields → Status
unfolding is_out_of_range
validate_time_pair f =
    if differs (has_value f.start_time) (has_value f.end_time)
    then err invalid_argument
    else if differs (has_value f.start_day) (has_value f.end_day)
    then err invalid_argument
    else if (has_value f.start_day || has_value f.end_day) && not (has_value f.start_time)
    then err invalid_argument
    else if is_out_of_range f.start_time
    then err invalid_argument
    else if is_out_of_range f.end_time
    then err invalid_argument
    else ok tt

-- The early return of a status that is not ok.
abbrev pub and_then : Status → Status → Status
and_then (ok u) next = next
and_then (err e) next = err e

-- The loop over the segments.
unfoldable pub validate_segments : List SessionScheduleSegment → Status
unfolding validate_time_pair
validate_segments [] = ok tt
validate_segments (segment ∷ segments) =
    and_then (validate_time_pair segment.session)
      (and_then (validate_time_pair segment.logon) (validate_segments segments))

abbrev pub is_empty {ℓ} : {A : Type ℓ} → List A → Bool
is_empty [] = true
is_empty (x ∷ xs) = false

-- `HasLegacyWindowFields`.
unfoldable pub has_legacy_window_fields : SessionScheduleConfig → Bool
unfolding has_window_fields
has_legacy_window_fields schedule =
    has_window_fields schedule.session || has_window_fields schedule.logon

unfoldable pub validate_session_schedule : SessionScheduleConfig → Status
unfolding has_legacy_window_fields validate_segments validate_time_pair
validate_session_schedule schedule =
    if not (is_empty schedule.segments)
    then (if schedule.non_stop_session
        then err invalid_argument
        else if has_legacy_window_fields schedule
        then err invalid_argument
        else validate_segments schedule.segments)
    else if schedule.non_stop_session && has_legacy_window_fields schedule
    then err invalid_argument
    else and_then (validate_time_pair schedule.session) (validate_time_pair schedule.logon)

abbrev pub map_day : Option SessionDayOfWeek → Option ℕ
map_day none = none
map_day (some day) = some (day_number day)

-- The specification of given fields; none where the code reads an optional that is empty.
unfoldable pub spec_of : Bool → WindowFields → Option SessionWindowSpec
unfolding seconds_of_day
spec_of use_local_time f = elim f.start_time [
  | none ↦ none
  | some opening ↦ elim f.end_time [
    | none ↦ none
    | some closing ↦ some (record {
      use_local_time = use_local_time;
      start_second = seconds_of_day opening;
      end_second = seconds_of_day closing;
      start_day = map_day f.start_day;
      end_day = map_day f.end_day;
    })
  ]
]

-- What `BuildWindowSpec` does: it returns no window, a window, or reads an empty optional.
pub data BuiltWindow : Type 0 where
  no_window : BuiltWindow
  a_window : SessionWindowSpec → BuiltWindow
  reads_empty : BuiltWindow

abbrev pub built : Option SessionWindowSpec → BuiltWindow
built none = reads_empty
built (some window) = a_window window

unfoldable pub build_window_spec : SessionScheduleConfig → Bool → BuiltWindow
unfolding has_window_fields spec_of
build_window_spec schedule logon_window =
    if schedule.non_stop_session
    then no_window
    else if logon_window && has_window_fields schedule.logon
    then built (spec_of schedule.use_local_time schedule.logon)
    else if not (has_window_fields schedule.session)
    then no_window
    else built (spec_of schedule.use_local_time schedule.session)

-- The local variable `segment_schedule`.
abbrev pub segment_schedule : SessionScheduleSegment → SessionScheduleConfig
segment_schedule segment = record {
  use_local_time = segment.use_local_time;
  non_stop_session = false;
  session = segment.session;
  logon = segment.logon;
  segments = [];
}

-- `windows.push_back(*window)` before the windows that follow; none once an empty optional is read.
abbrev pub push_window :
    BuiltWindow → Option (List SessionWindowSpec) → Option (List SessionWindowSpec)
push_window no_window windows = windows
push_window (a_window window) none = none
push_window (a_window window) (some windows) = some (window ∷ windows)
push_window reads_empty windows = none

-- The loop over the segments.
unfoldable pub build_segment_specs :
    List SessionScheduleSegment → Bool → Option (List SessionWindowSpec)
unfolding build_window_spec
build_segment_specs [] logon_window = some []
build_segment_specs (segment ∷ segments) logon_window =
    push_window (build_window_spec (segment_schedule segment) logon_window)
      (build_segment_specs segments logon_window)

unfoldable pub build_window_specs : SessionScheduleConfig → Bool → Option (List SessionWindowSpec)
unfolding build_window_spec build_segment_specs
build_window_specs schedule logon_window =
    if schedule.non_stop_session
    then some []
    else if not (is_empty schedule.segments)
    then build_segment_specs schedule.segments logon_window
    else push_window (build_window_spec schedule logon_window) (some [])
