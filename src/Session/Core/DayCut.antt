-- ===== src/Session/Core/DayCut.antt =====
-- `SessionCore::CheckDayCut` and `SessionCore::TriggerDayCut`.
use nimblefix.Common.{ℕ, ◌/◌, Bool, true, false, ◌&&◌, ◌||◌, none, if◌then◌else◌}
use nimblefix.Common.Int.{ℤ, pos, ◌+ℤ◌, ◌-ℤ◌, quot, rem, to_int32, ltbℤ, lebℤ}
use nimblefix.Status.{Status}
use nimblefix.Session.State.{
  SessionCore, DayCutConfig, DayCutMode, fixed_local_time, fixed_utc_time, disconnected, active,
  same_state, refuse, done,
}

unfoldable pub trigger_day_cut : SessionCore → SessionCore × Status
trigger_day_cut c =
    if same_state c.state disconnected || same_state c.state active
    then done (record c { next_in_seq = 1; next_out_seq = 1; pending_resend = none })
    else refuse c

-- Whether the mode resets at a fixed time, and by which offset its day is shifted.
abbrev pub is_fixed_time : DayCutMode → Bool
is_fixed_time fixed_local_time = true
is_fixed_time fixed_utc_time = true
is_fixed_time _ = false

abbrev pub mode_offset : DayCutConfig → DayCutMode → ℤ
mode_offset config fixed_local_time = config.utc_offset_seconds
mode_offset config _ = pos 0

-- The local variable `adjusted_seconds`.
unfoldable pub adjusted_seconds : DayCutConfig → ℕ → ℤ
adjusted_seconds config now_ns = pos (now_ns / 1_000_000_000) +ℤ mode_offset config config.mode

-- The local variable `past_reset`, at a number of seconds.
unfoldable pub past_reset : DayCutConfig → ℤ → Bool
past_reset config seconds =
    let time_of_day = rem seconds 86400 in
    let hour = to_int32 (quot time_of_day 3600) in
    let minute = to_int32 (quot (rem time_of_day 3600) 60) in
    ltbℤ config.reset_hour hour
    || (lebℤ hour config.reset_hour
        && lebℤ config.reset_hour hour
        && lebℤ config.reset_minute minute)

-- The local variable `effective_date`: the day whose session has begun at `now_ns`.
unfoldable pub effective_date : DayCutConfig → ℕ → ℤ
unfolding adjusted_seconds past_reset
effective_date config now_ns =
    let seconds = adjusted_seconds config now_ns in
    let day = to_int32 (quot seconds 86400) in
    if past_reset config seconds then day else day -ℤ pos 1

-- The part of `CheckDayCut` after the date is known.
unfoldable pub apply_day_cut : SessionCore → ℤ → SessionCore
unfolding trigger_day_cut
apply_day_cut c date =
    if ltbℤ c.last_day_cut_date (pos 0)
    then record c { last_day_cut_date = date }
    else if lebℤ date c.last_day_cut_date
    then c
    else (trigger_day_cut (record c { last_day_cut_date = date })).0

unfoldable pub check_day_cut : SessionCore → ℕ → SessionCore
check_day_cut c now_ns =
    if is_fixed_time c.day_cut_config.mode
    then apply_day_cut c (effective_date c.day_cut_config now_ns)
    else c

-- `SessionCore::SetDayCutConfig`.
unfoldable pub set_day_cut_config : SessionCore → DayCutConfig → SessionCore
set_day_cut_config c config = record c { day_cut_config = config }
