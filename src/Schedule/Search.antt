-- ===== src/Schedule/Search.antt =====
-- The searches over all windows of a schedule, in src/runtime/session_schedule.cpp and
-- src/runtime/config.cpp, and the schedule status. A result is none where the code reads an empty
-- optional.
pub mod First
use nimblefix.Common.{
  ℕ, ◌+◌, ◌-◌, ◌*◌, ◌/◌, ◌^◌, max, Bool, true, false, not, ◌&&◌, ◌||◌, Option, none, some, List, [],
  ◌∷◌, ltb, ◌==◌, if◌then◌else◌,
}
use nimblefix.Schedule.{SessionWindowSpec, SessionScheduleConfig, build_window_specs}
use nimblefix.Schedule.Window.{Zone, is_within_window, next_window_start, next_window_close}

-- The assignment `earliest = candidate`, under its condition.
abbrev pub keep_earlier : Option ℕ → Option ℕ → Option ℕ
keep_earlier earliest none = earliest
keep_earlier none (some candidate) = some candidate
keep_earlier (some earliest) (some candidate) =
    if ltb candidate earliest then some candidate else some earliest

-- What is computed of the windows, where they are built.
abbrev pub on_windows {ℓ} :
    {A : Type ℓ} → Option (List SessionWindowSpec) → (List SessionWindowSpec → A) → Option A
on_windows none f = none
on_windows (some windows) f = some (f windows)

module _ (zone : Bool → Zone) where
  -- The loop of `EarliestWindowStart`, from the value `earliest` on.
  unfoldable pub earliest_start_from : Option ℕ → List SessionWindowSpec → ℕ → Option ℕ
  earliest_start_from earliest [] unix_time_ns = earliest
  earliest_start_from earliest (window ∷ windows) unix_time_ns =
      earliest_start_from (keep_earlier earliest (next_window_start zone window unix_time_ns))
        windows unix_time_ns

  unfoldable pub earliest_window_start : List SessionWindowSpec → ℕ → Option ℕ
  unfolding earliest_start_from
  earliest_window_start [] unix_time_ns = some unix_time_ns
  earliest_window_start (window ∷ windows) unix_time_ns =
      earliest_start_from none (window ∷ windows) unix_time_ns

  -- The loop of `EarliestContainingWindowClose`, from the value `earliest` on.
  unfoldable pub earliest_close_from : Option ℕ → List SessionWindowSpec → ℕ → Option ℕ
  earliest_close_from earliest [] unix_time_ns = earliest
  earliest_close_from earliest (window ∷ windows) unix_time_ns =
      let skipped = earliest_close_from earliest windows unix_time_ns in
      let kept =
        earliest_close_from (keep_earlier earliest (next_window_close zone window unix_time_ns))
          windows unix_time_ns in
      if not (is_within_window zone window unix_time_ns) then skipped else kept

  unfoldable pub earliest_containing_window_close : List SessionWindowSpec → ℕ → Option ℕ
  unfolding earliest_close_from
  earliest_containing_window_close windows unix_time_ns =
      earliest_close_from none windows unix_time_ns

  -- `std::any_of`.
  unfoldable pub is_within_some : List SessionWindowSpec → ℕ → Bool
  is_within_some [] unix_time_ns = false
  is_within_some (window ∷ windows) unix_time_ns =
      is_within_window zone window unix_time_ns || is_within_some windows unix_time_ns

  -- No windows mean no restriction.
  unfoldable pub is_within_any : List SessionWindowSpec → ℕ → Bool
  unfolding is_within_some
  is_within_any [] unix_time_ns = true
  is_within_any (window ∷ windows) unix_time_ns = is_within_some (window ∷ windows) unix_time_ns

  -- `IsWithinSessionWindow` and, for the logon, `IsWithinLogonWindow`.
  unfoldable pub is_within : SessionScheduleConfig → Bool → ℕ → Option Bool
  unfolding is_within_any
  is_within schedule logon_window unix_time_ns =
      on_windows (build_window_specs schedule logon_window)
        (λ windows. is_within_any windows unix_time_ns)

  -- `NextSessionWindowStart` and, for the logon, `NextLogonWindowStart`.
  unfoldable pub next_start : SessionScheduleConfig → Bool → ℕ → Option (Option ℕ)
  unfolding earliest_window_start
  next_start schedule logon_window unix_time_ns =
      on_windows (build_window_specs schedule logon_window)
        (λ windows. earliest_window_start windows unix_time_ns)

  -- `NextSessionWindowClose` and, for the logon, `NextLogonWindowClose`.
  unfoldable pub next_close : SessionScheduleConfig → Bool → ℕ → Option (Option ℕ)
  unfolding earliest_containing_window_close
  next_close schedule logon_window unix_time_ns =
      on_windows (build_window_specs schedule logon_window)
        (λ windows. earliest_containing_window_close windows unix_time_ns)
