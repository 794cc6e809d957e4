-- ===== src/Schedule/Calendar.antt =====
-- `BlackoutCalendar` of src/runtime/session_schedule.cpp: a sorted vector of dates as a list.
use nimblefix.Common.{ℕ, zero, suc, Bool, false, not, List, [], ◌∷◌, ◌==◌, ltb, if◌then◌else◌}

-- `std::lower_bound`: the index of the first date that is not before `date`.
unfoldable pub lower_bound : List ℕ → ℕ → ℕ
lower_bound [] date = 0
lower_bound (d ∷ dates) date =
    let later = lower_bound dates date in if ltb d date then suc later else 0

-- `dates_.insert(it, date)`.
unfoldable pub insert_at : ℕ → ℕ → List ℕ → List ℕ
insert_at zero date dates = date ∷ dates
insert_at (suc i) date [] = date ∷ []
insert_at (suc i) date (d ∷ dates) = d ∷ insert_at i date dates

-- `dates_.erase(it)`.
unfoldable pub erase_at : ℕ → List ℕ → List ℕ
erase_at i [] = []
erase_at zero (d ∷ dates) = dates
erase_at (suc i) (d ∷ dates) = d ∷ erase_at i dates

-- `it != dates_.end() && *it == date`.
unfoldable pub stands_at : ℕ → ℕ → List ℕ → Bool
stands_at i date [] = false
stands_at zero date (d ∷ dates) = d == date
stands_at (suc i) date (d ∷ dates) = stands_at i date dates

unfoldable pub add_date : ℕ → List ℕ → List ℕ
unfolding lower_bound insert_at stands_at
add_date date dates =
    let it = lower_bound dates date in
    if not (stands_at it date dates) then insert_at it date dates else dates

unfoldable pub add_dates : List ℕ → List ℕ → List ℕ
unfolding add_date
add_dates [] dates = dates
add_dates (date ∷ more) dates = add_dates more (add_date date dates)

unfoldable pub remove_date : ℕ → List ℕ → List ℕ
unfolding lower_bound erase_at stands_at
remove_date date dates =
    let it = lower_bound dates date in if stands_at it date dates then erase_at it dates else dates

unfoldable pub clear : List ℕ → List ℕ
clear dates = []

-- `std::binary_search`.
unfoldable pub is_blackout_date : ℕ → List ℕ → Bool
unfolding lower_bound stands_at
is_blackout_date date dates = stands_at (lower_bound dates date) date dates

-- The calls that change a calendar.
pub data CalendarCall : Type 0 where
  adds removes : ℕ → CalendarCall
  adds_all : List ℕ → CalendarCall
  clears : CalendarCall

unfoldable pub calendar_step : CalendarCall → List ℕ → List ℕ
calendar_step (adds date) dates = add_date date dates
calendar_step (removes date) dates = remove_date date dates
calendar_step (adds_all more) dates = add_dates more dates
calendar_step clears dates = clear dates

unfoldable pub calendar_run : List CalendarCall → List ℕ → List ℕ
calendar_run [] dates = dates
calendar_run (call ∷ calls) dates = calendar_run calls (calendar_step call dates)
