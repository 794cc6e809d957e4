-- ===== src/Schedule/Opening/Candidate.antt =====
-- The candidates that `NextWindowStart` tries, and how far they lie ahead.
use nimblefix.Common.{
  ℕ, ◌+◌, ◌-◌, ◌*◌, ◌/◌, ◌%◌, ◌^◌, ◌<◌, ◌≡◌, ◌≢◌, ◌∙◌, arith, false, none, some, ltb, leb,
  if◌then◌else◌, ap,
}
use nimblefix.Common.Int.{pos}
use nimblefix.Schedule.{SessionWindowSpec}
use nimblefix.Schedule.Window.{
  CivilTime, Zone, utc, build_calendar_point, is_within_window, start_candidate, delta_days,
  candidate_after, next_window_start, add_days,
}
use nimblefix.Schedule.Position.{zones, make_unix_time_ns-utc}

-- The seconds from a position outside the window to its start.
abbrev pub wait_from : ℕ → ℕ → ℕ → ℕ
wait_from cycle first p = if ltb p first then first - p else first + cycle - p

-- The end of the search when the candidate stands at second `n`.
pub candidate_after_lem :
    (here : Zone) (c : CivilTime) (days n t : ℕ)
    → utc.unix_seconds c ≡ pos n
    → utc.unix_seconds (add_days c days) ≡ pos (n + days * 86400)
    → (n + days * 86400) * 1_000_000_000 < 2 ^ 64
    → candidate_after (zones here) c days false t
      ≡ some (
          if leb (n * 1_000_000_000) t
          then (n + days * 86400) * 1_000_000_000
          else n * 1_000_000_000)
unfolding candidate_after
candidate_after_lem here c days n t e g small =
    let now = make_unix_time_ns-utc here c n e (omega arith) in
    let later = make_unix_time_ns-utc here (add_days c days) (n + days * 86400) g small in
    rw (now, later) (ground arith)

-- The second at which the candidate of the day `day` stands.
pub candidate_seconds :
    (day start_second : ℕ)
    → start_second < 86400
    → utc.unix_seconds (record {
      day = day;
      hour = start_second / 3600;
      minute = (start_second / 60) % 60;
      second = pos (start_second % 60);
    })
      ≡ pos (day * 86400 + start_second)
candidate_seconds day start_second h = ground arith

pub daily_wait :
    (s start_second t : ℕ)
    → start_second < 86400
    → start_second ≢ s % 86400
    → s ≡ t / 1_000_000_000
    → (if leb ((s / 86400 * 86400 + start_second) * 1_000_000_000) t
        then (s / 86400 * 86400 + start_second + 1 * 86400) * 1_000_000_000
        else (s / 86400 * 86400 + start_second) * 1_000_000_000)
      ≡ (s + wait_from 86400 start_second (s % 86400)) * 1_000_000_000
daily_wait s start_second t h g e = ground arith

pub weekly_wait :
    (s start_day start_second t : ℕ)
    → start_second < 86400
    → start_day < 7
    → start_day * 86400 + start_second ≢ (s + 345600) % 604800
    → s ≡ t / 1_000_000_000
    → let n = (s / 86400 + delta_days start_day ((s / 86400 + 4) % 7)) * 86400 + start_second in
      (if leb (n * 1_000_000_000) t then (n + 7 * 86400) * 1_000_000_000 else n * 1_000_000_000)
      ≡ (s + wait_from 604800 (start_day * 86400 + start_second) ((s + 345600) % 604800))
        * 1_000_000_000
unfolding delta_days
weekly_wait s start_day start_second t h g k e = ground arith

-- The candidate of `start_candidate` on the day `day`.
abbrev pub candidate_on : ℕ → ℕ → CivilTime
candidate_on day start_second = record {
  day = day;
  hour = start_second / 3600;
  minute = (start_second / 60) % 60;
  second = pos (start_second % 60);
}

pub candidate_on-after :
    (here : Zone) (day days start_second t : ℕ)
    → start_second < 86400
    → (day + days + 1) * 86400 * 1_000_000_000 < 2 ^ 64
    → candidate_after (zones here) (candidate_on day start_second) days false t
      ≡ some (
          if leb ((day * 86400 + start_second) * 1_000_000_000) t
          then (day * 86400 + start_second + days * 86400) * 1_000_000_000
          else (day * 86400 + start_second) * 1_000_000_000)
candidate_on-after here day days start_second t h small =
    candidate_after_lem here (candidate_on day start_second) days (day * 86400 + start_second) t
      (candidate_seconds day start_second h)
      (candidate_seconds (day + days) start_second h ∙ ap pos (omega arith)) (omega arith)

pub daily_start :
    (here : Zone) (window : SessionWindowSpec) (t : ℕ)
    → window.use_local_time ≡ false
    → window.start_day ≡ none
    → is_within_window (zones here) window t ≡ false
    → next_window_start (zones here) window t
      ≡ candidate_after
          (zones here)
          (candidate_on (t / 1_000_000_000 / 86400) window.start_second)
          1
          false
          t
unfolding next_window_start start_candidate build_calendar_point
daily_start here window t h day outside = rw outside (ground arith)

pub weekly_start :
    (here : Zone) (window : SessionWindowSpec) (start_day t : ℕ)
    → window.use_local_time ≡ false
    → window.start_day ≡ some start_day
    → is_within_window (zones here) window t ≡ false
    → let day = t / 1_000_000_000 / 86400 in
      next_window_start (zones here) window t
      ≡ candidate_after
          (zones here)
          (candidate_on (day + delta_days start_day ((day + 4) % 7)) window.start_second)
          7
          false
          t
unfolding next_window_start start_candidate build_calendar_point
weekly_start here window start_day t h day outside = rw outside (ground arith)

pub delta_days-le :
    (start_day weekday : ℕ) → start_day < 7 → weekday < 7 → delta_days start_day weekday < 7
unfolding delta_days
delta_days-le start_day weekday h g = ground arith
