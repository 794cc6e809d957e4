-- ===== src/Schedule/Opening.antt =====
-- `NextWindowStart` agrees with `IsWithinWindow` for UTC windows.
pub mod Candidate
use nimblefix.Common.{
  ℕ, ◌+◌, ◌-◌, ◌*◌, ◌/◌, ◌%◌, ◌^◌, ◌≤◌, ◌<◌, ◌≡◌, ◌≢◌, inl, inr, refl, sym, ◌∙◌, arith, true, false,
  Option, none, some, ltb, leb, if◌then◌else◌, ap, Bool-cases, Option-cases,
}
use nimblefix.Common.Int.{pos}
use nimblefix.Schedule.{SessionWindowSpec}
use nimblefix.Schedule.Validated.{IsInRange, AreDays}
use nimblefix.Schedule.Window.{
  CivilTime, Zone, utc, build_calendar_point, second_in_cycle, is_between, is_within_window,
  start_candidate, delta_days, candidate_after, next_window_start, window_cycle_seconds, add_days,
}
use nimblefix.Schedule.Position.{
  zones, position, first_of, last_of, is_within_window_lem, IsLater, position-lt, position-IsLater,
  bounds-lt, make_unix_time_ns-utc,
}
use nimblefix.Schedule.Opening.Candidate.{
  wait_from, candidate_after_lem, candidate_seconds, daily_wait, weekly_wait, candidate_on,
  candidate_on-after, daily_start, weekly_start, delta_days-le,
}

is_between-before :
    (cycle first last p q d : ℕ)
    → first < cycle
    → last < cycle
    → IsLater cycle p q d
    → is_between first last p ≡ false
    → d < wait_from cycle first p
    → is_between first last q ≡ false
unfolding is_between
is_between-before cycle first last p q d hf hl later h g = ground arith

is_between-start :
    (cycle first last p q : ℕ)
    → first < cycle
    → last < cycle
    → IsLater cycle p q (wait_from cycle first p)
    → is_between first last p ≡ false
    → is_between first last q ≡ true
unfolding is_between
is_between-start cycle first last p q hf hl later h = ground arith

outside-first : (first last p : ℕ) → is_between first last p ≡ false → first ≢ p
unfolding is_between
outside-first first last p h = ground arith

-- The seconds that the window stays shut after second `s`.
unfoldable pub wait_seconds : SessionWindowSpec → ℕ → ℕ
wait_seconds window s =
    wait_from (window_cycle_seconds window) (first_of window) (position window s)

wait_daily :
    (window : SessionWindowSpec) (s : ℕ)
    → window.start_day ≡ none
    → (wait_seconds window s ≡ wait_from 86400 window.start_second (s % 86400))
      × (first_of window ≡ window.start_second)
      × (position window s ≡ s % 86400)
unfolding wait_seconds window_cycle_seconds position second_in_cycle
wait_daily window s day = ground arith

wait_weekly :
    (window : SessionWindowSpec) (start_day s : ℕ)
    → window.start_day ≡ some start_day
    → (wait_seconds window s
        ≡ wait_from 604800 (start_day * 86400 + window.start_second) ((s + 345600) % 604800))
      × (first_of window ≡ start_day * 86400 + window.start_second)
      × (position window s ≡ (s + 345600) % 604800)
unfolding wait_seconds window_cycle_seconds position second_in_cycle
wait_weekly window start_day s day = ground arith

AreDays-lt :
    (first_day last_day : Option ℕ) (i : ℕ)
    → AreDays first_day last_day
    → first_day ≡ some i
    → i < 7
AreDays-lt (some j) (some k) i h e = let less = h.0 in ground arith
AreDays-lt (some j) none i h e = absurd h
AreDays-lt none last_day i h e = absurd (ground arith)

first_day-lt :
    (window : SessionWindowSpec) (start_day : ℕ)
    → AreDays window.start_day window.end_day
    → window.start_day ≡ some start_day
    → start_day < 7
first_day-lt window start_day h day = AreDays-lt window.start_day window.end_day start_day h day

first-ne :
    (here : Zone) (window : SessionWindowSpec) (t : ℕ)
    → window.use_local_time ≡ false
    → is_within_window (zones here) window t ≡ false
    → first_of window ≢ position window (t / 1_000_000_000)
first-ne here window t h outside =
    outside-first (first_of window) (last_of window) (position window (t / 1_000_000_000))
      (sym (is_within_window_lem here window t h) ∙ outside)

next_window_start_lem :
    (here : Zone) (window : SessionWindowSpec) (t : ℕ)
    → window.use_local_time ≡ false
    → IsInRange window
    → t + 20 * 86400 * 1_000_000_000 < 2 ^ 64
    → is_within_window (zones here) window t ≡ false
    → let s = t / 1_000_000_000 in
      next_window_start (zones here) window t ≡ some ((s + wait_seconds window s) * 1_000_000_000)
next_window_start_lem here window t h range small outside =
    let s = t / 1_000_000_000 in
    let differ = first-ne here window t h outside in
    elim (Option-cases window.start_day) [
      | inl day ↦
          let facts = wait_daily window s day in
          daily_start here window t h day outside
          ∙ (candidate_on-after here (s / 86400) 1 window.start_second t (range.0) (omega arith)
              ∙ ap some (
                  daily_wait s window.start_second t (range.0)
                    (λ e. differ (facts.1 ∙ (e ∙ sym (facts.2)))) refl
                  ∙ ap (λ w. (s + w) * 1_000_000_000) (sym (facts.0))))
      | inr (start_day, day) ↦
          let facts = wait_weekly window start_day s day in
          let on = s / 86400 + delta_days start_day ((s / 86400 + 4) % 7) in
          let less = first_day-lt window start_day (range.2) day in
          let near = delta_days-le start_day ((s / 86400 + 4) % 7) less (omega arith) in
          weekly_start here window start_day t h day outside
          ∙ (candidate_on-after here on 7 window.start_second t (range.0) (omega arith)
              ∙ ap some (
                  weekly_wait s start_day window.start_second t (range.0) less
                    (λ e. differ (facts.1 ∙ (e ∙ sym (facts.2)))) refl
                  ∙ ap (λ w. (s + w) * 1_000_000_000) (sym (facts.0))))
    ]

wait_seconds-le :
    (window : SessionWindowSpec) (s : ℕ)
    → IsInRange window
    → wait_seconds window s ≤ window_cycle_seconds window
unfolding wait_seconds
wait_seconds-le window s range =
    let bounds = bounds-lt window range in let place = position-lt window s in ground arith

wait_seconds-pos : (window : SessionWindowSpec) (s : ℕ) → 0 < wait_seconds window s
unfolding wait_seconds
wait_seconds-pos window s = let place = position-lt window s in ground arith

-- The seconds before the start lie outside the window, and the start inside.
stays_shut :
    (here : Zone) (window : SessionWindowSpec) (now t : ℕ)
    → window.use_local_time ≡ false
    → IsInRange window
    → is_within_window (zones here) window now ≡ false
    → now / 1_000_000_000 ≤ t / 1_000_000_000
    → t / 1_000_000_000 < now / 1_000_000_000 + wait_seconds window (now / 1_000_000_000)
    → is_within_window (zones here) window t ≡ false
unfolding wait_seconds
stays_shut here window now t h range outside from below =
    let s = now / 1_000_000_000 in
    let u = t / 1_000_000_000 in
    let bounds = bounds-lt window range in
    let most = wait_seconds-le window s range in
    is_within_window_lem here window t h
    ∙ is_between-before (window_cycle_seconds window) (first_of window) (last_of window)
        (position window s) (position window u) (u - s) (bounds.0) (bounds.1)
        (position-IsLater window s u from (omega arith))
        (sym (is_within_window_lem here window now h) ∙ outside) (omega arith)

opens_at :
    (here : Zone) (window : SessionWindowSpec) (now t : ℕ)
    → window.use_local_time ≡ false
    → IsInRange window
    → is_within_window (zones here) window now ≡ false
    → t / 1_000_000_000 ≡ now / 1_000_000_000 + wait_seconds window (now / 1_000_000_000)
    → is_within_window (zones here) window t ≡ true
unfolding wait_seconds
opens_at here window now t h range outside e =
    let s = now / 1_000_000_000 in
    let u = t / 1_000_000_000 in
    let bounds = bounds-lt window range in
    let most = wait_seconds-le window s range in
    let later = position-IsLater window s u (omega arith) (omega arith) in
    is_within_window_lem here window t h
    ∙ is_between-start (window_cycle_seconds window) (first_of window) (last_of window)
        (position window s) (position window u) (bounds.0) (bounds.1) (ground arith)
        (sym (is_within_window_lem here window now h) ∙ outside)

start_within :
    (here : Zone) (window : SessionWindowSpec) (now : ℕ)
    → is_within_window (zones here) window now ≡ true
    → next_window_start (zones here) window now ≡ some now
unfolding next_window_start
start_within here window now h = rw h refl

-- For a UTC window that is in range, and an instant with 20 days left in 64 bits, there is a next
-- start, not before the instant, and the window holds it.
pub next_window_start-opens :
    (here : Zone) (window : SessionWindowSpec) (now : ℕ)
    → window.use_local_time ≡ false
    → IsInRange window
    → now + 20 * 86400 * 1_000_000_000 < 2 ^ 64
    → (opening : ℕ) × (next_window_start (zones here) window now ≡ some opening)
      × (now ≤ opening)
      × (is_within_window (zones here) window opening ≡ true)
next_window_start-opens here window now h range small =
    let s = now / 1_000_000_000 in
    let wait = wait_seconds window s in
    let positive = wait_seconds-pos window s in
    elim (Bool-cases (is_within_window (zones here) window now)) [
      | inl within ↦ (now, start_within here window now within, omega arith, within)
      | inr outside ↦ (
        (s + wait) * 1_000_000_000,
        next_window_start_lem here window now h range small outside,
        omega arith,
        opens_at here window now _ h range outside (omega arith),
      )
    ]

-- When the next start of a UTC window that is in range is searched from an instant with 20 days
-- left in 64 bits, and is found, the window holds no instant from there up to it.
pub next_window_start-first :
    (here : Zone) (window : SessionWindowSpec) (now opening t : ℕ)
    → window.use_local_time ≡ false
    → IsInRange window
    → now + 20 * 86400 * 1_000_000_000 < 2 ^ 64
    → next_window_start (zones here) window now ≡ some opening
    → now ≤ t
    → t < opening
    → is_within_window (zones here) window t ≡ false
next_window_start-first here window now opening t h range small e from below =
    let s = now / 1_000_000_000 in
    elim (Bool-cases (is_within_window (zones here) window now)) [
      | inl within ↦
          let same = sym (start_within here window now within) ∙ e in absurd (ground arith)
      | inr outside ↦
          let same : some ((s + wait_seconds window s) * 1_000_000_000) ≡ some opening =
            sym (next_window_start_lem here window now h range small outside) ∙ e in
          let opening_at : (s + wait_seconds window s) * 1_000_000_000 ≡ opening = ground arith in
          stays_shut here window now t h range outside (omega arith) (omega arith)
    ]
