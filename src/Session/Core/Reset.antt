-- ===== src/Session/Core/Reset.antt =====
-- The daily reset, and where the state machine loses track: a reset due in another state, recovery
-- during a resend, and the largest inbound number.
use nimblefix.Common.{
  ℕ, ◌+◌, ◌-◌, ◌*◌, ◌/◌, ◌<◌, ◌≡◌, ◌≢◌, refl, inl, inr, none, true, false, arith, Bool-cases, leb,
  leb→le, if◌then◌else◌, ◌||◌, ◌&&◌, ◌%◌, ◌^◌, ◌∙◌,
}
use nimblefix.Common.Int.{ℤ, pos, ◌-ℤ◌, ltbℤ, lebℤ, to_int32}
use nimblefix.Status.{ok}
use nimblefix.Session.State.{
  SessionCore, SessionState, DayCutConfig, disconnected, active, resend_processing, same_state,
  u32_max,
}
use nimblefix.Session.Core.{
  begin_recovery, finish_recovery, complete_resend, observe_inbound_seq, is_live,
}
use nimblefix.Session.Core.DayCut.{
  is_fixed_time, adjusted_seconds, past_reset, effective_date, apply_day_cut, check_day_cut,
}

apply_day_cut_twice :
    (c : SessionCore) (date : ℤ) → apply_day_cut (apply_day_cut c date) date ≡ apply_day_cut c date
unfolding apply_day_cut
apply_day_cut_twice c date = ground arith

apply_day_cut_config :
    (c : SessionCore) (date : ℤ) → (apply_day_cut c date).day_cut_config ≡ c.day_cut_config
unfolding apply_day_cut
apply_day_cut_config c date = ground arith

-- Checking again at the same instant changes nothing more.
pub check_day_cut_twice :
    (c : SessionCore) (now_ns : ℕ)
    → check_day_cut (check_day_cut c now_ns) now_ns ≡ check_day_cut c now_ns
unfolding check_day_cut
check_day_cut_twice c now_ns =
    let date = effective_date c.day_cut_config now_ns in
    ground (arith, apply_day_cut_twice c date, apply_day_cut_config c date)

to_int32-small : (n : ℕ) → n < 2 ^ 31 → to_int32 (pos n) ≡ pos n
to_int32-small n h = ground arith

-- Comparing hours, then minutes, is comparing seconds with the start of the minute.
clock_compare :
    (h m t : ℕ)
    → m < 60
    → (ltbℤ (pos h) (pos (t / 3600))
        || (lebℤ (pos (t / 3600)) (pos h)
            && lebℤ (pos h) (pos (t / 3600))
            && lebℤ (pos m) (pos (t % 3600 / 60))))
      ≡ leb (3600 * h + 60 * m) t
clock_compare h m t hm = ground arith

past_reset-clock :
    (config : DayCutConfig) (s h m : ℕ)
    → config.reset_hour ≡ pos h
    → config.reset_minute ≡ pos m
    → h < 24
    → m < 60
    → past_reset config (pos s) ≡ leb (3600 * h + 60 * m) (s % 86400)
unfolding past_reset
past_reset-clock config s h m eh em hh hm =
    rw
      (
        eh,
        em,
        to_int32-small (s % 86400 / 3600) (omega arith),
        to_int32-small (s % 86400 % 3600 / 60) (omega arith),
      )
      (clock_compare h m (s % 86400) hm)

effective_date-adjusted :
    (config : DayCutConfig) (now_ns s : ℕ)
    → adjusted_seconds config now_ns ≡ pos s
    → s / 86400 < 2 ^ 31
    → effective_date config now_ns
      ≡ (if past_reset config (pos s) then pos (s / 86400) else pos (s / 86400) -ℤ pos 1)
effective_date-adjusted config now_ns s e h =
    unfold effective_date in rw (e, to_int32-small (s / 86400) h)

day_of_reset :
    (s r : ℕ)
    → r < 86400
    → (if leb r (s % 86400) then pos (s / 86400) else pos (s / 86400) -ℤ pos 1)
      ≡ pos ((s + 86400 - r) / 86400) -ℤ pos 1
day_of_reset s r h = elim (Bool-cases (leb r (s % 86400))) [
  | inl past ↦
      let q : (s + 86400 - r) / 86400 ≡ s / 86400 + 1 = omega (arith, leb→le _ _ past) in
      rw (past, q) (ground arith)
  | inr before ↦ let q : (s + 86400 - r) / 86400 ≡ s / 86400 = ground arith in rw (before, q)
]

-- The session day of an instant at `s` adjusted seconds is the number of resets at `h`:`m` up to
-- it, less one: the day changes exactly at the reset time.
pub effective_date_lem :
    (config : DayCutConfig) (now_ns s h m : ℕ)
    → adjusted_seconds config now_ns ≡ pos s
    → config.reset_hour ≡ pos h
    → config.reset_minute ≡ pos m
    → h < 24
    → m < 60
    → s < 86400 * 2_147_483_647
    → effective_date config now_ns ≡ pos ((s + 86400 - (3600 * h + 60 * m)) / 86400) -ℤ pos 1
effective_date_lem config now_ns s h m e eh em hh hm hs =
    effective_date-adjusted config now_ns s e (omega arith)
    ∙ rw (past_reset-clock config s h m eh em hh hm)
        (day_of_reset s (3600 * h + 60 * m) (omega arith))

-- When the day has moved on, a disconnected or active session restarts both numbers at 1 and drops
-- its pending range, and any other session keeps them; both record the day.
pub apply_day_cut_due :
    (c : SessionCore) (date : ℤ)
    → ltbℤ c.last_day_cut_date (pos 0) ≡ false
    → lebℤ date c.last_day_cut_date ≡ false
    → let c' = record c { last_day_cut_date = date } in
      apply_day_cut c date ≡ (
        if same_state c.state disconnected || same_state c.state active
        then record c' { next_in_seq = 1; next_out_seq = 1; pending_resend = none }
        else c')
unfolding apply_day_cut
apply_day_cut_due c date h d = ground arith

lost_once :
    (c : SessionCore) (now_ns : ℕ)
    → is_fixed_time c.day_cut_config.mode ≡ true
    → ltbℤ c.last_day_cut_date (pos 0) ≡ false
    → lebℤ (effective_date c.day_cut_config now_ns) c.last_day_cut_date ≡ false
    → c.state ≢ disconnected
    → c.state ≢ active
    → check_day_cut c now_ns
      ≡ record c { last_day_cut_date = effective_date c.day_cut_config now_ns }
unfolding check_day_cut apply_day_cut
lost_once c now_ns fixed started due p q = ground arith

lost_again :
    (c : SessionCore) (date : ℤ) (now_ns again_ns : ℕ) (later : SessionState)
    → is_fixed_time c.day_cut_config.mode ≡ true
    → ltbℤ c.last_day_cut_date (pos 0) ≡ false
    → lebℤ (effective_date c.day_cut_config now_ns) c.last_day_cut_date ≡ false
    → effective_date c.day_cut_config now_ns ≡ date
    → effective_date c.day_cut_config again_ns ≡ date
    → let again = record c { last_day_cut_date = date; state = later } in
      check_day_cut again again_ns ≡ again
unfolding check_day_cut apply_day_cut
lost_again c date now_ns again_ns later fixed started due e same = ground arith

-- With a reset at a fixed time and a recorded session day, a reset that falls due in another
-- state than disconnected or active is lost: the check records the new day and keeps both
-- numbers, and so does a further check at any instant of the same session day, in any state that
-- the session has reached by then.
pub check_day_cut_lost :
    (c : SessionCore) (now_ns again_ns : ℕ) (later : SessionState)
    → is_fixed_time c.day_cut_config.mode ≡ true
    → ltbℤ c.last_day_cut_date (pos 0) ≡ false
    → lebℤ (effective_date c.day_cut_config now_ns) c.last_day_cut_date ≡ false
    → c.state ≢ disconnected
    → c.state ≢ active
    → effective_date c.day_cut_config again_ns ≡ effective_date c.day_cut_config now_ns
    → let c' = check_day_cut (record (check_day_cut c now_ns) { state = later }) again_ns in
      (c'.next_in_seq ≡ c.next_in_seq)
      × (c'.next_out_seq ≡ c.next_out_seq)
      × (c'.last_day_cut_date ≡ effective_date c.day_cut_config now_ns)
check_day_cut_lost c now_ns again_ns later fixed started due p q same =
    let date = effective_date c.day_cut_config now_ns in
    let first : check_day_cut c now_ns ≡ record c { last_day_cut_date = date } =
      lost_once c now_ns fixed started due p q in
    let again = record c { last_day_cut_date = date; state = later } in
    let kept : check_day_cut again again_ns ≡ again =
      lost_again c date now_ns again_ns later fixed started due refl same in
    rw (first, kept) (refl, refl, refl)

-- A recovery during resend processing overwrites the state to resume: completing the resend
-- afterwards leaves the session in resend processing.
pub complete_resend-recovery :
    (c : SessionCore)
    → c.state ≡ resend_processing
    → let c' = (finish_recovery (begin_recovery c).0).0 in
      ((complete_resend c').1 ≡ ok tt) × ((complete_resend c').0.state ≡ resend_processing)
unfolding complete_resend finish_recovery begin_recovery
complete_resend-recovery c h = ground arith

-- Where the expected inbound number of a live session is the largest one, observing it succeeds and
-- makes the expected number 0.
pub observe-largest :
    (c : SessionCore)
    → is_live c.state ≡ true
    → c.next_in_seq ≡ u32_max
    → ((observe_inbound_seq c u32_max).1 ≡ ok tt)
      × ((observe_inbound_seq c u32_max).0.next_in_seq ≡ 0)
unfolding observe_inbound_seq
observe-largest c live h = ground arith
