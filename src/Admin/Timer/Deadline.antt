-- ===== src/Admin/Timer/Deadline.antt =====
-- `NextTimerDeadline` against `OnTimer`: before the deadline the timer does nothing, behind it the
-- timer acts.
use nimblefix.Common.{
  ℕ, ◌*◌, ◌≤◌, ◌<◌, Bool, true, false, not, Option, none, some, ◌≡◌, ◌⊎◌, inl, inr, Bool-cases,
  refl, ap, ◌∙◌, arith, ltb, ◌==◌, ◌&&◌, ◌||◌, if◌then◌else◌,
}
use nimblefix.Status.{ok}
use nimblefix.Session.State.{same_state, pending_logon, awaiting_logout}
use nimblefix.Action.{◌>>=◌}
use nimblefix.Admin.Data.{Environment, Protocol, no_event, is_empty_text}
use nimblefix.Admin.Stored.{ensure_initialized}
use nimblefix.Admin.Timer.{
  interval_ns, add_ns, test_request_threshold_ns, act_on_timer, on_timer, next_timer_deadline,
  logon_timed_out, logout_timed_out, test_request_timed_out, is_silent, heartbeat_due, has_timer,
  update_if, update_deadline, not_before,
}

-- The earliest of the candidates that count, not before the present.
abbrev pub earliest_of : Bool → Bool → Bool → Bool → ℕ → ℕ → ℕ → ℕ → ℕ → Option ℕ
earliest_of leaves waits hears sent c_logout c_test c_silence c_beat now =
    let first = update_if leaves none c_logout in
    not_before now (
      update_deadline
        (if waits then update_deadline first c_test else update_if hears first c_silence)
        (if sent then now else c_beat))

-- Every candidate that counts is at or behind the deadline.
earliest_lem :
    (leaves waits hears sent : Bool) (c_logout c_test c_silence c_beat now d : ℕ)
    → earliest_of leaves waits hears sent c_logout c_test c_silence c_beat now ≡ some d
    → now < d
    → (sent ≡ false)
      × (d ≤ c_beat)
      × (leaves ≡ true → d ≤ c_logout)
      × (waits ≡ true → d ≤ c_test)
      × (waits ≡ false → hears ≡ true → d ≤ c_silence)
earliest_lem leaves waits hears sent c_logout c_test c_silence c_beat now d h before = ground arith

-- A test that is not past the deadline.
not_past :
    (b : Bool) (since c t d : ℕ)
    → ((b && not (since == 0)) ≡ true → d ≤ c)
    → t ≤ d
    → (b && (not (since == 0) && ltb c t)) ≡ false
not_past b since c t d bound early = ground arith

not_silent :
    (empty : Bool) (sent since c t d : ℕ)
    → ((not empty && not (sent == 0)) ≡ false → not (since == 0) ≡ true → d ≤ c)
    → t ≤ d
    → ((not (since == 0) && ltb c t) && empty) ≡ false
not_silent empty sent since c t d bound early = ground arith

not_due :
    (since c t d : ℕ) → (since == 0) ≡ false → d ≤ c → t ≤ d → ((since == 0) || ltb c t) ≡ false
not_due since c t d sent bound early = ground arith

not_expired :
    (since c now t d : ℕ)
    → not_before now (update_if (not (since == 0)) none c) ≡ some d
    → now < d
    → t ≤ d
    → (not (since == 0) && ltb c t) ≡ false
not_expired since c now t d h before early = ground arith

module _ {A : Type 0} where
  last_else :
      (a b c d e f : Bool) (x0 x1 x2 x3 x4 x5 x6 : A)
      → a ≡ true
      → b ≡ false
      → c ≡ false
      → d ≡ false
      → e ≡ false
      → f ≡ false
      → (if not a
          then x0
          else if b
          then x1
          else if c
          then x2
          else if d
          then x3
          else if e
          then x4
          else if f
          then x5
          else x6)
        ≡ x6
  last_else a b c d e f x0 x1 x2 x3 x4 x5 x6 h1 h2 h3 h4 h5 h6 = simp (h1, h2, h3, h4, h5, h6) refl

  second_then :
      (a b : Bool) (x0 x1 x2 : A)
      → a ≡ true
      → b ≡ true
      → (if not a then x0 else if b then x1 else x2) ≡ x1
  second_then a b x0 x1 x2 h1 h2 = simp (h1, h2) refl

module _ {S : Type 0} (env : Environment S) (p : Protocol S) where
  abbrev pub after_start : ℕ → Option ℕ
  after_start now =
      earliest_of (same_state p.session.state awaiting_logout && not (p.logout_sent_ns == 0))
        (not (is_empty_text p.outstanding_test_request_id) && not (p.test_request_sent_ns == 0))
        (not (p.session.last_inbound_ns == 0)) (p.session.last_outbound_ns == 0)
        (add_ns p.logout_sent_ns (interval_ns env.config))
        (add_ns p.test_request_sent_ns (interval_ns env.config))
        (add_ns p.session.last_inbound_ns (test_request_threshold_ns env.config))
        (add_ns p.session.last_outbound_ns (interval_ns env.config)) now

  -- A deadline is there for an initialized protocol in a state with a timer, and is that of the
  -- Logon or the earliest one.
  pub next_timer_deadline_cases :
      (now d : ℕ)
      → next_timer_deadline env p now ≡ some d
      → (p.initialization_error ≡ none)
        × (has_timer p.session.state ≡ true)
        × ((same_state p.session.state pending_logon ≡ true)
              × (not_before now (
                    update_if
                      (not (p.session.last_outbound_ns == 0))
                      none
                      (add_ns p.session.last_outbound_ns (interval_ns env.config * 2)))
                  ≡ some d)
            ⊎ (same_state p.session.state pending_logon ≡ false) × (after_start now ≡ some d))
  unfolding next_timer_deadline
  next_timer_deadline_cases now d h = elim (Bool-cases (same_state p.session.state pending_logon)) [
    | inl e ↦ ground arith
    | inr e ↦ ground arith
  ]

  -- An initialized protocol goes on to the tests.
  pub on_timer-act :
      (t : ℕ) → p.initialization_error ≡ none → on_timer env t p ≡ act_on_timer env t p
  unfolding on_timer ensure_initialized ◌>>=◌
  on_timer-act t e = ground arith

  -- Nothing is due.
  quiet_lem :
      (t : ℕ)
      → p.initialization_error ≡ none
      → has_timer p.session.state ≡ true
      → same_state p.session.state pending_logon ≡ false
      → logout_timed_out env p t ≡ false
      → test_request_timed_out env p t ≡ false
      → is_silent env p t ≡ false
      → heartbeat_due env p t ≡ false
      → on_timer env t p ≡ (p, ok no_event)
  unfolding act_on_timer
  quiet_lem t e1 e2 e3 e4 e5 e6 e7 =
      on_timer-act t e1 ∙ last_else _ _ _ _ _ _ _ _ _ _ _ _ _ e2 e3 e4 e5 e6 e7

  waiting_lem :
      (t : ℕ)
      → p.initialization_error ≡ none
      → has_timer p.session.state ≡ true
      → same_state p.session.state pending_logon ≡ true
      → logon_timed_out env p t ≡ false
      → on_timer env t p ≡ (p, ok no_event)
  unfolding act_on_timer
  waiting_lem t e1 e2 e3 e4 =
      on_timer-act t e1
      ∙ second_then _ _ _ _ _ e2 e3
      ∙ ap (λ b. (p, ok (record no_event { disconnect = b }))) e4

  -- If the deadline of NextTimerDeadline lies in the future, OnTimer does nothing at any time
  -- up to and including it.
  pub next_timer_deadline-quiet :
      (now d t : ℕ)
      → next_timer_deadline env p now ≡ some d
      → now < d
      → t ≤ d
      → on_timer env t p ≡ (p, ok no_event)
  next_timer_deadline-quiet now d t h before early =
      let (start, timed, cases) = next_timer_deadline_cases now d h in
      elim cases [
        | inl (e, q) ↦ waiting_lem t start timed e (not_expired _ _ now t d q before early)
        | inr (e, q) ↦
            let (sent, beat, leave, answer, silence) =
              earliest_lem
                (same_state p.session.state awaiting_logout && not (p.logout_sent_ns == 0))
                (not (is_empty_text p.outstanding_test_request_id)
                  && not (p.test_request_sent_ns == 0))
                (not (p.session.last_inbound_ns == 0)) (p.session.last_outbound_ns == 0)
                (add_ns p.logout_sent_ns (interval_ns env.config))
                (add_ns p.test_request_sent_ns (interval_ns env.config))
                (add_ns p.session.last_inbound_ns (test_request_threshold_ns env.config))
                (add_ns p.session.last_outbound_ns (interval_ns env.config)) now d q before in
            quiet_lem t start timed e
              (not_past (same_state p.session.state awaiting_logout) p.logout_sent_ns
                (add_ns p.logout_sent_ns (interval_ns env.config)) t d leave early)
              (not_past (not (is_empty_text p.outstanding_test_request_id)) p.test_request_sent_ns
                (add_ns p.test_request_sent_ns (interval_ns env.config)) t d answer early)
              (not_silent (is_empty_text p.outstanding_test_request_id) p.test_request_sent_ns
                p.session.last_inbound_ns
                (add_ns p.session.last_inbound_ns (test_request_threshold_ns env.config)) t d
                silence early)
              (not_due p.session.last_outbound_ns
                (add_ns p.session.last_outbound_ns (interval_ns env.config)) t d sent beat early)
      ]
