-- ===== src/Admin/Timer/Due.antt =====
-- Behind the deadline, `OnTimer` acts: it sends a frame, asks for a disconnect, or fails.
use nimblefix.Common.{
  ℕ, ◌<◌, Bool, true, false, not, ◌&&◌, ◌||◌, none, some, ◌≡◌, ◌≢◌, ◌⊎◌, inl, inr, refl, sym, subst,
  arith, ltb, ◌==◌, if◌then◌else◌, [], ◌∷◌,
}
use nimblefix.Status.{Result, ok, err}
use nimblefix.Session.State.{same_state, awaiting_logout}
use nimblefix.Action.{◌>>=◌, pure, update, proceed}
use nimblefix.Admin.Data.{
  Environment, Protocol, ProtocolEvent, EncodedFrame, no_event, is_empty_text,
}
use nimblefix.Admin.Frames.{build_test_request_frame, build_heartbeat_frame}
use nimblefix.Admin.Frames.Decimal.{to_string}
use nimblefix.Admin.Timer.{
  interval_ns, add_ns, test_request_threshold_ns, act_on_timer, on_timer, next_timer_deadline,
  send_test_request, send_heartbeat, update_if, not_before,
}
use nimblefix.Admin.Timer.Deadline.{earliest_of, next_timer_deadline_cases, on_timer-act}

-- Some test that counts is past.
some_due :
    (leaves empty : Bool) (logout sent heard out c_logout c_test c_silence c_beat now d t : ℕ)
    → earliest_of
        (leaves && not (logout == 0))
        (not empty && not (sent == 0))
        (not (heard == 0))
        (out == 0)
        c_logout
        c_test
        c_silence
        c_beat
        now
      ≡ some d
    → d < t
    → (empty ≡ false → sent ≢ 0)
    → (leaves && (not (logout == 0) && ltb c_logout t)) ≡ false
    → (not empty && (not (sent == 0) && ltb c_test t)) ≡ false
    → ((not (heard == 0) && ltb c_silence t) && empty) ≡ false
    → ((out == 0) || ltb c_beat t) ≡ false
    → ⊥
some_due leaves empty logout sent heard out c_logout c_test c_silence c_beat now d t h late noted e1
      e2 e3 e4 =
    ground arith

expired :
    (since c now t d : ℕ)
    → not_before now (update_if (not (since == 0)) none c) ≡ some d
    → d < t
    → (not (since == 0) && ltb c t) ≡ true
expired since c now t d h late = ground arith

module _ {A : Type 0} (R : A → Type 0) where
  -- What holds of every branch but the last, when one of them is taken.
  not_last :
      (a b c d e f : Bool) (x0 x1 x2 x3 x4 x5 x6 : A)
      → a ≡ true
      → b ≡ false
      → R x2
      → R x3
      → R x4
      → R x5
      → (c ≡ false → d ≡ false → e ≡ false → f ≡ false → ⊥)
      → R (
          if not a
          then x0
          else if b
          then x1
          else if c
          then x2
          else if d
          then x3
          else if e
          then x4
          else if f
          then x5
          else x6)
  not_last false b c d e f x0 x1 x2 x3 x4 x5 x6 ha hb r2 r3 r4 r5 k = absurd (ground arith)
  not_last true true c d e f x0 x1 x2 x3 x4 x5 x6 ha hb r2 r3 r4 r5 k = absurd (ground arith)
  not_last true false true d e f x0 x1 x2 x3 x4 x5 x6 ha hb r2 r3 r4 r5 k = r2
  not_last true false false true e f x0 x1 x2 x3 x4 x5 x6 ha hb r2 r3 r4 r5 k = r3
  not_last true false false false true f x0 x1 x2 x3 x4 x5 x6 ha hb r2 r3 r4 r5 k = r4
  not_last true false false false false true x0 x1 x2 x3 x4 x5 x6 ha hb r2 r3 r4 r5 k = r5
  not_last true false false false false false x0 x1 x2 x3 x4 x5 x6 ha hb r2 r3 r4 r5 k =
      absurd (k refl refl refl refl)

  second_of :
      (a b : Bool) (x0 x1 x2 : A)
      → a ≡ true
      → b ≡ true
      → R x1
      → R (if not a then x0 else if b then x1 else x2)
  second_of true true x0 x1 x2 ha hb r = r
  second_of true false x0 x1 x2 ha hb r = absurd (ground arith)
  second_of false b x0 x1 x2 ha hb r = absurd (ground arith)

-- A failure, a request for a disconnect, or frames to send.
abbrev pub HasEffect : Result ProtocolEvent → Type 0
HasEffect (err e) = Unit {0}
HasEffect (ok event) = (event.disconnect ≡ true) ⊎ (event.outbound_frames ≢ [])

abbrev Acts : {S : Type 0} → Protocol S × Result ProtocolEvent → Type 0
Acts out = HasEffect out.1

module _ {S : Type 0} where
  -- An event with a frame, or a failure.
  framed_lem :
      (q : Protocol S × Result EncodedFrame)
      → Acts (
          proceed q.1
            (λ frame. pure {S = Protocol S} (record no_event { outbound_frames = frame ∷ [] }))
            q.0)
  unfolding pure
  framed_lem (p, ok frame) = inr (λ e. ground arith)
  framed_lem (p, err e) = tt

module _ {S : Type 0} (env : Environment S) (p : Protocol S) where
  heartbeat-Acts : (t : ℕ) → Acts (send_heartbeat env t p)
  unfolding send_heartbeat ◌>>=◌
  heartbeat-Acts t = framed_lem (build_heartbeat_frame env t "" p)

  test_request-Acts : (t : ℕ) → Acts (send_test_request env t p)
  unfolding send_test_request ◌>>=◌ update
  test_request-Acts t = framed_lem (
      build_test_request_frame env t (to_string t)
        (record p { outstanding_test_request_id = to_string t; test_request_sent_ns = t }))

  -- If NextTimerDeadline gives a deadline, OnTimer at any later time has an effect: it fails,
  -- its event asks for a disconnect, or its event has a frame to send. A test request that
  -- waits for its answer has its time of sending.
  pub next_timer_deadline-acts :
      (now d t : ℕ)
      → next_timer_deadline env p now ≡ some d
      → (is_empty_text p.outstanding_test_request_id ≡ false → p.test_request_sent_ns ≢ 0)
      → d < t
      → HasEffect (on_timer env t p).1
  unfolding act_on_timer
  next_timer_deadline-acts now d t h noted late =
      let (start, timed, cases) = next_timer_deadline_cases env p now d h in
      subst Acts (sym (on_timer-act env p t start)) (elim cases [
        | inl (e, q) ↦
            second_of Acts _ _ _ _ _ timed e
              (event_acts _ (expired p.session.last_outbound_ns _ now t d q late))
        | inr (e, q) ↦
            not_last Acts _ _ _ _ _ _ _ _ _ _ _ _ _ timed e (inl refl) (inl refl)
              (test_request-Acts t) (heartbeat-Acts t)
              (some_due (same_state p.session.state awaiting_logout)
                (is_empty_text p.outstanding_test_request_id) p.logout_sent_ns
                p.test_request_sent_ns p.session.last_inbound_ns p.session.last_outbound_ns
                (add_ns p.logout_sent_ns (interval_ns env.config))
                (add_ns p.test_request_sent_ns (interval_ns env.config))
                (add_ns p.session.last_inbound_ns (test_request_threshold_ns env.config))
                (add_ns p.session.last_outbound_ns (interval_ns env.config)) now d t q late noted)
      ])
    where
      event_acts : (b : Bool) → b ≡ true → Acts (p, ok (record no_event { disconnect = b }))
      event_acts b e = inl e
