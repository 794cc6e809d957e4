-- ===== src/Admin/Timer.antt =====
-- `OnTimer` and `NextTimerDeadline` of src/session/admin_protocol.cpp: when the session sends a
-- heartbeat or a test request, and when it gives up. Times are `std::uint64_t` nanoseconds.
pub mod Deadline
pub mod Due
use Prim.Native.String.{String}
use nimblefix.Common.{
  ℕ, ◌+◌, ◌*◌, ◌/◌, ◌%◌, ◌^◌, max, Bool, true, false, not, ◌&&◌, ◌||◌, Option, none, some, List, [],
  ◌∷◌, ◌==◌, ltb, if◌then◌else◌,
}
use nimblefix.Status.{Result, ok, err}
use nimblefix.Session.State.{
  SessionState, active, awaiting_logout, resend_processing, pending_logon, same_state,
}
use nimblefix.Action.{Action, pure, gets, update, ◌>>=◌, ◌>>◌}
use nimblefix.Admin.Data.{
  ProtocolEvent, no_event, Environment, Protocol, AdminProtocolConfig, is_empty_text,
}
use nimblefix.Admin.Stored.{ensure_initialized}
use nimblefix.Admin.Frames.{build_test_request_frame, build_heartbeat_frame}
use nimblefix.Admin.Frames.Decimal.{to_string}

abbrev pub has_timer : SessionState → Bool
has_timer s =
    same_state s active
    || same_state s awaiting_logout
    || same_state s resend_processing
    || same_state s pending_logon

-- `interval_ns`; the product of a 32-bit number fits.
unfoldable pub interval_ns : AdminProtocolConfig → ℕ
interval_ns config = max 1 config.heartbeat_interval_seconds * 1_000_000_000

-- Addition of 64-bit numbers.
unfoldable pub add_ns : ℕ → ℕ → ℕ
add_ns a b = (a + b) % 2 ^ 64

unfoldable pub test_request_threshold_ns : AdminProtocolConfig → ℕ
unfolding add_ns interval_ns
test_request_threshold_ns config = add_ns (interval_ns config) (interval_ns config / 5)

-- `since_ns != 0 && timestamp_ns > since_ns + wait`.
abbrev pub is_past : ℕ → ℕ → ℕ → Bool
is_past timestamp_ns since_ns wait = not (since_ns == 0) && ltb (add_ns since_ns wait) timestamp_ns

-- `update_deadline`.
abbrev pub update_deadline : Option ℕ → ℕ → Option ℕ
update_deadline none candidate_ns = some candidate_ns
update_deadline (some deadline) candidate_ns =
    if ltb candidate_ns deadline then some candidate_ns else some deadline

abbrev pub update_if : Bool → Option ℕ → ℕ → Option ℕ
update_if true deadline candidate_ns = update_deadline deadline candidate_ns
update_if false deadline candidate_ns = deadline

-- The deadline is not before the present.
abbrev pub not_before : ℕ → Option ℕ → Option ℕ
not_before timestamp_ns none = none
not_before timestamp_ns (some deadline) =
    if ltb deadline timestamp_ns then some timestamp_ns else some deadline

module _ {S : Type 0} (env : Environment S) where
  -- The tests of `OnTimer`, on the state before it.
  abbrev pub logon_timed_out : Protocol S → ℕ → Bool
  logon_timed_out p timestamp_ns =
      is_past timestamp_ns p.session.last_outbound_ns (interval_ns env.config * 2)

  abbrev pub logout_timed_out : Protocol S → ℕ → Bool
  logout_timed_out p timestamp_ns =
      same_state p.session.state awaiting_logout
      && is_past timestamp_ns p.logout_sent_ns (interval_ns env.config)

  abbrev pub test_request_timed_out : Protocol S → ℕ → Bool
  test_request_timed_out p timestamp_ns =
      not (is_empty_text p.outstanding_test_request_id)
      && is_past timestamp_ns p.test_request_sent_ns (interval_ns env.config)

  abbrev pub is_silent : Protocol S → ℕ → Bool
  is_silent p timestamp_ns =
      is_past timestamp_ns p.session.last_inbound_ns (test_request_threshold_ns env.config)
      && is_empty_text p.outstanding_test_request_id

  abbrev pub heartbeat_due : Protocol S → ℕ → Bool
  heartbeat_due p timestamp_ns =
      (p.session.last_outbound_ns == 0)
      || ltb (add_ns p.session.last_outbound_ns (interval_ns env.config)) timestamp_ns

  unfoldable pub send_test_request : ℕ → Action (Protocol S) ProtocolEvent
  unfolding pure update ◌>>=◌ build_test_request_frame to_string
  send_test_request timestamp_ns = do
    let id = to_string timestamp_ns
    update (λ p. record p { outstanding_test_request_id = id; test_request_sent_ns = timestamp_ns })
    frame ← build_test_request_frame env timestamp_ns id
    pure (record no_event { outbound_frames = frame ∷ [] })

  unfoldable pub send_heartbeat : ℕ → Action (Protocol S) ProtocolEvent
  unfolding pure ◌>>=◌ build_heartbeat_frame
  send_heartbeat timestamp_ns = do
    frame ← build_heartbeat_frame env timestamp_ns ""
    pure (record no_event { outbound_frames = frame ∷ [] })

  -- What follows the initialization check.
  unfoldable pub act_on_timer : ℕ → Action (Protocol S) ProtocolEvent
  unfolding send_test_request send_heartbeat add_ns interval_ns test_request_threshold_ns
  act_on_timer timestamp_ns p =
      if not (has_timer p.session.state)
      then (p, ok no_event)
      else if same_state p.session.state pending_logon
      then (p, ok (record no_event { disconnect = logon_timed_out p timestamp_ns }))
      else if logout_timed_out p timestamp_ns
      then (
        p,
        ok (record no_event {
          warnings = "Logout acknowledgement timeout" ∷ [];
          disconnect = true;
        }),
      )
      else if test_request_timed_out p timestamp_ns
      then (p, ok (record no_event { disconnect = true }))
      else if is_silent p timestamp_ns
      then send_test_request timestamp_ns p
      else if heartbeat_due p timestamp_ns
      then send_heartbeat timestamp_ns p
      else (p, ok no_event)

  unfoldable pub on_timer : ℕ → Action (Protocol S) ProtocolEvent
  unfolding ◌>>=◌ ensure_initialized act_on_timer
  on_timer timestamp_ns = do ensure_initialized; act_on_timer timestamp_ns

  -- The deadline of a wait for a test request's answer, or of the next test request.
  abbrev pub liveness_deadline : Protocol S → Option ℕ → Option ℕ
  liveness_deadline p deadline =
      if not (is_empty_text p.outstanding_test_request_id) && not (p.test_request_sent_ns == 0)
      then update_deadline deadline (add_ns p.test_request_sent_ns (interval_ns env.config))
      else update_if (not (p.session.last_inbound_ns == 0)) deadline
          (add_ns p.session.last_inbound_ns (test_request_threshold_ns env.config))

  abbrev pub heartbeat_deadline : Protocol S → ℕ → Option ℕ → Option ℕ
  heartbeat_deadline p timestamp_ns deadline = update_deadline deadline (
      if p.session.last_outbound_ns == 0
      then timestamp_ns
      else add_ns p.session.last_outbound_ns (interval_ns env.config))

  unfoldable pub next_timer_deadline : Protocol S → ℕ → Option ℕ
  unfolding add_ns interval_ns test_request_threshold_ns
  next_timer_deadline p timestamp_ns = elim p.initialization_error [
    | some e ↦ none
    | none ↦
        if not (has_timer p.session.state)
        then none
        else if same_state p.session.state pending_logon
        then not_before timestamp_ns (
            update_if (not (p.session.last_outbound_ns == 0)) none
              (add_ns p.session.last_outbound_ns (interval_ns env.config * 2)))
        else not_before timestamp_ns (
            heartbeat_deadline p timestamp_ns (
              liveness_deadline p (
                update_if
                  (same_state p.session.state awaiting_logout && not (p.logout_sent_ns == 0)) none
                  (add_ns p.logout_sent_ns (interval_ns env.config)))))
  ]
