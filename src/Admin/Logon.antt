-- ===== src/Admin/Logon.antt =====
-- `ProcessInboundLogon` of src/session/admin_protocol.cpp.
use Prim.Native.String.{String}
use nimblefix.Common.{
  ℕ, ◌+◌, ◌%◌, ◌^◌, Bool, true, false, ◌||◌, Option, none, some, ltb, if◌then◌else◌,
}
use nimblefix.Common.Int.{ℤ, pos, lebℤ, pos_part}
use nimblefix.Session.Core.{on_logon_accepted}
use nimblefix.Action.{Action, pure, gets, ◌>>=◌, ◌>>◌, on_option}
use nimblefix.Admin.Data.{DecodedMessage, ProtocolEvent, no_event, Environment, Protocol, get_int}
use nimblefix.Admin.Validate.{has_boolean}
use nimblefix.Admin.Validate.Messages.{to_u32}
use nimblefix.Admin.Stored.{on_session, persist_recovery_state, reset_session_state}
use nimblefix.Admin.Frames.{build_logon_frame}
use nimblefix.Admin.Replay.{replay_counterparty_expected_range}
use nimblefix.Admin.Frames.{only_frame, logout_and_disconnect}

-- The two tests on NextExpectedMsgSeqNum; the text of the first that fails.
abbrev pub next_expected_problem : Option ℤ → ℕ → Option String
next_expected_problem none next_out = none
next_expected_problem (some n) next_out =
    if lebℤ n (pos 0)
    then some "received invalid NextExpectedMsgSeqNum on Logon"
    else if ltb next_out (pos_part n)
    then some "counterparty requested unsent outbound sequence range"
    else none

module _ {S : Type 0} (env : Environment S) where
  -- The reset that an inbound Logon asks for.
  abbrev pub reset_for_logon : DecodedMessage → Bool → Action (Protocol S) (Unit {0})
  reset_for_logon decoded inbound_reset = do
    next_out ← gets (λ p. p.session.next_out_seq)
    if inbound_reset
        then reset_session_state env ((decoded.msg_seq_num + 1) % 2 ^ 32)
            (if env.config.session.is_initiator then next_out else 1) false
        else pure tt

  -- The response of an acceptor.
  abbrev pub answer_logon : ℕ → Bool → Action (Protocol S) ProtocolEvent
  answer_logon timestamp_ns inbound_reset =
      if env.config.session.is_initiator then pure no_event else (do
        frame ←
            build_logon_frame env timestamp_ns (env.config.reset_seq_num_on_logon || inbound_reset)
        pure (only_frame frame))

  -- What follows where the tests hold.
  unfoldable pub accept_logon : Option ℤ → ℕ → Bool → ℕ → Action (Protocol S) ProtocolEvent
  unfolding on_session pure ◌>>=◌ build_logon_frame persist_recovery_state on_logon_accepted
      replay_counterparty_expected_range
  accept_logon next_expected pre_logon_next_out inbound_reset timestamp_ns = do
    event ← answer_logon timestamp_ns inbound_reset
    on_session on_logon_accepted
    persist_recovery_state env
    let activated = record event { session_active = true }
    on_option next_expected (pure activated) (λ n.
        replay_counterparty_expected_range env (to_u32 n) pre_logon_next_out timestamp_ns activated)

  unfoldable pub process_inbound_logon : DecodedMessage → ℕ → Action (Protocol S) ProtocolEvent
  unfolding on_session pure gets ◌>>=◌ reset_session_state logout_and_disconnect accept_logon
      has_boolean
  process_inbound_logon decoded timestamp_ns = do
    let next_expected = get_int decoded 789
    let inbound_reset = has_boolean decoded 141
    reset_for_logon decoded inbound_reset
    pre_logon_next_out ← gets (λ p. p.session.next_out_seq)
    on_option (next_expected_problem next_expected pre_logon_next_out)
        (accept_logon next_expected pre_logon_next_out inbound_reset timestamp_ns)
        (λ text. logout_and_disconnect env no_event text timestamp_ns)
