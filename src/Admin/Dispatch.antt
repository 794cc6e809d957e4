-- ===== src/Admin/Dispatch.antt =====
-- What src/session/admin_protocol.cpp does with a message whose number was the expected one, by its
-- type: `ProcessInboundApplication` and the end of `OnInbound`.
use Prim.Native.String.{String}
use nimblefix.Common.{ℕ, true, false, not, ◌&&◌, [], ◌∷◌, ◌==◌, ltb, if◌then◌else◌}
use nimblefix.Common.Int.{ℤ, pos, ltbℤ}
use nimblefix.Status.{ok, invalid_argument}
use nimblefix.Session.State.{awaiting_logout, same_state}
use nimblefix.Session.Core.{advance_inbound_expected_seq}
use nimblefix.Action.{Action, pure, fail, gets, ◌>>=◌, ◌>>◌, on_option}
use nimblefix.Admin.Data.{
  MsgType, heartbeat, test_request, resend_request, reject, sequence_reset, logout, logon,
  application, string_value, int_value, DecodedMessage, ProtocolEvent, no_event, Environment,
  Protocol, same_text, is_empty_text, get_int, get_string,
}
use nimblefix.Admin.Validate.{has_boolean, int_or, text_or_empty, type_text, is_active_admin_state}
use nimblefix.Admin.Validate.Messages.{
  to_u32, parse_sequence_reset_new_seq, new_seq_missing, validate_application_message,
  resolve_application_business_reject_reason,
}
use nimblefix.Admin.Stored.{on_session, persist_recovery_state}
use nimblefix.Admin.Frames.{
  message_of, text_field, encode_admin, build_heartbeat_frame, reject_inbound,
}
use nimblefix.Admin.Replay.{replay_outbound}
use nimblefix.Admin.Frames.{only_frame, logout_and_disconnect}
use nimblefix.Admin.Logon.{process_inbound_logon}

abbrev pub business_text : ℕ → String
business_text reason =
    if reason == 4
    then "application handling is not available for this session"
    else "application message type is not supported for this session"

-- A message for the application.
abbrev pub deliver : DecodedMessage → ProtocolEvent
deliver decoded = record no_event {
  application_messages = decoded ∷ [];
  poss_resend = has_boolean decoded 97;
}

-- `std::max` with a lower bound, then the conversion to 32 bits.
abbrev pub at_least : ℕ → ℤ → ℕ
at_least low n = if ltbℤ n (pos low) then low else to_u32 n

abbrev pub moves_back : String
moves_back = "SequenceReset NewSeqNo must not move inbound sequence backwards"

-- `ConsumeResendCompleted`, and what follows where it answers yes.

module _ {S : Type 0} where
  -- Heartbeat: the answer to an outstanding test request settles it.
  unfoldable pub on_heartbeat : DecodedMessage → Action (Protocol S) ProtocolEvent
  on_heartbeat decoded p =
      let id = text_or_empty (get_string decoded 112) in
      (
        if not (is_empty_text id) && same_text id p.outstanding_test_request_id
            then record p { outstanding_test_request_id = ""; test_request_sent_ns = 0 }
            else p,
        ok no_event,
      )

module _ {S : Type 0} (env : Environment S) where
  -- `build_business_reject`; both reasons are among those that warn.
  unfoldable pub build_business_reject : DecodedMessage → ℕ → ℕ → Action (Protocol S) ProtocolEvent
  unfolding pure ◌>>=◌ encode_admin
  build_business_reject decoded reason timestamp_ns = do
    frame ←
        encode_admin env
          (message_of (application "j") (
            (45, int_value (pos decoded.msg_seq_num))
            ∷ (372, string_value (type_text decoded.msg_type))
            ∷ (380, int_value (pos reason))
            ∷ text_field 58 (business_text reason)))
          timestamp_ns
    pure (record no_event { outbound_frames = frame ∷ []; warnings = business_text reason ∷ [] })

  unfoldable pub process_inbound_application :
      DecodedMessage → ℕ → Action (Protocol S) ProtocolEvent
  unfolding pure fail gets ◌>>=◌ build_business_reject reject_inbound has_boolean
      validate_application_message resolve_application_business_reject_reason is_active_admin_state
  process_inbound_application decoded timestamp_ns = do
    activated ← gets (λ p. is_active_admin_state p.session.state)
    if not activated
        then fail invalid_argument
        else on_option
            (resolve_application_business_reject_reason env.config env.dictionary decoded)
            (on_option (validate_application_message env.config env.dictionary decoded)
              (pure (deliver decoded))
              (λ r.
                reject_inbound env decoded r.ref_tag_id r.reject_reason r.text timestamp_ns false))
            (λ reason. build_business_reject decoded reason timestamp_ns)

  unfoldable pub on_test_request : DecodedMessage → ℕ → Action (Protocol S) ProtocolEvent
  unfolding pure ◌>>=◌ build_heartbeat_frame
  on_test_request decoded timestamp_ns = do
    frame ← build_heartbeat_frame env timestamp_ns (text_or_empty (get_string decoded 112))
    pure (only_frame frame)

  unfoldable pub on_resend_request : DecodedMessage → ℕ → Action (Protocol S) ProtocolEvent
  unfolding pure ◌>>=◌ replay_outbound
  on_resend_request decoded timestamp_ns = do
    frames ←
        replay_outbound env (at_least 1 (int_or (get_int decoded 7) (pos 1)))
          (at_least 0 (int_or (get_int decoded 16) (pos 0))) timestamp_ns
    pure (record no_event { outbound_frames = frames })

  -- SequenceReset-GapFill with a new number.
  unfoldable pub fill_to : DecodedMessage → ℕ → ℕ → Action (Protocol S) ProtocolEvent
  unfolding on_session pure gets ◌>>=◌ reject_inbound advance_inbound_expected_seq
      persist_recovery_state
  fill_to decoded timestamp_ns new_seq_num = do
    next_in ← gets (λ p. p.session.next_in_seq)
    if ltb new_seq_num next_in
        then reject_inbound env decoded 36 5 moves_back timestamp_ns false
        else (do
          on_session (λ c. advance_inbound_expected_seq c new_seq_num)
          persist_recovery_state env
          pure no_event)

  unfoldable pub on_gap_fill : DecodedMessage → ℕ → Action (Protocol S) ProtocolEvent
  unfolding reject_inbound parse_sequence_reset_new_seq fill_to
  on_gap_fill decoded timestamp_ns =
      on_option (parse_sequence_reset_new_seq decoded)
        (reject_inbound env decoded 36 1 new_seq_missing timestamp_ns false)
        (fill_to decoded timestamp_ns)

  unfoldable pub on_logout : ℕ → Action (Protocol S) ProtocolEvent
  unfolding pure gets ◌>>=◌ logout_and_disconnect
  on_logout timestamp_ns = do
    awaiting ← gets (λ p. same_state p.session.state awaiting_logout)
    if awaiting
        then pure (record no_event { disconnect = true })
        else logout_and_disconnect env no_event "" timestamp_ns

  -- The handlers by the type of the message.
  abbrev pub handler_of : DecodedMessage → ℕ → MsgType → Action (Protocol S) ProtocolEvent
  handler_of decoded timestamp_ns logon = process_inbound_logon env decoded timestamp_ns
  handler_of decoded timestamp_ns heartbeat = on_heartbeat decoded
  handler_of decoded timestamp_ns test_request = on_test_request decoded timestamp_ns
  handler_of decoded timestamp_ns resend_request = on_resend_request decoded timestamp_ns
  handler_of decoded timestamp_ns sequence_reset = on_gap_fill decoded timestamp_ns
  handler_of decoded timestamp_ns logout = on_logout timestamp_ns
  handler_of decoded timestamp_ns reject =
      pure (record no_event { session_reject = true; application_messages = decoded ∷ [] })
  handler_of decoded timestamp_ns (application s) = process_inbound_application decoded timestamp_ns

  unfoldable pub dispatch_inbound : DecodedMessage → ℕ → Action (Protocol S) ProtocolEvent
  unfolding process_inbound_logon process_inbound_application on_heartbeat on_test_request
      on_resend_request on_gap_fill on_logout pure
  dispatch_inbound decoded timestamp_ns = handler_of decoded timestamp_ns decoded.msg_type
