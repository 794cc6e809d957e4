-- ===== src/Admin/Sequence.antt =====
-- The sequence number of an inbound message in src/session/admin_protocol.cpp, `OnInbound`: below the
-- expected number, above it, or equal to it.
use Prim.Native.String.{String, ◌++◌}
use nimblefix.Common.{
  ℕ, Bool, true, false, not, ◌&&◌, ◌||◌, Option, none, some, [], ◌∷◌, ◌++◌ as ◌+++◌, ◌==◌, ltb,
  if◌then◌else◌,
}
use nimblefix.Status.{Status, ok, err, ErrorCode}
use nimblefix.Session.State.{SessionCore, ResendRange, connected, same_state}
use nimblefix.Session.Core.{
  observe_inbound_seq, record_inbound_activity, advance_inbound_expected_seq,
}
use nimblefix.Action.{Action, pure, fail, gets, update, ◌>>=◌, ◌>>◌, on_option}
use nimblefix.Admin.Data.{
  MsgType, DecodedMessage, ProtocolEvent, no_event, Environment, Protocol, is_logon,
  is_sequence_reset,
}
use nimblefix.Admin.Validate.{has_boolean}
use nimblefix.Admin.Validate.Messages.{
  parse_sequence_reset_new_seq, new_seq_missing, validate_administrative_message,
}
use nimblefix.Admin.Stored.{on_session, persist_recovery_state}
use nimblefix.Admin.Frames.{build_resend_request_frame, reject_inbound}
use nimblefix.Admin.Frames.Decimal.{to_string}
use nimblefix.Admin.Stored.{settle_resend, commit_inbound_persistence}
use nimblefix.Admin.Frames.{only_frame, logout_and_disconnect}
use nimblefix.Admin.Dispatch.{dispatch_inbound, moves_back}

abbrev pub is_present {ℓ} : {A : Type ℓ} → Option A → Bool
is_present none = false
is_present (some a) = true

abbrev pub too_low_text : DecodedMessage → SessionCore → String
too_low_text decoded before =
    "MsgSeqNum too low, expecting "
    ++ (to_string before.next_in_seq ++ (" but received " ++ to_string decoded.msg_seq_num))

abbrev pub stale_text : String
stale_text = "received stale inbound FIX sequence number"

module _ {S : Type 0} where
  -- `ObserveInboundSeq` with its status as a value, and the settling of a resend.
  unfoldable pub take_number : DecodedMessage → Action (Protocol S) Status
  unfolding settle_resend observe_inbound_seq
  take_number decoded p =
      let (c, status) = observe_inbound_seq p.session decoded.msg_seq_num in
      ((settle_resend (record p { session = c })).0, ok status)

module _ {S : Type 0} (env : Environment S) where
  abbrev pub note_activity : ℕ → Action (Protocol S) (Unit {0})
  note_activity timestamp_ns = do
    on_session (λ c. record_inbound_activity c timestamp_ns)
    persist_recovery_state env

  unfoldable pub build_phase_violation_logout :
      String → SessionCore → MsgType → ℕ → Action (Protocol S) ProtocolEvent
  unfolding pure logout_and_disconnect
  build_phase_violation_logout text before msg_type timestamp_ns =
      if not env.config.session.is_initiator
        && same_state before.state connected
        && not (is_logon msg_type)
      then pure (record no_event { errors = text ∷ []; disconnect = true })
      else logout_and_disconnect env (record no_event { errors = text ∷ [] }) text timestamp_ns

  -- A SequenceReset with a new number that is not below the expected one.
  unfoldable pub move_expected :
      DecodedMessage → SessionCore → ℕ → ℕ → Action (Protocol S) (Unit {0})
  unfolding on_session pure ◌>>=◌ advance_inbound_expected_seq settle_resend
      commit_inbound_persistence
  move_expected decoded before new_seq_num timestamp_ns = do
    if ltb before.next_in_seq new_seq_num
        then (do on_session (λ c. advance_inbound_expected_seq c new_seq_num); settle_resend)
        else pure tt
    commit_inbound_persistence env decoded timestamp_ns

  -- A SequenceReset with a number that was received before.
  unfoldable pub on_stale_reset :
      DecodedMessage → SessionCore → ℕ → Action (Protocol S) ProtocolEvent
  unfolding pure ◌>>=◌ reject_inbound logout_and_disconnect move_expected has_boolean
      parse_sequence_reset_new_seq to_string
  on_stale_reset decoded before timestamp_ns =
      on_option (parse_sequence_reset_new_seq decoded)
        (reject_inbound env decoded 36 1 new_seq_missing timestamp_ns false)
        (λ new_seq_num.
          if has_boolean decoded 123 && not decoded.poss_dup
          then logout_and_disconnect env
              (record no_event { errors = too_low_text decoded before ∷ [] })
              (too_low_text decoded before) timestamp_ns
          else if ltb new_seq_num before.next_in_seq
          then reject_inbound env decoded 36 5 moves_back timestamp_ns false
          else (do move_expected decoded before new_seq_num timestamp_ns; pure no_event))

  -- The number was received before.
  unfoldable pub on_stale : DecodedMessage → SessionCore → ℕ → Action (Protocol S) ProtocolEvent
  unfolding pure ◌>>=◌ on_stale_reset commit_inbound_persistence logout_and_disconnect
  on_stale decoded before timestamp_ns =
      if is_sequence_reset decoded.msg_type
      then on_stale_reset decoded before timestamp_ns
      else if decoded.poss_dup || not env.config.validation_policy.reject_on_stale_msg_seq_num
      then (do commit_inbound_persistence env decoded timestamp_ns; pure no_event)
      else logout_and_disconnect env (record no_event { errors = stale_text ∷ [] }) stale_text
          timestamp_ns

  -- The checks that stand between the sequence number and the handler.
  unfoldable pub then_handle :
      DecodedMessage
      → SessionCore
      → Option String
      → ℕ
      → Action (Protocol S) ProtocolEvent
      → Action (Protocol S) ProtocolEvent
  unfolding build_phase_violation_logout validate_administrative_message reject_inbound
  then_handle decoded before violation timestamp_ns handler =
      on_option violation
        (on_option (validate_administrative_message env.config env.dictionary decoded) handler (λ r.
          reject_inbound env decoded r.ref_tag_id r.reject_reason r.text timestamp_ns r.disconnect))
        (λ text. build_phase_violation_logout text before decoded.msg_type timestamp_ns)

  -- SequenceReset-Reset, whose own number does not count.
  unfoldable pub on_reset :
      DecodedMessage → SessionCore → Option String → ℕ → Action (Protocol S) ProtocolEvent
  unfolding pure ◌>>=◌ reject_inbound move_expected parse_sequence_reset_new_seq then_handle
  on_reset decoded before violation timestamp_ns =
      on_option (parse_sequence_reset_new_seq decoded)
        (reject_inbound env decoded 36 1 new_seq_missing timestamp_ns false)
        (λ new_seq_num.
          if ltb new_seq_num before.next_in_seq
          then reject_inbound env decoded 36 5 moves_back timestamp_ns false
          else (do
            move_expected decoded before new_seq_num timestamp_ns
            then_handle decoded before violation timestamp_ns (
                pure (
                  if new_seq_num == before.next_in_seq
                  then record no_event {
                    warnings = "SequenceReset NewSeqNo equals expected inbound sequence" ∷ [];
                  }
                  else no_event))))

  -- The resend request for a range, and the frame that waits for it.
  abbrev pub ask_for : DecodedMessage → ℕ → ResendRange → Action (Protocol S) ProtocolEvent
  ask_for decoded timestamp_ns range = do
    frame ← build_resend_request_frame env range.begin_seq range.end_seq timestamp_ns
    update (λ p. record p { deferred_gap_frames = p.deferred_gap_frames +++ (decoded.raw ∷ []) })
    pure (only_frame frame)

  -- A gap: the missing numbers are requested, and the frame waits for them.
  unfoldable pub on_gap : DecodedMessage → ℕ → Action (Protocol S) ProtocolEvent
  unfolding on_session pure gets update ◌>>=◌ record_inbound_activity build_resend_request_frame
  on_gap decoded timestamp_ns = do
    on_session (λ c. record_inbound_activity c timestamp_ns)
    pending ← gets (λ p. p.session.pending_resend)
    on_option pending (pure no_event) (ask_for decoded timestamp_ns)

  -- A message above the expected number that its phase does not allow.
  abbrev pub answer_violation :
      DecodedMessage → SessionCore → ℕ → String → Action (Protocol S) ProtocolEvent
  answer_violation decoded before timestamp_ns text = do
    on_session (λ c. record_inbound_activity c timestamp_ns)
    build_phase_violation_logout text before decoded.msg_type timestamp_ns

  -- The number was not accepted.
  unfoldable pub on_refused_number :
      DecodedMessage
      → SessionCore
      → Option String
      → ErrorCode
      → ℕ
      → Action (Protocol S) ProtocolEvent
  unfolding on_session fail gets ◌>>=◌ record_inbound_activity build_phase_violation_logout on_gap
  on_refused_number decoded before violation code timestamp_ns = do
    pending ← gets (λ p. p.session.pending_resend)
    let is_above = ltb before.next_in_seq decoded.msg_seq_num
    on_option violation
        (if is_above && is_present pending then on_gap decoded timestamp_ns else fail code)
        (λ text.
          if is_above
          then answer_violation decoded before timestamp_ns text
          else if is_above && is_present pending
          then on_gap decoded timestamp_ns
          else fail code)

  abbrev pub after_number :
      DecodedMessage → SessionCore → Option String → ℕ → Status → Action (Protocol S) ProtocolEvent
  after_number decoded before violation timestamp_ns (err e) =
      on_refused_number decoded before violation e timestamp_ns
  after_number decoded before violation timestamp_ns (ok x) = do
    commit_inbound_persistence env decoded timestamp_ns
    then_handle decoded before violation timestamp_ns (dispatch_inbound env decoded timestamp_ns)

  -- The message counts.
  unfoldable pub on_number :
      DecodedMessage → SessionCore → Option String → ℕ → Action (Protocol S) ProtocolEvent
  unfolding ◌>>=◌ take_number on_refused_number commit_inbound_persistence then_handle
      dispatch_inbound
  on_number decoded before violation timestamp_ns = do
    status ← take_number decoded
    after_number decoded before violation timestamp_ns status
