-- ===== src/Admin/Inbound.antt =====
-- `OnInbound` of src/session/admin_protocol.cpp for a decoded message: the checks of its header, and
-- the resets that a Logon asks for.
use Prim.Native.String.{String}
use nimblefix.Common.{ℕ, Bool, true, false, not, ◌&&◌, ◌||◌, [], ◌∷◌, ◌==◌, ltb, if◌then◌else◌}
use nimblefix.Status.{Status, ok, err}
use nimblefix.Session.State.{SessionCore, connected, same_state}
use nimblefix.Session.Core.{observe_inbound_seq, record_inbound_activity}
use nimblefix.Action.{Action, pure, gets, ◌>>=◌, ◌>>◌, on_option}
use nimblefix.Admin.Data.{
  DecodedMessage, ProtocolEvent, no_event, Environment, Protocol, is_logon, is_sequence_reset,
}
use nimblefix.Admin.Validate.{
  Rejection, has_boolean, is_active_admin_state, admin_phase_violation, validate_comp_ids,
  validate_poss_dup, is_blank,
}
use nimblefix.Admin.Validate.Time.{sending_time_outside_threshold, is_later}
use nimblefix.Admin.Stored.{
  on_session, ensure_initialized, persist_recovery_state, refresh_session_state_from_store,
  reset_session_state,
}
use nimblefix.Admin.Frames.{reject_inbound}
use nimblefix.Admin.Stored.{settle_resend}
use nimblefix.Admin.Frames.{logout_and_disconnect}
use nimblefix.Admin.Sequence.{is_present, note_activity, on_stale, on_reset, on_number}

abbrev pub orig_is_later : DecodedMessage → Bool
orig_is_later decoded =
    decoded.poss_dup
    && not (is_blank decoded.orig_sending_time)
    && not (is_blank decoded.sending_time)
    && is_later decoded.orig_sending_time decoded.sending_time

-- `ValidatePossDup` as a test.
abbrev pub poss_dup_refused : Status → Bool
poss_dup_refused (ok x) = false
poss_dup_refused (err e) = true

module _ {S : Type 0} (env : Environment S) where
  -- Takes the number as the next one, with the activity.
  abbrev pub consume : DecodedMessage → ℕ → Action (Protocol S) (Unit {0})
  consume decoded timestamp_ns = do
    on_session (λ c. observe_inbound_seq c decoded.msg_seq_num)
    settle_resend
    note_activity env timestamp_ns

  unfoldable pub consume_expected_inbound_before_reject :
      DecodedMessage → SessionCore → ℕ → Action (Protocol S) (Unit {0})
  unfolding on_session pure ◌>>=◌ observe_inbound_seq record_inbound_activity settle_resend
      persist_recovery_state is_active_admin_state
  consume_expected_inbound_before_reject decoded before timestamp_ns p =
      if is_active_admin_state p.session.state && (decoded.msg_seq_num == before.next_in_seq)
      then consume decoded timestamp_ns p
      else (p, ok tt)

  unfoldable pub reject_then_logout :
      DecodedMessage → ℕ → ℕ → String → ℕ → Action (Protocol S) ProtocolEvent
  unfolding ◌>>=◌ reject_inbound logout_and_disconnect
  reject_then_logout decoded ref_tag_id reject_reason text timestamp_ns = do
    event ← reject_inbound env decoded ref_tag_id reject_reason text timestamp_ns false
    logout_and_disconnect env event text timestamp_ns

  -- A Logon with a wrong CompID takes its number before the session is active.
  abbrev pub consume_logon : DecodedMessage → SessionCore → ℕ → Action (Protocol S) (Unit {0})
  consume_logon decoded before timestamp_ns =
      if same_state before.state connected
        && is_logon decoded.msg_type
        && (decoded.msg_seq_num == before.next_in_seq)
      then (do
        on_session (λ c. observe_inbound_seq c decoded.msg_seq_num)
        note_activity env timestamp_ns)
      else pure tt

  -- What follows a failed `ValidateCompIds`.
  unfoldable pub refuse_comp_ids :
      DecodedMessage → SessionCore → Rejection → ℕ → Action (Protocol S) ProtocolEvent
  unfolding on_session pure ◌>>=◌ observe_inbound_seq record_inbound_activity persist_recovery_state
      consume_expected_inbound_before_reject reject_then_logout reject_inbound
  refuse_comp_ids decoded before r timestamp_ns = do
    consume_expected_inbound_before_reject decoded before timestamp_ns
    if r.disconnect && (r.reject_reason == 9)
        then (do
          consume_logon decoded before timestamp_ns
          reject_then_logout decoded r.ref_tag_id r.reject_reason r.text timestamp_ns)
        else reject_inbound env decoded r.ref_tag_id r.reject_reason r.text timestamp_ns
            r.disconnect

  -- A rejection after the number was taken; that of a Logon disconnects.
  unfoldable pub refuse_header :
      DecodedMessage → SessionCore → ℕ → ℕ → String → ℕ → Action (Protocol S) ProtocolEvent
  unfolding ◌>>=◌ consume_expected_inbound_before_reject reject_inbound
  refuse_header decoded before ref_tag_id reject_reason text timestamp_ns = do
    consume_expected_inbound_before_reject decoded before timestamp_ns
    reject_inbound env decoded ref_tag_id reject_reason text timestamp_ns
        (is_logon decoded.msg_type)

  -- `is_logon && refresh_on_logon`, and `inbound_logon_reset || acceptor_config_logon_reset`.
  abbrev pub refreshes : DecodedMessage → Bool
  refreshes decoded = is_logon decoded.msg_type && env.config.refresh_on_logon

  unfoldable pub resets : DecodedMessage → Bool
  unfolding has_boolean
  resets decoded =
      is_logon decoded.msg_type
      && (has_boolean decoded 141
          || (not env.config.session.is_initiator && env.config.reset_seq_num_on_logon))

  -- What is done before the number is looked at, when a Logon asks for it; gives the state that the
  -- number is compared with.
  unfoldable pub prepare_logon : DecodedMessage → SessionCore → Action (Protocol S) SessionCore
  unfolding pure gets ◌>>=◌ refresh_session_state_from_store reset_session_state resets
  prepare_logon decoded before = do
    if refreshes decoded then refresh_session_state_from_store env else pure tt
    if resets decoded
        then (do
          reset_session_state env 1
              (if env.config.session.is_initiator then before.next_out_seq else 1)
              (not env.config.session.is_initiator)
          gets (λ p. p.session))
        else pure before

  -- A message that is too early for an acceptor.
  abbrev pub drop_early : ℕ → String → Action (Protocol S) ProtocolEvent
  drop_early timestamp_ns text = do
    note_activity env timestamp_ns
    pure (record no_event { errors = text ∷ []; disconnect = true })

  -- The way of a message with a good header.
  unfoldable pub on_sequence : DecodedMessage → SessionCore → ℕ → Action (Protocol S) ProtocolEvent
  unfolding on_session pure ◌>>=◌ record_inbound_activity persist_recovery_state on_stale on_reset
      on_number has_boolean admin_phase_violation
  on_sequence decoded before timestamp_ns =
      let violation = admin_phase_violation before.state decoded.msg_type in
      if is_present violation
        && not env.config.session.is_initiator
        && same_state before.state connected
        && not (is_logon decoded.msg_type)
      then on_option violation (pure no_event) (drop_early timestamp_ns)
      else if ltb decoded.msg_seq_num before.next_in_seq
      then on_stale env decoded before timestamp_ns
      else if is_sequence_reset decoded.msg_type && not (has_boolean decoded 123)
      then on_reset env decoded before violation timestamp_ns
      else on_number env decoded before violation timestamp_ns

  -- A SendingTime outside the tolerance.
  abbrev pub refuse_late : DecodedMessage → SessionCore → ℕ → Action (Protocol S) ProtocolEvent
  refuse_late decoded before timestamp_ns = do
    consume_expected_inbound_before_reject decoded before timestamp_ns
    reject_then_logout decoded 52 10 "SendingTime is outside the configured tolerance" timestamp_ns

  -- A header that passed the checks.
  abbrev pub on_checked : DecodedMessage → SessionCore → ℕ → Action (Protocol S) ProtocolEvent
  on_checked decoded before timestamp_ns = do
    compared ← prepare_logon decoded before
    on_sequence decoded compared timestamp_ns

  -- The checks of the header, in their order.
  unfoldable pub on_header : DecodedMessage → SessionCore → ℕ → Action (Protocol S) ProtocolEvent
  unfolding ◌>>=◌ refuse_comp_ids refuse_header consume_expected_inbound_before_reject
      reject_then_logout prepare_logon on_sequence validate_comp_ids validate_poss_dup
      sending_time_outside_threshold is_later
  on_header decoded before timestamp_ns =
      on_option (validate_comp_ids env.config decoded)
        (if poss_dup_refused (validate_poss_dup env.config decoded)
          then refuse_header decoded before 122 1 "PossDupFlag requires OrigSendingTime"
              timestamp_ns
          else if orig_is_later decoded
          then refuse_header decoded before 52 10
              "OrigSendingTime must not be later than SendingTime" timestamp_ns
          else if sending_time_outside_threshold decoded.sending_time timestamp_ns
              env.config.sending_time_threshold_seconds
          then refuse_late decoded before timestamp_ns
          else on_checked decoded before timestamp_ns)
        (λ r. refuse_comp_ids decoded before r timestamp_ns)

  unfoldable pub on_inbound : DecodedMessage → ℕ → Action (Protocol S) ProtocolEvent
  unfolding gets ◌>>=◌ ensure_initialized on_header
  on_inbound decoded timestamp_ns = do
    ensure_initialized
    before ← gets (λ p. p.session)
    on_header decoded before timestamp_ns
