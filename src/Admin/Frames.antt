-- ===== src/Admin/Frames.antt =====
-- What src/session/admin_protocol.cpp sends: `EncodeFrame`, the builders of the session messages,
-- `BeginLogout` and `RejectInbound`.
pub mod Decimal
pub mod Success
use Prim.Native.String.{String}
use nimblefix.Common.{
  ℕ, ◌+◌, Bool, true, false, not, ◌&&◌, ◌||◌, Option, none, some, List, [], ◌∷◌, ◌++◌, map, ◌==◌,
  if◌then◌else◌, max,
}
use nimblefix.Common.Int.{ℤ, pos}
use nimblefix.Status.{Result, Status, ok, err, ErrorCode, not_found, invalid_argument}
use nimblefix.Store.Record.{MessageRecord, SessionRecoveryState}
use nimblefix.Session.State.{
  SessionCore, SessionState, disconnected, active, awaiting_logout, resend_processing, same_state,
}
use nimblefix.Session.Core.{
  SessionSnapshot, snapshot, restore_sequence_state, allocate_outbound_seq,
  record_outbound_activity, begin_logout,
}
use nimblefix.Action.{Action, pure, fail, give, gets, update, ◌>>=◌, ◌>>◌, on_option}
use nimblefix.Admin.Data.{
  MsgType, heartbeat, test_request, resend_request, reject, sequence_reset, logout, logon,
  application, is_logon, FieldValue, string_value, int_value, bool_value, DecodedMessage,
  OutboundMessage, SessionSendEnvelope, no_envelope, EncodeOptions, EncodedFrame, ProtocolEvent,
  no_event, LogonField, EncodedApplicationMessage, Environment, Protocol, is_empty_text,
}
use nimblefix.Admin.Validate.{type_text}
use nimblefix.Admin.Stored.{
  on_session, store_result, on_store, ensure_initialized, recovery_state, record_flags,
  persist_recovery_state, restore_loaded, loaded_from, load_recovery,
  refresh_session_state_from_store, reset_session_state, store_outbound,
}

-- A call of the session core.

abbrev pub only_frame : EncodedFrame → ProtocolEvent
only_frame frame = record no_event { outbound_frames = frame ∷ [] }

module _ {S : Type 0} where
  -- The core's `BeginLogout`, in the two states where the protocol calls it.
  unfoldable pub leave_for_logout : Action (Protocol S) (Unit {0})
  unfolding on_session begin_logout
  leave_for_logout p =
      if same_state p.session.state active || same_state p.session.state resend_processing
      then on_session begin_logout p
      else (p, ok tt)

-- A message with these fields, with those behind it if the test holds.
abbrev pub field_if : Bool → ℕ → FieldValue → List (ℕ × FieldValue)
field_if true tag value = (tag, value) ∷ []
field_if false tag value = []

abbrev pub text_field : ℕ → String → List (ℕ × FieldValue)
text_field tag text = field_if (not (is_empty_text text)) tag (string_value text)

abbrev pub message_of : MsgType → List (ℕ × FieldValue) → OutboundMessage
message_of msg_type fields = record { msg_type = msg_type; fields = fields }

module _ {S : Type 0} (env : Environment S) where
  unfoldable pub finalize_encoded_frame :
      MsgType → Bool → ℕ → Bool → Bool → ℕ → ℕ → List ℕ → Action (Protocol S) EncodedFrame
  unfolding on_store on_session pure gets ◌>>=◌ recovery_state persist_recovery_state
      record_outbound_activity
  finalize_encoded_frame msg_type admin timestamp_ns persist poss_dup extra_flags seq_num bytes = do
    on_session (λ c. record_outbound_activity c timestamp_ns)
    id ← gets (λ p. p.session.config.session_id)
    if persist
        then store_outbound env (record {
          session_id = id;
          seq_num = seq_num;
          timestamp_ns = timestamp_ns;
          flags = record_flags admin poss_dup extra_flags;
          payload = bytes;
          body_start_offset = env.codec.body_start_offset bytes;
        })
        else persist_recovery_state env
    pure (record { bytes = bytes; msg_type = msg_type; admin = admin })

  abbrev pub sequence_number : Bool → ℕ → Action (Protocol S) ℕ
  sequence_number true seq_override = on_session allocate_outbound_seq
  sequence_number false seq_override = pure seq_override

  -- The two forms of `EncodeFrame`, by what encodes the message. The text of OrigSendingTime is
  -- empty in every call.
  unfoldable pub encode_with :
      (EncodeOptions → Result (List ℕ))
      → MsgType
      → Bool
      → ℕ
      → Bool
      → Bool
      → Bool
      → ℕ
      → ℕ
      → SessionSendEnvelope
      → Action (Protocol S) EncodedFrame
  unfolding on_session pure give ◌>>=◌ allocate_outbound_seq finalize_encoded_frame
  encode_with encode msg_type admin timestamp_ns persist poss_dup allocate_seq extra_flags
        seq_override envelope =
      do
        seq_num ← sequence_number allocate_seq seq_override
        bytes ← give (
            encode (record {
              msg_seq_num = seq_num;
              poss_dup = poss_dup;
              orig_sending_time = [];
              envelope = envelope;
            }))
        finalize_encoded_frame msg_type admin timestamp_ns persist poss_dup extra_flags seq_num
            bytes

  -- `EncodeFrame` as the builders of session messages call it.
  unfoldable pub encode_admin : OutboundMessage → ℕ → Action (Protocol S) EncodedFrame
  unfolding encode_with
  encode_admin message timestamp_ns =
      encode_with (env.codec.encode message) message.msg_type true timestamp_ns true false true 0 0
        no_envelope

  unfoldable pub build_logon_frame : ℕ → Bool → Action (Protocol S) EncodedFrame
  unfolding gets ◌>>=◌ encode_admin
  build_logon_frame timestamp_ns reset_seq_num = do
    next_in ← gets (λ p. p.session.next_in_seq)
    encode_admin
        (message_of logon (
          (98, int_value (pos 0))
          ∷ (108, int_value (pos env.config.heartbeat_interval_seconds))
          ∷ (field_if reset_seq_num 141 (bool_value true)
              ++ field_if
                  (env.config.send_next_expected_msg_seq_num
                    && env.config.supports_next_expected_msg_seq_num)
                  789 (int_value (pos next_in))
              ++ map (λ field. (field.tag, string_value field.value)) env.config.logon_fields)))
        timestamp_ns

  unfoldable pub build_heartbeat_frame : ℕ → String → Action (Protocol S) EncodedFrame
  unfolding encode_admin
  build_heartbeat_frame timestamp_ns test_request_id =
      encode_admin (message_of heartbeat (text_field 112 test_request_id)) timestamp_ns

  unfoldable pub build_test_request_frame : ℕ → String → Action (Protocol S) EncodedFrame
  unfolding encode_admin
  build_test_request_frame timestamp_ns test_request_id =
      encode_admin (message_of test_request ((112, string_value test_request_id) ∷ [])) timestamp_ns

  unfoldable pub build_resend_request_frame : ℕ → ℕ → ℕ → Action (Protocol S) EncodedFrame
  unfolding encode_admin
  build_resend_request_frame begin_seq end_seq timestamp_ns =
      encode_admin
        (message_of resend_request
          ((7, int_value (pos begin_seq)) ∷ (16, int_value (pos end_seq)) ∷ []))
        timestamp_ns

  unfoldable pub build_gap_fill_frame : ℕ → ℕ → ℕ → Action (Protocol S) EncodedFrame
  unfolding encode_with
  build_gap_fill_frame begin_seq new_seq_num timestamp_ns =
      encode_with
        (env.codec.encode (
          message_of sequence_reset (
            (123, bool_value true)
            ∷ (36, int_value (pos new_seq_num))
            ∷ (43, bool_value true)
            ∷ [])))
        sequence_reset true timestamp_ns false true false 4 begin_seq no_envelope

  unfoldable pub build_reject_frame :
      ℕ → MsgType → ℕ → ℕ → String → ℕ → Action (Protocol S) EncodedFrame
  unfolding encode_admin
  build_reject_frame ref_seq_num ref_msg_type ref_tag_id reject_reason text timestamp_ns =
      encode_admin
        (message_of reject (
          (45, int_value (pos ref_seq_num))
          ∷ (372, string_value (type_text ref_msg_type))
          ∷ (field_if (not (ref_tag_id == 0)) 371 (int_value (pos ref_tag_id))
              ++ (373, int_value (pos reject_reason)) ∷ text_field 58 text)))
        timestamp_ns

  unfoldable pub admin_begin_logout : String → ℕ → Action (Protocol S) EncodedFrame
  unfolding pure gets fail update ◌>>=◌ ensure_initialized leave_for_logout encode_admin
  admin_begin_logout text timestamp_ns = do
    ensure_initialized
    sent ← gets (λ p. p.logout_sent)
    if sent then fail invalid_argument else pure tt
    leave_for_logout
    update (λ p. record p { logout_sent = true; logout_sent_ns = timestamp_ns })
    encode_admin (message_of logout (text_field 58 text)) timestamp_ns

  -- A text that the event carries, by the reason.
  abbrev pub reject_note : ℕ → String → ProtocolEvent
  reject_note reject_reason text =
      if reject_reason == 11
      then record no_event { warnings = text ∷ [] }
      else record no_event { errors = text ∷ [] }

  unfoldable pub reject_inbound :
      DecodedMessage → ℕ → ℕ → String → ℕ → Bool → Action (Protocol S) ProtocolEvent
  unfolding pure ◌>>=◌ admin_begin_logout build_reject_frame
  reject_inbound decoded ref_tag_id reject_reason text timestamp_ns disconnect =
      let event = reject_note reject_reason text in
      if disconnect && is_logon decoded.msg_type
      then (do
        frame ← admin_begin_logout text timestamp_ns
        pure (record event { outbound_frames = frame ∷ []; disconnect = true }))
      else (do
        frame ←
            build_reject_frame decoded.msg_seq_num decoded.msg_type ref_tag_id reject_reason text
              timestamp_ns
        pure (record event { outbound_frames = frame ∷ []; disconnect = disconnect }))

  -- A last frame that says goodbye.
  unfoldable pub logout_and_disconnect :
      ProtocolEvent → String → ℕ → Action (Protocol S) ProtocolEvent
  unfolding pure ◌>>=◌ admin_begin_logout
  logout_and_disconnect event text timestamp_ns = do
    frame ← admin_begin_logout text timestamp_ns
    pure (record event {
      outbound_frames = event.outbound_frames ++ (frame ∷ []);
      disconnect = true;
    })
