-- ===== src/Admin/Data.antt =====
-- The data of the protocol: its messages, its configuration and state, and what it asks of the codec,
-- the dictionary and the store.
mod Messages
use Prim.Native.String.{String}
use text.Mathlib.Text as Text
use nimblefix.Common.{ℕ, Bool, true, false, Option, none, some, List, [], ◌∷◌, ◌==◌, if◌then◌else◌}
use nimblefix.Common.Int.{ℤ}
use nimblefix.Status.{Result, Status, ErrorCode}
use nimblefix.Store.Record.{MessageRecord, SessionRecoveryState}
use nimblefix.Session.State.{SessionConfig, SessionCore}
unfoldable pub use nimblefix.Admin.Data.Messages.{find_field}
pub use nimblefix.Admin.Data.Messages.{
  MsgType, is_admin_message, is_logon, is_sequence_reset, FieldValue, as_int, as_string, as_boolean,
  ValidationIssueKind, ValidationIssue, DecodedMessage, get_int, get_string, get_boolean, has_field,
  OutboundMessage, SessionSendEnvelope, no_envelope, EncodeOptions, EncodedFrame, ProtocolEvent,
  no_event, same_text, is_empty_text, heartbeat, test_request, resend_request, reject,
  sequence_reset, logout, logon, application, string_value, int_value, char_value, float_value,
  bool_value, unknown_field, field_not_allowed, duplicate_field, incorrect_num_in_group_count,
  tag_specified_without_a_value, incorrect_data_format_for_value,
  tag_specified_out_of_required_order, repeating_group_fields_out_of_required_order,
  enum_value_not_allowed,
}

-- `UnknownFieldAction` and `MalformedFieldAction`.
pub data UnknownFieldAction : Type 0 where
  ignore_unknown log_and_process reject_unknown : UnknownFieldAction

pub data MalformedFieldAction : Type 0 where
  ignore_malformed log_malformed reject_malformed : MalformedFieldAction

-- The switches of `ValidationPolicy` that the protocol reads.
pub record ValidationPolicy : Type 0 where
  pub enforce_comp_ids : Bool
  pub require_default_appl_ver_id_on_logon : Bool
  pub require_orig_sending_time_on_poss_dup : Bool
  pub reject_on_stale_msg_seq_num : Bool
  pub require_known_app_message_type : Bool
  pub require_required_fields_on_app_messages : Bool
  pub reject_unknown_fields : Bool
  pub reject_duplicate_fields : Bool
  pub reject_tag_without_value : Bool
  pub reject_incorrect_data_format : Bool
  pub reject_fields_out_of_order : Bool
  pub reject_invalid_group_structure : Bool
  pub unknown_field_action : UnknownFieldAction
  pub malformed_field_action : MalformedFieldAction
  pub validate_enum_values : Bool

-- The application's `ValidationCallback`; it may use the value of the field, found in the message.
pub record ValidationCallback : Type 0 where
  pub on_unknown_field : DecodedMessage → ValidationIssue → Bool
  pub on_malformed_field : DecodedMessage → ValidationIssue → Bool

pub record LogonField : Type 0 where
  pub tag : ℕ
  pub value : String

-- `AdminProtocolConfig`; of the transport profile, the flags that the protocol reads.
pub record AdminProtocolConfig : Type 0 where
  pub session : SessionConfig
  pub begin_string : String
  pub sender_comp_id : String
  pub target_comp_id : String
  pub default_appl_ver_id : String
  pub requires_default_appl_ver_id : Bool
  pub supports_next_expected_msg_seq_num : Bool
  pub supported_app_msg_types : List String
  pub heartbeat_interval_seconds : ℕ
  pub sending_time_threshold_seconds : ℕ
  pub logon_fields : List LogonField
  pub application_messages_available : Bool
  pub reset_seq_num_on_logon : Bool
  pub reset_seq_num_on_logout : Bool
  pub reset_seq_num_on_disconnect : Bool
  pub refresh_on_logon : Bool
  pub send_next_expected_msg_seq_num : Bool
  pub validation_policy : ValidationPolicy
  pub validation_callback : Option ValidationCallback

-- `EncodedApplicationMessage`: a body that was encoded before.
pub record EncodedApplicationMessage : Type 0 where
  pub msg_type : MsgType
  pub body : List ℕ

-- What the protocol asks of the codec, for the session's dictionary and header fields: the encoding
-- of a message and that of an encoded body, where the body of a frame starts, the replay of a stored
-- frame with its possible-duplicate header, and the decoding of a frame.
pub record Codec : Type 0 where
  pub encode : OutboundMessage → EncodeOptions → Result (List ℕ)
  pub encode_body : EncodedApplicationMessage → EncodeOptions → Result (List ℕ)
  pub body_start_offset : List ℕ → ℕ
  pub replay : MessageRecord → Result EncodedFrame
  pub decode : List ℕ → Result DecodedMessage

-- What it asks of the dictionary: whether it has a message type, the first enumeration value of a
-- message that it does not allow, and the first required field that is missing.
pub record Dictionary : Type 0 where
  pub has_message : String → Bool
  pub enum_issue : DecodedMessage → Option ValidationIssue
  pub missing_field : DecodedMessage → Option (ℕ × String)

-- The methods of `SessionStore` that it calls.
pub record ProtocolStore (S : Type 0) : Type 0 where
  pub refresh : S → S × Status
  pub load_recovery_state : S → ℕ → Result SessionRecoveryState
  pub load_outbound_range : S → ℕ → ℕ → ℕ → Result (List MessageRecord)
  pub save_recovery_state : S → SessionRecoveryState → S × Status
  pub save_outbound_and_recovery : S → MessageRecord → SessionRecoveryState → S × Status
  pub save_inbound_and_recovery : S → MessageRecord → SessionRecoveryState → S × Status
  pub reset_session : S → ℕ → S × Status

-- `AdminProtocol::Impl`, less its configuration, its buffers and what is built from the dictionary.
-- A missing store is `none`.
pub record Protocol (S : Type 0) : Type 0 where
  pub session : SessionCore
  pub store : Option S
  pub outstanding_test_request_id : String
  pub logout_sent : Bool
  pub test_request_sent_ns : ℕ
  pub logout_sent_ns : ℕ
  pub initialization_error : Option ErrorCode
  pub deferred_gap_frames : List (List ℕ)

-- What the protocol is built with.
pub record Environment (S : Type 0) : Type 0 where
  pub config : AdminProtocolConfig
  pub codec : Codec
  pub dictionary : Dictionary
  pub methods : ProtocolStore S
