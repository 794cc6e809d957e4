-- ===== src/Admin/Data/Messages.antt =====
-- The messages of the protocol, decoded and outbound, and its events. Headers and texts that are only
-- compared as a whole are strings; times of the wire are lists of character codes.
use Prim.Native.String.{String}
use text.Mathlib.Text as Text
use nimblefix.Common.{ℕ, Bool, true, false, Option, none, some, List, [], ◌∷◌, ◌==◌, if◌then◌else◌}
use nimblefix.Common.Int.{ℤ}

-- `==` on texts.
abbrev pub same_text : String → String → Bool
same_text a b = Text.◌==◌ a b

abbrev pub is_empty_text : String → Bool
is_empty_text a = same_text a ""

-- The value of MsgType(35), by the types that the protocol knows: "0" to "5" and "A".
pub data MsgType : Type 0 where
  heartbeat test_request resend_request reject sequence_reset logout logon : MsgType
  application : String → MsgType

-- `IsAdminMessage`.
abbrev pub is_admin_message : MsgType → Bool
is_admin_message (application s) = false
is_admin_message _ = true

abbrev pub is_logon : MsgType → Bool
is_logon logon = true
is_logon _ = false

abbrev pub is_sequence_reset : MsgType → Bool
is_sequence_reset sequence_reset = true
is_sequence_reset _ = false

-- `FieldView`: a value by its type; a `double` is its bit pattern.
pub data FieldValue : Type 0 where
  string_value : String → FieldValue
  int_value : ℤ → FieldValue
  char_value : ℕ → FieldValue
  float_value : ℕ → FieldValue
  bool_value : Bool → FieldValue

-- `find_field_view`: the first field with the tag.
unfoldable pub find_field : ℕ → List (ℕ × FieldValue) → Option FieldValue
find_field tag [] = none
find_field tag (field ∷ fields) =
    let later = find_field tag fields in if field.0 == tag then some field.1 else later

abbrev pub as_int : Option FieldValue → Option ℤ
as_int (some (int_value n)) = some n
as_int _ = none

abbrev pub as_string : Option FieldValue → Option String
as_string (some (string_value s)) = some s
as_string _ = none

abbrev pub as_boolean : Option FieldValue → Option Bool
as_boolean (some (bool_value b)) = some b
as_boolean _ = none

-- `ValidationIssueKind` without `kNone`.
pub data ValidationIssueKind : Type 0 where
  unknown_field field_not_allowed duplicate_field incorrect_num_in_group_count : ValidationIssueKind
  tag_specified_without_a_value incorrect_data_format_for_value : ValidationIssueKind
  tag_specified_out_of_required_order : ValidationIssueKind
  repeating_group_fields_out_of_required_order enum_value_not_allowed : ValidationIssueKind

pub record ValidationIssue : Type 0 where
  pub kind : ValidationIssueKind
  pub tag : ℕ
  pub text : String

-- `DecodedMessageView`: the header fields that the protocol reads, the fields of the message, the
-- raw bytes, and the issue that the decoder noted, if it is present.
pub record DecodedMessage : Type 0 where
  pub begin_string : String
  pub msg_type : MsgType
  pub sender_comp_id : String
  pub target_comp_id : String
  pub default_appl_ver_id : String
  pub sending_time : List ℕ
  pub orig_sending_time : List ℕ
  pub msg_seq_num : ℕ
  pub poss_dup : Bool
  pub fields : List (ℕ × FieldValue)
  pub raw : List ℕ
  pub validation_issue : Option ValidationIssue

-- `MessageView::get_int`, `get_string`, `get_boolean` and `has_field`.
abbrev pub get_int : DecodedMessage → ℕ → Option ℤ
get_int decoded tag = as_int (find_field tag decoded.fields)

abbrev pub get_string : DecodedMessage → ℕ → Option String
get_string decoded tag = as_string (find_field tag decoded.fields)

abbrev pub get_boolean : DecodedMessage → ℕ → Option Bool
get_boolean decoded tag = as_boolean (find_field tag decoded.fields)

abbrev pub has_field : DecodedMessage → ℕ → Bool
has_field decoded tag = elim (find_field tag decoded.fields) [ none ↦ false | some v ↦ true ]

-- `MessageDataWriter`: a message that is built field by field.
pub record OutboundMessage : Type 0 where
  pub msg_type : MsgType
  pub fields : List (ℕ × FieldValue)

pub record SessionSendEnvelope : Type 0 where
  pub sender_sub_id : String
  pub target_sub_id : String
  pub appl_ver_id : String

abbrev pub no_envelope : SessionSendEnvelope
no_envelope = record { sender_sub_id = ""; target_sub_id = ""; appl_ver_id = "" }

-- The part of `EncodeOptions` that differs between the frames of a session.
pub record EncodeOptions : Type 0 where
  pub msg_seq_num : ℕ
  pub poss_dup : Bool
  pub orig_sending_time : List ℕ
  pub envelope : SessionSendEnvelope

pub record EncodedFrame : Type 0 where
  pub bytes : List ℕ
  pub msg_type : MsgType
  pub admin : Bool

-- `ProtocolEvent`; its application messages are the decoded ones.
pub record ProtocolEvent : Type 0 where
  pub outbound_frames : List EncodedFrame
  pub application_messages : List DecodedMessage
  pub session_active : Bool
  pub disconnect : Bool
  pub poss_resend : Bool
  pub session_reject : Bool
  pub warnings : List String
  pub errors : List String

abbrev pub no_event : ProtocolEvent
no_event = record {
  outbound_frames = [];
  application_messages = [];
  session_active = false;
  disconnect = false;
  poss_resend = false;
  session_reject = false;
  warnings = [];
  errors = [];
}
