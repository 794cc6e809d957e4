-- ===== src/Admin/Validate.antt =====
-- The checks on an inbound message that change nothing.
pub mod Time
pub mod Messages
use Prim.Native.String.{String}
use nimblefix.Common.{
  ℕ, Bool, true, false, not, ◌&&◌, ◌||◌, Option, none, some, List, [], ◌∷◌, ◌==◌, if◌then◌else◌,
}
use nimblefix.Common.Int.{ℤ, pos, negsuc, lebℤ, ltbℤ}
use nimblefix.Status.{Status, Result, ok, err, invalid_argument}
use nimblefix.Session.State.{
  SessionState, connected, pending_logon, active, awaiting_logout, resend_processing, same_state,
}
use nimblefix.Admin.Data.{
  MsgType, application, heartbeat, test_request, resend_request, reject, sequence_reset, logout,
  logon, is_admin_message, is_logon, DecodedMessage, ValidationIssue, ValidationIssueKind,
  unknown_field, field_not_allowed, duplicate_field, incorrect_num_in_group_count,
  tag_specified_without_a_value, incorrect_data_format_for_value,
  tag_specified_out_of_required_order, repeating_group_fields_out_of_required_order,
  enum_value_not_allowed, ValidationPolicy, ValidationCallback, UnknownFieldAction, ignore_unknown,
  log_and_process, reject_unknown, MalformedFieldAction, ignore_malformed, log_malformed,
  reject_malformed, AdminProtocolConfig, Dictionary, same_text, is_empty_text, get_int, get_string,
  get_boolean, has_field,
}

-- What a failed check writes to its output arguments.
pub record Rejection : Type 0 where
  pub ref_tag_id : ℕ
  pub reject_reason : ℕ
  pub text : String
  pub disconnect : Bool

abbrev pub refused : ℕ → ℕ → String → Bool → Option Rejection
refused tag reason text disconnect =
    some (record { ref_tag_id = tag; reject_reason = reason; text = text; disconnect = disconnect })

-- The first check that fails.
abbrev pub or_else : Option Rejection → Option Rejection → Option Rejection
or_else none later = later
or_else (some r) later = some r

unfoldable pub has_boolean : DecodedMessage → ℕ → Bool
has_boolean decoded tag = elim (get_boolean decoded tag) [ none ↦ false | some b ↦ b ]

abbrev pub int_or : Option ℤ → ℤ → ℤ
int_or none fallback = fallback
int_or (some n) fallback = n

-- `GetStringView`.
abbrev pub text_or_empty : Option String → String
text_or_empty none = ""
text_or_empty (some s) = s

unfoldable pub is_pre_activation_state : SessionState → Bool
is_pre_activation_state s = same_state s connected || same_state s pending_logon

unfoldable pub is_active_admin_state : SessionState → Bool
is_active_admin_state s =
    same_state s active || same_state s awaiting_logout || same_state s resend_processing

abbrev pub is_logout : MsgType → Bool
is_logout logout = true
is_logout _ = false

-- The value of MsgType(35) as a text.
abbrev pub type_text : MsgType → String
type_text heartbeat = "0"
type_text test_request = "1"
type_text resend_request = "2"
type_text reject = "3"
type_text sequence_reset = "4"
type_text logout = "5"
type_text logon = "A"
type_text (application s) = s

-- `AdminPhaseViolationText`; the type of the message stands for the text that names it.
unfoldable pub admin_phase_violation : SessionState → MsgType → Option String
unfolding is_pre_activation_state is_active_admin_state
admin_phase_violation state msg_type =
    if not (is_admin_message msg_type)
    then none
    else if is_pre_activation_state state && not (is_logon msg_type) && not (is_logout msg_type)
    then some (type_text msg_type)
    else if is_logon msg_type && is_active_admin_state state
    then some "received unexpected Logon after session activation"
    else none

unfoldable pub validate_comp_ids : AdminProtocolConfig → DecodedMessage → Option Rejection
validate_comp_ids config decoded =
    let policy = config.validation_policy in
    let is_logon_message = is_logon decoded.msg_type in
    if not (is_empty_text config.begin_string)
      && not (same_text decoded.begin_string config.begin_string)
    then refused 8 5 "unexpected BeginString on inbound frame" true
    else if policy.enforce_comp_ids
        && not (is_empty_text config.target_comp_id)
        && not (same_text decoded.sender_comp_id config.target_comp_id)
    then refused 49 9 "unexpected SenderCompID on inbound frame" true
    else if policy.enforce_comp_ids
        && not (is_empty_text config.sender_comp_id)
        && not (same_text decoded.target_comp_id config.sender_comp_id)
    then refused 56 9 "unexpected TargetCompID on inbound frame" true
    else if is_logon_message
        && policy.require_default_appl_ver_id_on_logon
        && config.requires_default_appl_ver_id
        && is_empty_text decoded.default_appl_ver_id
    then refused 1137 1 "FIXT.1.1 logon requires DefaultApplVerID" true
    else if is_logon_message
        && policy.require_default_appl_ver_id_on_logon
        && not (is_empty_text config.default_appl_ver_id)
        && not (same_text decoded.default_appl_ver_id config.default_appl_ver_id)
    then refused 1137 5 "unexpected DefaultApplVerID on inbound frame" true
    else none

abbrev pub is_blank {ℓ} : {A : Type ℓ} → List A → Bool
is_blank [] = true
is_blank (x ∷ xs) = false

unfoldable pub validate_poss_dup : AdminProtocolConfig → DecodedMessage → Status
validate_poss_dup config decoded =
    if not config.validation_policy.require_orig_sending_time_on_poss_dup
    then ok tt
    else if not decoded.poss_dup
    then ok tt
    else if not (is_blank decoded.orig_sending_time)
    then ok tt
    else err invalid_argument

-- Whether the callback, if there is one, refuses.
abbrev pub callback_refuses : Option ValidationCallback → (ValidationCallback → Bool) → Bool
callback_refuses none ask = false
callback_refuses (some callback) ask = not (ask callback)

-- The cases of `malformed_field_action`, with what `kReject` does.
abbrev pub reject_malformed_field :
    ValidationPolicy → Option ValidationCallback → DecodedMessage → ValidationIssue → Bool → Bool
reject_malformed_field policy callback decoded issue by_policy =
    elim policy.malformed_field_action [
      | ignore_malformed ↦ false
      | log_malformed ↦ callback_refuses callback (λ c. c.on_malformed_field decoded issue)
      | reject_malformed ↦ by_policy
    ]

abbrev pub reject_unknown_field :
    ValidationPolicy → Option ValidationCallback → DecodedMessage → ValidationIssue → Bool
reject_unknown_field policy callback decoded issue = elim policy.unknown_field_action [
  | ignore_unknown ↦ false
  | log_and_process ↦ callback_refuses callback (λ c. c.on_unknown_field decoded issue)
  | reject_unknown ↦ policy.reject_unknown_fields
]

unfoldable pub should_reject_validation_issue :
    ValidationPolicy → Option ValidationCallback → DecodedMessage → ValidationIssue → Bool
should_reject_validation_issue policy callback decoded issue = elim issue.kind [
  | unknown_field ↦ reject_unknown_field policy callback decoded issue
  | field_not_allowed ↦ reject_unknown_field policy callback decoded issue
  | tag_specified_without_a_value ↦ policy.reject_tag_without_value
  | incorrect_data_format_for_value ↦
      reject_malformed_field policy callback decoded issue policy.reject_incorrect_data_format
  | tag_specified_out_of_required_order ↦ policy.reject_fields_out_of_order
  | duplicate_field ↦ policy.reject_duplicate_fields
  | repeating_group_fields_out_of_required_order ↦ policy.reject_fields_out_of_order
  | incorrect_num_in_group_count ↦ policy.reject_invalid_group_structure
  | enum_value_not_allowed ↦
      if not policy.validate_enum_values
      then false
      else reject_malformed_field policy callback decoded issue true
]

abbrev pub validation_issue_reject_reason : ValidationIssueKind → ℕ
validation_issue_reject_reason field_not_allowed = 2
validation_issue_reject_reason unknown_field = 0
validation_issue_reject_reason tag_specified_without_a_value = 4
validation_issue_reject_reason incorrect_data_format_for_value = 6
validation_issue_reject_reason duplicate_field = 13
validation_issue_reject_reason tag_specified_out_of_required_order = 14
validation_issue_reject_reason repeating_group_fields_out_of_required_order = 15
validation_issue_reject_reason incorrect_num_in_group_count = 16
validation_issue_reject_reason enum_value_not_allowed = 5
