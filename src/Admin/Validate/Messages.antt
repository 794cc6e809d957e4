-- ===== src/Admin/Validate/Messages.antt =====
-- The checks of src/session/admin_protocol.cpp on the fields of administrative and application
-- messages, and on the extra fields of a Logon.
use Prim.Native.String.{String}
use nimblefix.Common.{
  ℕ, suc, ◌-◌, ◌%◌, ◌^◌, Bool, true, false, not, ◌&&◌, ◌||◌, Option, none, some, List, [], ◌∷◌,
  ◌==◌, if◌then◌else◌,
}
use nimblefix.Common.Int.{ℤ, pos, negsuc, lebℤ, ltbℤ}
use nimblefix.Status.{Status, ok, err, invalid_argument}
use nimblefix.Admin.Data.{
  MsgType, test_request, resend_request, logon, application, is_admin_message, is_logon,
  DecodedMessage, ValidationIssue, AdminProtocolConfig, Dictionary, LogonField, same_text,
  is_empty_text, get_int, has_field,
}
use nimblefix.Admin.Validate.{
  Rejection, refused, or_else, should_reject_validation_issue, validation_issue_reject_reason,
}

-- `IsEngineManagedLogonField`; the tags of the header are the codec's.
abbrev pub is_engine_managed_logon_field : (ℕ → Bool) → ℕ → Bool
is_engine_managed_logon_field is_encode_managed_tag tag =
    tag == 35 || tag == 98 || tag == 108 || tag == 141 || tag == 789 || is_encode_managed_tag tag

abbrev pub member : ℕ → List ℕ → Bool
member tag [] = false
member tag (t ∷ ts) = (t == tag) || member tag ts

-- The loop, with the tags that were met.
unfoldable pub validate_logon_fields_from : (ℕ → Bool) → List ℕ → List LogonField → Status
validate_logon_fields_from managed tags [] = ok tt
validate_logon_fields_from managed tags (field ∷ fields) =
    let rest = validate_logon_fields_from managed (field.tag ∷ tags) fields in
    if field.tag == 0
    then err invalid_argument
    else if is_empty_text field.value
    then err invalid_argument
    else if is_engine_managed_logon_field managed field.tag
    then err invalid_argument
    else if member field.tag tags
    then err invalid_argument
    else rest

unfoldable pub validate_logon_fields : (ℕ → Bool) → List LogonField → Status
unfolding validate_logon_fields_from
validate_logon_fields managed fields = validate_logon_fields_from managed [] fields

unfoldable pub reject_unsupported_session_encryption : DecodedMessage → Option Rejection
reject_unsupported_session_encryption decoded =
    if not (has_field decoded 90) && not (has_field decoded 91)
    then none
    else refused (if has_field decoded 91 then 91 else 90) 7
        "session-layer SecureData is not supported by this runtime" false

-- `static_cast<std::uint32_t>` of a 64-bit number.
abbrev pub to_u32 : ℤ → ℕ
to_u32 (pos n) = n % 2 ^ 32
to_u32 (negsuc n) = (2 ^ 64 - suc n) % 2 ^ 32

-- The number, or none where the code rejects with reason 1 and `new_seq_missing`.
unfoldable pub parse_sequence_reset_new_seq : DecodedMessage → Option ℕ
parse_sequence_reset_new_seq decoded = elim (get_int decoded 36) [
  | none ↦ none
  | some value ↦ if lebℤ value (pos 0) then none else some (to_u32 value)
]

abbrev pub new_seq_missing : String
new_seq_missing = "SequenceReset requires NewSeqNo"

-- An issue that the policy and the callback do not let pass.
unfoldable pub rejected_issue :
    AdminProtocolConfig → DecodedMessage → Bool → Option ValidationIssue → Option Rejection
unfolding should_reject_validation_issue
rejected_issue config decoded disconnect none = none
rejected_issue config decoded disconnect (some issue) =
    if should_reject_validation_issue config.validation_policy config.validation_callback decoded
      issue
    then refused issue.tag (validation_issue_reject_reason issue.kind) issue.text disconnect
    else none

-- A field that must be a number within the test.
abbrev pub number_within : Option ℤ → (ℤ → Bool) → Bool
number_within none test = false
number_within (some n) test = test n

unfoldable pub check_logon : DecodedMessage → Option Rejection
check_logon decoded =
    if not (has_field decoded 98)
    then refused 98 1 "Logon requires EncryptMethod" true
    else if not (number_within (get_int decoded 98) (λ n. lebℤ n (pos 0) && lebℤ (pos 0) n))
    then refused 98 5 "Logon EncryptMethod must be 0" true
    else if not (has_field decoded 108)
    then refused 108 1 "Logon requires HeartBtInt" true
    else if not (number_within (get_int decoded 108) (ltbℤ (pos 0)))
    then refused 108 5 "Logon HeartBtInt must be positive" true
    else none

-- `end_seq.value() != 0 && begin_seq.value() > end_seq.value()`, on the numbers that were found.
abbrev pub ends_before : Option ℤ → Option ℤ → Bool
ends_before (some begin_seq) (some end_seq) = ltbℤ (pos 0) end_seq && ltbℤ end_seq begin_seq
ends_before _ _ = false

unfoldable pub check_resend_request : DecodedMessage → Option Rejection
check_resend_request decoded =
    if not (has_field decoded 7)
    then refused 7 1 "ResendRequest requires BeginSeqNo" false
    else if not (has_field decoded 16)
    then refused 16 1 "ResendRequest requires EndSeqNo" false
    else if not (number_within (get_int decoded 7) (ltbℤ (pos 0)))
    then refused 7 5 "ResendRequest BeginSeqNo must be positive" false
    else if not (number_within (get_int decoded 16) (lebℤ (pos 0)))
    then refused 16 5 "ResendRequest EndSeqNo must be zero or positive" false
    else if ends_before (get_int decoded 7) (get_int decoded 16)
    then refused 16 5 "ResendRequest BeginSeqNo must be less than or equal to EndSeqNo" false
    else none

-- The checks of one type of message.
unfoldable pub check_admin_fields : DecodedMessage → Option Rejection
unfolding check_logon check_resend_request
check_admin_fields decoded = elim decoded.msg_type [
  | logon ↦ check_logon decoded
  | test_request ↦
      if has_field decoded 112 then none else refused 112 1 "TestRequest requires TestReqID" false
  | resend_request ↦ check_resend_request decoded
  | _ ↦ none
]

-- `FindEnumValidationIssue`.
abbrev pub find_enum_validation_issue :
    AdminProtocolConfig → Dictionary → DecodedMessage → Option ValidationIssue
find_enum_validation_issue config dictionary decoded =
    if not config.validation_policy.validate_enum_values
      && elim config.validation_callback [ none ↦ true | some c ↦ false ]
    then none
    else dictionary.enum_issue decoded

unfoldable pub validate_administrative_message :
    AdminProtocolConfig → Dictionary → DecodedMessage → Option Rejection
unfolding reject_unsupported_session_encryption rejected_issue check_admin_fields
validate_administrative_message config dictionary decoded =
    if not (is_admin_message decoded.msg_type)
    then none
    else or_else (reject_unsupported_session_encryption decoded) (
        or_else (rejected_issue config decoded (is_logon decoded.msg_type) decoded.validation_issue)
          (or_else
            (rejected_issue config decoded (is_logon decoded.msg_type)
              (find_enum_validation_issue config dictionary decoded))
            (check_admin_fields decoded)))

-- The type of an application message.
abbrev pub application_type : MsgType → String
application_type (application s) = s
application_type _ = ""

unfoldable pub validate_application_message :
    AdminProtocolConfig → Dictionary → DecodedMessage → Option Rejection
unfolding reject_unsupported_session_encryption rejected_issue
validate_application_message config dictionary decoded =
    if is_admin_message decoded.msg_type
    then none
    else or_else (reject_unsupported_session_encryption decoded) (
        if not (dictionary.has_message (application_type decoded.msg_type))
        then (if not config.validation_policy.require_known_app_message_type
            then none
            else refused 35 11 "application message type is not present in the bound dictionary"
                false)
        else or_else (rejected_issue config decoded false decoded.validation_issue) (
            if not config.validation_policy.require_required_fields_on_app_messages
            then none
            else elim (dictionary.missing_field decoded) [
              | none ↦ none
              | some missing ↦ refused missing.0 1 missing.1 false
            ]))

abbrev pub has_text : String → List String → Bool
has_text s [] = false
has_text s (t ∷ ts) = same_text t s || has_text s ts

abbrev pub is_empty_types : List String → Bool
is_empty_types [] = true
is_empty_types (t ∷ ts) = false

unfoldable pub resolve_application_business_reject_reason :
    AdminProtocolConfig → Dictionary → DecodedMessage → Option ℕ
resolve_application_business_reject_reason config dictionary decoded =
    if is_admin_message decoded.msg_type
    then none
    else if config.application_messages_available && is_empty_types config.supported_app_msg_types
    then none
    else if not (dictionary.has_message (application_type decoded.msg_type))
    then none
    else if not config.application_messages_available
    then some 4
    else if has_text (application_type decoded.msg_type) config.supported_app_msg_types
    then none
    else some 3
