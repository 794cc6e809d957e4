-- ===== src/Admin/Examples.antt =====
-- The theorems on the protocol at concrete inputs.
mod Data
use nimblefix.Common.{
  ℕ, ◌≤◌, ◌<◌, true, false, Option, none, some, ◌≡◌, ◌≢◌, refl, arith, List, [], ◌∷◌, ltb,
  if◌then◌else◌,
}
use nimblefix.Common.Int.{pos}
use nimblefix.Status.{Result, ok, err, format_error, not_found}
use nimblefix.Store.Record.{MessageRecord}
use nimblefix.Session.State.{SessionCore, SessionConfig, active, disconnected, new, u32_max}
use nimblefix.Session.Core.Invariant.{IsValid}
use nimblefix.Admin.Data.{
  MsgType, heartbeat, test_request, resend_request, sequence_reset, logon, application, FieldValue,
  string_value, int_value, DecodedMessage, AdminProtocolConfig, ValidationPolicy, ignore_unknown,
  ignore_malformed, Codec, Dictionary, ProtocolStore, Environment, Protocol, no_event, find_field,
  is_logon,
}
use nimblefix.Admin.Validate.{validate_comp_ids, validate_poss_dup}
use nimblefix.Admin.Validate.Time.{
  parse_fix_utc_timestamp_ns, parse_decimal, decimal_from, timestamp_from, fractional_ns, epoch_ns,
  sending_time_outside_threshold,
}
use nimblefix.Admin.Validate.Messages.{
  validate_administrative_message, validate_application_message,
  reject_unsupported_session_encryption, rejected_issue, check_admin_fields,
  resolve_application_business_reject_reason,
}
use nimblefix.Schedule.Dates.{days_in_month, validate_date_parts, is_leap_year}
use nimblefix.Admin.Frames.Decimal.{to_string, digits_of}
use nimblefix.Admin.Frames.Success.{Saves, after_frame}
use nimblefix.Admin.Frames.{only_frame}
use nimblefix.Admin.Dispatch.{deliver}
use nimblefix.Admin.Inbound.{on_inbound}
use nimblefix.Admin.Timer.{
  on_timer, next_timer_deadline, interval_ns, add_ns, test_request_threshold_ns,
}
use nimblefix.Admin.Timer.Deadline.{next_timer_deadline-quiet}
use nimblefix.Admin.Timer.Due.{HasEffect, next_timer_deadline-acts}
use nimblefix.Admin.Calls.{drain_from, drain_deferred_gap_frames}
use nimblefix.Admin.Drain.{drain_deferred_gap_frames-ends}
use nimblefix.Admin.Replay.{replay_outbound}
use nimblefix.Admin.Replay.Pieces.{Piece, encode_pieces}
use nimblefix.Admin.Replay.Covered.{Covers, replay_outbound-Covers}
use nimblefix.Admin.Keeps.{LoadsFit}
use nimblefix.Admin.Numbers.{
  AdminCall, connected_at, timer_at, decoded_at, vector_at, admin_run, admin_run-IsSound,
}
use nimblefix.Admin.Numbers.Rising.{on_inbound-rising}
use nimblefix.Admin.Branches.{IsRoutine}
use nimblefix.Admin.Branches.Stale.{heard, on_inbound-duplicate}
use nimblefix.Admin.Branches.Gap.{asked, on_inbound-gap}
use nimblefix.Admin.Branches.Delivery.{expecting, on_inbound-application, on_inbound-test_request}
use nimblefix.Admin.Examples.Data.{
  desk, from_buyer, open_dictionary, here, small_store-Saves, small_store-LoadsFit,
  decode_frame-fits, sent_record, at_desk,
}

-- What passes the checks of the header.
routine_lem :
    (kind : MsgType) (n t : ℕ) (fields : List (ℕ × FieldValue))
    → is_logon kind ≡ false
    → IsRoutine here (from_buyer kind n fields) t
unfolding validate_comp_ids validate_poss_dup sending_time_outside_threshold
routine_lem kind n t fields other = record {
  ids = rw other refl;
  dup = refl;
  orig = refl;
  near = refl;
  other = other;
}

at_desk-IsValid : IsValid at_desk.session
at_desk-IsValid = ground arith

duplicate-IsRoutine :
    IsRoutine here (record (from_buyer (application "D") 3 []) { poss_dup = true }) 3
unfolding validate_comp_ids validate_poss_dup sending_time_outside_threshold
duplicate-IsRoutine = record { ids = refl; dup = refl; orig = refl; near = refl; other = refl }

order_allowed :
    resolve_application_business_reject_reason desk open_dictionary
      (from_buyer (application "D") 5 [])
    ≡ none
unfolding resolve_application_business_reject_reason
order_allowed = refl

order_valid :
    validate_application_message desk open_dictionary (from_buyer (application "D") 5 []) ≡ none
unfolding validate_application_message reject_unsupported_session_encryption rejected_issue
    find_field
order_valid = refl

ping_valid :
    validate_administrative_message desk open_dictionary
      (from_buyer test_request 5 ((112, string_value "ping") ∷ []))
    ≡ none
unfolding validate_administrative_message reject_unsupported_session_encryption rejected_issue
    check_admin_fields find_field
ping_valid = refl

-- Tests.
to_string_test : to_string 90_210 ≡ "90210"
unfolding to_string digits_of
to_string_test = refl

-- 2024-01-02, 03:04:05 and a half.
parse_test :
    parse_fix_utc_timestamp_ns (
      50 ∷ 48 ∷ 50 ∷ 52 ∷ 48 ∷ 49 ∷ 48 ∷ 50 ∷ 45 ∷ 48 ∷ 51 ∷ 58 ∷ 48 ∷ 52 ∷ 58 ∷ 48 ∷ 53 ∷ 46 ∷ 53
      ∷ [])
    ≡ some 1_704_164_645_500_000_000
unfolding parse_fix_utc_timestamp_ns parse_decimal decimal_from timestamp_from fractional_ns
    epoch_ns days_in_month validate_date_parts is_leap_year
parse_test = refl

on_inbound-gap_example :
    (o : Option (List MessageRecord)) × (on_inbound here
        (from_buyer (application "D") 9 [])
        3
        at_desk
      ≡ (
        asked at_desk (from_buyer (application "D") 9 []) 3 o,
        ok (only_frame (record { bytes = 8 ∷ []; msg_type = resend_request; admin = true })),
      ))
on_inbound-gap_example =
    on_inbound-gap here small_store-Saves (from_buyer (application "D") 9 []) 3 (8 ∷ []) at_desk
      (routine_lem (application "D") 9 3 [] refl) refl refl refl (omega arith) refl (omega arith)
      refl

on_inbound-duplicate_example :
    (o : Option (List MessageRecord)) × (on_inbound here
        (record (from_buyer (application "D") 3 []) { poss_dup = true })
        3
        at_desk
      ≡ (heard at_desk 3 o, ok no_event))
on_inbound-duplicate_example =
    on_inbound-duplicate here small_store-Saves
      (record (from_buyer (application "D") 3 []) { poss_dup = true }) 3 at_desk duplicate-IsRoutine
      refl refl (omega arith) refl refl

on_inbound-application_example :
    (o : Option (List MessageRecord)) × (on_inbound here
        (from_buyer (application "D") 5 [])
        3
        at_desk
      ≡ (
        heard (expecting at_desk) 3 o,
        ok (record {
          outbound_frames = [];
          application_messages = from_buyer (application "D") 5 [] ∷ [];
          session_active = false;
          disconnect = false;
          poss_resend = false;
          session_reject = false;
          warnings = [];
          errors = [];
        }),
      ))
unfolding find_field
on_inbound-application_example =
    on_inbound-application here small_store-Saves (from_buyer (application "D") 5 []) 3 at_desk
      (routine_lem (application "D") 5 3 [] refl) refl refl refl refl (omega arith) "D" refl
      order_allowed order_valid

on_inbound-test_request_example :
    (o : Option (List MessageRecord)) × (on_inbound here
        (from_buyer test_request 5 ((112, string_value "ping") ∷ []))
        3
        at_desk
      ≡ (
        after_frame (heard (expecting at_desk) 3 none) 3 o,
        ok (only_frame (record { bytes = 8 ∷ []; msg_type = heartbeat; admin = true })),
      ))
on_inbound-test_request_example =
    on_inbound-test_request here small_store-Saves
      (from_buyer test_request 5 ((112, string_value "ping") ∷ [])) 3 at_desk
      (routine_lem test_request 5 3 ((112, string_value "ping") ∷ []) refl) refl refl refl refl
      (omega arith) (8 ∷ []) refl ping_valid (omega arith) refl

on_inbound-rising_example :
    let q =
      (on_inbound here (from_buyer sequence_reset 9 ((36, int_value (pos 12)) ∷ [])) 3 at_desk).0 in
    (5 ≤ q.session.next_in_seq) × (8 ≤ q.session.next_out_seq)
on_inbound-rising_example =
    on_inbound-rising here (from_buyer sequence_reset 9 ((36, int_value (pos 12)) ∷ [])) 3 at_desk
      (omega arith) refl

abbrev busy_calls : List AdminCall
busy_calls =
    connected_at 1
    ∷ decoded_at (from_buyer logon 1 ((98, int_value (pos 0)) ∷ (108, int_value (pos 30)) ∷ [])) 2
    ∷ timer_at 90_000_000_000
    ∷ vector_at (4 ∷ []) 90_000_000_001
    ∷ []

admin_run-IsSound_example : IsValid (admin_run here at_desk busy_calls).session
admin_run-IsSound_example =
    admin_run-IsSound here small_store-LoadsFit decode_frame-fits at_desk busy_calls
      (tt, (omega arith, (tt, (tt, tt)))) at_desk-IsValid

deadline_at_desk : next_timer_deadline here at_desk 3_000_000_000 ≡ some 32_000_000_000
unfolding next_timer_deadline interval_ns add_ns test_request_threshold_ns
deadline_at_desk = refl

next_timer_deadline-quiet_example : on_timer here 31_000_000_000 at_desk ≡ (at_desk, ok no_event)
next_timer_deadline-quiet_example =
    next_timer_deadline-quiet here at_desk 3_000_000_000 32_000_000_000 31_000_000_000
      deadline_at_desk (omega arith) (omega arith)

next_timer_deadline-acts_example : HasEffect (on_timer here 33_000_000_000 at_desk).1
next_timer_deadline-acts_example =
    next_timer_deadline-acts here at_desk 3_000_000_000 32_000_000_000 33_000_000_000
      deadline_at_desk (λ e. absurd (ground arith)) (omega arith)

drain_deferred_gap_frames-ends_example :
    drain_from here 40 0 3 no_event at_desk ≡ drain_deferred_gap_frames here 3 no_event at_desk
drain_deferred_gap_frames-ends_example =
    drain_deferred_gap_frames-ends here small_store-LoadsFit decode_frame-fits 40 3 no_event at_desk
      at_desk-IsValid (omega arith)

abbrev sent_before : List MessageRecord
sent_before = sent_record 2 0 ∷ sent_record 3 1 ∷ sent_record 5 0 ∷ []

replay_outbound-Covers_example :
    (ps : List Piece) × (replay_outbound here 2 0 3 at_desk ≡ encode_pieces here 3 ps at_desk)
    × Covers sent_before 2 8 ps
replay_outbound-Covers_example =
    replay_outbound-Covers here 2 0 3 at_desk sent_before sent_before (omega arith) (omega arith)
      (omega arith) (omega arith) refl refl (omega arith, (omega arith, (omega arith, tt)))
