-- ===== src/Admin/Branches/Delivery.antt =====
-- A message with the expected number: an application message and a test request.
use Prim.Native.String.{String}
use nimblefix.Common.{
  ℕ, ◌+◌, ◌<◌, true, false, not, ◌&&◌, Option, none, some, [], ◌∷◌, ◌≡◌, ◌≢◌, refl, ap, ◌∙◌, arith,
  if◌then◌else◌, List,
}
use nimblefix.Status.{Status, ok}
use nimblefix.Session.State.{SessionCore, active, u32_max}
use nimblefix.Session.Core.{
  observe_inbound_seq, finish_resend_if_past, consume_resend_completed, is_live,
}
use nimblefix.Action.{Action, ◌>>=◌, pure, gets, bind-ok, on_option}
use nimblefix.Admin.Data.{
  DecodedMessage, Environment, Protocol, get_boolean, ProtocolEvent, EncodedFrame,
  is_sequence_reset, MsgType, heartbeat, test_request, application, get_string, is_admin_message,
}
use nimblefix.Admin.Validate.{Rejection, has_boolean, text_or_empty, is_active_admin_state}
use nimblefix.Admin.Validate.Messages.{
  validate_administrative_message, validate_application_message,
  resolve_application_business_reject_reason,
}
use nimblefix.Admin.Frames.{build_heartbeat_frame, reject_inbound, message_of, text_field}
use nimblefix.Admin.Frames.Success.{Saves, encode_admin-ok, options_of, after_frame}
use nimblefix.Admin.Stored.{settle_resend, commit_inbound_persistence}
use nimblefix.Admin.Frames.{only_frame}
use nimblefix.Admin.Dispatch.{
  deliver, process_inbound_application, on_test_request, dispatch_inbound, handler_of,
}
use nimblefix.Admin.Sequence.{take_number, after_number, on_number, then_handle}
use nimblefix.Admin.Inbound.{on_inbound}
use nimblefix.Admin.Branches.{IsRoutine, on_inbound-sequence, on_sequence-number}
use nimblefix.Admin.Branches.Stale.{heard, commit_inbound_persistence-ok}

-- The session that has taken a number.
abbrev pub taken : SessionCore → SessionCore
taken c = record c { next_in_seq = c.next_in_seq + 1 }

observe_inbound_seq-expected :
    (c : SessionCore) (n : ℕ)
    → c.state ≡ active
    → n ≡ c.next_in_seq
    → n < u32_max
    → observe_inbound_seq c n ≡ (taken c, ok tt)
unfolding observe_inbound_seq finish_resend_if_past
observe_inbound_seq-expected c n live here fits = ground arith

module _ {S : Type 0} where
  abbrev pub expecting : Protocol S → Protocol S
  expecting p = record p { session = taken p.session }

  take_number-expected :
      (d : DecodedMessage) (p : Protocol S)
      → p.session.state ≡ active
      → d.msg_seq_num ≡ p.session.next_in_seq
      → d.msg_seq_num < u32_max
      → p.session.resend_completed ≡ false
      → take_number d p ≡ (expecting p, ok (ok tt))
  unfolding take_number settle_resend consume_resend_completed
  take_number-expected d p live here fits settled =
      ap
        (λ (out : SessionCore × Status).
          ((settle_resend (record p { session = out.0 })).0, ok out.1))
        (observe_inbound_seq-expected p.session d.msg_seq_num live here fits)
      ∙ rw (settled) refl

validate_administrative_message-application :
    {S : Type 0} (env : Environment S) (d : DecodedMessage) (kind : String)
    → d.msg_type ≡ application kind
    → validate_administrative_message env.config env.dictionary d ≡ none
unfolding validate_administrative_message
validate_administrative_message-application env d kind e = plain d.msg_type kind _ e
  where
    plain :
        (m : MsgType) (s : String) (r : Option Rejection)
        → m ≡ application s
        → (if not (is_admin_message m) then none else r) ≡ none
    plain m s r e = ap (λ x. if not (is_admin_message x) then none else r) e

process_inbound_application-deliver :
    {S : Type 0} (env : Environment S) (d : DecodedMessage) (t : ℕ) (q : Protocol S)
    → q.session.state ≡ active
    → resolve_application_business_reject_reason env.config env.dictionary d ≡ none
    → validate_application_message env.config env.dictionary d ≡ none
    → process_inbound_application env d t q ≡ (q, ok (deliver d))
unfolding process_inbound_application gets pure ◌>>=◌ is_active_admin_state
process_inbound_application-deliver env d t q e allowed good = rw (e, allowed, good) refl

module _ {S : Type 0} (env : Environment S) (saves : Saves env.methods) (d : DecodedMessage) (t : ℕ)
    (p : Protocol S) (routine : IsRoutine env d t) (start : p.initialization_error ≡ none)
    (live : p.session.state ≡ active) (settled : p.session.resend_completed ≡ false)
    (here : d.msg_seq_num ≡ p.session.next_in_seq) (fits : d.msg_seq_num < u32_max) where
  handled :
      (is_sequence_reset d.msg_type && not (has_boolean d 123)) ≡ false
      → validate_administrative_message env.config env.dictionary d ≡ none
      → (o : Option S) × (on_inbound env d t p ≡ dispatch_inbound env d t (heard (expecting p) t o))
  unfolding on_number then_handle
  handled counts good =
      let (o, committed) = commit_inbound_persistence-ok env saves d t (expecting p) in
      let handler = then_handle env d p.session none t (dispatch_inbound env d t) in
      (
        o,
        on_inbound-sequence env d t p routine start
            ∙ on_sequence-number env d t p routine live (omega arith) counts
            ∙ bind-ok (take_number d) (after_number env d p.session none t) {s = p}
                (take_number-expected d p live here fits settled)
            ∙ bind-ok (commit_inbound_persistence env d t) (λ _. handler) {s = expecting p}
                committed
            ∙ ap
                (λ v.
                  on_option v (dispatch_inbound env d t)
                    (λ r. reject_inbound env d r.ref_tag_id r.reject_reason r.text t r.disconnect)
                    (heard (expecting p) t o))
                good,
      )

  -- For an active, initialized session whose last resend is settled, with a store that saves:
  -- an application message with the expected number, below the largest one, that passes the
  -- header, business and field checks is the one application message of an event with no frame,
  -- warning, error or disconnect, whose possible-resend flag is that of the message (PossResend
  -- 97). The expected number rises by one, the activity is noted, and nothing but the store
  -- changes besides.
  pub on_inbound-application :
      (kind : String)
      → d.msg_type ≡ application kind
      → resolve_application_business_reject_reason env.config env.dictionary d ≡ none
      → validate_application_message env.config env.dictionary d ≡ none
      → (o : Option S) × (on_inbound env d t p ≡ (
        heard (expecting p) t o,
        ok (record {
          outbound_frames = [];
          application_messages = d ∷ [];
          session_active = false;
          disconnect = false;
          poss_resend = elim (get_boolean d 97) [ none ↦ false | some b ↦ b ];
          session_reject = false;
          warnings = [];
          errors = [];
        }),
      ))
  unfolding dispatch_inbound process_inbound_application has_boolean
  on_inbound-application kind plain allowed good =
      let (o, q) = handled (no_reset kind d.msg_type plain) (not_admin kind plain) in
      (
        o,
        q
            ∙ ap (λ m. handler_of env d t m (heard (expecting p) t o)) plain
            ∙ delivered (heard (expecting p) t o) live,
      )
    where
      no_reset :
          (s : String) (m : MsgType)
          → m ≡ application s
          → (is_sequence_reset m && not (has_boolean d 123)) ≡ false
      no_reset s m e = ap (λ x. is_sequence_reset x && not (has_boolean d 123)) e

      not_admin :
          (s : String)
          → d.msg_type ≡ application s
          → validate_administrative_message env.config env.dictionary d ≡ none
      not_admin s e = validate_administrative_message-application env d s e

      delivered :
          (q : Protocol S)
          → q.session.state ≡ active
          → process_inbound_application env d t q ≡ (q, ok (deliver d))
      delivered q e = process_inbound_application-deliver env d t q e allowed good

  -- For an active, initialized session whose last resend is settled, with a store that saves
  -- and room for one more outbound number: a valid TestRequest with the expected number, below
  -- the largest one, is answered by one Heartbeat with the same TestReqID, if the codec encodes
  -- it. Both numbers rise by one.
  pub on_inbound-test_request :
      (bytes : List ℕ)
      → d.msg_type ≡ test_request
      → validate_administrative_message env.config env.dictionary d ≡ none
      → p.session.next_out_seq ≢ u32_max
      → env.codec.encode
          (message_of heartbeat (text_field 112 (text_or_empty (get_string d 112))))
          (options_of p.session.next_out_seq)
        ≡ ok bytes
      → (o : Option S) × (on_inbound env d t p ≡ (
        after_frame (heard (expecting p) t none) t o,
        ok (only_frame (record { bytes = bytes; msg_type = heartbeat; admin = true })),
      ))
  unfolding dispatch_inbound on_test_request build_heartbeat_frame pure
  on_inbound-test_request bytes plain good room encodes =
      let (o, q) = handled (ap (λ x. is_sequence_reset x && not (has_boolean d 123)) plain) good in
      let now = heard (expecting p) t o in
      let finish : EncodedFrame → Action (Protocol S) ProtocolEvent = (λ f. pure (only_frame f)) in
      let (o', sent) =
        encode_admin-ok env saves
          (message_of heartbeat (text_field 112 (text_or_empty (get_string d 112)))) t bytes now
          (ap is_live live) room encodes in
      (
        o',
        q
            ∙ ap (λ m. handler_of env d t m now) plain
            ∙ bind-ok (build_heartbeat_frame env t (text_or_empty (get_string d 112))) finish
                {s = now} sent,
      )
