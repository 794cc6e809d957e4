-- ===== src/Admin/Branches/Gap.antt =====
-- A message above the expected number.
use nimblefix.Common.{
  ℕ, ◌+◌, ◌-◌, ◌<◌, true, false, not, ◌&&◌, Option, none, some, ◌≡◌, ◌≢◌, refl, ap, ◌∙◌, arith,
  lt→ltb, if◌then◌else◌, List, [], ◌∷◌, ◌++◌,
}
use nimblefix.Common.Int.{pos}
use nimblefix.Status.{Status, ok, err, invalid_argument}
use nimblefix.Session.State.{SessionCore, ResendRange, active, resend_processing, u32_max}
use nimblefix.Session.Core.{
  observe_inbound_seq, detect_gap, consume_resend_completed, record_inbound_activity,
}
use nimblefix.Action.{Action, ◌>>=◌, pure, gets, update, bind-ok, fail}
use nimblefix.Admin.Data.{
  DecodedMessage, Environment, Protocol, ProtocolEvent, EncodedFrame, is_sequence_reset,
  resend_request, int_value, OutboundMessage,
}
use nimblefix.Admin.Validate.{has_boolean}
use nimblefix.Admin.Stored.{on_session}
use nimblefix.Admin.Frames.{build_resend_request_frame, message_of}
use nimblefix.Admin.Frames.Success.{Saves, encode_admin-ok, options_of}
use nimblefix.Admin.Stored.{settle_resend}
use nimblefix.Admin.Frames.{only_frame}
use nimblefix.Admin.Sequence.{take_number, on_refused_number, after_number, on_number, on_gap}
use nimblefix.Admin.Inbound.{on_inbound}
use nimblefix.Admin.Branches.{IsRoutine, on_inbound-sequence, on_sequence-number}

-- The numbers that are missing before `n`.
abbrev pub missing_before : SessionCore → ℕ → ResendRange
missing_before c n = record { begin_seq = c.next_in_seq; end_seq = n - 1 }

abbrev pub request_of : ResendRange → OutboundMessage
request_of range =
    message_of resend_request
      ((7, int_value (pos range.begin_seq)) ∷ (16, int_value (pos range.end_seq)) ∷ [])

-- The session that waits for the missing numbers.
abbrev pub waiting_for : SessionCore → ResendRange → SessionCore
waiting_for c range = record c {
  pending_resend = some range;
  resume_state = active;
  state = resend_processing;
}

observe_inbound_seq-above :
    (c : SessionCore) (n : ℕ)
    → c.state ≡ active
    → c.next_in_seq < n
    → observe_inbound_seq c n ≡ (waiting_for c (missing_before c n), err invalid_argument)
unfolding observe_inbound_seq detect_gap
observe_inbound_seq-above c n live high = ground arith

module _ {S : Type 0} where
  -- The protocol that waits, before it asks.
  abbrev waiting : Protocol S → ℕ → Protocol S
  waiting p n = record p { session = waiting_for p.session (missing_before p.session n) }

  -- The protocol that has asked.
  abbrev pub asked : Protocol S → DecodedMessage → ℕ → Option S → Protocol S
  asked p d t o = record p {
    session = record (waiting_for p.session (missing_before p.session d.msg_seq_num)) {
      last_inbound_ns = t;
      next_out_seq = p.session.next_out_seq + 1;
      last_outbound_ns = t;
    };
    store = o;
    deferred_gap_frames = p.deferred_gap_frames ++ (d.raw ∷ []);
  }

  take_number-above :
      (d : DecodedMessage) (p : Protocol S)
      → p.session.state ≡ active
      → p.session.next_in_seq < d.msg_seq_num
      → p.session.resend_completed ≡ false
      → take_number d p ≡ (waiting p d.msg_seq_num, ok (err invalid_argument))
  unfolding take_number settle_resend consume_resend_completed
  take_number-above d p live high settled =
      ap
        (λ (out : SessionCore × Status).
          ((settle_resend (record p { session = out.0 })).0, ok out.1))
        (observe_inbound_seq-above p.session d.msg_seq_num live high)
      ∙ rw (settled) refl

module _ {S : Type 0} (env : Environment S) (saves : Saves env.methods) where
  on_gap-asks :
      (d : DecodedMessage) (t : ℕ) (bytes : List ℕ) (p : Protocol S)
      → p.session.next_out_seq ≢ u32_max
      → env.codec.encode
          (request_of (missing_before p.session d.msg_seq_num))
          (options_of p.session.next_out_seq)
        ≡ ok bytes
      → (o : Option S) × (on_gap env d t (waiting p d.msg_seq_num) ≡ (
        asked p d t o,
        ok (only_frame (record { bytes = bytes; msg_type = resend_request; admin = true })),
      ))
  unfolding on_gap on_session gets pure update record_inbound_activity build_resend_request_frame
  on_gap-asks d t bytes p room encodes =
      let range = missing_before p.session d.msg_seq_num in
      let q : Protocol S = record p {
        session = record (waiting_for p.session range) { last_inbound_ns = t };
      } in
      let finish : EncodedFrame → Action (Protocol S) ProtocolEvent = (λ frame.
        update (λ r. record r { deferred_gap_frames = r.deferred_gap_frames ++ (d.raw ∷ []) })
        >>= λ _. pure (only_frame frame)) in
      let (o, sent) = encode_admin-ok env saves (request_of range) t bytes q refl room encodes in
      (
        o,
        bind-ok (build_resend_request_frame env range.begin_seq range.end_seq t) finish {s = q}
            sent,
      )

  on_refused_number-gap :
      (d : DecodedMessage) (t : ℕ) (p : Protocol S)
      → p.session.next_in_seq < d.msg_seq_num
      → on_refused_number env d p.session none invalid_argument t (waiting p d.msg_seq_num)
        ≡ on_gap env d t (waiting p d.msg_seq_num)
  unfolding on_refused_number gets
  on_refused_number-gap d t p high =
      ap
        (λ b.
          (if b && true then on_gap env d t else fail invalid_argument) (waiting p d.msg_seq_num))
        (lt→ltb p.session.next_in_seq d.msg_seq_num high)

  -- For an active, initialized session whose last resend is settled, with a store that saves
  -- and room for one more outbound number, a message that is no Logon and no SequenceReset-
  -- Reset, passes the header checks and is above the expected number: if the codec encodes the
  -- resend request, OnInbound succeeds with just that request as its frame. The request asks
  -- for the numbers from the expected one to the one before the message; they stay pending, the
  -- state is resend processing, the expected number is unchanged, the outbound number rises by
  -- one, and the raw message is appended to the deferred frames.
  pub on_inbound-gap :
      (d : DecodedMessage) (t : ℕ) (bytes : List ℕ) (p : Protocol S)
      → IsRoutine env d t
      → p.initialization_error ≡ none
      → p.session.state ≡ active
      → p.session.resend_completed ≡ false
      → p.session.next_in_seq < d.msg_seq_num
      → (is_sequence_reset d.msg_type && not (has_boolean d 123)) ≡ false
      → p.session.next_out_seq ≢ u32_max
      → env.codec.encode
          (request_of (missing_before p.session d.msg_seq_num))
          (options_of p.session.next_out_seq)
        ≡ ok bytes
      → (o : Option S) × (on_inbound env d t p ≡ (
        asked p d t o,
        ok (only_frame (record { bytes = bytes; msg_type = resend_request; admin = true })),
      ))
  unfolding on_number
  on_inbound-gap d t bytes p routine start live settled high counts room encodes =
      let (o, asks) = on_gap-asks d t bytes p room encodes in
      (
        o,
        on_inbound-sequence env d t p routine start
            ∙ on_sequence-number env d t p routine live (omega arith) counts
            ∙ bind-ok (take_number d) (after_number env d p.session none t) {s = p}
                (take_number-above d p live high settled)
            ∙ on_refused_number-gap d t p high
            ∙ asks,
      )
