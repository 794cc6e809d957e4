-- ===== src/Admin/Calls.antt =====
-- The other public calls of src/session/admin_protocol.cpp: the transport's events, a frame with the
-- deferred ones behind it, and the sending of application messages.
use nimblefix.Common.{
  ℕ, zero, suc, ◌+◌, Bool, true, false, ◌||◌, Option, none, some, List, [], ◌∷◌, ◌++◌, ltb,
  if◌then◌else◌, drop, length,
}
use nimblefix.Status.{Result, Status, ok, err, ErrorCode, format_error, invalid_argument}
use nimblefix.Session.State.{active, awaiting_logout, same_state}
use nimblefix.Session.Core.{
  on_transport_connected, on_transport_closed, begin_logon, record_inbound_activity,
}
use nimblefix.Action.{Action, pure, fail, gets, update, ◌>>=◌, ◌>>◌}
use nimblefix.Admin.Data.{
  MsgType, EncodeOptions, DecodedMessage, OutboundMessage, EncodedApplicationMessage,
  SessionSendEnvelope, EncodedFrame, ProtocolEvent, no_event, Environment, Protocol,
}
use nimblefix.Admin.Stored.{
  on_session, ensure_initialized, persist_recovery_state, refresh_session_state_from_store,
  reset_session_state,
}
use nimblefix.Admin.Frames.{encode_with, build_logon_frame}
use nimblefix.Admin.Frames.{only_frame}
use nimblefix.Admin.Sequence.{is_present}
use nimblefix.Admin.Inbound.{on_inbound}

-- What a deferred frame adds to the event.
abbrev pub merge_event : ProtocolEvent → ProtocolEvent → ProtocolEvent
merge_event event inner = record event {
  outbound_frames = event.outbound_frames ++ inner.outbound_frames;
  application_messages = event.application_messages ++ inner.application_messages;
  disconnect = event.disconnect || inner.disconnect;
}

-- The first of the frames from the index on, unless a resend is pending.
abbrev pub first_unless : Bool → List (List ℕ) → Option (List ℕ)
first_unless pending [] = none
first_unless true (frame ∷ frames) = none
first_unless false (frame ∷ frames) = some frame

-- A run of the loop of `DrainDeferredGapFrames`: the state, the event so far and the status.
abbrev pub Drained : Type 0 → Type 0
Drained S = Protocol S × (ProtocolEvent × Status)

module _ {S : Type 0} where
  abbrev pub forget_pending : Protocol S → Protocol S
  forget_pending p = record p {
    outstanding_test_request_id = "";
    logout_sent = false;
    test_request_sent_ns = 0;
    logout_sent_ns = 0;
    deferred_gap_frames = [];
  }

  -- The tests of the loop and `deferred_gap_frames_[index]`.
  abbrev pub deferred_frame : Protocol S → ℕ → Option (List ℕ)
  deferred_frame p index =
      first_unless (is_present p.session.pending_resend) (drop index p.deferred_gap_frames)

  -- The frames up to the index go.
  abbrev pub erase_deferred : ℕ → Protocol S → Protocol S
  erase_deferred index p = record p { deferred_gap_frames = drop index p.deferred_gap_frames }

  abbrev pub stop_drain : ℕ → ProtocolEvent → Status → Protocol S → Drained S
  stop_drain index event status p = (erase_deferred index p, (event, status))

  -- What follows the visit of a frame, with the rest of the loop.
  abbrev pub after_visit :
      ℕ
      → ProtocolEvent
      → Result (Option ProtocolEvent)
      → (ProtocolEvent → Protocol S → Drained S)
      → Protocol S
      → Drained S
  after_visit index event (err e) rest p = stop_drain index event (err e) p
  after_visit index event (ok none) rest p = rest event p
  after_visit index event (ok (some inner)) rest p =
      if inner.disconnect
      then stop_drain index (merge_event event inner) (ok tt) p
      else rest (merge_event event inner) p

module _ {S : Type 0} (env : Environment S) where
  -- The first Logon of an initiator.
  abbrev pub start_logon : ℕ → Action (Protocol S) ProtocolEvent
  start_logon timestamp_ns = do
    if env.config.reset_seq_num_on_logon then reset_session_state env 1 1 true else pure tt
    on_session begin_logon
    frame ← build_logon_frame env timestamp_ns env.config.reset_seq_num_on_logon
    pure (only_frame frame)

  unfoldable pub admin_on_transport_connected : ℕ → Action (Protocol S) ProtocolEvent
  unfolding on_session pure ◌>>=◌ ensure_initialized refresh_session_state_from_store
      reset_session_state persist_recovery_state on_transport_connected begin_logon
      build_logon_frame
  admin_on_transport_connected timestamp_ns = do
    ensure_initialized
    if env.config.refresh_on_logon then refresh_session_state_from_store env else pure tt
    on_session on_transport_connected
    persist_recovery_state env
    if env.config.session.is_initiator then start_logon timestamp_ns else pure no_event

  -- Whether the numbers are reset, by the state before the transport is closed.
  abbrev pub resets_on_close : Protocol S → Bool
  resets_on_close p =
      if same_state p.session.state awaiting_logout
      then env.config.reset_seq_num_on_logout
      else env.config.reset_seq_num_on_disconnect

  unfoldable pub admin_on_transport_closed : Action (Protocol S) (Unit {0})
  unfolding on_session gets update ◌>>=◌ ensure_initialized reset_session_state
      persist_recovery_state on_transport_closed
  admin_on_transport_closed = do
    ensure_initialized
    resets ← gets resets_on_close
    update forget_pending
    on_session on_transport_closed
    if resets then reset_session_state env 1 1 true else persist_recovery_state env

  -- A frame that is not well formed counts as activity; the texts of its status are not modelled.
  unfoldable pub handle_inbound_decode_failure : ErrorCode → ℕ → Action (Protocol S) ProtocolEvent
  unfolding on_session pure fail ◌>>=◌ ensure_initialized persist_recovery_state
      record_inbound_activity
  handle_inbound_decode_failure format_error timestamp_ns = do
    ensure_initialized
    on_session (λ c. record_inbound_activity c timestamp_ns)
    persist_recovery_state env
    pure (record no_event { warnings = "malformed inbound frame ignored" ∷ [] })
  handle_inbound_decode_failure code timestamp_ns = fail code

  -- What a deferred frame does: nothing when it is corrupt or was received by then.
  abbrev pub visit_decoded : ℕ → Result DecodedMessage → Action (Protocol S) (Option ProtocolEvent)
  visit_decoded timestamp_ns (err e) = pure none
  visit_decoded timestamp_ns (ok decoded) = do
    next_in ← gets (λ p. p.session.next_in_seq)
    if ltb decoded.msg_seq_num next_in
        then pure none
        else (do inner ← on_inbound env decoded timestamp_ns; pure (some inner))

  unfoldable pub visit_deferred : List ℕ → ℕ → Action (Protocol S) (Option ProtocolEvent)
  unfolding pure gets ◌>>=◌ on_inbound
  visit_deferred frame timestamp_ns = visit_decoded timestamp_ns (env.codec.decode frame)

  -- The body of the loop for the frame at the index, with the rest of the loop.
  abbrev pub at_deferred :
      ℕ
      → ℕ
      → ProtocolEvent
      → (ProtocolEvent → Protocol S → Drained S)
      → Protocol S
      → Option (List ℕ)
      → Drained S
  at_deferred index timestamp_ns event rest p none = stop_drain index event (ok tt) p
  at_deferred index timestamp_ns event rest p (some frame) =
      let (q, visited) = visit_deferred frame timestamp_ns p in
      after_visit (index + 1) event visited rest q

  -- The loop; a frame that is deferred on the way stops it, so the fuel is the count of the frames.
  unfoldable pub drain_from : ℕ → ℕ → ℕ → ProtocolEvent → Protocol S → Drained S
  unfolding visit_deferred
  drain_from zero index timestamp_ns event p = stop_drain index event (ok tt) p
  drain_from (suc fuel) index timestamp_ns event p =
      at_deferred index timestamp_ns event (drain_from fuel (index + 1) timestamp_ns) p
        (deferred_frame p index)

  unfoldable pub drain_deferred_gap_frames : ℕ → ProtocolEvent → Protocol S → Drained S
  unfolding drain_from
  drain_deferred_gap_frames timestamp_ns event p =
      drain_from (length p.deferred_gap_frames) 0 timestamp_ns event p

  -- The end of the overload for a span: the status of the drain is returned.
  abbrev pub drain_or_fail : ℕ → ProtocolEvent → Action (Protocol S) ProtocolEvent
  drain_or_fail timestamp_ns event p =
      let (q, drained) = drain_deferred_gap_frames timestamp_ns event p in
      (q, elim drained.1 [ ok x ↦ ok drained.0 | err e ↦ err e ])

  -- The end of the overload for a vector: the status of the drain is dropped.
  abbrev pub drain_regardless : ℕ → ProtocolEvent → Action (Protocol S) ProtocolEvent
  drain_regardless timestamp_ns event p =
      let (q, drained) = drain_deferred_gap_frames timestamp_ns event p in (q, ok drained.0)

  -- What the two overloads share: the frame is decoded, handled and drained behind.
  abbrev pub inbound_by :
      ℕ
      → (ProtocolEvent → Action (Protocol S) ProtocolEvent)
      → Result DecodedMessage
      → Action (Protocol S) ProtocolEvent
  inbound_by timestamp_ns drain (err code) = handle_inbound_decode_failure code timestamp_ns
  inbound_by timestamp_ns drain (ok decoded) = on_inbound env decoded timestamp_ns >>= drain

  -- `OnInbound` for a span of bytes.
  unfoldable pub on_inbound_span : List ℕ → ℕ → Action (Protocol S) ProtocolEvent
  unfolding ◌>>=◌ on_inbound handle_inbound_decode_failure drain_deferred_gap_frames
  on_inbound_span frame timestamp_ns =
      inbound_by timestamp_ns (drain_or_fail timestamp_ns) (env.codec.decode frame)

  -- `OnInbound` for a vector of bytes.
  unfoldable pub on_inbound_vector : List ℕ → ℕ → Action (Protocol S) ProtocolEvent
  unfolding ◌>>=◌ on_inbound handle_inbound_decode_failure drain_deferred_gap_frames
  on_inbound_vector frame timestamp_ns =
      inbound_by timestamp_ns (drain_regardless timestamp_ns) (env.codec.decode frame)

  -- The two kinds of `SendApplication`, by what encodes the message.
  abbrev pub send_with :
      (EncodeOptions → Result (List ℕ))
      → MsgType
      → ℕ
      → SessionSendEnvelope
      → Action (Protocol S) EncodedFrame
  send_with encode msg_type timestamp_ns envelope = do
    ensure_initialized
    state ← gets (λ p. p.session.state)
    if same_state state active || same_state state awaiting_logout
        then encode_with env encode msg_type false timestamp_ns true false true 0 0 envelope
        else fail invalid_argument

  unfoldable pub send_application :
      OutboundMessage → ℕ → SessionSendEnvelope → Action (Protocol S) EncodedFrame
  unfolding fail gets ◌>>=◌ ensure_initialized encode_with
  send_application message = send_with (env.codec.encode message) message.msg_type

  unfoldable pub send_encoded_application :
      EncodedApplicationMessage → ℕ → SessionSendEnvelope → Action (Protocol S) EncodedFrame
  unfolding fail gets ◌>>=◌ ensure_initialized encode_with
  send_encoded_application message = send_with (env.codec.encode_body message) message.msg_type
