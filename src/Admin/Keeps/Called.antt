-- ===== src/Admin/Keeps/Called.antt =====
-- What the other public calls keep.
use nimblefix.Common.{
  ℕ, zero, suc, ◌+◌, ◌<◌, Option, none, some, ◌≡◌, refl, List, arith, Bool-cases, inl, inr,
}
use nimblefix.Status.{Result, ok, err, ErrorCode, format_error}
use nimblefix.Session.State.{u32_max}
use nimblefix.Action.Keeps.{Keeps, keeps_rules, Keeps-fail, Keeps-pure, Keeps-bind}
use nimblefix.Admin.Data.{
  MsgType, Environment, Protocol, DecodedMessage, ProtocolEvent, EncodeOptions, SessionSendEnvelope,
  OutboundMessage, EncodedApplicationMessage,
}
use nimblefix.Admin.Sequence.{on_gap}
use nimblefix.Admin.Inbound.{on_inbound}
use nimblefix.Admin.Calls.{
  start_logon, admin_on_transport_connected, admin_on_transport_closed,
  handle_inbound_decode_failure, deferred_frame, Drained, inbound_by, at_deferred, visit_decoded,
  visit_deferred, after_visit, drain_from, drain_deferred_gap_frames, drain_or_fail,
  drain_regardless, on_inbound_span, on_inbound_vector, send_with, send_application,
  send_encoded_application,
}
use nimblefix.Admin.Keeps.{Steps, Restarts, Transports}
use nimblefix.Admin.Keeps.Sent.{
  Keeps-on_session, Keeps-ensure_initialized, Keeps-build_resend_request_frame,
  Keeps-build_logon_frame, Keeps-encode_with,
}
use nimblefix.Admin.Keeps.Handled.{
  Keeps-persist, Keeps-reset_session_state, Keeps-refresh_session_state_from_store,
}
use nimblefix.Admin.Keeps.Inbound.{Ensures-on_inbound}

module _ {S : Type 0} (env : Environment S) {P : Protocol S → Type 0} (steps : Steps P) where
  Keeps-send_with :
      (encode : EncodeOptions → Result (List ℕ)) (m : MsgType) (t : ℕ) (e : SessionSendEnvelope)
      → Keeps P (send_with env encode m t e)
  Keeps-send_with encode m t e =
      search (keeps_rules, Keeps-ensure_initialized, Keeps-encode_with env steps.encodes) depth 12

  pub Keeps-send_application :
      (m : OutboundMessage) (t : ℕ) (e : SessionSendEnvelope) → Keeps P (send_application env m t e)
  unfolding send_application
  Keeps-send_application m t e = Keeps-send_with (env.codec.encode m) m.msg_type t e

  pub Keeps-send_encoded_application :
      (m : EncodedApplicationMessage) (t : ℕ) (e : SessionSendEnvelope)
      → Keeps P (send_encoded_application env m t e)
  unfolding send_encoded_application
  Keeps-send_encoded_application m t e = Keeps-send_with (env.codec.encode_body m) m.msg_type t e

  Keeps-handle_inbound_decode_failure :
      (e : ErrorCode) (t : ℕ) → Keeps P (handle_inbound_decode_failure env e t)
  unfolding handle_inbound_decode_failure
  Keeps-handle_inbound_decode_failure format_error t =
      search
        (keeps_rules, Keeps-ensure_initialized, Keeps-on_session, steps.records_in, Keeps-persist)
        depth 12
  Keeps-handle_inbound_decode_failure e t = Keeps-fail _

module _ {S : Type 0} (env : Environment S) {P : Protocol S → Type 0} (steps : Steps P)
    (transports : Transports P) where
  pub Keeps-on_gap : (d : DecodedMessage) (t : ℕ) → Keeps P (on_gap env d t)
  unfolding on_gap
  Keeps-on_gap d t =
      search
        (
          keeps_rules,
          Keeps-on_session,
          steps.records_in,
          transports.defers,
          Keeps-build_resend_request_frame env steps.encodes,
        )
        depth 16

module _ {S : Type 0} (env : Environment S) {P : Protocol S → Type 0} (steps : Steps P)
    (restarts : Restarts env P) (transports : Transports P) where
  Keeps-start_logon : (t : ℕ) → Keeps P (start_logon env t)
  Keeps-start_logon t =
      search
        (
          keeps_rules,
          Keeps-reset_session_state env steps restarts 1 1 (omega arith) (omega arith),
          Keeps-on_session,
          transports.begins,
          Keeps-build_logon_frame env steps.encodes,
        )
        depth 12

  pub Keeps-admin_on_transport_connected : (t : ℕ) → Keeps P (admin_on_transport_connected env t)
  unfolding admin_on_transport_connected
  Keeps-admin_on_transport_connected t =
      search
        (
          keeps_rules, Keeps-ensure_initialized, Keeps-refresh_session_state_from_store,
          Keeps-on_session, transports.connects, Keeps-persist, Keeps-start_logon,
        )
        depth 16

  pub Keeps-admin_on_transport_closed : Keeps P (admin_on_transport_closed env)
  unfolding admin_on_transport_closed
  Keeps-admin_on_transport_closed =
      search
        (
          keeps_rules,
          Keeps-ensure_initialized,
          transports.forgets,
          Keeps-on_session,
          transports.closes,
          Keeps-persist,
          Keeps-reset_session_state env steps restarts 1 1 (omega arith) (omega arith),
        )
        depth 16

  pub Keeps-on_inbound :
      (d : DecodedMessage) (t : ℕ) → d.msg_seq_num < u32_max → Keeps P (on_inbound env d t)
  Keeps-on_inbound d t fits =
      Ensures-on_inbound env steps (λ p h. h) (Keeps-on_gap env steps transports) d t fits
        (λ _. restarts)

  -- The frames that the codec decodes have numbers below the largest.
  module _
      (decodes : (frame : List ℕ) (d : DecodedMessage)
        → env.codec.decode frame ≡ ok d
        → d.msg_seq_num < u32_max) where
    pub Keeps-visit_deferred : (frame : List ℕ) (t : ℕ) → Keeps P (visit_deferred env frame t)
    unfolding visit_deferred
    Keeps-visit_deferred frame t = by_result (env.codec.decode frame) refl
      where
        by_result :
            (r : Result DecodedMessage)
            → env.codec.decode frame ≡ r
            → Keeps P (visit_decoded env t r)
        by_result (err e) q = Keeps-pure none
        by_result (ok d) q =
            let fits = decodes frame d q in search (keeps_rules, Keeps-on_inbound) depth 12

    module _ (rest : ProtocolEvent → Protocol S → Drained S)
        (k : (event : ProtocolEvent) (q : Protocol S) → P q → P (rest event q).0) where
      after_visit-Keeps :
          (index : ℕ) (event : ProtocolEvent) (q : Protocol S) (r : Result (Option ProtocolEvent))
          → P q
          → P (after_visit index event r rest q).0
      after_visit-Keeps index event q (err e) h = transports.defers q _ h
      after_visit-Keeps index event q (ok none) h = k event q h
      after_visit-Keeps index event q (ok (some inner)) h = elim (Bool-cases inner.disconnect) [
        | inl e ↦ rw e (transports.defers q _ h)
        | inr e ↦ rw e (k _ q h)
      ]

      at_deferred-Keeps :
          (index t : ℕ) (event : ProtocolEvent) (p : Protocol S) (o : Option (List ℕ))
          → P p
          → P (at_deferred env index t event rest p o).0
      at_deferred-Keeps index t event p none h = transports.defers p _ h
      at_deferred-Keeps index t event p (some frame) h =
          after_visit-Keeps (index + 1) event (visit_deferred env frame t p).0
            (visit_deferred env frame t p).1 ((Keeps-visit_deferred frame t).at p h)

    Keeps-drain_from :
        (fuel index t : ℕ) (event : ProtocolEvent) (p : Protocol S)
        → P p
        → P (drain_from env fuel index t event p).0
    unfolding drain_from
    Keeps-drain_from zero index t event p h = transports.defers p _ h
    Keeps-drain_from (suc fuel) index t event p h =
        at_deferred-Keeps (drain_from env fuel (index + 1) t) (Keeps-drain_from fuel (index + 1) t)
          index t event p (deferred_frame p index) h

    Keeps-drain_or_fail : (t : ℕ) (event : ProtocolEvent) → Keeps P (drain_or_fail env t event)
    unfolding drain_deferred_gap_frames
    Keeps-drain_or_fail t event = record { at = λ p h. Keeps-drain_from _ 0 t event p h }

    Keeps-drain_regardless :
        (t : ℕ) (event : ProtocolEvent) → Keeps P (drain_regardless env t event)
    unfolding drain_deferred_gap_frames
    Keeps-drain_regardless t event = record { at = λ p h. Keeps-drain_from _ 0 t event p h }

    pub Keeps-on_inbound_span : (frame : List ℕ) (t : ℕ) → Keeps P (on_inbound_span env frame t)
    unfolding on_inbound_span
    Keeps-on_inbound_span frame t = by_result (env.codec.decode frame) refl
      where
        by_result :
            (r : Result DecodedMessage)
            → env.codec.decode frame ≡ r
            → Keeps P (inbound_by env t (drain_or_fail env t) r)
        by_result (err e) q = Keeps-handle_inbound_decode_failure env steps e t
        by_result (ok d) q =
            Keeps-bind _ _ (Keeps-on_inbound d t (decodes frame d q)) (Keeps-drain_or_fail t)

    pub Keeps-on_inbound_vector : (frame : List ℕ) (t : ℕ) → Keeps P (on_inbound_vector env frame t)
    unfolding on_inbound_vector
    Keeps-on_inbound_vector frame t = by_result (env.codec.decode frame) refl
      where
        by_result :
            (r : Result DecodedMessage)
            → env.codec.decode frame ≡ r
            → Keeps P (inbound_by env t (drain_regardless env t) r)
        by_result (err e) q = Keeps-handle_inbound_decode_failure env steps e t
        by_result (ok d) q =
            Keeps-bind _ _ (Keeps-on_inbound d t (decodes frame d q)) (Keeps-drain_regardless t)
