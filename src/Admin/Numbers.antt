-- ===== src/Admin/Numbers.antt =====
-- The sequence numbers of a session over any calls of the protocol.
pub mod Rising
use Prim.Native.String.{String}
use nimblefix.Common.{
  ℕ, ◌+◌, ◌≤◌, ◌<◌, Bool, true, false, Option, none, some, ◌≡◌, ◌≢◌, refl, List, [], ◌∷◌, arith,
  All,
}
use nimblefix.Status.{ok}
use nimblefix.Session.State.{SessionCore, u32_max}
use nimblefix.Session.Core.{
  allocate_outbound_seq, record_outbound_activity, record_inbound_activity, begin_logout,
  on_logon_accepted, observe_inbound_seq, advance_inbound_expected_seq, consume_resend_completed,
  finish_resend_if_past, detect_gap, restore_sequence_state,
}
use nimblefix.Session.Core.Step.{
  step, restores, advances, observes, accepts_logon, begins_logout, transport_connects,
  transport_closes, begins_logon, allocates, records_inbound, records_outbound, consumes_resend,
}
use nimblefix.Session.Core.Invariant.{IsValid, step-IsValid}
use nimblefix.Action.Keeps.{Keeps}
use nimblefix.Admin.Data.{
  DecodedMessage, OutboundMessage, EncodedApplicationMessage, SessionSendEnvelope, Environment,
  Protocol, is_logon,
}
use nimblefix.Admin.Frames.{admin_begin_logout}
use nimblefix.Admin.Timer.{on_timer}
use nimblefix.Admin.Inbound.{on_inbound}
use nimblefix.Admin.Calls.{
  admin_on_transport_connected, admin_on_transport_closed, on_inbound_span, on_inbound_vector,
  send_application, send_encoded_application,
}
use nimblefix.Admin.Keeps.{Encodes, Steps, Restarts, Transports, LoadsFit}
use nimblefix.Admin.Keeps.Sent.{Keeps-admin_begin_logout}
use nimblefix.Admin.Keeps.Timed.{Keeps-on_timer}
use nimblefix.Admin.Keeps.Called.{
  Keeps-send_application, Keeps-send_encoded_application, Keeps-admin_on_transport_connected,
  Keeps-admin_on_transport_closed, Keeps-on_inbound, Keeps-on_inbound_span, Keeps-on_inbound_vector,
}

-- A call of a public method that may change the protocol.
pub data AdminCall : Type 0 where
  connected_at timer_at : ℕ → AdminCall
  closed : AdminCall
  decoded_at : DecodedMessage → ℕ → AdminCall
  span_at vector_at : List ℕ → ℕ → AdminCall
  sends_at : OutboundMessage → ℕ → SessionSendEnvelope → AdminCall
  sends_encoded_at : EncodedApplicationMessage → ℕ → SessionSendEnvelope → AdminCall
  logout_at : String → ℕ → AdminCall

module _ {S : Type 0} (env : Environment S) where
  -- The protocol after a call, whatever it returns.
  unfoldable pub admin_step : Protocol S → AdminCall → Protocol S
  unfolding admin_on_transport_connected on_timer admin_on_transport_closed on_inbound
      on_inbound_span on_inbound_vector send_application send_encoded_application admin_begin_logout
  admin_step p (connected_at t) = (admin_on_transport_connected env t p).0
  admin_step p (timer_at t) = (on_timer env t p).0
  admin_step p closed = (admin_on_transport_closed env p).0
  admin_step p (decoded_at d t) = (on_inbound env d t p).0
  admin_step p (span_at frame t) = (on_inbound_span env frame t p).0
  admin_step p (vector_at frame t) = (on_inbound_vector env frame t p).0
  admin_step p (sends_at m t e) = (send_application env m t e p).0
  admin_step p (sends_encoded_at m t e) = (send_encoded_application env m t e p).0
  admin_step p (logout_at text t) = (admin_begin_logout env text t p).0

  unfoldable pub admin_run : Protocol S → List AdminCall → Protocol S
  admin_run p [] = p
  admin_run p (call ∷ calls) = admin_run (admin_step p call) calls

abbrev pub IsSound : {S : Type 0} → Protocol S → Type 0
IsSound p = IsValid p.session

-- A message that is passed in decoded has a number below the largest.
abbrev pub CallFits : AdminCall → Type 0
CallFits (decoded_at d t) = d.msg_seq_num < u32_max
CallFits _ = Unit {0}

module _ {S : Type 0} where
  pub Encodes-IsSound : Encodes {S = S} IsSound
  unfolding step
  Encodes-IsSound = record {
    stores = λ p s h. h;
    allocates = λ p. step-IsValid p.session allocates tt;
    records_out = λ p t. step-IsValid p.session (records_outbound t) tt;
  }

  pub Steps-IsSound : Steps {S = S} IsSound
  unfolding step
  Steps-IsSound = record {
    encodes = Encodes-IsSound;
    records_in = λ p t. step-IsValid p.session (records_inbound t) tt;
    observes = λ p n fits. step-IsValid p.session (observes n) fits;
    advances = λ p n fits. step-IsValid p.session (advances n) fits;
    settles = λ p id. step-IsValid p.session consumes_resend tt;
    logs_out = λ p. step-IsValid p.session begins_logout tt;
    accepts = λ p. step-IsValid p.session accepts_logon tt;
    notes_test = λ p id t h. h;
    notes_logout = λ p t h. h;
  }

  pub Transports-IsSound : Transports {S = S} IsSound
  unfolding step
  Transports-IsSound = record {
    connects = λ p. step-IsValid p.session transport_connects tt;
    closes = λ p. step-IsValid p.session transport_closes tt;
    begins = λ p. step-IsValid p.session begins_logon tt;
    forgets = λ p h. h;
    defers = λ p frames h. h;
  }

  pub Restarts-IsSound : (env : Environment S) → LoadsFit env.methods → Restarts env IsSound
  unfolding step
  Restarts-IsSound env loads = record {
    restores = λ p i o hi ho. step-IsValid p.session (restores i o) (hi, ho);
    fits = λ p h. h.out_bounded;
    loads = loads;
  }

module _ {S : Type 0} (env : Environment S) (loads : LoadsFit env.methods)
    (decodes : (frame : List ℕ) (d : DecodedMessage)
      → env.codec.decode frame ≡ ok d
      → d.msg_seq_num < u32_max) where
  admin_step-IsSound :
      (p : Protocol S) (call : AdminCall)
      → CallFits call
      → IsSound p
      → IsSound (admin_step env p call)
  unfolding admin_step
  admin_step-IsSound p (connected_at t) f h =
      (Keeps-admin_on_transport_connected env Steps-IsSound (Restarts-IsSound env loads)
          Transports-IsSound t).at
        p h
  admin_step-IsSound p (timer_at t) f h = (Keeps-on_timer env Steps-IsSound t).at p h
  admin_step-IsSound p closed f h =
      (Keeps-admin_on_transport_closed env Steps-IsSound (Restarts-IsSound env loads)
          Transports-IsSound).at
        p h
  admin_step-IsSound p (decoded_at d t) f h =
      (Keeps-on_inbound env Steps-IsSound (Restarts-IsSound env loads) Transports-IsSound d t f).at
        p h
  admin_step-IsSound p (span_at frame t) f h =
      (Keeps-on_inbound_span env Steps-IsSound (Restarts-IsSound env loads) Transports-IsSound
          decodes frame t).at
        p h
  admin_step-IsSound p (vector_at frame t) f h =
      (Keeps-on_inbound_vector env Steps-IsSound (Restarts-IsSound env loads) Transports-IsSound
          decodes frame t).at
        p h
  admin_step-IsSound p (sends_at m t e) f h =
      (Keeps-send_application env Steps-IsSound m t e).at p h
  admin_step-IsSound p (sends_encoded_at m t e) f h =
      (Keeps-send_encoded_application env Steps-IsSound m t e).at p h
  admin_step-IsSound p (logout_at text t) f h =
      (Keeps-admin_begin_logout env Steps-IsSound text t).at p h

  -- Whatever public calls of the protocol are made, with messages, frames and timers in any
  -- order, a valid session core stays valid: its numbers stay positive and within 32 bits and
  -- its pending range is not empty. The store loads numbers of 32 bits, and messages have
  -- numbers below the largest one.
  pub admin_run-IsSound :
      (p : Protocol S) (calls : List AdminCall)
      → All CallFits calls
      → IsValid p.session
      → IsValid (admin_run env p calls).session
  unfolding admin_run
  admin_run-IsSound p [] f h = h
  admin_run-IsSound p (call ∷ calls) f h =
      admin_run-IsSound (admin_step env p call) calls f.1 (admin_step-IsSound p call f.0 h)
