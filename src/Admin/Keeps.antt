-- ===== src/Admin/Keeps.antt =====
-- What the calls of the protocol keep: a property that every call of the session core and every
-- other change of the protocol's state keeps is kept by `OnInbound`, `OnTimer` and the other calls.
pub mod Sent
pub mod Timed
pub mod Handled
pub mod Received
pub mod Inbound
pub mod Called
use Prim.Native.String.{String}
use nimblefix.Common.{ℕ, ◌≤◌, ◌<◌, ◌≡◌, some, true, List}
use nimblefix.Session.State.{SessionCore, u32_max}
use nimblefix.Session.Core.{
  allocate_outbound_seq, record_outbound_activity, record_inbound_activity, begin_logout,
  on_logon_accepted, observe_inbound_seq, advance_inbound_expected_seq, consume_resend_completed,
  restore_sequence_state, on_transport_connected, on_transport_closed, begin_logon,
}
use nimblefix.Status.{ok}
use nimblefix.Store.Record.{SessionRecoveryState}
use nimblefix.Admin.Data.{Protocol, ProtocolStore, Environment}
use nimblefix.Admin.Calls.{forget_pending}

-- A property that the steps of an encoding keep.
pub record Encodes {S : Type 0} (P : Protocol S → Type 0) : Type 0 where
  pub stores : (p : Protocol S) (s : S) → P p → P (record p { store = some s })
  pub allocates :
      (p : Protocol S) → P p → P (record p { session = (allocate_outbound_seq p.session).0 })
  pub records_out :
      (p : Protocol S) (t : ℕ)
      → P p
      → P (record p { session = (record_outbound_activity p.session t).0 })

-- A property that all steps keep, for numbers of 32 bits.
pub record Steps {S : Type 0} (P : Protocol S → Type 0) : Type 0 where
  pub encodes : Encodes P
  pub records_in :
      (p : Protocol S) (t : ℕ)
      → P p
      → P (record p { session = (record_inbound_activity p.session t).0 })
  pub observes :
      (p : Protocol S) (n : ℕ)
      → n < u32_max
      → P p
      → P (record p { session = (observe_inbound_seq p.session n).0 })
  pub advances :
      (p : Protocol S) (n : ℕ)
      → n ≤ u32_max
      → P p
      → P (record p { session = (advance_inbound_expected_seq p.session n).0 })
  pub settles :
      (p : Protocol S) (id : String)
      → P p
      → P (record p {
        session = (consume_resend_completed p.session).0;
        outstanding_test_request_id = id;
      })
  pub logs_out : (p : Protocol S) → P p → P (record p { session = (begin_logout p.session).0 })
  pub accepts : (p : Protocol S) → P p → P (record p { session = (on_logon_accepted p.session).0 })
  pub notes_test :
      (p : Protocol S) (id : String) (t : ℕ)
      → P p
      → P (record p { outstanding_test_request_id = id; test_request_sent_ns = t })
  pub notes_logout :
      (p : Protocol S) (t : ℕ) → P p → P (record p { logout_sent = true; logout_sent_ns = t })

-- The recovery state that a store loads has numbers of 32 bits, as its type says.
pub record LoadsFit {S : Type 0} (methods : ProtocolStore S) : Type 0 where
  pub next_in :
      (s : S) (id : ℕ) (r : SessionRecoveryState)
      → methods.load_recovery_state s id ≡ ok r
      → r.next_in_seq ≤ u32_max
  pub next_out :
      (s : S) (id : ℕ) (r : SessionRecoveryState)
      → methods.load_recovery_state s id ≡ ok r
      → r.next_out_seq ≤ u32_max

-- The step that sets the sequence numbers, from a store whose numbers fit.
pub record Restarts {S : Type 0} (env : Environment S) (P : Protocol S → Type 0) : Type 0 where
  pub restores :
      (p : Protocol S) (i o : ℕ)
      → i ≤ u32_max
      → o ≤ u32_max
      → P p
      → P (record p { session = (restore_sequence_state p.session i o).0 })
  pub fits : (p : Protocol S) → P p → p.session.next_out_seq ≤ u32_max
  pub loads : LoadsFit env.methods

-- The steps of the transport, and those of the deferred frames.
pub record Transports {S : Type 0} (P : Protocol S → Type 0) : Type 0 where
  pub connects :
      (p : Protocol S) → P p → P (record p { session = (on_transport_connected p.session).0 })
  pub closes : (p : Protocol S) → P p → P (record p { session = (on_transport_closed p.session).0 })
  pub begins : (p : Protocol S) → P p → P (record p { session = (begin_logon p.session).0 })
  pub forgets : (p : Protocol S) → P p → P (forget_pending p)
  pub defers :
      (p : Protocol S) (frames : List (List ℕ))
      → P p
      → P (record p { deferred_gap_frames = frames })
