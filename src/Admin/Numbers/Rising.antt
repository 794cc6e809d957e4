-- ===== src/Admin/Numbers/Rising.antt =====
-- The sequence numbers only rise, but for the resets of a Logon and of the transport's events.
use nimblefix.Common.{ℕ, ◌≤◌, ◌<◌, false, ◌≡◌, arith}
use nimblefix.Session.State.{u32_max}
use nimblefix.Session.Core.{
  allocate_outbound_seq, record_outbound_activity, record_inbound_activity, begin_logout,
  on_logon_accepted, observe_inbound_seq, advance_inbound_expected_seq, consume_resend_completed,
  finish_resend_if_past, detect_gap, on_transport_connected, on_transport_closed, begin_logon,
}
use nimblefix.Admin.Data.{DecodedMessage, Environment, Protocol, is_logon}
use nimblefix.Admin.Inbound.{on_inbound}
use nimblefix.Admin.Keeps.{Encodes, Steps, Transports}
use nimblefix.Admin.Keeps.Inbound.{Ensures-on_inbound}
use nimblefix.Admin.Keeps.Called.{Keeps-on_gap}

-- The next numbers are at least these.
abbrev pub AtLeast : {S : Type 0} → ℕ → ℕ → Protocol S → Type 0
AtLeast i o p = (i ≤ p.session.next_in_seq) × (o ≤ p.session.next_out_seq)

module _ {S : Type 0} (i o : ℕ) where
  Encodes-AtLeast : Encodes {S = S} (AtLeast i o)
  unfolding allocate_outbound_seq record_outbound_activity
  Encodes-AtLeast = record {
    stores = λ p s h. h;
    allocates = λ p h. ground arith;
    records_out = λ p t h. h;
  }

  Steps-AtLeast : Steps {S = S} (AtLeast i o)
  unfolding record_inbound_activity begin_logout on_logon_accepted observe_inbound_seq
      advance_inbound_expected_seq consume_resend_completed finish_resend_if_past detect_gap
  Steps-AtLeast = record {
    encodes = Encodes-AtLeast;
    records_in = λ p t h. h;
    observes = λ p n fits h. ground arith;
    advances = λ p n fits h. ground arith;
    settles = λ p id h. ground arith;
    logs_out = λ p h. ground arith;
    accepts = λ p h. ground arith;
    notes_test = λ p id t h. h;
    notes_logout = λ p t h. h;
  }

  Transports-AtLeast : Transports {S = S} (AtLeast i o)
  unfolding on_transport_connected on_transport_closed begin_logon
  Transports-AtLeast = record {
    connects = λ p h. ground arith;
    closes = λ p h. ground arith;
    begins = λ p h. ground arith;
    forgets = λ p h. h;
    defers = λ p frames h. h;
  }

module _ {S : Type 0} (env : Environment S) where
  -- Handling a message that is no Logon and has a number below the largest one never lowers the
  -- next inbound or the next outbound number, however it ends.
  pub on_inbound-rising :
      (d : DecodedMessage) (t : ℕ) (p : Protocol S)
      → d.msg_seq_num < u32_max
      → is_logon d.msg_type ≡ false
      → (p.session.next_in_seq ≤ (on_inbound env d t p).0.session.next_in_seq)
        × (p.session.next_out_seq ≤ (on_inbound env d t p).0.session.next_out_seq)
  on_inbound-rising d t p fits other =
      (Ensures-on_inbound env (Steps-AtLeast p.session.next_in_seq p.session.next_out_seq)
          (λ q h. h) (Keeps-on_gap env (Steps-AtLeast _ _) (Transports-AtLeast _ _)) d t fits
          (λ e. absurd (ground arith))).at
        p (omega arith, omega arith)
