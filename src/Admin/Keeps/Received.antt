-- ===== src/Admin/Keeps/Received.antt =====
-- What `OnInbound` keeps, for a decoded message. A property `Q` that is weaker than the kept `P` may
-- stand for it at the end where it is all that a gap leaves.
use Prim.Native.String.{String}
use nimblefix.Common.{ℕ, ◌≤◌, ◌<◌, Option, arith}
use nimblefix.Session.State.{SessionCore, u32_max}
use nimblefix.Action.{Action}
use nimblefix.Action.Keeps.{Keeps, keeps_rules}
use nimblefix.Admin.Data.{MsgType, Environment, Protocol, DecodedMessage, ProtocolEvent}
use nimblefix.Admin.Validate.{Rejection}
use nimblefix.Admin.Sequence.{
  note_activity, build_phase_violation_logout, move_expected, on_stale_reset, on_stale, then_handle,
  on_reset, take_number,
}
use nimblefix.Admin.Inbound.{
  consume, consume_expected_inbound_before_reject, reject_then_logout, refuse_comp_ids,
  refuse_header,
}
use nimblefix.Admin.Keeps.{Steps}
use nimblefix.Admin.Keeps.Sent.{Keeps-on_session, Keeps-reject_inbound}
use nimblefix.Admin.Keeps.Handled.{
  parse_sequence_reset_new_seq-fits, Keeps-persist, Keeps-settle_resend,
  Keeps-logout_and_disconnect, Keeps-commit_inbound_persistence,
}

module _ {S : Type 0} (env : Environment S) {P : Protocol S → Type 0} (steps : Steps P) where
  pub Keeps-note_activity : (t : ℕ) → Keeps P (note_activity env t)
  Keeps-note_activity t = search (keeps_rules, Keeps-on_session, steps.records_in, Keeps-persist)

  pub Keeps-build_phase_violation_logout :
      (text : String) (before : SessionCore) (m : MsgType) (t : ℕ)
      → Keeps P (build_phase_violation_logout env text before m t)
  unfolding build_phase_violation_logout
  Keeps-build_phase_violation_logout text before m t =
      search (keeps_rules, Keeps-logout_and_disconnect)

  pub Keeps-move_expected :
      (d : DecodedMessage) (before : SessionCore) (n t : ℕ)
      → n ≤ u32_max
      → Keeps P (move_expected env d before n t)
  unfolding move_expected
  Keeps-move_expected d before n t fits =
      search
        (
          keeps_rules, Keeps-on_session, steps.advances, Keeps-settle_resend,
          Keeps-commit_inbound_persistence,
        )
        depth 16

  pub Keeps-on_stale_reset :
      (d : DecodedMessage) (before : SessionCore) (t : ℕ) → Keeps P (on_stale_reset env d before t)
  unfolding on_stale_reset
  Keeps-on_stale_reset d before t =
      search
        (
          keeps_rules, Keeps-reject_inbound, Keeps-logout_and_disconnect, Keeps-move_expected,
          parse_sequence_reset_new_seq-fits,
        )
        depth 16

  pub Keeps-on_stale :
      (d : DecodedMessage) (before : SessionCore) (t : ℕ) → Keeps P (on_stale env d before t)
  unfolding on_stale
  Keeps-on_stale d before t =
      search
        (
          keeps_rules, Keeps-on_stale_reset, Keeps-commit_inbound_persistence,
          Keeps-logout_and_disconnect,
        )
        depth 12

  pub Keeps-then_handle :
      (d : DecodedMessage) (before : SessionCore) (v : Option String) (t : ℕ)
      (handler : Action (Protocol S) ProtocolEvent)
      → Keeps P handler
      → Keeps P (then_handle env d before v t handler)
  unfolding then_handle
  Keeps-then_handle d before v t handler k =
      search (keeps_rules, Keeps-reject_inbound, Keeps-build_phase_violation_logout) depth 12

  pub Keeps-on_reset :
      (d : DecodedMessage) (before : SessionCore) (v : Option String) (t : ℕ)
      → Keeps P (on_reset env d before v t)
  unfolding on_reset
  Keeps-on_reset d before v t =
      search
        (
          keeps_rules, Keeps-reject_inbound, Keeps-move_expected, Keeps-then_handle,
          parse_sequence_reset_new_seq-fits,
        )
        depth 16

  pub Keeps-take_number : (d : DecodedMessage) → d.msg_seq_num < u32_max → Keeps P (take_number d)
  unfolding take_number
  Keeps-take_number d fits = record {
    at = λ p h. (Keeps-settle_resend steps).at _ (steps.observes p d.msg_seq_num fits h);
  }

  pub Keeps-consume_expected_inbound_before_reject :
      (d : DecodedMessage) (before : SessionCore) (t : ℕ)
      → d.msg_seq_num < u32_max
      → Keeps P (consume_expected_inbound_before_reject env d before t)
  unfolding consume_expected_inbound_before_reject
  Keeps-consume_expected_inbound_before_reject d before t fits = record {
    at = λ p h. ground (arith, (consumes d t fits).at p h);
  }
    where
      consumes : (d : DecodedMessage) (t : ℕ) → d.msg_seq_num < u32_max → Keeps P (consume env d t)
      consumes d t fits =
          search
            (
              keeps_rules, Keeps-on_session, steps.observes, Keeps-settle_resend,
              Keeps-note_activity,
            )
            depth 16

  pub Keeps-reject_then_logout :
      (d : DecodedMessage) (tag reason : ℕ) (text : String) (t : ℕ)
      → Keeps P (reject_then_logout env d tag reason text t)
  unfolding reject_then_logout
  Keeps-reject_then_logout d tag reason text t =
      search (keeps_rules, Keeps-reject_inbound, Keeps-logout_and_disconnect)

  pub Keeps-refuse_comp_ids :
      (d : DecodedMessage) (before : SessionCore) (r : Rejection) (t : ℕ)
      → d.msg_seq_num < u32_max
      → Keeps P (refuse_comp_ids env d before r t)
  unfolding refuse_comp_ids
  Keeps-refuse_comp_ids d before r t fits =
      search
        (
          keeps_rules, Keeps-consume_expected_inbound_before_reject, Keeps-on_session,
          steps.observes, Keeps-note_activity, Keeps-reject_then_logout, Keeps-reject_inbound,
        )
        depth 20

  pub Keeps-refuse_header :
      (d : DecodedMessage) (before : SessionCore) (tag reason : ℕ) (text : String) (t : ℕ)
      → d.msg_seq_num < u32_max
      → Keeps P (refuse_header env d before tag reason text t)
  unfolding refuse_header
  Keeps-refuse_header d before tag reason text t fits =
      search (keeps_rules, Keeps-consume_expected_inbound_before_reject, Keeps-reject_inbound) depth
        12
