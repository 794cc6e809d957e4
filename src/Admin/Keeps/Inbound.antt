-- ===== src/Admin/Keeps/Inbound.antt =====
-- What `OnInbound` keeps, for a decoded message. Where a gap ends in less than the property `P` that
-- every other call keeps, `Q` is what is left at the end.
use Prim.Native.String.{String}
use nimblefix.Common.{ℕ, Bool, true, not, ◌≤◌, ◌<◌, ◌&&◌, Option, ◌≡◌, arith, if◌then◌else◌}
use nimblefix.Status.{Status, ok, err, ErrorCode}
use nimblefix.Session.State.{SessionCore, u32_max}
use nimblefix.Action.{Action, pure, fail, ◌>>=◌, on_option}
use nimblefix.Action.Keeps.{
  Ensures, Keeps, keeps_rules, Keeps-pure, Keeps-fail, Keeps-gets, Keeps-bind, Ensures-if,
  Ensures-on_option, Ensures-read, Ensures-bind, Ensures-weaken,
}
use nimblefix.Admin.Data.{is_logon, Environment, Protocol, DecodedMessage, ProtocolEvent, no_event}
use nimblefix.Admin.Validate.{Rejection}
use nimblefix.Admin.Sequence.{
  on_gap, on_stale, on_reset, answer_violation, on_refused_number, after_number, on_number,
}
use nimblefix.Admin.Inbound.{
  refreshes, resets, prepare_logon, drop_early, on_sequence, on_checked, refuse_comp_ids,
  refuse_header, refuse_late, on_header, on_inbound,
}
use nimblefix.Admin.Keeps.{Steps, Restarts}
use nimblefix.Admin.Keeps.Sent.{Keeps-ensure_initialized, Keeps-on_session}
use nimblefix.Admin.Keeps.Handled.{
  Keeps-commit_inbound_persistence, Keeps-refresh_session_state_from_store,
  Keeps-reset_session_state, Keeps-dispatch_inbound,
}
use nimblefix.Admin.Keeps.Received.{
  Keeps-note_activity, Keeps-build_phase_violation_logout, Keeps-on_stale, Keeps-then_handle,
  Keeps-on_reset, Keeps-take_number, Keeps-consume_expected_inbound_before_reject,
  Keeps-reject_then_logout, Keeps-refuse_comp_ids, Keeps-refuse_header,
}

conjunct : (a b : Bool) → (a && b) ≡ true → a ≡ true
conjunct a b h = ground arith

module _ {S : Type 0} (env : Environment S) {P Q : Protocol S → Type 0} (steps : Steps P)
    (weaker : (p : Protocol S) → P p → Q p)
    (gap : (d : DecodedMessage) (t : ℕ) → Ensures P Q (on_gap env d t)) where
  Ensures-answer_violation :
      (d : DecodedMessage) (before : SessionCore) (t : ℕ) (text : String)
      → Ensures P Q (answer_violation env d before t text)
  Ensures-answer_violation d before t text = Ensures-weaken weaker (
      Keeps-bind _ _ (Keeps-on_session _ (λ p. steps.records_in p t))
        λ _. Keeps-build_phase_violation_logout env steps text before d.msg_type t)

  Ensures-then :
      {A B : Type 0} (m : Action (Protocol S) A) (f : A → Action (Protocol S) B)
      → Keeps P m
      → ((a : A) → Ensures P Q (f a))
      → Ensures P Q (m >>= f)
  Ensures-then m f = Ensures-bind m f weaker

  Ensures-fail : (e : ErrorCode) → Ensures P Q (fail {A = ProtocolEvent} e)
  Ensures-fail e = Ensures-weaken weaker (Keeps-fail e)

  Ensures-on_refused_number :
      (d : DecodedMessage) (before : SessionCore) (v : Option String) (e : ErrorCode) (t : ℕ)
      → Ensures P Q (on_refused_number env d before v e t)
  unfolding on_refused_number
  Ensures-on_refused_number d before v e t =
      search
        (
          Ensures-then, Keeps-gets, Ensures-on_option, Ensures-if, gap, Ensures-fail,
          Ensures-answer_violation,
        )
        depth 16

  Ensures-after_number :
      (d : DecodedMessage) (before : SessionCore) (v : Option String) (t : ℕ) (status : Status)
      → (is_logon d.msg_type ≡ true → Restarts env P)
      → Ensures P Q (after_number env d before v t status)
  Ensures-after_number d before v t (err e) restarts = Ensures-on_refused_number d before v e t
  Ensures-after_number d before v t (ok x) restarts = Ensures-weaken weaker (
      Keeps-bind _ _ (Keeps-commit_inbound_persistence env steps d t) λ _.
        Keeps-then_handle env steps d before v t _ (Keeps-dispatch_inbound env steps d t restarts))

  Ensures-on_number :
      (d : DecodedMessage) (before : SessionCore) (v : Option String) (t : ℕ)
      → d.msg_seq_num < u32_max
      → (is_logon d.msg_type ≡ true → Restarts env P)
      → Ensures P Q (on_number env d before v t)
  unfolding on_number
  Ensures-on_number d before v t fits restarts =
      Ensures-bind _ _ weaker (Keeps-take_number env steps d fits)
        λ status. Ensures-after_number d before v t status restarts

  Ensures-early :
      (d : DecodedMessage) (v : Option String) (t : ℕ)
      → Ensures P Q (on_option v (pure no_event) (drop_early env t))
  Ensures-early d v t = Ensures-weaken weaker (search (keeps_rules, Keeps-note_activity env steps))

  Ensures-stale :
      (d : DecodedMessage) (before : SessionCore) (t : ℕ) → Ensures P Q (on_stale env d before t)
  Ensures-stale d before t = Ensures-weaken weaker (Keeps-on_stale env steps d before t)

  Ensures-reset :
      (d : DecodedMessage) (before : SessionCore) (v : Option String) (t : ℕ)
      → Ensures P Q (on_reset env d before v t)
  Ensures-reset d before v t = Ensures-weaken weaker (Keeps-on_reset env steps d before v t)

  Ensures-on_sequence :
      (d : DecodedMessage) (before : SessionCore) (t : ℕ)
      → d.msg_seq_num < u32_max
      → (is_logon d.msg_type ≡ true → Restarts env P)
      → Ensures P Q (on_sequence env d before t)
  unfolding on_sequence
  Ensures-on_sequence d before t fits restarts =
      search (Ensures-if, Ensures-early, Ensures-stale, Ensures-reset, Ensures-on_number) depth 12

  resets-logon : (d : DecodedMessage) → resets env d ≡ true → is_logon d.msg_type ≡ true
  unfolding resets
  resets-logon d e = conjunct (is_logon d.msg_type) _ e

  -- The resets of a Logon; the number that may be restored fits.
  Keeps-prepare_logon :
      (d : DecodedMessage) (before : SessionCore)
      → (is_logon d.msg_type ≡ true → before.next_out_seq ≤ u32_max)
      → (is_logon d.msg_type ≡ true → Restarts env P)
      → Keeps P (prepare_logon env d before)
  unfolding prepare_logon
  Keeps-prepare_logon d before fits restarts =
      Keeps-bind _ _
        (Ensures-if (refreshes env d) _ _
          (λ e. Keeps-refresh_session_state_from_store env steps (restarts (conjunct _ _ e)))
          (λ _. Keeps-pure tt))
        λ _.
          Ensures-if (resets env d) _ _
            (λ e.
              Keeps-bind _ _
                (Keeps-reset_session_state env steps (restarts (resets-logon d e)) 1 _ (omega arith)
                  (restored_out env.config.session.is_initiator (fits (resets-logon d e)))
                  (not env.config.session.is_initiator))
                (λ _. Keeps-gets (λ p. p.session)))
            (λ _. Keeps-pure before)
    where
      restored_out :
          (i : Bool)
          → before.next_out_seq ≤ u32_max
          → (if i then before.next_out_seq else 1) ≤ u32_max
      restored_out i h = ground arith

  Ensures-checked :
      (d : DecodedMessage) (before : SessionCore) (t : ℕ)
      → d.msg_seq_num < u32_max
      → (is_logon d.msg_type ≡ true → before.next_out_seq ≤ u32_max)
      → (is_logon d.msg_type ≡ true → Restarts env P)
      → Ensures P Q (on_checked env d before t)
  Ensures-checked d before t fits out restarts =
      Ensures-then _ _ (Keeps-prepare_logon d before out restarts)
        λ c. Ensures-on_sequence d c t fits restarts

  Ensures-refused_ids :
      (d : DecodedMessage) (before : SessionCore) (r : Rejection) (t : ℕ)
      → d.msg_seq_num < u32_max
      → Ensures P Q (refuse_comp_ids env d before r t)
  Ensures-refused_ids d before r t fits =
      Ensures-weaken weaker (Keeps-refuse_comp_ids env steps d before r t fits)

  Ensures-refused_header :
      (d : DecodedMessage) (before : SessionCore) (tag reason : ℕ) (text : String) (t : ℕ)
      → d.msg_seq_num < u32_max
      → Ensures P Q (refuse_header env d before tag reason text t)
  Ensures-refused_header d before tag reason text t fits =
      Ensures-weaken weaker (Keeps-refuse_header env steps d before tag reason text t fits)

  Ensures-refuse_late :
      (d : DecodedMessage) (before : SessionCore) (t : ℕ)
      → d.msg_seq_num < u32_max
      → Ensures P Q (refuse_late env d before t)
  Ensures-refuse_late d before t fits = Ensures-weaken weaker (
      Keeps-bind _ _ (Keeps-consume_expected_inbound_before_reject env steps d before t fits)
        λ _. Keeps-reject_then_logout env steps d _ _ _ t)

  Ensures-on_header :
      (d : DecodedMessage) (before : SessionCore) (t : ℕ)
      → d.msg_seq_num < u32_max
      → (is_logon d.msg_type ≡ true → before.next_out_seq ≤ u32_max)
      → (is_logon d.msg_type ≡ true → Restarts env P)
      → Ensures P Q (on_header env d before t)
  unfolding on_header
  Ensures-on_header d before t fits out restarts =
      search
        (
          Ensures-on_option, Ensures-if, Ensures-refused_ids, Ensures-refused_header,
          Ensures-refuse_late, Ensures-checked,
        )
        depth 12

  pub Ensures-on_inbound :
      (d : DecodedMessage) (t : ℕ)
      → d.msg_seq_num < u32_max
      → (is_logon d.msg_type ≡ true → Restarts env P)
      → Ensures P Q (on_inbound env d t)
  unfolding on_inbound
  Ensures-on_inbound d t fits restarts = Ensures-then _ _ (Keeps-ensure_initialized steps) λ _.
      Ensures-read (λ p. p.session) (λ before. on_header env d before t)
        λ p h. Ensures-on_header d p.session t fits (λ e. (restarts e).fits p h) restarts
