-- ===== src/Admin/Branches.antt =====
-- The way of an inbound message through `OnInbound`, branch by branch, for a session that is active.
pub mod Gap
pub mod Stale
pub mod Delivery
use Prim.Native.String.{String}
use nimblefix.Common.{
  ℕ, ◌≤◌, ◌<◌, Bool, true, false, not, ◌&&◌, ◌||◌, Option, none, some, ◌≡◌, refl, ap, ◌∙◌, arith,
  ltb, ge→ltb, lt→ltb, if◌then◌else◌,
}
use nimblefix.Status.{Result, Status, ok, err}
use nimblefix.Session.State.{SessionCore, SessionState, active, connected, same_state}
use nimblefix.Action.{Action, ◌>>=◌, gets, pure, on_option}
use nimblefix.Admin.Data.{
  DecodedMessage, Environment, Protocol, ProtocolEvent, MsgType, heartbeat, test_request,
  resend_request, reject, sequence_reset, logout, logon, application, is_logon, is_sequence_reset,
}
use nimblefix.Admin.Validate.{
  has_boolean, validate_comp_ids, validate_poss_dup, admin_phase_violation, is_active_admin_state,
  is_pre_activation_state,
}
use nimblefix.Admin.Validate.Time.{sending_time_outside_threshold}
use nimblefix.Admin.Stored.{ensure_initialized}
use nimblefix.Admin.Sequence.{on_stale, on_number, is_present}
use nimblefix.Admin.Inbound.{
  orig_is_later, poss_dup_refused, refreshes, resets, prepare_logon, on_sequence, on_checked,
  on_header, on_inbound,
}

-- The header passes the checks, and the message is no Logon.
pub record IsRoutine {S : Type 0} (env : Environment S) (d : DecodedMessage) (t : ℕ) : Type 0 where
  pub ids : validate_comp_ids env.config d ≡ none
  pub dup : poss_dup_refused (validate_poss_dup env.config d) ≡ false
  pub orig : orig_is_later d ≡ false
  pub near :
      sending_time_outside_threshold d.sending_time t env.config.sending_time_threshold_seconds
      ≡ false
  pub other : is_logon d.msg_type ≡ false

-- An initialized protocol goes on.
ensured_lem :
    {S A : Type 0} (f : Unit {0} → Action (Protocol S) A) (p : Protocol S)
    → p.initialization_error ≡ none
    → (ensure_initialized >>= f) p ≡ f tt p
unfolding ensure_initialized ◌>>=◌
ensured_lem f p start = ground arith

read_lem : {S A B : Type 0} (g : S → A) (f : A → Action S B) (s : S) → (gets g >>= f) s ≡ f (g s) s
unfolding gets ◌>>=◌
read_lem g f s = refl

initialized_lem :
    {S : Type 0} (env : Environment S) (d : DecodedMessage) (t : ℕ) (p : Protocol S)
    → p.initialization_error ≡ none
    → on_inbound env d t p ≡ on_header env d p.session t p
unfolding on_inbound gets
initialized_lem env d t p start =
    ensured_lem (λ _. gets (λ p. p.session) >>= λ before. on_header env d before t) p start
    ∙ read_lem (λ p. p.session) (λ before. on_header env d before t) p

module _ {A : Type 0} where
  third_then :
      (a b : Bool) (x0 x1 x2 : A)
      → a ≡ false
      → b ≡ true
      → (if a then x0 else if b then x1 else x2) ≡ x1
  third_then a b x0 x1 x2 h1 h2 = simp (h1, h2) refl

  fourth_else :
      (a b c : Bool) (x0 x1 x2 x3 : A)
      → a ≡ false
      → b ≡ false
      → c ≡ false
      → (if a then x0 else if b then x1 else if c then x2 else x3) ≡ x3
  fourth_else a b c x0 x1 x2 x3 h1 h2 h3 = simp (h1, h2, h3) refl

module _ {S : Type 0} (env : Environment S) (d : DecodedMessage) (t : ℕ) (p : Protocol S)
    (routine : IsRoutine env d t) where
  checked_lem : on_checked env d p.session t p ≡ on_sequence env d p.session t p
  unfolding prepare_logon resets ◌>>=◌ pure
  checked_lem = rw (routine.other) refl

  header_lem : on_header env d p.session t p ≡ on_checked env d p.session t p
  unfolding on_header
  header_lem = rw (routine.ids, routine.dup, routine.orig, routine.near) refl

  pub on_inbound-sequence :
      p.initialization_error ≡ none → on_inbound env d t p ≡ on_sequence env d p.session t p
  on_inbound-sequence start = initialized_lem env d t p start ∙ header_lem ∙ checked_lem

  module _ (live : p.session.state ≡ active) where
    -- An active session has no phase to violate.
    no_violation : admin_phase_violation p.session.state d.msg_type ≡ none
    unfolding admin_phase_violation is_pre_activation_state is_active_admin_state
    no_violation = rw (live) (by_type d.msg_type routine.other)
      where
        by_type : (m : MsgType) → is_logon m ≡ false → admin_phase_violation active m ≡ none
        by_type logon e = absurd (ground arith)
        by_type heartbeat e = refl
        by_type test_request e = refl
        by_type resend_request e = refl
        by_type sequence_reset e = refl
        by_type logout e = refl
        by_type reject e = refl
        by_type (application s) e = refl

    early :
        (is_present (admin_phase_violation p.session.state d.msg_type)
          && not env.config.session.is_initiator
          && same_state p.session.state connected
          && not (is_logon d.msg_type))
        ≡ false
    early = rw (no_violation) refl

    pub on_sequence-stale :
        d.msg_seq_num < p.session.next_in_seq
        → on_sequence env d p.session t p ≡ on_stale env d p.session t p
    unfolding on_sequence
    on_sequence-stale low =
        ap (λ (m : Action (Protocol S) ProtocolEvent). m p)
          (third_then _ _ _ _ _ early (lt→ltb d.msg_seq_num p.session.next_in_seq low))

    pub on_sequence-number :
        p.session.next_in_seq ≤ d.msg_seq_num
        → (is_sequence_reset d.msg_type && not (has_boolean d 123)) ≡ false
        → on_sequence env d p.session t p ≡ on_number env d p.session none t p
    unfolding on_sequence
    on_sequence-number high counts =
        ap (λ (m : Action (Protocol S) ProtocolEvent). m p)
          (fourth_else _ _ _ _ _ _ _ early (ge→ltb d.msg_seq_num p.session.next_in_seq high) counts)
        ∙ ap (λ v. on_number env d p.session v t p) no_violation
