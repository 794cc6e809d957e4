-- ===== src/Admin/Keeps/Handled.antt =====
-- What the handlers of inbound messages keep.
use Prim.Native.String.{String}
use nimblefix.Common.{
  ℕ, ◌%◌, ◌^◌, Bool, true, false, ◌≤◌, Option, none, some, ◌≡◌, refl, ap, arith, if◌then◌else◌,
}
use nimblefix.Common.Int.{ℤ}
use nimblefix.Status.{Result, ok, err, not_found}
use nimblefix.Store.Record.{SessionRecoveryState}
use nimblefix.Session.State.{u32_max}
use nimblefix.Action.{pure, on_option}
use nimblefix.Action.Keeps.{
  Keeps, keeps_rules, Keeps-pure, Keeps-fail, Keeps-bind, Ensures-if, Ensures-read,
}
use nimblefix.Admin.Data.{
  MsgType, heartbeat, test_request, resend_request, reject, sequence_reset, logout, logon,
  application, is_logon, Environment, Protocol, DecodedMessage, ProtocolEvent,
}
use nimblefix.Admin.Stored.{
  persist_recovery_state, reset_session_state, restore_loaded, load_recovery, loaded_from,
  refresh_session_state_from_store,
}
use nimblefix.Admin.Stored.{settle_resend, store_inbound, commit_inbound_persistence}
use nimblefix.Admin.Frames.{logout_and_disconnect}
use nimblefix.Admin.Logon.{reset_for_logon, answer_logon, accept_logon, process_inbound_logon}
use nimblefix.Admin.Dispatch.{
  build_business_reject, process_inbound_application, on_heartbeat, on_test_request,
  on_resend_request, fill_to, on_gap_fill, on_logout, dispatch_inbound, handler_of,
}
use nimblefix.Admin.Keeps.{Steps, Restarts}
use nimblefix.Admin.Validate.Messages.{parse_sequence_reset_new_seq}
use nimblefix.Admin.Keeps.Sent.{
  Keeps-on_session, Keeps-on_store, Keeps-persist_recovery_state, Keeps-encode_admin,
  Keeps-build_logon_frame, Keeps-build_heartbeat_frame, Keeps-admin_begin_logout,
  Keeps-reject_inbound,
}
use nimblefix.Admin.Keeps.Timed.{Keeps-replay_outbound, Keeps-replay_counterparty_expected_range}

-- A number that was read from a message has 32 bits.
pub parse_sequence_reset_new_seq-fits :
    (d : DecodedMessage) (n : ℕ) → parse_sequence_reset_new_seq d ≡ some n → n ≤ u32_max
unfolding parse_sequence_reset_new_seq
parse_sequence_reset_new_seq-fits d n h = ground arith

module _ {S : Type 0} {P : Protocol S → Type 0} (steps : Steps P) where
  pub Keeps-settle_resend : Keeps P settle_resend
  unfolding settle_resend
  Keeps-settle_resend = record { at = λ p h. steps.settles p _ h }

module _ {S : Type 0} (env : Environment S) {P : Protocol S → Type 0} (steps : Steps P) where
  pub Keeps-persist : Keeps P (persist_recovery_state env)
  Keeps-persist = Keeps-persist_recovery_state env steps.encodes

  pub Keeps-logout_and_disconnect :
      (event : ProtocolEvent) (text : String) (t : ℕ)
      → Keeps P (logout_and_disconnect env event text t)
  unfolding logout_and_disconnect
  Keeps-logout_and_disconnect event text t = search (keeps_rules, Keeps-admin_begin_logout)

  Keeps-store_inbound : (d : DecodedMessage) (t : ℕ) → Keeps P (store_inbound env d t)
  Keeps-store_inbound d t = record { at = λ p h. (Keeps-on_store steps.encodes _).at p h }

  pub Keeps-commit_inbound_persistence :
      (d : DecodedMessage) (t : ℕ) → Keeps P (commit_inbound_persistence env d t)
  unfolding commit_inbound_persistence
  Keeps-commit_inbound_persistence d t =
      search (keeps_rules, Keeps-on_session, Keeps-store_inbound, steps.records_in)

  pub Keeps-reset_session_state :
      Restarts env P
      → (i o : ℕ) → i ≤ u32_max
      → o ≤ u32_max
      → (b : Bool) → Keeps P (reset_session_state env i o b)
  unfolding reset_session_state
  Keeps-reset_session_state restarts i o hi ho b =
      search
        (
          keeps_rules,
          Keeps-on_session,
          Keeps-on_store steps.encodes,
          Keeps-persist,
          restarts.restores,
        )
        depth 12

  Keeps-restore_loaded :
      Restarts env P
      → (p : Protocol S) (o : Option (Result SessionRecoveryState)) → load_recovery env p ≡ o
      → Keeps P (on_option o (pure tt) (restore_loaded env))
  Keeps-restore_loaded restarts p none e = Keeps-pure tt
  Keeps-restore_loaded restarts p (some (ok r)) e =
      Keeps-on_session _
        λ q. restarts.restores q _ _ (loaded_in p p.store r e) (loaded_out p p.store r e)
    where
      loaded_in :
          (p : Protocol S) (o : Option S) (r : SessionRecoveryState)
          → loaded_from env p o ≡ some (ok r)
          → r.next_in_seq ≤ u32_max
      loaded_in p none r e = absurd (ground arith)
      loaded_in p (some s) r e =
          restarts.loads.next_in s p.session.config.session_id r (ground arith)

      loaded_out :
          (p : Protocol S) (o : Option S) (r : SessionRecoveryState)
          → loaded_from env p o ≡ some (ok r)
          → r.next_out_seq ≤ u32_max
      loaded_out p none r e = absurd (ground arith)
      loaded_out p (some s) r e =
          restarts.loads.next_out s p.session.config.session_id r (ground arith)
  Keeps-restore_loaded restarts p (some (err not_found)) e =
      Keeps-on_session _ λ q. restarts.restores q 1 1 (omega arith) (omega arith)
  Keeps-restore_loaded restarts p (some (err x)) e = Keeps-fail _

  pub Keeps-refresh_session_state_from_store :
      Restarts env P → Keeps P (refresh_session_state_from_store env)
  unfolding refresh_session_state_from_store
  Keeps-refresh_session_state_from_store restarts =
      Keeps-bind _ _ (Keeps-on_store steps.encodes _) λ _.
        Ensures-read (load_recovery env) (λ o. on_option o (pure tt) (restore_loaded env))
          λ p _. Keeps-restore_loaded restarts p (load_recovery env p) refl

  u32_bound : (n : ℕ) → n % 2 ^ 32 ≤ u32_max
  u32_bound n = omega arith

  Keeps-reset_for_logon :
      (d : DecodedMessage) (b : Bool) → Restarts env P → Keeps P (reset_for_logon env d b)
  Keeps-reset_for_logon d b restarts = Ensures-read _ _ (λ p h.
      Ensures-if b _ _
        (λ e.
          Keeps-reset_session_state restarts _ _ (u32_bound _)
            (next_out_bound p env.config.session.is_initiator (restarts.fits p h)) false)
        (λ e. Keeps-pure tt))
    where
      next_out_bound :
          (p : Protocol S) (i : Bool)
          → p.session.next_out_seq ≤ u32_max
          → (if i then p.session.next_out_seq else 1) ≤ u32_max
      next_out_bound p i h = ground arith

  Keeps-answer_logon : (t : ℕ) (b : Bool) → Keeps P (answer_logon env t b)
  Keeps-answer_logon t b = search (keeps_rules, Keeps-build_logon_frame env steps.encodes)

  Keeps-accept_logon :
      (next : Option ℤ) (o : ℕ) (b : Bool) (t : ℕ) → Keeps P (accept_logon env next o b t)
  unfolding accept_logon
  Keeps-accept_logon next o b t =
      search
        (
          keeps_rules,
          Keeps-answer_logon,
          Keeps-on_session,
          steps.accepts,
          Keeps-persist,
          Keeps-replay_counterparty_expected_range env steps,
        )
        depth 14

  Keeps-process_inbound_logon :
      (d : DecodedMessage) (t : ℕ) → Restarts env P → Keeps P (process_inbound_logon env d t)
  unfolding process_inbound_logon
  Keeps-process_inbound_logon d t restarts =
      search (keeps_rules, Keeps-reset_for_logon, Keeps-accept_logon, Keeps-logout_and_disconnect)
        depth 14

  Keeps-build_business_reject :
      (d : DecodedMessage) (reason t : ℕ) → Keeps P (build_business_reject env d reason t)
  unfolding build_business_reject
  Keeps-build_business_reject d reason t =
      search (keeps_rules, Keeps-encode_admin env steps.encodes)

  Keeps-process_inbound_application :
      (d : DecodedMessage) (t : ℕ) → Keeps P (process_inbound_application env d t)
  unfolding process_inbound_application
  Keeps-process_inbound_application d t =
      search (keeps_rules, Keeps-build_business_reject, Keeps-reject_inbound) depth 12

  Keeps-on_heartbeat : (d : DecodedMessage) → Keeps P (on_heartbeat d)
  unfolding on_heartbeat
  Keeps-on_heartbeat d = record { at = λ p h. ground (arith, steps.notes_test p "" 0 h) }

  Keeps-on_test_request : (d : DecodedMessage) (t : ℕ) → Keeps P (on_test_request env d t)
  unfolding on_test_request
  Keeps-on_test_request d t = search (keeps_rules, Keeps-build_heartbeat_frame env steps.encodes)

  Keeps-on_resend_request : (d : DecodedMessage) (t : ℕ) → Keeps P (on_resend_request env d t)
  unfolding on_resend_request
  Keeps-on_resend_request d t = search (keeps_rules, Keeps-replay_outbound env steps)

  Keeps-fill_to : (d : DecodedMessage) (t n : ℕ) → n ≤ u32_max → Keeps P (fill_to env d t n)
  unfolding fill_to
  Keeps-fill_to d t n fits =
      search (keeps_rules, Keeps-reject_inbound, Keeps-on_session, steps.advances, Keeps-persist)
        depth 16

  Keeps-on_gap_fill : (d : DecodedMessage) (t : ℕ) → Keeps P (on_gap_fill env d t)
  unfolding on_gap_fill
  Keeps-on_gap_fill d t =
      search (keeps_rules, Keeps-reject_inbound, Keeps-fill_to, parse_sequence_reset_new_seq-fits)
        depth 16

  Keeps-on_logout : (t : ℕ) → Keeps P (on_logout env t)
  unfolding on_logout
  Keeps-on_logout t = search (keeps_rules, Keeps-logout_and_disconnect)

  pub Keeps-dispatch_inbound :
      (d : DecodedMessage) (t : ℕ)
      → (is_logon d.msg_type ≡ true → Restarts env P)
      → Keeps P (dispatch_inbound env d t)
  unfolding dispatch_inbound
  Keeps-dispatch_inbound d t restarts = by_type d.msg_type refl
    where
      by_type : (m : MsgType) → d.msg_type ≡ m → Keeps P (handler_of env d t m)
      by_type logon e = Keeps-process_inbound_logon d t (restarts (ap is_logon e))
      by_type heartbeat e = Keeps-on_heartbeat d
      by_type test_request e = Keeps-on_test_request d t
      by_type resend_request e = Keeps-on_resend_request d t
      by_type sequence_reset e = Keeps-on_gap_fill d t
      by_type logout e = Keeps-on_logout t
      by_type reject e = Keeps-pure _
      by_type (application s) e = Keeps-process_inbound_application d t
