-- ===== src/Admin/Stored.antt =====
-- What src/session/admin_protocol.cpp keeps of a session: the calls of the session core and of the
-- store, `PersistRecoveryState`, `RefreshSessionStateFromStore`, `ResetSessionState`, and
-- `CommitInboundPersistence`.
use nimblefix.Common.{ℕ, ◌+◌, Bool, not, Option, none, some, if◌then◌else◌}
use nimblefix.Status.{Result, Status, ok, err, not_found}
use nimblefix.Store.Record.{MessageRecord, SessionRecoveryState}
use nimblefix.Session.State.{SessionCore, disconnected, same_state}
use nimblefix.Session.Core.{restore_sequence_state}
use nimblefix.Action.{Action, pure, fail, gets, ◌>>=◌, ◌>>◌, on_option}
use nimblefix.Admin.Data.{DecodedMessage, Environment, Protocol}
use nimblefix.Session.Core.{consume_resend_completed, record_inbound_activity}
use nimblefix.Admin.Data.{is_admin_message}

module _ {S A : Type 0} where
  unfoldable pub on_session : (SessionCore → SessionCore × Result A) → Action (Protocol S) A
  on_session f p = let (c, r) = f p.session in (record p { session = c }, r)

module _ {S : Type 0} where
  -- A call of the store that changes it, if there is a store.
  abbrev pub store_result : (S → S × Status) → Protocol S → Option S → Protocol S × Status
  store_result f p none = (p, ok tt)
  store_result f p (some s) = let (s', r) = f s in (record p { store = some s' }, r)

  unfoldable pub on_store : (S → S × Status) → Action (Protocol S) (Unit {0})
  on_store f p = store_result f p p.store

  unfoldable pub ensure_initialized : Action (Protocol S) (Unit {0})
  ensure_initialized p = elim p.initialization_error [ none ↦ (p, ok tt) | some e ↦ (p, err e) ]

  -- What is stored of a session.
  unfoldable pub recovery_state : Protocol S → SessionRecoveryState
  recovery_state p = record {
    session_id = p.session.config.session_id;
    next_in_seq = p.session.next_in_seq;
    next_out_seq = p.session.next_out_seq;
    last_inbound_ns = p.session.last_inbound_ns;
    last_outbound_ns = p.session.last_outbound_ns;
    active = not (same_state p.session.state disconnected);
  }

-- The flags of a stored record: kAdmin is 1 and kPossDup is 2; the extra flags are 0 or kGapFill,
-- so the bits do not meet.
abbrev pub record_flags : Bool → Bool → ℕ → ℕ
record_flags admin poss_dup extra = extra + (if admin then 1 else 0) + (if poss_dup then 2 else 0)

module _ {S : Type 0} (env : Environment S) where
  unfoldable pub persist_recovery_state : Action (Protocol S) (Unit {0})
  unfolding on_store recovery_state
  persist_recovery_state p = on_store (λ s. env.methods.save_recovery_state s (recovery_state p)) p

  abbrev pub restore_loaded : Result SessionRecoveryState → Action (Protocol S) (Unit {0})
  restore_loaded (ok r) = on_session (λ c. restore_sequence_state c r.next_in_seq r.next_out_seq)
  restore_loaded (err not_found) = on_session (λ c. restore_sequence_state c 1 1)
  restore_loaded (err e) = fail e

  abbrev pub loaded_from : Protocol S → Option S → Option (Result SessionRecoveryState)
  loaded_from p none = none
  loaded_from p (some s) = some (env.methods.load_recovery_state s p.session.config.session_id)

  abbrev pub load_recovery : Protocol S → Option (Result SessionRecoveryState)
  load_recovery p = loaded_from p p.store

  unfoldable pub refresh_session_state_from_store : Action (Protocol S) (Unit {0})
  unfolding on_store on_session fail gets pure ◌>>=◌ restore_sequence_state
  refresh_session_state_from_store = do
    on_store env.methods.refresh
    loaded ← gets load_recovery
    on_option loaded (pure tt) restore_loaded

  unfoldable pub reset_session_state : ℕ → ℕ → Bool → Action (Protocol S) (Unit {0})
  unfolding on_store on_session pure gets ◌>>=◌ restore_sequence_state persist_recovery_state
  reset_session_state next_in_seq next_out_seq reset_store = do
    id ← gets (λ p. p.session.config.session_id)
    if reset_store then on_store (λ s. env.methods.reset_session s id) else pure tt
    on_session (λ c. restore_sequence_state c next_in_seq next_out_seq)
    persist_recovery_state

  -- `SaveOutboundViewAndRecoveryState`.
  abbrev pub store_outbound : MessageRecord → Action (Protocol S) (Unit {0})
  store_outbound r p =
      on_store (λ s. env.methods.save_outbound_and_recovery s r (recovery_state p)) p

module _ {S : Type 0} where
  unfoldable pub settle_resend : Action (Protocol S) (Unit {0})
  unfolding consume_resend_completed
  settle_resend p =
      let (c, completed) = consume_resend_completed p.session in
      (
        record p {
          session = c;
          outstanding_test_request_id = if completed then "" else p.outstanding_test_request_id;
        },
        ok tt,
      )

module _ {S : Type 0} (env : Environment S) where
  -- `SaveInboundViewAndRecoveryState`.
  abbrev pub store_inbound : DecodedMessage → ℕ → Action (Protocol S) (Unit {0})
  store_inbound decoded timestamp_ns p =
      on_store
        (λ s.
          env.methods.save_inbound_and_recovery s
            (record {
              session_id = p.session.config.session_id;
              seq_num = decoded.msg_seq_num;
              timestamp_ns = timestamp_ns;
              flags = record_flags (is_admin_message decoded.msg_type) decoded.poss_dup 0;
              payload = decoded.raw;
              body_start_offset = 0;
            })
            (recovery_state p))
        p

  -- `CommitInboundPersistence`; without a store, neither form of saving does anything.
  unfoldable pub commit_inbound_persistence : DecodedMessage → ℕ → Action (Protocol S) (Unit {0})
  unfolding on_session on_store recovery_state ◌>>=◌ record_inbound_activity
  commit_inbound_persistence decoded timestamp_ns = do
    on_session (λ c. record_inbound_activity c timestamp_ns)
    store_inbound decoded timestamp_ns
