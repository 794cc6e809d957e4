-- ===== src/Session/Recovery.antt =====
-- src/session/resend_recovery.cpp, `RecoverSession`: how a session core starts again from a store.
pub mod Modes
mod Examples
use nimblefix.Common.{ℕ}
use nimblefix.Status.{Result, Status, ok, err, ErrorCode}
use nimblefix.Store.Record.{SessionRecoveryState, SessionStore}
use nimblefix.Session.State.{SessionCore}
use nimblefix.Session.Core.{
  begin_recovery, finish_recovery, restore_sequence_state, record_inbound_activity,
  record_outbound_activity,
}

-- `RecoveryMode`.
pub data RecoveryMode : Type 0 where
  memory_only warm_restart cold_start no_recovery : RecoveryMode

-- `status = call; if (!status.ok()) return status;`
infixl 5 ◌then_try◌
abbrev pub ◌then_try◌ :
    SessionCore × Status → (SessionCore → SessionCore × Status) → SessionCore × Status
(c, ok _) then_try f = f c
(c, err e) then_try f = (c, err e)

-- The restores that both store-less and warm recovery make, with the values given.
unfoldable pub restore_all : SessionCore → ℕ → ℕ → ℕ → ℕ → SessionCore × Status
restore_all c next_in next_out inbound_ns outbound_ns =
    restore_sequence_state c next_in next_out
    then_try (λ c'. record_inbound_activity c' inbound_ns)
    then_try (λ c'. record_outbound_activity c' outbound_ns)
    then_try finish_recovery

-- A warm restart, with what the store returned.
unfoldable pub restore_warm : SessionCore → Result SessionRecoveryState → SessionCore × Status
restore_warm c (ok state) =
    restore_all c state.next_in_seq state.next_out_seq state.last_inbound_ns state.last_outbound_ns
restore_warm c (err e) = (c, err e)

module _ {S : Type 0} (store : SessionStore S) where
  -- The body after `BeginRecovery`.
  unfoldable pub recover_mode : S → RecoveryMode → SessionCore → SessionCore × Status
  recover_mode s memory_only c = finish_recovery c
  recover_mode s no_recovery c = restore_all c 1 1 0 0
  recover_mode s cold_start c = restore_all c 1 1 0 0
  recover_mode s warm_restart c = restore_warm c (store.load_recovery_state s c.config.session_id)

  unfoldable pub recover_session : SessionCore → S → RecoveryMode → SessionCore × Status
  recover_session c s mode = begin_recovery c then_try recover_mode s mode
