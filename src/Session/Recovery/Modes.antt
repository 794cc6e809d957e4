-- ===== src/Session/Recovery/Modes.antt =====
-- What each recovery mode leaves behind.
use nimblefix.Common.{ℕ, ◌≡◌, ◌≢◌, refl, ◌∙◌, none, arith, ◌||◌, ◌==◌, if◌then◌else◌}
use nimblefix.Status.{ok, err, ErrorCode, invalid_argument}
use nimblefix.Store.Record.{SessionRecoveryState, SessionStore}
use nimblefix.Session.State.{SessionCore, recovering}
use nimblefix.Session.Core.{
  begin_recovery, finish_recovery, restore_sequence_state, record_inbound_activity,
  record_outbound_activity,
}
use nimblefix.Session.Recovery.{
  RecoveryMode, warm_restart, cold_start, no_recovery, restore_all, restore_warm, recover_mode,
  recover_session,
}

-- A core whose numbers and activity times were restored.
abbrev pub restored : SessionCore → ℕ → ℕ → ℕ → ℕ → SessionCore
restored c next_in next_out inbound_ns outbound_ns = record c {
  resume_state = c.state;
  next_in_seq = next_in;
  next_out_seq = next_out;
  last_inbound_ns = inbound_ns;
  last_outbound_ns = outbound_ns;
  pending_resend = none;
}

-- A core that recovery was entered from.
abbrev pub entered : SessionCore → SessionCore
entered c = record c { resume_state = c.state; state = recovering }

begin-entered : (c : SessionCore) → c.state ≢ recovering → begin_recovery c ≡ (entered c, ok tt)
unfolding begin_recovery
begin-entered c h = ground arith

restore_all-entered :
    (c : SessionCore) (i o a b : ℕ)
    → restore_all (entered c) i o a b ≡ (
        if i == 0 || o == 0 then (entered c, err invalid_argument) else (restored c i o a b, ok tt))
unfolding restore_all restore_sequence_state record_inbound_activity record_outbound_activity
    finish_recovery
restore_all-entered c i o a b = ground arith

module _ {S : Type 0} (store : SessionStore S) (s : S) (c : SessionCore) where
  recover-entered :
      (mode : RecoveryMode)
      → c.state ≢ recovering
      → recover_session store c s mode ≡ recover_mode store s mode (entered c)
  unfolding recover_session
  recover-entered mode h = rw (begin-entered c h)

  -- From any state but recovery itself, a cold start and a start without recovery succeed: both
  -- numbers are 1, nothing is pending, and the session is in the state that it had.
  pub recover_session-cold :
      c.state ≢ recovering
      → (recover_session store c s cold_start ≡ (restored c 1 1 0 0, ok tt))
        × (recover_session store c s no_recovery ≡ (restored c 1 1 0 0, ok tt))
  unfolding recover_mode
  recover_session-cold h = (
    recover-entered cold_start h ∙ restore_all-entered c 1 1 0 0,
    recover-entered no_recovery h ∙ restore_all-entered c 1 1 0 0,
  )

  warm-found :
      (state : SessionRecoveryState)
      → store.load_recovery_state s c.config.session_id ≡ ok state
      → recover_mode store s warm_restart (entered c)
        ≡ restore_all
            (entered c)
            state.next_in_seq
            state.next_out_seq
            state.last_inbound_ns
            state.last_outbound_ns
  unfolding recover_mode
  warm-found state loaded = rw loaded (unfold restore_warm in refl)

  -- A warm restart from stored positive numbers restores them and the activity times, and returns
  -- to the state that the session had; with a number 0 it is refused in the middle of recovery.
  pub recover_session-warm :
      (state : SessionRecoveryState)
      → c.state ≢ recovering
      → store.load_recovery_state s c.config.session_id ≡ ok state
      → recover_session store c s warm_restart ≡ (
          if state.next_in_seq == 0 || state.next_out_seq == 0
          then (entered c, err invalid_argument)
          else (
            restored c state.next_in_seq state.next_out_seq state.last_inbound_ns
                state.last_outbound_ns,
            ok tt,
          ))
  recover_session-warm state h loaded =
      recover-entered warm_restart h
      ∙ (warm-found state loaded
          ∙ restore_all-entered c state.next_in_seq state.next_out_seq state.last_inbound_ns
              state.last_outbound_ns)

  -- A warm restart on which the store has nothing returns the store's error and leaves the session
  -- in the recovering state, from which a second attempt in any mode is refused.
  pub recover_session-missing :
      {e : ErrorCode} (mode : RecoveryMode)
      → c.state ≢ recovering
      → store.load_recovery_state s c.config.session_id ≡ err e
      → (recover_session store c s warm_restart ≡ (entered c, err e))
        × (recover_session store (entered c) s mode ≡ (entered c, err invalid_argument))
  unfolding recover_mode
  recover_session-missing mode h loaded = (
    recover-entered warm_restart h ∙ rw loaded (unfold restore_warm in refl),
    unfold recover_session begin_recovery in refl,
  )
