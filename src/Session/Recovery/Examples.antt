-- ===== src/Session/Recovery/Examples.antt =====
-- Recovery from a memory store at concrete inputs.
use nimblefix.Common.{◌≡◌, none, true, false, [], ◌∷◌}
use nimblefix.Common.Int.{pos, negsuc}
use nimblefix.Status.{ok}
use nimblefix.Store.Record.{SessionRecoveryState}
use nimblefix.Store.Memory.{MemoryStore, memory_session_store}
use nimblefix.Session.State.{SessionCore, disconnected, no_auto_reset}
use nimblefix.Session.Recovery.{cold_start, no_recovery, recover_session}
use nimblefix.Session.Recovery.Modes.{restored, recover_session-cold}

abbrev idle : SessionCore
idle = record {
  config = record {
    session_id = 7;
    key = record {
      begin_string = "FIX.4.4";
      sender_comp_id = "BUY";
      target_comp_id = "SELL";
      sender_location_id = none;
      target_location_id = none;
      session_qualifier = none;
    };
    profile_id = 1001;
    default_appl_ver_id = "";
    heartbeat_interval_seconds = 30;
    is_initiator = true;
  };
  state = disconnected;
  resume_state = disconnected;
  next_in_seq = 1;
  next_out_seq = 1;
  last_inbound_ns = 0;
  last_outbound_ns = 0;
  pending_resend = none;
  resend_completed = false;
  warmup_remaining = 0;
  warmup_total = 0;
  day_cut_config = record {
    mode = no_auto_reset;
    reset_hour = pos 0;
    reset_minute = pos 0;
    utc_offset_seconds = pos 0;
  };
  last_day_cut_date = negsuc 0;
}

abbrev saved : SessionRecoveryState
saved = record {
  session_id = 7;
  next_in_seq = 12;
  next_out_seq = 31;
  last_inbound_ns = 500;
  last_outbound_ns = 600;
  active = true;
}

abbrev filled : MemoryStore
filled = record {
  sessions =
      (
        7,
        record {
          outbound = [];
          inbound = [];
          payload_arena = [];
          recovery = saved;
          has_recovery = true;
        },
      )
      ∷ [];
}

recover_session-cold_example :
    (recover_session memory_session_store idle filled cold_start ≡ (restored idle 1 1 0 0, ok tt))
    × (recover_session memory_session_store idle filled no_recovery
        ≡ (restored idle 1 1 0 0, ok tt))
recover_session-cold_example = recover_session-cold memory_session_store filled idle (λ e. cc)
