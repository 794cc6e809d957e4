-- ===== src/Session/Replay/Examples.antt =====
-- Replay plans at concrete inputs, from a memory store.
use nimblefix.Common.{◌≡◌, refl, true, none, some, List, [], ◌∷◌, ℕ, arith}
use nimblefix.Common.Assoc.{lookup, insert}
use nimblefix.Status.{ok}
use nimblefix.Store.Record.{MessageRecord, SessionRecoveryState}
use nimblefix.Store.Memory.{
  empty, memory_session_store, save_outbound, save_recovery_state, load_outbound_range,
  load_recovery_state, upsert_by_sequence, collect_outbound,
}
use nimblefix.Store.Memory.View.{within}
use nimblefix.Store.Memory.Outbound.{outbound_records}
use nimblefix.Store.Memory.Calls.{Call, run, step, saves_outbound, saves_recovery, run-AllValid}
use nimblefix.Store.Memory.InOrder.{AllValid-LoadsInOrder}
use nimblefix.Session.State.{u32_max}
use nimblefix.Session.Replay.{
  ReplayPlan, replay, gap_fill, build_replay_plan, build_from_records, visit_all, visit, place,
}
use nimblefix.Session.Replay.Plan.{Answers, build_replay_plan_lem, build_replay_plan-endless}
use nimblefix.Session.Replay.FromMemory.{build_replay_plan-run}

abbrev message : ℕ → ℕ → MessageRecord
message n flags = record {
  session_id = 7;
  seq_num = n;
  timestamp_ns = 100;
  flags = flags;
  payload = n ∷ [];
  body_start_offset = 0;
}

abbrev counters : SessionRecoveryState
counters = record {
  session_id = 7;
  next_in_seq = 1;
  next_out_seq = 8;
  last_inbound_ns = 0;
  last_outbound_ns = 0;
  active = true;
}

-- 4 is missing, 5 is an admin message.
abbrev history : List Call
history =
    saves_outbound (message 3 0)
    ∷ saves_outbound (message 5 1)
    ∷ saves_outbound (message 6 0)
    ∷ saves_outbound (message 7 0)
    ∷ saves_recovery counters
    ∷ []

abbrev sent : List MessageRecord
sent = message 3 0 ∷ message 5 1 ∷ message 6 0 ∷ message 7 0 ∷ []

abbrev plan : ReplayPlan
plan = record {
  session_id = 7;
  request_begin_seq = 3;
  request_end_seq = 7;
  chunks =
      record { kind = replay; begin_seq = 3; end_seq = 3; messages = message 3 0 ∷ [] }
      ∷ record { kind = gap_fill; begin_seq = 4; end_seq = 5; messages = [] }
      ∷ record {
        kind = replay;
        begin_seq = 6;
        end_seq = 7;
        messages = message 6 0 ∷ message 7 0 ∷ [];
      }
      ∷ [];
}

loaded_run : load_outbound_range (run empty history) 7 3 7 ≡ ok sent
unfolding run step save_outbound save_recovery_state load_outbound_range upsert_by_sequence
    collect_outbound lookup insert
loaded_run = refl

expected_plan : build_replay_plan memory_session_store 9 (run empty history) 7 3 7 ≡ some (ok plan)
unfolding run step save_outbound save_recovery_state load_outbound_range upsert_by_sequence
    collect_outbound lookup insert build_replay_plan build_from_records visit_all visit place
expected_plan = refl

build_replay_plan_lem_example :
    (p : ReplayPlan) × (build_replay_plan memory_session_store 9 (run empty history) 7 3 7
      ≡ some (ok p))
    × Answers 7 3 7 sent p
build_replay_plan_lem_example =
    build_replay_plan_lem memory_session_store (run empty history) 9 7 3 7 sent
      (AllValid-LoadsInOrder (run empty history) (run-AllValid history)) (omega arith) (omega arith)
      (omega arith) (omega arith) (omega arith) loaded_run

build_replay_plan-run_example :
    (p : ReplayPlan) × (build_replay_plan memory_session_store 9 (run empty history) 7 3 7
      ≡ some (ok p))
    × Answers 7 3 7 (within 3 7 (outbound_records (run empty history) 7)) p
build_replay_plan-run_example =
    build_replay_plan-run history 9 7 3 7 (omega arith) (omega arith) (omega arith) (omega arith)
      (omega arith)

recovery_run : load_recovery_state (run empty history) 7 ≡ ok counters
unfolding run step save_outbound save_recovery_state load_recovery_state upsert_by_sequence lookup
    insert
recovery_run = refl

nothing_loaded : load_outbound_range empty 7 3 u32_max ≡ ok []
unfolding load_outbound_range lookup
nothing_loaded = refl

build_replay_plan-endless_example :
    build_replay_plan memory_session_store 1000 empty 7 3 u32_max ≡ none
build_replay_plan-endless_example =
    build_replay_plan-endless memory_session_store empty 1000 7 3 [] (omega arith) (omega arith)
      (omega arith) nothing_loaded
