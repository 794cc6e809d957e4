-- ===== src/Store/Memory/Examples.antt =====
-- Runs of the memory store, and its theorems at concrete inputs.
use nimblefix.Common.{ℕ, ◌≡◌, refl, some, List, [], ◌∷◌, ◌++◌, arith}
use nimblefix.Common.Assoc.{lookup, insert, map_values}
use nimblefix.Status.{ok}
use nimblefix.Store.Record.{MessageRecord, find, LoadsInOrder}
use nimblefix.Store.Memory.{
  MemoryStore, session, empty, no_data, save_outbound, save_inbound, load_outbound_range,
  memory_session_store, rollover, rollover_session, upsert_by_sequence, collect_outbound,
}
use nimblefix.Store.Memory.View.{IsValid, AllValid, within, outbound_view, inbound_view}
use nimblefix.Store.Memory.Outbound.{outbound_records, load_outbound_range_lem, find-save_outbound}
use nimblefix.Store.Memory.Inbound.{inbound_records, save_inbound_lem}
use nimblefix.Store.Memory.Rollover.{live_bytes, rollover_lem}
use nimblefix.Store.Memory.Calls.{
  run, step, saves_outbound, saves_inbound, rolls_over, run-AllValid,
}
use nimblefix.Store.Memory.InOrder.{AllValid-LoadsInOrder}

abbrev message : ℕ → List ℕ → MessageRecord
message n bytes = record {
  session_id = 7;
  seq_num = n;
  timestamp_ns = 100;
  flags = 0;
  payload = bytes;
  body_start_offset = 0;
}

-- Saved out of order, one replaced, and rolled over.
abbrev filled : MemoryStore
filled = run empty (
    saves_outbound (message 3 (33 ∷ []))
    ∷ saves_outbound (message 1 (11 ∷ 12 ∷ []))
    ∷ saves_inbound (message 9 (90 ∷ []))
    ∷ saves_outbound (message 3 (34 ∷ 35 ∷ []))
    ∷ rolls_over
    ∷ [])

-- One inbound record.
abbrev one_inbound : MemoryStore
one_inbound = record {
  sessions =
      (
        7,
        record no_data {
          inbound =
              record {
                seq_num = 9;
                timestamp_ns = 100;
                flags = 0;
                payload_offset = 0;
                payload_size = 1;
                body_start_offset = 0;
              }
              ∷ [];
          payload_arena = 90 ∷ [];
        },
      )
      ∷ [];
}

filled-AllValid : AllValid filled
filled-AllValid = run-AllValid (
    saves_outbound (message 3 (33 ∷ []))
    ∷ saves_outbound (message 1 (11 ∷ 12 ∷ []))
    ∷ saves_inbound (message 9 (90 ∷ []))
    ∷ saves_outbound (message 3 (34 ∷ 35 ∷ []))
    ∷ rolls_over
    ∷ [])

load_run :
    load_outbound_range filled 7 1 9 ≡ ok (message 1 (11 ∷ 12 ∷ []) ∷ message 3 (34 ∷ 35 ∷ []) ∷ [])
unfolding load_outbound_range run step save_outbound save_inbound rollover rollover_session
    upsert_by_sequence collect_outbound lookup insert map_values
load_run = refl

run-AllValid_example : AllValid (run empty (saves_outbound (message 3 (33 ∷ [])) ∷ rolls_over ∷ []))
run-AllValid_example = run-AllValid (saves_outbound (message 3 (33 ∷ [])) ∷ rolls_over ∷ [])

load_outbound_range_lem_example :
    load_outbound_range filled 7 2 9 ≡ ok (within 2 9 (outbound_records filled 7))
load_outbound_range_lem_example = load_outbound_range_lem filled 7 2 9 filled-AllValid

find-save_outbound_example :
    find 5 (outbound_records (save_outbound filled (message 5 (55 ∷ []))).0 7)
    ≡ some (message 5 (55 ∷ []))
find-save_outbound_example =
    find-save_outbound filled (message 5 (55 ∷ [])) 7 5 filled-AllValid (omega arith) (omega arith)

save_inbound_lem_example :
    inbound_records (save_inbound filled (message 4 (44 ∷ []))).0 7
    ≡ inbound_records filled 7 ++ (message 4 (44 ∷ []) ∷ [])
save_inbound_lem_example =
    save_inbound_lem filled (message 4 (44 ∷ [])) 7 filled-AllValid (omega arith) (omega arith)

rollover_lem_example :
    let d = session filled 7 in
    let d' = session (rollover filled).0 7 in
    IsValid d'
    × (outbound_view 7 d' ≡ outbound_view 7 d)
    × (inbound_view 7 d' ≡ inbound_view 7 d)
    × (d'.recovery ≡ d.recovery)
    × (d'.has_recovery ≡ d.has_recovery)
    × (d'.payload_arena
        ≡ live_bytes d.payload_arena d.outbound ++ live_bytes d.payload_arena d.inbound)
rollover_lem_example = rollover_lem filled 7 filled-AllValid

AllValid-LoadsInOrder_example : LoadsInOrder memory_session_store filled
AllValid-LoadsInOrder_example = AllValid-LoadsInOrder filled filled-AllValid
