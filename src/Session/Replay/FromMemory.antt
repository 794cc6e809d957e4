-- ===== src/Session/Replay/FromMemory.antt =====
-- Replay from the memory store, after any history of calls on it.
use nimblefix.Common.{ℕ, ◌+◌, ◌-◌, ◌≤◌, ◌<◌, ◌≡◌, ◌≢◌, ◌∙◌, List, some, false, arith}
use nimblefix.Status.{ok}
use nimblefix.Store.Memory.{
  MemoryStore, empty, memory_session_store, load_outbound_range, is_bad_range,
}
use nimblefix.Store.Memory.View.{AllValid, within}
use nimblefix.Store.Memory.Outbound.{outbound_records, load_outbound_range_lem}
use nimblefix.Store.Memory.Calls.{Call, run, run-AllValid}
use nimblefix.Store.Memory.InOrder.{AllValid-LoadsInOrder}
use nimblefix.Session.State.{u32_max}
use nimblefix.Session.Replay.{ReplayPlan, build_replay_plan}
use nimblefix.Session.Replay.Plan.{Answers, build_replay_plan_lem}

loads :
    (m : MemoryStore) (session_id b e : ℕ)
    → AllValid m
    → b ≢ 0
    → b ≤ e
    → load_outbound_range m session_id b e ≡ ok (within b e (outbound_records m session_id))
loads m session_id b e v hb he =
    let good : is_bad_range b e ≡ false = ground arith in
    load_outbound_range_lem m session_id b e v ∙ rw good

-- After any calls on an empty memory store, a request for the numbers `b` to `e` of a session,
-- below the largest one, gets a plan that answers it from the session's stored outbound records.
pub build_replay_plan-run :
    (calls : List Call) (fuel session_id b e : ℕ)
    → session_id ≢ 0
    → b ≢ 0
    → b ≤ e
    → e < u32_max
    → e - b + 1 < fuel
    → let m = run empty calls in
      (plan : ReplayPlan) × (build_replay_plan memory_session_store fuel m session_id b e
        ≡ some (ok plan))
      × Answers session_id b e (within b e (outbound_records m session_id)) plan
build_replay_plan-run calls fuel session_id b e hs hb he hm hf =
    let m = run empty calls in
    let v : AllValid m = run-AllValid calls in
    build_replay_plan_lem memory_session_store m fuel session_id b e _ (AllValid-LoadsInOrder m v)
      hs hb he hm hf (loads m session_id b e v hb he)
