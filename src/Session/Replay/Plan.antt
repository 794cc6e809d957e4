-- ===== src/Session/Replay/Plan.antt =====
-- `BuildReplayPlan` against its specification, for any store that loads records in order.
use nimblefix.Common.{
  ℕ, ◌+◌, ◌-◌, ◌≤◌, ◌<◌, ◌≡◌, ◌≢◌, refl, ap, ◌∙◌, List, [], none, some, ltb, if◌then◌else◌, arith,
  All, ge→ltb,
}
use nimblefix.Status.{ok}
use nimblefix.Store.Record.{MessageRecord, SessionRecoveryState, SessionStore, LoadsInOrder}
use nimblefix.Session.State.{u32_max}
use nimblefix.Session.Replay.{
  ReplayPlan, next_record, skip_record, start, visit_all, finish, build_from_records,
  build_open_ended, build_replay_plan,
}
use nimblefix.Session.Replay.Chunks.{
  Covers, Alternates, IsRight, single, chunks_from, chunks_from-Covers,
}
use nimblefix.Session.Replay.Right.{range-IsRight, chunks_from-Alternates}
use nimblefix.Session.Replay.Loop.{visit_all-start, visit_all-endless}

-- The plan answers the numbers `b` to `e` of the session from the records `rs`.
pub record Answers (session_id b e : ℕ) (rs : List MessageRecord) (plan : ReplayPlan) : Type 0 where
  pub of_session : plan.session_id ≡ session_id
  pub from_begin : plan.request_begin_seq ≡ b
  pub to_end : plan.request_end_seq ≡ e
  pub covers : Covers b e plan.chunks
  pub right : All (IsRight rs) plan.chunks
  pub alternates : Alternates plan.chunks

module _ {S : Type 0} (store : SessionStore S) (s : S) where
  build-range :
      (fuel session_id b e : ℕ)
      → session_id ≢ 0
      → b ≢ 0
      → e ≢ 0
      → build_replay_plan store fuel s session_id b e
        ≡ build_from_records store fuel s session_id b e
  unfolding build_replay_plan
  build-range fuel session_id b e hs hb he = ground arith

  from_records :
      (fuel session_id b e : ℕ) (rs : List MessageRecord)
      → b ≤ e
      → store.load_outbound_range s session_id b e ≡ ok rs
      → build_from_records store fuel s session_id b e
        ≡ finish session_id b e (visit_all fuel b e (start rs))
  unfolding build_from_records
  from_records fuel session_id b e rs h loaded = rw (ge→ltb e b h, loaded)

  -- For a store that loads records in order, and a session id that is not 0: a request for the
  -- numbers b to e, with b not 0, b at most e, and e below the largest number, for which the
  -- store succeeds to load the records, gets a plan with more fuel than e - b + 1. Its chunks
  -- follow one another from b to e, each holds exactly the replayable messages of its range, as
  -- a replay of every number or as a gap fill of none, and no two neighbours are of one kind.
  pub build_replay_plan_lem :
      (fuel session_id b e : ℕ) (rs : List MessageRecord)
      → LoadsInOrder store s
      → session_id ≢ 0
      → b ≢ 0
      → b ≤ e
      → e < u32_max
      → e - b + 1 < fuel
      → store.load_outbound_range s session_id b e ≡ ok rs
      → (plan : ReplayPlan) × (build_replay_plan store fuel s session_id b e ≡ some (ok plan))
        × Answers session_id b e rs plan
  build_replay_plan_lem fuel session_id b e rs law hs hb he hm hf loaded =
      let k = e - b in
      let (final, ended, produced) =
        visit_all-start fuel b k e rs (omega arith) (omega arith) hm (omega arith) in
      let chunks = chunks_from (single b (next_record b rs)) (b + 1) k (skip_record b rs) in
      (
        record {
          session_id = session_id;
          request_begin_seq = b;
          request_end_seq = e;
          chunks = chunks;
        },
        build-range fuel session_id b e hs hb (omega arith)
            ∙ (from_records fuel session_id b e rs he loaded
                ∙ (rw ended (
                    ap
                      (λ cs. some (
                        ok (record {
                          session_id = session_id;
                          request_begin_seq = b;
                          request_end_seq = e;
                          chunks = cs;
                        })))
                      produced))),
        record {
          of_session = refl;
          from_begin = refl;
          to_end = refl;
          covers =
              chunks_from-Covers (single b (next_record b rs)) (b + 1) k b e (skip_record b rs) refl
                (omega arith) refl (omega arith);
          right = range-IsRight rs b k (law.rising session_id b e rs loaded);
          alternates =
              chunks_from-Alternates (single b (next_record b rs)) (b + 1) k (skip_record b rs);
        },
      )

  -- A request with the end 0 is answered as one that ends with the last number sent, when anything
  -- has been sent, and by an empty plan when nothing has.
  pub build_replay_plan-open :
      (fuel session_id b : ℕ) (state : SessionRecoveryState)
      → session_id ≢ 0
      → b ≢ 0
      → store.load_recovery_state s session_id ≡ ok state
      → build_replay_plan store fuel s session_id b 0 ≡ (
          if ltb 1 state.next_out_seq
          then build_replay_plan store fuel s session_id b (state.next_out_seq - 1)
          else some (
              ok (record {
                session_id = session_id;
                request_begin_seq = b;
                request_end_seq = 0;
                chunks = [];
              })))
  unfolding build_replay_plan build_open_ended
  build_replay_plan-open fuel session_id b state hs hb loaded =
      rw (loaded, build_open_ended) (ground arith)

  -- A request that ends with the largest number, on which the store loads anything, never gets an
  -- answer: the loop counter wraps round below its bound, whatever the fuel.
  pub build_replay_plan-endless :
      (fuel session_id b : ℕ) (rs : List MessageRecord)
      → session_id ≢ 0
      → b ≢ 0
      → b ≤ u32_max
      → store.load_outbound_range s session_id b u32_max ≡ ok rs
      → build_replay_plan store fuel s session_id b u32_max ≡ none
  build_replay_plan-endless fuel session_id b rs hs hb he loaded =
      build-range fuel session_id b u32_max hs hb (omega arith)
      ∙ (from_records fuel session_id b u32_max rs he loaded
          ∙ rw (visit_all-endless fuel b (start rs) he))
