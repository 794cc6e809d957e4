-- ===== src/Store/Memory/Calls.antt =====
-- Every call keeps the store valid, so what is said of valid stores holds after any history.
use nimblefix.Common.{ℕ, ◌<◌, List, [], ◌∷◌, arith, Bool-cases, inl, inr, ◌==◌}
use nimblefix.Common.Assoc.{lookup, lookup-erase}
use nimblefix.Status.{Status, ok, err}
use nimblefix.Store.Record.{MessageRecord, SessionRecoveryState}
use nimblefix.Store.Memory.{
  SessionData, MemoryStore, session, no_data, empty, after, validate_record_view, set_recovery,
  save_outbound, save_inbound, reserve_additional_session_storage, save_recovery_state,
  save_inbound_view_and_recovery_state, save_outbound_view_and_recovery_state,
  then_save_recovery_state, reset_session, rollover,
}
use nimblefix.Store.Memory.View.{IsValid, AllValid, put_session-AllValid}
use nimblefix.Store.Memory.Outbound.{add_outbound-IsValid}
use nimblefix.Store.Memory.Inbound.{add_inbound-IsValid}
use nimblefix.Store.Memory.Rollover.{rollover_lem}

pub data Call : Type 0 where
  saves_outbound saves_inbound : MessageRecord → Call
  reserves : ℕ → Call
  saves_recovery : SessionRecoveryState → Call
  saves_inbound_and_recovery : MessageRecord → SessionRecoveryState → Call
  saves_outbound_and_recovery : MessageRecord → SessionRecoveryState → Call
  resets : ℕ → Call
  rolls_over : Call

unfoldable pub step : MemoryStore → Call → MemoryStore × Status
step m (saves_outbound r) = save_outbound m r
step m (saves_inbound r) = save_inbound m r
step m (reserves session_id) = (reserve_additional_session_storage m session_id, ok tt)
step m (saves_recovery state) = save_recovery_state m state
step m (saves_inbound_and_recovery r state) = save_inbound_view_and_recovery_state m r state
step m (saves_outbound_and_recovery r state) = save_outbound_view_and_recovery_state m r state
step m (resets session_id) = reset_session m session_id
step m rolls_over = rollover m

unfoldable pub run : MemoryStore → List Call → MemoryStore
run m [] = m
run m (call ∷ calls) = run (step m call).0 calls

no_data-IsValid : IsValid no_data
no_data-IsValid = omega arith

set_recovery-IsValid :
    (d : SessionData) (state : SessionRecoveryState) → IsValid d → IsValid (set_recovery d state)
set_recovery-IsValid d state v = record {
  outbound_fits = v.outbound_fits;
  inbound_fits = v.inbound_fits;
  ordered = v.ordered;
}

-- A call that validates first is done on a record with a number, or not at all.
after-AllValid :
    (m changed : MemoryStore) (r : MessageRecord)
    → AllValid m
    → (0 < r.seq_num → AllValid changed)
    → AllValid (after (validate_record_view r) changed m).0
after-AllValid m changed r v h = elim (Bool-cases (r.session_id == 0)) [
  | inl none_given ↦ rw none_given v
  | inr given ↦ elim (Bool-cases (r.seq_num == 0)) [
    | inl unnumbered ↦ rw (given, unnumbered) v
    | inr numbered ↦ rw (given, numbered) (h (ground arith))
  ]
]

save_outbound-AllValid :
    (m : MemoryStore) (r : MessageRecord) → AllValid m → AllValid (save_outbound m r).0
unfolding save_outbound
save_outbound-AllValid m r v = after-AllValid m _ r v λ h.
    put_session-AllValid m r.session_id _
      (add_outbound-IsValid (session m r.session_id) r h (v r.session_id)) v

save_recovery_state-AllValid :
    (m : MemoryStore) (state : SessionRecoveryState)
    → AllValid m
    → AllValid (save_recovery_state m state).0
unfolding save_recovery_state
save_recovery_state-AllValid m state v = elim (Bool-cases (state.session_id == 0)) [
  | inl missing ↦ rw missing v
  | inr given ↦ rw given (
      put_session-AllValid m state.session_id _ (set_recovery-IsValid _ state (v state.session_id))
        v)
]

reset-AllValid :
    (m : MemoryStore) (session_id : ℕ) → AllValid m → AllValid (reset_session m session_id).0
unfolding reset_session
reset-AllValid m session_id v j = elim (Bool-cases (session_id == j)) [
  | inl erased ↦ rw (lookup-erase, erased) no_data-IsValid
  | inr other ↦ rw (lookup-erase, other) (v j)
]

then_recovery-AllValid :
    (m : MemoryStore) (status : Status) (state : SessionRecoveryState)
    → AllValid m
    → AllValid (then_save_recovery_state (m, status) state).0
unfolding then_save_recovery_state
then_recovery-AllValid m (ok _) state v = save_recovery_state-AllValid m state v
then_recovery-AllValid m (err e) state v = v

step-AllValid : (m : MemoryStore) (call : Call) → AllValid m → AllValid (step m call).0
unfolding step
step-AllValid m (saves_outbound r) v = save_outbound-AllValid m r v
step-AllValid m (saves_inbound r) v =
    unfold save_inbound in
    after-AllValid m _ r v λ h.
      put_session-AllValid m r.session_id _
        (add_inbound-IsValid (session m r.session_id) r (v r.session_id)) v
step-AllValid m (reserves session_id) v =
    unfold reserve_additional_session_storage in
    put_session-AllValid m session_id _ (v session_id) v
step-AllValid m (saves_recovery state) v = save_recovery_state-AllValid m state v
step-AllValid m (saves_inbound_and_recovery r state) v =
    unfold save_inbound_view_and_recovery_state in
    after-AllValid m _ r v λ h.
      put_session-AllValid m r.session_id _
        (set_recovery-IsValid _ state
          (add_inbound-IsValid (session m r.session_id) r (v r.session_id)))
        v
step-AllValid m (saves_outbound_and_recovery r state) v =
    unfold save_outbound_view_and_recovery_state in
    then_recovery-AllValid (save_outbound m r).0 (save_outbound m r).1 state
      (save_outbound-AllValid m r v)
step-AllValid m (resets session_id) v = reset-AllValid m session_id v
step-AllValid m rolls_over v = λ j. (rollover_lem m j v).0

run_from-AllValid : (m : MemoryStore) (calls : List Call) → AllValid m → AllValid (run m calls)
unfolding run
run_from-AllValid m [] v = v
run_from-AllValid m (call ∷ calls) v =
    run_from-AllValid (step m call).0 calls (step-AllValid m call v)

-- After any sequence of calls on an empty store every session's payloads lie inside its arena and
-- its outbound records stand in strictly rising order, from 1 on.
pub run-AllValid : (calls : List Call) → AllValid (run empty calls)
run-AllValid calls = run_from-AllValid empty calls (λ session_id. unfold lookup in no_data-IsValid)
