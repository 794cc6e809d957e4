-- ===== src/Session/Core/Examples.antt =====
-- Runs of the session core, and its theorems at concrete inputs.
use nimblefix.Common.{ℕ, ◌+◌, ◌*◌, ◌≡◌, ◌≢◌, refl, ◌⊎◌, none, true, false, [], ◌∷◌, arith, All}
use nimblefix.Common.Int.{pos, ◌-ℤ◌}
use nimblefix.Status.{ok, err, invalid_argument}
use nimblefix.Session.State.{
  SessionCore, SessionConfig, disconnected, active, resend_processing, awaiting_logout, closed,
  fixed_utc_time, new, DayCutConfig,
}
use nimblefix.Session.Core.{begin_recovery, finish_recovery, complete_resend}
use nimblefix.Session.Core.DayCut.{adjusted_seconds, effective_date, apply_day_cut, check_day_cut}
use nimblefix.Session.Core.Step.{
  step, run, transport_connects, begins_logon, accepts_logon, observes, allocates,
  sets_day_cut_config, checks_day_cut, transport_closes, advances, begins_recovery,
}
use nimblefix.Session.Core.Errors.{ReportsGap, step-error}
use nimblefix.Session.Core.Invariant.{IsValid, run-new-IsValid, run-closed}
use nimblefix.Session.Core.Gap.{observing, after_gap, run-gap}
use nimblefix.Session.Core.Allocate.{allocate_many, allocate_many_lem}
use nimblefix.Session.Core.Reset.{effective_date_lem, check_day_cut_lost, complete_resend-recovery}

abbrev config : SessionConfig
config = record {
  session_id = 7;
  key = record {
    begin_string = "FIX.4.4";
    sender_comp_id = "BUY";
    target_comp_id = "SELL";
    sender_location_id = none;
    target_location_id = none;
    session_qualifier = none;
  };
  profile_id = 1001;
  default_appl_ver_id = "";
  heartbeat_interval_seconds = 30;
  is_initiator = true;
}

abbrev utc_cut : DayCutConfig
utc_cut = record {
  mode = fixed_utc_time;
  reset_hour = pos 17;
  reset_minute = pos 30;
  utc_offset_seconds = pos 0;
}

-- An active session that expects 5 and sends 8.
abbrev trading : SessionCore
trading = record {
  config = config;
  state = active;
  resume_state = disconnected;
  next_in_seq = 5;
  next_out_seq = 8;
  last_inbound_ns = 0;
  last_outbound_ns = 0;
  pending_resend = none;
  resend_completed = false;
  warmup_remaining = 0;
  warmup_total = 0;
  day_cut_config = utc_cut;
  last_day_cut_date = pos 19000;
}

-- 1970-01-01 plus 20000 days, 18:00:00 UTC.
abbrev evening : ℕ
evening = (20000 * 86400 + 64800) * 1_000_000_000

logon_run :
    (run (new config) (transport_connects ∷ begins_logon ∷ accepts_logon ∷ [])).state ≡ active
unfolding run step new
logon_run = refl

evening_date : effective_date utc_cut evening ≡ pos 20000
unfolding effective_date
evening_date = refl

evening_resets : (check_day_cut trading evening).next_in_seq ≡ 1
unfolding check_day_cut apply_day_cut effective_date
evening_resets = refl

step-error_example :
    ((step trading (observes 9)).0 ≡ trading)
    ⊎ ReportsGap trading (observes 9) (step trading (observes 9)).0
step-error_example = step-error trading (observes 9) (refused)
  where
    refused : (step trading (observes 9)).1 ≡ err invalid_argument
    refused = unfold step in refl

run-new-IsValid_example : IsValid (
    run (new config) (
      sets_day_cut_config utc_cut
      ∷ transport_connects
      ∷ accepts_logon
      ∷ checks_day_cut evening
      ∷ observes 4
      ∷ observes 1
      ∷ []))
run-new-IsValid_example =
    run-new-IsValid config
      (sets_day_cut_config utc_cut
        ∷ transport_connects
        ∷ accepts_logon
        ∷ checks_day_cut evening
        ∷ observes 4
        ∷ observes 1
        ∷ [])
      (omega arith)

abbrev shut : SessionCore
shut = record trading { state = closed }

run-closed_example :
    let calls = allocates ∷ transport_closes ∷ advances 9 ∷ transport_connects ∷ allocates ∷ [] in
    ((run shut calls).state ≡ closed) × ((run shut calls).next_out_seq ≡ 8)
run-closed_example =
    run-closed shut
      (allocates ∷ transport_closes ∷ advances 9 ∷ transport_connects ∷ allocates ∷ []) refl
      (all_other)
  where
    all_other :
        All
          (λ call. call ≢ begins_recovery)
          (allocates ∷ transport_closes ∷ advances 9 ∷ transport_connects ∷ allocates ∷ [])
    all_other = ((λ e. cc), ((λ e. cc), ((λ e. cc), ((λ e. cc), ((λ e. cc), tt)))))

run-gap_example : run trading (observes 8 ∷ observing 5 3) ≡ record trading {
  next_in_seq = 8;
  pending_resend = none;
  resume_state = active;
  resend_completed = true;
}
run-gap_example = run-gap trading 8 refl (λ e. cc) (omega arith) (omega arith)

allocate_many_lem_example :
    allocate_many (record trading { next_out_seq = 4_294_967_293 }) 3
    ≡ ok 4_294_967_293 ∷ ok 4_294_967_294 ∷ err invalid_argument ∷ []
allocate_many_lem_example =
    allocate_many_lem (record trading { next_out_seq = 4_294_967_293 }) 2 1 refl refl

effective_date_lem_example : effective_date utc_cut evening ≡ pos 20001 -ℤ pos 1
unfolding adjusted_seconds
effective_date_lem_example =
    effective_date_lem utc_cut evening (20000 * 86400 + 64800) 17 30 refl refl refl (omega arith)
      (omega arith) (omega arith)

abbrev leaving : SessionCore
leaving = record trading { state = awaiting_logout }

check_day_cut_lost_example :
    let c' =
      check_day_cut
        (record (check_day_cut leaving evening) { state = disconnected })
        (evening + 60_000_000_000) in
    (c'.next_in_seq ≡ 5)
    × (c'.next_out_seq ≡ 8)
    × (c'.last_day_cut_date ≡ effective_date utc_cut evening)
unfolding effective_date
check_day_cut_lost_example =
    check_day_cut_lost leaving evening (evening + 60_000_000_000) disconnected refl refl refl
      (λ e. cc) (λ e. cc) refl

complete_resend-recovery_example :
    let c' = (finish_recovery (begin_recovery (after_gap trading 8)).0).0 in
    ((complete_resend c').1 ≡ ok tt) × ((complete_resend c').0.state ≡ resend_processing)
complete_resend-recovery_example = complete_resend-recovery (after_gap trading 8) refl
