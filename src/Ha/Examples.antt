-- ===== src/Ha/Examples.antt =====
-- Runs of the controller and instances of the theorems.
use nimblefix.Common.{
  ◌+◌, ◌-◌, ◌%◌, ◌^◌, ◌*◌, true, some, List, [], ◌∷◌, ◌≡◌, refl, arith, length, if◌then◌else◌,
}
use nimblefix.Common.Int.{pos}
use nimblefix.Status.{ok}
use nimblefix.Ha.{
  standby, primary, HaConfig, HaController, HaStateSnapshot, new_controller, configure,
  check_health,
}
use nimblefix.Ha.Replication.{LiveSession, take_snapshot}
use nimblefix.Ha.Step.{HaCall, starts, beats, checks, demotes, ha_run}
use nimblefix.Ha.Health.{state_after, takes_over, check_health_lem}
use nimblefix.Ha.Roles.{Leads, run-configured-FollowsFrom}
use nimblefix.Ha.Snapshots.{
  AreDistinct, HaveOwnIds, state_of, session_of, snapshot_entry, take_snapshot_lem,
}

abbrev standby_config : HaConfig
standby_config = record {
  initial_role = standby;
  heartbeat_interval = pos 1000;
  suspect_threshold = 3;
  dead_threshold = 5;
  replication_interval = pos 500;
  auto_failover = true;
}

abbrev waiting : HaController
unfolding new_controller
waiting = record new_controller {
  config = standby_config;
  role = standby;
  running = true;
  last_peer_heartbeat_ns = 1_000_000_000;
}

check_health_lem_example :
    let d = check_health 0 waiting 7_000_000_000 in
    let silence = 7_000_000_000 - 1_000_000_000 in
    let interval_ns = 1000 * 1_000_000 in
    (d.peer_state ≡ state_after waiting interval_ns silence)
    × (d.role ≡ (if takes_over waiting interval_ns silence then primary else standby))
    × (d.generation ≡ (if takes_over waiting interval_ns silence then (0 + 1) % 2 ^ 64 else 0))
unfolding waiting
check_health_lem_example =
    check_health_lem 0 1000 waiting 7_000_000_000 refl refl (omega arith) (omega arith)
      (omega arith) (omega arith) (omega arith)

abbrev failover_calls : List HaCall
failover_calls = starts ∷ beats 0 1_000_000_000 ∷ checks 0 7_000_000_000 ∷ demotes ∷ []

run-configured-FollowsFrom_example :
    let c = ha_run (configure new_controller standby_config).0 failover_calls in
    Leads standby c.role c.role_changes × (c.generation ≡ length c.role_changes % 2 ^ 64)
unfolding configure new_controller
run-configured-FollowsFrom_example =
    run-configured-FollowsFrom standby_config failover_calls refl (refl, (refl, (refl, (refl, tt))))

abbrev two_live : List LiveSession
two_live =
    record {
      session_id = 1;
      next_in_seq = 10;
      next_out_seq = 20;
      last_inbound_ns = 5;
      last_outbound_ns = 6;
    }
    ∷ record {
      session_id = 2;
      next_in_seq = 3;
      next_out_seq = 4;
      last_inbound_ns = 8;
      last_outbound_ns = 7;
    }
    ∷ []

take_snapshot_lem_example :
    (snapshot : HaStateSnapshot) × (take_snapshot 9 waiting (some (two_live, 2 ∷ 3 ∷ []))
      ≡ ok snapshot)
    × (snapshot.snapshot_timestamp_ns ≡ 9)
    × (snapshot.generation ≡ 0)
    × AreDistinct snapshot.sessions
    × (state_of 3 snapshot.sessions ≡ snapshot_entry (session_of 3 two_live) true 3)
unfolding HaveOwnIds session_of waiting
take_snapshot_lem_example = take_snapshot_lem 9 waiting two_live (2 ∷ 3 ∷ []) 3 (refl, (refl, tt))
