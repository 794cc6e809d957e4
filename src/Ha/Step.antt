-- ===== src/Ha/Step.antt =====
-- The calls on the controller as one step function.
use nimblefix.Common.{ℕ, Bool, List, [], ◌∷◌}
use nimblefix.Ha.{
  HaConfig, HaController, HaStateSnapshot, configure, start, stop, promote_to_primary,
  demote_to_standby, record_peer_heartbeat, check_health,
}
use nimblefix.Ha.Replication.{apply_snapshot}

-- A call with its arguments; the first number of `beats` and `checks` is what the clock shows.
pub data HaCall : Type 0 where
  configures : HaConfig → HaCall
  starts stops promotes demotes : HaCall
  beats checks : ℕ → ℕ → HaCall
  applies : Bool → HaStateSnapshot → HaCall

unfoldable pub ha_step : HaController → HaCall → HaController
ha_step c (configures config) = (configure c config).0
ha_step c starts = (start c).0
ha_step c stops = stop c
ha_step c promotes = (promote_to_primary c).0
ha_step c demotes = (demote_to_standby c).0
ha_step c (beats clock timestamp_ns) = record_peer_heartbeat clock c timestamp_ns
ha_step c (checks clock now_ns) = check_health clock c now_ns
ha_step c (applies booted snapshot) = (apply_snapshot booted c snapshot).0

unfoldable pub ha_run : HaController → List HaCall → HaController
ha_run c [] = c
ha_run c (call ∷ calls) = ha_run (ha_step c call) calls
