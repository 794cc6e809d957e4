-- ===== src/Ha/Health.antt =====
-- `HaController::CheckHealth`: when the peer counts as dead and the standby takes over.
use native.Mathlib.Nat.{div-lt_iff_lt-mul}
use nimblefix.Common.{
  ℕ, ◌+◌, ◌-◌, ◌*◌, ◌/◌, ◌%◌, ◌^◌, ◌≤◌, ◌<◌, ◌≡◌, arith, Bool, true, ◌&&◌, if◌then◌else◌, leb, ltb,
}
use nimblefix.Common.Int.{pos}
use nimblefix.Ha.{
  HaPeerState, primary, standby, HaController, alive, suspect, dead, check_health, classify,
  same_role, promote_to_primary, change_role, heartbeat_ns,
}

-- What a silence of the peer, in nanoseconds, means for heartbeats `interval_ns` apart.
abbrev pub state_after : HaController → ℕ → ℕ → HaPeerState
state_after c interval_ns silence =
    if ltb silence (c.config.suspect_threshold * interval_ns)
    then alive
    else if ltb silence (c.config.dead_threshold * interval_ns)
    then suspect
    else dead

-- Whether a silent peer makes the instance take over.
abbrev pub takes_over : HaController → ℕ → ℕ → Bool
takes_over c interval_ns silence =
    leb (c.config.dead_threshold * interval_ns) silence
    && (c.config.auto_failover && same_role c.role standby)

-- A number of whole intervals has passed when its product has.
ltb-/ :
    (silence threshold interval_ns : ℕ)
    → 0 < interval_ns
    → ltb (silence / interval_ns) threshold ≡ ltb silence (threshold * interval_ns)
ltb-/ silence threshold interval_ns h =
    let below = div-lt_iff_lt-mul {k = interval_ns} {x = silence} {y = threshold} h in ground arith

module _ (c : HaController) (interval_ns silence : ℕ) (positive : 0 < interval_ns)
    (ordered : c.config.suspect_threshold ≤ c.config.dead_threshold) where
  classify_lem :
      let d = classify c (silence / interval_ns) in
      (d.peer_state ≡ state_after c interval_ns silence)
      × (d.role ≡ (if takes_over c interval_ns silence then primary else c.role))
      × (d.generation ≡ (
          if takes_over c interval_ns silence then (c.generation + 1) % 2 ^ 64 else c.generation))
  unfolding classify promote_to_primary change_role
  classify_lem =
      let a = ltb-/ silence c.config.suspect_threshold interval_ns positive in
      let b = ltb-/ silence c.config.dead_threshold interval_ns positive in ground arith

-- Heartbeats are `k` milliseconds apart, and the peer has been heard.
module _ (clock k : ℕ) (c : HaController) (now_ns : ℕ) (running : c.running ≡ true)
    (interval : c.config.heartbeat_interval ≡ pos k) (positive : 0 < k)
    (fits : k * 1_000_000 < 2 ^ 64) (heard : 0 < c.last_peer_heartbeat_ns)
    (later : c.last_peer_heartbeat_ns < now_ns) where
  heartbeat_ns_lem : heartbeat_ns c.config ≡ k * 1_000_000
  unfolding heartbeat_ns
  heartbeat_ns_lem = rw interval (omega arith)

  check_health-classify :
      check_health clock c now_ns
      ≡ classify c ((now_ns - c.last_peer_heartbeat_ns) / (k * 1_000_000))
  unfolding check_health
  check_health-classify = rw heartbeat_ns_lem (ground arith)

  -- A running controller that has heard its peer takes it, at a later time, for alive while the
  -- silence is shorter than the suspect threshold times the heartbeat interval, for dead from
  -- the dead threshold times the interval on, and for suspect between; it becomes primary, with
  -- the next generation, exactly when the peer is dead, automatic failover is on and it is the
  -- standby.
  pub check_health_lem :
      c.config.suspect_threshold ≤ c.config.dead_threshold
      → let d = check_health clock c now_ns in
        let silence = now_ns - c.last_peer_heartbeat_ns in
        let interval_ns = k * 1_000_000 in
        (d.peer_state ≡ state_after c interval_ns silence)
        × (d.role ≡ (if takes_over c interval_ns silence then primary else c.role))
        × (d.generation ≡ (
            if takes_over c interval_ns silence then (c.generation + 1) % 2 ^ 64 else c.generation))
  check_health_lem ordered =
      rw check_health-classify
        (classify_lem c (k * 1_000_000) (now_ns - c.last_peer_heartbeat_ns) (omega arith) ordered)
