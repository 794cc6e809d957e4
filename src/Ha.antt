-- ===== src/Ha.antt =====
-- src/runtime/ha.cpp and include/public/nimblefix/runtime/ha.h: the controller of one instance of a
-- high-availability pair. Atomics and the lock are dropped: a call is one step. The clock is an
-- argument `clock`, read where the code calls `NowNs`.
pub mod Step
pub mod Health
pub mod Roles
pub mod Replication
pub mod Snapshots
mod Examples
use nimblefix.Common.{
  ℕ, ◌+◌, ◌-◌, ◌*◌, ◌/◌, ◌%◌, ◌^◌, ◌≤◌, max, Bool, true, false, not, ◌&&◌, ◌||◌, Option, none, some,
  List, [], ◌∷◌, ◌++◌, ◌==◌, ltb, leb, if◌then◌else◌,
}
use nimblefix.Common.Int.{ℤ, pos, negsuc}
use nimblefix.Status.{Result, Status, ok, err, invalid_argument, busy, not_found}

-- `HaRole`.
pub data HaRole : Type 0 where
  solo primary standby : HaRole

-- `==` on roles.
abbrev pub same_role : HaRole → HaRole → Bool
same_role solo solo = true
same_role primary primary = true
same_role standby standby = true
same_role _ _ = false

-- `HaPeerState`.
pub data HaPeerState : Type 0 where
  unknown alive suspect dead : HaPeerState

pub record SessionSequenceState : Type 0 where
  pub session_id : ℕ
  pub next_inbound_seq : ℕ
  pub next_outbound_seq : ℕ
  pub last_activity_ns : ℕ

pub record HaStateSnapshot : Type 0 where
  pub snapshot_timestamp_ns : ℕ
  pub generation : ℕ
  pub sessions : List SessionSequenceState

-- The intervals are signed numbers of milliseconds. The callbacks are left out: what is passed to
-- `on_role_change` is in `role_changes` of the controller.
pub record HaConfig : Type 0 where
  pub initial_role : HaRole
  pub heartbeat_interval : ℤ
  pub suspect_threshold : ℕ
  pub dead_threshold : ℕ
  pub replication_interval : ℤ
  pub auto_failover : Bool

-- `HaController::Impl`, with the calls of `on_role_change` so far, the latest first.
pub record HaController : Type 0 where
  pub config : HaConfig
  pub role : HaRole
  pub peer_state : HaPeerState
  pub generation : ℕ
  pub last_peer_heartbeat_ns : ℕ
  pub running : Bool
  pub configured : Bool
  pub last_applied_snapshot : Option HaStateSnapshot
  pub last_applied_generation : ℕ
  pub role_changes : List (HaRole × HaRole)

unfoldable pub new_controller : HaController
new_controller = record {
  config = record {
    initial_role = solo;
    heartbeat_interval = pos 1000;
    suspect_threshold = 3;
    dead_threshold = 5;
    replication_interval = pos 500;
    auto_failover = false;
  };
  role = solo;
  peer_state = unknown;
  generation = 0;
  last_peer_heartbeat_ns = 0;
  running = false;
  configured = false;
  last_applied_snapshot = none;
  last_applied_generation = 0;
  role_changes = [];
}

unfoldable pub change_role : HaController → HaRole → HaRole → HaController × Status
change_role c expected desired =
    if same_role c.role expected
    then (
      record c {
        role = desired;
        generation = (c.generation + 1) % 2 ^ 64;
        role_changes = (c.role, desired) ∷ c.role_changes;
      },
      ok tt,
    )
    else (c, err invalid_argument)

abbrev pub is_positive : ℤ → Bool
is_positive (pos n) = not (n == 0)
is_positive (negsuc n) = false

unfoldable pub configure : HaController → HaConfig → HaController × Status
configure c config =
    if c.running
    then (c, err busy)
    else if not (is_positive config.heartbeat_interval)
    then (c, err invalid_argument)
    else if not (is_positive config.replication_interval)
    then (c, err invalid_argument)
    else if config.suspect_threshold == 0
    then (c, err invalid_argument)
    else if ltb config.dead_threshold config.suspect_threshold
    then (c, err invalid_argument)
    else (
      record c {
        config = config;
        role = config.initial_role;
        peer_state = unknown;
        generation = 0;
        last_peer_heartbeat_ns = 0;
        configured = true;
      },
      ok tt,
    )

unfoldable pub start : HaController → HaController × Status
start c = if c.configured then (record c { running = true }, ok tt) else (c, err invalid_argument)

unfoldable pub stop : HaController → HaController
stop c = record c { running = false }

unfoldable pub promote_to_primary : HaController → HaController × Status
unfolding change_role
promote_to_primary c = change_role c standby primary

unfoldable pub demote_to_standby : HaController → HaController × Status
unfolding change_role
demote_to_standby c = change_role c primary standby

unfoldable pub record_peer_heartbeat : ℕ → HaController → ℕ → HaController
record_peer_heartbeat clock c timestamp_ns = record c {
  last_peer_heartbeat_ns = if timestamp_ns == 0 then clock else timestamp_ns;
  peer_state = alive;
}

-- The interval as an unsigned 64-bit number of nanoseconds; a product that the signed type of the
-- code cannot hold is taken modulo 2 ^ 64.
unfoldable pub heartbeat_ns : HaConfig → ℕ
heartbeat_ns config = elim config.heartbeat_interval [
  | pos n ↦ (n * 1_000_000) % 2 ^ 64
  | negsuc n ↦ (2 ^ 64 - ((n + 1) * 1_000_000) % 2 ^ 64) % 2 ^ 64
]

-- The part of `CheckHealth` after `missed` is known.
unfoldable pub classify : HaController → ℕ → HaController
unfolding promote_to_primary
classify c missed =
    if leb c.config.dead_threshold missed
    then (let fenced = record c { peer_state = dead } in
        if c.config.auto_failover && same_role c.role standby
        then (promote_to_primary fenced).0
        else fenced)
    else if leb c.config.suspect_threshold missed
    then record c { peer_state = suspect }
    else record c { peer_state = alive }

unfoldable pub check_health : ℕ → HaController → ℕ → HaController
unfolding heartbeat_ns classify
check_health clock c current_time_ns =
    let last = c.last_peer_heartbeat_ns in
    let now = if current_time_ns == 0 then clock else current_time_ns in
    if not c.running
    then c
    else if last == 0
    then c
    else if leb now last
    then record c { peer_state = alive }
    else if heartbeat_ns c.config == 0
    then c
    else classify c ((now - last) / heartbeat_ns c.config)
