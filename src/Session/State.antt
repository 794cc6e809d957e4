-- ===== src/Session/State.antt =====
-- include/public/nimblefix/session/{session_core, session_key, session_snapshot}.h: the data of one
-- session.
use Prim.Native.String.{String}
use nimblefix.Common.{ℕ, Bool, false, Option, none, ◌==◌}
use nimblefix.Common.Int.{ℤ, pos, negsuc}
use nimblefix.Status.{Status, ok, err, invalid_argument}

-- `SessionState`.
pub data SessionState : Type 0 where
  disconnected connecting connected pending_logon recovering active : SessionState
  resend_processing awaiting_logout closed : SessionState

-- The value of the enumerator.
abbrev pub rank : SessionState → ℕ
rank disconnected = 0
rank connecting = 1
rank connected = 2
rank pending_logon = 3
rank recovering = 4
rank active = 5
rank resend_processing = 6
rank awaiting_logout = 7
rank closed = 8

-- `a == b` on states.
abbrev pub same_state : SessionState → SessionState → Bool
same_state a b = rank a == rank b

pub record ResendRange : Type 0 where
  pub begin_seq : ℕ
  pub end_seq : ℕ

pub record SessionKey : Type 0 where
  pub begin_string : String
  pub sender_comp_id : String
  pub target_comp_id : String
  pub sender_location_id : Option String
  pub target_location_id : Option String
  pub session_qualifier : Option String

pub record SessionConfig : Type 0 where
  pub session_id : ℕ
  pub key : SessionKey
  pub profile_id : ℕ
  pub default_appl_ver_id : String
  pub heartbeat_interval_seconds : ℕ
  pub is_initiator : Bool

-- `DayCutMode`.
pub data DayCutMode : Type 0 where
  no_auto_reset fixed_local_time fixed_utc_time external_control : DayCutMode

pub record DayCutConfig : Type 0 where
  pub mode : DayCutMode
  pub reset_hour : ℤ
  pub reset_minute : ℤ
  pub utc_offset_seconds : ℤ

-- The members of `SessionCore`, less the borrowed pointer to the transport profile.
pub record SessionCore : Type 0 where
  pub config : SessionConfig
  pub state : SessionState
  pub resume_state : SessionState
  pub next_in_seq : ℕ
  pub next_out_seq : ℕ
  pub last_inbound_ns : ℕ
  pub last_outbound_ns : ℕ
  pub pending_resend : Option ResendRange
  pub resend_completed : Bool
  pub warmup_remaining : ℕ
  pub warmup_total : ℕ
  pub day_cut_config : DayCutConfig
  pub last_day_cut_date : ℤ

-- `SessionCore::SessionCore`.
unfoldable pub new : SessionConfig → SessionCore
new config = record {
  config = config;
  state = disconnected;
  resume_state = disconnected;
  next_in_seq = 1;
  next_out_seq = 1;
  last_inbound_ns = 0;
  last_outbound_ns = 0;
  pending_resend = none;
  resend_completed = false;
  warmup_remaining = 0;
  warmup_total = 0;
  day_cut_config = record {
    mode = no_auto_reset;
    reset_hour = pos 0;
    reset_minute = pos 0;
    utc_offset_seconds = pos 0;
  };
  last_day_cut_date = negsuc 0;
}

-- An early return with an error leaves the object as it is.
abbrev pub refuse : SessionCore → SessionCore × Status
refuse c = (c, err invalid_argument)

abbrev pub done : SessionCore → SessionCore × Status
done c = (c, ok tt)

-- The largest `std::uint32_t`.
abbrev pub u32_max : ℕ
u32_max = 4_294_967_295
