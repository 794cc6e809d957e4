-- ===== src/Session/Core.antt =====
-- src/session/session_core.cpp: the sequence-number state machine of one session. A method that
-- changes `*this` returns the new record beside its status.
pub mod DayCut
pub mod Step
pub mod Errors
pub mod Invariant
pub mod Gap
pub mod Allocate
pub mod Reset
mod Examples
use nimblefix.Common.{
  ℕ, ◌+◌, ◌-◌, ◌%◌, ◌^◌, Bool, true, false, ◌&&◌, ◌||◌, Option, none, some, ◌==◌, ltb,
  if◌then◌else◌,
}
use nimblefix.Status.{Result, Status, ok, err, invalid_argument}
use nimblefix.Session.State.{
  SessionState, disconnected, connecting, connected, pending_logon, recovering, active,
  resend_processing, awaiting_logout, closed, same_state, ResendRange, SessionCore, refuse, done,
  u32_max,
}

unfoldable pub begin_connect : SessionCore → SessionCore × Status
begin_connect c =
    if same_state c.state disconnected then done (record c { state = connecting }) else refuse c

unfoldable pub on_transport_connected : SessionCore → SessionCore × Status
on_transport_connected c =
    if same_state c.state disconnected || same_state c.state connecting
    then done (record c { state = connected })
    else refuse c

unfoldable pub close : SessionCore → SessionCore × Status
close c = done (record c { pending_resend = none; state = closed })

unfoldable pub begin_recovery : SessionCore → SessionCore × Status
begin_recovery c =
    if same_state c.state recovering
    then refuse c
    else done (record c { resume_state = c.state; state = recovering })

unfoldable pub finish_recovery : SessionCore → SessionCore × Status
finish_recovery c =
    if same_state c.state recovering then done (record c { state = c.resume_state }) else refuse c

unfoldable pub begin_logon : SessionCore → SessionCore × Status
begin_logon c =
    if same_state c.state connected then done (record c { state = pending_logon }) else refuse c

-- The states in which the sequence numbers may be restored.
abbrev pub may_restore : SessionState → Bool
may_restore s =
    same_state s disconnected
    || same_state s connected
    || same_state s pending_logon
    || same_state s active
    || same_state s recovering

unfoldable pub restore_sequence_state : SessionCore → ℕ → ℕ → SessionCore × Status
restore_sequence_state c next_in next_out =
    if may_restore c.state
    then (if next_in == 0 || next_out == 0
        then refuse c
        else done
            (record c { next_in_seq = next_in; next_out_seq = next_out; pending_resend = none }))
    else refuse c

-- Leaves resend processing once the expected number has passed the end of the pending range.
unfoldable pub finish_resend_if_past : SessionCore → SessionCore
finish_resend_if_past c = elim c.pending_resend [
  | none ↦ c
  | some range ↦
      if same_state c.state resend_processing && ltb range.end_seq c.next_in_seq
      then record c { pending_resend = none; state = c.resume_state; resend_completed = true }
      else c
]

unfoldable pub advance_inbound_expected_seq : SessionCore → ℕ → SessionCore × Status
unfolding finish_resend_if_past
advance_inbound_expected_seq c next_in =
    if next_in == 0
    then refuse c
    else if ltb next_in c.next_in_seq
    then refuse c
    else done (finish_resend_if_past (record c { next_in_seq = next_in }))

unfoldable pub on_logon_accepted : SessionCore → SessionCore × Status
on_logon_accepted c =
    if same_state c.state connected || same_state c.state pending_logon
    then done (record c { state = active; warmup_remaining = c.warmup_total })
    else refuse c

unfoldable pub begin_logout : SessionCore → SessionCore × Status
begin_logout c =
    if same_state c.state active || same_state c.state resend_processing
    then done (record c { pending_resend = none; state = awaiting_logout })
    else refuse c

unfoldable pub on_transport_closed : SessionCore → SessionCore × Status
on_transport_closed c =
    if same_state c.state closed then done c else done (record c { state = disconnected })

-- The states in which sequence numbers may be allocated and observed.
abbrev pub is_live : SessionState → Bool
is_live s =
    same_state s connected
    || same_state s pending_logon
    || same_state s active
    || same_state s awaiting_logout
    || same_state s resend_processing

unfoldable pub allocate_outbound_seq : SessionCore → SessionCore × Result ℕ
allocate_outbound_seq c =
    if is_live c.state
    then (if c.next_out_seq == u32_max
        then (c, err invalid_argument)
        else (record c { next_out_seq = c.next_out_seq + 1 }, ok c.next_out_seq))
    else (c, err invalid_argument)

-- The gap branch while a range is already pending: its end may only grow.
abbrev pub extend_pending : SessionCore → ResendRange → ℕ → SessionCore
extend_pending c range new_end =
    if ltb range.end_seq new_end
    then record c { pending_resend = some (record range { end_seq = new_end }) }
    else c

-- The gap branch otherwise: the range starts at the expected number.
abbrev pub start_pending : SessionCore → ℕ → SessionCore
start_pending c new_end = record c {
  pending_resend = some (record { begin_seq = c.next_in_seq; end_seq = new_end });
  resume_state = c.state;
  state = resend_processing;
}

unfoldable pub detect_gap : SessionCore → ℕ → SessionCore
detect_gap c new_end = elim c.pending_resend [
  | none ↦ start_pending c new_end
  | some range ↦
      if same_state c.state resend_processing
      then extend_pending c range new_end
      else start_pending c new_end
]

-- `++next_in_seq_` wraps at 2 ^ 32.
unfoldable pub observe_inbound_seq : SessionCore → ℕ → SessionCore × Status
unfolding finish_resend_if_past detect_gap
observe_inbound_seq c seq_num =
    if is_live c.state
    then (if ltb seq_num c.next_in_seq
        then refuse c
        else if ltb c.next_in_seq seq_num
        then refuse (detect_gap c (seq_num - 1))
        else done (finish_resend_if_past (record c { next_in_seq = (c.next_in_seq + 1) % 2 ^ 32 })))
    else refuse c

unfoldable pub begin_resend : SessionCore → ℕ → ℕ → SessionCore × Status
begin_resend c begin_seq end_seq =
    if same_state c.state active || same_state c.state awaiting_logout
    then (if begin_seq == 0 || end_seq == 0 || ltb end_seq begin_seq
        then refuse c
        else done (record c {
          pending_resend = some (record { begin_seq = begin_seq; end_seq = end_seq });
          resume_state = c.state;
          state = resend_processing;
        }))
    else refuse c

unfoldable pub complete_resend : SessionCore → SessionCore × Status
complete_resend c =
    if same_state c.state resend_processing
    then done (record c { pending_resend = none; state = c.resume_state; resend_completed = true })
    else refuse c

unfoldable pub record_inbound_activity : SessionCore → ℕ → SessionCore × Status
record_inbound_activity c timestamp_ns = done (record c { last_inbound_ns = timestamp_ns })

unfoldable pub record_outbound_activity : SessionCore → ℕ → SessionCore × Status
record_outbound_activity c timestamp_ns = done (record c { last_outbound_ns = timestamp_ns })

unfoldable pub consume_resend_completed : SessionCore → SessionCore × Bool
consume_resend_completed c =
    if c.resend_completed then (record c { resend_completed = false }, true) else (c, false)

unfoldable pub set_warmup_count : SessionCore → ℕ → SessionCore
set_warmup_count c count = record c { warmup_total = count; warmup_remaining = count }

unfoldable pub consume_warmup_message : SessionCore → SessionCore × Bool
consume_warmup_message c =
    if ltb 0 c.warmup_remaining
    then (record c { warmup_remaining = c.warmup_remaining - 1 }, true)
    else (c, false)

pub record SessionSnapshot : Type 0 where
  pub session_id : ℕ
  pub state : SessionState
  pub profile_id : ℕ
  pub next_in_seq : ℕ
  pub next_out_seq : ℕ
  pub last_inbound_ns : ℕ
  pub last_outbound_ns : ℕ
  pub has_pending_resend : Bool
  pub pending_resend : ResendRange
  pub is_warmup : Bool

-- `SessionCore::Snapshot`.
unfoldable pub snapshot : SessionCore → SessionSnapshot
snapshot c = record {
  session_id = c.config.session_id;
  state = c.state;
  profile_id = c.config.profile_id;
  next_in_seq = c.next_in_seq;
  next_out_seq = c.next_out_seq;
  last_inbound_ns = c.last_inbound_ns;
  last_outbound_ns = c.last_outbound_ns;
  has_pending_resend = elim c.pending_resend [ none ↦ false | some r ↦ true ];
  pending_resend = elim c.pending_resend [
    | none ↦ record { begin_seq = 0; end_seq = 0 }
    | some r ↦ r
  ];
  is_warmup = ltb 0 c.warmup_remaining;
}
