-- ===== src/Session/Core/Step.antt =====
-- The calls of a session core as one step function, and runs of it.
use nimblefix.Common.{ℕ, List, [], ◌∷◌}
use nimblefix.Status.{Result, Status, ok, err}
use nimblefix.Session.State.{SessionCore, DayCutConfig, done}
use nimblefix.Session.Core.{
  begin_connect, on_transport_connected, close, begin_recovery, finish_recovery, begin_logon,
  restore_sequence_state, advance_inbound_expected_seq, on_logon_accepted, begin_logout,
  on_transport_closed, allocate_outbound_seq, observe_inbound_seq, begin_resend, complete_resend,
  record_inbound_activity, record_outbound_activity, consume_resend_completed, set_warmup_count,
  consume_warmup_message,
}
use nimblefix.Session.Core.DayCut.{
  trigger_day_cut, apply_day_cut, check_day_cut, set_day_cut_config,
}

-- One call of a public method that may change the object; the borrowed transport profile and its
-- setter are left out.
pub data Call : Type 0 where
  connects transport_connects closes begins_recovery finishes_recovery begins_logon : Call
  restores : ℕ → ℕ → Call
  advances : ℕ → Call
  accepts_logon begins_logout transport_closes allocates : Call
  observes : ℕ → Call
  begins_resend : ℕ → ℕ → Call
  completes_resend : Call
  records_inbound records_outbound checks_day_cut sets_warmup : ℕ → Call
  triggers_day_cut consumes_resend consumes_warmup : Call
  sets_day_cut_config : DayCutConfig → Call

-- A result without its value.
abbrev pub status_of {ℓ} : {A : Type ℓ} → Result A → Status
status_of (ok a) = ok tt
status_of (err e) = err e

-- The new object and the status; a method that returns no status always succeeds.
unfoldable pub step : SessionCore → Call → SessionCore × Status
unfolding begin_connect on_transport_connected close begin_recovery finish_recovery begin_logon
    restore_sequence_state advance_inbound_expected_seq on_logon_accepted begin_logout
    on_transport_closed allocate_outbound_seq observe_inbound_seq begin_resend complete_resend
    record_inbound_activity record_outbound_activity consume_resend_completed set_warmup_count
    consume_warmup_message trigger_day_cut apply_day_cut check_day_cut set_day_cut_config
step c connects = begin_connect c
step c transport_connects = on_transport_connected c
step c closes = close c
step c begins_recovery = begin_recovery c
step c finishes_recovery = finish_recovery c
step c begins_logon = begin_logon c
step c (restores next_in next_out) = restore_sequence_state c next_in next_out
step c (advances next_in) = advance_inbound_expected_seq c next_in
step c accepts_logon = on_logon_accepted c
step c begins_logout = begin_logout c
step c transport_closes = on_transport_closed c
step c allocates = let (c', r) = allocate_outbound_seq c in (c', status_of r)
step c (observes seq_num) = observe_inbound_seq c seq_num
step c (begins_resend b e) = begin_resend c b e
step c completes_resend = complete_resend c
step c (records_inbound t) = record_inbound_activity c t
step c (records_outbound t) = record_outbound_activity c t
step c (checks_day_cut now_ns) = done (check_day_cut c now_ns)
step c (sets_warmup n) = done (set_warmup_count c n)
step c triggers_day_cut = trigger_day_cut c
step c consumes_resend = done (consume_resend_completed c).0
step c consumes_warmup = done (consume_warmup_message c).0
step c (sets_day_cut_config config) = done (set_day_cut_config c config)

-- A sequence of calls, whatever each returns.
unfoldable pub run : SessionCore → List Call → SessionCore
run c [] = c
run c (call ∷ calls) = run (step c call).0 calls
