-- ===== src/Admin/Keeps/Timed.antt =====
-- What the replay of frames and the timer keep.
use nimblefix.Common.{ℕ, zero, suc, List, arith}
use nimblefix.Store.Record.{MessageRecord}
use nimblefix.Action.Keeps.{Keeps, keeps_rules}
use nimblefix.Admin.Data.{Environment, Protocol, ProtocolEvent}
use nimblefix.Admin.Replay.{replay_from, replay_outbound, replay_counterparty_expected_range}
use nimblefix.Admin.Timer.{send_test_request, send_heartbeat, act_on_timer, on_timer}
use nimblefix.Admin.Keeps.{Steps}
use nimblefix.Admin.Keeps.Sent.{
  Keeps-ensure_initialized, Keeps-build_heartbeat_frame, Keeps-build_test_request_frame,
  Keeps-build_gap_fill_frame,
}

module _ {S : Type 0} (env : Environment S) {P : Protocol S → Type 0} (steps : Steps P) where
  pub Keeps-replay_from :
      (fuel e n : ℕ) (rs : List MessageRecord) (t : ℕ) → Keeps P (replay_from env fuel e n rs t)
  unfolding replay_from
  Keeps-replay_from zero e n rs t = search keeps_rules
  Keeps-replay_from (suc fuel) e n rs t =
      search (keeps_rules, Keeps-build_gap_fill_frame env steps.encodes, Keeps-replay_from fuel)
        depth 12

  pub Keeps-replay_outbound : (b e t : ℕ) → Keeps P (replay_outbound env b e t)
  unfolding replay_outbound
  Keeps-replay_outbound b e t = search (keeps_rules, Keeps-replay_from) depth 12

  pub Keeps-replay_counterparty_expected_range :
      (n o t : ℕ) (event : ProtocolEvent)
      → Keeps P (replay_counterparty_expected_range env n o t event)
  unfolding replay_counterparty_expected_range
  Keeps-replay_counterparty_expected_range n o t event =
      search (keeps_rules, Keeps-replay_outbound) depth 12

  pub Keeps-send_test_request : (t : ℕ) → Keeps P (send_test_request env t)
  unfolding send_test_request
  Keeps-send_test_request t =
      search (keeps_rules, Keeps-build_test_request_frame env steps.encodes, steps.notes_test) depth
        12

  pub Keeps-send_heartbeat : (t : ℕ) → Keeps P (send_heartbeat env t)
  unfolding send_heartbeat
  Keeps-send_heartbeat t =
      search (keeps_rules, Keeps-build_heartbeat_frame env steps.encodes) depth 12

  Keeps-act_on_timer : (t : ℕ) → Keeps P (act_on_timer env t)
  unfolding act_on_timer
  Keeps-act_on_timer t = record {
    at = λ p h. ground (arith, (Keeps-send_test_request t).at p h, (Keeps-send_heartbeat t).at p h);
  }

  pub Keeps-on_timer : (t : ℕ) → Keeps P (on_timer env t)
  unfolding on_timer
  Keeps-on_timer t = search (keeps_rules, Keeps-ensure_initialized, Keeps-act_on_timer)
